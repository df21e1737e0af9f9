-- ===== src/Dem/Event/Unique.antt =====
-- A report of a monitor result never gives an event two entries in a memory.
use plug_and_play_autosar.Common.{
  ◌≡◌, ◌≢◌, ◌∙◌, refl, sym, inl, inr, ℕ, max_ℤ, Bool, true, false, ◌&&◌, ◌||◌, some, Bool-cases,
  Option-cases, arith, band, non_zero,
}
use plug_and_play_autosar.Dem.Types.{EventStatus, EventStatusRec, EventParameter, test_failed}
use plug_and_play_autosar.Dem.Debounce.{run_predebounce}
use plug_and_play_autosar.Dem.State.{
  Config, Dem, lookup_event_status_rec, lookup_event_id_parameter, write_event_status_rec,
}
use plug_and_play_autosar.Dem.Memory.{is_initialized, set_event_time_stamp, store_event_evt_mem}
use plug_and_play_autosar.Dem.Memory.Unique.{
  AllUnique, same-AllUnique, set_event_time_stamp-AllUnique, store_event_evt_mem-AllUnique,
}
use plug_and_play_autosar.Dem.Event.{
  update_event_status_rec, update_on_status, clear_changes, finish_update, stamp_time, is_failed,
  store_if, store_changed, process_event, accept, handle_accepted, handle_event,
  is_valid_event_status, dem_set_event_status, clear_unstored, notify_stored,
}
use plug_and_play_autosar.Dem.Event.Guards.{accept-some}
use plug_and_play_autosar.Dem.Event.Confirmed.{
  run_predebounce_keeps, update_on_status_confirms, with_timers_same, notify_stored_same,
  write_same, write_notified_same,
}

stamp_time-AllUnique :
    (b : Bool) (r : EventStatusRec) (d : Dem) → AllUnique d → AllUnique (stamp_time b r d).1
unfolding stamp_time
stamp_time-AllUnique true r d u = set_event_time_stamp-AllUnique r d u
stamp_time-AllUnique false r d u = u

stamp_time_id :
    (b : Bool) (r : EventStatusRec) (d : Dem) → (stamp_time b r d).0.event_id ≡ r.event_id
unfolding stamp_time set_event_time_stamp
stamp_time_id true r d = ground arith
stamp_time_id false r d = refl

update_event_status_rec-AllUnique :
    (c : Config) (p : EventParameter) (s : EventStatus) (r : EventStatusRec) (d : Dem)
    → AllUnique d
    → let (r', d') = update_event_status_rec c p s r d in (r'.event_id ≡ r.event_id) × AllUnique d'
unfolding update_event_status_rec finish_update clear_changes
update_event_status_rec-AllUnique c p s r d u =
    let (status, r1, timers) = run_predebounce s p r d.time_base_buffer in
    let (same_status, same_id) = run_predebounce_keeps s p r d.time_base_buffer in
    let r3 = update_on_status c d p status (clear_changes r1) in
    let (id3, confirms) = update_on_status_confirms c d p status (clear_changes r1) in
    let r4 = record r3 { max_uds_fdc = max_ℤ r3.max_uds_fdc r3.uds_fdc } in
    let d1 = record d { time_base_buffer = timers } in
    let b = r3.error_status_changed && is_failed status in
    (
      stamp_time_id b r4 d1 ∙ (id3 ∙ same_id),
      stamp_time-AllUnique b r4 d1 (same-AllUnique d d1 (with_timers_same timers d) u),
    )

store_if-AllUnique :
    (b : Bool) (c : Config) (p : EventParameter) (r : EventStatusRec) (d : Dem)
    → r.event_id ≢ 0
    → AllUnique d
    → AllUnique (store_if b c p r d).1
unfolding store_if
store_if-AllUnique true c p r d n u =
    let failed_now = r.error_status_changed && non_zero (band test_failed r.status) in
    let (ret, d1) = store_event_evt_mem c p r failed_now d in
    same-AllUnique d1 (notify_stored ret p d1) (notify_stored_same ret p d1)
      (store_event_evt_mem-AllUnique c p r failed_now d n u)
store_if-AllUnique false c p r d n u = u

process_event-AllUnique :
    (c : Config) (id : ℕ) (p : EventParameter) (r : EventStatusRec) (s : EventStatus) (d : Dem)
    → r.event_id ≢ 0
    → AllUnique d
    → AllUnique (process_event c id p r s d).1
unfolding process_event store_changed
process_event-AllUnique c id p r s d n u =
    let (r1, d1) = update_event_status_rec c p s r d in
    let (same_id, u1) = update_event_status_rec-AllUnique c p s r d u in
    let d2 = write_event_status_rec id r1 d1 in
    let u2 = same-AllUnique d1 d2 (write_same id r1 d1) u1 in
    let (ret, d3) = store_changed c p r1 d2 in
    let r2 = clear_unstored ret r1 in
    same-AllUnique d3 _ (write_notified_same id r.status r2 d3) (
      store_if-AllUnique (r1.error_status_changed || r1.extension_data_changed) c p r1 d2
        (λ e. n (sym same_id ∙ e)) u2)

handle_event-AllUnique :
    (c : Config) (id : ℕ) (s : EventStatus) (d : Dem)
    → ((r : EventStatusRec) → lookup_event_status_rec c d id ≡ some r → r.event_id ≢ 0)
    → AllUnique d
    → AllUnique (handle_event c id s d).1
unfolding handle_event handle_accepted
handle_event-AllUnique c id s d has_id u =
    elim (Option-cases
      (accept c d (lookup_event_id_parameter c id) (lookup_event_status_rec c d id))) [
        | inl z ↦ rw (z, handle_event, handle_accepted) u
        | inr ((p, r), z) ↦
            (let (configured, recorded, available, cycle_started, allowed) =
                accept-some c d _ _ p r z in
              rw (z, handle_event, handle_accepted)
                (process_event-AllUnique c id p r s d (has_id r recorded) u))
      ]

-- Whatever a monitor reports for an event, with or without displacement and with or without a
-- rearrangement of the time stamps: if neither memory has two entries of an event before
-- Dem_SetEventStatus, neither has afterwards. The record of the event, if there is one, has an id.
pub dem_set_event_status-AllUnique :
    (c : Config) (id : ℕ) (s : EventStatus) (d : Dem)
    → ((r : EventStatusRec) → lookup_event_status_rec c d id ≡ some r → r.event_id ≢ 0)
    → AllUnique d
    → AllUnique (dem_set_event_status c id s d).1
unfolding dem_set_event_status
dem_set_event_status-AllUnique c id s d has_id u =
    elim (Bool-cases (is_initialized d.dem_state && is_valid_event_status s)) [
      | inl y ↦ rw (y, dem_set_event_status) (handle_event-AllUnique c id s d has_id u)
      | inr n ↦ rw (n, dem_set_event_status) u
    ]
