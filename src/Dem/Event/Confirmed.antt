-- ===== src/Dem/Event/Confirmed.antt =====
-- A report that confirms a fault leaves the event in event memory.
use plug_and_play_autosar.Common.{
  ◌<◌, ◌≡◌, refl, sym, ap, ◌∙◌, ◌≢◌, Bool, true, false, ◌&&◌, ◌||◌, List, arith, ℕ, max_ℤ, Byte,
  band, non_zero,
}
use plug_and_play_autosar.Dem.Types.{
  EventStatus, EventStatusRec, EventParameter, TimeBaseStatus, StdReturn, e_ok, e_not_ok, Origin,
  test_failed,
}
use plug_and_play_autosar.Dem.Debounce.{run_predebounce, pre_debounce_counter}
use plug_and_play_autosar.Dem.Status.{
  update_event_on_failed, update_event_on_passed, count_occurrence, handle_aging_counter_on_failed,
  handle_fault_confirmation, failed_bits, passed_bits, count_failure,
}
use plug_and_play_autosar.Dem.State.{
  Config, Dem, entries_of, write_event_status_rec, notify_event_status_change,
}
use plug_and_play_autosar.Dem.Memory.{
  store_event_evt_mem, set_event_time_stamp, max_timestamp_for_rearrangement,
}
use plug_and_play_autosar.Dem.Memory.Entries.{IsUnique}
use plug_and_play_autosar.Dem.Memory.Store.{
  SameEntries, IsStored, store_event_evt_mem_ok, notify_event_data_changed_same,
}
use plug_and_play_autosar.Dem.Event.{
  update_event_status_rec, update_on_status, store_changed, process_event, notify_stored,
  clear_unstored, stamp_time, is_failed, clear_changes, finish_update, store_if, notify_changed,
}

pub run_predebounce_keeps :
    (s : EventStatus) (p : EventParameter) (r : EventStatusRec) (ts : List TimeBaseStatus)
    → let r' = (run_predebounce s p r ts).1 in (r'.status ≡ r.status) × (r'.event_id ≡ r.event_id)
unfolding run_predebounce pre_debounce_counter
run_predebounce_keeps s p r ts = ground arith

pub update_on_status_confirms :
    (c : Config) (d : Dem) (p : EventParameter) (s : EventStatus) (r : EventStatusRec)
    → let r' = update_on_status c d p s r in
      (r'.event_id ≡ r.event_id)
      × (r.status.b3 ≡ false → r'.status.b3 ≡ true → r'.error_status_changed ≡ true)
unfolding update_on_status update_event_on_failed update_event_on_passed count_occurrence
    handle_aging_counter_on_failed handle_fault_confirmation failed_bits passed_bits count_failure
update_on_status_confirms c d p s r = ground arith

stamp_time_keeps :
    (b : Bool) (r : EventStatusRec) (d : Dem)
    → d.event_time_stamp < max_timestamp_for_rearrangement
    → let (r', d') = stamp_time b r d in
      (r'.event_id ≡ r.event_id)
      × (r'.status ≡ r.status)
      × (r'.error_status_changed ≡ r.error_status_changed)
      × SameEntries d d'
unfolding stamp_time set_event_time_stamp
stamp_time_keeps true r d h = (ground arith, ground arith, ground arith, λ o. ground arith)
stamp_time_keeps false r d h = (refl, refl, refl, λ o. refl)

pub with_timers_same :
    (ts : List TimeBaseStatus) (d : Dem) → SameEntries d (record d { time_base_buffer = ts })
with_timers_same ts d o = ground arith

update_event_status_rec_keeps :
    (c : Config) (p : EventParameter) (s : EventStatus) (r : EventStatusRec) (d : Dem)
    → d.event_time_stamp < max_timestamp_for_rearrangement
    → let (r', d') = update_event_status_rec c p s r d in
      (r'.event_id ≡ r.event_id)
      × (r.status.b3 ≡ false → r'.status.b3 ≡ true → r'.error_status_changed ≡ true)
      × SameEntries d d'
unfolding update_event_status_rec finish_update clear_changes
update_event_status_rec_keeps c p s r d h =
    let (status, r1, timers) = run_predebounce s p r d.time_base_buffer in
    let (same_status, same_id) = run_predebounce_keeps s p r d.time_base_buffer in
    let r3 = update_on_status c d p status (clear_changes r1) in
    let (id3, confirms) = update_on_status_confirms c d p status (clear_changes r1) in
    let (id4, status4, changed4, same) =
      stamp_time_keeps (r3.error_status_changed && is_failed status)
        (record r3 { max_uds_fdc = max_ℤ r3.max_uds_fdc r3.uds_fdc })
        (record d { time_base_buffer = timers }) h in
    (
      id4 ∙ id3 ∙ same_id,
      (λ b e.
          changed4 ∙ confirms (ap (λ x. x.b3) same_status ∙ b) (ap (λ x. x.b3) (sym status4) ∙ e)),
      (λ o. same o ∙ with_timers_same timers d o),
    )

pub notify_stored_same :
    (ret : StdReturn) (p : EventParameter) (d : Dem) → SameEntries d (notify_stored ret p d)
notify_stored_same e_ok p d = notify_event_data_changed_same p d
notify_stored_same e_not_ok p d = λ o. refl

store_if_ok :
    (b : Bool) (c : Config) (p : EventParameter) (r : EventStatusRec) (d : Dem)
    → IsUnique (entries_of p.event_class.event_destination d)
    → r.event_id ≢ 0
    → b ≡ true
    → let (ret, d') = store_if b c p r d in
      ret ≡ e_ok → IsStored r p.event_class.event_destination d'
unfolding store_if
store_if_ok true c p r d u n b e =
    let failed_now = r.error_status_changed && non_zero (band test_failed r.status) in
    let (ret, d1) = store_event_evt_mem c p r failed_now d in
    let (i, found, at) = store_event_evt_mem_ok c p r failed_now d u n e in
    let same = notify_stored_same ret p d1 p.event_class.event_destination in
    (i, rw same found, rw same at)
store_if_ok false c p r d u n b e = absurd (ground arith)

pub write_same :
    (id : ℕ) (r : EventStatusRec) (d : Dem) → SameEntries d (write_event_status_rec id r d)
unfolding write_event_status_rec
write_same id r d o = ground arith

or_true : (a b : Bool) → a ≡ true → (a || b) ≡ true
or_true a b h = ground arith

pub write_notified_same :
    (id : ℕ) (old : Byte) (r : EventStatusRec) (d : Dem)
    → SameEntries d (notify_changed old r (write_event_status_rec id r d))
unfolding write_event_status_rec notify_event_status_change
write_notified_same id old r d o = ground arith

IsStored-same :
    (r : EventStatusRec) (o : Origin) (d d' : Dem)
    → entries_of o d' ≡ entries_of o d
    → IsStored r o d
    → IsStored r o d'
IsStored-same r o d d' e (i, found, at) = (i, rw e found, rw e at)

last_step :
    (ret : StdReturn) (r : EventStatusRec) (o : Origin) (d : Dem)
    → (ret ≡ e_ok → r.status.b3 ≡ true → IsStored r o d)
    → let r' = clear_unstored ret r in r'.status.b3 ≡ true → IsStored r' o d
last_step e_ok r o d h e = h refl e
last_step e_not_ok r o d h e = absurd (ground arith)

-- A report that sets the confirmed bit of an event leaves its record in the event memory of its
-- destination. The memory holds no event twice before, the record has an id, the confirmed bit was
-- not set, and the time stamps do not have to be rearranged.
pub process_event_confirmed-IsStored :
    (c : Config) (id : ℕ) (p : EventParameter) (r : EventStatusRec) (s : EventStatus) (d : Dem)
    → IsUnique (entries_of p.event_class.event_destination d)
    → r.event_id ≢ 0
    → r.status.b3 ≡ false
    → d.event_time_stamp < max_timestamp_for_rearrangement
    → (process_event c id p r s d).0.status.b3 ≡ true
    → let (r', d') = process_event c id p r s d in IsStored r' p.event_class.event_destination d'
unfolding process_event store_changed
process_event_confirmed-IsStored c id p r s d u n b t e =
    let (r1, d1) = update_event_status_rec c p s r d in
    let (same_id, changed, same) = update_event_status_rec_keeps c p s r d t in
    let o = p.event_class.event_destination in
    let d2 = write_event_status_rec id r1 d1 in
    let unique : IsUnique (entries_of o d2) = rw (write_same id r1 d1 o, same o) u in
    let (ret, d3) = store_changed c p r1 d2 in
    let r2 = clear_unstored ret r1 in
    IsStored-same r2 o d3 _ (write_notified_same id r.status r2 d3 o) (
      last_step ret r1 o d3
        (λ ok b1.
          store_if_ok (r1.error_status_changed || r1.extension_data_changed) c p r1 d2 unique
            (rw same_id n) (or_true _ _ (changed b b1)) ok)
        e)
