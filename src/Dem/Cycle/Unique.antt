-- ===== src/Dem/Cycle/Unique.antt =====
-- Changes of the state of an operation cycle, with the aging at its end, never give an event two
-- entries in a memory.
use plug_and_play_autosar.Common.{
  ◌≡◌, ◌≢◌, ◌∙◌, refl, sym, inl, inr, ℕ, zero, suc, Bool, true, false, ◌||◌, Option, none, some,
  ltb, length, get_elem?, if◌then◌else◌, Bool-cases, arith,
}
use plug_and_play_autosar.Dem.Types.{
  EventStatusRec, EventParameter, Origin, primary_memory, secondary_memory, CycleState, cycle_start,
  cycle_end, other_state,
}
use plug_and_play_autosar.Dem.Status.{operation_cycle_id_endmark, heal_status}
use plug_and_play_autosar.Dem.State.{
  Config, Dem, notify_event_data_changed, set_event_block_changed,
}
use plug_and_play_autosar.Dem.Memory.Store.{
  set_event_block_changed_same, notify_event_data_changed_same,
}
use plug_and_play_autosar.Dem.Memory.Unique.{
  AllUnique, same-AllUnique, delete_primary-AllUnique, delete_secondary-AllUnique,
}
use plug_and_play_autosar.Dem.Event.{notify_changed}
use plug_and_play_autosar.Dem.Cycle.{
  write_entry_at, operation_cycle_end, delete_from, delete_dtc_data, delete_if, age_record,
  finish_aging, age_event, AgingFlags, age_in, ages_in, age_entry, age_events, handle_aging,
  no_flags, is_ended, change_cycle, set_operation_cycle_state,
}
use plug_and_play_autosar.Dem.Cycle.Aging.{notify_changed_same, write_entry_at_same}
use plug_and_play_autosar.Dem.Cycle.UniqueEvents.{
  if-AllUnique, store_if_set-AllUnique, operation_cycle_start-AllUnique,
  operation_cycle_end-AllUnique,
}

delete_from-AllUnique :
    (o : Origin) (c : Config) (p : EventParameter) (d : Dem)
    → AllUnique d
    → AllUnique (delete_from o c p false d).2
unfolding delete_from
delete_from-AllUnique primary_memory c p d u = delete_primary-AllUnique c p d u
delete_from-AllUnique secondary_memory c p d u = delete_secondary-AllUnique c p d u
delete_from-AllUnique Origin.not_used c p d u = u
delete_from-AllUnique Origin.mirror_memory c p d u = u
delete_from-AllUnique Origin.permanent_memory c p d u = u

delete_if-AllUnique :
    (b : Bool) (c : Config) (p : EventParameter) (d : Dem)
    → AllUnique d
    → AllUnique (delete_if b c p d).1
unfolding delete_dtc_data
delete_if-AllUnique true c p d u = delete_from-AllUnique p.event_class.event_destination c p d u
delete_if-AllUnique false c p d u = u

finish_aging-AllUnique :
    (updated deleted : Bool) (c : Config) (p : EventParameter) (r : EventStatusRec) (d : Dem)
    → r.event_id ≢ 0
    → AllUnique d
    → AllUnique (finish_aging updated deleted c p r d)
finish_aging-AllUnique updated true c p r d n u =
    let d1 = notify_event_data_changed p d in
    same-AllUnique d1 _ (set_event_block_changed_same c p.event_class.event_destination false d1)
      (same-AllUnique d d1 (notify_event_data_changed_same p d) u)
finish_aging-AllUnique updated false c p r d n u = store_if_set-AllUnique updated c p r d n u

age_record_id : (p : EventParameter) (r : EventStatusRec) → (age_record p r).0.event_id ≡ r.event_id
unfolding age_record heal_status
age_record_id p r = ground arith

age_event-AllUnique :
    (c : Config) (p : EventParameter) (i : ℕ) (r : EventStatusRec) (d : Dem)
    → r.event_id ≢ 0
    → AllUnique d
    → AllUnique (age_event c p i r d).1
unfolding age_event
age_event-AllUnique c p i r d n u =
    let (r1, counted, healed) = age_record p r in
    let d0 = write_entry_at i r1 d in
    let (deleted, d1) = delete_if healed c p d0 in
    let d2 = notify_changed r.status r1 d1 in
    finish_aging-AllUnique (counted || deleted) deleted c p r1 d2
      (λ e. n (sym (age_record_id p r) ∙ e))
      (same-AllUnique d1 d2 (notify_changed_same r.status r1 d1)
        (delete_if-AllUnique healed c p d0 (same-AllUnique d d0 (write_entry_at_same i r1 d) u)))

age_in-AllUnique :
    (o : Origin) (c : Config) (p : EventParameter) (i : ℕ) (r : EventStatusRec) (f : AgingFlags)
    (d : Dem)
    → r.event_id ≢ 0
    → AllUnique d
    → AllUnique (age_in o c p i r (f, d)).1
age_in-AllUnique primary_memory c p i r f d n u = age_event-AllUnique c p i r d n u
age_in-AllUnique secondary_memory c p i r f d n u = age_event-AllUnique c p i r d n u
age_in-AllUnique Origin.not_used c p i r f d n u = u
age_in-AllUnique Origin.mirror_memory c p i r f d n u = u
age_in-AllUnique Origin.permanent_memory c p i r f d n u = u

age_if-AllUnique :
    (b : Bool) (c : Config) (p : EventParameter) (i : ℕ) (r : EventStatusRec) (f : AgingFlags)
    (d : Dem)
    → (b ≡ true → r.event_id ≢ 0)
    → AllUnique d
    → AllUnique (if b then age_in p.event_class.event_destination c p i r (f, d) else (f, d)).1
age_if-AllUnique true c p i r f d n u =
    age_in-AllUnique p.event_class.event_destination c p i r f d (n refl) u
age_if-AllUnique false c p i r f d n u = u

age_known-AllUnique :
    (q : Option EventParameter) (c : Config) (cycle i : ℕ) (r : EventStatusRec) (f : AgingFlags)
    (d : Dem)
    → AllUnique d
    → AllUnique
        (elim q as (λ x. AgingFlags × Dem) [
          | none ↦ (f, d)
          | some p ↦
              if ages_in cycle r p
              then age_in p.event_class.event_destination c p i r (f, d)
              else (f, d)
        ]).1
age_known-AllUnique none c cycle i r f d u = u
age_known-AllUnique (some p) c cycle i r f d u =
    age_if-AllUnique (ages_in cycle r p) c p i r f d (λ y e. ground arith) u

age_entry-AllUnique :
    (c : Config) (cycle i : ℕ) (o : Option EventStatusRec) (f : AgingFlags) (d : Dem)
    → AllUnique d
    → AllUnique (age_entry c cycle i o (f, d)).1
age_entry-AllUnique c cycle i none f d u = u
age_entry-AllUnique c cycle i (some r) f d u =
    age_known-AllUnique r.event_param_ref c cycle i r f d u

age_events-AllUnique :
    (c : Config) (cycle n i : ℕ) (f : AgingFlags) (d : Dem)
    → AllUnique d
    → AllUnique (age_events c cycle n i (f, d)).1
unfolding age_events
age_events-AllUnique c cycle zero i f d u = u
age_events-AllUnique c cycle (suc n) i f d u =
    let (f1, d1) = age_entry c cycle i (get_elem? d.event_status_buffer i) (f, d) in
    age_events-AllUnique c cycle n (suc i) f1 d1
      (age_entry-AllUnique c cycle i (get_elem? d.event_status_buffer i) f d u)

mark_if-AllUnique :
    (b : Bool) (c : Config) (o : Origin) (immediate : Bool) (d : Dem)
    → AllUnique d
    → AllUnique (if b then set_event_block_changed c o immediate d else d)
mark_if-AllUnique true c o immediate d u =
    same-AllUnique d _ (set_event_block_changed_same c o immediate d) u
mark_if-AllUnique false c o immediate d u = u

handle_aging-AllUnique :
    (c : Config) (cycle : ℕ) (d : Dem) → AllUnique d → AllUnique (handle_aging c cycle d).1
unfolding handle_aging
handle_aging-AllUnique c cycle d u = elim (Bool-cases (ltb cycle operation_cycle_id_endmark)) [
  | inr n ↦ rw (n, handle_aging) u
  | inl y ↦
      (let (f, d1) = age_events c cycle (length d.event_status_buffer) 0 (no_flags, d) in
        let u1 = age_events-AllUnique c cycle (length d.event_status_buffer) 0 no_flags d u in
        let u2 = mark_if-AllUnique f.updated_primary c primary_memory f.immediate_primary d1 u1 in
        rw (y, handle_aging)
          (mark_if-AllUnique f.updated_secondary c secondary_memory f.immediate_secondary _ u2))
]

change_cycle-AllUnique :
    (c : Config) (cycle : ℕ) (s : CycleState) (d : Dem)
    → AllUnique d
    → AllUnique (change_cycle c cycle s d).1
unfolding change_cycle
change_cycle-AllUnique c cycle cycle_start d u = operation_cycle_start-AllUnique c cycle d u
change_cycle-AllUnique c cycle cycle_end d u =
    if-AllUnique (is_ended (get_elem? d.operation_cycle_state_list cycle)) d _ u (
      handle_aging-AllUnique c cycle (operation_cycle_end c cycle d)
        (operation_cycle_end-AllUnique c cycle d u))
change_cycle-AllUnique c cycle other_state d u = u

-- If neither memory has two entries of an event, neither has after an operation cycle is started or
-- ended, with the events that are stored, displaced, healed and deleted at its end.
pub set_operation_cycle_state-AllUnique :
    (c : Config) (cycle : ℕ) (s : CycleState) (d : Dem)
    → AllUnique d
    → AllUnique (set_operation_cycle_state c cycle s d).1
unfolding set_operation_cycle_state
set_operation_cycle_state-AllUnique c cycle s d u =
    elim (Bool-cases (ltb cycle operation_cycle_id_endmark)) [
      | inl y ↦ rw (y, set_operation_cycle_state) (change_cycle-AllUnique c cycle s d u)
      | inr n ↦ rw (n, set_operation_cycle_state) u
    ]
