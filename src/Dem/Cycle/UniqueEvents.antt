-- ===== src/Dem/Cycle/UniqueEvents.antt =====
-- The start and the end of an operation cycle, before aging, never give an event two entries in a
-- memory.
use plug_and_play_autosar.Common.{
  ◌≢◌, ◌∙◌, refl, inl, inr, ℕ, zero, suc, Bool, true, false, not, ◌&&◌, Option, none, some, ◌==◌,
  length, get_elem?, if◌then◌else◌, Bool-cases, Option-cases, arith,
}
use plug_and_play_autosar.Dem.Types.{
  EventStatusRec, EventParameter, CycleState, cycle_start, cycle_end,
}
use plug_and_play_autosar.Dem.Status.{cycle_start_bits}
use plug_and_play_autosar.Dem.Debounce.{reset_debounce_counter}
use plug_and_play_autosar.Dem.State.{Config, Dem, lookup_event_id_parameter}
use plug_and_play_autosar.Dem.Memory.{store_event_evt_mem}
use plug_and_play_autosar.Dem.Memory.Store.{SameEntries}
use plug_and_play_autosar.Dem.Memory.Unique.{
  AllUnique, same-AllUnique, store_event_evt_mem-AllUnique,
}
use plug_and_play_autosar.Dem.Event.{notify_changed, notify_stored}
use plug_and_play_autosar.Dem.Event.Confirmed.{notify_stored_same, with_timers_same}
use plug_and_play_autosar.Dem.Cycle.{
  at_entry, for_each_event, write_entry_at, call_init_monitor, restart_event, restart_if,
  start_event_with, start_known, start_event, with_cycle_state, operation_cycle_start, end_record,
  store_if_set, end_event, operation_cycle_end,
}
use plug_and_play_autosar.Dem.Cycle.Aging.{notify_changed_same, write_entry_at_same}

found_entry-AllUnique :
    (f : ℕ → EventStatusRec → Dem → Dem)
    → ((i : ℕ) (r : EventStatusRec) (d : Dem) → AllUnique d → AllUnique (f i r d))
    → (i : ℕ) (d : Dem) (o : Option EventStatusRec) → AllUnique d
    → AllUnique (elim o [ none ↦ d | some r ↦ f i r d ])
found_entry-AllUnique f k i d none u = u
found_entry-AllUnique f k i d (some r) u = k i r d u

for_each_event-AllUnique :
    (f : ℕ → EventStatusRec → Dem → Dem)
    → ((i : ℕ) (r : EventStatusRec) (d : Dem) → AllUnique d → AllUnique (f i r d))
    → (n i : ℕ) (d : Dem) → AllUnique d
    → AllUnique (for_each_event f n i d)
unfolding for_each_event
for_each_event-AllUnique f k zero i d u = u
for_each_event-AllUnique f k (suc n) i d u =
    for_each_event-AllUnique f k n (suc i) (at_entry f i d)
      (found_entry-AllUnique f k i d (get_elem? d.event_status_buffer i) u)

call_init_monitor_same : (p : EventParameter) (d : Dem) → SameEntries d (call_init_monitor p d)
call_init_monitor_same p d o = ground arith

restart_if_same :
    (b : Bool) (c : Config) (p : EventParameter) (r : EventStatusRec) (d : Dem)
    → SameEntries d (restart_if b c p r d).1
unfolding restart_event
restart_if_same false c p r d o = refl
restart_if_same true c p r d o =
    let r1 = record r { status = cycle_start_bits r.status } in
    let (r2, timers) =
      reset_debounce_counter (lookup_event_id_parameter c r.event_id) r1 d.time_base_buffer in
    let r3 = record r2 { is_disabled = false } in
    let d1 = record d { time_base_buffer = timers } in
    call_init_monitor_same p (notify_changed r.status r3 d1) o
    ∙ (notify_changed_same r.status r3 d1 o ∙ with_timers_same timers d o)

start_known-AllUnique :
    (c : Config) (cycle i : ℕ) (q : Option EventParameter) (r : EventStatusRec) (d : Dem)
    → AllUnique d
    → AllUnique (start_known c cycle i q r d)
unfolding start_event_with
start_known-AllUnique c cycle i none r d u = u
start_known-AllUnique c cycle i (some p) r d u =
    let (r1, d1) = start_event_with c cycle p r d in
    same-AllUnique d1 (write_entry_at i r1 d1) (write_entry_at_same i r1 d1) (
      same-AllUnique d d1
        (restart_if_same (r.is_available && p.event_class.operation_cycle == cycle) c p r d) u)

pub if-AllUnique :
    (b : Bool) (d e : Dem) → AllUnique d → AllUnique e → AllUnique (if b then d else e)
if-AllUnique true d e u v = u
if-AllUnique false d e u v = v

start_event-AllUnique :
    (c : Config) (cycle i : ℕ) (r : EventStatusRec) (d : Dem)
    → AllUnique d
    → AllUnique (start_event c cycle i r d)
unfolding start_event
start_event-AllUnique c cycle i r d u =
    if-AllUnique (r.event_id == 0) d _ u (start_known-AllUnique c cycle i r.event_param_ref r d u)

pub store_if_set-AllUnique :
    (b : Bool) (c : Config) (p : EventParameter) (r : EventStatusRec) (d : Dem)
    → r.event_id ≢ 0
    → AllUnique d
    → AllUnique (store_if_set b c p r d)
store_if_set-AllUnique true c p r d n u =
    let (ret, d1) = store_event_evt_mem c p r false d in
    same-AllUnique d1 (notify_stored ret p d1) (notify_stored_same ret p d1)
      (store_event_evt_mem-AllUnique c p r false d n u)
store_if_set-AllUnique false c p r d n u = u

end_known-AllUnique :
    (c : Config) (cycle i : ℕ) (p : EventParameter) (r : EventStatusRec) (d : Dem)
    → r.event_id ≢ 0
    → AllUnique d
    → let (r1, store) = end_record p cycle r in
      AllUnique (store_if_set store c p r1 (notify_changed r.status r1 (write_entry_at i r1 d)))
unfolding end_record
end_known-AllUnique c cycle i p r d n u =
    let (r1, store) = end_record p cycle r in
    let d1 = write_entry_at i r1 d in
    store_if_set-AllUnique store c p r1 (notify_changed r.status r1 d1) n (
      same-AllUnique d1 _ (notify_changed_same r.status r1 d1)
        (same-AllUnique d d1 (write_entry_at_same i r1 d) u))

end_event-AllUnique :
    (c : Config) (cycle i : ℕ) (r : EventStatusRec) (d : Dem)
    → AllUnique d
    → AllUnique (end_event c cycle i r d)
unfolding end_event
end_event-AllUnique c cycle i r d u = elim (Bool-cases (not (r.event_id == 0) && r.is_available)) [
  | inr y ↦ rw (y, end_event) u
  | inl y ↦ elim (Option-cases r.event_param_ref) [
    | inl z ↦ rw (y, z, end_event) u
    | inr (p, z) ↦ rw (y, z, end_event) (end_known-AllUnique c cycle i p r d (λ e. ground arith) u)
  ]
]

with_cycle_state_same :
    (cycle : ℕ) (s : CycleState) (d : Dem) → SameEntries d (with_cycle_state cycle s d)
with_cycle_state_same cycle s d o = ground arith

pub operation_cycle_start-AllUnique :
    (c : Config) (cycle : ℕ) (d : Dem) → AllUnique d → AllUnique (operation_cycle_start c cycle d)
unfolding operation_cycle_start
operation_cycle_start-AllUnique c cycle d u =
    for_each_event-AllUnique (start_event c cycle) (start_event-AllUnique c cycle)
      (length d.event_status_buffer) 0 _
      (same-AllUnique d _ (with_cycle_state_same cycle cycle_start d) u)

pub operation_cycle_end-AllUnique :
    (c : Config) (cycle : ℕ) (d : Dem) → AllUnique d → AllUnique (operation_cycle_end c cycle d)
unfolding operation_cycle_end
operation_cycle_end-AllUnique c cycle d u =
    for_each_event-AllUnique (end_event c cycle) (end_event-AllUnique c cycle)
      (length d.event_status_buffer) 0 _
      (same-AllUnique d _ (with_cycle_state_same cycle cycle_end d) u)
