-- ===== src/Dem/Cycle/Start.antt =====
-- The start of an operation cycle on the status of the events.
use plug_and_play_autosar.Common.{
  ℕ, zero, suc, ◌+◌, ◌≤◌, ◌<◌, ◌≡◌, refl, ap, ◌∙◌, ◌≢◌, inl, inr, Bool, true, false, not, ◌&&◌,
  Option, none, some, List, arith, Bool-cases, Option-cases, ==_iff, length, get_elem?,
  get_elem?_lt, get_elem?-set_self, get_elem?-set_ne, if◌then◌else◌, ◌==◌, Byte,
}
use plug_and_play_autosar.Dem.Types.{EventStatusRec, EventParameter, TimeBaseStatus, cycle_start}
use plug_and_play_autosar.Dem.Debounce.{reset_debounce_counter}
use plug_and_play_autosar.Dem.Status.{cycle_start_bits, start_failure_cycle, start_aging_cycle}
use plug_and_play_autosar.Dem.State.{
  Config, Dem, lookup_event_id_parameter, notify_event_status_change,
}
use plug_and_play_autosar.Dem.Event.{notify_changed}
use plug_and_play_autosar.Dem.Cycle.{
  start_event, start_known, start_event_with, restart_event, restart_if, start_cycles,
  call_init_monitor, for_each_event, at_entry, operation_cycle_start, with_cycle_state,
}

-- The start of the cycle concerns the event of the record.
abbrev runs_in : ℕ → Option EventParameter → EventStatusRec → Bool
runs_in cycle none r = false
runs_in cycle (some p) r =
    not (r.event_id == 0) && (r.is_available && p.event_class.operation_cycle == cycle)

-- The status of an event after the start of a cycle, from the record before it: in an event of the
-- cycle the bit for a failure in this cycle (0x02) is clear and the bit for a test that has not been
-- completed in this cycle (0x40) is set, and the others are as they were.
abbrev pub started_status : ℕ → EventStatusRec → Byte
started_status cycle r =
    if runs_in cycle r.event_param_ref r
    then record (r.status) { b1 = false; b6 = true }
    else r.status

reset_debounce_counter_status :
    (p : Option EventParameter) (r : EventStatusRec) (ts : List TimeBaseStatus)
    → (reset_debounce_counter p r ts).0.status ≡ r.status
unfolding reset_debounce_counter
reset_debounce_counter_status p r ts = ground arith

notify_changed_buffer :
    (old : Byte) (r : EventStatusRec) (d : Dem)
    → (notify_changed old r d).event_status_buffer ≡ d.event_status_buffer
unfolding notify_event_status_change
notify_changed_buffer old r d = ground arith

call_init_monitor_buffer :
    (p : EventParameter) (d : Dem)
    → (call_init_monitor p d).event_status_buffer ≡ d.event_status_buffer
call_init_monitor_buffer p d = ground arith

restart_if_lem :
    (b : Bool) (c : Config) (p : EventParameter) (r : EventStatusRec) (d : Dem)
    → let (r', d') = restart_if b c p r d in
      (r'.status ≡ (if b then cycle_start_bits r.status else r.status))
      × (d'.event_status_buffer ≡ d.event_status_buffer)
unfolding restart_event
restart_if_lem true c p r d =
    let r1 = record r { status = cycle_start_bits r.status } in
    let (r2, timers) =
      reset_debounce_counter (lookup_event_id_parameter c r.event_id) r1 d.time_base_buffer in
    let r3 = record r2 { is_disabled = false } in
    let d1 = record d { time_base_buffer = timers } in
    (
      reset_debounce_counter_status (lookup_event_id_parameter c r.event_id) r1 d.time_base_buffer,
      call_init_monitor_buffer p (notify_changed r.status r3 d1)
          ∙ notify_changed_buffer r.status r3 d1,
    )
restart_if_lem false c p r d = (refl, refl)

start_cycles_status :
    (p : EventParameter) (cycle : ℕ) (r : EventStatusRec)
    → (start_cycles p cycle r).status ≡ r.status
unfolding start_cycles start_failure_cycle start_aging_cycle
start_cycles_status p cycle r = ground arith

-- A round of the loop writes the entry with the new status, and no other one.
start_known_lem :
    (c : Config) (cycle i : ℕ) (po : Option EventParameter) (r : EventStatusRec) (d : Dem)
    → get_elem? d.event_status_buffer i ≡ some r
    → (r.event_id == 0) ≡ false
    → (r' : EventStatusRec) × (get_elem? (start_known c cycle i po r d).event_status_buffer i
        ≡ some r')
      × (r'.status ≡ (if runs_in cycle po r then cycle_start_bits r.status else r.status))
unfolding start_event_with
start_known_lem c cycle i none r d h n = (r, h, refl)
start_known_lem c cycle i (some p) r d h n =
    let b = r.is_available && p.event_class.operation_cycle == cycle in
    let (r1, d1) = restart_if b c p r d in
    let (status, buffer) = restart_if_lem b c p r d in
    let r2 = start_cycles p cycle r1 in
    let inside = get_elem?_lt d.event_status_buffer i h in
    (
      r2,
      get_elem?-set_self d1.event_status_buffer i r2 (rw buffer inside),
      start_cycles_status p cycle r1 ∙ status ∙ rw n refl,
    )

unstarted_lem :
    (cycle : ℕ) (po : Option EventParameter) (r : EventStatusRec)
    → (r.event_id == 0) ≡ true
    → r.status ≡ (if runs_in cycle po r then cycle_start_bits r.status else r.status)
unstarted_lem cycle none r y = refl
unstarted_lem cycle (some p) r y = rw y refl

start_event_lem :
    (c : Config) (cycle i : ℕ) (r : EventStatusRec) (d : Dem)
    → get_elem? d.event_status_buffer i ≡ some r
    → (r' : EventStatusRec) × (get_elem? (start_event c cycle i r d).event_status_buffer i
        ≡ some r')
      × (r'.status ≡ started_status cycle r)
unfolding start_event cycle_start_bits
start_event_lem c cycle i r d h = elim (Bool-cases (r.event_id == 0)) [
  | inl y ↦ (r, rw (y, start_event) h, unstarted_lem cycle r.event_param_ref r y)
  | inr n ↦ rw (n, start_event) (start_known_lem c cycle i r.event_param_ref r d h n)
]

start_known_others :
    (c : Config) (cycle i j : ℕ) (po : Option EventParameter) (r : EventStatusRec) (d : Dem)
    → i ≢ j
    → get_elem? (start_known c cycle i po r d).event_status_buffer j
      ≡ get_elem? d.event_status_buffer j
unfolding start_event_with
start_known_others c cycle i j none r d h = refl
start_known_others c cycle i j (some p) r d h =
    let b = r.is_available && p.event_class.operation_cycle == cycle in
    let (r1, d1) = restart_if b c p r d in
    get_elem?-set_ne d1.event_status_buffer (start_cycles p cycle r1) h
    ∙ ap (λ rs. get_elem? rs j) (restart_if_lem b c p r d).1

start_event_others :
    (c : Config) (cycle i j : ℕ) (r : EventStatusRec) (d : Dem)
    → i ≢ j
    → get_elem? (start_event c cycle i r d).event_status_buffer j
      ≡ get_elem? d.event_status_buffer j
unfolding start_event
start_event_others c cycle i j r d h = elim (Bool-cases (r.event_id == 0)) [
  | inl y ↦ rw (y, start_event) refl
  | inr n ↦ rw (n, start_event) (start_known_others c cycle i j r.event_param_ref r d h)
]

at_entry_others :
    (c : Config) (cycle i j : ℕ) (d : Dem)
    → i ≢ j
    → get_elem? (at_entry (start_event c cycle) i d).event_status_buffer j
      ≡ get_elem? d.event_status_buffer j
at_entry_others c cycle i j d h = elim (Option-cases (get_elem? d.event_status_buffer i)) [
  | inl z ↦ rw (z, at_entry) refl
  | inr (r, z) ↦ rw (z, at_entry) (start_event_others c cycle i j r d h)
]

-- Rounds from `i` on leave the entries before `i` as they are.
rounds_before :
    (c : Config) (cycle n i j : ℕ) (d : Dem)
    → j < i
    → get_elem? (for_each_event (start_event c cycle) n i d).event_status_buffer j
      ≡ get_elem? d.event_status_buffer j
unfolding for_each_event
rounds_before c cycle zero i j d h = refl
rounds_before c cycle (suc n) i j d h =
    rounds_before c cycle n (suc i) j (at_entry (start_event c cycle) i d) (omega arith)
    ∙ at_entry_others c cycle i j d (λ e. omega arith)

rounds_reach :
    (c : Config) (cycle n i j : ℕ) (d : Dem) (r : EventStatusRec)
    → i ≤ j
    → j < i + n
    → get_elem? d.event_status_buffer j ≡ some r
    → (r' : EventStatusRec) × (get_elem?
          (for_each_event (start_event c cycle) n i d).event_status_buffer
          j
        ≡ some r')
      × (r'.status ≡ started_status cycle r)
unfolding for_each_event
rounds_reach c cycle zero i j d r l u h = absurd (omega arith)
rounds_reach c cycle (suc n) i j d r l u h = elim (Bool-cases (i == j)) [
  | inl y ↦
      (let same : i ≡ j = (==_iff i j).0 y in
        let (r', found, status) = start_event_lem c cycle j r d h in
        let now : at_entry (start_event c cycle) j d ≡ start_event c cycle j r d =
          rw (h, at_entry) refl in
        (
          r',
          rw same (
              rounds_before c cycle n (suc j) j (at_entry (start_event c cycle) j d) (omega arith)
              ∙ rw now found),
          status,
        ))
  | inr other ↦
      (let ne : i ≢ j = λ e. ground arith in
        rounds_reach c cycle n (suc i) j (at_entry (start_event c cycle) i d) r (ground arith)
          (omega arith) (at_entry_others c cycle i j d ne ∙ h))
]

-- The start of an operation cycle: in an available event of the cycle the bit for a failure in this
-- cycle is cleared and the bit for a test not completed in this cycle is set, and its other status
-- bits stay; the status of every other event stays.
pub operation_cycle_start_marks :
    (c : Config) (cycle j : ℕ) (d : Dem) (r : EventStatusRec)
    → get_elem? d.event_status_buffer j ≡ some r
    → (r' : EventStatusRec) × (get_elem? (operation_cycle_start c cycle d).event_status_buffer j
        ≡ some r')
      × (r'.status ≡ started_status cycle r)
unfolding operation_cycle_start
operation_cycle_start_marks c cycle j d r h =
    rounds_reach c cycle (length d.event_status_buffer) 0 j (with_cycle_state cycle cycle_start d) r
      (omega arith) (omega (arith, get_elem?_lt d.event_status_buffer j h)) h
