-- ===== src/Dem/Cycle.antt =====
-- Operation cycles, dem/src/impl/Dem_Private_impl.c: their start and end, the aging of the events at
-- the end, the deletion of an event, and Dem_SetOperationCycleState of Dem_Core_impl.c. Combined
-- events, indicators and permanent memory are off; an event with an id has its parameters.
pub mod Start
pub mod Aging
pub mod UniqueEvents
pub mod Unique
use plug_and_play_autosar.Common.{
  ℕ, zero, suc, ◌+◌, ◌-◌, ◌≡◌, Bool, true, false, not, ◌&&◌, ◌||◌, Option, none, some, List, [],
  ◌∷◌, ◌++◌, ltb, leb, ◌==◌, if◌then◌else◌, get_elem?, set, length, Byte, band, bor, bnot, non_zero,
  eq_byte,
}
use plug_and_play_autosar.Dem.Types.{
  StdReturn, e_ok, e_not_ok, Origin, primary_memory, secondary_memory, CycleState, cycle_start,
  cycle_end, other_state, EventParameter, EventStatusRec, test_failed_this_operation_cycle,
  test_not_completed_this_operation_cycle, confirmed_dtc, pending_dtc,
}
use plug_and_play_autosar.Dem.Debounce.{reset_debounce_counter}
use plug_and_play_autosar.Dem.Status.{
  operation_cycle_id_endmark, aging_cntr_max, cycle_start_bits, cycle_end_bits, start_failure_cycle,
  start_aging_cycle, heal_status, clear_event_status,
}
use plug_and_play_autosar.Dem.State.{
  Config, Dem, init_monitor_restart, lookup_event_id_parameter, lookup_event_status_rec,
  write_event_status_rec, notify_event_data_changed, set_event_block_changed,
}
use plug_and_play_autosar.Dem.Memory.{store_event_evt_mem, delete_event_mem, is_initialized}
use plug_and_play_autosar.Dem.Event.{notify_changed, notify_stored, validate}

-- A loop over eventStatusBuffer: `n` rounds from the index `i`, each on the entry as it is then.
abbrev at_entry : (ℕ → EventStatusRec → Dem → Dem) → ℕ → Dem → Dem
at_entry f i d = elim (get_elem? d.event_status_buffer i) [ none ↦ d | some r ↦ f i r d ]

unfoldable pub for_each_event : (ℕ → EventStatusRec → Dem → Dem) → ℕ → ℕ → Dem → Dem
for_each_event f zero i d = d
for_each_event f (suc n) i d = for_each_event f n (suc i) (at_entry f i d)

abbrev pub write_entry_at : ℕ → EventStatusRec → Dem → Dem
write_entry_at i r d = record d { event_status_buffer = set d.event_status_buffer i r }

abbrev call_init_monitor : EventParameter → Dem → Dem
call_init_monitor p d =
    if p.callback_init_monitor
    then record d { notices = d.notices ++ (init_monitor_restart p.event_id ∷ []) }
    else d

-- What operationCycleStart does for an available event of the cycle.
unfoldable pub restart_event : Config → EventParameter → EventStatusRec → Dem → EventStatusRec × Dem
restart_event c p r d =
    let r1 = record r { status = cycle_start_bits r.status } in
    let (r2, timers) =
      reset_debounce_counter (lookup_event_id_parameter c r.event_id) r1 d.time_base_buffer in
    let r3 = record r2 { is_disabled = false } in
    (r3, call_init_monitor p (notify_changed r.status r3 (record d { time_base_buffer = timers })))

abbrev restart_if : Bool → Config → EventParameter → EventStatusRec → Dem → EventStatusRec × Dem
restart_if true c p r d = restart_event c p r d
restart_if false c p r d = (r, d)

-- The last two blocks of the loop of operationCycleStart.
unfoldable pub start_cycles : EventParameter → ℕ → EventStatusRec → EventStatusRec
start_cycles p cycle r =
    let r1 = if p.event_class.failure_cycle == cycle then start_failure_cycle r else r in
    if p.event_class.aging_cycle == cycle then start_aging_cycle r1 else r1

-- A round of the loop of operationCycleStart, for an event with the parameters `p`.
unfoldable pub start_event_with :
    Config → ℕ → EventParameter → EventStatusRec → Dem → EventStatusRec × Dem
start_event_with c cycle p r d =
    let (r1, d1) = restart_if (r.is_available && p.event_class.operation_cycle == cycle) c p r d in
    (start_cycles p cycle r1, d1)

abbrev pub start_known : Config → ℕ → ℕ → Option EventParameter → EventStatusRec → Dem → Dem
start_known c cycle i none r d = d
start_known c cycle i (some p) r d =
    let (r1, d1) = start_event_with c cycle p r d in write_entry_at i r1 d1

unfoldable pub start_event : Config → ℕ → ℕ → EventStatusRec → Dem → Dem
start_event c cycle i r d =
    if r.event_id == 0 then d else start_known c cycle i r.event_param_ref r d

abbrev with_cycle_state : ℕ → CycleState → Dem → Dem
with_cycle_state cycle s d = record d {
  operation_cycle_state_list = set d.operation_cycle_state_list cycle s;
}

unfoldable pub operation_cycle_start : Config → ℕ → Dem → Dem
operation_cycle_start c cycle d =
    for_each_event (start_event c cycle) (length d.event_status_buffer) 0
      (with_cycle_state cycle cycle_start d)

-- Whether the failure counter of the event starts again at the end of the cycle.
abbrev ends_passed : EventParameter → ℕ → EventStatusRec → Bool
ends_passed p cycle r =
    p.event_class.failure_cycle == cycle
    && (r.passed_during_failure_cycle
        && (not r.failed_during_failure_cycle && not (r.failure_counter == 0)))

-- The changes of the record in operationCycleEnd, with storeEvtMem.
unfoldable pub end_record : EventParameter → ℕ → EventStatusRec → EventStatusRec × Bool
end_record p cycle r =
    let s = if p.event_class.operation_cycle == cycle then cycle_end_bits r.status else r.status in
    let forget = ends_passed p cycle r in
    (
      record r { status = s; failure_counter = if forget then 0 else r.failure_counter },
      not (eq_byte r.status s) || forget,
    )

abbrev store_if_set : Bool → Config → EventParameter → EventStatusRec → Dem → Dem
store_if_set true c p r d =
    let (ret, d1) = store_event_evt_mem c p r false d in notify_stored ret p d1
store_if_set false c p r d = d

-- A round of the loop of operationCycleEnd.
unfoldable pub end_event : Config → ℕ → ℕ → EventStatusRec → Dem → Dem
end_event c cycle i r d =
    if not (r.event_id == 0) && r.is_available
    then elim r.event_param_ref [
      | none ↦ d
      | some p ↦
          (let (r1, store) = end_record p cycle r in
            store_if_set store c p r1 (notify_changed r.status r1 (write_entry_at i r1 d)))
    ]
    else d

unfoldable pub operation_cycle_end : Config → ℕ → Dem → Dem
operation_cycle_end c cycle d =
    for_each_event (end_event c cycle) (length d.event_status_buffer) 0
      (with_cycle_state cycle cycle_end d)

-- resetEventStatusRec
unfoldable pub reset_event_status_rec : Config → EventParameter → Dem → Dem
reset_event_status_rec c p d = elim (lookup_event_status_rec c d p.event_id) [
  | none ↦ d
  | some r ↦
      (let (r1, timers) =
          reset_debounce_counter (lookup_event_id_parameter c r.event_id) r d.time_base_buffer in
        record (write_event_status_rec p.event_id (clear_event_status r1) d) {
          time_base_buffer = timers;
        })
]

abbrev reset_if : Bool → Config → EventParameter → Dem → Dem
reset_if true c p d = reset_event_status_rec c p d
reset_if false c p d = d

-- The two memories of DeleteDTCData: whether data was deleted, *dtcOriginFound, and the state.
unfoldable pub delete_from : Origin → Config → EventParameter → Bool → Dem → Bool × Bool × Dem
delete_from primary_memory c p reset d =
    let (deleted, d1) = delete_event_mem c p primary_memory d in
    (deleted, true, reset_if reset c p d1)
delete_from secondary_memory c p reset d =
    let (deleted, d1) = delete_event_mem c p secondary_memory d in
    (deleted, true, reset_if reset c p d1)
delete_from _ c p reset d = (false, false, d)

-- DeleteDTCData, for an event without freeze frames and extended data.
unfoldable pub delete_dtc_data : Config → EventParameter → Bool → Dem → Bool × Bool × Dem
delete_dtc_data c p reset d = delete_from p.event_class.event_destination c p reset d

abbrev reached : Option ℕ → ℕ → Bool
reached none n = false
reached (some t) n = leb t n

-- What ageEvent makes of the record: whether the memory is to be updated, and whether the event is
-- healed, so that its data is deleted.
unfoldable pub age_record : EventParameter → EventStatusRec → EventStatusRec × Bool × Bool
age_record p r =
    if non_zero (band confirmed_dtc r.status)
    then (if r.passed_during_aging_cycle && not r.failed_during_aging_cycle
        then (let counts = ltb r.aging_counter aging_cntr_max in
            let r1 = record r {
              aging_counter = if counts then r.aging_counter + 1 else r.aging_counter;
            } in
            if reached p.event_class.aging_cycle_counter_threshold r1.aging_counter
            then (heal_status r1, counts, true)
            else (r1, counts, false))
        else if r.failed_during_aging_cycle && not (r.aging_counter == 0)
        then (record r { aging_counter = 0 }, true, false)
        else (r, false, false))
    else (r, false, false)

abbrev delete_if : Bool → Config → EventParameter → Dem → Bool × Dem
delete_if true c p d = let (deleted, found, d1) = delete_dtc_data c p false d in (deleted, d1)
delete_if false c p d = (false, d)

-- The end of ageEvent: the storage of an updated event, or the notice of its deletion.
abbrev finish_aging : Bool → Bool → Config → EventParameter → EventStatusRec → Dem → Dem
finish_aging updated true c p r d =
    set_event_block_changed c p.event_class.event_destination false (notify_event_data_changed p d)
finish_aging updated false c p r d = store_if_set updated c p r d

-- ageEvent on the entry at `i`, for an event with the parameters `p`.
unfoldable pub age_event : Config → EventParameter → ℕ → EventStatusRec → Dem → Bool × Dem
age_event c p i r d =
    let (r1, counted, healed) = age_record p r in
    let (deleted, d1) = delete_if healed c p (write_entry_at i r1 d) in
    (
      counted || deleted,
      finish_aging (counted || deleted) deleted c p r1 (notify_changed r.status r1 d1),
    )

-- The locals of handleAging. Each event sets its memory's `updated` anew.
pub record AgingFlags : Type 0 where
  pub updated_primary : Bool
  pub updated_secondary : Bool
  pub immediate_primary : Bool
  pub immediate_secondary : Bool

abbrev has_immediate : Config → EventParameter → EventStatusRec → Bool
has_immediate c p r =
    c.use_immediate_nv_storage
    && (elim p.dtc_class [ none ↦ false | some k ↦ k.dtc_ref.immediate_nv_storage ]
        && leb r.occurrence c.immediate_nv_storage_limit)

-- A round of handleAging for an event whose destination is a memory.
abbrev age_in :
    Origin → Config → EventParameter → ℕ → EventStatusRec → AgingFlags × Dem → AgingFlags × Dem
age_in primary_memory c p i r (f, d) =
    let (updated, d1) = age_event c p i r d in
    (
      record f {
        updated_primary = updated;
        immediate_primary = f.immediate_primary || has_immediate c p r;
      },
      d1,
    )
age_in secondary_memory c p i r (f, d) =
    let (updated, d1) = age_event c p i r d in
    (
      record f {
        updated_secondary = updated;
        immediate_secondary = f.immediate_secondary || has_immediate c p r;
      },
      d1,
    )
age_in _ c p i r s = s

abbrev ages_in : ℕ → EventStatusRec → EventParameter → Bool
ages_in cycle r p =
    not (r.event_id == 0) && (p.event_class.aging_allowed && p.event_class.aging_cycle == cycle)

abbrev age_entry : Config → ℕ → ℕ → Option EventStatusRec → AgingFlags × Dem → AgingFlags × Dem
age_entry c cycle i none s = s
age_entry c cycle i (some r) s = elim r.event_param_ref [
  | none ↦ s
  | some p ↦ if ages_in cycle r p then age_in p.event_class.event_destination c p i r s else s
]

-- The loop of handleAging: `n` rounds from the index `i`.
unfoldable pub age_events : Config → ℕ → ℕ → ℕ → AgingFlags × Dem → AgingFlags × Dem
age_events c cycle zero i s = s
age_events c cycle (suc n) i s =
    age_events c cycle n (suc i) (age_entry c cycle i (get_elem? s.1.event_status_buffer i) s)

abbrev no_flags : AgingFlags
no_flags = record {
  updated_primary = false;
  updated_secondary = false;
  immediate_primary = false;
  immediate_secondary = false;
}

-- handleAging; a cycle that is out of range ages nothing.
unfoldable pub handle_aging : Config → ℕ → Dem → StdReturn × Dem
handle_aging c cycle d =
    if ltb cycle operation_cycle_id_endmark
    then (let (f, d1) = age_events c cycle (length d.event_status_buffer) 0 (no_flags, d) in
        let d2 =
          if f.updated_primary
          then set_event_block_changed c primary_memory f.immediate_primary d1
          else d1 in
        (
          e_ok,
          if f.updated_secondary
              then set_event_block_changed c secondary_memory f.immediate_secondary d2
              else d2,
        ))
    else (e_not_ok, d)

abbrev is_ended : Option CycleState → Bool
is_ended (some cycle_end) = true
is_ended _ = false

-- setOperationCycleState, for a cycle in range.
unfoldable pub change_cycle : Config → ℕ → CycleState → Dem → StdReturn × Dem
change_cycle c cycle cycle_start d = (e_ok, operation_cycle_start c cycle d)
change_cycle c cycle cycle_end d = (
  e_ok,
  if is_ended (get_elem? d.operation_cycle_state_list cycle)
      then d
      else (handle_aging c cycle (operation_cycle_end c cycle d)).1,
)
change_cycle c cycle other_state d = (e_not_ok, d)

unfoldable pub set_operation_cycle_state : Config → ℕ → CycleState → Dem → StdReturn × Dem
set_operation_cycle_state c cycle s d =
    if ltb cycle operation_cycle_id_endmark then change_cycle c cycle s d else (e_not_ok, d)

-- DEM_ACTIVE
abbrev pub dem_active : ℕ
dem_active = 0

-- Dem_SetOperationCycleState
unfoldable pub dem_set_operation_cycle_state : Config → ℕ → CycleState → Dem → StdReturn × Dem
dem_set_operation_cycle_state c cycle s d =
    validate (is_initialized d.dem_state)
      (if dem_active == cycle then (e_not_ok, d) else set_operation_cycle_state c cycle s d) d
