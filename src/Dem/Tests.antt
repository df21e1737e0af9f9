-- ===== src/Dem/Tests.antt =====
-- Runs of the event manager on a small configuration: two events with counter and time based
-- debouncing, a buffer of two entries.
mod Events
mod Filters
mod Unique
use plug_and_play_autosar.Common.{
  ℕ, zero, suc, ◌+◌, ◌*◌, ◌≤◌, ◌<◌, ℤ, pos, negsuc, ◌≡◌, refl, ◌≢◌, ◌⊎◌, inl, inr, ◌↔◌, Bool, true,
  false, Option, none, some, List, [], ◌∷◌, arith, get_elem?, Byte, byte, zero_byte, ◌≤ℤ◌, ◌+ℤ◌,
  length, ltb, leb, ◌==◌, if◌then◌else◌,
}
use Prim.Native.Nat.{min}
use plug_and_play_autosar.Dem.Types.{
  StdReturn, e_ok, e_not_ok, EventStatus, passed, failed, prepassed, prefailed, invalid, Origin,
  primary_memory, secondary_memory, CycleState, cycle_start, cycle_end, DemState, initialized,
  DtcKind, all_dtcs, CounterBased, TimeBased, PreDebounce, pre_debounce_counter_based,
  pre_debounce_time_based, Dtc, DtcClass, EventClass, EventParameter, EventStatusRec, EventRec,
  EventMemory, TimeBaseStatus,
}
use plug_and_play_autosar.Dem.Debounce.{
  pre_debounce_counter, fdc_internal_to_uds_fdc, pre_debounce_time,
}
use plug_and_play_autosar.Dem.Debounce.Counter.{
  IsCounterConfig, InThresholds, pre_debounce_counter_qualifies, after_reports, prefailed_reaches,
}
use plug_and_play_autosar.Dem.Debounce.Fdc.{fdc_internal_to_uds_fdc_scales}
use plug_and_play_autosar.Dem.Debounce.Time.{ticks, prefailed_times_out}
use plug_and_play_autosar.Dem.Status.{
  AgingCounterClear, on_all_fail, default_event_status, update_event_on_failed,
  set_default_event_status, operation_cycle_is_started,
}
use plug_and_play_autosar.Dem.Status.Invariant.{
  IsConsistentRec, IsReachable, StatusStep, unreported, then_step, fail, reachable-IsConsistentRec,
}
use plug_and_play_autosar.Dem.Status.Confirmation.{failing_cycles, failing_cycles_confirm}
use plug_and_play_autosar.Dem.State.{
  Config, Dem, NvmBlock, entries_of, get_event_status_rec, lookup_event_status_rec,
  lookup_event_id_parameter,
}
use plug_and_play_autosar.Dem.Memory.{
  store_event_mem, delete_event_mem, get_event_for_displacement, empty_entry, find_entry,
  search_candidate, consider, may_remove, get_event_priority, get_event_passive,
  event_dtc_record_data_update_disabled,
}
use plug_and_play_autosar.Dem.Memory.Entries.{IsUnique, id_at}
use plug_and_play_autosar.Dem.Memory.Store.{
  Stores, store_event_mem-Stores, delete_event_mem_deletes,
}
use plug_and_play_autosar.Dem.Memory.Rearrange.{IsRearranged, rearrange_event_time_stamp_sorts}
use plug_and_play_autosar.Dem.Memory.{rearrange_event_time_stamp, rearrange_entries, exchange}
use plug_and_play_autosar.Dem.Memory.Displacement.{Choice, get_event_for_displacement-Choice}

-- From -10 to 20 in steps of 7 up and 3 down, with jumps to 0.
abbrev counter : CounterBased
counter = record {
  jump_up = true;
  jump_down = true;
  increment_step_size = 7;
  decrement_step_size = 3;
  jump_down_value = pos 0;
  jump_up_value = pos 0;
  failed_threshold = pos 20;
  passed_threshold = negsuc 9;
}

abbrev timer : TimeBased
timer = record { time_failed_threshold = 25; time_passed_threshold = 40; index = 0 }

abbrev dtc_class : ℕ → DtcClass
dtc_class n = record {
  dtc_ref = record { uds_dtc = n; obd_dtc = n; dtc_used = true; immediate_nv_storage = true };
  events = 1 ∷ [];
  dtc_index = 0;
  dtc_severity = zero_byte;
}

-- The event `id` with its debouncing and its priority; its fault is confirmed by 2 failure cycles.
abbrev event : ℕ → PreDebounce → ℕ → EventParameter
event id debounce priority = record {
  event_id = id;
  event_class = record {
    failure_cycle_counter_threshold = 2;
    enable_condition_group = none;
    pre_debounce = some debounce;
    event_available = true;
    aging_cycle_counter_threshold = some 3;
    failure_cycle = 1;
    event_destination = primary_memory;
    event_priority = priority;
    aging_allowed = true;
    operation_cycle = 1;
    aging_cycle = 1;
  };
  dtc_class = some (dtc_class (0x100 * id));
  event_dtc_kind = 0;
  callback_event_status_changed = some (false ∷ []);
  callback_event_data_changed = some true;
  callback_init_monitor = false;
}

abbrev record_of : ℕ → EventStatusRec
record_of id = record {
  event_param_ref = none;
  time_stamp = 0;
  event_id = id;
  occurrence = 0;
  fdc_internal = pos 0;
  uds_fdc = pos 0;
  max_uds_fdc = pos 0;
  failure_counter = 0;
  aging_counter = 0;
  status = default_event_status;
  extension_data_store_bitfield = 0;
  failed_during_aging_cycle = false;
  passed_during_aging_cycle = false;
  failed_during_failure_cycle = false;
  passed_during_failure_cycle = false;
  error_status_changed = false;
  extension_data_changed = false;
  indicator_data_changed = false;
  is_available = true;
  is_disabled = false;
}

abbrev first_event : EventParameter
first_event = event 1 (pre_debounce_counter_based counter) 3

abbrev third_event : EventParameter
third_event = event 3 (pre_debounce_counter_based counter) 1

abbrev config : Config
config = record {
  event_parameter = first_event ∷ event 2 (pre_debounce_time_based timer) 2 ∷ third_event ∷ [];
  last_valid_id = 3;
  aging_counter_clear = on_all_fail;
  test_failed_storage = true;
  treat_confirmed_events_as_active = false;
  event_displacement_support = true;
  use_immediate_nv_storage = true;
  immediate_nv_storage_limit = 1;
  primary_event_block = true;
  secondary_event_block = false;
  group_dtcs = [];
}

abbrev entry : ℕ → ℕ → EventRec
entry id t = record (empty_entry) { event_id = id; time_stamp = t; occurrence = 1 }

abbrev memory : List EventRec → EventMemory
memory es = record { entries = es; admin_magic = 0; admin_overflow = false; overflow = false }

abbrev block : NvmBlock
block = record { dirty = false; pending_write = false }

-- The operation cycle 1 has started, and `es` is in primary memory.
abbrev dem : List EventRec → Dem
dem es = record {
  dem_state = initialized;
  operation_cycle_state_list = cycle_end ∷ cycle_start ∷ [];
  event_status_buffer = record_of 1 ∷ record_of 2 ∷ record_of 3 ∷ [];
  time_base_buffer = [];
  primary = memory es;
  secondary = memory [];
  event_time_stamp = 5;
  dtc_record_disabled = 0xFFFFFFFF;
  dtc_record_disabled_origin = primary_memory;
  setting_disabled = false;
  disabled_dtc_group = 0;
  disabled_dtc_kind = all_dtcs;
  enable_conditions = [];
  primary_event_nvm = block;
  secondary_event_nvm = block;
  notices = [];
}

-- Events 1 and 2, of lower priority than the event 3, fill the memory; the event 2 is older.
abbrev full : Dem
full = dem (entry 1 7 ∷ entry 2 4 ∷ [])

same_position_lem :
    (id i j : ℕ)
    → id_at (entries_of primary_memory full) i ≡ some id
    → id_at (entries_of primary_memory full) j ≡ some id
    → i ≡ j
same_position_lem id zero zero a b = refl
same_position_lem id zero (suc zero) a b = ground arith
same_position_lem id (suc zero) zero a b = ground arith
same_position_lem id (suc zero) (suc zero) a b = refl
same_position_lem id zero (suc (suc j)) a b = ground arith
same_position_lem id (suc zero) (suc (suc j)) a b = ground arith
same_position_lem id (suc (suc i)) j a b = ground arith

full-IsUnique : IsUnique (entries_of primary_memory full)
full-IsUnique = record { same_position = λ id i j a b n. same_position_lem id i j a b }

-- The event 2 makes room for the event 3.
displaced :
    get_event_for_displacement config full third_event (entries_of primary_memory full) ≡ some 2
unfolding get_event_for_displacement search_candidate consider may_remove get_event_priority
    get_event_passive get_event_status_rec lookup_event_status_rec lookup_event_id_parameter
    event_dtc_record_data_update_disabled
displaced = refl

counter-IsCounterConfig : IsCounterConfig counter
counter-IsCounterConfig = record {
  passed_low = omega arith;
  failed_high = omega arith;
  passed_fits = omega arith;
  failed_fits = omega arith;
}

in_thresholds : (n : ℕ) → n ≤ 20 → InThresholds counter (pos n)
in_thresholds n h = record { above_passed = omega arith; below_failed = omega arith }

pre_debounce_counter_qualifies_example :
    let (q, r) = pre_debounce_counter counter failed (record_of 1) in
    InThresholds counter r.fdc_internal
    × ((q ≡ failed) ↔ (r.fdc_internal ≡ pos 20))
    × ((q ≡ passed) ↔ (r.fdc_internal ≡ negsuc 9))
pre_debounce_counter_qualifies_example =
    pre_debounce_counter_qualifies counter failed (record_of 1) counter-IsCounterConfig
      (in_thresholds 0 (omega arith))

prefailed_reaches_example : after_reports counter prefailed 3 (pos 0) ≡ pos 20
unfolding ◌+ℤ◌
prefailed_reaches_example =
    prefailed_reaches counter 3 (pos 0) counter-IsCounterConfig (in_thresholds 0 (omega arith))
      (omega arith)

fdc_internal_to_uds_fdc_scales_example :
    (negsuc 127 ≤ℤ fdc_internal_to_uds_fdc (pos 0) counter)
    × (fdc_internal_to_uds_fdc (pos 0) counter ≤ℤ fdc_internal_to_uds_fdc (pos 7) counter)
    × (fdc_internal_to_uds_fdc (pos 7) counter ≤ℤ pos 127)
    × (fdc_internal_to_uds_fdc (negsuc 9) counter ≡ negsuc 127)
    × (fdc_internal_to_uds_fdc (pos 20) counter ≡ pos 127)
fdc_internal_to_uds_fdc_scales_example =
    fdc_internal_to_uds_fdc_scales counter counter-IsCounterConfig (pos 0) (pos 7)
      (in_thresholds 0 (omega arith)) (in_thresholds 7 (omega arith)) (omega arith)

abbrev idle_timer : TimeBaseStatus
idle_timer = record {
  debounce_time = 0;
  event_id = 0;
  started = false;
  failure_counting = false;
  error_reported = false;
  counter_reset = false;
}

-- With a task time of 10, the third call after the first one reaches 25.
prefailed_times_out_example :
    let s = (pre_debounce_time timer prefailed 2 idle_timer).1 in
    ((ticks 10 timer 3 s).0 ≡ none)
    × ((ticks 10 timer 4 s).0 ≡ (if leb 25 (3 * 10) then some failed else none))
prefailed_times_out_example =
    prefailed_times_out 10 timer (omega arith) 2 2 idle_timer (inl refl) (omega arith)

abbrev cycles : List CycleState
cycles = cycle_end ∷ cycle_start ∷ []

reachable-IsConsistentRec_example :
    IsConsistentRec (
      update_event_on_failed on_all_fail cycles first_event
        (set_default_event_status (record_of 1)))
reachable-IsConsistentRec_example =
    reachable-IsConsistentRec on_all_fail cycles first_event (record_of 1) (omega arith)
      (then_step unreported fail)

running : operation_cycle_is_started cycles 1 ≡ true
unfolding operation_cycle_is_started
running = refl

failing_cycles_confirm_example :
    let r = failing_cycles on_all_fail cycles first_event 3 (record_of 1) in
    (r.failure_counter ≡ min 3 255) × ((r.status.b3 ≡ true) ↔ (2 ≤ 3))
failing_cycles_confirm_example =
    failing_cycles_confirm on_all_fail cycles first_event running 3 (record_of 1) refl refl
      (omega arith) (omega arith)

rearrange_event_time_stamp_sorts_example :
    let d = rearrange_event_time_stamp full in
    (k : ℕ) × IsRearranged (entry 1 7 ∷ entry 2 4 ∷ []) 0 (d.primary.entries, k)
    × IsRearranged [] k (d.secondary.entries, d.event_time_stamp)
    × (d.event_time_stamp ≤ 2 + 0)
rearrange_event_time_stamp_sorts_example = rearrange_event_time_stamp_sorts full

rearranged_full : (rearrange_event_time_stamp full).primary.entries ≡ entry 2 0 ∷ entry 1 1 ∷ []
unfolding rearrange_event_time_stamp rearrange_entries exchange
rearranged_full = refl

store_event_mem-Stores_example :
    let (ret, d) = store_event_mem config third_event (record_of 3) primary_memory true full in
    Stores (record_of 3) (entries_of primary_memory full) ret (entries_of primary_memory d)
store_event_mem-Stores_example =
    store_event_mem-Stores config third_event (record_of 3) primary_memory true full full-IsUnique
      (λ e. ground arith)

get_event_for_displacement-Choice_example :
    Choice config full third_event
      (entries_of primary_memory full)
      (get_event_for_displacement config full third_event (entries_of primary_memory full))
get_event_for_displacement-Choice_example =
    get_event_for_displacement-Choice config full third_event (entries_of primary_memory full)

delete_event_mem_deletes_example :
    let (deleted, d) = delete_event_mem config first_event primary_memory full in
    (find_entry 1 (entries_of primary_memory d) ≡ none)
    × IsUnique (entries_of primary_memory d)
    × ((deleted ≡ false) ↔ (find_entry 1 (entries_of primary_memory full) ≡ none))
delete_event_mem_deletes_example =
    delete_event_mem_deletes config first_event primary_memory full full-IsUnique
      (λ e. ground arith)
