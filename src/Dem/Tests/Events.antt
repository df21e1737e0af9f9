-- ===== src/Dem/Tests/Events.antt =====
-- Runs of reports, cycles and aging on the small configuration.
use plug_and_play_autosar.Common.{
  ◌≡◌, refl, true, false, none, some, [], ◌∷◌, arith, get_elem?, byte, not, ◌==◌, if◌then◌else◌,
  List,
}
use plug_and_play_autosar.Dem.Types.{
  EventStatusRec, CycleState, cycle_start, failed, primary_memory,
}
use plug_and_play_autosar.Dem.State.{
  Dem, entries_of, get_event_status_rec, lookup_event_status_rec, lookup_event_id_parameter,
  write_event_status_rec,
}
use plug_and_play_autosar.Dem.Debounce.{run_predebounce, pre_debounce_counter, next_fdc, qualify}
use plug_and_play_autosar.Dem.Status.{
  update_event_on_failed, count_occurrence, operation_cycle_is_started,
  handle_aging_counter_on_failed, handle_fault_confirmation, failure_cycle_is_started,
  count_failure, fault_confirmation_criteria_fulfilled, failed_bits,
}
use plug_and_play_autosar.Dem.Memory.{
  find_entry, set_event_time_stamp, store_event_evt_mem, store_in, store_event_mem, allocate_entry,
  displace_or_fail, lookup_event_for_displacement, get_event_for_displacement, search_candidate,
  consider, may_remove, get_event_priority, get_event_passive,
  event_dtc_record_data_update_disabled, find_and_displace_event, write_entry,
}
use plug_and_play_autosar.Dem.Memory.Store.{IsStored}
use plug_and_play_autosar.Dem.Event.{
  dem_set_event_status, process_event, update_event_status_rec, clear_changes, update_on_status,
  finish_update, stamp_time, store_changed, store_if,
}
use plug_and_play_autosar.Dem.Event.Guards.{Guarded, dem_set_event_status-Guarded}
use plug_and_play_autosar.Dem.Event.Confirmed.{process_event_confirmed-IsStored}
use plug_and_play_autosar.Dem.Cycle.{operation_cycle_start, age_event, age_record}
use plug_and_play_autosar.Dem.Cycle.Start.{started_status, operation_cycle_start_marks}
use plug_and_play_autosar.Dem.Cycle.Aging.{
  passing_cycles, passed_in_cycle, passing_cycles_heal, age_event_deletes,
}
use plug_and_play_autosar.Dem.Tests.{
  config, full, full-IsUnique, first_event, third_event, record_of,
}

dem_set_event_status-Guarded_example :
    Guarded config 3 failed full (dem_set_event_status config 3 failed full)
dem_set_event_status-Guarded_example = dem_set_event_status-Guarded config 3 failed full

-- The event 3 has failed in one failure cycle.
abbrev failed_once : EventStatusRec
failed_once = record (record_of 3) { failure_counter = 1 }

confirms : (process_event config 3 third_event failed_once failed full).0.status.b3 ≡ true
unfolding process_event find_entry run_predebounce pre_debounce_counter next_fdc qualify
    update_event_on_failed count_occurrence operation_cycle_is_started
    handle_aging_counter_on_failed handle_fault_confirmation failure_cycle_is_started count_failure
    fault_confirmation_criteria_fulfilled failed_bits get_event_status_rec lookup_event_status_rec
    lookup_event_id_parameter write_event_status_rec set_event_time_stamp store_event_evt_mem
    store_in store_event_mem allocate_entry displace_or_fail lookup_event_for_displacement
    get_event_for_displacement search_candidate consider may_remove get_event_priority
    get_event_passive event_dtc_record_data_update_disabled find_and_displace_event write_entry
    update_event_status_rec clear_changes update_on_status finish_update stamp_time store_changed
    store_if
confirms = refl

process_event_confirmed-IsStored_example :
    let (r, d) = process_event config 3 third_event failed_once failed full in
    IsStored r primary_memory d
process_event_confirmed-IsStored_example =
    process_event_confirmed-IsStored config 3 third_event failed_once failed full full-IsUnique
      (λ e. ground arith) refl (omega arith) confirms

abbrev restarted : EventStatusRec
restarted = record (record_of 1) {
  event_param_ref = some first_event;
  status = byte true true true false false true false false;
}

abbrev before_start : Dem
before_start = record full { event_status_buffer = restarted ∷ [] }

operation_cycle_start_marks_example :
    (r : EventStatusRec) × (get_elem?
        (operation_cycle_start config 1 before_start).event_status_buffer
        0
      ≡ some r)
    × (r.status ≡ started_status 1 restarted)
operation_cycle_start_marks_example =
    operation_cycle_start_marks config 1 0 before_start restarted refl

abbrev confirmed_record : EventStatusRec
confirmed_record = record (record_of 1) {
  status = byte false false true true false true false false;
}

abbrev running : List CycleState
running = cycle_start ∷ cycle_start ∷ cycle_start ∷ cycle_start ∷ []

passing_cycles_heal_example :
    let r = passing_cycles running first_event 2 confirmed_record in
    let (r', counted, healed) = age_record first_event (passed_in_cycle running first_event r) in
    (r.aging_counter ≡ 2)
    × (r.status.b3 ≡ true)
    × (healed ≡ (3 == 3))
    × (r'.status.b3 ≡ not (3 == 3))
    × (r'.aging_counter ≡ (if 3 == 3 then 0 else 3))
unfolding operation_cycle_is_started
passing_cycles_heal_example =
    passing_cycles_heal running first_event 3 refl refl (omega arith) 2 confirmed_record refl refl
      (omega arith)

abbrev aged_record : EventStatusRec
aged_record = record confirmed_record { aging_counter = 2; passed_during_aging_cycle = true }

stored : find_entry 1 (entries_of primary_memory full) ≡ some 0
unfolding find_entry
stored = refl

heals : (age_record first_event aged_record).2 ≡ true
unfolding age_record
heals = refl

age_event_deletes_example :
    find_entry 1 (entries_of primary_memory (age_event config first_event 0 aged_record full).1)
    ≡ none
age_event_deletes_example =
    age_event_deletes config first_event 0 0 aged_record full full-IsUnique (λ e. ground arith)
      stored heals
