-- ===== src/Dem/Status.antt =====
-- The status record of one event, dem/src/impl/Dem_Private_impl.c: what a qualified result, the start
-- and the end of an operation cycle, a reset and the merge with stored data make of it.
-- Of the processor's options the model takes DEM_FAILURE_PROCESSING_DEM_INTERNAL and
-- DEM_AGING_PROCESSING_DEM_INTERNAL, and each of the three ways to clear the aging counter.
pub mod Invariant
pub mod Confirmation
use plug_and_play_autosar.Common.{
  ℕ, suc, ◌+◌, ◌-◌, ◌%◌, ◌^◌, ℤ, pos, Bool, true, false, not, ◌&&◌, ◌||◌, List, Option, none, some,
  if◌then◌else◌, ltb, leb, ◌==◌, get_elem?, Byte, zero_byte, band, bor, bnot, non_zero, eq_byte,
}
use plug_and_play_autosar.Dem.Types.{
  CycleState, cycle_start, EventParameter, EventStatusRec, EventRec, test_failed,
  test_failed_this_operation_cycle, pending_dtc, confirmed_dtc, test_not_completed_since_last_clear,
  test_failed_since_last_clear, test_not_completed_this_operation_cycle,
}

-- Which of the DEM_AGING_COUNTER_CLEAR_... macros is defined.
pub data AgingCounterClear : Type 0 where
  on_fail_during_failure_cycle on_fail_during_failure_or_aging_cycle on_all_fail : AgingCounterClear

-- DEM_FAILURE_CNTR_MAX, DEM_AGING_CNTR_MAX, DEM_OCCURENCE_COUNTER_MAX
abbrev pub failure_cntr_max : ℕ
failure_cntr_max = 255

abbrev pub aging_cntr_max : ℕ
aging_cntr_max = 255

abbrev pub occurence_counter_max : ℕ
occurence_counter_max = 0xFFFF

-- DEM_OPERATION_CYCLE_ID_ENDMARK
abbrev pub operation_cycle_id_endmark : ℕ
operation_cycle_id_endmark = 5

-- DEM_DEFAULT_EVENT_STATUS
abbrev pub default_event_status : Byte
default_event_status =
    bor test_not_completed_since_last_clear test_not_completed_this_operation_cycle

abbrev pub is_start : Option CycleState → Bool
is_start (some cycle_start) = true
is_start _ = false

-- `cs` is operationCycleStateList.
unfoldable pub operation_cycle_is_started : List CycleState → ℕ → Bool
operation_cycle_is_started cs c = ltb c operation_cycle_id_endmark && is_start (get_elem? cs c)

unfoldable pub failure_cycle_is_started : List CycleState → EventParameter → Bool
failure_cycle_is_started cs p = operation_cycle_is_started cs p.event_class.failure_cycle

unfoldable pub fault_confirmation_criteria_fulfilled : EventParameter → EventStatusRec → Bool
fault_confirmation_criteria_fulfilled p r =
    not (p.event_class.failure_cycle == operation_cycle_id_endmark)
    && leb p.event_class.failure_cycle_counter_threshold r.failure_counter

-- failureCounter++ below its maximum
unfoldable pub count_failure : EventStatusRec → EventStatusRec
count_failure r =
    if ltb r.failure_counter failure_cntr_max
    then record r { failure_counter = r.failure_counter + 1; error_status_changed = true }
    else r

unfoldable pub handle_fault_confirmation :
    List CycleState → EventParameter → EventStatusRec → EventStatusRec
handle_fault_confirmation cs p r =
    if failure_cycle_is_started cs p && not r.failed_during_failure_cycle
    then (let r1 = count_failure r in
        if fault_confirmation_criteria_fulfilled p r1
        then record r1 {
          status = bor confirmed_dtc r1.status;
          error_status_changed = true;
          failed_during_failure_cycle = true;
        }
        else record r1 { failed_during_failure_cycle = true })
    else r

abbrev clears_aging : AgingCounterClear → List CycleState → EventParameter → Bool
clears_aging on_fail_during_failure_cycle cs p =
    operation_cycle_is_started cs p.event_class.failure_cycle
clears_aging on_fail_during_failure_or_aging_cycle cs p =
    operation_cycle_is_started cs p.event_class.failure_cycle
    || operation_cycle_is_started cs p.event_class.aging_cycle
clears_aging on_all_fail cs p = true

unfoldable pub handle_aging_counter_on_failed :
    AgingCounterClear → List CycleState → EventParameter → EventStatusRec → EventStatusRec
handle_aging_counter_on_failed a cs p r =
    if clears_aging a cs p then record r { aging_counter = 0 } else r

-- The first test of updateEventOnFAILED.
unfoldable pub count_occurrence : EventStatusRec → EventStatusRec
count_occurrence r = if non_zero (band test_failed r.status) then r else record r {
  occurrence = if ltb r.occurrence occurence_counter_max then r.occurrence + 1 else r.occurrence;
  error_status_changed = true;
}

-- The bits that a failed test sets, then those that it clears.
unfoldable pub failed_bits : Byte → Byte
failed_bits s =
    band (bnot (bor test_not_completed_since_last_clear test_not_completed_this_operation_cycle)) (
      bor
        (bor test_failed
          (bor test_failed_this_operation_cycle (bor test_failed_since_last_clear pending_dtc)))
        s)

unfoldable pub update_event_on_failed :
    AgingCounterClear → List CycleState → EventParameter → EventStatusRec → EventStatusRec
update_event_on_failed a cs p r =
    let r1 = count_occurrence r in
    let r2 =
      if operation_cycle_is_started cs p.event_class.aging_cycle
      then record r1 { failed_during_aging_cycle = true }
      else r1 in
    let r3 = handle_aging_counter_on_failed a cs p r2 in
    let r4 = handle_fault_confirmation cs p r3 in record r4 { status = failed_bits r4.status }

unfoldable pub passed_bits : Byte → Byte
passed_bits s =
    band (bnot (bor test_not_completed_since_last_clear test_not_completed_this_operation_cycle))
      (band (bnot test_failed) s)

unfoldable pub update_event_on_passed :
    List CycleState → EventParameter → EventStatusRec → EventStatusRec
update_event_on_passed cs p r = record r {
  error_status_changed =
      if non_zero (band test_failed r.status) then true else r.error_status_changed;
  status = passed_bits r.status;
  passed_during_aging_cycle =
      if operation_cycle_is_started cs p.event_class.aging_cycle
      then true
      else r.passed_during_aging_cycle;
  passed_during_failure_cycle =
      if operation_cycle_is_started cs p.event_class.failure_cycle
      then true
      else r.passed_during_failure_cycle;
}

-- setDefaultEventStatus
unfoldable pub set_default_event_status : EventStatusRec → EventStatusRec
set_default_event_status r = record r {
  event_id = 0;
  event_param_ref = none;
  fdc_internal = pos 0;
  uds_fdc = pos 0;
  max_uds_fdc = pos 0;
  occurrence = 0;
  status = default_event_status;
  error_status_changed = false;
  extension_data_changed = false;
  extension_data_store_bitfield = 0;
  failure_counter = 0;
  failed_during_failure_cycle = false;
  passed_during_failure_cycle = false;
  aging_counter = 0;
  passed_during_aging_cycle = false;
  failed_during_aging_cycle = false;
  time_stamp = 0;
}

-- resetEventStatusRec, after its call of resetDebounceCounter.
unfoldable pub clear_event_status : EventStatusRec → EventStatusRec
clear_event_status r = record r {
  status = default_event_status;
  error_status_changed = false;
  occurrence = 0;
  failure_counter = 0;
  failed_during_failure_cycle = false;
  passed_during_failure_cycle = false;
  aging_counter = 0;
  failed_during_aging_cycle = false;
  passed_during_aging_cycle = false;
  time_stamp = 0;
}

-- The status bits that operationCycleStart writes for the events of the cycle.
unfoldable pub cycle_start_bits : Byte → Byte
cycle_start_bits s =
    bor test_not_completed_this_operation_cycle (band (bnot test_failed_this_operation_cycle) s)

-- The bits that operationCycleEnd writes for the events of the cycle: pending goes where the test
-- ran and did not fail.
unfoldable pub cycle_end_bits : Byte → Byte
cycle_end_bits s =
    if not (non_zero (band test_failed_this_operation_cycle s))
      && not (non_zero (band test_not_completed_this_operation_cycle s))
    then band (bnot pending_dtc) s
    else s

-- resetEventStatus on the bits.
unfoldable pub reset_bits : Byte → Byte
reset_bits s = band (bnot test_failed) s

-- What operationCycleStart clears where the cycle is the failure cycle of the event.
unfoldable pub start_failure_cycle : EventStatusRec → EventStatusRec
start_failure_cycle r = record r {
  failed_during_failure_cycle = false;
  passed_during_failure_cycle = false;
}

-- What operationCycleStart clears where the cycle is the aging cycle of the event.
unfoldable pub start_aging_cycle : EventStatusRec → EventStatusRec
start_aging_cycle r = record r {
  passed_during_aging_cycle = false;
  failed_during_aging_cycle = false;
}

-- What findAndDisplaceEvent makes of the record of the event that it removes. The lines that clear
-- the aging counter stand under `DEM_aging_PROCESSING_DEM_INTERNAL`, which nothing defines.
unfoldable pub displace_status : EventStatusRec → EventStatusRec
displace_status r = record r {
  status = band (bnot confirmed_dtc) r.status;
  failure_counter = 0;
  failed_during_failure_cycle = false;
  passed_during_failure_cycle = false;
}

-- What ageEvent makes of a record whose aging counter has reached the threshold.
unfoldable pub heal_status : EventStatusRec → EventStatusRec
heal_status r = record r {
  aging_counter = 0;
  status = band (bnot pending_dtc) (band (bnot confirmed_dtc) r.status);
  failure_counter = 0;
}

-- GET_STORED_STATUS_BITS; the first argument is DEM_TEST_FAILED_STORAGE.
unfoldable pub get_stored_status_bits : Bool → Byte → Byte
get_stored_status_bits storage s =
    if storage
    then (band
        (bor test_failed_since_last_clear (
          bor test_not_completed_since_last_clear
            (bor pending_dtc (bor confirmed_dtc test_failed))))
        s)
    else band
        (bor test_failed_since_last_clear
          (bor test_not_completed_since_last_clear (bor pending_dtc confirmed_dtc)))
        s

-- A sum of two `uint8` counters that stops at the maximum, as mergeEventStatusRec takes it.
unfoldable pub add_saturated : ℕ → ℕ → ℕ → ℕ
add_saturated max stored current = if ltb (max - stored) current then max else current + stored

-- mergeEventStatusRec on the status bits, up to the confirmation by the failure counter.
unfoldable pub merge_bits : Byte → Byte → Byte
merge_bits stored s =
    let s1 = bor (band test_failed_since_last_clear stored) s in
    let s2 =
      if non_zero (band test_not_completed_since_last_clear (band stored s1))
      then s1
      else band (bnot test_not_completed_since_last_clear) s1 in
    bor (band (bor pending_dtc confirmed_dtc) stored) s2

unfoldable pub confirms : Option EventParameter → EventStatusRec → Bool
confirms none r = false
confirms (some q) r = fault_confirmation_criteria_fulfilled q r

-- The rest of mergeEventStatusRec on the status bits: `confirmed` if the counter confirms the fault,
-- and testFailed as in the stored status where the test did not run in this cycle.
unfoldable pub merge_confirmed : Bool → Bool → Byte → Byte → Byte
merge_confirmed storage confirmed stored s =
    let s2 = if confirmed then bor confirmed_dtc s else s in
    if storage && non_zero (band test_not_completed_this_operation_cycle s2)
    then bor (band test_failed stored) s2
    else s2

-- mergeEventStatusRec: the merged record, and whether it differs from what is stored. The
-- notification that follows is made by the caller.
unfoldable pub merge_event_status_rec :
    Bool → Option EventParameter → EventRec → EventStatusRec → EventStatusRec × Bool
merge_event_status_rec storage p e r =
    let r1 = record r {
      occurrence = (r.occurrence + e.occurrence) % 2 ^ 16;
      failure_counter = add_saturated failure_cntr_max e.failure_counter r.failure_counter;
      aging_counter = add_saturated aging_cntr_max e.aging_counter r.aging_counter;
      status = merge_bits e.status r.status;
    } in
    let s3 = merge_confirmed storage (confirms p r1) e.status r1.status in
    let r2 = record r1 {
      status = s3;
      time_stamp =
          if non_zero (band test_failed_this_operation_cycle s3)
          then r1.time_stamp
          else e.time_stamp;
    } in
    (
      r2,
      not (r2.occurrence == e.occurrence)
          || (not (r2.failure_counter == e.failure_counter)
              || not (
                  eq_byte (get_stored_status_bits storage r2.status)
                    (get_stored_status_bits storage e.status))),
    )
