-- ===== src/Dem/Event.antt =====
-- The report of a monitor result for an event: updateEventStatusRec, handleEvent and
-- resetEventStatus of dem/src/impl/Dem_Private_impl.c, and the functions of
-- dem/src/impl/Dem_Core_impl.c that call them. The record of the event is passed by value and
-- written back: storing it changes the records of other events only. Freeze frames and extended
-- data are not configured for the events, so that none are captured.
pub mod Guards
pub mod Confirmed
pub mod Unique
use plug_and_play_autosar.Common.{
  ℕ, ◌+◌, ◌-◌, ℤ, pos, max_ℤ, ◌≡◌, Bool, true, false, not, ◌&&◌, ◌||◌, Option, none, some, List, [],
  ◌∷◌, ltb, leb, ◌==◌, if◌then◌else◌, Byte, band, bor, bnot, non_zero, eq_byte,
}
use plug_and_play_autosar.Dem.Types.{
  StdReturn, e_ok, e_not_ok, EventStatus, passed, failed, prepassed, prefailed, invalid, DemState,
  uninitialized, preinitialized, initialized, shutdown, EventParameter, EventStatusRec,
  TimeBaseStatus, test_failed, confirmed_dtc, test_not_completed_this_operation_cycle,
}
use plug_and_play_autosar.Dem.Debounce.{run_predebounce, reset_debounce_counter}
use plug_and_play_autosar.Dem.Status.{
  update_event_on_failed, update_event_on_passed, operation_cycle_is_started, reset_bits,
}
use plug_and_play_autosar.Dem.State.{
  Config, Dem, lookup_event_status_rec, lookup_event_id_parameter, write_event_status_rec,
  notify_event_status_change, notify_event_data_changed,
}
use plug_and_play_autosar.Dem.Memory.{is_initialized, store_event_evt_mem, set_event_time_stamp}
use plug_and_play_autosar.Dem.Dtc.{event_processing_allowed}

abbrev pub is_failed : EventStatus → Bool
is_failed failed = true
is_failed _ = false

-- The `switch` of updateEventStatusRec.
unfoldable pub update_on_status :
    Config → Dem → EventParameter → EventStatus → EventStatusRec → EventStatusRec
update_on_status c d p failed r =
    update_event_on_failed c.aging_counter_clear d.operation_cycle_state_list p r
update_on_status c d p passed r = update_event_on_passed d.operation_cycle_state_list p r
update_on_status c d p _ r = r

-- The time stamp of a test that just failed.
unfoldable pub stamp_time : Bool → EventStatusRec → Dem → EventStatusRec × Dem
stamp_time true r d = set_event_time_stamp r d
stamp_time false r d = (r, d)

-- The four assignments of updateEventStatusRec before its `switch`.
unfoldable pub clear_changes : EventStatusRec → EventStatusRec
clear_changes r = record r {
  error_status_changed = false;
  extension_data_changed = false;
  indicator_data_changed = false;
  extension_data_store_bitfield = 0;
}

-- What updateEventStatusRec does after the `switch`.
unfoldable pub finish_update : EventStatus → EventStatusRec → Dem → EventStatusRec × Dem
finish_update status r d =
    stamp_time (r.error_status_changed && is_failed status)
      (record r { max_uds_fdc = max_ℤ r.max_uds_fdc r.uds_fdc }) d

-- updateEventStatusRec: the record, and the state with the timers and the time stamps.
unfoldable pub update_event_status_rec :
    Config → EventParameter → EventStatus → EventStatusRec → Dem → EventStatusRec × Dem
update_event_status_rec c p reported r d =
    let (status, r1, timers) = run_predebounce reported p r d.time_base_buffer in
    finish_update status (update_on_status c d p status (clear_changes r1))
      (record d { time_base_buffer = timers })

abbrev pub clear_unstored : StdReturn → EventStatusRec → EventStatusRec
clear_unstored e_ok r = r
clear_unstored e_not_ok r = record r { status = band (bnot confirmed_dtc) r.status }

abbrev pub notify_stored : StdReturn → EventParameter → Dem → Dem
notify_stored e_ok p d = notify_event_data_changed p d
notify_stored e_not_ok p d = d

-- The notification of a status that is not the old one.
abbrev pub notify_changed : Byte → EventStatusRec → Dem → Dem
notify_changed old r d =
    if eq_byte old r.status then d else notify_event_status_change r.event_param_ref old r.status d

-- The storage in handleEvent of a record that changed, with eventStoreStatus.
unfoldable pub store_if : Bool → Config → EventParameter → EventStatusRec → Dem → StdReturn × Dem
store_if true c p r d =
    let failed_now = r.error_status_changed && non_zero (band test_failed r.status) in
    let (stored, d1) = store_event_evt_mem c p r failed_now d in (stored, notify_stored stored p d1)
store_if false c p r d = (e_ok, d)

unfoldable pub store_changed : Config → EventParameter → EventStatusRec → Dem → StdReturn × Dem
store_changed c p r d = store_if (r.error_status_changed || r.extension_data_changed) c p r d

-- The processing of an allowed event in handleEvent: the record that is left, and the state.
unfoldable pub process_event :
    Config → ℕ → EventParameter → EventStatusRec → EventStatus → Dem → EventStatusRec × Dem
process_event c id p r reported d =
    let (r1, d1) = update_event_status_rec c p reported r d in
    let (stored, d2) = store_changed c p r1 (write_event_status_rec id r1 d1) in
    let r2 = clear_unstored stored r1 in
    let d3 = write_event_status_rec id r2 d2 in (r2, notify_changed r.status r2 d3)

-- The conditions of handleEvent on the parameters and the record that are found.
unfoldable pub accept :
    Config
    → Dem
    → Option EventParameter
    → Option EventStatusRec
    → Option (EventParameter × EventStatusRec)
accept c d (some p) (some r) =
    if r.is_available
      && (operation_cycle_is_started d.operation_cycle_state_list p.event_class.operation_cycle
          && event_processing_allowed c d p)
    then some (p, r)
    else none
accept c d none _ = none
accept c d (some p) none = none

unfoldable pub handle_accepted :
    Config → ℕ → EventStatus → Dem → Option (EventParameter × EventStatusRec) → StdReturn × Dem
handle_accepted c id reported d (some (p, r)) = (e_ok, (process_event c id p r reported d).1)
handle_accepted c id reported d none = (e_not_ok, d)

-- handleEvent
unfoldable pub handle_event : Config → ℕ → EventStatus → Dem → StdReturn × Dem
handle_event c id reported d =
    handle_accepted c id reported d
      (accept c d (lookup_event_id_parameter c id) (lookup_event_status_rec c d id))

-- resetEventStatus for the record `r` of the event.
unfoldable pub reset_available_event : Config → ℕ → EventStatusRec → Dem → Dem
reset_available_event c id r d =
    let r1 = record r { status = reset_bits r.status } in
    let (r2, timers) =
      reset_debounce_counter (lookup_event_id_parameter c r.event_id) r1 d.time_base_buffer in
    let d1 = record (write_event_status_rec id r2 d) { time_base_buffer = timers } in
    notify_changed r.status r2 d1

unfoldable pub reset_event_status : Config → ℕ → Dem → StdReturn × Dem
reset_event_status c id d = elim (lookup_event_status_rec c d id) [
  | none ↦ (e_ok, d)
  | some r ↦
      if r.is_available && non_zero (band test_not_completed_this_operation_cycle r.status)
      then (e_ok, reset_available_event c id r d)
      else (e_not_ok, d)
]

-- IS_VALID_EVENT_STATUS
abbrev pub is_valid_event_status : EventStatus → Bool
is_valid_event_status (invalid n) = false
is_valid_event_status _ = true

-- VALIDATE_RV: the call `x` is made where the test holds.
abbrev pub validate : Bool → StdReturn × Dem → Dem → StdReturn × Dem
validate true x d = x
validate false x d = (e_not_ok, d)

-- Dem_SetEventStatus; after Dem_Shutdown it returns E_NOT_OK as well.
unfoldable pub dem_set_event_status : Config → ℕ → EventStatus → Dem → StdReturn × Dem
dem_set_event_status c id reported d =
    validate (is_initialized d.dem_state && is_valid_event_status reported)
      (handle_event c id reported d) d

-- Dem_ResetEventStatus
unfoldable pub dem_reset_event_status : Config → ℕ → Dem → StdReturn × Dem
dem_reset_event_status c id d = validate (is_initialized d.dem_state) (reset_event_status c id d) d

-- handlePreInitEvent
unfoldable pub handle_pre_init_event : Config → ℕ → EventStatus → Dem → Dem
handle_pre_init_event c id reported d = elim (lookup_event_id_parameter c id) [
  | none ↦ d
  | some p ↦
      if operation_cycle_is_started d.operation_cycle_state_list p.event_class.operation_cycle
      then elim (lookup_event_status_rec c d id) [
        | none ↦ d
        | some r ↦
            (let (r1, d1) = update_event_status_rec c p reported r d in
              write_event_status_rec id r1 d1)
      ]
      else d
]

abbrev is_qualified : EventStatus → Bool
is_qualified passed = true
is_qualified failed = true
is_qualified _ = false

-- Dem_ReportErrorStatus
unfoldable pub dem_report_error_status : Config → ℕ → EventStatus → Dem → Dem
dem_report_error_status c id reported d =
    if is_valid_event_status reported
    then elim d.dem_state [
      | preinitialized ↦ if is_qualified reported then handle_pre_init_event c id reported d else d
      | initialized ↦ (handle_event c id reported d).1
      | _ ↦ d
    ]
    else d
