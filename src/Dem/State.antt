-- ===== src/Dem/State.antt =====
-- The state of the event manager (the static variables of dem/src/impl/Dem_Private_impl.c), its
-- configuration, the lookups in both, the notifications, and dem/src/Dem_NvM.c.
-- Of the configurations of the source the model takes the one with both memories, time stamps,
-- internal displacement, failure processing and aging, NvM, and events without freeze frames and
-- extended data; indicators, permanent memory, combined events and extensions are off.
use plug_and_play_autosar.Common.{
  ℕ, ◌-◌, Bool, true, false, ◌&&◌, Option, none, some, List, [], ◌∷◌, ◌++◌, map, leb, ltb, ◌==◌,
  if◌then◌else◌, get_elem?, set, Byte, bor, band, non_zero, not,
}
use plug_and_play_autosar.Dem.Types.{
  StdReturn, e_ok, e_not_ok, Origin, primary_memory, secondary_memory, CycleState, DemState,
  EventParameter, EventStatusRec, EventRec, EventMemory, TimeBaseStatus, test_failed,
  test_not_completed_this_operation_cycle, test_not_completed_since_last_clear, DtcKind,
}
use plug_and_play_autosar.Dem.Status.{AgingCounterClear}

-- configSet, with the processor's switches and the constants of Dem_Cfg.h.
pub record Config : Type 0 where
  pub event_parameter : List EventParameter
  pub last_valid_id : ℕ
  pub aging_counter_clear : AgingCounterClear
  pub test_failed_storage : Bool
  pub treat_confirmed_events_as_active : Bool
  pub event_displacement_support : Bool
  pub use_immediate_nv_storage : Bool
  pub immediate_nv_storage_limit : ℕ
  pub primary_event_block : Bool
  pub secondary_event_block : Bool
  -- The DTCs of GroupOfDtc and, last, that of its end mark.
  pub group_dtcs : List ℕ

-- DemNvMBlockStatusType, less the state of the write.
pub record NvmBlock : Type 0 where
  pub dirty : Bool
  pub pending_write : Bool

-- A call of a configured callback. The flag is UsePort; the id is that of the parameters.
pub data Notice : Type 0 where
  event_status_changed : ℕ → Bool → Byte → Byte → Notice
  event_data_changed : ℕ → Bool → Notice
  -- CallbackInitMforE with DEM_INIT_MONITOR_RESTART
  init_monitor_restart : ℕ → Notice

pub record Dem : Type 0 where
  pub dem_state : DemState
  pub operation_cycle_state_list : List CycleState
  pub event_status_buffer : List EventStatusRec
  pub time_base_buffer : List TimeBaseStatus
  pub primary : EventMemory
  pub secondary : EventMemory
  pub event_time_stamp : ℕ
  pub dtc_record_disabled : ℕ
  pub dtc_record_disabled_origin : Origin
  pub setting_disabled : Bool
  pub disabled_dtc_group : ℕ
  pub disabled_dtc_kind : DtcKind
  pub enable_conditions : List Bool
  pub primary_event_nvm : NvmBlock
  pub secondary_event_nvm : NvmBlock
  pub notices : List Notice

-- IS_VALID_EVENT_ID
abbrev pub is_valid_event_id : Config → ℕ → Bool
is_valid_event_id c id = ltb 0 id && leb id c.last_valid_id

-- lookupEventStatusRec. An id that is valid but outside the buffer, which C would read out of
-- bounds, is not found.
unfoldable pub lookup_event_status_rec : Config → Dem → ℕ → Option EventStatusRec
lookup_event_status_rec c d id =
    if is_valid_event_id c id then get_elem? d.event_status_buffer (id - 1) else none

unfoldable pub lookup_event_id_parameter : Config → ℕ → Option EventParameter
lookup_event_id_parameter c id =
    if is_valid_event_id c id then get_elem? c.event_parameter (id - 1) else none

-- A write through the pointer that lookupEventStatusRec gives for `id`.
unfoldable pub write_event_status_rec : ℕ → EventStatusRec → Dem → Dem
write_event_status_rec id r d = record d {
  event_status_buffer = set d.event_status_buffer (id - 1) r;
}

-- getEventStatusRec with the test that getEventStatus, getEventFailed and getEventTested share.
-- For an invalid id the local record has the id 0, which is no valid id, so the test fails.
unfoldable pub get_event_status_rec : Config → Dem → ℕ → Option EventStatusRec
get_event_status_rec c d id = elim (lookup_event_status_rec c d id) [
  | none ↦ none
  | some r ↦ if r.event_id == id && r.is_available then some r else none
]

unfoldable pub get_event_status : Config → Dem → ℕ → StdReturn × Byte
get_event_status c d id = elim (get_event_status_rec c d id) [
  | none ↦
      (e_not_ok, bor test_not_completed_this_operation_cycle test_not_completed_since_last_clear)
  | some r ↦ (e_ok, r.status)
]

unfoldable pub get_event_failed : Config → Dem → ℕ → StdReturn × Bool
get_event_failed c d id = elim (get_event_status_rec c d id) [
  | none ↦ (e_not_ok, false)
  | some r ↦ (e_ok, non_zero (band test_failed r.status))
]

unfoldable pub get_event_tested : Config → Dem → ℕ → StdReturn × Bool
get_event_tested c d id = elim (get_event_status_rec c d id) [
  | none ↦ (e_not_ok, false)
  | some r ↦ (e_ok, not (non_zero (band test_not_completed_this_operation_cycle r.status)))
]

abbrev status_calls : ℕ → Byte → Byte → List Bool → List Notice
status_calls id old new ports = map (λ port. event_status_changed id port old new) ports

unfoldable pub notify_event_status_change : Option EventParameter → Byte → Byte → Dem → Dem
notify_event_status_change none old new d = d
notify_event_status_change (some p) old new d = elim p.callback_event_status_changed [
  | none ↦ d
  | some ports ↦ record d { notices = d.notices ++ status_calls p.event_id old new ports }
]

unfoldable pub notify_event_data_changed : EventParameter → Dem → Dem
notify_event_data_changed p d = elim p.callback_event_data_changed [
  | none ↦ d
  | some port ↦ record d { notices = d.notices ++ (event_data_changed p.event_id port ∷ []) }
]

-- setNvMBlockChanged; `configured` if the block has a handle.
unfoldable pub set_nvm_block_changed : Bool → Bool → NvmBlock → NvmBlock
set_nvm_block_changed configured immediate b =
    if configured
    then record b { dirty = true; pending_write = if immediate then true else b.pending_write }
    else b

-- Dem_NvM_SetEventBlockChanged
unfoldable pub set_event_block_changed : Config → Origin → Bool → Dem → Dem
set_event_block_changed c primary_memory immediate d = record d {
  primary_event_nvm = set_nvm_block_changed c.primary_event_block immediate d.primary_event_nvm;
}
set_event_block_changed c secondary_memory immediate d = record d {
  secondary_event_nvm =
      set_nvm_block_changed c.secondary_event_block immediate d.secondary_event_nvm;
}
set_event_block_changed c _ immediate d = d

-- The buffer of a memory, and a change of it.
abbrev pub entries_of : Origin → Dem → List EventRec
entries_of primary_memory d = d.primary.entries
entries_of secondary_memory d = d.secondary.entries
entries_of _ d = []

abbrev pub with_entries : Origin → List EventRec → Dem → Dem
with_entries primary_memory es d = record d { primary = record (d.primary) { entries = es } }
with_entries secondary_memory es d = record d { secondary = record (d.secondary) { entries = es } }
with_entries _ es d = d
