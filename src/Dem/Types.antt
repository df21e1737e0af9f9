-- ===== src/Dem/Types.antt =====
-- The data of the event manager: the configuration (dem/inc/Dem_Lcfg.h, dem/config/Dem_Cfg.h), the
-- records of dem/src/Dem_Internal.h and the static variables of dem/src/impl/Dem_Private_impl.c.
use plug_and_play_autosar.Common.{ℕ, ℤ, Bool, Byte, byte, true, false, Option, List}

-- Std_ReturnType, as far as the event manager uses it.
pub data StdReturn : Type 0 where
  e_ok e_not_ok : StdReturn

-- Dem_EventStatusType, a `uint8`; `invalid` stands for the values that no name is given to.
pub data EventStatus : Type 0 where
  passed failed prepassed prefailed : EventStatus
  invalid : ℕ → EventStatus

pub data Origin : Type 0 where
  not_used primary_memory mirror_memory permanent_memory secondary_memory : Origin

pub data DtcFormat : Type 0 where
  obd_format uds_format other_format : DtcFormat

pub data DtcKind : Type 0 where
  all_dtcs emission_rel_dtcs other_kind : DtcKind

pub data CycleState : Type 0 where
  cycle_start cycle_end other_state : CycleState

pub data DemState : Type 0 where
  uninitialized preinitialized initialized shutdown : DemState

-- The masks of Dem_EventStatusExtendedType.
abbrev pub test_failed : Byte
test_failed = byte true false false false false false false false

abbrev pub test_failed_this_operation_cycle : Byte
test_failed_this_operation_cycle = byte false true false false false false false false

abbrev pub pending_dtc : Byte
pending_dtc = byte false false true false false false false false

abbrev pub confirmed_dtc : Byte
confirmed_dtc = byte false false false true false false false false

abbrev pub test_not_completed_since_last_clear : Byte
test_not_completed_since_last_clear = byte false false false false true false false false

abbrev pub test_failed_since_last_clear : Byte
test_failed_since_last_clear = byte false false false false false true false false

abbrev pub test_not_completed_this_operation_cycle : Byte
test_not_completed_this_operation_cycle = byte false false false false false false true false

abbrev pub warning_indicator_requested : Byte
warning_indicator_requested = byte false false false false false false false true

-- Dem_PreDebounceCounterBasedType: the steps are `uint16`, the values `sint16`.
pub record CounterBased : Type 0 where
  pub jump_up : Bool
  pub jump_down : Bool
  pub increment_step_size : ℕ
  pub decrement_step_size : ℕ
  pub jump_down_value : ℤ
  pub jump_up_value : ℤ
  pub failed_threshold : ℤ
  pub passed_threshold : ℤ

-- Dem_PreDebounceTimeBasedType
pub record TimeBased : Type 0 where
  pub time_failed_threshold : ℕ
  pub time_passed_threshold : ℕ
  pub index : ℕ

-- Dem_PreDebounceAlgorithmClassType: the name with the member of the union that it selects.
pub data PreDebounce : Type 0 where
  no_pre_debounce : PreDebounce
  pre_debounce_counter_based : CounterBased → PreDebounce
  pre_debounce_frequency_based : PreDebounce
  pre_debounce_time_based : TimeBased → PreDebounce

-- Arc_Dem_DTC
pub record Dtc : Type 0 where
  pub uds_dtc : ℕ
  pub obd_dtc : ℕ
  pub dtc_used : Bool
  pub immediate_nv_storage : Bool

-- Dem_DTCClassType; NofEvents is the length of `events`.
pub record DtcClass : Type 0 where
  pub dtc_ref : Dtc
  pub events : List ℕ
  pub dtc_index : ℕ
  pub dtc_severity : Byte

-- Dem_EventClassType, each pointer to a calibration value with that value.
pub record EventClass : Type 0 where
  pub failure_cycle_counter_threshold : ℕ
  pub enable_condition_group : Option (List ℕ)
  pub pre_debounce : Option PreDebounce
  pub event_available : Bool
  pub aging_cycle_counter_threshold : Option ℕ
  pub failure_cycle : ℕ
  pub event_destination : Origin
  pub event_priority : ℕ
  pub aging_allowed : Bool
  pub operation_cycle : ℕ
  pub aging_cycle : ℕ

-- Dem_EventParameterType. Of a list of callbacks only the UsePort flags are kept.
pub record EventParameter : Type 0 where
  pub event_id : ℕ
  pub event_class : EventClass
  pub dtc_class : Option DtcClass
  pub event_dtc_kind : ℕ
  pub callback_event_status_changed : Option (List Bool)
  pub callback_event_data_changed : Option Bool
  pub callback_init_monitor : Bool

-- EventStatusRecType
pub record EventStatusRec : Type 0 where
  pub event_param_ref : Option EventParameter
  pub time_stamp : ℕ
  pub event_id : ℕ
  pub occurrence : ℕ
  pub fdc_internal : ℤ
  pub uds_fdc : ℤ
  pub max_uds_fdc : ℤ
  pub failure_counter : ℕ
  pub aging_counter : ℕ
  pub status : Byte
  pub extension_data_store_bitfield : ℕ
  pub failed_during_aging_cycle : Bool
  pub passed_during_aging_cycle : Bool
  pub failed_during_failure_cycle : Bool
  pub passed_during_failure_cycle : Bool
  pub error_status_changed : Bool
  pub extension_data_changed : Bool
  pub indicator_data_changed : Bool
  pub is_available : Bool
  pub is_disabled : Bool

-- The EventData of EventRecType, an entry of event memory.
pub record EventRec : Type 0 where
  pub time_stamp : ℕ
  pub event_id : ℕ
  pub occurrence : ℕ
  pub status : Byte
  pub failure_counter : ℕ
  pub aging_counter : ℕ

-- An event memory: the entries, the AdminData behind them, and the overflow flag kept in RAM.
pub record EventMemory : Type 0 where
  pub entries : List EventRec
  pub admin_magic : ℕ
  pub admin_overflow : Bool
  pub overflow : Bool

-- TimeBaseStatusType
pub record TimeBaseStatus : Type 0 where
  pub debounce_time : ℕ
  pub event_id : ℕ
  pub started : Bool
  pub failure_counting : Bool
  pub error_reported : Bool
  pub counter_reset : Bool
