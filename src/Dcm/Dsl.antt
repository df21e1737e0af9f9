-- ===== src/Dcm/Dsl.antt =====
-- The session layer, core/dcm/src/Dcm_Dsl.c: its configuration (core/dcm/inc/Dcm_Lcfg.h), its state,
-- and the lookups. The pointers of the configuration are indices: of a protocol row with its run time
-- parameters, and of a buffer. The variant has USE_COMM, periodic transmission and the jump to the boot
-- loader, and no split tasks. Calls of other components are listed, the newest first.
pub mod Session
pub mod Buffers
pub mod Reception
pub mod Indication
pub mod Transmission
pub mod Confirmation
pub mod Main
pub mod Startup
use plug_and_play_autosar.Common.{
  ℕ, zero, suc, ◌+◌, ◌-◌, ◌/◌, ◌%◌, ◌^◌, Bool, true, false, ◌&&◌, Option, none, some, List, [], ◌∷◌,
  ltb, leb, ◌==◌, if◌then◌else◌, get_elem?, ◌≡◌, ◌≢◌, arith,
}

-- DCM_INVALID_PDU_ID
abbrev pub invalid_pdu_id : ℕ
invalid_pdu_id = 0xFFFF

-- DCM_DEFAULT_SESSION, DCM_OBD_SESSION, DCM_SEC_LEV_LOCKED, DCM_OBD_ON_CAN
abbrev pub default_session : ℕ
default_session = 1

abbrev pub obd_session : ℕ
obd_session = 5

abbrev pub sec_lev_locked : ℕ
sec_lev_locked = 0

abbrev pub obd_on_can : ℕ
obd_on_can = 0

-- DCM_DSL_LOCAL_BUFFER_LENGTH
abbrev pub local_buffer_length : ℕ
local_buffer_length = 8

-- DCM_E_INTERFACE_BUFFER_OVERFLOW, DCM_E_TP_LENGTH_MISMATCH, DCM_E_UNEXPECTED_EXECUTION,
-- DCM_E_INTEGRATION_ERROR, DCM_E_WRONG_BUFFER
abbrev pub interface_buffer_overflow : ℕ
interface_buffer_overflow = 0x03

abbrev pub tp_length_mismatch : ℕ
tp_length_mismatch = 0x50

abbrev pub unexpected_execution : ℕ
unexpected_execution = 0x61

abbrev pub integration_error : ℕ
integration_error = 0x62

abbrev pub wrong_buffer : ℕ
wrong_buffer = 0x63

-- Dcm_DslBufferStatusType
pub data BufferStatus : Type 0 where
  buffer_available buffer_busy : BufferStatus

-- Dcm_DslBufferUserType
pub data BufferUser : Type 0 where
  not_in_use in_use provided_to_pdur dsd_pending_response_signaled dcm_transmit_signaled
        provided_to_dsd preempt_transmit_nrc undefined_usage :
      BufferUser

-- Dcm_DslBufferType with its run time data; the bytes of the buffer are those of `pduInfo`.
pub record Buffer : Type 0 where
  pub size : ℕ
  pub bytes : List ℕ
  pub status : BufferStatus
  pub nof_bytes_handled : ℕ
  pub rx_pdu_id : ℕ

-- Dcm_DslLocalBufferType
pub record LocalBuffer : Type 0 where
  pub status : BufferUser
  pub bytes : List ℕ
  pub sdu_length : ℕ
  pub nof_bytes_handled : ℕ
  pub response_code : ℕ
  pub rx_pdu_id : ℕ

-- Dcm_DslRunTimeProtocolParametersType. A request stands in the receive buffer of the protocol, and a
-- response in its transmit buffer, so that only their lengths are kept.
pub record Runtime : Type 0 where
  pub diag_request_rx_pdu_id : ℕ
  pub state_timeout_count : ℕ
  pub external_rx_buffer_status : BufferUser
  pub request_length : ℕ
  pub response_length : ℕ
  pub external_tx_buffer_status : BufferUser
  pub protocol_started : Bool
  pub local_rx_buffer : LocalBuffer
  pub local_tx_buffer : LocalBuffer
  pub diagnostic_active_com_m : Bool
  pub s3_server_timeout_count : ℕ
  pub s3_server_started : Bool
  pub response_pending_count : ℕ
  pub security_level : ℕ
  pub session_control : ℕ
  pub preempt_timeout_count : ℕ
  pub diag_response_tx_pdu_id : ℕ
  pub is_type2_tx : Bool

-- Dcm_DslPeriodicTxType
pub record PeriodicTx : Type 0 where
  pub protocol : ℕ
  pub pdu_r_tx_pdu_id : ℕ
  pub dcm_tx_pdu_id : ℕ

-- Dcm_DslPeriodicTransmissionType
pub record PeriodicTransmission : Type 0 where
  pub protocol : ℕ
  pub tx_pdu_list : List PeriodicTx

-- Dcm_DslMainConnectionType, with the protocol row of its parent; `physical_rx` is an index of the
-- global list of receive PDUs.
pub record MainConnection : Type 0 where
  pub protocol : ℕ
  pub periodic_transmission : Option PeriodicTransmission
  pub physical_rx : Option ℕ
  pub tx_pdu_id : ℕ
  pub tester_source_address : ℕ

-- Dcm_DslProtocolRxType
pub record ProtocolRx : Type 0 where
  pub main_connection : MainConnection
  pub functional : Bool
  pub rx_pdu_id : ℕ
  pub com_m_channel : ℕ

-- Dcm_DslProtocolTimingRowType
pub record ProtocolTiming : Type 0 where
  pub p2_server_adjust : ℕ
  pub p2_star_server_adjust : ℕ
  pub s3_server : ℕ

-- Dcm_DslProtocolRowType; `type2` tells that the type of transmission is DCM_PROTOCOL_TRANS_TYPE_2.
pub record ProtocolRow : Type 0 where
  pub protocol_id : ℕ
  pub preempt_timeout : ℕ
  pub priority : ℕ
  pub type2 : Bool
  pub rx_buffer : Option ℕ
  pub tx_buffer : ℕ
  pub time_limit : ProtocolTiming
  pub connections : List MainConnection

-- Dcm_DspSessionRowType, as far as it is read.
pub record SessionRow : Type 0 where
  pub session_level : ℕ
  pub p2_server_max : ℕ
  pub p2_star_server_max : ℕ

-- Dcm_DslDiagRespType
pub record DiagResp : Type 0 where
  pub force_resp_pend_en : Bool
  pub max_num_resp_pend : ℕ

-- What a call of StartProtocol or StopProtocol returns: E_OK, E_NOT_OK or E_PROTOCOL_NOT_ALLOWED.
pub data Answer : Type 0 where
  e_ok e_not_ok e_protocol_not_allowed : Answer

-- NotifResultType, as far as it is told apart.
pub data NotifResult : Type 0 where
  ntfrslt_ok ntfrslt_e_not_ok : NotifResult

-- BufReq_ReturnType; BUFREQ_E_NOT_OK is BUFREQ_NOT_OK.
pub data BufReq : Type 0 where
  bufreq_ok bufreq_not_ok bufreq_busy bufreq_ovfl : BufReq

-- The calls of other components, and what C leaves undefined: a read through NULL.
pub data DslCall : Type 0 where
  dsp_init : DslCall
  reset_diagnostic_activity : DslCall
  reset_diagnostic_activity_on_session_change : ℕ → DslCall
  switch_session_mode : ℕ → DslCall
  com_m_active : ℕ → DslCall
  com_m_inactive : ℕ → DslCall
  cancel_pending_requests : DslCall
  clear_suppress_pos_rsp_msg : DslCall
  -- the protocol, the PDU and the bytes
  pdu_r_transmit : ℕ → List ℕ → DslCall
  pdu_r_cancel_transmit : DslCall
  start_protocol stop_protocol : ℕ → DslCall
  -- the request, whether it is functional, the PDU for the response, the PDU of the request, and
  -- whether the request is internal and made at startup
  dsd_data_indication : List ℕ → Bool → ℕ → ℕ → Bool → Bool → DslCall
  dsd_data_confirmation : ℕ → NotifResult → DslCall
  dsd_response_pending_confirmed : ℕ → NotifResult → DslCall
  det_error : ℕ → DslCall
  null_pointer : DslCall

-- Dcm_DslCallbackDCMRequestServiceType. The answers of callbacks may depend on all that went before.
pub record Callbacks : Type 0 where
  pub start : Option (List DslCall → ℕ → Answer)
  pub stop : Option (List DslCall → ℕ → Answer)

-- Dcm_ConfigType, as far as the session layer reads it. `pdu_r_accepts` tells for which PDU
-- PduR_DcmTransmit returns E_OK, and `session_supported` is DspDslCheckSessionSupported.
pub record DslConfig : Type 0 where
  pub row : ℕ → ProtocolRow
  pub row_count : ℕ
  pub rx_list : List ProtocolRx
  pub tx_list : List MainConnection
  pub periodic_tx_list : List PeriodicTx
  pub first_periodic_tx_pdu : ℕ
  pub nof_periodic_tx_pdu : ℕ
  pub sessions : List SessionRow
  pub diag_resp : Option DiagResp
  pub main_function_period : ℕ
  pub callbacks : List Callbacks
  pub com_m_channels : List (ℕ × ℕ)
  pub network_handle : ℕ → ℕ
  pub pdu_r_accepts : List DslCall → ℕ → Bool
  pub session_supported : ℕ → Bool

-- PeriodicPduStatusType
pub record PeriodicPduStatus : Type 0 where
  pub diag_req_rx_pdu_id : ℕ
  pub pdu_in_use : Bool

-- DcmComModeType
pub data ComMode : Type 0 where
  no_com silent_com full_com : ComMode

-- The static variables of Dcm_Dsl.c, with what the configuration points to; `active` is
-- DcmDslRunTimeData.activeProtocol.
pub record Dsl : Type 0 where
  pub runtime : ℕ → Runtime
  pub buffer : ℕ → Buffer
  pub init_run : Bool
  pub active : Option ℕ
  pub periodic_pdu : ℕ → PeriodicPduStatus
  pub network_com_mode : ℕ → ComMode
  pub preemption_not_processing_done : Bool
  pub busy_sent : Bool
  pub calls : List DslCall

abbrev pub update {ℓ} : {A : Type ℓ} → (ℕ → A) → ℕ → A → ℕ → A
update f i v j = if i == j then v else f j

pub update_self {ℓ} : {A : Type ℓ} (f : ℕ → A) (i : ℕ) (v : A) → update f i v i ≡ v
update_self f i v = ground arith

pub update_other {ℓ} : {A : Type ℓ} (f : ℕ → A) (i j : ℕ) (v : A) → i ≢ j → update f i v j ≡ f j
update_other f i j v h = ground arith

abbrev pub set_runtime : ℕ → Runtime → Dsl → Dsl
set_runtime p r s = record s { runtime = update s.runtime p r }

abbrev pub set_buffer : ℕ → Buffer → Dsl → Dsl
set_buffer b v s = record s { buffer = update s.buffer b v }

abbrev pub call : DslCall → Dsl → Dsl
call k s = record s { calls = k ∷ s.calls }

-- DECREMENT
abbrev pub decrement : ℕ → ℕ
decrement timer = if ltb 0 timer then timer - 1 else timer

-- DCM_CONVERT_MS_TO_MAIN_CYCLES
abbrev pub main_cycles : DslConfig → ℕ → ℕ
main_cycles c ms = ms / c.main_function_period

-- AdjustP2Timing
unfoldable pub adjust_p2_timing : ℕ → ℕ → ℕ
adjust_p2_timing max_value adjust = if ltb adjust max_value then max_value - adjust else 0

-- findRxPduIdParentConfigurationLeafs and findProtocolRx
abbrev pub find_rx : DslConfig → ℕ → Option ProtocolRx
find_rx c id = get_elem? c.rx_list id

-- IS_PERIODIC_TX_PDU
unfoldable pub is_periodic_tx_pdu : DslConfig → ℕ → Bool
is_periodic_tx_pdu c id =
    leb c.first_periodic_tx_pdu id && ltb id (c.first_periodic_tx_pdu + c.nof_periodic_tx_pdu)

-- TO_INTERNAL_PERIODIC_PDU
abbrev pub to_internal_periodic_pdu : DslConfig → ℕ → ℕ
to_internal_periodic_pdu c id = id - c.first_periodic_tx_pdu

abbrev periodic_protocol : Option PeriodicTx → Option ℕ
periodic_protocol none = none
periodic_protocol (some t) = some t.protocol

abbrev periodic_row : DslConfig → ℕ → Bool → Option ℕ
periodic_row c id false = none
periodic_row c id true =
    periodic_protocol (get_elem? c.periodic_tx_list (to_internal_periodic_pdu c id))

abbrev row_of_tx : DslConfig → ℕ → Option MainConnection → Option ℕ
row_of_tx c id (some m) = some m.protocol
row_of_tx c id none = periodic_row c id (is_periodic_tx_pdu c id)

-- findTxPduIdParentConfigurationLeafs: the protocol of a transmit PDU.
unfoldable pub find_tx : DslConfig → ℕ → Option ℕ
find_tx c id = row_of_tx c id (get_elem? c.tx_list id)
