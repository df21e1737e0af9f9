-- ===== src/Dcm/Dsl/Buffers.antt =====
-- Buffers, core/dcm/src/Dcm_Dsl.c: the PDUs for periodic transmission, the release of the buffers of a
-- protocol, the answer that the session layer sends from its local buffer, the signal of the
-- dispatcher that a request is processed, and the initialization.
pub mod Periodic
pub mod Quiet
pub mod Release
pub mod Timers
use plug_and_play_autosar.Common.{
  ℕ, zero, suc, ◌+◌, ◌-◌, ◌%◌, ◌^◌, Bool, true, false, not, ◌&&◌, Option, none, some, List, [], ◌∷◌,
  ◌==◌, if◌then◌else◌, get_or,
}
use plug_and_play_autosar.Dcm.Dsl.{
  BufferStatus, buffer_available, buffer_busy, BufferUser, not_in_use,
  dsd_pending_response_signaled, dcm_transmit_signaled, Buffer, LocalBuffer, Runtime, PeriodicTx,
  PeriodicTransmission, MainConnection, ProtocolRx, ProtocolRow, DslConfig, PeriodicPduStatus,
  no_com, Dsl, DslCall, cancel_pending_requests, clear_suppress_pos_rsp_msg, pdu_r_transmit,
  null_pointer, call, update, set_runtime, set_buffer, find_rx, is_periodic_tx_pdu,
  to_internal_periodic_pdu, adjust_p2_timing, main_cycles, decrement, invalid_pdu_id,
  default_session, sec_lev_locked,
}
use plug_and_play_autosar.Dcm.Dsl.Session.{leave_com_m, get_active_session_row}

abbrev pub free_pdu : PeriodicPduStatus
free_pdu = record { diag_req_rx_pdu_id = 0xFFFF; pdu_in_use = false }

-- Whether the PDU of a periodic transmission is in use.
abbrev pub pdu_used : DslConfig → Dsl → ℕ → Bool
pdu_used c s id = (s.periodic_pdu (to_internal_periodic_pdu c id)).pdu_in_use

-- The loop of DslCheckType2TxPduAvailable.
unfoldable pub some_pdu_free : DslConfig → Dsl → List PeriodicTx → Bool
some_pdu_free c s [] = false
some_pdu_free c s (t ∷ ts) = if pdu_used c s t.dcm_tx_pdu_id then some_pdu_free c s ts else true

abbrev available_of : DslConfig → Dsl → Option PeriodicTransmission → Bool
available_of c s none = false
available_of c s (some t) = some_pdu_free c s t.tx_pdu_list

-- DslCheckType2TxPduAvailable, where a main connection without periodic transmission has no PDU.
unfoldable pub check_type2_tx_pdu_available : DslConfig → Dsl → MainConnection → Bool
check_type2_tx_pdu_available c s m = available_of c s m.periodic_transmission

-- DslReleaseAllType2TxPdus
unfoldable pub release_all_type2_tx_pdus : Dsl → Dsl
release_all_type2_tx_pdus s = record s { periodic_pdu = λ i. free_pdu }

-- DslReleaseType2TxPdu
unfoldable pub release_type2_tx_pdu : DslConfig → ℕ → Dsl → Dsl
release_type2_tx_pdu c id s =
    if is_periodic_tx_pdu c id
    then record s { periodic_pdu = update s.periodic_pdu (to_internal_periodic_pdu c id) free_pdu }
    else s

-- DslGetType2TxUserRxPdu
unfoldable pub get_type2_tx_user_rx_pdu : DslConfig → Dsl → ℕ → Option ℕ
get_type2_tx_user_rx_pdu c s id =
    if is_periodic_tx_pdu c id && pdu_used c s id
    then some (s.periodic_pdu (to_internal_periodic_pdu c id)).diag_req_rx_pdu_id
    else none

-- The loop of DslLockType2TxPdu: the first PDU that is not in use.
unfoldable pub first_free_pdu : DslConfig → Dsl → List PeriodicTx → Option PeriodicTx
first_free_pdu c s [] = none
first_free_pdu c s (t ∷ ts) = if pdu_used c s t.dcm_tx_pdu_id then first_free_pdu c s ts else some t

abbrev lock_pdu : DslConfig → ℕ → Option PeriodicTx → Dsl → Dsl × Option ℕ
lock_pdu c rx_id none s = (s, none)
lock_pdu c rx_id (some t) s = (
  record s {
    periodic_pdu =
        update s.periodic_pdu (to_internal_periodic_pdu c t.dcm_tx_pdu_id)
          (record { diag_req_rx_pdu_id = rx_id; pdu_in_use = true });
  },
  some t.pdu_r_tx_pdu_id,
)

abbrev lock_of : DslConfig → ℕ → Option PeriodicTransmission → Dsl → Dsl × Option ℕ
lock_of c rx_id none s = (s, none)
lock_of c rx_id (some t) s = lock_pdu c rx_id (first_free_pdu c s t.tx_pdu_list) s

-- DslLockType2TxPdu: the PDU of the router, where E_OK is returned.
unfoldable pub lock_type2_tx_pdu : DslConfig → MainConnection → ℕ → Dsl → Dsl × Option ℕ
lock_type2_tx_pdu c m rx_id s = lock_of c rx_id m.periodic_transmission s

-- DslPduRPduUsedForType2Tx: the PDU of the DCM, where TRUE is returned.
unfoldable pub pdu_r_pdu_used_for_type2_tx : ℕ → List PeriodicTx → Option ℕ
pdu_r_pdu_used_for_type2_tx id [] = none
pdu_r_pdu_used_for_type2_tx id (t ∷ ts) =
    if id == t.pdu_r_tx_pdu_id then some t.dcm_tx_pdu_id else pdu_r_pdu_used_for_type2_tx id ts

-- DslReleaseType2TxPdu for what DslPduRPduUsedForType2Tx finds.
abbrev pub release_if_used : DslConfig → Option ℕ → Dsl → Dsl
release_if_used c none s = s
release_if_used c (some id) s = release_type2_tx_pdu c id s

abbrev pub available : Buffer → Buffer
available b = record b { status = buffer_available }

-- A buffer of a protocol becomes available, if there is one.
abbrev pub make_available : Option ℕ → Dsl → Dsl
make_available none s = s
make_available (some b) s = set_buffer b (available (s.buffer b)) s

abbrev pub clear_rx_pdu : ℕ → Dsl → Dsl
clear_rx_pdu b s = set_buffer b (record (s.buffer b) { rx_pdu_id = invalid_pdu_id }) s

abbrev release_transmission : DslConfig → Option PeriodicTransmission → Dsl → Dsl
release_transmission c none s = call null_pointer s
release_transmission c (some t) s =
    let s1 = make_available (some (c.row t.protocol).tx_buffer) s in
    set_runtime t.protocol
      (record (s1.runtime t.protocol) { external_tx_buffer_status = not_in_use }) s1

abbrev release_periodic_of : DslConfig → Option ProtocolRx → Dsl → Dsl
release_periodic_of c none s = s
release_periodic_of c (some rx) s =
    release_transmission c rx.main_connection.periodic_transmission s

-- The buffers of the protocol itself, in releaseExternalRxTxBuffers.
unfoldable pub release_own_buffers : DslConfig → ℕ → Dsl → Dsl
release_own_buffers c p s =
    let row = c.row p in
    let s1 = make_available row.rx_buffer (make_available (some row.tx_buffer) s) in
    clear_rx_pdu row.tx_buffer (
      set_runtime p
        (record (s1.runtime p) {
          external_tx_buffer_status = not_in_use;
          external_rx_buffer_status = not_in_use;
        })
        s1)

-- The buffer of the periodic protocol, in releaseExternalRxTxBuffers.
unfoldable pub release_periodic_buffer : DslConfig → ℕ → Dsl → Dsl
release_periodic_buffer c p s =
    if (s.runtime p).is_type2_tx
    then release_periodic_of c (find_rx c (s.runtime p).diag_request_rx_pdu_id) s
    else s

-- releaseExternalRxTxBuffers
unfoldable pub release_external_rx_tx_buffers : DslConfig → ℕ → Dsl → Dsl
release_external_rx_tx_buffers c p s =
    let s1 = release_periodic_buffer c p (release_own_buffers c p s) in
    set_runtime p (record (s1.runtime p) { is_type2_tx = false }) s1

-- DsdProcessingDoneResultType
pub data ProcessingDone : Type 0 where
  tx_response_ready tx_response_suppressed : ProcessingDone

abbrev signal : ℕ → Dsl → Dsl
signal p s =
    set_runtime p
      (record (s.runtime p) { external_tx_buffer_status = dsd_pending_response_signaled }) s

abbrev signal_transmission : Option PeriodicTransmission → Dsl → Dsl
signal_transmission none s = call null_pointer s
signal_transmission (some t) s = signal t.protocol s

abbrev response_ready_of : DslConfig → ProtocolRx → ℕ → Dsl → Dsl
response_ready_of c rx p s =
    if (s.runtime p).is_type2_tx
    then signal_transmission rx.main_connection.periodic_transmission s
    else signal p s

abbrev response_suppressed_of : DslConfig → ProtocolRx → ℕ → Dsl → Dsl
response_suppressed_of c rx p s =
    let s1 =
      if (s.runtime p).is_type2_tx
      then release_if_used c
          (pdu_r_pdu_used_for_type2_tx (s.runtime p).diag_response_tx_pdu_id c.periodic_tx_list) s
      else s in
    let s2 = release_external_rx_tx_buffers c p s1 in
    if (s2.runtime p).session_control == default_session then leave_com_m c p (some rx) s2 else s2

abbrev processing_done_of : DslConfig → Option ProtocolRx → ProcessingDone → Dsl → Dsl
processing_done_of c none result s = s
processing_done_of c (some rx) tx_response_ready s =
    response_ready_of c rx rx.main_connection.protocol s
processing_done_of c (some rx) tx_response_suppressed s =
    response_suppressed_of c rx rx.main_connection.protocol s

-- DslDsdProcessingDone
unfoldable pub dsl_dsd_processing_done : DslConfig → ℕ → ProcessingDone → Dsl → Dsl
dsl_dsd_processing_done c rx_id result s = processing_done_of c (find_rx c rx_id) result s
