-- ===== src/Dcm/Dsl/Confirmation.antt =====
-- The confirmation of a transmission, DslTpTxConfirmation of core/dcm/src/Dcm_Dsl.c.
pub mod Frees
use plug_and_play_autosar.Common.{
  ℕ, Bool, true, false, not, Option, none, some, List, [], ◌∷◌, ◌==◌, if◌then◌else◌, get_elem?,
}
use plug_and_play_autosar.Dcm.Dsl.{
  tp_length_mismatch, unexpected_execution, BufferUser, not_in_use, provided_to_pdur,
  dcm_transmit_signaled, Buffer, LocalBuffer, Runtime, PeriodicTx, ProtocolRx, NotifResult,
  ntfrslt_ok, ntfrslt_e_not_ok, DslCall, dsd_data_confirmation, dsd_response_pending_confirmed,
  det_error, null_pointer, DslConfig, Dsl, call, set_runtime, find_rx, find_tx, is_periodic_tx_pdu,
  to_internal_periodic_pdu, default_session,
}
use plug_and_play_autosar.Dcm.Dsl.Session.{start_s3_session_timer, leave_com_m}
use plug_and_play_autosar.Dcm.Dsl.Buffers.{
  release_external_rx_tx_buffers, release_type2_tx_pdu, get_type2_tx_user_rx_pdu,
}
use plug_and_play_autosar.Dcm.Dsl.Transmission.{response_pending}

-- A confirmation before any byte was asked for is not a good one.
abbrev early_result : NotifResult → Dsl → Dsl × NotifResult
early_result ntfrslt_ok s = (call (det_error unexpected_execution) s, ntfrslt_e_not_ok)
early_result ntfrslt_e_not_ok s = (s, ntfrslt_e_not_ok)

-- In the default session ComM is told that the protocol `p` is inactive.
unfoldable pub leave_in_default : DslConfig → ℕ → Option ProtocolRx → Dsl → Dsl
leave_in_default c p rx s =
    if (s.runtime p).session_control == default_session then leave_com_m c p rx s else s

abbrev check_length : ℕ → ℕ → Dsl → Dsl
check_length n k s = if n == k then s else call (det_error tp_length_mismatch) s

-- The external buffer of the protocol `q` was sent for the request PDU `rx`.
unfoldable pub confirm_external : DslConfig → ProtocolRx → ℕ → NotifResult → Dsl → Dsl
confirm_external c rx q result s =
    let p = rx.main_connection.protocol in
    let s1 =
      check_length (s.runtime q).response_length (s.buffer (c.row q).tx_buffer).nof_bytes_handled
        s in
    let s2 =
      release_external_rx_tx_buffers c p
        (leave_in_default c p (find_rx c (s1.runtime p).diag_request_rx_pdu_id) s1) in
    call (dsd_data_confirmation rx.main_connection.tx_pdu_id result)
      (set_runtime p (start_s3_session_timer c (c.row p) (s2.runtime p)) s2)

abbrev free_local : ℕ → Dsl → Dsl
free_local q s =
    set_runtime q
      (record (s.runtime q) {
        local_tx_buffer = record (s.runtime q).local_tx_buffer { status = not_in_use };
      })
      s

-- The local buffer of the protocol `q` was sent.
unfoldable pub confirm_local : DslConfig → ProtocolRx → ℕ → NotifResult → Dsl → Dsl
confirm_local c rx q result s =
    let p = rx.main_connection.protocol in
    let v = (s.runtime q).local_tx_buffer in
    let s1 = check_length v.sdu_length v.nof_bytes_handled s in
    free_local q (
      if v.response_code == response_pending
      then call (dsd_response_pending_confirmed rx.main_connection.tx_pdu_id result) s1
      else leave_in_default c p (find_rx c (s1.runtime p).diag_request_rx_pdu_id) s1)

abbrev confirm_local_in : DslConfig → ProtocolRx → BufferUser → ℕ → NotifResult → Dsl → Dsl
confirm_local_in c rx dcm_transmit_signaled q result s =
    let (s1, r) = early_result result s in confirm_local c rx q r s1
confirm_local_in c rx provided_to_pdur q result s = confirm_local c rx q result s
confirm_local_in c rx _ q result s = s

abbrev confirm_buffer : DslConfig → ProtocolRx → BufferUser → ℕ → NotifResult → Dsl → Dsl
confirm_buffer c rx dcm_transmit_signaled q result s =
    let (s1, r) = early_result result s in confirm_external c rx q r s1
confirm_buffer c rx provided_to_pdur q result s = confirm_external c rx q result s
confirm_buffer c rx _ q result s =
    confirm_local_in c rx (s.runtime q).local_tx_buffer.status q result s

abbrev confirm_rx : DslConfig → Option ProtocolRx → ℕ → NotifResult → Dsl → Dsl
confirm_rx c none q result s = s
confirm_rx c (some rx) q result s =
    confirm_buffer c rx (s.runtime q).external_tx_buffer_status q result s

-- The PDU of the request is looked up before the PDU of the response is known to be found.
abbrev confirm_tx : DslConfig → Option ℕ → NotifResult → Dsl → Dsl
confirm_tx c none result s = call null_pointer s
confirm_tx c (some q) result s =
    confirm_rx c (find_rx c (s.runtime q).diag_request_rx_pdu_id) q result s

abbrev pdu_r_pdu_of : Option PeriodicTx → ℕ
pdu_r_pdu_of none = 0
pdu_r_pdu_of (some t) = t.pdu_r_tx_pdu_id

abbrev confirm_user : DslConfig → ℕ → Option ℕ → Option ProtocolRx → NotifResult → Dsl → Dsl
confirm_user c id none rx result s = s
confirm_user c id (some user) none result s = s
confirm_user c id (some user) (some rx) result s =
    call
      (dsd_data_confirmation
        (pdu_r_pdu_of (get_elem? c.periodic_tx_list (to_internal_periodic_pdu c id))) result)
      (leave_in_default c rx.main_connection.protocol (some rx) s)

-- A periodic PDU; the receive PDU is looked up before its user is, with the number 0.
unfoldable pub confirm_periodic : DslConfig → ℕ → NotifResult → Dsl → Dsl
confirm_periodic c id result s =
    release_type2_tx_pdu c id
      (confirm_user c id (get_type2_tx_user_rx_pdu c s id) (find_rx c 0) result s)

-- DslTpTxConfirmation
unfoldable pub tp_tx_confirmation : DslConfig → ℕ → NotifResult → Dsl → Dsl
tp_tx_confirmation c id result s =
    if is_periodic_tx_pdu c id
    then confirm_periodic c id result s
    else confirm_tx c (find_tx c id) result s
