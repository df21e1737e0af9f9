-- ===== src/Dcm/Dsl/Transmission.antt =====
-- The transmission of a response, core/dcm/src/Dcm_Dsl.c: the answers that the session layer makes
-- itself, DslCopyTxData and DslTpTxConfirmation.
pub mod Copied
use plug_and_play_autosar.Common.{
  ℕ, zero, suc, ◌+◌, ◌-◌, ◌%◌, ◌^◌, Bool, true, false, not, ◌&&◌, Option, none, some, List, [], ◌∷◌,
  ltb, ◌==◌, if◌then◌else◌, get_or, set, take, drop,
}
use plug_and_play_autosar.Dcm.Dsl.{
  BufferUser, not_in_use, provided_to_pdur, dcm_transmit_signaled, Buffer, LocalBuffer, Runtime,
  PeriodicTx, ProtocolRx, ProtocolRow, NotifResult, ntfrslt_ok, ntfrslt_e_not_ok, BufReq, bufreq_ok,
  bufreq_not_ok, DslCall, clear_suppress_pos_rsp_msg, pdu_r_transmit, dsd_data_confirmation,
  dsd_response_pending_confirmed, det_error, null_pointer, DslConfig, Dsl, call, set_runtime,
  set_buffer, find_rx, find_tx, is_periodic_tx_pdu, to_internal_periodic_pdu, adjust_p2_timing,
  main_cycles, decrement, default_session,
}
use plug_and_play_autosar.Dcm.Dsl.Session.{
  start_s3_session_timer, get_active_session_row, leave_com_m,
}
use plug_and_play_autosar.Dcm.Dsl.Buffers.{
  release_external_rx_tx_buffers, release_type2_tx_pdu, get_type2_tx_user_rx_pdu,
}
use plug_and_play_autosar.Dcm.Dsl.Reception.{is_not_in_use, bytes_left}

-- DCM_E_RESPONSEPENDING, DCM_E_GENERALREJECT, DCM_E_BUSYREPEATREQUEST, SID_NEGATIVE_RESPONSE
abbrev pub response_pending : ℕ
response_pending = 0x78

abbrev pub general_reject : ℕ
general_reject = 16

abbrev pub busy_repeat_request : ℕ
busy_repeat_request = 33

abbrev sid_negative : ℕ
sid_negative = 0x7F

abbrev pub first_byte_of : Option ℕ → Dsl → ℕ
first_byte_of none s = 0
first_byte_of (some b) s = get_or (s.buffer b).bytes 0 0

abbrev pub answer_bytes : ℕ → ℕ → List ℕ → List ℕ
answer_bytes sid code xs = set (set (set xs 0 sid_negative) 1 sid) 2 code

-- The answer is put into the local buffer of the protocol `q`.
unfoldable pub fill_local_tx : ℕ → ℕ → ℕ → Dsl → Dsl
fill_local_tx q sid code s =
    let v = (s.runtime q).local_tx_buffer in
    set_runtime q
      (record (s.runtime q) {
        local_tx_buffer = record v {
          response_code = code;
          bytes = answer_bytes sid code v.bytes;
          sdu_length = 3;
          status = dcm_transmit_signaled;
        };
      })
      s

abbrev pub send_of : DslConfig → ℕ → ℕ → Option ProtocolRx → Dsl → Dsl × Bool
send_of c p code none s = (s, false)
send_of c p code (some rx) s =
    let q = rx.main_connection.protocol in
    if is_not_in_use (s.runtime q).local_tx_buffer.status
    then (let s1 = fill_local_tx q (first_byte_of (c.row p).rx_buffer s) code s in
        let s2 = if code == response_pending then call clear_suppress_pos_rsp_msg s1 else s1 in
        (
          call
              (pdu_r_transmit rx.main_connection.tx_pdu_id
                (take 3 (s2.runtime q).local_tx_buffer.bytes))
              s2,
          c.pdu_r_accepts s2.calls rx.main_connection.tx_pdu_id,
        ))
    else (s, false)

-- sendResponseWithStatus and sendResponse: whether E_OK is returned.
unfoldable pub send_response_with_status : DslConfig → ℕ → ℕ → Dsl → Dsl × Bool
send_response_with_status c p code s =
    send_of c p code (find_rx c (s.runtime p).diag_request_rx_pdu_id) s

abbrev pending_of : DslConfig → Option ProtocolRx → Dsl → Dsl
pending_of c none s = s
pending_of c (some rx) s =
    let p = rx.main_connection.protocol in
    let s1 = (send_response_with_status c p response_pending s).0 in
    let r = s1.runtime p in
    let ms = ((get_active_session_row c r).p2_star_server_max + c.main_function_period) % 2 ^ 32 in
    set_runtime p
      (record r {
        state_timeout_count =
            main_cycles c (adjust_p2_timing ms (c.row p).time_limit.p2_star_server_adjust);
        response_pending_count = decrement r.response_pending_count;
      })
      s1

-- DslDsdSendResponsePending
unfoldable pub dsl_dsd_send_response_pending : DslConfig → ℕ → Dsl → Dsl
dsl_dsd_send_response_pending c rx_id s = pending_of c (find_rx c rx_id) s

-- What DslCopyTxData gives back: the state, the result, the bytes that are copied, and how many are
-- left, where that is written.
pub record TxReply : Type 0 where
  pub state : Dsl
  pub result : BufReq
  pub copied : List ℕ
  pub left : Option ℕ

abbrev tx_reply : Dsl → BufReq → List ℕ → Option ℕ → TxReply
tx_reply s r xs n = record { state = s; result = r; copied = xs; left = n }

-- The response stands in the transmit buffer of the protocol.
unfoldable pub copy_external_tx : DslConfig → ℕ → ℕ → Dsl → TxReply
copy_external_tx c p n s =
    let b = (c.row p).tx_buffer in
    let v = s.buffer b in
    let len = (s.runtime p).response_length in
    if n == 0
    then tx_reply s bufreq_ok [] (some (bytes_left len v.nof_bytes_handled))
    else if ltb (len - v.nof_bytes_handled) n
    then tx_reply s bufreq_not_ok [] (some (bytes_left len v.nof_bytes_handled))
    else (let k = (v.nof_bytes_handled + n) % 2 ^ 16 in
        tx_reply (set_buffer b (record v { nof_bytes_handled = k }) s) bufreq_ok
          (take n (drop v.nof_bytes_handled v.bytes)) (some (bytes_left len k)))

abbrev set_local_tx : ℕ → LocalBuffer → Dsl → Dsl
set_local_tx p v s = set_runtime p (record (s.runtime p) { local_tx_buffer = v }) s

-- The answer stands in the local buffer of the protocol.
unfoldable pub copy_local_tx : ℕ → ℕ → Dsl → TxReply
copy_local_tx p n s =
    let v = (s.runtime p).local_tx_buffer in
    if n == 0
    then tx_reply s bufreq_ok [] (some (bytes_left v.sdu_length v.nof_bytes_handled))
    else if ltb (v.sdu_length - v.nof_bytes_handled) n
    then tx_reply s bufreq_not_ok [] (some (bytes_left v.sdu_length v.nof_bytes_handled))
    else (let k = (v.nof_bytes_handled + n) % 2 ^ 16 in
        tx_reply (set_local_tx p (record v { nof_bytes_handled = k }) s) bufreq_ok
          (take n (drop v.nof_bytes_handled v.bytes)) (some (bytes_left v.sdu_length k)))

abbrev open_external : DslConfig → ℕ → Dsl → Dsl
open_external c p s =
    let b = (c.row p).tx_buffer in
    let s1 = set_buffer b (record (s.buffer b) { nof_bytes_handled = 0 }) s in
    set_runtime p (record (s1.runtime p) { external_tx_buffer_status = provided_to_pdur }) s1

abbrev open_local : ℕ → Dsl → Dsl
open_local p s =
    set_local_tx p
      (record (s.runtime p).local_tx_buffer { nof_bytes_handled = 0; status = provided_to_pdur }) s

abbrev copy_local_in : BufferUser → ℕ → ℕ → Dsl → TxReply
copy_local_in dcm_transmit_signaled p n s = copy_local_tx p n (open_local p s)
copy_local_in provided_to_pdur p n s = copy_local_tx p n s
copy_local_in _ p n s = tx_reply s bufreq_not_ok [] none

abbrev copy_external_in : DslConfig → BufferUser → ℕ → ℕ → Dsl → TxReply
copy_external_in c dcm_transmit_signaled p n s = copy_external_tx c p n (open_external c p s)
copy_external_in c provided_to_pdur p n s = copy_external_tx c p n s
copy_external_in c _ p n s = copy_local_in (s.runtime p).local_tx_buffer.status p n s

abbrev copy_tx_of : DslConfig → Option ℕ → ℕ → Dsl → TxReply
copy_tx_of c none n s = tx_reply s bufreq_not_ok [] none
copy_tx_of c (some p) n s = copy_external_in c (s.runtime p).external_tx_buffer_status p n s

-- DslCopyTxData, for `n` bytes.
unfoldable pub copy_tx_data : DslConfig → ℕ → ℕ → Dsl → TxReply
copy_tx_data c id n s = copy_tx_of c (find_tx c id) n s
