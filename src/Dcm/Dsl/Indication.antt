-- ===== src/Dcm/Dsl/Indication.antt =====
-- The indication that a request is received, core/dcm/src/Dcm_Dsl.c: DslTpRxIndicationFromPduR with
-- the start of a protocol, the preemption of the active one, and the hand-over to the dispatcher.
pub mod Delivery
pub mod Preemption
use plug_and_play_autosar.Common.{
  ℕ, ◌/◌, ◌%◌, Bool, true, false, not, ◌&&◌, ◌||◌, Option, none, some, List, [], ◌∷◌, ltb, ◌==◌,
  if◌then◌else◌, get_or, take,
}
use plug_and_play_autosar.Dcm.Dsl.{
  tp_length_mismatch, wrong_buffer, BufferStatus, buffer_available, BufferUser, not_in_use,
  provided_to_dsd, preempt_transmit_nrc, Buffer, LocalBuffer, Runtime, PeriodicTransmission,
  MainConnection, ProtocolRx, ProtocolRow, DiagResp, Answer, e_ok, e_not_ok, e_protocol_not_allowed,
  NotifResult, ntfrslt_ok, ntfrslt_e_not_ok, DslCall, com_m_active, com_m_inactive, start_protocol,
  stop_protocol, pdu_r_cancel_transmit, dsd_data_indication, det_error, null_pointer, Callbacks,
  DslConfig, Dsl, call, set_runtime, set_buffer, find_rx, adjust_p2_timing, main_cycles,
  invalid_pdu_id, default_session, obd_session, obd_on_can,
}
use plug_and_play_autosar.Dcm.Dsl.Session.{
  start_s3_session_timer, start_preempt_timer, change_diagnostic_session, get_active_session_row,
  reset_session_timeout_timer, enter_com_m, com_m_active_of, com_m_inactive_of,
}
use plug_and_play_autosar.Dcm.Dsl.Buffers.{lock_type2_tx_pdu, make_available}
use plug_and_play_autosar.Dcm.Dsl.Reception.{holds_external, holds_local, is_not_in_use}

-- SID_TESTER_PRESENT
abbrev tester_present : ℕ
tester_present = 0x3E

-- isTesterPresentCommand, of the first two bytes of a buffer.
unfoldable pub is_tester_present_command : List ℕ → Bool
is_tester_present_command xs = get_or xs 0 0 == tester_present && get_or xs 1 0 / 128 % 2 == 1

-- StartProtocolHelper and StopProtocolHelper with the callbacks of one kind: whether E_OK is returned,
-- and the calls made.
unfoldable pub all_accept :
    (ℕ → DslCall) → List (Option (List DslCall → ℕ → Answer)) → ℕ → Dsl → Dsl × Bool
all_accept k [] id s = (s, true)
all_accept k (none ∷ fs) id s = all_accept k fs id s
all_accept k (some f ∷ fs) id s =
    let next = call (k id) s in
    elim (f s.calls id) [
      | e_ok ↦ all_accept k fs id next
      | e_not_ok ↦ (next, false)
      | e_protocol_not_allowed ↦ (next, false)
    ]

abbrev starts : List Callbacks → List (Option (List DslCall → ℕ → Answer))
starts [] = []
starts (x ∷ xs) = x.start ∷ starts xs

abbrev stops : List Callbacks → List (Option (List DslCall → ℕ → Answer))
stops [] = []
stops (x ∷ xs) = x.stop ∷ stops xs

unfoldable pub start_protocol_helper : DslConfig → ℕ → Dsl → Dsl × Bool
start_protocol_helper c id s = all_accept start_protocol (starts c.callbacks) id s

unfoldable pub stop_protocol_helper : DslConfig → ℕ → Dsl → Dsl × Bool
stop_protocol_helper c id s = all_accept stop_protocol (stops c.callbacks) id s

abbrev set_started : ℕ → Bool → Dsl → Dsl
set_started p b s = set_runtime p (record (s.runtime p) { protocol_started = b }) s

-- An OBD protocol starts in its own session.
abbrev obd_default : DslConfig → ℕ → Dsl → Dsl
obd_default c p s =
    if (c.row p).protocol_id == obd_on_can
    then set_runtime p (record (s.runtime p) { session_control = obd_session }) s
    else s

-- There is no active protocol: the protocol `p` is started.
unfoldable pub start_first : DslConfig → ℕ → Dsl → Dsl
start_first c p s =
    let (s1, accepted) = start_protocol_helper c (c.row p).protocol_id s in
    if accepted
    then (let s2 = set_started p true (change_diagnostic_session c p default_session s1) in
        obd_default c p (record s2 { active = some p }))
    else s1

-- The active protocol `a` is stopped and idle: the protocol `p` takes its place.
unfoldable pub take_over : DslConfig → ℕ → ℕ → Dsl → Dsl
take_over c p a s =
    let (s1, accepted) = start_protocol_helper c (c.row p).protocol_id s in
    if accepted
    then (let s2 = set_started p true (set_started a false s1) in
        obd_default c p
          (change_diagnostic_session c p default_session (record s2 { active = some p })))
    else s1

abbrev is_preempting : BufferUser → Bool
is_preempting preempt_transmit_nrc = true
is_preempting _ = false

abbrev max_pending : Option DiagResp → ℕ
max_pending none = 0
max_pending (some d) = d.max_num_resp_pend

-- The active protocol has not finished: preemption begins.
unfoldable pub begin_preemption : DslConfig → ℕ → ℕ → Dsl → Dsl
begin_preemption c p id s =
    let r =
      if is_preempting (s.runtime p).external_tx_buffer_status
      then s.runtime p
      else start_preempt_timer c (c.row p) (s.runtime p) in
    call pdu_r_cancel_transmit
      (record (set_runtime p
        (record r {
          external_tx_buffer_status = preempt_transmit_nrc;
          response_pending_count = max_pending c.diag_resp;
          diag_request_rx_pdu_id = id;
        })
        s) { preemption_not_processing_done = true; busy_sent = false })

abbrev release_rx : DslConfig → ℕ → Dsl → Dsl
release_rx c p s =
    make_available (c.row p).rx_buffer
      (set_runtime p (record (s.runtime p) { external_rx_buffer_status = not_in_use }) s)

-- There is an active protocol `a`: it is preempted if its priority is lower or it is in its default
-- session; otherwise the request is dropped.
unfoldable pub preempt : DslConfig → ℕ → ℕ → ℕ → Dsl → Dsl
preempt c p a id s =
    if ltb (c.row p).priority (c.row a).priority || (s.runtime a).session_control == default_session
    then (let (s1, accepted) = stop_protocol_helper c (c.row a).protocol_id s in
        if accepted
        then if is_not_in_use (s1.runtime a).external_tx_buffer_status
          then take_over c p a s1
          else begin_preemption c p id s1
        else s1)
    else release_rx c p s

abbrev acquire_protocol_of : DslConfig → ℕ → ℕ → Option ℕ → Dsl → Dsl
acquire_protocol_of c p id none s = start_first c p s
acquire_protocol_of c p id (some a) s = preempt c p a id s

-- The protocol of a request that has not been started.
unfoldable pub acquire_protocol : DslConfig → ℕ → ℕ → Dsl → Dsl
acquire_protocol c p id s =
    if (s.runtime p).protocol_started then s else acquire_protocol_of c p id s.active s

-- What the dispatcher is given: the request is the first bytes of the receive buffer.
abbrev request_bytes : Option ℕ → ℕ → Dsl → List ℕ
request_bytes none n s = []
request_bytes (some b) n s = take n (s.buffer b).bytes

abbrev handled_bytes : Option ℕ → Dsl → ℕ
handled_bytes none s = 0
handled_bytes (some b) s = (s.buffer b).nof_bytes_handled

-- The response is prepared by the protocol `q`, whose transmit PDU and adjustment are given.
abbrev hand_over_on : DslConfig → ProtocolRx → ℕ → ℕ → ℕ → ℕ → Bool → Bool → Bool → Dsl → Dsl
hand_over_on c rx q tx_id adjust id type2 internal startup s =
    let p = rx.main_connection.protocol in
    let session = get_active_session_row c (s.runtime p) in
    let b = (c.row p).rx_buffer in
    let s1 =
      set_runtime p
        (record (s.runtime p) {
          external_rx_buffer_status = provided_to_dsd;
          is_type2_tx = type2;
          diag_response_tx_pdu_id = tx_id;
          request_length =
              if (s.runtime p).request_length == 0
              then handled_bytes b s
              else (s.runtime p).request_length;
          diag_request_rx_pdu_id = id;
        })
        s in
    let s2 =
      set_runtime q
        (record (s1.runtime q) {
          diag_response_tx_pdu_id = tx_id;
          diag_request_rx_pdu_id = id;
          state_timeout_count = main_cycles c (adjust_p2_timing session.p2_server_max adjust);
          external_tx_buffer_status = provided_to_dsd;
          response_pending_count = max_pending c.diag_resp;
          response_length = (s1.buffer (c.row q).tx_buffer).size;
        })
        s1 in
    call
      (dsd_data_indication (request_bytes b (s2.runtime p).request_length s2) rx.functional tx_id id
        internal startup)
      s2

abbrev hand_over_type2 :
    DslConfig → ProtocolRx → Option PeriodicTransmission → ℕ → ℕ → Bool → Bool → Dsl → Dsl
hand_over_type2 c rx none tx_id id internal startup s = call null_pointer s
hand_over_type2 c rx (some t) tx_id id internal startup s =
    hand_over_on c rx t.protocol tx_id 0 id true internal startup s

-- A request of a protocol that is started goes to the dispatcher; `type2` has the PDU that was locked.
unfoldable pub hand_over : DslConfig → ProtocolRx → Option ℕ → ℕ → Bool → Bool → Dsl → Dsl
hand_over c rx none id internal startup s =
    let p = rx.main_connection.protocol in
    hand_over_on c rx p rx.main_connection.tx_pdu_id (c.row p).time_limit.p2_server_adjust id false
      internal startup s
hand_over c rx (some tx_id) id internal startup s =
    hand_over_type2 c rx rx.main_connection.periodic_transmission tx_id id internal startup s

abbrev in_default_session : ℕ → Dsl → Bool
in_default_session p s = (s.runtime p).session_control == default_session

-- A request other than tester present.
unfoldable pub process_request : DslConfig → ProtocolRx → Option ℕ → ℕ → Bool → Bool → Dsl → Dsl
process_request c rx type2 id internal startup s =
    let p = rx.main_connection.protocol in
    let s1 = acquire_protocol c p id s in
    if (s1.runtime p).protocol_started
    then hand_over c rx type2 id internal startup
        (if in_default_session p s1 then enter_com_m c p (some rx) s1 else s1)
    else s1

abbrev restart_timer : DslConfig → ℕ → Dsl → Dsl
restart_timer c p s = set_runtime p (start_s3_session_timer c (c.row p) (s.runtime p)) s

-- The receive buffer `b` of the protocol `p` is free for every PDU.
unfoldable pub give_back_rx : ℕ → ℕ → Dsl → Dsl
give_back_rx p b s =
    let s1 = set_runtime p (record (s.runtime p) { external_rx_buffer_status = not_in_use }) s in
    set_buffer b (record (s1.buffer b) { rx_pdu_id = invalid_pdu_id; status = buffer_available }) s1

-- Tester present in the receive buffer: the session timer starts again.
unfoldable pub accept_tester_present : DslConfig → ProtocolRx → ℕ → Dsl → Dsl
accept_tester_present c rx b s =
    let p = rx.main_connection.protocol in
    let s1 = give_back_rx p b (restart_timer c p s) in
    if in_default_session p s1 && not (s1.runtime p).diagnostic_active_com_m
    then call (com_m_inactive_of c rx) (call (com_m_active_of c rx) s1)
    else s1

abbrev is_success : NotifResult → Bool
is_success ntfrslt_ok = true
is_success ntfrslt_e_not_ok = false

abbrev is_some : Option ℕ → Bool
is_some none = false
is_some (some x) = true

-- The reception failed: the buffer is given back.
unfoldable pub reject_request : DslConfig → ℕ → ℕ → Bool → Dsl → Dsl
reject_request c p b len_ok s =
    give_back_rx p b
      (reset_session_timeout_timer c (if len_ok then s else call (det_error tp_length_mismatch) s))

-- The request stands in the receive buffer `b`.
unfoldable pub indicate_external :
    DslConfig → ProtocolRx → ℕ → ℕ → NotifResult → Bool → Bool → Dsl → Dsl
indicate_external c rx b id result internal startup s =
    let p = rx.main_connection.protocol in
    let len = (s.runtime p).request_length in
    let len_ok = (s.buffer b).nof_bytes_handled == len || len == 0 in
    let type2 = (c.row p).type2 && internal in
    let (s1, pdu) = if type2 then lock_type2_tx_pdu c rx.main_connection id s else (s, none) in
    if is_success result && (len_ok && (not type2 || is_some pdu))
    then if is_tester_present_command (s1.buffer b).bytes
      then accept_tester_present c rx b s1
      else process_request c rx pdu id internal startup s1
    else reject_request c p b len_ok s1

abbrev give_back_local : ℕ → Dsl → Dsl
give_back_local p s =
    set_runtime p
      (record (s.runtime p) {
        local_rx_buffer = record (s.runtime p).local_rx_buffer {
          status = not_in_use;
          rx_pdu_id = invalid_pdu_id;
        };
      })
      s

-- The request stands in the local buffer, which is for tester present only.
unfoldable pub indicate_local : DslConfig → ℕ → NotifResult → Dsl → Dsl
indicate_local c p result s =
    let v = (s.runtime p).local_rx_buffer in
    let len_ok = v.sdu_length == 0 || v.sdu_length == v.nof_bytes_handled in
    give_back_local p (
      if is_success result && len_ok
      then if is_tester_present_command v.bytes
        then restart_timer c p s
        else call (det_error wrong_buffer) s
      else reset_session_timeout_timer c
          (if len_ok then s else call (det_error tp_length_mismatch) s))

abbrev indicate_of : DslConfig → ProtocolRx → Option ℕ → ℕ → NotifResult → Bool → Bool → Dsl → Dsl
indicate_of c rx none id result internal startup s = s
indicate_of c rx (some b) id result internal startup s =
    indicate_external c rx b id result internal startup s

abbrev rx_indication_of : DslConfig → Option ProtocolRx → ℕ → NotifResult → Bool → Bool → Dsl → Dsl
rx_indication_of c none id result internal startup s = s
rx_indication_of c (some rx) id result internal startup s =
    let p = rx.main_connection.protocol in
    let b = (c.row p).rx_buffer in
    if holds_external p id b s
    then indicate_of c rx b id result internal startup s
    else if holds_local p id s
    then indicate_local c p result s
    else s

-- DslTpRxIndicationFromPduR
unfoldable pub tp_rx_indication : DslConfig → ℕ → NotifResult → Bool → Bool → Dsl → Dsl
tp_rx_indication c id result internal startup s =
    rx_indication_of c (find_rx c id) id result internal startup s
