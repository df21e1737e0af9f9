-- ===== src/Dcm/Dsl/Main.antt =====
-- DslMain of core/dcm/src/Dcm_Dsl.c, called in each period: the session timer, the timer of a request
-- that the dispatcher has not answered, the hand-over of a response to the router, and the preemption
-- of a protocol.
pub mod Rounds
pub mod Timeout
pub mod Waiting
pub mod Pending
use plug_and_play_autosar.Common.{
  ℕ, zero, suc, ◌-◌, Bool, true, false, not, ◌&&◌, Option, none, some, List, [], ◌∷◌, ◌==◌,
  if◌then◌else◌, take,
}
use plug_and_play_autosar.Dcm.Dsl.{
  BufferUser, not_in_use, in_use, provided_to_pdur, dsd_pending_response_signaled,
  dcm_transmit_signaled, provided_to_dsd, preempt_transmit_nrc, undefined_usage, Buffer,
  LocalBuffer, Runtime, MainConnection, PeriodicTransmission, ProtocolRx, ProtocolRow, DiagResp,
  DslCall, dsp_init, reset_diagnostic_activity, cancel_pending_requests, pdu_r_transmit,
  null_pointer, DslConfig, Dsl, call, set_runtime, find_rx, adjust_p2_timing, main_cycles,
  decrement, default_session, obd_on_can,
}
use plug_and_play_autosar.Dcm.Dsl.Session.{
  start_s3_session_timer, change_diagnostic_session, get_active_session_row,
}
use plug_and_play_autosar.Dcm.Dsl.Buffers.{
  release_all_type2_tx_pdus, release_if_used, pdu_r_pdu_used_for_type2_tx,
  release_external_rx_tx_buffers, make_available,
}
use plug_and_play_autosar.Dcm.Dsl.Reception.{is_not_in_use}
use plug_and_play_autosar.Dcm.Dsl.Transmission.{
  send_response_with_status, response_pending, general_reject, busy_repeat_request,
}

abbrev forget_active : DslConfig → Option ℕ → Dsl → Dsl
forget_active c none s = call null_pointer s
forget_active c (some a) s =
    if (c.row a).protocol_id == obd_on_can then record s { active = none } else s

-- The session has timed out.
unfoldable pub session_timeout : DslConfig → ℕ → Dsl → Dsl
session_timeout c p s =
    let s1 = change_diagnostic_session c p default_session (release_all_type2_tx_pdus s) in
    if (c.row p).protocol_id == obd_on_can
    then (let s2 = set_runtime p (record (s1.runtime p) { protocol_started = false }) s1 in
        forget_active c s2.active s2)
    else s1

-- One period of the session timer.
unfoldable pub session_tick : DslConfig → ℕ → Dsl → Dsl
session_tick c p s =
    let r = s.runtime p in
    if r.session_control == default_session
    then s
    else (let r1 =
          if r.s3_server_started
          then record r { s3_server_timeout_count = decrement r.s3_server_timeout_count }
          else r in
        let s1 = set_runtime p r1 s in
        if r1.s3_server_timeout_count == 0 then session_timeout c p s1 else s1)

-- The request is given up, with a general reject.
unfoldable pub give_up : DslConfig → ℕ → Dsl → Dsl
give_up c p s =
    release_external_rx_tx_buffers c p
      (send_response_with_status c p general_reject (call cancel_pending_requests s)).0

-- The tester is told to wait.
unfoldable pub tell_pending : DslConfig → ℕ → Dsl → Dsl
tell_pending c p s =
    let s1 = (send_response_with_status c p response_pending s).0 in
    set_runtime p
      (record (s1.runtime p) {
        response_pending_count = decrement (s1.runtime p).response_pending_count;
      })
      s1

abbrev p2_timeout_of : DslConfig → Option DiagResp → ℕ → Dsl → Dsl
p2_timeout_of c none p s = s
p2_timeout_of c (some d) p s =
    if d.force_resp_pend_en
    then if (s.runtime p).response_pending_count == 0 then give_up c p s else tell_pending c p s
    else give_up c p s

abbrev restart_p2_timer : DslConfig → ℕ → Runtime → Runtime
restart_p2_timer c p r = record r {
  state_timeout_count = main_cycles c (
      adjust_p2_timing (get_active_session_row c r).p2_star_server_max
        (c.row p).time_limit.p2_star_server_adjust);
}

-- PROVIDED_TO_DSD: the dispatcher has a request.
unfoldable pub wait_tick : DslConfig → ℕ → Dsl → Dsl
wait_tick c p s =
    let r = record (s.runtime p) {
      state_timeout_count = decrement (s.runtime p).state_timeout_count;
    } in
    if r.state_timeout_count == 0
    then p2_timeout_of c c.diag_resp p (set_runtime p (restart_p2_timer c p r) s)
    else set_runtime p r s

abbrev response_bytes : DslConfig → ℕ → Dsl → List ℕ
response_bytes c q s = take (s.runtime q).response_length (s.buffer (c.row q).tx_buffer).bytes

abbrev transmit_signaled : ℕ → Dsl → Dsl
transmit_signaled q s =
    set_runtime q (record (s.runtime q) { external_tx_buffer_status = dcm_transmit_signaled }) s

-- The transmission was refused: the periodic PDU is released, or the session timer started.
abbrev after_refusal : DslConfig → ℕ → Option ℕ → Dsl → Dsl
after_refusal c p none s = set_runtime p (start_s3_session_timer c (c.row p) (s.runtime p)) s
after_refusal c p (some pdu) s = release_if_used c (some pdu) s

abbrev after_acceptance : DslConfig → ℕ → Option ℕ → Dsl → Dsl
after_acceptance c p none s = s
after_acceptance c p (some pdu) s = release_external_rx_tx_buffers c p s

-- The response of the protocol `q` for a request of the protocol `p`.
unfoldable pub transmit_from : DslConfig → ℕ → ℕ → Dsl → Dsl
transmit_from c p q s =
    let tx_id = (s.runtime q).diag_response_tx_pdu_id in
    let s1 = transmit_signaled q s in
    let s2 = call (pdu_r_transmit tx_id (response_bytes c q s1)) s1 in
    let periodic = pdu_r_pdu_used_for_type2_tx tx_id c.periodic_tx_list in
    if c.pdu_r_accepts s1.calls tx_id
    then after_acceptance c p periodic s2
    else release_external_rx_tx_buffers c p (after_refusal c p periodic s2)

abbrev transmit_type2 : DslConfig → ℕ → Option PeriodicTransmission → Dsl → Dsl
transmit_type2 c p none s = call null_pointer s
transmit_type2 c p (some t) s = transmit_from c p t.protocol s

abbrev first_tx_pdu : List MainConnection → ℕ
first_tx_pdu [] = 0
first_tx_pdu (m ∷ ms) = m.tx_pdu_id

-- The PDU of the request is not found. A refused transmission is then handled through pointers that
-- were never set.
unfoldable pub transmit_unknown : DslConfig → ℕ → Dsl → Dsl
transmit_unknown c p s =
    let tx_id = first_tx_pdu (c.row p).connections in
    let s1 = transmit_signaled p s in
    let s2 = call (pdu_r_transmit tx_id (response_bytes c p s1)) s1 in
    if c.pdu_r_accepts s1.calls tx_id then s2 else call null_pointer s2

abbrev transmit_of : DslConfig → ℕ → Option ProtocolRx → Dsl → Dsl
transmit_of c p none s = transmit_unknown c p s
transmit_of c p (some rx) s =
    let r = rx.main_connection.protocol in
    if (s.runtime r).is_type2_tx
    then transmit_type2 c r rx.main_connection.periodic_transmission s
    else transmit_from c r r s

-- DSD_PENDING_RESPONSE_SIGNALED: the response is ready.
unfoldable pub response_tick : DslConfig → ℕ → Dsl → Dsl
response_tick c p s =
    if is_not_in_use (s.runtime p).local_tx_buffer.status
    then transmit_of c p (find_rx c (s.runtime p).diag_request_rx_pdu_id) s
    else s

-- The tester that preempts is told once that the program is busy.
unfoldable pub send_busy : DslConfig → ℕ → Dsl → Dsl
send_busy c p s =
    if s.busy_sent
    then s
    else (let (s1, sent) = send_response_with_status c p busy_repeat_request s in
        if sent
        then make_available (c.row p).rx_buffer (
            set_runtime p (record (s1.runtime p) { external_rx_buffer_status = not_in_use })
              (record s1 { busy_sent = true }))
        else s1)

abbrev stop_protocol_of : ℕ → Dsl → Dsl
stop_protocol_of a s = set_runtime a (record (s.runtime a) { protocol_started = false }) s

-- The preempted protocol `a` has finished.
unfoldable pub preemption_done : DslConfig → ℕ → ℕ → Dsl → Dsl
preemption_done c p a s =
    let s1 = stop_protocol_of a (record s { preemption_not_processing_done = false }) in
    call reset_diagnostic_activity
      (release_external_rx_tx_buffers c p (record s1 { active = none }))

-- The preempted protocol `a` has not finished in time.
unfoldable pub preemption_timeout : DslConfig → ℕ → ℕ → Dsl → Dsl
preemption_timeout c p a s =
    let s1 = stop_protocol_of a (record s { preemption_not_processing_done = false }) in
    let s2 = release_external_rx_tx_buffers c a s1 in
    call dsp_init (
      call reset_diagnostic_activity
        (release_external_rx_tx_buffers c p (record s2 { active = none })))

abbrev check_preempted : DslConfig → ℕ → Option ℕ → Dsl → Dsl
check_preempted c p none s = call null_pointer s
check_preempted c p (some a) s =
    if is_not_in_use (s.runtime a).external_tx_buffer_status
    then preemption_done c p a s
    else if (s.runtime p).preempt_timeout_count == 0
    then preemption_timeout c p a s
    else s

-- PREEMPT_TRANSMIT_NRC: the protocol `p` waits for the active one to finish.
unfoldable pub preemption_tick : DslConfig → ℕ → Dsl → Dsl
preemption_tick c p s =
    if s.preemption_not_processing_done
    then (let s1 = send_busy c p s in
        let s2 =
          set_runtime p
            (record (s1.runtime p) {
              preempt_timeout_count = decrement (s1.runtime p).preempt_timeout_count;
            })
            s1 in
        check_preempted c p s2.active s2)
    else s

abbrev tx_tick : DslConfig → ℕ → BufferUser → Dsl → Dsl
tx_tick c p provided_to_dsd s = wait_tick c p s
tx_tick c p dsd_pending_response_signaled s = response_tick c p s
tx_tick c p preempt_transmit_nrc s = preemption_tick c p s
tx_tick c p _ s = s

-- One period of the protocol `p`.
unfoldable pub protocol_tick : DslConfig → ℕ → Dsl → Dsl
protocol_tick c p s =
    let s1 = session_tick c p s in tx_tick c p (s1.runtime p).external_tx_buffer_status s1

-- The loop of DslMain, over the protocols from `p` on.
unfoldable pub tick_rows : ℕ → DslConfig → ℕ → Dsl → Dsl
tick_rows zero c p s = s
tick_rows (suc n) c p s = tick_rows n c (suc p) (protocol_tick c p s)

-- DslMain
unfoldable pub dsl_main : DslConfig → Dsl → Dsl
dsl_main c s = tick_rows c.row_count c 0 s
