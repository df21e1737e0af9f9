-- ===== src/Dcm/Dsl/Startup.antt =====
-- The start of the session layer and of protocols that the program itself starts, core/dcm/src/
-- Dcm_Dsl.c: DslInit, findPhysRxProtocol, DslDspSilentlyStartProtocol, DslComModeEntered, and the
-- requests that the program injects.
use plug_and_play_autosar.Common.{
  ℕ, zero, suc, Bool, true, false, Option, none, some, List, [], ◌∷◌, ◌==◌, if◌then◌else◌,
  get_elem?, length,
}
use plug_and_play_autosar.Dcm.Dsl.{
  integration_error, not_in_use, Runtime, MainConnection, ProtocolRx, ntfrslt_ok, ntfrslt_e_not_ok,
  BufReq, bufreq_ok, det_error, ComMode, no_com, full_com, DslConfig, Dsl, call, update,
  set_runtime, invalid_pdu_id, default_session, sec_lev_locked, find_rx,
}
use plug_and_play_autosar.Dcm.Dsl.Session.{start_s3_session_timer, com_m_active_of}
use plug_and_play_autosar.Dcm.Dsl.Buffers.{release_all_type2_tx_pdus, make_available, clear_rx_pdu}
use plug_and_play_autosar.Dcm.Dsl.Reception.{start_of_reception, copy_data_to_rx_buffer}
use plug_and_play_autosar.Dcm.Dsl.Indication.{tp_rx_indication}

-- SID_READ_DATA_BY_PERIODIC_IDENTIFIER and DCM_PERIODICTRANSMIT_DEFAULT_MODE.
abbrev read_data_by_periodic_identifier : ℕ
read_data_by_periodic_identifier = 0x2A

abbrev periodic_default_mode : ℕ
periodic_default_mode = 0x00

-- What DslInit writes to the run time parameters of a protocol.
abbrev init_runtime : Runtime → Runtime
init_runtime r = record r {
  external_rx_buffer_status = not_in_use;
  external_tx_buffer_status = not_in_use;
  local_rx_buffer = record r.local_rx_buffer { status = not_in_use; rx_pdu_id = invalid_pdu_id };
  local_tx_buffer = record r.local_tx_buffer { status = not_in_use };
  security_level = sec_lev_locked;
  session_control = default_session;
  diagnostic_active_com_m = false;
  protocol_started = false;
  is_type2_tx = false;
  s3_server_started = false;
  s3_server_timeout_count = 0;
}

-- One round of the loop of DslInit over the protocols.
unfoldable pub init_row : DslConfig → ℕ → Dsl → Dsl
init_row c p s =
    let row = c.row p in
    clear_rx_pdu row.tx_buffer (
      make_available (some row.tx_buffer)
        (make_available row.rx_buffer (set_runtime p (init_runtime (s.runtime p)) s)))

unfoldable pub init_rows : ℕ → DslConfig → ℕ → Dsl → Dsl
init_rows zero c p s = s
init_rows (suc n) c p s = init_rows n c (suc p) (init_row c p s)

-- The loop of DslInit over the receive PDUs.
unfoldable pub init_com_modes : List ProtocolRx → (ℕ → ComMode) → ℕ → ComMode
init_com_modes [] m = m
init_com_modes (rx ∷ rxs) m = init_com_modes rxs (update m rx.com_m_channel no_com)

-- DslInit
unfoldable pub dsl_init : DslConfig → Dsl → Dsl
dsl_init c s =
    let s1 = init_rows c.row_count c 0 s in
    release_all_type2_tx_pdus (record s1 {
      network_com_mode = init_com_modes c.rx_list s1.network_com_mode;
      init_run = true;
      active = none;
    })

abbrev connection_matches : ℕ → MainConnection → Option ℕ
connection_matches address m = if address == m.tester_source_address then m.physical_rx else none

abbrev or_else {ℓ} : {A : Type ℓ} → Option A → Option A → Option A
or_else (some x) y = some x
or_else none y = y

-- The inner loop of findPhysRxProtocol: the protocol row and the receive PDU.
unfoldable pub find_connection : ℕ → List MainConnection → Option (ℕ × ℕ)
find_connection address [] = none
find_connection address (m ∷ ms) =
    or_else (elim (connection_matches address m) [ none ↦ none | some rx ↦ some (m.protocol, rx) ])
      (find_connection address ms)

-- findPhysRxProtocol, over `n` rows from `p` on.
unfoldable pub find_phys_rx_protocol : ℕ → DslConfig → ℕ → ℕ → ℕ → Option (ℕ × ℕ)
find_phys_rx_protocol zero c p id address = none
find_phys_rx_protocol (suc n) c p id address =
    or_else
      (if id == (c.row p).protocol_id then find_connection address (c.row p).connections else none)
      (find_phys_rx_protocol n c (suc p) id address)

-- The protocol is started in the session, if that is supported.
unfoldable pub start_in_session : DslConfig → ℕ → ℕ → Dsl → Dsl
start_in_session c p session s =
    if c.session_supported session
    then (let r = record (s.runtime p) {
      protocol_started = true;
      session_control = session;
      security_level = sec_lev_locked;
    } in
        record (set_runtime p
          (if session == default_session then r else start_s3_session_timer c (c.row p) r) s) {
            active = some p;
          })
    else call (det_error integration_error) s

abbrev request_com : DslConfig → ℕ → Option ProtocolRx → Dsl → Dsl
request_com c p none s = s
request_com c p (some rx) s =
    let s1 = call (com_m_active_of c rx) s in
    set_runtime p (record (s1.runtime p) { diagnostic_active_com_m = true }) s1

abbrev silently_start_of : DslConfig → ℕ → Bool → Option (ℕ × ℕ) → Dsl → Dsl × Bool
silently_start_of c session full none s = (s, false)
silently_start_of c session full (some (p, rx)) s =
    let s1 = start_in_session c p session s in
    (if full then request_com c p (get_elem? c.rx_list rx) s1 else s1, true)

-- DslDspSilentlyStartProtocol: the state, and whether E_OK is returned.
unfoldable pub silently_start_protocol : DslConfig → ℕ → ℕ → ℕ → Bool → Dsl → Dsl × Bool
silently_start_protocol c session id address full s =
    silently_start_of c session full (find_phys_rx_protocol c.row_count c 0 id address) s

-- DslComModeEntered, for the channels with their network handles.
unfoldable pub com_mode_entered : ℕ → ComMode → List (ℕ × ℕ) → Dsl → Dsl
com_mode_entered network mode [] s = s
com_mode_entered network mode ((handle, index) ∷ channels) s =
    if handle == network
    then record s { network_com_mode = update s.network_com_mode index mode }
    else com_mode_entered network mode channels s

abbrev is_bufreq_ok : BufReq → Bool
is_bufreq_ok bufreq_ok = true
is_bufreq_ok _ = false

-- A request that the program injects: it is received, copied and indicated as the router would.
unfoldable pub inject : DslConfig → ℕ → List ℕ → Bool → Dsl → Dsl × Bool
inject c rx_id request startup s =
    let started = start_of_reception c rx_id (length request) true s in
    if is_bufreq_ok started.result
    then (let copied = copy_data_to_rx_buffer c rx_id request started.state in
        let outcome = if is_bufreq_ok copied.result then ntfrslt_ok else ntfrslt_e_not_ok in
        (tp_rx_indication c rx_id outcome true startup copied.state, true))
    else (started.state, false)

abbrev inject_if_active : DslConfig → Option ℕ → ℕ → List ℕ → Dsl → Dsl × Bool
inject_if_active c none rx_id request s = (s, false)
inject_if_active c (some a) rx_id request s = inject c rx_id request false s

-- DslInternal_ResponseOnOneDataByPeriodicId
unfoldable pub response_on_one_data_by_periodic_id : DslConfig → ℕ → ℕ → Dsl → Dsl × Bool
response_on_one_data_by_periodic_id c id rx_id s =
    inject_if_active c s.active rx_id
      (read_data_by_periodic_identifier ∷ periodic_default_mode ∷ id ∷ []) s

-- DslInternal_ResponseOnOneEvent
unfoldable pub response_on_one_event : DslConfig → ℕ → List ℕ → Dsl → Dsl × Bool
response_on_one_event c rx_id request s = inject_if_active c s.active rx_id request s

-- Std_ReturnType of DslDspResponseOnStartupRequest.
pub data Startup : Type 0 where
  e_ok e_pending e_not_ok : Startup

abbrev is_full_com : ComMode → Bool
is_full_com full_com = true
is_full_com _ = false

abbrev startup_with : DslConfig → List ℕ → Option ProtocolRx → Dsl → Dsl × Startup
startup_with c request none s = (s, e_not_ok)
startup_with c request (some rx) s =
    if is_full_com (s.network_com_mode rx.com_m_channel)
    then (let (s1, done) = inject c rx.rx_pdu_id request true s in
        (s1, if done then e_ok else e_pending))
    else (s, e_pending)

abbrev startup_of : DslConfig → List ℕ → Option (ℕ × ℕ) → Dsl → Dsl × Startup
startup_of c request none s = (s, e_not_ok)
startup_of c request (some (p, rx)) s = startup_with c request (get_elem? c.rx_list rx) s

-- DslDspResponseOnStartupRequest
unfoldable pub response_on_startup_request : DslConfig → ℕ → ℕ → ℕ → ℕ → Dsl → Dsl × Startup
response_on_startup_request c sid sub id address s =
    startup_of c (sid ∷ sub ∷ []) (find_phys_rx_protocol c.row_count c 0 id address) s

-- Arc_DslGetRxConnectionParams: the source address, whether the request is functional, the protocol.
abbrev connection_params : DslConfig → Option ProtocolRx → Option (ℕ × Bool × ℕ)
connection_params c none = none
connection_params c (some rx) = some (
  rx.main_connection.tester_source_address,
  rx.functional,
  (c.row rx.main_connection.protocol).protocol_id,
)

unfoldable pub get_rx_connection_params : DslConfig → ℕ → Option (ℕ × Bool × ℕ)
get_rx_connection_params c id = connection_params c (find_rx c id)
