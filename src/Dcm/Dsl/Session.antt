-- ===== src/Dcm/Dsl/Session.antt =====
-- Sessions, core/dcm/src/Dcm_Dsl.c: the session timer, the row of the active session, the change of
-- the session with what it tells ComM, and the accessors of session, security level and protocol.
pub mod Change
pub mod Frame
use plug_and_play_autosar.Common.{
  ℕ, ◌+◌, Bool, true, false, not, ◌&&◌, Option, none, some, List, [], ◌∷◌, ◌==◌, if◌then◌else◌,
}
use plug_and_play_autosar.Dcm.Dsl.{
  BufferUser, not_in_use, Runtime, ProtocolRow, ProtocolRx, SessionRow, DslConfig, Dsl, DslCall,
  dsp_init, reset_diagnostic_activity_on_session_change, switch_session_mode, com_m_active,
  com_m_inactive, null_pointer, call, set_runtime, main_cycles, find_rx, default_session,
  sec_lev_locked,
}

-- startS3SessionTimer
abbrev pub start_s3_session_timer : DslConfig → ProtocolRow → Runtime → Runtime
start_s3_session_timer c row r = record r {
  s3_server_timeout_count = main_cycles c row.time_limit.s3_server;
  s3_server_started = true;
}

-- stopS3SessionTimer
abbrev pub stop_s3_session_timer : Runtime → Runtime
stop_s3_session_timer r = record r { s3_server_started = false }

-- startPreemptTimer
abbrev pub start_preempt_timer : DslConfig → ProtocolRow → Runtime → Runtime
start_preempt_timer c row r = record r { preempt_timeout_count = main_cycles c row.preempt_timeout }

-- The loop of getActiveSessionRow.
unfoldable pub find_session : ℕ → List SessionRow → Option SessionRow
find_session level [] = none
find_session level (x ∷ xs) = if x.session_level == level then some x else find_session level xs

abbrev pub no_session : SessionRow
no_session = record { session_level = 0; p2_server_max = 0; p2_star_server_max = 0 }

abbrev pub first_session : List SessionRow → SessionRow
first_session [] = no_session
first_session (x ∷ xs) = x

abbrev pub session_or_first : Option SessionRow → List SessionRow → SessionRow
session_or_first none xs = first_session xs
session_or_first (some x) xs = x

-- getActiveSessionRow: the row of the session, or else the first row of the table; the report of that
-- to the error tracer is left out.
unfoldable pub get_active_session_row : DslConfig → Runtime → SessionRow
get_active_session_row c r = session_or_first (find_session r.session_control c.sessions) c.sessions

-- ComM_DCM_InactiveDiagnostic for the channel of a receive PDU.
abbrev pub com_m_inactive_of : DslConfig → ProtocolRx → DslCall
com_m_inactive_of c rx = com_m_inactive (c.network_handle rx.com_m_channel)

-- ComM_DCM_ActiveDiagnostic for the channel of a receive PDU.
abbrev pub com_m_active_of : DslConfig → ProtocolRx → DslCall
com_m_active_of c rx = com_m_active (c.network_handle rx.com_m_channel)

-- `runtime->diagnosticActiveComM` is cleared and ComM told, if it is set.
unfoldable pub leave_com_m : DslConfig → ℕ → Option ProtocolRx → Dsl → Dsl
leave_com_m c p none s = s
leave_com_m c p (some rx) s =
    if (s.runtime p).diagnostic_active_com_m
    then call (com_m_inactive_of c rx)
        (set_runtime p (record (s.runtime p) { diagnostic_active_com_m = false }) s)
    else s

-- `runtime->diagnosticActiveComM` is set and ComM told, if it is clear.
unfoldable pub enter_com_m : DslConfig → ℕ → Option ProtocolRx → Dsl → Dsl
enter_com_m c p none s = s
enter_com_m c p (some rx) s =
    if (s.runtime p).diagnostic_active_com_m
    then s
    else call (com_m_active_of c rx)
        (set_runtime p (record (s.runtime p) { diagnostic_active_com_m = true }) s)

-- The first test of changeDiagnosticSession.
unfoldable pub leave_session : ℕ → Dsl → Dsl
leave_session p s =
    if (s.runtime p).session_control == default_session
    then call dsp_init s
    else set_runtime p (record (s.runtime p) { security_level = sec_lev_locked }) s

-- What changeDiagnosticSession tells ComM.
unfoldable pub change_com_m : DslConfig → ℕ → ℕ → Dsl → Dsl
change_com_m c p new s =
    let rx = find_rx c (s.runtime p).diag_request_rx_pdu_id in
    if new == default_session
    then if (s.runtime p).session_control == default_session then s else leave_com_m c p rx s
    else if new == (s.runtime p).session_control
    then s
    else enter_com_m c p rx s

-- changeDiagnosticSession
unfoldable pub change_diagnostic_session : DslConfig → ℕ → ℕ → Dsl → Dsl
change_diagnostic_session c p new s =
    let s1 = change_com_m c p new (leave_session p s) in
    let s2 = set_runtime p (record (s1.runtime p) { session_control = new }) s1 in
    call (switch_session_mode (get_active_session_row c (s2.runtime p)).session_level)
      (call (reset_diagnostic_activity_on_session_change new) s2)

abbrev start_timer_of : DslConfig → ℕ → Dsl → Dsl
start_timer_of c p s = set_runtime p (start_s3_session_timer c (c.row p) (s.runtime p)) s

abbrev reset_timer_of : DslConfig → Option ℕ → Dsl → Dsl
reset_timer_of c none s = s
reset_timer_of c (some p) s = start_timer_of c p s

-- DslResetSessionTimeoutTimer
unfoldable pub reset_session_timeout_timer : DslConfig → Dsl → Dsl
reset_session_timeout_timer c s = reset_timer_of c s.active s

abbrev field_of_active {ℓ} : {A : Type ℓ} → (ℕ → A) → Option ℕ → Option A
field_of_active f none = none
field_of_active f (some p) = some (f p)

-- DslGetActiveProtocol
unfoldable pub get_active_protocol : DslConfig → Dsl → Option ℕ
get_active_protocol c s = field_of_active (λ p. (c.row p).protocol_id) s.active

abbrev set_security_of : Option ℕ → ℕ → Dsl → Dsl
set_security_of none level s = call null_pointer s
set_security_of (some p) level s = set_runtime p (record (s.runtime p) { security_level = level }) s

-- DslInternal_SetSecurityLevel, which reads through the active protocol without a test.
unfoldable pub set_security_level : ℕ → Dsl → Dsl
set_security_level level s = set_security_of s.active level s

-- DslGetSecurityLevel
unfoldable pub get_security_level : Dsl → Option ℕ
get_security_level s = field_of_active (λ p. (s.runtime p).security_level) s.active

-- DslSetSesCtrlType
abbrev set_session_of : DslConfig → Option ℕ → ℕ → Dsl → Dsl
set_session_of c none new s = s
set_session_of c (some p) new s =
    reset_session_timeout_timer c (change_diagnostic_session c p new s)

unfoldable pub set_ses_ctrl_type : DslConfig → ℕ → Dsl → Dsl
set_ses_ctrl_type c new s = set_session_of c s.active new s

-- DslGetSesCtrlType
unfoldable pub get_ses_ctrl_type : Dsl → Option ℕ
get_ses_ctrl_type s = field_of_active (λ p. (s.runtime p).session_control) s.active
