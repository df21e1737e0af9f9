-- ===== src/Dcm/Dsl/Session/Change.antt =====
-- What a change of the session does to the protocol, changeDiagnosticSession of
-- core/dcm/src/Dcm_Dsl.c.
use plug_and_play_autosar.Common.{ℕ, ◌≡◌, ◌≢◌, refl, Option, none, some, arith}
use plug_and_play_autosar.Dcm.Dsl.{
  ProtocolRx, DslConfig, Dsl, find_rx, default_session, sec_lev_locked,
}
use plug_and_play_autosar.Dcm.Dsl.Session.{
  change_diagnostic_session, leave_session, change_com_m, leave_com_m, enter_com_m,
}

-- Telling ComM leaves the security level.
leave_com_m_security :
    (c : DslConfig) (p : ℕ) (rx : Option ProtocolRx) (s : Dsl)
    → ((leave_com_m c p rx s).runtime p).security_level ≡ (s.runtime p).security_level
unfolding leave_com_m
leave_com_m_security c p none s = refl
leave_com_m_security c p (some rx) s = ground arith

enter_com_m_security :
    (c : DslConfig) (p : ℕ) (rx : Option ProtocolRx) (s : Dsl)
    → ((enter_com_m c p rx s).runtime p).security_level ≡ (s.runtime p).security_level
unfolding enter_com_m
enter_com_m_security c p none s = refl
enter_com_m_security c p (some rx) s = ground arith

change_com_m_security :
    (c : DslConfig) (p new : ℕ) (s : Dsl)
    → ((change_com_m c p new s).runtime p).security_level ≡ (s.runtime p).security_level
unfolding change_com_m
change_com_m_security c p new s =
    let rx = find_rx c (s.runtime p).diag_request_rx_pdu_id in
    ground (arith, leave_com_m_security c p rx s, enter_com_m_security c p rx s)

-- The session is the new one.
pub change_diagnostic_session_session :
    (c : DslConfig) (p new : ℕ) (s : Dsl)
    → ((change_diagnostic_session c p new s).runtime p).session_control ≡ new
unfolding change_diagnostic_session
change_diagnostic_session_session c p new s = ground arith

leave_session_locks :
    (p : ℕ) (s : Dsl)
    → (s.runtime p).session_control ≢ default_session
    → ((leave_session p s).runtime p).security_level ≡ sec_lev_locked
unfolding leave_session
leave_session_locks p s h = ground arith

-- A session that is not the default one is left locked.
pub change_diagnostic_session_locks :
    (c : DslConfig) (p new : ℕ) (s : Dsl)
    → (s.runtime p).session_control ≢ default_session
    → ((change_diagnostic_session c p new s).runtime p).security_level ≡ sec_lev_locked
unfolding change_diagnostic_session
change_diagnostic_session_locks c p new s h =
    ground (arith, change_com_m_security c p new (leave_session p s), leave_session_locks p s h)
