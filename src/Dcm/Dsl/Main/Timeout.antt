-- ===== src/Dcm/Dsl/Main/Timeout.antt =====
-- The session timer, DslMain of core/dcm/src/Dcm_Dsl.c.
use plug_and_play_autosar.Common.{
  ℕ, zero, suc, ◌+◌, ◌<◌, ◌≡◌, ◌≢◌, sym, ap, subst, ◌∙◌, true, false, ◌==◌, Bool-cases, inl, inr,
  arith,
}
use plug_and_play_autosar.Dcm.Dsl.{
  not_in_use, DslConfig, Dsl, decrement, set_runtime, default_session, sec_lev_locked, obd_on_can,
}
use plug_and_play_autosar.Dcm.Dsl.Session.{change_diagnostic_session}
use plug_and_play_autosar.Dcm.Dsl.Session.Change.{
  change_diagnostic_session_session, change_diagnostic_session_locks,
}
use plug_and_play_autosar.Dcm.Dsl.Buffers.{release_all_type2_tx_pdus}
use plug_and_play_autosar.Dcm.Dsl.Main.{session_tick, session_timeout, forget_active, dsl_main}
use plug_and_play_autosar.Dcm.Dsl.Main.Rounds.{
  OnlyActs, main_periods, main_periods-suc, dsl_main_unused, session_tick-IsSessionStep,
  IsSessionStep-OnlyActs, forget_active_runtime,
}

-- The session that the protocol `p` is in, with the periods that its timer has left; no request of the
-- protocol is pending, and no response is being sent.
pub record InSession (p session left : ℕ) (s : Dsl) : Type 0 where
  pub current : (s.runtime p).session_control ≡ session
  pub other : session ≢ default_session
  pub started : (s.runtime p).s3_server_started ≡ true
  pub count : (s.runtime p).s3_server_timeout_count ≡ left
  pub unused : (s.runtime p).external_tx_buffer_status ≡ not_in_use

-- The protocol is in its default session, and locked.
pub record IsDefault (p : ℕ) (s : Dsl) : Type 0 where
  pub current : (s.runtime p).session_control ≡ default_session
  pub locked : (s.runtime p).security_level ≡ sec_lev_locked

session_tick-InSession :
    (c : DslConfig) (p session n : ℕ) (s : Dsl)
    → InSession p session (suc (suc n)) s
    → InSession p session (suc n) (session_tick c p s)
unfolding session_tick
session_tick-InSession c p session n s r =
    let other : ((s.runtime p).session_control == default_session) ≡ false =
      ground (arith, r.current, r.other) in
    let more : (decrement (s.runtime p).s3_server_timeout_count == 0) ≡ false =
      ground (arith, r.count) in
    let q = r.started in
    rw (other, q, more)
      (record {
        current = ground (arith, r.current);
        other = r.other;
        started = ground (arith, q);
        count = ground (arith, r.count);
        unused = ground (arith, r.unused);
      })

same-IsDefault : (p : ℕ) (s t : Dsl) → t.runtime ≡ s.runtime → IsDefault p s → IsDefault p t
same-IsDefault p s t e r = record {
  current = ap (λ f. (f p).session_control) e ∙ r.current;
  locked = ap (λ f. (f p).security_level) e ∙ r.locked;
}

released_other :
    (p : ℕ) (s : Dsl)
    → (s.runtime p).session_control ≢ default_session
    → ((release_all_type2_tx_pdus s).runtime p).session_control ≢ default_session
unfolding release_all_type2_tx_pdus
released_other p s h = h

session_timeout-IsDefault :
    (c : DslConfig) (p : ℕ) (s : Dsl)
    → (s.runtime p).session_control ≢ default_session
    → IsDefault p (session_timeout c p s)
unfolding session_timeout
session_timeout-IsDefault c p s h =
    let s0 = release_all_type2_tx_pdus s in
    let s1 = change_diagnostic_session c p default_session s0 in
    let a = change_diagnostic_session_session c p default_session s0 in
    let b = change_diagnostic_session_locks c p default_session s0 (released_other p s h) in
    let s2 = set_runtime p (record (s1.runtime p) { protocol_started = false }) s1 in
    elim (Bool-cases ((c.row p).protocol_id == obd_on_can)) [
      | inl y ↦ rw y (
          same-IsDefault p s2 (forget_active c s2.active s2) (forget_active_runtime c s2.active s2)
            (record { current = ground (arith, a); locked = ground (arith, b) }))
      | inr n ↦ rw n (record { current = a; locked = b })
    ]

session_tick-IsDefault :
    (c : DslConfig) (p session : ℕ) (s : Dsl)
    → InSession p session 1 s
    → IsDefault p (session_tick c p s)
unfolding session_tick
session_tick-IsDefault c p session s r =
    let other : ((s.runtime p).session_control == default_session) ≡ false =
      ground (arith, r.current, r.other) in
    let over : (decrement (s.runtime p).s3_server_timeout_count == 0) ≡ true =
      ground (arith, r.count) in
    let q = r.started in
    rw (other, q, over)
      (session_timeout-IsDefault c p _ (λ e. r.other (sym r.current ∙ ground (arith, e))))

dsl_main-InSession :
    (c : DslConfig) (p session n : ℕ) (s : Dsl)
    → p < c.row_count
    → OnlyActs p s
    → InSession p session (suc (suc n)) s
    → InSession p session (suc n) (dsl_main c s) × OnlyActs p (dsl_main c s)
dsl_main-InSession c p session n s l o r =
    subst (λ t. InSession p session (suc n) t × OnlyActs p t)
      (sym (dsl_main_unused c p s l o r.unused))
      (
        session_tick-InSession c p session n s r,
        IsSessionStep-OnlyActs p s (session_tick c p s) (session_tick-IsSessionStep c p s) o,
      )

main_periods-InSession :
    (n : ℕ) (c : DslConfig) (p session left : ℕ) (s : Dsl)
    → p < c.row_count
    → OnlyActs p s
    → InSession p session (n + suc left) s
    → InSession p session (suc left) (main_periods n c s) × OnlyActs p (main_periods n c s)
unfolding main_periods
main_periods-InSession zero c p session left s l o r =
    (subst (λ k. InSession p session k s) (omega arith) r, o)
main_periods-InSession (suc n) c p session left s l o r =
    let (w, v) =
      dsl_main-InSession c p session (n + left) s l o
        (subst (λ k. InSession p session k s) (omega arith) r) in
    main_periods-InSession n c p session left (dsl_main c s) l v
      (subst (λ k. InSession p session k (dsl_main c s)) (omega arith) w)

-- A session other than the default one, whose timer runs with some periods left, lasts exactly so many
-- calls of DslMain, if nothing is received, no request of the protocol is pending, no response is being
-- sent, and the other protocols are in their default session and send nothing: after each earlier
-- call the protocol is still in the session, with the rest of the periods left, and after the last
-- one it is in its default session and locked.
pub main_periods-timeout :
    (c : DslConfig) (p session left : ℕ) (s : Dsl)
    → p < c.row_count
    → OnlyActs p s
    → InSession p session (suc left) s
    → ((n k : ℕ) → n + k ≡ left → InSession p session (suc k) (main_periods n c s))
      × IsDefault p (main_periods (suc left) c s)
main_periods-timeout c p session left s l o r =
    let (w, v) =
      main_periods-InSession left c p session 0 s l o
        (subst (λ i. InSession p session i s) (omega arith) r) in
    (
      λ n k e.
          (main_periods-InSession n c p session k s l o
            (subst (λ i. InSession p session i s) (omega (arith, e)) r)).0,
      subst (λ t. IsDefault p t)
          (sym
            (main_periods-suc left c s ∙ dsl_main_unused c p (main_periods left c s) l v w.unused))
          (session_tick-IsDefault c p session (main_periods left c s) w),
    )
