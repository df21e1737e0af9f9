-- ===== src/Dcm/Dsl/Main/Pending.antt =====
-- A request that the dispatcher does not answer, DslMain of core/dcm/src/Dcm_Dsl.c.
use plug_and_play_autosar.Common.{
  ℕ, zero, suc, ◌+◌, ◌*◌, ◌<◌, ◌≡◌, refl, sym, ap, subst, ◌∙◌, false, some, ◌==◌, if◌then◌else◌,
  if_ind, if_false, inl, inr, arith,
}
use plug_and_play_autosar.Dcm.Dsl.{
  provided_to_dsd, Runtime, DiagResp, DslConfig, Dsl, update_self, set_runtime, default_session,
}
use plug_and_play_autosar.Dcm.Dsl.Buffers.Release.{IsIdle, same-IsAvailable}
use plug_and_play_autosar.Dcm.Dsl.Buffers.Timers.{timer, IsStopped, same-IsStopped}
use plug_and_play_autosar.Dcm.Dsl.Main.{
  session_tick, session_timeout, wait_tick, tx_tick, protocol_tick, dsl_main,
}
use plug_and_play_autosar.Dcm.Dsl.Main.Rounds.{
  OnlyActs, main_periods, dsl_main_one, dsl_main_unused, session_tick-IsSessionStep,
  IsSessionStep-OnlyActs,
}
use plug_and_play_autosar.Dcm.Dsl.Main.Waiting.{
  Waiting, Released, patience, period, Progress, wait_tick-Progress, wait_tick-OnlyActs,
}

-- What a stopped session timer leaves of the protocol `p`.
record Paused (p : ℕ) (s t : Dsl) : Type 0 where
  runtime : t.runtime p ≡ s.runtime p
  buffer : t.buffer ≡ s.buffer

session_tick_stopped :
    (c : DslConfig) (p : ℕ) (s : Dsl) → IsStopped (s.runtime p) → Paused p s (session_tick c p s)
unfolding session_tick
session_tick_stopped c p s h =
    let after = (λ (r : Runtime).
      if r.s3_server_timeout_count == 0
      then session_timeout c p (set_runtime p r s)
      else set_runtime p r s) in
    let r = s.runtime p in
    if_ind (λ (t : Dsl). Paused p s t) (r.session_control == default_session)
      (λ _. record { runtime = refl; buffer = refl })
      (λ other.
        let left : (r.s3_server_timeout_count == 0) ≡ false = elim h.lasts [
          | inl d ↦ ground (arith, other, d)
          | inr l ↦ ground (arith, l)
        ] in
        subst (λ r1. Paused p s (after r1)) (sym (if_false _ h.stopped))
          (subst (λ t. Paused p s t) (sym (if_false _ left))
            (record { runtime = update_self s.runtime p r; buffer = refl })))

Paused-Waiting :
    (p session : ℕ) (s t : Dsl) → Paused p s t → Waiting p session s → Waiting p session t
Paused-Waiting p session s t k w = record {
  tx = ap (λ (r : Runtime). r.external_tx_buffer_status) k.runtime ∙ w.tx;
  current = ap (λ (r : Runtime). r.session_control) k.runtime ∙ w.current;
  stopped = same-IsStopped (s.runtime p) (t.runtime p) (ap timer k.runtime) w.stopped;
}

Paused-Released :
    (c : DslConfig) (p : ℕ) (s t : Dsl) → Paused p s t → Released c p s → Released c p t
Paused-Released c p s t k w = record {
  idle = record {
    rx = ap (λ (r : Runtime). r.external_rx_buffer_status) k.runtime ∙ w.idle.rx;
    tx = ap (λ (r : Runtime). r.external_tx_buffer_status) k.runtime ∙ w.idle.tx;
    rx_buffer = same-IsAvailable (c.row p).rx_buffer s t k.buffer w.idle.rx_buffer;
    tx_buffer = same-IsAvailable (some (c.row p).tx_buffer) s t k.buffer w.idle.tx_buffer;
  };
  stopped = same-IsStopped (s.runtime p) (t.runtime p) (ap timer k.runtime) w.stopped;
}

-- The round of a protocol whose request the dispatcher has.
protocol_tick-Waiting :
    (c : DslConfig) (p session : ℕ) (s : Dsl)
    → Waiting p session s
    → protocol_tick c p s ≡ wait_tick c p (session_tick c p s)
unfolding protocol_tick
protocol_tick-Waiting c p session s w =
    let k =
      Paused-Waiting p session s (session_tick c p s) (session_tick_stopped c p s w.stopped) w in
    ap (λ b. tx_tick c p b (session_tick c p s)) k.tx

-- A period of DslMain.
dsl_main-Progress :
    (c : DslConfig) (d : DiagResp) (p session : ℕ) (s : Dsl)
    → c.diag_resp ≡ some d
    → p < c.row_count
    → OnlyActs p s
    → Waiting p session s
    → Progress c p session s (dsl_main c s) × OnlyActs p (dsl_main c s)
dsl_main-Progress c d p session s h l o w =
    let s1 = session_tick c p s in
    let k = session_tick_stopped c p s w.stopped in
    let w1 = Paused-Waiting p session s s1 k w in
    let same : patience c p session s1 ≡ patience c p session s =
      ap
        (λ (r : Runtime).
          r.state_timeout_count + r.response_pending_count * suc (period c p session))
        k.runtime in
    let e = protocol_tick-Waiting c p session s w in
    let acts =
      wait_tick-OnlyActs c p s1
        (IsSessionStep-OnlyActs p s s1 (session_tick-IsSessionStep c p s) o) in
    let whole : dsl_main c s ≡ wait_tick c p s1 =
      dsl_main_one c p s l o (subst (λ t. OnlyActs p t) (sym e) acts) ∙ e in
    subst (λ t. Progress c p session s t × OnlyActs p t) (sym whole)
      (
        elim (wait_tick-Progress c d p session s1 h w1) [
          | inl done ↦ inl done
          | inr (v, fewer) ↦
              inr (v, subst (λ n. patience c p session (wait_tick c p s1) < n) same fewer)
        ],
        acts,
      )

main_periods-Released :
    (n : ℕ) (c : DslConfig) (p : ℕ) (s : Dsl)
    → p < c.row_count
    → OnlyActs p s
    → Released c p s
    → IsIdle c p (main_periods n c s)
unfolding main_periods
main_periods-Released zero c p s l o r = r.idle
main_periods-Released (suc n) c p s l o r =
    let s1 = session_tick c p s in
    subst (λ t. IsIdle c p (main_periods n c t)) (sym (dsl_main_unused c p s l o r.idle.tx))
      (main_periods-Released n c p s1 l
        (IsSessionStep-OnlyActs p s s1 (session_tick-IsSessionStep c p s) o)
        (Paused-Released c p s s1 (session_tick_stopped c p s r.stopped) r))

main_periods-end :
    (n : ℕ) (c : DslConfig) (d : DiagResp) (p session : ℕ) (s : Dsl)
    → c.diag_resp ≡ some d
    → p < c.row_count
    → OnlyActs p s
    → Waiting p session s
    → patience c p session s < n
    → IsIdle c p (main_periods n c s)
unfolding main_periods
main_periods-end zero c d p session s h l o w b = absurd (omega arith)
main_periods-end (suc n) c d p session s h l o w b =
    let (progress, acts) = dsl_main-Progress c d p session s h l o w in
    elim progress [
      | inl r ↦ main_periods-Released n c p (dsl_main c s) l acts r
      | inr (v, fewer) ↦
          main_periods-end n c d p session (dsl_main c s) h l acts v (omega (arith, fewer, b))
    ]

-- A request of the protocol that the dispatcher never answers does not keep the buffers for ever. If
-- responses to it are configured, the session timer of the protocol does not run, with periods left
-- unless the session is the default one, and the other protocols are in their default session and
-- send nothing, then after more calls of DslMain than the timer of the request has left, with the time
-- between two answers for each answer that may still tell the tester to wait, neither buffer of the
-- protocol is in use, and both can be given to another request.
pub main_periods-IsIdle :
    (c : DslConfig) (d : DiagResp) (p n : ℕ) (s : Dsl)
    → c.diag_resp ≡ some d
    → p < c.row_count
    → OnlyActs p s
    → IsStopped (s.runtime p)
    → (s.runtime p).external_tx_buffer_status ≡ provided_to_dsd
    → patience c p (s.runtime p).session_control s < n
    → IsIdle c p (main_periods n c s)
main_periods-IsIdle c d p n s h l o k e b =
    main_periods-end n c d p (s.runtime p).session_control s h l o
      (record { tx = e; current = refl; stopped = k }) b
