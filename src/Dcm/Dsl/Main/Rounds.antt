-- ===== src/Dcm/Dsl/Main/Rounds.antt =====
-- DslMain of core/dcm/src/Dcm_Dsl.c while only one protocol has something to do: its loop over the
-- protocols is one round for that protocol.
use plug_and_play_autosar.Common.{
  ℕ, zero, suc, ◌+◌, ◌<◌, ◌≤◌, ◌≡◌, ◌≢◌, refl, sym, ap, subst, ◌∙◌, true, false, ◌==◌, Bool-cases,
  if_true, if_ind, if◌then◌else◌, Bool, Option, none, some, inl, inr, ==_iff, arith,
}
use plug_and_play_autosar.Dcm.Dsl.{
  not_in_use, Runtime, decrement, set_runtime, obd_on_can, DslConfig, Dsl, default_session,
}
use plug_and_play_autosar.Dcm.Dsl.Session.{change_diagnostic_session}
use plug_and_play_autosar.Dcm.Dsl.Session.Frame.{
  IsSessionStep, same-IsSessionStep, IsSessionStep-trans, set_runtime-IsSessionStep,
  change_diagnostic_session-IsSessionStep,
}
use plug_and_play_autosar.Dcm.Dsl.Buffers.{release_all_type2_tx_pdus}
use plug_and_play_autosar.Dcm.Dsl.Buffers.Quiet.{IsQuiet}
use plug_and_play_autosar.Dcm.Dsl.Main.{
  forget_active, session_timeout, session_tick, tx_tick, protocol_tick, tick_rows, dsl_main,
}

-- All protocols but `p` are quiet.
abbrev pub OnlyActs : ℕ → Dsl → Type 0
OnlyActs p s = (q : ℕ) → p ≢ q → IsQuiet q s

session_tick_quiet : (c : DslConfig) (q : ℕ) (s : Dsl) → IsQuiet q s → session_tick c q s ≡ s
unfolding session_tick
session_tick_quiet c q s h =
    let z : ((s.runtime q).session_control == default_session) ≡ true = ground (arith, h.session) in
    if_true _ z

-- A round for a quiet protocol changes nothing.
protocol_tick_quiet : (c : DslConfig) (q : ℕ) (s : Dsl) → IsQuiet q s → protocol_tick c q s ≡ s
unfolding protocol_tick
protocol_tick_quiet c q s h =
    let e = session_tick_quiet c q s h in
    subst (λ t. tx_tick c q (t.runtime q).external_tx_buffer_status t ≡ s) (sym e)
      (ap (λ k. tx_tick c q k s) h.tx)

tick_rows_quiet :
    (n : ℕ) (c : DslConfig) (i p : ℕ) (s : Dsl) → OnlyActs p s → p < i → tick_rows n c i s ≡ s
unfolding tick_rows
tick_rows_quiet zero c i p s h l = refl
tick_rows_quiet (suc n) c i p s h l =
    ap (λ t. tick_rows n c (suc i) t) (protocol_tick_quiet c i s (h i (λ e. omega (arith, e, l))))
    ∙ tick_rows_quiet n c (suc i) p s h (omega (arith, l))

tick_rows_one :
    (n : ℕ) (c : DslConfig) (i p : ℕ) (s : Dsl)
    → OnlyActs p s
    → OnlyActs p (protocol_tick c p s)
    → i ≤ p
    → p < i + n
    → tick_rows n c i s ≡ protocol_tick c p s
unfolding tick_rows
tick_rows_one zero c i p s h k a b = absurd (omega arith)
tick_rows_one (suc n) c i p s h k a b = elim (Bool-cases (p == i)) [
  | inl y ↦
      let e : p ≡ i = (==_iff p i).0 y in
      subst (λ j. tick_rows n c (suc i) (protocol_tick c j s) ≡ protocol_tick c p s) e
        (tick_rows_quiet n c (suc i) p (protocol_tick c p s) k (omega (arith, e)))
  | inr other ↦
      let ne : p ≢ i = λ e. ground (arith, other, e) in
      ap (λ t. tick_rows n c (suc i) t) (protocol_tick_quiet c i s (h i ne))
      ∙ tick_rows_one n c (suc i) p s h k (omega (arith, a, ne)) (omega (arith, b))
]

-- DslMain is the round for the protocol `p`, if all others are quiet and stay so.
pub dsl_main_one :
    (c : DslConfig) (p : ℕ) (s : Dsl)
    → p < c.row_count
    → OnlyActs p s
    → OnlyActs p (protocol_tick c p s)
    → dsl_main c s ≡ protocol_tick c p s
unfolding dsl_main
dsl_main_one c p s l h k = tick_rows_one c.row_count c 0 p s h k (omega arith) (omega (arith, l))

-- Some periods of DslMain.
unfoldable pub main_periods : ℕ → DslConfig → Dsl → Dsl
main_periods zero c s = s
main_periods (suc n) c s = main_periods n c (dsl_main c s)

pub main_periods-suc :
    (n : ℕ) (c : DslConfig) (s : Dsl) → main_periods (suc n) c s ≡ dsl_main c (main_periods n c s)
unfolding main_periods
main_periods-suc zero c s = refl
main_periods-suc (suc n) c s = main_periods-suc n c (dsl_main c s)

pub forget_active_runtime :
    (c : DslConfig) (a : Option ℕ) (s : Dsl) → (forget_active c a s).runtime ≡ s.runtime
forget_active_runtime c none s = refl
forget_active_runtime c (some a) s = ground arith

release_all_type2_tx_pdus_runtime : (s : Dsl) → (release_all_type2_tx_pdus s).runtime ≡ s.runtime
unfolding release_all_type2_tx_pdus
release_all_type2_tx_pdus_runtime s = refl

session_timeout-IsSessionStep :
    (c : DslConfig) (p : ℕ) (s : Dsl) → IsSessionStep p s (session_timeout c p s)
unfolding session_timeout
session_timeout-IsSessionStep c p s =
    let s0 = release_all_type2_tx_pdus s in
    let s1 = change_diagnostic_session c p default_session s0 in
    let s2 = set_runtime p (record (s1.runtime p) { protocol_started = false }) s1 in
    let a =
      IsSessionStep-trans p s s0 s1
        (same-IsSessionStep p s s0 (release_all_type2_tx_pdus_runtime s))
        (change_diagnostic_session-IsSessionStep c p default_session s0) in
    if_ind (λ (t : Dsl). IsSessionStep p s t) ((c.row p).protocol_id == obd_on_can)
      (λ _. IsSessionStep-trans p s s1 _ a (
        IsSessionStep-trans p s1 s2 _ (set_runtime-IsSessionStep p _ s1 refl)
          (same-IsSessionStep p s2 _ (forget_active_runtime c s2.active s2))))
      (λ _. a)

counted_tx :
    (b : Bool) (r : Runtime)
    → (if b
        then record r { s3_server_timeout_count = decrement r.s3_server_timeout_count }
        else r).external_tx_buffer_status
      ≡ r.external_tx_buffer_status
counted_tx true r = refl
counted_tx false r = refl

-- The session timer of the protocol `p` concerns only `p`, and no response.
pub session_tick-IsSessionStep :
    (c : DslConfig) (p : ℕ) (s : Dsl) → IsSessionStep p s (session_tick c p s)
unfolding session_tick
session_tick-IsSessionStep c p s =
    let P = (λ (t : Dsl). IsSessionStep p s t) in
    let r = s.runtime p in
    let r1 =
      if r.s3_server_started
      then record r { s3_server_timeout_count = decrement r.s3_server_timeout_count }
      else r in
    let s1 = set_runtime p r1 s in
    let a = set_runtime-IsSessionStep p r1 s (counted_tx r.s3_server_started r) in
    if_ind P (r.session_control == default_session) (λ _. same-IsSessionStep p s s refl)
      (λ _.
        if_ind P (r1.s3_server_timeout_count == 0)
          (λ _. IsSessionStep-trans p s s1 _ a (session_timeout-IsSessionStep c p s1)) (λ _. a))

pub IsSessionStep-OnlyActs : (p : ℕ) (s t : Dsl) → IsSessionStep p s t → OnlyActs p s → OnlyActs p t
IsSessionStep-OnlyActs p s t a h q ne =
    let k = h q ne in record { tx = a.tx q ∙ k.tx; session = a.session q ne ∙ k.session }

-- Where the protocol sends nothing, its round is that of its session timer.
protocol_tick_unused :
    (c : DslConfig) (p : ℕ) (s : Dsl)
    → (s.runtime p).external_tx_buffer_status ≡ not_in_use
    → protocol_tick c p s ≡ session_tick c p s
unfolding protocol_tick
protocol_tick_unused c p s h =
    ap (λ k. tx_tick c p k (session_tick c p s)) ((session_tick-IsSessionStep c p s).tx p ∙ h)

-- So is the round of DslMain, if the other protocols are quiet.
pub dsl_main_unused :
    (c : DslConfig) (p : ℕ) (s : Dsl)
    → p < c.row_count
    → OnlyActs p s
    → (s.runtime p).external_tx_buffer_status ≡ not_in_use
    → dsl_main c s ≡ session_tick c p s
dsl_main_unused c p s l h u =
    let e = protocol_tick_unused c p s u in
    dsl_main_one c p s l h (
      subst (λ t. OnlyActs p t) (sym e)
        (IsSessionStep-OnlyActs p s (session_tick c p s) (session_tick-IsSessionStep c p s) h))
    ∙ e
