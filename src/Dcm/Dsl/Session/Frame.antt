-- ===== src/Dcm/Dsl/Session/Frame.antt =====
-- What a change of the session leaves alone, changeDiagnosticSession of core/dcm/src/Dcm_Dsl.c.
use plug_and_play_autosar.Common.{
  ℕ, ◌≡◌, ◌≢◌, refl, ap, ◌∙◌, Option, none, some, true, false, ◌==◌, Bool-cases, if_ind, inl, inr,
  ==_iff, subst, arith,
}
use plug_and_play_autosar.Dcm.Dsl.{
  Runtime, ProtocolRx, DslConfig, Dsl, find_rx, set_runtime, update_self, update_other,
  default_session,
}
use plug_and_play_autosar.Dcm.Dsl.Session.{
  change_diagnostic_session, leave_session, change_com_m, leave_com_m, enter_com_m,
}

-- Every protocol sends what it sent, and all but `p` are in the session they were in.
pub record IsSessionStep (p : ℕ) (s t : Dsl) : Type 0 where
  pub tx :
      (q : ℕ) → (t.runtime q).external_tx_buffer_status ≡ (s.runtime q).external_tx_buffer_status
  pub session : (q : ℕ) → p ≢ q → (t.runtime q).session_control ≡ (s.runtime q).session_control

pub same-IsSessionStep : (p : ℕ) (s t : Dsl) → t.runtime ≡ s.runtime → IsSessionStep p s t
same-IsSessionStep p s t e = record {
  tx = λ q. ap (λ f. (f q).external_tx_buffer_status) e;
  session = λ q ne. ap (λ f. (f q).session_control) e;
}

pub IsSessionStep-trans :
    (p : ℕ) (s t u : Dsl) → IsSessionStep p s t → IsSessionStep p t u → IsSessionStep p s u
IsSessionStep-trans p s t u a b = record {
  tx = λ q. b.tx q ∙ a.tx q;
  session = λ q ne. b.session q ne ∙ a.session q ne;
}

pub set_runtime-IsSessionStep :
    (p : ℕ) (r : Runtime) (s : Dsl)
    → r.external_tx_buffer_status ≡ (s.runtime p).external_tx_buffer_status
    → IsSessionStep p s (set_runtime p r s)
set_runtime-IsSessionStep p r s e = record {
  tx = λ q. elim (Bool-cases (p == q)) [
    | inl y ↦
        subst
          (λ k.
            ((set_runtime p r s).runtime k).external_tx_buffer_status
            ≡ (s.runtime k).external_tx_buffer_status)
          ((==_iff p q).0 y)
          (ap (λ (v : Runtime). v.external_tx_buffer_status) (update_self s.runtime p r) ∙ e)
    | inr other ↦
        ap (λ (v : Runtime). v.external_tx_buffer_status)
          (update_other s.runtime p q r (λ k. ground (arith, other, k)))
  ];
  session = λ q ne. ap (λ (v : Runtime). v.session_control) (update_other s.runtime p q r ne);
}

leave_session-IsSessionStep : (p : ℕ) (s : Dsl) → IsSessionStep p s (leave_session p s)
unfolding leave_session
leave_session-IsSessionStep p s =
    if_ind (λ (t : Dsl). IsSessionStep p s t) ((s.runtime p).session_control == default_session)
      (λ _. same-IsSessionStep p s _ refl) (λ _. set_runtime-IsSessionStep p _ s refl)

leave_com_m-IsSessionStep :
    (c : DslConfig) (p : ℕ) (rx : Option ProtocolRx) (s : Dsl)
    → IsSessionStep p s (leave_com_m c p rx s)
unfolding leave_com_m
leave_com_m-IsSessionStep c p none s = same-IsSessionStep p s s refl
leave_com_m-IsSessionStep c p (some rx) s =
    let r = record (s.runtime p) { diagnostic_active_com_m = false } in
    if_ind (λ (t : Dsl). IsSessionStep p s t) (s.runtime p).diagnostic_active_com_m
      (λ _.
        IsSessionStep-trans p s (set_runtime p r s) _ (set_runtime-IsSessionStep p r s refl)
          (same-IsSessionStep p (set_runtime p r s) _ refl))
      (λ _. same-IsSessionStep p s s refl)

enter_com_m-IsSessionStep :
    (c : DslConfig) (p : ℕ) (rx : Option ProtocolRx) (s : Dsl)
    → IsSessionStep p s (enter_com_m c p rx s)
unfolding enter_com_m
enter_com_m-IsSessionStep c p none s = same-IsSessionStep p s s refl
enter_com_m-IsSessionStep c p (some rx) s =
    let r = record (s.runtime p) { diagnostic_active_com_m = true } in
    if_ind (λ (t : Dsl). IsSessionStep p s t) (s.runtime p).diagnostic_active_com_m
      (λ _. same-IsSessionStep p s s refl)
      (λ _.
        IsSessionStep-trans p s (set_runtime p r s) _ (set_runtime-IsSessionStep p r s refl)
          (same-IsSessionStep p (set_runtime p r s) _ refl))

change_com_m-IsSessionStep :
    (c : DslConfig) (p new : ℕ) (s : Dsl) → IsSessionStep p s (change_com_m c p new s)
unfolding change_com_m
change_com_m-IsSessionStep c p new s =
    let P = (λ (t : Dsl). IsSessionStep p s t) in
    let rx = find_rx c (s.runtime p).diag_request_rx_pdu_id in
    let same = same-IsSessionStep p s s refl in
    if_ind P (new == default_session)
      (λ _.
        if_ind P ((s.runtime p).session_control == default_session) (λ _. same)
          (λ _. leave_com_m-IsSessionStep c p rx s))
      (λ _.
        if_ind P (new == (s.runtime p).session_control) (λ _. same)
          (λ _. enter_com_m-IsSessionStep c p rx s))

pub change_diagnostic_session-IsSessionStep :
    (c : DslConfig) (p new : ℕ) (s : Dsl) → IsSessionStep p s (change_diagnostic_session c p new s)
unfolding change_diagnostic_session
change_diagnostic_session-IsSessionStep c p new s =
    let s0 = leave_session p s in
    let s1 = change_com_m c p new s0 in
    let s2 = set_runtime p (record (s1.runtime p) { session_control = new }) s1 in
    IsSessionStep-trans p s s0 _ (leave_session-IsSessionStep p s) (
      IsSessionStep-trans p s0 s1 _ (change_com_m-IsSessionStep c p new s0) (
        IsSessionStep-trans p s1 s2 _ (set_runtime-IsSessionStep p _ s1 refl)
          (same-IsSessionStep p s2 _ refl)))
