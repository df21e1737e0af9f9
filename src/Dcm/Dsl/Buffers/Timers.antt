-- ===== src/Dcm/Dsl/Buffers/Timers.antt =====
-- The release of the buffers of a protocol, releaseExternalRxTxBuffers of core/dcm/src/Dcm_Dsl.c, and
-- the session timers.
use plug_and_play_autosar.Common.{
  ℕ, ◌<◌, ◌≡◌, ◌⊎◌, refl, sym, ap, ◌∙◌, subst, Bool, false, Option, none, some, ◌==◌, Bool-cases,
  if_ind, inl, inr, ==_iff, arith,
}
use plug_and_play_autosar.Dcm.Dsl.{
  not_in_use, Runtime, ProtocolRx, PeriodicTransmission, DslConfig, Dsl, find_rx, set_runtime,
  update_self, update_other, default_session,
}
use plug_and_play_autosar.Dcm.Dsl.Buffers.{
  release_external_rx_tx_buffers, release_own_buffers, release_periodic_buffer, release_periodic_of,
  release_transmission, make_available,
}

-- The session, whether its timer runs, and the periods that it has left.
abbrev pub timer : Runtime → ℕ × Bool × ℕ
timer r = (r.session_control, r.s3_server_started, r.s3_server_timeout_count)

-- The session does not time out: its timer is stopped with periods left, or it is the default session.
pub record IsStopped (r : Runtime) : Type 0 where
  pub stopped : r.s3_server_started ≡ false
  pub lasts : (r.session_control ≡ default_session) ⊎ (0 < r.s3_server_timeout_count)

pub same-IsStopped : (r u : Runtime) → timer u ≡ timer r → IsStopped r → IsStopped u
same-IsStopped r u e h = record {
  stopped = ap (λ k. k.1) e ∙ h.stopped;
  lasts = elim h.lasts [
    | inl x ↦ inl (ap (λ k. k.0) e ∙ x)
    | inr y ↦ inr (subst (λ n. 0 < n) (sym (ap (λ k. k.2) e)) y)
  ];
}

pub set_runtime-timer :
    (p o : ℕ) (r : Runtime) (s : Dsl)
    → timer r ≡ timer (s.runtime p)
    → timer ((set_runtime p r s).runtime o) ≡ timer (s.runtime o)
set_runtime-timer p o r s e = elim (Bool-cases (p == o)) [
  | inl y ↦
      subst (λ k. timer ((set_runtime p r s).runtime k) ≡ timer (s.runtime k)) ((==_iff p o).0 y)
        (ap timer (update_self s.runtime p r) ∙ e)
  | inr other ↦ ap timer (update_other s.runtime p o r (λ k. ground (arith, other, k)))
]

make_available_runtime : (o : Option ℕ) (s : Dsl) → (make_available o s).runtime ≡ s.runtime
make_available_runtime none s = refl
make_available_runtime (some b) s = refl

release_own_buffers-timer :
    (c : DslConfig) (p o : ℕ) (s : Dsl)
    → timer ((release_own_buffers c p s).runtime o) ≡ timer (s.runtime o)
unfolding release_own_buffers
release_own_buffers-timer c p o s =
    let s0 = make_available (some (c.row p).tx_buffer) s in
    let s1 = make_available (c.row p).rx_buffer s0 in
    let r = record (s1.runtime p) {
      external_tx_buffer_status = not_in_use;
      external_rx_buffer_status = not_in_use;
    } in
    set_runtime-timer p o r s1 refl
    ∙ ap (λ f. timer (f o)) (make_available_runtime (c.row p).rx_buffer s0)

release_transmission-timer :
    (c : DslConfig) (t : Option PeriodicTransmission) (o : ℕ) (s : Dsl)
    → timer ((release_transmission c t s).runtime o) ≡ timer (s.runtime o)
release_transmission-timer c none o s = refl
release_transmission-timer c (some t) o s =
    let s1 = make_available (some (c.row t.protocol).tx_buffer) s in
    set_runtime-timer t.protocol o
      (record (s1.runtime t.protocol) { external_tx_buffer_status = not_in_use }) s1 refl

release_periodic_of-timer :
    (c : DslConfig) (rx : Option ProtocolRx) (o : ℕ) (s : Dsl)
    → timer ((release_periodic_of c rx s).runtime o) ≡ timer (s.runtime o)
release_periodic_of-timer c none o s = refl
release_periodic_of-timer c (some rx) o s =
    release_transmission-timer c rx.main_connection.periodic_transmission o s

release_periodic_buffer-timer :
    (c : DslConfig) (p o : ℕ) (s : Dsl)
    → timer ((release_periodic_buffer c p s).runtime o) ≡ timer (s.runtime o)
unfolding release_periodic_buffer
release_periodic_buffer-timer c p o s =
    if_ind (λ (t : Dsl). timer (t.runtime o) ≡ timer (s.runtime o)) (s.runtime p).is_type2_tx
      (λ _. release_periodic_of-timer c (find_rx c (s.runtime p).diag_request_rx_pdu_id) o s)
      (λ _. refl)

pub release_external_rx_tx_buffers-timer :
    (c : DslConfig) (p o : ℕ) (s : Dsl)
    → timer ((release_external_rx_tx_buffers c p s).runtime o) ≡ timer (s.runtime o)
unfolding release_external_rx_tx_buffers
release_external_rx_tx_buffers-timer c p o s =
    let s0 = release_own_buffers c p s in
    let s1 = release_periodic_buffer c p s0 in
    set_runtime-timer p o (record (s1.runtime p) { is_type2_tx = false }) s1 refl
    ∙ release_periodic_buffer-timer c p o s0
    ∙ release_own_buffers-timer c p o s
