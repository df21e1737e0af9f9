-- ===== src/Dcm/Dsl/Buffers/Quiet.antt =====
-- What the release of the buffers of a protocol, releaseExternalRxTxBuffers of core/dcm/src/Dcm_Dsl.c,
-- leaves of the other protocols.
use plug_and_play_autosar.Common.{ℕ, ◌≡◌, ◌≢◌, refl, ap, ◌∙◌, Option, none, some, if_ind, arith}
use plug_and_play_autosar.Dcm.Dsl.{
  not_in_use, Runtime, ProtocolRx, PeriodicTransmission, DslConfig, Dsl, find_rx, set_runtime,
  update_other, default_session,
}
use plug_and_play_autosar.Dcm.Dsl.Buffers.{
  release_external_rx_tx_buffers, release_own_buffers, release_periodic_buffer, release_periodic_of,
  release_transmission, make_available,
}

-- The protocol `q` sends nothing, and is in its default session.
pub record IsQuiet (q : ℕ) (s : Dsl) : Type 0 where
  pub tx : (s.runtime q).external_tx_buffer_status ≡ not_in_use
  pub session : (s.runtime q).session_control ≡ default_session

pub same-IsQuiet : (q : ℕ) (s t : Dsl) → t.runtime ≡ s.runtime → IsQuiet q s → IsQuiet q t
same-IsQuiet q s t e h = record {
  tx = ap (λ f. (f q).external_tx_buffer_status) e ∙ h.tx;
  session = ap (λ f. (f q).session_control) e ∙ h.session;
}

pub set_runtime-IsQuiet :
    (p q : ℕ) (r : Runtime) (s : Dsl) → p ≢ q → IsQuiet q s → IsQuiet q (set_runtime p r s)
set_runtime-IsQuiet p q r s ne h = record {
  tx = ap (λ (v : Runtime). v.external_tx_buffer_status) (update_other s.runtime p q r ne) ∙ h.tx;
  session = ap (λ (v : Runtime). v.session_control) (update_other s.runtime p q r ne) ∙ h.session;
}

make_available_runtime : (o : Option ℕ) (s : Dsl) → (make_available o s).runtime ≡ s.runtime
make_available_runtime none s = refl
make_available_runtime (some b) s = refl

release_own_buffers-IsQuiet :
    (c : DslConfig) (p q : ℕ) (s : Dsl)
    → p ≢ q
    → IsQuiet q s
    → IsQuiet q (release_own_buffers c p s)
unfolding release_own_buffers
release_own_buffers-IsQuiet c p q s ne h =
    let s0 = make_available (some (c.row p).tx_buffer) s in
    let s1 = make_available (c.row p).rx_buffer s0 in
    let r =
      set_runtime-IsQuiet p q
        (record (s1.runtime p) {
          external_tx_buffer_status = not_in_use;
          external_rx_buffer_status = not_in_use;
        })
        s1 ne (same-IsQuiet q s s1 (make_available_runtime (c.row p).rx_buffer s0) h) in
    record { tx = r.tx; session = r.session }

release_transmission-IsQuiet :
    (c : DslConfig) (t : Option PeriodicTransmission) (q : ℕ) (s : Dsl)
    → IsQuiet q s
    → IsQuiet q (release_transmission c t s)
release_transmission-IsQuiet c none q s h = record { tx = h.tx; session = h.session }
release_transmission-IsQuiet c (some t) q s h = record {
  tx = ground (arith, h.tx);
  session = ground (arith, h.session);
}

release_periodic_of-IsQuiet :
    (c : DslConfig) (rx : Option ProtocolRx) (q : ℕ) (s : Dsl)
    → IsQuiet q s
    → IsQuiet q (release_periodic_of c rx s)
release_periodic_of-IsQuiet c none q s h = h
release_periodic_of-IsQuiet c (some rx) q s h =
    release_transmission-IsQuiet c rx.main_connection.periodic_transmission q s h

release_periodic_buffer-IsQuiet :
    (c : DslConfig) (p q : ℕ) (s : Dsl) → IsQuiet q s → IsQuiet q (release_periodic_buffer c p s)
unfolding release_periodic_buffer
release_periodic_buffer-IsQuiet c p q s h =
    if_ind (λ (t : Dsl). IsQuiet q t) (s.runtime p).is_type2_tx
      (λ _. release_periodic_of-IsQuiet c (find_rx c (s.runtime p).diag_request_rx_pdu_id) q s h)
      (λ _. h)

-- The release of the buffers of one protocol leaves another quiet.
pub release_external_rx_tx_buffers-IsQuiet :
    (c : DslConfig) (p q : ℕ) (s : Dsl)
    → p ≢ q
    → IsQuiet q s
    → IsQuiet q (release_external_rx_tx_buffers c p s)
unfolding release_external_rx_tx_buffers
release_external_rx_tx_buffers-IsQuiet c p q s ne h =
    set_runtime-IsQuiet p q _ (release_periodic_buffer c p (release_own_buffers c p s)) ne (
      release_periodic_buffer-IsQuiet c p q (release_own_buffers c p s)
        (release_own_buffers-IsQuiet c p q s ne h))
