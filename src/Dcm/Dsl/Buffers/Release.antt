-- ===== src/Dcm/Dsl/Buffers/Release.antt =====
-- The release of the buffers of a protocol, releaseExternalRxTxBuffers of core/dcm/src/Dcm_Dsl.c.
use plug_and_play_autosar.Common.{
  ℕ, ◌≡◌, refl, ap, ◌∙◌, Option, none, some, Bool-cases, inl, inr, arith,
}
use plug_and_play_autosar.Dcm.Dsl.{
  not_in_use, buffer_available, ProtocolRx, PeriodicTransmission, DslConfig, Dsl, find_rx,
}
use plug_and_play_autosar.Dcm.Dsl.Buffers.{
  release_external_rx_tx_buffers, release_own_buffers, release_periodic_buffer, release_periodic_of,
  release_transmission, make_available,
}

-- A buffer can be given to another request, if there is one.
abbrev pub IsAvailable : Option ℕ → Dsl → Type 0
IsAvailable none s = Unit
IsAvailable (some b) s = (s.buffer b).status ≡ buffer_available

-- Neither buffer of the protocol `p` is in use, and both can be given to another request.
pub record IsIdle (c : DslConfig) (p : ℕ) (s : Dsl) : Type 0 where
  pub rx : (s.runtime p).external_rx_buffer_status ≡ not_in_use
  pub tx : (s.runtime p).external_tx_buffer_status ≡ not_in_use
  pub rx_buffer : IsAvailable (c.row p).rx_buffer s
  pub tx_buffer : IsAvailable (some (c.row p).tx_buffer) s

-- What is available stays so while other buffers become available.
make_available-IsAvailable :
    (o q : Option ℕ) (s : Dsl) → IsAvailable o s → IsAvailable o (make_available q s)
make_available-IsAvailable none q s h = tt
make_available-IsAvailable (some b) none s h = h
make_available-IsAvailable (some b) (some a) s h = ground (arith, h)

pub same-IsAvailable :
    (o : Option ℕ) (s t : Dsl) → t.buffer ≡ s.buffer → IsAvailable o s → IsAvailable o t
same-IsAvailable none s t e h = tt
same-IsAvailable (some b) s t e h = ap (λ f. (f b).status) e ∙ h

make_available_self : (o : Option ℕ) (s : Dsl) → IsAvailable o (make_available o s)
make_available_self none s = tt
make_available_self (some b) s = ground arith

release_own_buffers-IsAvailable :
    (c : DslConfig) (p : ℕ) (o : Option ℕ) (s : Dsl)
    → IsAvailable o
        (make_available (c.row p).rx_buffer (make_available (some (c.row p).tx_buffer) s))
    → IsAvailable o (release_own_buffers c p s)
unfolding release_own_buffers
release_own_buffers-IsAvailable c p none s h = tt
release_own_buffers-IsAvailable c p (some b) s h = ground (arith, h)

release_own_buffers_unused :
    (c : DslConfig) (p : ℕ) (s : Dsl)
    → (((release_own_buffers c p s).runtime p).external_rx_buffer_status ≡ not_in_use)
      × (((release_own_buffers c p s).runtime p).external_tx_buffer_status ≡ not_in_use)
unfolding release_own_buffers
release_own_buffers_unused c p s = (ground arith, ground arith)

release_own_buffers-IsIdle :
    (c : DslConfig) (p : ℕ) (s : Dsl) → IsIdle c p (release_own_buffers c p s)
release_own_buffers-IsIdle c p s =
    let row = c.row p in
    let s1 = make_available (some row.tx_buffer) s in
    let own = release_own_buffers_unused c p s in
    record {
      rx = own.0;
      tx = own.1;
      rx_buffer =
          release_own_buffers-IsAvailable c p row.rx_buffer s
            (make_available_self row.rx_buffer s1);
      tx_buffer = release_own_buffers-IsAvailable c p (some row.tx_buffer) s (
          make_available-IsAvailable (some row.tx_buffer) row.rx_buffer s1
            (make_available_self (some row.tx_buffer) s));
    }

release_transmission-IsIdle :
    (c : DslConfig) (t : Option PeriodicTransmission) (p : ℕ) (s : Dsl)
    → IsIdle c p s
    → IsIdle c p (release_transmission c t s)
release_transmission-IsIdle c none p s r = record {
  rx = r.rx;
  tx = r.tx;
  rx_buffer = same-IsAvailable (c.row p).rx_buffer s _ refl r.rx_buffer;
  tx_buffer = r.tx_buffer;
}
release_transmission-IsIdle c (some t) p s r =
    let b = some (c.row t.protocol).tx_buffer in
    record {
      rx = ground (arith, r.rx);
      tx = ground (arith, r.tx);
      rx_buffer =
          same-IsAvailable (c.row p).rx_buffer (make_available b s) _ refl
            (make_available-IsAvailable (c.row p).rx_buffer b s r.rx_buffer);
      tx_buffer = make_available-IsAvailable (some (c.row p).tx_buffer) b s r.tx_buffer;
    }

release_periodic_of-IsIdle :
    (c : DslConfig) (rx : Option ProtocolRx) (p : ℕ) (s : Dsl)
    → IsIdle c p s
    → IsIdle c p (release_periodic_of c rx s)
release_periodic_of-IsIdle c none p s r = r
release_periodic_of-IsIdle c (some rx) p s r =
    release_transmission-IsIdle c rx.main_connection.periodic_transmission p s r

release_periodic_buffer-IsIdle :
    (c : DslConfig) (q p : ℕ) (s : Dsl) → IsIdle c p s → IsIdle c p (release_periodic_buffer c q s)
unfolding release_periodic_buffer
release_periodic_buffer-IsIdle c q p s r = elim (Bool-cases (s.runtime q).is_type2_tx) [
  | inl y ↦
      rw y (release_periodic_of-IsIdle c (find_rx c (s.runtime q).diag_request_rx_pdu_id) p s r)
  | inr n ↦ rw n r
]

-- Afterwards neither buffer of the protocol is in use, and both can be given to another request.
pub release_external_rx_tx_buffers-IsIdle :
    (c : DslConfig) (p : ℕ) (s : Dsl) → IsIdle c p (release_external_rx_tx_buffers c p s)
unfolding release_external_rx_tx_buffers
release_external_rx_tx_buffers-IsIdle c p s =
    let s1 = release_periodic_buffer c p (release_own_buffers c p s) in
    let r =
      release_periodic_buffer-IsIdle c p p (release_own_buffers c p s)
        (release_own_buffers-IsIdle c p s) in
    record {
      rx = ground (arith, r.rx);
      tx = ground (arith, r.tx);
      rx_buffer = same-IsAvailable (c.row p).rx_buffer s1 _ refl r.rx_buffer;
      tx_buffer = r.tx_buffer;
    }
