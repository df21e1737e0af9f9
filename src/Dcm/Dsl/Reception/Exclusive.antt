-- ===== src/Dcm/Dsl/Reception/Exclusive.antt =====
-- Who is granted a buffer, DslStartOfReception of core/dcm/src/Dcm_Dsl.c.
use plug_and_play_autosar.Common.{
  ℕ, ◌≤◌, ◌≡◌, ◌≢◌, ◌⊎◌, refl, ap, Bool, true, false, not, ◌&&◌, ◌||◌, none, some, leb,
  if◌then◌else◌, Bool-cases, inl, inr, arith,
}
use plug_and_play_autosar.Dcm.Dsl.{
  BufferUser, not_in_use, provided_to_pdur, BufferStatus, buffer_available, buffer_busy, ProtocolRx,
  DslConfig, Dsl, BufReq, bufreq_ok, bufreq_busy, bufreq_ovfl, find_rx, local_buffer_length,
}
use plug_and_play_autosar.Dcm.Dsl.Reception.{
  Reply, start_of_reception, choose_buffer, grab_external, grab_local, reply, stop_timer,
  is_not_in_use, is_available, is_ok,
}
use plug_and_play_autosar.Dcm.Dsl.Buffers.{check_type2_tx_pdu_available}

-- The external buffer `b` was free, and belongs to the PDU now.
pub record GrantsExternal (p b id n : ℕ) (s : Dsl) (r : Reply) : Type 0 where
  pub result : r.result ≡ bufreq_ok
  pub idle : (s.runtime p).external_rx_buffer_status ≡ not_in_use
  pub free : (s.buffer b).status ≡ buffer_available
  pub fits : n ≤ (s.buffer b).size
  pub busy : (r.state.buffer b).status ≡ buffer_busy
  pub owner : (r.state.buffer b).rx_pdu_id ≡ id
  pub used : (r.state.runtime p).external_rx_buffer_status ≡ provided_to_pdur
  pub local_same : (r.state.runtime p).local_rx_buffer ≡ (s.runtime p).local_rx_buffer

-- The local buffer was free, and belongs to the PDU now; the request is not an internal one.
pub record GrantsLocal (p id n : ℕ) (internal : Bool) (s : Dsl) (r : Reply) : Type 0 where
  pub result : r.result ≡ bufreq_ok
  pub outside : internal ≡ false
  pub free : (s.runtime p).local_rx_buffer.status ≡ not_in_use
  pub fits : n ≤ local_buffer_length
  pub used : (r.state.runtime p).local_rx_buffer.status ≡ provided_to_pdur
  pub owner : (r.state.runtime p).local_rx_buffer.rx_pdu_id ≡ id
  pub external_same :
      (r.state.runtime p).external_rx_buffer_status ≡ (s.runtime p).external_rx_buffer_status
  pub buffers_same : r.state.buffer ≡ s.buffer

abbrev pub Granted : ℕ → ℕ → ℕ → ℕ → Bool → Dsl → Reply → Type 0
Granted p b id n internal s r =
    GrantsExternal p b id n s r
    ⊎ (GrantsLocal p id n internal s r ⊎ ((r.result ≢ bufreq_ok) × (r.state ≡ s)))

not_in_use_of : (u : BufferUser) → is_not_in_use u ≡ true → u ≡ not_in_use
not_in_use_of not_in_use e = refl
not_in_use_of _ e = cc

available_of : (u : BufferStatus) → is_available u ≡ true → u ≡ buffer_available
available_of buffer_available e = refl
available_of buffer_busy e = cc

grab_local-Granted :
    (p b id n : ℕ) (s : Dsl)
    → (s.runtime p).local_rx_buffer.status ≡ not_in_use
    → Granted p b id n false s (grab_local p id n s)
unfolding grab_local
grab_local-Granted p b id n s e = elim (Bool-cases (leb n local_buffer_length)) [
  | inl y ↦ rw y (
      inr (
        inl (record {
          result = refl;
          outside = refl;
          free = e;
          fits = ground (arith, y);
          used = ground arith;
          owner = ground arith;
          external_same = ground arith;
          buffers_same = refl;
        })))
  | inr no_room ↦ rw no_room (inr (inr (λ q. cc, refl)))
]

grab_external-Granted :
    (c : DslConfig) (p b id n : ℕ) (internal : Bool) (s : Dsl)
    → (s.runtime p).external_rx_buffer_status ≡ not_in_use
    → (s.buffer b).status ≡ buffer_available
    → n ≤ (s.buffer b).size
    → Granted p b id n internal s (grab_external c p b id n s)
unfolding grab_external
grab_external-Granted c p b id n internal s e f l = inl (record {
  result = refl;
  idle = e;
  free = f;
  fits = l;
  busy = ground arith;
  owner = ground arith;
  used = ground arith;
  local_same = ground arith;
})

refused-Granted :
    (p b id n : ℕ) (internal : Bool) (s : Dsl) (k : BufReq)
    → k ≢ bufreq_ok
    → Granted p b id n internal s (reply s k none)
refused-Granted p b id n internal s k h = inr (inr (h, refl))

-- The last choice of a buffer.
local_choice :
    (p b id n : ℕ) (internal : Bool) (s : Dsl)
    → Granted p b id n internal s (
        if is_not_in_use (s.runtime p).local_rx_buffer.status && not internal
        then grab_local p id n s
        else reply s bufreq_busy none)
local_choice p b id n true s =
    elim (Bool-cases (is_not_in_use (s.runtime p).local_rx_buffer.status)) [
      | inl y ↦ rw y (refused-Granted p b id n true s bufreq_busy (λ q. cc))
      | inr z ↦ rw z (refused-Granted p b id n true s bufreq_busy (λ q. cc))
    ]
local_choice p b id n false s =
    elim (Bool-cases (is_not_in_use (s.runtime p).local_rx_buffer.status)) [
      | inl y ↦
          rw y
            (grab_local-Granted p b id n s (not_in_use_of (s.runtime p).local_rx_buffer.status y))
      | inr z ↦ rw z (refused-Granted p b id n false s bufreq_busy (λ q. cc))
    ]

choose_buffer-Granted :
    (c : DslConfig) (p b id n : ℕ) (internal : Bool) (s : Dsl)
    → Granted p b id n internal s (choose_buffer c p b id n internal s)
unfolding choose_buffer
choose_buffer-Granted c p b id n internal s = elim (Bool-cases (leb n (s.buffer b).size)) [
  | inl y ↦ elim (Bool-cases (is_not_in_use (s.runtime p).external_rx_buffer_status)) [
    | inl u ↦ elim (Bool-cases (is_available (s.buffer b).status)) [
      | inl a ↦
          rw (y, u, a)
            (grab_external-Granted c p b id n internal s
              (not_in_use_of (s.runtime p).external_rx_buffer_status u)
              (available_of (s.buffer b).status a) (ground (arith, y)))
      | inr a ↦ rw (y, u, a) (local_choice p b id n internal s)
    ]
    | inr u ↦ rw (y, u) (local_choice p b id n internal s)
  ]
  | inr z ↦ rw z (refused-Granted p b id n internal s bufreq_ovfl (λ q. cc))
]

is_ok_of : (k : BufReq) → is_ok k ≡ true → k ≡ bufreq_ok
is_ok_of bufreq_ok e = refl
is_ok_of _ e = cc

-- Stopping the session timer takes nothing away.
stop_timer-Granted :
    (p b id n : ℕ) (internal t : Bool) (s : Dsl) (r : Reply)
    → Granted p b id n internal s r
    → Granted p b id n internal s (stop_timer p t r)
stop_timer-Granted p b id n internal true s r g = g
stop_timer-Granted p b id n internal false s r (inl g) =
    let ok : is_ok r.result ≡ true = ap is_ok g.result in
    rw ok (
      inl (record {
        result = g.result;
        idle = g.idle;
        free = g.free;
        fits = g.fits;
        busy = g.busy;
        owner = g.owner;
        used = ground (arith, g.used);
        local_same = ground (arith, g.local_same);
      }))
stop_timer-Granted p b id n internal false s r (inr (inl g)) =
    let ok : is_ok r.result ≡ true = ap is_ok g.result in
    rw ok (
      inr (
        inl (record {
          result = g.result;
          outside = g.outside;
          free = g.free;
          fits = g.fits;
          used = ground (arith, g.used);
          owner = ground (arith, g.owner);
          external_same = ground (arith, g.external_same);
          buffers_same = g.buffers_same;
        })))
stop_timer-Granted p b id n internal false s r (inr (inr (h, e))) =
    elim (Bool-cases (is_ok r.result)) [
      | inl y ↦ absurd (h (is_ok_of r.result y))
      | inr z ↦ rw z (inr (inr (h, e)))
    ]

-- Whatever PDU asks for a buffer, and whether the request is an internal one or not: either it is
-- granted the receive buffer of its protocol, which was free and large enough, and which is busy and
-- bound to the PDU afterwards; or it is not internal, and is granted the local buffer, which was not in
-- use and is large enough, with no other buffer changed; or it is refused, and nothing is changed. So
-- no buffer that is in use is ever given away.
pub start_of_reception-Granted :
    (c : DslConfig) (id n b : ℕ) (internal : Bool) (rx : ProtocolRx) (s : Dsl)
    → find_rx c id ≡ some rx
    → (c.row rx.main_connection.protocol).rx_buffer ≡ some b
    → Granted rx.main_connection.protocol b id n internal s (start_of_reception c id n internal s)
unfolding start_of_reception
start_of_reception-Granted c id n b internal rx s found own =
    let p = rx.main_connection.protocol in
    let t = internal && (c.row p).type2 in
    rw (found, own)
      (stop_timer-Granted p b id n internal t s
        (if not t || check_type2_tx_pdu_available c s rx.main_connection
          then choose_buffer c p b id n internal s
          else reply s bufreq_busy none)
        (elim (Bool-cases (not t || check_type2_tx_pdu_available c s rx.main_connection)) [
          | inl y ↦ rw y (choose_buffer-Granted c p b id n internal s)
          | inr z ↦ rw z (refused-Granted p b id n internal s bufreq_busy (λ q. cc))
        ]))
