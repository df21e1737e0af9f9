-- ===== src/Dcm/Dsl/Indication/Delivery.antt =====
-- What the dispatcher is given of a request that the session layer received in pieces,
-- DslTpRxIndicationFromPduR of core/dcm/src/Dcm_Dsl.c.
use plug_and_play_autosar.Common.{
  ℕ, suc, ◌≤◌, ◌<◌, ◌^◌, ◌≡◌, ◌≢◌, refl, sym, ap, subst, ◌∙◌, Bool, true, false, Option, none, some,
  List, [], ◌∷◌, length, take, get_or, ◌==◌, ◌&&◌, if◌then◌else◌, Bool-cases, ==_iff, inl, inr,
  arith,
}
use plug_and_play_autosar.Dcm.Dsl.{
  not_in_use, buffer_available, ProtocolRx, DslConfig, Dsl, DslCall, dsd_data_indication,
  ntfrslt_ok, find_rx,
}
use plug_and_play_autosar.Dcm.Dsl.Session.{enter_com_m}
use plug_and_play_autosar.Dcm.Dsl.Reception.{start_of_reception, holds_external}
use plug_and_play_autosar.Dcm.Dsl.Reception.Copy.{
  Receiving, held, copy_pieces, concat, copy_pieces-Receiving, start_of_reception-Receiving,
}
use plug_and_play_autosar.Dcm.Dsl.Indication.{
  tp_rx_indication, indicate_external, process_request, acquire_protocol, hand_over,
  is_tester_present_command,
}

and_false : (b : Bool) → (b && false) ≡ false
and_false true = refl
and_false false = refl

first_of_prefix : (n x : ℕ) (xs ys : List ℕ) → take (suc n) ys ≡ x ∷ xs → get_or ys 0 0 ≡ x
first_of_prefix n x xs [] e = ground arith
first_of_prefix n x xs (y ∷ ys) e = ground arith

not_tester_present :
    (n x : ℕ) (xs ys : List ℕ)
    → take (suc n) ys ≡ x ∷ xs
    → x ≢ 0x3E
    → is_tester_present_command ys ≡ false
unfolding is_tester_present_command
not_tester_present n x xs ys e h = ground (arith, first_of_prefix n x xs ys e)

-- Telling ComM changes neither buffers nor what the protocol has received.
enter_com_m_keeps :
    (c : DslConfig) (p : ℕ) (rx : Option ProtocolRx) (s : Dsl)
    → ((enter_com_m c p rx s).buffer ≡ s.buffer)
      × (((enter_com_m c p rx s).runtime p).request_length ≡ (s.runtime p).request_length)
unfolding enter_com_m
enter_com_m_keeps c p none s = (refl, refl)
enter_com_m_keeps c p (some rx) s = elim (Bool-cases (s.runtime p).diagnostic_active_com_m) [
  | inl y ↦ rw y (refl, refl)
  | inr n ↦ rw n (refl, ground arith)
]

module _ (c : DslConfig) (id b : ℕ) (rx : ProtocolRx) (found : find_rx c id ≡ some rx)
    (own : (c.row rx.main_connection.protocol).rx_buffer ≡ some b) where
  abbrev p : ℕ
  p = rx.main_connection.protocol

  abbrev Indicated : List ℕ → Dsl → Type 0
  Indicated request s =
      (rest : List DslCall) × (s.calls
        ≡ dsd_data_indication request rx.functional rx.main_connection.tx_pdu_id id false false
          ∷ rest)

  hand_over-Indicated :
      (x : ℕ) (xs : List ℕ) (s : Dsl)
      → take (length (x ∷ xs)) (s.buffer b).bytes ≡ x ∷ xs
      → (s.runtime p).request_length ≡ length (x ∷ xs)
      → Indicated (x ∷ xs) (hand_over c rx none id false false s)
  unfolding hand_over
  hand_over-Indicated x xs s whole len =
      let pp : (p == p) ≡ true = (==_iff p p).1 refl in
      let n : (if (s.runtime p).request_length == 0
            then (s.buffer b).nof_bytes_handled
            else (s.runtime p).request_length)
          ≡ length (x ∷ xs) =
        ground arith in
      rw (own, pp)
        (
          s.calls,
          ap
              (λ ys.
                dsd_data_indication ys rx.functional rx.main_connection.tx_pdu_id id false false
                ∷ s.calls)
              (ap (λ k. take k (s.buffer b).bytes) n ∙ whole),
        )

  process_request-Indicated :
      (x : ℕ) (xs : List ℕ) (s : Dsl)
      → take (length (x ∷ xs)) (s.buffer b).bytes ≡ x ∷ xs
      → (s.runtime p).request_length ≡ length (x ∷ xs)
      → (s.runtime p).protocol_started ≡ true
      → Indicated (x ∷ xs) (process_request c rx none id false false s)
  unfolding process_request acquire_protocol
  process_request-Indicated x xs s whole len started =
      let e = enter_com_m_keeps c p (some rx) s in
      rw (started, started)
        (elim (Bool-cases ((s.runtime p).session_control == 1)) [
          | inl y ↦ rw y (
              hand_over-Indicated x xs (enter_com_m c p (some rx) s)
                (ap (λ f. take (length (x ∷ xs)) (f b).bytes) e.0 ∙ whole) (e.1 ∙ len))
          | inr n ↦ rw n (hand_over-Indicated x xs s whole len)
        ])

  tp_rx_indication-Indicated :
      (x : ℕ) (xs : List ℕ) (s : Dsl)
      → Receiving p b id (x ∷ xs) s
      → x ≢ 0x3E
      → (s.runtime p).request_length ≡ length (x ∷ xs)
      → (s.runtime p).protocol_started ≡ true
      → Indicated (x ∷ xs) (tp_rx_indication c id ntfrslt_ok false false s)
  unfolding tp_rx_indication indicate_external
  tp_rx_indication-Indicated x xs s r other len started =
      let q : holds_external p id (some b) s ≡ true = held c id b rx found own (x ∷ xs) s r in
      let t : is_tester_present_command (s.buffer b).bytes ≡ false =
        not_tester_present (length xs) x xs (s.buffer b).bytes r.prefix other in
      let l : ((s.buffer b).nof_bytes_handled == (s.runtime p).request_length) ≡ true =
        (==_iff _ _).1 (r.handled ∙ sym len) in
      let n : ((c.row p).type2 && false) ≡ false = and_false (c.row p).type2 in
      rw (found, own, q) (rw (n, l, t) (process_request-Indicated x xs s r.prefix len started))

-- A request that arrives in pieces for a protocol that is started is given to the dispatcher whole, in
-- order and with its length, together with the PDUs of the request and of the response. The request
-- is not empty, it fits the receive buffer, which is free, and it is no tester present.
pub tp_rx_indication-request :
    (c : DslConfig) (id b : ℕ) (rx : ProtocolRx) (pieces : List (List ℕ)) (sid : ℕ) (rest : List ℕ)
    (s : Dsl)
    → find_rx c id ≡ some rx
    → (c.row rx.main_connection.protocol).rx_buffer ≡ some b
    → (s.runtime rx.main_connection.protocol).external_rx_buffer_status ≡ not_in_use
    → (s.runtime rx.main_connection.protocol).protocol_started ≡ true
    → (s.buffer b).status ≡ buffer_available
    → (s.buffer b).size ≤ length (s.buffer b).bytes
    → (s.buffer b).size < 2 ^ 16
    → length (concat pieces) ≤ (s.buffer b).size
    → concat pieces ≡ sid ∷ rest
    → sid ≢ 0x3E
    → (before : List DslCall) × ((tp_rx_indication c id ntfrslt_ok false false (
          copy_pieces c id pieces
            (start_of_reception c id (length (concat pieces)) false s).state)).calls
        ≡ dsd_data_indication
            (concat pieces)
            rx.functional
            rx.main_connection.tx_pdu_id
            id
            false
            false
          ∷ before)
tp_rx_indication-request c id b rx pieces sid rest s found own idle started free room small fit
      shape other =
    let s1 = (start_of_reception c id (length (concat pieces)) false s).state in
    let first =
      start_of_reception-Receiving c id b rx found own (length (concat pieces)) s idle free fit room
        small in
    let pieced =
      copy_pieces-Receiving c id b rx found own pieces [] s1 first.0 (omega (arith, first.1)) in
    subst
      (λ ys.
        (before : List DslCall) × ((tp_rx_indication c id ntfrslt_ok false false
            (copy_pieces c id pieces s1)).calls
          ≡ dsd_data_indication ys rx.functional rx.main_connection.tx_pdu_id id false false
            ∷ before))
      (sym shape)
      (tp_rx_indication-Indicated c id b rx found own sid rest (copy_pieces c id pieces s1)
        (subst (λ ys. Receiving rx.main_connection.protocol b id ys (copy_pieces c id pieces s1))
          shape pieced.0)
        other
        (ap (λ f. (f rx.main_connection.protocol).request_length) pieced.1
          ∙ (first.3 ∙ ap length shape))
        (ap (λ f. (f rx.main_connection.protocol).protocol_started) pieced.1 ∙ (first.4 ∙ started)))
