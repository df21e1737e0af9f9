-- ===== src/Dcm/Dsl/Reception/Copy.antt =====
-- A request that arrives in pieces, DslStartOfReception and DslCopyDataToRxBuffer of
-- core/dcm/src/Dcm_Dsl.c: what the receive buffer holds after each piece.
use plug_and_play_autosar.Common.{
  ℕ, suc, ◌+◌, ◌-◌, ◌≤◌, ◌<◌, ◌^◌, ◌%◌, ◌≡◌, refl, sym, ap, subst, ◌∙◌, true, false, some, List, [],
  ◌∷◌, ◌++◌, length, take, set, length-set, length-append, append_assoc, append_nil, take-set,
  snoc_++, leb, ==_iff, arith,
}
use plug_and_play_autosar.Dcm.External.{copy_to}
use plug_and_play_autosar.Dcm.Dsl.{
  provided_to_pdur, not_in_use, buffer_available, Buffer, ProtocolRx, DslConfig, Dsl, bufreq_ok,
  find_rx, set_buffer, update, update_self,
}
use plug_and_play_autosar.Dcm.Dsl.Reception.{
  start_of_reception, copy_data_to_rx_buffer, grab_external, choose_buffer, copy_to_external,
  holds_external, is_provided_to_pdur,
}

pub length-copy_to : (i : ℕ) (xs d : List ℕ) → length (copy_to i xs d) ≡ length d
unfolding copy_to
length-copy_to i [] d = refl
length-copy_to i (x ∷ xs) d = length-copy_to (suc i) xs (set d i x) ∙ length-set d i x

-- The bytes are appended to those before the position.
pub take-copy_to :
    (i : ℕ) (xs d : List ℕ)
    → i + length xs ≤ length d
    → take (i + length xs) (copy_to i xs d) ≡ take i d ++ xs
unfolding copy_to
take-copy_to i [] d h = rw (append_nil (take i d)) (ap (λ n. take n d) (omega arith))
take-copy_to i (x ∷ xs) d h =
    ap (λ n. take n (copy_to (suc i) xs (set d i x))) (omega arith)
    ∙ (take-copy_to (suc i) xs (set d i x) (omega (arith, length-set d i x))
        ∙ (ap (λ ys. ys ++ xs) (take-set d i x (omega arith)) ∙ snoc_++ (take i d) x xs))

-- The receive buffer `b` of the protocol `p` is provided for the PDU `id`, and holds `done` so far.
pub record Receiving (p b id : ℕ) (done : List ℕ) (s : Dsl) : Type 0 where
  pub provided : (s.runtime p).external_rx_buffer_status ≡ provided_to_pdur
  pub locked : (s.buffer b).rx_pdu_id ≡ id
  pub handled : (s.buffer b).nof_bytes_handled ≡ length done
  pub prefix : take (length done) (s.buffer b).bytes ≡ done
  pub room : (s.buffer b).size ≤ length (s.buffer b).bytes
  pub small : (s.buffer b).size < 2 ^ 16

-- The pieces of a request are copied one after the other.
unfoldable pub copy_pieces : DslConfig → ℕ → List (List ℕ) → Dsl → Dsl
copy_pieces c id [] s = s
copy_pieces c id (x ∷ xs) s = copy_pieces c id xs (copy_data_to_rx_buffer c id x s).state

abbrev pub concat : List (List ℕ) → List ℕ
concat [] = []
concat (x ∷ xs) = x ++ concat xs

module _ (p b id : ℕ) (done x : List ℕ) (s : Dsl) (r : Receiving p b id done s) where
  abbrev copied : Buffer
  copied = record (s.buffer b) {
    bytes = copy_to (s.buffer b).nof_bytes_handled x (s.buffer b).bytes;
    nof_bytes_handled = ((s.buffer b).nof_bytes_handled + length x) % 2 ^ 16;
  }

  handled_next :
      length done + length x ≤ (s.buffer b).size
      → ((s.buffer b).nof_bytes_handled + length x) % 2 ^ 16 ≡ length (done ++ x)
  handled_next h =
      ap (λ n. (n + length x) % 2 ^ 16) r.handled ∙ omega (arith, length-append done x, r.small)

  prefix_next :
      length done + length x ≤ (s.buffer b).size
      → take (length (done ++ x)) (copy_to (s.buffer b).nof_bytes_handled x (s.buffer b).bytes)
        ≡ done ++ x
  prefix_next h =
      ap (λ n. take (length (done ++ x)) (copy_to n x (s.buffer b).bytes)) r.handled
      ∙ (ap (λ n. take n (copy_to (length done) x (s.buffer b).bytes)) (length-append done x)
          ∙ (take-copy_to (length done) x (s.buffer b).bytes (omega (arith, r.room))
              ∙ ap (λ ys. ys ++ x) r.prefix))

  pub copied-Receiving :
      length done + length x ≤ (s.buffer b).size
      → Receiving p b id (done ++ x) (set_buffer b copied s)
  copied-Receiving h =
      let e : update s.buffer b copied b ≡ copied = update_self s.buffer b copied in
      record {
        provided = r.provided;
        locked = ap (λ v. v.rx_pdu_id) e ∙ r.locked;
        handled = ap (λ v. v.nof_bytes_handled) e ∙ handled_next h;
        prefix = ap (λ v. take (length (done ++ x)) v.bytes) e ∙ prefix_next h;
        room = omega (
          arith,
          ap (λ v. v.size) e,
          ap (λ v. length v.bytes) e,
          r.room,
          length-copy_to (s.buffer b).nof_bytes_handled x (s.buffer b).bytes,
        );
        small = omega (arith, ap (λ v. v.size) e, r.small);
      }

  no_pieces : x ≡ [] → Receiving p b id (done ++ x) s
  no_pieces e =
      subst (λ ys. Receiving p b id (done ++ ys) s) (sym e)
        (subst (λ ys. Receiving p b id ys s) (sym (append_nil done)) r)

-- A piece that fits is appended, the result is BUFREQ_OK, and nothing else of the protocol changes.
pub copy_to_external-Receiving :
    (p b id : ℕ) (done x : List ℕ) (s : Dsl) (r : Receiving p b id done s)
    → length done + length x ≤ (s.buffer b).size
    → Receiving p b id (done ++ x) (copy_to_external b x s).state
      × ((copy_to_external b x s).result ≡ bufreq_ok)
      × (((copy_to_external b x s).state.buffer b).size ≡ (s.buffer b).size)
      × ((copy_to_external b x s).state.runtime ≡ s.runtime)
unfolding copy_to_external
copy_to_external-Receiving p b id done [] s r h =
    (no_pieces p b id done [] s r refl, refl, refl, refl)
copy_to_external-Receiving p b id done (y ∷ ys) s r h =
    let room : leb (length (y ∷ ys)) ((s.buffer b).size - (s.buffer b).nof_bytes_handled) ≡ true =
      ground (arith, r.handled) in
    rw room (
      copied-Receiving p b id done (y ∷ ys) s r h,
      refl,
      ap (λ v. v.size) (update_self s.buffer b (copied p b id done (y ∷ ys) s r)),
      refl,
    )

module _ (c : DslConfig) (id b : ℕ) (rx : ProtocolRx) (found : find_rx c id ≡ some rx)
    (own : (c.row rx.main_connection.protocol).rx_buffer ≡ some b) where
  abbrev p : ℕ
  p = rx.main_connection.protocol

  pub held :
      (done : List ℕ) (s : Dsl) → Receiving p b id done s → holds_external p id (some b) s ≡ true
  held done s r =
      let q : is_provided_to_pdur (s.runtime p).external_rx_buffer_status ≡ true =
        ap is_provided_to_pdur r.provided in
      rw q ((==_iff _ _).1 r.locked)

  copy_data-eq :
      (done x : List ℕ) (s : Dsl)
      → Receiving p b id done s
      → copy_data_to_rx_buffer c id x s ≡ copy_to_external b x s
  unfolding copy_data_to_rx_buffer
  copy_data-eq done x s r =
      let q : holds_external p id (some b) s ≡ true = held done s r in rw (found, own, q)

  -- The pieces of a request that fits are appended one after the other.
  pub copy_pieces-Receiving :
      (xs : List (List ℕ)) (done : List ℕ) (s : Dsl)
      → Receiving p b id done s
      → length done + length (concat xs) ≤ (s.buffer b).size
      → Receiving p b id (done ++ concat xs) (copy_pieces c id xs s)
        × ((copy_pieces c id xs s).runtime ≡ s.runtime)
  unfolding copy_pieces
  copy_pieces-Receiving [] done s r h = (no_pieces p b id done [] s r refl, refl)
  copy_pieces-Receiving (x ∷ xs) done s r h =
      let one =
        copy_to_external-Receiving p b id done x s r (omega (arith, length-append x (concat xs))) in
      let all =
        copy_pieces-Receiving xs (done ++ x) (copy_to_external b x s).state one.0
          (omega (arith, one.2, length-append x (concat xs), length-append done x)) in
      subst
        (λ q.
          Receiving p b id (done ++ concat (x ∷ xs)) (copy_pieces c id xs q.state)
          × ((copy_pieces c id xs q.state).runtime ≡ s.runtime))
        (sym (copy_data-eq done x s r))
        (
          subst (λ ys. Receiving p b id ys (copy_pieces c id xs (copy_to_external b x s).state))
              (append_assoc done x (concat xs)) all.0,
          all.1 ∙ one.3,
        )

  -- The start of a reception that is granted leaves an empty request.
  pub start_of_reception-Receiving :
      (n : ℕ) (s : Dsl)
      → (s.runtime p).external_rx_buffer_status ≡ not_in_use
      → (s.buffer b).status ≡ buffer_available
      → n ≤ (s.buffer b).size
      → (s.buffer b).size ≤ length (s.buffer b).bytes
      → (s.buffer b).size < 2 ^ 16
      → Receiving p b id [] (start_of_reception c id n false s).state
        × (((start_of_reception c id n false s).state.buffer b).size ≡ (s.buffer b).size)
        × ((start_of_reception c id n false s).result ≡ bufreq_ok)
        × (((start_of_reception c id n false s).state.runtime p).request_length ≡ n)
        × (((start_of_reception c id n false s).state.runtime p).protocol_started
            ≡ (s.runtime p).protocol_started)
  unfolding start_of_reception choose_buffer grab_external
  start_of_reception-Receiving n s idle free fit room small =
      let t : leb n (s.buffer b).size ≡ true = ground arith in
      rw (found, own)
        (rw t (
          rw (idle, free)
            (
              record {
                provided = ground arith;
                locked = ground arith;
                handled = ground arith;
                prefix = refl;
                room = ground arith;
                small = ground arith;
              },
              ground arith,
              refl,
              ground arith,
              ground arith,
            )))
