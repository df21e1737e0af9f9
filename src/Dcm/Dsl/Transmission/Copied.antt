-- ===== src/Dcm/Dsl/Transmission/Copied.antt =====
-- A response that the transport layer fetches in pieces, DslCopyTxData of core/dcm/src/Dcm_Dsl.c.
use plug_and_play_autosar.Common.{
  ℕ, zero, suc, ◌+◌, ◌-◌, ◌≤◌, ◌<◌, ◌^◌, ◌%◌, ◌≡◌, refl, sym, ap, ◌∙◌, false, some, List, [], ◌∷◌,
  ◌++◌, take, drop, drop-drop, take-append-take, ltb, ◌==◌, arith,
}
use plug_and_play_autosar.Dcm.Dsl.{
  provided_to_pdur, dcm_transmit_signaled, DslConfig, Dsl, find_tx, update_self,
}
use plug_and_play_autosar.Dcm.Dsl.Transmission.{
  copy_tx_data, copy_external_tx, open_external, copy_external_in,
}

-- The transport layer asks for so many bytes, one time after the other.
unfoldable pub fetch : DslConfig → ℕ → List ℕ → Dsl → List ℕ
fetch c id [] s = []
fetch c id (k ∷ ks) s =
    (copy_tx_data c id k s).copied ++ fetch c id ks (copy_tx_data c id k s).state

abbrev pub sum : List ℕ → ℕ
sum [] = 0
sum (k ∷ ks) = k + sum ks

-- `sent` bytes of a response of `n` bytes, which stands in `bytes`, are given away.
record Sending (c : DslConfig) (p sent n : ℕ) (bytes : List ℕ) (s : Dsl) : Type 0 where
  provided : (s.runtime p).external_tx_buffer_status ≡ provided_to_pdur
  handled : (s.buffer (c.row p).tx_buffer).nof_bytes_handled ≡ sent
  contents : (s.buffer (c.row p).tx_buffer).bytes ≡ bytes
  whole : (s.runtime p).response_length ≡ n

module _ (c : DslConfig) (p sent n : ℕ) (bytes : List ℕ) (s : Dsl)
    (r : Sending c p sent n bytes s) where
  abbrev b : ℕ
  b = (c.row p).tx_buffer

  copy_external_tx-Sending :
      (k : ℕ)
      → sent + k ≤ n
      → n < 2 ^ 16
      → Sending c p (sent + k) n bytes (copy_external_tx c p k s).state
        × ((copy_external_tx c p k s).copied ≡ take k (drop sent bytes))
  unfolding copy_external_tx
  copy_external_tx-Sending zero fit small = (
    record {
      provided = r.provided;
      handled = omega (arith, r.handled);
      contents = r.contents;
      whole = r.whole;
    },
    refl,
  )
  copy_external_tx-Sending (suc k) fit small =
      let enough : ltb ((s.runtime p).response_length - (s.buffer b).nof_bytes_handled) (suc k)
          ≡ false =
        ground (arith, r.handled, r.whole) in
      let e = update_self s.buffer b (record (s.buffer b) {
        nof_bytes_handled = ((s.buffer b).nof_bytes_handled + suc k) % 2 ^ 16;
      }) in
      let some_bytes : (suc k == 0) ≡ false = ground arith in
      rw (some_bytes, enough)
        (
          record {
            provided = r.provided;
            handled = ap (λ v. v.nof_bytes_handled) e ∙ omega (arith, r.handled);
            contents = ap (λ v. v.bytes) e ∙ r.contents;
            whole = r.whole;
          },
          ap (λ i. take (suc k) (drop i (s.buffer b).bytes)) r.handled
              ∙ ap (λ ys. take (suc k) (drop sent ys)) r.contents,
        )

module _ (c : DslConfig) (id p n : ℕ) (bytes : List ℕ) (found : find_tx c id ≡ some p)
    (small : n < 2 ^ 16) where
  copy_tx_data-provided :
      (sent k : ℕ) (s : Dsl)
      → Sending c p sent n bytes s
      → copy_tx_data c id k s ≡ copy_external_tx c p k s
  unfolding copy_tx_data
  copy_tx_data-provided sent k s r = rw found (ap (λ st. copy_external_in c st p k s) r.provided)

  fetch-Sending :
      (ks : List ℕ) (sent : ℕ) (s : Dsl)
      → Sending c p sent n bytes s
      → sent + sum ks ≤ n
      → fetch c id ks s ≡ take (sum ks) (drop sent bytes)
  unfolding fetch
  fetch-Sending [] sent s r h = refl
  fetch-Sending (k ∷ ks) sent s r h =
      let one = copy_external_tx-Sending c p sent n bytes s r k (omega arith) small in
      let rest = fetch-Sending ks (sent + k) (copy_external_tx c p k s).state one.0 (omega arith) in
      ap (λ q. q.copied ++ fetch c id ks q.state) (copy_tx_data-provided sent k s r)
      ∙ (ap (λ ys. ys ++ fetch c id ks (copy_external_tx c p k s).state) one.1
          ∙ (ap (λ ys. take k (drop sent bytes) ++ ys) rest
              ∙ (ap (λ ys. take k (drop sent bytes) ++ take (sum ks) ys)
                    (sym (drop-drop sent k bytes))
                  ∙ take-append-take k (sum ks) (drop sent bytes))))

  open_external-Sending :
      (s : Dsl)
      → (s.buffer (c.row p).tx_buffer).bytes ≡ bytes
      → (s.runtime p).response_length ≡ n
      → Sending c p 0 n bytes (open_external c p s)
  open_external-Sending s e l = record {
    provided = ground arith;
    handled = ground arith;
    contents = ground arith;
    whole = ground arith;
  }

  copy_tx_data-signaled :
      (k : ℕ) (s : Dsl)
      → (s.runtime p).external_tx_buffer_status ≡ dcm_transmit_signaled
      → copy_tx_data c id k s ≡ copy_external_tx c p k (open_external c p s)
  unfolding copy_tx_data
  copy_tx_data-signaled k s e = rw found (ap (λ st. copy_external_in c st p k s) e)

-- A response whose transmission is signaled is fetched as it stands in the transmit buffer: whatever
-- numbers of bytes are asked for, one after the other, they are given the first bytes of the response
-- in order, as long as they ask for no more than its length.
pub fetch-response :
    (c : DslConfig) (id p : ℕ) (ks : List ℕ) (s : Dsl)
    → find_tx c id ≡ some p
    → (s.runtime p).external_tx_buffer_status ≡ dcm_transmit_signaled
    → (s.runtime p).response_length < 2 ^ 16
    → sum ks ≤ (s.runtime p).response_length
    → fetch c id ks s ≡ take (sum ks) (s.buffer (c.row p).tx_buffer).bytes
unfolding fetch
fetch-response c id p [] s found signaled small h = refl
fetch-response c id p (k ∷ ks) s found signaled small h =
    let bytes = (s.buffer (c.row p).tx_buffer).bytes in
    let n = (s.runtime p).response_length in
    let s1 = open_external c p s in
    let r = open_external-Sending c id p n bytes found small s refl refl in
    ap (λ q. q.copied ++ fetch c id ks q.state)
      (copy_tx_data-signaled c id p n bytes found small k s signaled
        ∙ sym (copy_tx_data-provided c id p n bytes found small 0 k s1 r))
    ∙ fetch-Sending c id p n bytes found small (k ∷ ks) 0 s1 r (omega arith)
