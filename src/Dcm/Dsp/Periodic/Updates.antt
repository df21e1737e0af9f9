-- ===== src/Dcm/Dsp/Periodic/Updates.antt =====
-- What the requests of a tester do to the table of periodic identifiers, core/dcm/src/Dcm_Dsp.c.
use plug_and_play_autosar.Common.{
  ℕ, zero, suc, ◌+◌, ◌-◌, ◌≤◌, ◌<◌, ◌≡◌, ◌⊎◌, refl, sym, ap, ◌∙◌, subst, true, not, ◌&&◌, none,
  some, List, [], ◌∷◌, ◌++◌, ltb, ◌==◌, get_or, length, set, length-set, length-snoc, Bool-cases,
  Option-cases, if_ind, inl, inr, arith,
}
use plug_and_play_autosar.Dcm.Dsp.Periodic.{
  PeriodicDid, cleared, PeriodicTable, PdidEntryStatus, pdid_added, pdid_updated, pdid_buffer_full,
  is_entry, check_periodic_identifier_buffer, pdid_remove, add_or_update_at, pdid_add_or_update,
}
use plug_and_play_autosar.Dcm.Dsp.Periodic.Table.{
  count, one_if, search_some, search_none, pdid_remove-Removed,
}

-- A table within the limit that has an entry at most once, and a start inside it.
pub record IsTable (limit : ℕ) (t : PeriodicTable) : Type 0 where
  pub bounded : length t.dids ≤ limit
  pub single : (d r : ℕ) → count d r t.dids ≤ 1
  pub index : (t.next_start_index < length t.dids) ⊎ (t.next_start_index ≡ 0)

-- The multiset of the entries, less one for an identifier and a receive PDU.
abbrev pub Takes : ℕ → ℕ → PeriodicTable → PeriodicTable → Type 0
Takes did rx_id t u =
    (d r : ℕ) → count d r u.dids ≡ count d r t.dids - one_if (d == did && r == rx_id)

-- The multiset of the entries, with one more.
abbrev pub Puts : ℕ → ℕ → PeriodicTable → PeriodicTable → Type 0
Puts did rx_id t u =
    (d r : ℕ) → count d r u.dids ≡ count d r t.dids + one_if (d == did && r == rx_id)

abbrev pub SameEntries : PeriodicTable → PeriodicTable → Type 0
SameEntries t u = (d r : ℕ) → count d r u.dids ≡ count d r t.dids

count_key :
    (did rx_id d r : ℕ) (ds : List PeriodicDid)
    → (d == did && r == rx_id) ≡ true
    → count d r ds ≡ count did rx_id ds
count_key did rx_id d r ds y =
    let same_did : d ≡ did = ground (arith, y) in
    let same_rx : r ≡ rx_id = ground (arith, y) in
    ap (λ k. count k r ds) same_did ∙ ap (λ k. count did k ds) same_rx

-- To remove an identifier from a well-formed table leaves it well formed and takes away the entry for
-- that identifier and receive PDU, if there is one, and no other.
pub pdid_remove-Takes :
    (limit did rx_id : ℕ) (t : PeriodicTable)
    → IsTable limit t
    → IsTable limit (pdid_remove did rx_id t) × Takes did rx_id t (pdid_remove did rx_id t)
pdid_remove-Takes limit did rx_id t h =
    let q = pdid_remove-Removed did rx_id t h.index in
    let takes : Takes did rx_id t (pdid_remove did rx_id t) = λ d r.
      elim (Bool-cases (d == did && r == rx_id)) [
        | inl y ↦ ground (
          arith,
          y,
          q.gone,
          count_key did rx_id d r t.dids y,
          count_key did rx_id d r (pdid_remove did rx_id t).dids y,
        )
        | inr n ↦ rw n (omega (arith, q.others_stay d r n))
      ] in
    (
      record {
        bounded = omega (arith, q.shorter, h.bounded);
        single = λ d r. omega (arith, takes d r, h.single d r);
        index = q.index;
      },
      takes,
    )

count_snoc :
    (d r : ℕ) (ds : List PeriodicDid) (e : PeriodicDid)
    → count d r (ds ++ (e ∷ [])) ≡ count d r ds + one_if (is_entry d r e)
unfolding count
count_snoc d r [] e = omega arith
count_snoc d r (f ∷ ds) e = omega (arith, count_snoc d r ds e)

-- To change an entry but not what it is for changes no count.
pub count-set_same :
    (d r p : ℕ) (ds : List PeriodicDid) (e : PeriodicDid)
    → e.periodic_did ≡ (get_or ds p cleared).periodic_did
    → e.rx_pdu_id ≡ (get_or ds p cleared).rx_pdu_id
    → count d r (set ds p e) ≡ count d r ds
unfolding count
count-set_same d r p [] e h k = refl
count-set_same d r zero (f ∷ ds) e h k = ground (arith, h, k)
count-set_same d r (suc p) (f ∷ ds) e h k = omega (arith, count-set_same d r p ds e h k)

-- The answers of pdid_add_or_update with the table that each leaves: there is an entry, and at most
-- its period changes; there is none and room for one, which is put in; there is neither.
pub data Adds (limit did rx_id : ℕ) (t : PeriodicTable)
    : PeriodicTable × PdidEntryStatus → Type 0 where
  adds_period :
      {u : PeriodicTable}
      → 0 < count did rx_id t.dids
      → SameEntries t u
      → Adds limit did rx_id t (u, pdid_updated)
  adds_entry :
      {u : PeriodicTable}
      → count did rx_id t.dids ≡ 0
      → length t.dids < limit
      → Puts did rx_id t u
      → Adds limit did rx_id t (u, pdid_added)
  adds_none :
      count did rx_id t.dids ≡ 0
      → limit ≤ length t.dids
      → Adds limit did rx_id t (t, pdid_buffer_full)

count_found :
    (d r p : ℕ) (ds : List PeriodicDid)
    → p < length ds
    → is_entry d r (get_or ds p cleared) ≡ true
    → 0 < count d r ds
unfolding count
count_found d r p [] h is = ground (arith, h)
count_found d r zero (f ∷ ds) h is = ground (arith, is)
count_found d r (suc p) (f ∷ ds) h is = omega (arith, count_found d r p ds (omega (arith, h)) is)

-- What an addition leaves: the answer, and a table that is well formed.
abbrev pub AddsWell : ℕ → ℕ → ℕ → PeriodicTable → PeriodicTable × PdidEntryStatus → Type 0
AddsWell limit did rx_id t r = Adds limit did rx_id t r × IsTable limit r.0

pub IsTable-same :
    (limit : ℕ) (t u : PeriodicTable)
    → IsTable limit t
    → SameEntries t u
    → length u.dids ≡ length t.dids
    → u.next_start_index ≡ t.next_start_index
    → IsTable limit u
IsTable-same limit t u h same long next = record {
  bounded = omega (arith, long, h.bounded);
  single = λ d r. omega (arith, same d r, h.single d r);
  index = ground (arith, h.index, long, next);
}

update_at-AddsWell :
    (limit did rx_id period p : ℕ) (t : PeriodicTable)
    → IsTable limit t
    → p < length t.dids
    → is_entry did rx_id (get_or t.dids p cleared) ≡ true
    → AddsWell limit did rx_id t (add_or_update_at limit did rx_id period (some p) t)
update_at-AddsWell limit did rx_id period p t h small is =
    if_ind (λ (u : PeriodicTable). AddsWell limit did rx_id t (u, pdid_updated)) (not (period == 0))
      (λ _.
        let e = record (get_or t.dids p cleared) { tx_period = period; tx_counter = 0 } in
        let u = record t { dids = set t.dids p e } in
        let same : SameEntries t u = λ d r. count-set_same d r p t.dids e refl refl in
        (
          adds_period (count_found did rx_id p t.dids small is) same,
          IsTable-same limit t u h same (length-set t.dids p e) refl,
        ))
      (λ _. (adds_period (count_found did rx_id p t.dids small is) (λ d r. refl), h))

add_at-AddsWell :
    (limit did rx_id period : ℕ) (t : PeriodicTable)
    → IsTable limit t
    → count did rx_id t.dids ≡ 0
    → AddsWell limit did rx_id t (add_or_update_at limit did rx_id period none t)
add_at-AddsWell limit did rx_id period t h absent =
    if_ind (AddsWell limit did rx_id t) (ltb (length t.dids) limit)
      (λ y.
        let e : PeriodicDid = record {
          periodic_did = did;
          tx_counter = 0;
          tx_period = period;
          rx_pdu_id = rx_id;
        } in
        let u = record t { dids = t.dids ++ (e ∷ []) } in
        let puts : Puts did rx_id t u = λ d r. ground (arith, count_snoc d r t.dids e) in
        (
          adds_entry absent (ground (arith, y)) puts,
          record {
            bounded = ground (arith, length-snoc t.dids e, y);
            single = λ d r. elim (Bool-cases (d == did && r == rx_id)) [
              | inl y ↦ ground (arith, puts d r, y, count_key did rx_id d r t.dids y, absent)
              | inr n ↦ ground (arith, puts d r, n, h.single d r)
            ];
            index = ground (arith, length-snoc t.dids e, h.index);
          },
        ))
      (λ n. (adds_none absent (ground (arith, n)), h))

-- To add an identifier to a well-formed table, or to change its period, leaves the table well formed,
-- and the answer tells which: the identifier was there, and every entry is counted as before; it was
-- not there and the table not full, and there is one entry more, for it; or it was not there, the
-- table was full, and nothing changes.
pub pdid_add_or_update-Adds :
    (limit did rx_id period : ℕ) (t : PeriodicTable)
    → IsTable limit t
    → AddsWell limit did rx_id t (pdid_add_or_update limit did rx_id period t)
unfolding pdid_add_or_update
pdid_add_or_update-Adds limit did rx_id period t h =
    elim (Option-cases (check_periodic_identifier_buffer did rx_id t.dids 0)) [
      | inl missing ↦
          rw missing
            (add_at-AddsWell limit did rx_id period t h (search_none did rx_id 0 t.dids missing))
      | inr (j, found) ↦
          let (p, (at, (small, is))) = search_some did rx_id 0 j t.dids found in
          let same : p ≡ j = omega (arith, at) in
          subst (λ o. AddsWell limit did rx_id t (add_or_update_at limit did rx_id period o t))
            (ap some same ∙ sym found) (update_at-AddsWell limit did rx_id period p t h small is)
    ]
