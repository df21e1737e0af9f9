-- ===== src/Dcm/Dsp/Periodic/Table.antt =====
-- The table of periodic identifiers as a multiset, and what keeps it well formed,
-- core/dcm/src/Dcm_Dsp.c.
use plug_and_play_autosar.Common.{
  ℕ, zero, suc, ◌+◌, ◌-◌, ◌≤◌, ◌<◌, ◌≡◌, ◌⊎◌, refl, sym, ap, ◌∙◌, subst, Bool, true, false, ◌&&◌,
  none, some, List, [], ◌∷◌, ◌==◌, if◌then◌else◌, get_or, length, take, set, length-set, Bool-cases,
  Option-cases, inl, inr, length-take, arith,
}
use plug_and_play_autosar.Dcm.Dsp.Periodic.{
  PeriodicDid, cleared, PeriodicTable, is_entry, check_periodic_identifier_buffer, remove_at,
  pdid_remove,
}

abbrev pub one_if : Bool → ℕ
one_if b = if b then 1 else 0

-- How many entries are for an identifier and a receive PDU.
unfoldable pub count : ℕ → ℕ → List PeriodicDid → ℕ
count did rx_id [] = 0
count did rx_id (d ∷ ds) = one_if (is_entry did rx_id d) + count did rx_id ds

count_take_last :
    (did rx_id m : ℕ) (ds : List PeriodicDid)
    → suc m ≡ length ds
    → count did rx_id (take m ds) + one_if (is_entry did rx_id (get_or ds m cleared))
      ≡ count did rx_id ds
unfolding count
count_take_last did rx_id m [] h = ground (arith, h)
count_take_last did rx_id zero (d ∷ []) h = omega arith
count_take_last did rx_id zero (d ∷ e ∷ ds) h = ground (arith, h)
count_take_last did rx_id (suc m) (d ∷ ds) h =
    omega (arith, count_take_last did rx_id m ds (omega (arith, h)))

-- To put the last entry in the place of another takes that one away.
count_swap :
    (did rx_id m pos : ℕ) (ds : List PeriodicDid)
    → suc m ≡ length ds
    → pos < length ds
    → count did rx_id (take m (set ds pos (get_or ds m cleared)))
        + one_if (is_entry did rx_id (get_or ds pos cleared))
      ≡ count did rx_id ds
unfolding count
count_swap did rx_id m pos [] h p = ground (arith, h)
count_swap did rx_id zero zero (d ∷ []) h p = omega arith
count_swap did rx_id zero zero (d ∷ e ∷ ds) h p = ground (arith, h)
count_swap did rx_id zero (suc pos) (d ∷ ds) h p = ground (arith, h, p)
count_swap did rx_id (suc m) zero (d ∷ ds) h p =
    omega (arith, count_take_last did rx_id m ds (omega (arith, h)))
count_swap did rx_id (suc m) (suc pos) (d ∷ ds) h p =
    omega (arith, count_swap did rx_id m pos ds (omega (arith, h)) (omega (arith, p)))

-- What the search finds.
pub search_some :
    (did rx_id i j : ℕ) (ds : List PeriodicDid)
    → check_periodic_identifier_buffer did rx_id ds i ≡ some j
    → (p : ℕ) × ((j ≡ i + p)
        × ((p < length ds) × (is_entry did rx_id (get_or ds p cleared) ≡ true)))
unfolding check_periodic_identifier_buffer
search_some did rx_id i j [] e = cc
search_some did rx_id i j (d ∷ ds) e = elim (Bool-cases (is_entry did rx_id d)) [
  | inl y ↦ let same : i ≡ j = cc (rw y at e) in (0, (omega (arith, same), (omega arith, y)))
  | inr n ↦
      let (p, (at, (small, is))) = search_some did rx_id (suc i) j ds (rw n at e) in
      (suc p, (omega (arith, at), (omega (arith, small), is)))
]

pub search_none :
    (did rx_id i : ℕ) (ds : List PeriodicDid)
    → check_periodic_identifier_buffer did rx_id ds i ≡ none
    → count did rx_id ds ≡ 0
unfolding check_periodic_identifier_buffer count
search_none did rx_id i [] e = refl
search_none did rx_id i (d ∷ ds) e = elim (Bool-cases (is_entry did rx_id d)) [
  | inl y ↦ cc (rw y at e)
  | inr n ↦ rw n (omega (arith, search_none did rx_id (suc i) ds (rw n at e)))
]

abbrev pub OtherKey : ℕ → ℕ → ℕ → ℕ → Type 0
OtherKey did rx_id d r = (d == did && r == rx_id) ≡ false

-- An entry is for one identifier and one receive PDU only.
is_entry_other :
    (did rx_id d r : ℕ) (e : PeriodicDid)
    → OtherKey did rx_id d r
    → is_entry did rx_id e ≡ true
    → is_entry d r e ≡ false
is_entry_other did rx_id d r e o h = ground (arith, o, h)

-- The table after an entry for the identifier has been removed, if there is one.
pub record Removed (did rx_id : ℕ) (t u : PeriodicTable) : Type 0 where
  pub gone : count did rx_id u.dids ≡ count did rx_id t.dids - 1
  pub others_stay : (d r : ℕ) → OtherKey did rx_id d r → count d r u.dids ≡ count d r t.dids
  pub shorter : length u.dids ≤ length t.dids
  pub index : (u.next_start_index < length u.dids) ⊎ (u.next_start_index ≡ 0)

remove_at-Removed :
    (did rx_id : ℕ) (t : PeriodicTable) (p : ℕ)
    → p < length t.dids
    → is_entry did rx_id (get_or t.dids p cleared) ≡ true
    → Removed did rx_id t (remove_at (some p) t)
remove_at-Removed did rx_id t p small is =
    let n = length t.dids - 1 in
    let last : suc n ≡ length t.dids = omega (arith, small) in
    let swapped = set t.dids p (get_or t.dids n cleared) in
    let long : length (take n swapped) ≡ n =
      length-take n swapped (omega (arith, length-set t.dids p (get_or t.dids n cleared))) in
    record {
      gone = ground (arith, count_swap did rx_id n p t.dids last small, is);
      others_stay = λ d r o. ground (
        arith,
        count_swap d r n p t.dids last small,
        is_entry_other did rx_id d r (get_or t.dids p cleared) o is,
      );
      shorter = ground (arith, long);
      index = ground (arith, long);
    }

pub pdid_remove-Removed :
    (did rx_id : ℕ) (t : PeriodicTable)
    → (t.next_start_index < length t.dids) ⊎ (t.next_start_index ≡ 0)
    → Removed did rx_id t (pdid_remove did rx_id t)
unfolding pdid_remove
pdid_remove-Removed did rx_id t h =
    elim (Option-cases (check_periodic_identifier_buffer did rx_id t.dids 0)) [
      | inl missing ↦ rw missing (record {
        gone = omega (arith, search_none did rx_id 0 t.dids missing);
        others_stay = λ d r o. refl;
        shorter = omega arith;
        index = h;
      })
      | inr (j, found) ↦
          let (p, (at, (small, is))) = search_some did rx_id 0 j t.dids found in
          let same : p ≡ j = omega (arith, at) in
          subst (λ o. Removed did rx_id t (remove_at o t)) (ap some same ∙ sym found)
            (remove_at-Removed did rx_id t p small is)
    ]
