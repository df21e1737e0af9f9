-- ===== src/Dem/Filter/Reads.antt =====
-- Reading all DTCs that match a filter with Dem_GetNextFilteredDTC, dem/src/impl/Dem_Filter_impl.c.
use plug_and_play_autosar.Common.{
  ℕ, zero, suc, ◌+◌, ◌%◌, ◌^◌, ◌≡◌, ◌∙◌, ap, refl, sym, inl, inr, ◌<◌, true, Option, none, some,
  List, [], ◌∷◌, ◌++◌, map, length, drop, drop_next, drop_lt, Option-cases, Byte, arith,
}
use plug_and_play_autosar.Dem.Types.{DtcClass}
use plug_and_play_autosar.Dem.State.{Config, Dem}
use plug_and_play_autosar.Dem.Memory.{is_initialized}
use plug_and_play_autosar.Dem.Dtc.{single_dtc_on}
use plug_and_play_autosar.Dem.Filter.{
  Filter, passes_filter, match_dtc_with_dtc_filter, count_matches, dem_get_number_of_filtered_dtc,
  find_match, dem_get_next_filtered_dtc,
}

abbrev head_or : ℕ × Byte → List (ℕ × Byte) → ℕ × Byte
head_or x [] = x
head_or x (y ∷ ys) = y

abbrev tail : List (ℕ × Byte) → List (ℕ × Byte)
tail [] = []
tail (y ∷ ys) = ys

module _ (c : Config) (d : Dem) where
  abbrev prepend : Filter → DtcClass → Option Byte → List (ℕ × Byte) → List (ℕ × Byte)
  prepend f k none xs = xs
  prepend f k (some s) xs = (single_dtc_on f.dtc_format k.dtc_ref, s) ∷ xs

  -- The DTCs of the table that match the filter, in its order, with their status.
  abbrev pub filtered : Filter → List DtcClass → List (ℕ × Byte)
  filtered f [] = []
  filtered f (k ∷ ks) = prepend f k (match_dtc_with_dtc_filter c d f k) (filtered f ks)

  -- `n` calls of Dem_GetNextFilteredDTC in a row, with what they give.
  abbrev pub read_filtered : List DtcClass → ℕ → Filter → List (Option (ℕ × Byte)) × Filter
  read_filtered table zero f = ([], f)
  read_filtered table (suc n) f =
      let (found, f1) = dem_get_next_filtered_dtc c table d f in
      let (rest, f2) = read_filtered table n f1 in (found ∷ rest, f2)

  count_matches_lem :
      (f : Filter) (ks : List DtcClass) (n : ℕ)
      → n + length ks < 2 ^ 16
      → count_matches c d f ks n ≡ n + length (filtered f ks)
  unfolding count_matches
  count_matches_lem f [] n h = omega arith
  count_matches_lem f (k ∷ ks) n h = elim (Option-cases (match_dtc_with_dtc_filter c d f k)) [
    | inl z ↦ rw (z, count_matches) (count_matches_lem f ks n (omega arith))
    | inr (s, z) ↦
        (let e : (n + 1) % 2 ^ 16 ≡ suc n = omega arith in
          rw (z, count_matches, e) (count_matches_lem f ks (suc n) (omega arith) ∙ omega arith))
  ]

  find_none :
      (f : Filter) (ks : List DtcClass) (i : ℕ)
      → filtered f ks ≡ []
      → find_match c d f ks i ≡ (none, 0)
  unfolding find_match
  find_none f [] i e = refl
  find_none f (k ∷ ks) i e = elim (Option-cases (match_dtc_with_dtc_filter c d f k)) [
    | inl z ↦
        rw (z, find_match)
          (find_none f ks ((i + 1) % 2 ^ 16) (sym (ap (λ m. prepend f k m (filtered f ks)) z) ∙ e))
    | inr (s, z) ↦ absurd (ground (arith, sym (ap (λ m. prepend f k m (filtered f ks)) z) ∙ e))
  ]

  module _ (table : List DtcClass) (fits : length table < 2 ^ 16) where
    find_some :
        (f : Filter) (ks : List DtcClass) (i : ℕ) {x : ℕ × Byte} {xs : List (ℕ × Byte)}
        → drop i table ≡ ks
        → filtered f ks ≡ x ∷ xs
        → (j : ℕ) × (find_match c d f ks i ≡ (some x, j)) × (filtered f (drop j table) ≡ xs)
    unfolding find_match
    find_some f [] i {x = x} {xs = xs} at e = absurd (ground arith)
    find_some f (k ∷ ks) i {x = x} {xs = xs} at e =
        let next : (i + 1) % 2 ^ 16 ≡ suc i = omega (arith, drop_lt i table at) in
        elim (Option-cases (match_dtc_with_dtc_filter c d f k)) [
          | inl z ↦
              rw (z, find_match, next)
                (find_some f ks (suc i) (drop_next i table at)
                  (sym (ap (λ m. prepend f k m (filtered f ks)) z) ∙ e))
          | inr (s, z) ↦
              (let both = sym (ap (λ m. prepend f k m (filtered f ks)) z) ∙ e in
                (
                  suc i,
                  rw (z, find_match, next) (ap (λ y. (some y, suc i)) (ap (head_or x) both)),
                  ap (filtered f) (drop_next i table at) ∙ ap tail both,
                ))
        ]

    filtered_index :
        (f : Filter) (i : ℕ) (ks : List DtcClass)
        → filtered (record f { dtc_index = i }) ks ≡ filtered f ks
    unfolding match_dtc_with_dtc_filter passes_filter
    filtered_index f i [] = refl
    filtered_index f i (k ∷ ks) =
        ap (prepend f k (match_dtc_with_dtc_filter c d f k)) (filtered_index f i ks)

    next_filtered :
        (f : Filter) {r : Option (ℕ × Byte)} {j : ℕ}
        → is_initialized d.dem_state ≡ true
        → find_match c d f (drop f.dtc_index table) f.dtc_index ≡ (r, j)
        → dem_get_next_filtered_dtc c table d f ≡ (r, record f { dtc_index = j })
    unfolding dem_get_next_filtered_dtc
    next_filtered f y e =
        rw (y, dem_get_next_filtered_dtc) (ap (λ p. (p.0, record f { dtc_index = p.1 })) e)

    read_next :
        (n : ℕ) (f : Filter) {r : Option (ℕ × Byte)} {f1 : Filter} {rs : List (Option (ℕ × Byte))}
        {f2 : Filter}
        → dem_get_next_filtered_dtc c table d f ≡ (r, f1)
        → read_filtered table n f1 ≡ (rs, f2)
        → read_filtered table (suc n) f ≡ (r ∷ rs, f2)
    read_next n f {r = r} first rest =
        ap (λ p. (p.0 ∷ (read_filtered table n p.1).0, (read_filtered table n p.1).1)) first
        ∙ ap (λ q. (r ∷ q.0, q.1)) rest

    read_from :
        (xs : List (ℕ × Byte)) (f : Filter)
        → is_initialized d.dem_state ≡ true
        → filtered f (drop f.dtc_index table) ≡ xs
        → read_filtered table (suc (length xs)) f
          ≡ (map (λ x. some x) xs ++ (none ∷ []), record f { dtc_index = 0 })
    read_from [] f y e =
        read_next 0 f (next_filtered f y (find_none f (drop f.dtc_index table) f.dtc_index e)) refl
    read_from (x ∷ xs) f y e =
        let (j, found, rest) = find_some f (drop f.dtc_index table) f.dtc_index refl e in
        read_next (suc (length xs)) f (next_filtered f y found)
          (read_from xs (record f { dtc_index = j }) y (filtered_index f j (drop j table) ∙ rest))

    -- After a filter is set, Dem_GetNumberOfFilteredDtc gives the number of the DTCs that match it, and
    -- that many calls of Dem_GetNextFilteredDTC give these DTCs in the order of the table, each once
    -- and with its status. The next call finds no more and leaves the filter as it was set. The event
    -- manager is initialized, its state does not change in between, and the table has less than 2^16
    -- DTCs.
    pub filtered_dtcs_read :
        (f : Filter)
        → is_initialized d.dem_state ≡ true
        → f.dtc_index ≡ 0
        → let xs = filtered f table in
          (dem_get_number_of_filtered_dtc c table d f ≡ some (length xs))
          × (read_filtered table (suc (length xs)) f
              ≡ (map (λ x. some x) xs ++ (none ∷ []), record f { dtc_index = 0 }))
    unfolding dem_get_number_of_filtered_dtc
    filtered_dtcs_read f y z = (
      rw (y, dem_get_number_of_filtered_dtc)
          (ap some (count_matches_lem f table 0 (omega arith) ∙ omega arith)),
      read_from (filtered f table) f y (ap (λ i. filtered f (drop i table)) z),
    )
