-- ===== src/Dem/Memory/Displacement.antt =====
-- Which stored event getEventForDisplacement removes.
use plug_and_play_autosar.Common.{
  ℕ, ◌≤◌, ◌<◌, ◌≡◌, refl, sym, ◌∙◌, ◌⊎◌, inl, inr, Bool, true, false, not, ◌&&◌, ◌||◌, Option, none,
  some, List, [], ◌∷◌, ◌++◌, arith, ltb, leb, Bool-cases, if◌then◌else◌, length, get_elem?, All,
  All-weaken, All-snoc, get_elem?-snoc_old, get_elem?-snoc_new, length-snoc, snoc_++,
}
use mathlib.Core.List.{append-nil}
use plug_and_play_autosar.Dem.Types.{EventRec, EventParameter}
use plug_and_play_autosar.Dem.State.{Config, Dem}
use plug_and_play_autosar.Dem.Memory.{
  may_remove, get_event_priority, get_event_passive, Candidate, consider, search_candidate,
  no_candidate, chosen_event, get_event_for_displacement, max_timestamp_for_rearrangement,
}

module _ (c : Config) (d : Dem) (p : EventParameter) where
  -- An entry that may go for an event of at least its priority, being passive.
  abbrev pub is_passive_candidate : EventRec → Bool
  is_passive_candidate e =
      may_remove c d e
      && (leb p.event_class.event_priority (get_event_priority c e.event_id)
          && get_event_passive c d e.event_id)

  -- An entry that may go for an event of higher priority, whatever its state.
  abbrev pub is_active_candidate : EventRec → Bool
  is_active_candidate e =
      may_remove c d e && ltb p.event_class.event_priority (get_event_priority c e.event_id)

  -- `e` is the oldest of the entries that `test` holds of, the first one of these.
  pub record IsOldest (test : EventRec → Bool) (es : List EventRec) (e : EventRec) (i : ℕ)
      : Type 0 where
    pub at : get_elem? es i ≡ some e
    pub candidate : test e ≡ true
    pub in_time : e.time_stamp < max_timestamp_for_rearrangement
    pub oldest : All (λ f. test f ≡ true → e.time_stamp ≤ f.time_stamp) es

  -- No entry that `test` holds of has a time stamp below the maximum.
  abbrev pub HasNone : (EventRec → Bool) → List EventRec → Type 0
  HasNone test es = All (λ f. test f ≡ true → max_timestamp_for_rearrangement ≤ f.time_stamp) es

  -- The choice: the oldest passive candidate; else the oldest active one; else none.
  pub data Choice (es : List EventRec) : Option ℕ → Type 0 where
    passive_one :
        (e : EventRec) (i : ℕ) → IsOldest is_passive_candidate es e i → Choice es (some e.event_id)
    active_one :
        (e : EventRec) (i : ℕ)
        → HasNone is_passive_candidate es
        → IsOldest is_active_candidate es e i
        → Choice es (some e.event_id)
    no_one : HasNone is_passive_candidate es → HasNone is_active_candidate es → Choice es none

  -- What the locals say of the entries before the index, `es`.
  record Searched (es : List EventRec) (k : Candidate) : Type 0 where
    passive_max : k.oldest_passive_time_stamp ≤ max_timestamp_for_rearrangement
    active_max : k.oldest_active_time_stamp ≤ max_timestamp_for_rearrangement
    passive_bound :
        All (λ f. is_passive_candidate f ≡ true → k.oldest_passive_time_stamp ≤ f.time_stamp) es
    active_bound :
        k.passive_candidate_found ≡ false
        → All (λ f. is_active_candidate f ≡ true → k.oldest_active_time_stamp ≤ f.time_stamp) es
    passive_entry :
        k.passive_candidate_found ≡ true
        → (e : EventRec) × (get_elem? es k.remove_candidate_index ≡ some e)
          × (is_passive_candidate e ≡ true)
          × (e.time_stamp ≡ k.oldest_passive_time_stamp)
          × (e.time_stamp < max_timestamp_for_rearrangement)
    active_entry :
        k.passive_candidate_found ≡ false
        → k.active_candidate_found ≡ true
        → (e : EventRec) × (get_elem? es k.remove_candidate_index ≡ some e)
          × (is_active_candidate e ≡ true)
          × (e.time_stamp ≡ k.oldest_active_time_stamp)
          × (e.time_stamp < max_timestamp_for_rearrangement)
    not_passive :
        k.passive_candidate_found ≡ false
        → k.oldest_passive_time_stamp ≡ max_timestamp_for_rearrangement
    not_active :
        k.active_candidate_found ≡ false
        → k.oldest_active_time_stamp ≡ max_timestamp_for_rearrangement

-- A round of the loop, on the two tests of the entry and its time stamp.
abbrev passive_step : Bool → ℕ → ℕ → Candidate → Candidate
passive_step P t i k =
    if P && ltb t k.oldest_passive_time_stamp
    then record k {
      oldest_passive_time_stamp = t;
      remove_candidate_index = i;
      passive_candidate_found = true;
    }
    else k

abbrev active_step : Bool → ℕ → ℕ → Candidate → Candidate
active_step A t i k =
    if not k.passive_candidate_found && (A && ltb t k.oldest_active_time_stamp)
    then record k {
      oldest_active_time_stamp = t;
      remove_candidate_index = i;
      active_candidate_found = true;
    }
    else k

consider_lem :
    (c : Config) (d : Dem) (p : EventParameter) (e : EventRec) (i : ℕ) (k : Candidate)
    → consider c d p e i k
      ≡ active_step
          (is_active_candidate c d p e)
          e.time_stamp
          i
          (passive_step (is_passive_candidate c d p e) e.time_stamp i k)
unfolding consider
consider_lem c d p e i k = elim (Bool-cases (may_remove c d e)) [
  | inl z ↦ ground arith
  | inr z ↦ ground arith
]

-- How a round changes the locals.
record Round (P A : Bool) (t i : ℕ) (k k' : Candidate) : Type 0 where
  passive_down : k'.oldest_passive_time_stamp ≤ k.oldest_passive_time_stamp
  active_down : k'.oldest_active_time_stamp ≤ k.oldest_active_time_stamp
  passive_seen : P ≡ true → k'.oldest_passive_time_stamp ≤ t
  not_passive :
      k'.passive_candidate_found ≡ false
      → (k.passive_candidate_found ≡ false)
        × (k'.oldest_passive_time_stamp ≡ k.oldest_passive_time_stamp)
        × (A ≡ true → k'.oldest_active_time_stamp ≤ t)
  passive :
      k'.passive_candidate_found ≡ true
      → ((k.passive_candidate_found ≡ true)
          × (k'.remove_candidate_index ≡ k.remove_candidate_index)
          × (k'.oldest_passive_time_stamp ≡ k.oldest_passive_time_stamp))
        ⊎ ((P ≡ true)
            × (k'.remove_candidate_index ≡ i)
            × (k'.oldest_passive_time_stamp ≡ t)
            × (t < k.oldest_passive_time_stamp))
  active :
      k'.passive_candidate_found ≡ false
      → k'.active_candidate_found ≡ true
      → ((k.active_candidate_found ≡ true)
          × (k'.remove_candidate_index ≡ k.remove_candidate_index)
          × (k'.oldest_active_time_stamp ≡ k.oldest_active_time_stamp))
        ⊎ ((A ≡ true)
            × (k'.remove_candidate_index ≡ i)
            × (k'.oldest_active_time_stamp ≡ t)
            × (t < k.oldest_active_time_stamp))
  not_active :
      k'.active_candidate_found ≡ false
      → (k.active_candidate_found ≡ false)
        × (k'.oldest_active_time_stamp ≡ k.oldest_active_time_stamp)

step-Round :
    (P A : Bool) (t i : ℕ) (k : Candidate)
    → Round P A t i k (active_step A t i (passive_step P t i k))
step-Round P A t i k = record {
  passive_down = ground arith;
  active_down = ground arith;
  passive_seen = ground arith;
  not_passive = λ h. (ground arith, ground arith, ground arith);
  passive = λ h. ground arith;
  active = λ h g. ground arith;
  not_active = λ h. (ground arith, ground arith);
}

chosen_lem :
    (b : Bool) (es : List EventRec) (i : ℕ) (e : EventRec)
    → b ≡ true
    → get_elem? es i ≡ some e
    → chosen_event b es i ≡ some e.event_id
chosen_lem b es i e y at = rw (y, at, chosen_event)

unchosen_lem : (b : Bool) (es : List EventRec) (i : ℕ) → b ≡ false → chosen_event b es i ≡ none
unchosen_lem b es i y = rw (y, chosen_event)

module _ (c : Config) (d : Dem) (p : EventParameter) where
  bound_snoc :
      (test : EventRec → Bool) (es : List EventRec) (e : EventRec) (t t' : ℕ)
      → t' ≤ t
      → (test e ≡ true → t' ≤ e.time_stamp)
      → All (λ f. test f ≡ true → t ≤ f.time_stamp) es
      → All (λ f. test f ≡ true → t' ≤ f.time_stamp) (es ++ (e ∷ []))
  bound_snoc test es e t t' le h hs =
      All-snoc (λ f. test f ≡ true → t' ≤ f.time_stamp) es e
        (All-weaken (λ f. test f ≡ true → t ≤ f.time_stamp) (λ f. test f ≡ true → t' ≤ f.time_stamp)
          (λ f g q. omega (arith, g q)) es hs)
        h

  Round-Searched :
      (es : List EventRec) (e : EventRec) (k k' : Candidate)
      → Round
          (is_passive_candidate c d p e)
          (is_active_candidate c d p e)
          e.time_stamp
          (length es)
          k
          k'
      → Searched c d p es k
      → Searched c d p (es ++ (e ∷ [])) k'
  Round-Searched es e k k' r s = record {
    passive_max = omega (arith, r.passive_down, s.passive_max);
    active_max = omega (arith, r.active_down, s.active_max);
    passive_bound =
        bound_snoc (is_passive_candidate c d p) es e k.oldest_passive_time_stamp
          k'.oldest_passive_time_stamp r.passive_down r.passive_seen s.passive_bound;
    active_bound = λ h.
        (let (h', same, seen) = r.not_passive h in
          bound_snoc (is_active_candidate c d p) es e k.oldest_active_time_stamp
            k'.oldest_active_time_stamp r.active_down seen (s.active_bound h'));
    passive_entry = λ h. elim (r.passive h) [
      | inl (found, index, time) ↦
          (let (f, at, is, stamp, in_time) = s.passive_entry found in
            (
              f,
              rw index (get_elem?-snoc_old es e k.remove_candidate_index at),
              is,
              stamp ∙ sym time,
              in_time,
            ))
      | inr (is, index, time, before) ↦ (
        e,
        rw index (get_elem?-snoc_new es e),
        is,
        sym time,
        omega (arith, before, s.passive_max),
      )
    ];
    active_entry = λ h g. elim (r.active h g) [
      | inl (found, index, time) ↦
          (let (f, at, is, stamp, in_time) = s.active_entry (r.not_passive h).0 found in
            (
              f,
              rw index (get_elem?-snoc_old es e k.remove_candidate_index at),
              is,
              stamp ∙ sym time,
              in_time,
            ))
      | inr (is, index, time, before) ↦
          (e, rw index (get_elem?-snoc_new es e), is, sym time, omega (arith, before, s.active_max))
    ];
    not_passive = λ h. (let (h', same, seen) = r.not_passive h in same ∙ s.not_passive h');
    not_active = λ h. (let (h', same) = r.not_active h in same ∙ s.not_active h');
  }

  search_candidate-Searched :
      (before es : List EventRec) (k : Candidate)
      → Searched c d p before k
      → Searched c d p (before ++ es) (search_candidate c d p es (length before) k)
  unfolding search_candidate
  search_candidate-Searched before [] k s = rw (append-nil before) s
  search_candidate-Searched before (e ∷ es) k s =
      let k' = consider c d p e (length before) k in
      let r : Round (is_passive_candidate c d p e) (is_active_candidate c d p e) e.time_stamp
          (length before) k k' =
        rw (consider_lem c d p e (length before) k)
          (step-Round _ _ e.time_stamp (length before) k) in
      let rest =
        search_candidate-Searched (before ++ (e ∷ [])) es k' (Round-Searched before e k k' r s) in
      rw (snoc_++ before e es, length-snoc before e) at rest

  no_candidate-Searched : Searched c d p [] no_candidate
  no_candidate-Searched = record {
    passive_max = omega arith;
    active_max = omega arith;
    passive_bound = tt;
    active_bound = λ h. tt;
    passive_entry = λ h. ground arith;
    active_entry = λ g h. ground arith;
    not_passive = λ h. refl;
    not_active = λ h. refl;
  }

  found-Choice :
      (es : List EventRec) (k : Candidate)
      → Searched c d p es k
      → Choice c d p es (
          chosen_event
            (k.passive_candidate_found || k.active_candidate_found)
            es
            k.remove_candidate_index)
  found-Choice es k s = elim (Bool-cases k.passive_candidate_found) [
    | inl y ↦
        (let (e, at, is, stamp, in_time) = s.passive_entry y in
          rw
            (chosen_lem (k.passive_candidate_found || k.active_candidate_found) es
              k.remove_candidate_index e (ground (arith, y)) at)
            (passive_one e k.remove_candidate_index (record {
              at = at;
              candidate = is;
              in_time = in_time;
              oldest = rw stamp s.passive_bound;
            })))
    | inr n ↦ elim (Bool-cases k.active_candidate_found) [
      | inl y ↦
          (let (e, at, is, stamp, in_time) = s.active_entry n y in
            rw
              (chosen_lem (k.passive_candidate_found || k.active_candidate_found) es
                k.remove_candidate_index e (ground (arith, y)) at)
              (active_one e k.remove_candidate_index (rw (sym (s.not_passive n)) s.passive_bound)
                (record {
                  at = at;
                  candidate = is;
                  in_time = in_time;
                  oldest = rw stamp (s.active_bound n);
                })))
      | inr m ↦
          rw
            (unchosen_lem (k.passive_candidate_found || k.active_candidate_found) es
              k.remove_candidate_index (ground (arith, m, n)))
            (no_one (rw (sym (s.not_passive n)) s.passive_bound)
              (rw (sym (s.not_active m)) (s.active_bound n)))
    ]
  ]

  -- getEventForDisplacement removes the oldest passive event that may be removed and whose priority
  -- is not higher than that of the reported event. Where there is none, it removes the oldest event
  -- that may be removed and whose priority is lower. Otherwise it removes none. Only entries with a
  -- time stamp below the maximum count, and of equally old ones any may be chosen.
  pub get_event_for_displacement-Choice :
      (es : List EventRec) → Choice c d p es (get_event_for_displacement c d p es)
  unfolding get_event_for_displacement
  get_event_for_displacement-Choice es =
      found-Choice es (search_candidate c d p es 0 no_candidate)
        (search_candidate-Searched [] es no_candidate no_candidate-Searched)
