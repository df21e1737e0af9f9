-- ===== src/Dem/Memory/Rearrange.antt =====
-- rearrangeEventTimeStamp of dem/src/impl/Dem_Private_impl.c sorts the entries of both buffers by
-- their time stamps and numbers them anew.
use plug_and_play_autosar.Common.{
  ℕ, zero, suc, ◌+◌, ◌≤◌, ◌≡◌, ◌∙◌, ap, refl, sym, inl, inr, subst, Bool, true, false, not, ◌&&◌,
  List, [], ◌∷◌, if◌then◌else◌, ltb, ◌==◌, length, All, All-weaken, Bool-cases, arith,
}
use mathlib.Core.List.{Permᴰ}
use plug_and_play_autosar.Dem.Types.{EventRec}
use plug_and_play_autosar.Dem.State.{Dem}
use plug_and_play_autosar.Dem.Memory.{exchange, rearrange_entries, rearrange_event_time_stamp}

-- Entries with an id have a time stamp that is at least `t`.
abbrev NotBefore : ℕ → EventRec → Type 0
NotBefore t y = (y.event_id == 0) ≡ false → t ≤ y.time_stamp

-- The entries with an id stand in the order of their time stamps.
abbrev pub IsSorted : List EventRec → Type 0
IsSorted [] = Unit
IsSorted (x ∷ es) = ((x.event_id == 0) ≡ false → All (NotBefore x.time_stamp) es) × IsSorted es

-- The entries with an id get the numbers from `k` on, in their order; the next number is returned.
abbrev pub number : List EventRec → ℕ → List EventRec × ℕ
number [] k = ([], k)
number (x ∷ es) k =
    if x.event_id == 0
    then (x ∷ (number es k).0, (number es k).1)
    else (record x { time_stamp = k } ∷ (number es (suc k)).0, (number es (suc k)).1)

All-perm :
    (t : ℕ) {xs ys : List EventRec} → Permᴰ xs ys → All (NotBefore t) ys → All (NotBefore t) xs
All-perm t Permᴰ.nil h = h
All-perm t (Permᴰ.cons e p) (h, hs) = (subst (NotBefore t) (sym e) h, All-perm t p hs)
All-perm t (Permᴰ.swap e f) (h, (k, hs)) =
    (subst (NotBefore t) (sym e) k, (subst (NotBefore t) (sym f) h, hs))
All-perm t (Permᴰ.trans p q) h = All-perm t p (All-perm t q h)

length_perm : {xs ys : List EventRec} → Permᴰ xs ys → length xs ≡ length ys
length_perm Permᴰ.nil = refl
length_perm (Permᴰ.cons e p) = ap suc (length_perm p)
length_perm (Permᴰ.swap e f) = refl
length_perm (Permᴰ.trans p q) = length_perm p ∙ length_perm q

-- What the inner loop leaves: the oldest entry with an id at the position, the others behind it.
record Exchanged (x : EventRec) (es : List EventRec) (r : EventRec × List EventRec) : Type 0 where
  used : (r.0.event_id == 0) ≡ false
  perm : Permᴰ (r.0 ∷ r.1) (x ∷ es)
  oldest : All (NotBefore r.0.time_stamp) r.1

exchange_step :
    (b : Bool) (x y x1 : EventRec) (ys ys1 : List EventRec)
    → (not (y.event_id == 0) && ltb y.time_stamp x1.time_stamp) ≡ b
    → Exchanged x ys (x1, ys1)
    → Exchanged x (y ∷ ys) (if b then (y, x1 ∷ ys1) else (x1, y ∷ ys1))
exchange_step true x y x1 ys ys1 h w = record {
  used = ground arith;
  perm = Permᴰ.trans (Permᴰ.cons refl w.perm) (Permᴰ.swap refl refl);
  oldest = (
    (λ u. ground arith),
    All-weaken (NotBefore x1.time_stamp) (NotBefore y.time_stamp)
        (λ z older u. ground (arith, older u)) ys1 w.oldest,
  );
}
exchange_step false x y x1 ys ys1 h w = record {
  used = w.used;
  perm =
      Permᴰ.trans (Permᴰ.swap refl refl)
        (Permᴰ.trans (Permᴰ.cons refl w.perm) (Permᴰ.swap refl refl));
  oldest = ((λ u. ground arith), w.oldest);
}

exchange_lem :
    (x : EventRec) (es : List EventRec) → (x.event_id == 0) ≡ false → Exchanged x es (exchange x es)
unfolding exchange
exchange_lem x [] u = record { used = u; perm = Permᴰ.cons refl Permᴰ.nil; oldest = tt }
exchange_lem x (y ∷ ys) u =
    let (x1, ys1) = exchange x ys in
    exchange_step (not (y.event_id == 0) && ltb y.time_stamp x1.time_stamp) x y x1 ys ys1 refl
      (exchange_lem x ys u)

-- A sorted rearrangement `order` of the entries `es`, of which `r` are the numbered ones.
pub record IsRearranged (es : List EventRec) (k : ℕ) (r : List EventRec × ℕ) : Type 0 where
  pub order : List EventRec
  pub perm : Permᴰ order es
  pub sorted : IsSorted order
  pub numbered : r ≡ number order k

skip_free :
    (x : EventRec) (es : List EventRec) (k : ℕ) (r : List EventRec × ℕ)
    → (x.event_id == 0) ≡ true
    → IsRearranged es k r
    → IsRearranged (x ∷ es) k (x ∷ r.0, r.1)
skip_free x es k r free w = record {
  order = x ∷ w.order;
  perm = Permᴰ.cons refl w.perm;
  sorted = ((λ u. absurd (ground arith)), w.sorted);
  numbered = rw free (ap (λ q. (x ∷ q.0, q.1)) w.numbered);
}

place_oldest :
    (x : EventRec) (es : List EventRec) (k : ℕ) (x1 : EventRec) (es1 : List EventRec)
    (r : List EventRec × ℕ)
    → Exchanged x es (x1, es1)
    → IsRearranged es1 (suc k) r
    → IsRearranged (x ∷ es) k (record x1 { time_stamp = k } ∷ r.0, r.1)
place_oldest x es k x1 es1 r e w = record {
  order = x1 ∷ w.order;
  perm = Permᴰ.trans (Permᴰ.cons refl w.perm) e.perm;
  sorted = ((λ u. All-perm x1.time_stamp w.perm e.oldest), w.sorted);
  numbered = rw e.used (ap (λ q. (record x1 { time_stamp = k } ∷ q.0, q.1)) w.numbered);
}

rearrange_entries-IsRearranged :
    (n : ℕ) (es : List EventRec) (k : ℕ)
    → n ≡ length es
    → IsRearranged es k (rearrange_entries n es k)
unfolding rearrange_entries
rearrange_entries-IsRearranged zero [] k h = record {
  order = [];
  perm = Permᴰ.nil;
  sorted = tt;
  numbered = refl;
}
rearrange_entries-IsRearranged zero (x ∷ es) k h = absurd (omega arith)
rearrange_entries-IsRearranged (suc n) [] k h = absurd (omega arith)
rearrange_entries-IsRearranged (suc n) (x ∷ es) k h = elim (Bool-cases (x.event_id == 0)) [
  | inl free ↦
      rw (free, rearrange_entries)
        (skip_free x es k (rearrange_entries n es k) free
          (rearrange_entries-IsRearranged n es k (omega arith)))
  | inr used ↦
      (let e = exchange_lem x es used in
        let (x1, es1) = exchange x es in
        rw (used, rearrange_entries)
          (place_oldest x es k x1 es1 (rearrange_entries n es1 (suc k)) e
            (rearrange_entries-IsRearranged n es1 (suc k) (omega (arith, length_perm e.perm)))))
]

number_bound : (es : List EventRec) (k : ℕ) → (number es k).1 ≤ k + length es
number_bound [] k = omega arith
number_bound (x ∷ es) k = ground (arith, number_bound es k, number_bound es (suc k))

IsRearranged-bound :
    {es : List EventRec} {k : ℕ} {r : List EventRec × ℕ} → IsRearranged es k r → r.1 ≤ k + length es
IsRearranged-bound {k = k} w = rw (w.numbered, sym (length_perm w.perm)) (number_bound w.order k)

-- rearrangeEventTimeStamp keeps the entries of both buffers up to their places and time stamps: in
-- each buffer, it is as if the entries with an id were put in the order of their time stamps and then
-- numbered, from 0 on in primary memory, and from there on in secondary memory. The next time stamp
-- follows the last number, and is at most the number of all entries.
pub rearrange_event_time_stamp_sorts :
    (d : Dem)
    → let d' = rearrange_event_time_stamp d in
      (k : ℕ) × IsRearranged d.primary.entries 0 (d'.primary.entries, k)
      × IsRearranged d.secondary.entries k (d'.secondary.entries, d'.event_time_stamp)
      × (d'.event_time_stamp ≤ length d.primary.entries + length d.secondary.entries)
unfolding rearrange_event_time_stamp
rearrange_event_time_stamp_sorts d =
    let first =
      rearrange_entries-IsRearranged (length d.primary.entries) d.primary.entries 0 refl in
    let k = (rearrange_entries (length d.primary.entries) d.primary.entries 0).1 in
    let second =
      rearrange_entries-IsRearranged (length d.secondary.entries) d.secondary.entries k refl in
    (k, first, second, omega (arith, IsRearranged-bound first, IsRearranged-bound second))
