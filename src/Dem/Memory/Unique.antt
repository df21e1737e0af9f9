-- ===== src/Dem/Memory/Unique.antt =====
-- Storing, deleting and time stamps never give an event two entries in a memory.
use plug_and_play_autosar.Common.{
  ℕ, zero, suc, ◌≤◌, ◌<◌, ◌≡◌, ◌≢◌, inl, inr, ◌∙◌, ap, refl, sym, ap₂, Bool, false, some, List, [],
  ◌∷◌, if◌then◌else◌, ◌==◌, Bool-cases, arith,
}
use mathlib.Core.List.{Permᴰ}
use plug_and_play_autosar.Dem.Types.{
  EventRec, EventStatusRec, EventParameter, Origin, primary_memory, secondary_memory,
}
use plug_and_play_autosar.Dem.State.{Config, Dem, entries_of, with_entries}
use plug_and_play_autosar.Dem.Memory.{set_event_time_stamp, rearrange_event_time_stamp}
use plug_and_play_autosar.Dem.Memory.{
  store_in, store_event_evt_mem, delete_event_mem, find_entry, empty_entry,
}
use plug_and_play_autosar.Dem.Memory.Store.{
  Stores, SameEntries, store_event_mem-Stores, set_event_block_changed_same, empty-IsUnique,
  entries_of-with_entries-set,
}
use plug_and_play_autosar.Dem.Memory.Frame.{store_event_mem_other, delete_event_mem_other}
use plug_and_play_autosar.Common.{subst, Option-cases, set}
use plug_and_play_autosar.Dem.Memory.Entries.{IsUnique, id_at}
use plug_and_play_autosar.Dem.Memory.Rearrange.{
  number, IsRearranged, rearrange_event_time_stamp_sorts,
}

-- The number of entries of an event.
abbrev count_of : ℕ → List EventRec → ℕ
count_of id [] = 0
count_of id (e ∷ es) = if e.event_id == id then suc (count_of id es) else count_of id es

count_of-id_at : (id : ℕ) (es : List EventRec) (i : ℕ) → id_at es i ≡ some id → 0 < count_of id es
count_of-id_at id [] i h = absurd (ground arith)
count_of-id_at id (e ∷ es) zero h = ground arith
count_of-id_at id (e ∷ es) (suc i) h = ground (arith, count_of-id_at id es i h)

count_of_absent :
    (id : ℕ) (es : List EventRec) → ((i : ℕ) → id_at es i ≢ some id) → count_of id es ≡ 0
count_of_absent id [] h = refl
count_of_absent id (e ∷ es) h = elim (Bool-cases (e.event_id == id)) [
  | inl y ↦ absurd (h 0 (ground arith))
  | inr y ↦ rw y (count_of_absent id es (λ i. h (suc i)))
]

tail-IsUnique : (e : EventRec) (es : List EventRec) → IsUnique (e ∷ es) → IsUnique es
tail-IsUnique e es u = record {
  same_position = λ id i j a b n. omega (arith, u.same_position id (suc i) (suc j) a b n);
}

count_of-IsUnique : (id : ℕ) (es : List EventRec) → IsUnique es → id ≢ 0 → count_of id es ≤ 1
count_of-IsUnique id [] u n = omega arith
count_of-IsUnique id (e ∷ es) u n = elim (Bool-cases (e.event_id == id)) [
  | inl y ↦
      (let absent =
          count_of_absent id es
            (λ i h. ground (arith, u.same_position id 0 (suc i) (ground arith) h n)) in
        rw (y, absent) (omega arith))
  | inr y ↦ rw y (count_of-IsUnique id es (tail-IsUnique e es u) n)
]

same_position_of_count :
    (id : ℕ) (es : List EventRec) (i j : ℕ)
    → count_of id es ≤ 1
    → id_at es i ≡ some id
    → id_at es j ≡ some id
    → i ≡ j
same_position_of_count id [] i j h a b = absurd (ground arith)
same_position_of_count id (e ∷ es) zero zero h a b = refl
same_position_of_count id (e ∷ es) zero (suc j) h a b =
    absurd (ground (arith, count_of-id_at id es j b))
same_position_of_count id (e ∷ es) (suc i) zero h a b =
    absurd (ground (arith, count_of-id_at id es i a))
same_position_of_count id (e ∷ es) (suc i) (suc j) h a b =
    ap suc (same_position_of_count id es i j (ground arith) a b)

abbrev count_one : ℕ → EventRec → ℕ → ℕ
count_one id e n = if e.event_id == id then suc n else n

count_one_comm :
    (id : ℕ) (a b : EventRec) (n : ℕ)
    → count_one id a (count_one id b n) ≡ count_one id b (count_one id a n)
count_one_comm id a b n = ground arith

count_of-perm : (id : ℕ) {xs ys : List EventRec} → Permᴰ xs ys → count_of id xs ≡ count_of id ys
count_of-perm id Permᴰ.nil = refl
count_of-perm id (Permᴰ.cons e p) = ap₂ (count_one id) e (count_of-perm id p)
count_of-perm id (Permᴰ.swap {a = a} {b = b} {l = l} e f) =
    count_one_comm id a b (count_of id l)
    ∙ ap₂ (λ x y. count_one id x (count_one id y (count_of id l))) f e
count_of-perm id (Permᴰ.trans p q) = count_of-perm id p ∙ count_of-perm id q

count_of-number :
    (id : ℕ) (es : List EventRec) (k : ℕ) → count_of id (number es k).0 ≡ count_of id es
count_of-number id [] k = refl
count_of-number id (e ∷ es) k =
    ground (arith, count_of-number id es k, count_of-number id es (suc k))

IsRearranged-IsUnique :
    {es : List EventRec} {k : ℕ} {r : List EventRec × ℕ}
    → IsRearranged es k r
    → IsUnique es
    → IsUnique r.0
IsRearranged-IsUnique {es = es} {k = k} {r = r} w u = record {
  same_position = λ id i j a b n.
      let same : count_of id r.0 ≡ count_of id es =
        ap (λ q. count_of id q.0) w.numbered
        ∙ (count_of-number id w.order k ∙ count_of-perm id w.perm) in
      same_position_of_count id r.0 i j (omega (arith, same, count_of-IsUnique id es u n)) a b;
}

-- Neither memory has two entries of an event.
abbrev pub AllUnique : Dem → Type 0
AllUnique d = IsUnique d.primary.entries × IsUnique d.secondary.entries

rearrange-AllUnique : (d : Dem) → AllUnique d → AllUnique (rearrange_event_time_stamp d)
rearrange-AllUnique d (u, v) =
    let (k, first, second, bound) = rearrange_event_time_stamp_sorts d in
    (IsRearranged-IsUnique first u, IsRearranged-IsUnique second v)

pub set_event_time_stamp-AllUnique :
    (r : EventStatusRec) (d : Dem) → AllUnique d → AllUnique (set_event_time_stamp r d).1
unfolding set_event_time_stamp
set_event_time_stamp-AllUnique r d u = ground (arith, rearrange-AllUnique d u)

pub same-AllUnique : (d e : Dem) → SameEntries d e → AllUnique d → AllUnique e
same-AllUnique d e same (u, v) =
    (subst IsUnique (sym (same primary_memory)) u, subst IsUnique (sym (same secondary_memory)) v)

store_in-AllUnique :
    (o : Origin) (c : Config) (p : EventParameter) (r : EventStatusRec) (f : Bool) (d : Dem)
    → r.event_id ≢ 0
    → AllUnique d
    → AllUnique (store_in o c p r f d).1
unfolding store_in
store_in-AllUnique primary_memory c p r f d n (u, v) = (
  Stores.unique (store_event_mem-Stores c p r primary_memory f d u n),
  subst IsUnique
      (sym (store_event_mem_other c primary_memory secondary_memory (λ es e. refl) p r f d)) v,
)
store_in-AllUnique secondary_memory c p r f d n (u, v) = (
  subst IsUnique
      (sym (store_event_mem_other c secondary_memory primary_memory (λ es e. refl) p r f d)) u,
  Stores.unique (store_event_mem-Stores c p r secondary_memory f d v n),
)
store_in-AllUnique Origin.not_used c p r f d n u = u
store_in-AllUnique Origin.mirror_memory c p r f d n u = u
store_in-AllUnique Origin.permanent_memory c p r f d n u = u

pub store_event_evt_mem-AllUnique :
    (c : Config) (p : EventParameter) (r : EventStatusRec) (f : Bool) (d : Dem)
    → r.event_id ≢ 0
    → AllUnique d
    → AllUnique (store_event_evt_mem c p r f d).1
unfolding store_event_evt_mem
store_event_evt_mem-AllUnique c p r f d n u =
    store_in-AllUnique p.event_class.event_destination c p r f d n u

delete_event_mem-IsUnique :
    (c : Config) (p : EventParameter) (o : Origin) (d : Dem)
    → IsUnique (entries_of o d)
    → IsUnique (entries_of o (delete_event_mem c p o d).1)
unfolding delete_event_mem
delete_event_mem-IsUnique c p o d u = elim (Option-cases (find_entry p.event_id (entries_of o d))) [
  | inl z ↦ rw (z, delete_event_mem) u
  | inr (i, z) ↦
      (let es = set (entries_of o d) i empty_entry in
        rw
          (
            z,
            delete_event_mem,
            set_event_block_changed_same c o false (with_entries o es d) o,
            entries_of-with_entries-set o i empty_entry d,
          )
          (empty-IsUnique (entries_of o d) i u))
]

pub delete_primary-AllUnique :
    (c : Config) (p : EventParameter) (d : Dem)
    → AllUnique d
    → AllUnique (delete_event_mem c p primary_memory d).1
delete_primary-AllUnique c p d (u, v) = (
  delete_event_mem-IsUnique c p primary_memory d u,
  subst IsUnique (sym (delete_event_mem_other c primary_memory secondary_memory (λ es e. refl) p d))
      v,
)

pub delete_secondary-AllUnique :
    (c : Config) (p : EventParameter) (d : Dem)
    → AllUnique d
    → AllUnique (delete_event_mem c p secondary_memory d).1
delete_secondary-AllUnique c p d (u, v) = (
  subst IsUnique (sym (delete_event_mem_other c secondary_memory primary_memory (λ es e. refl) p d))
      u,
  delete_event_mem-IsUnique c p secondary_memory d v,
)
