-- ===== src/Dem/Memory/Entries.antt =====
-- The entries of an event memory: what finding and writing an entry make of a buffer in which no
-- event has two entries.
use plug_and_play_autosar.Common.{
  ℕ, zero, suc, ◌<◌, ◌≡◌, sym, ap, ◌∙◌, ◌≢◌, ◌⊎◌, inl, inr, Option, none, some, List, [], ◌∷◌,
  arith, Option-cases, length, set,
}
use plug_and_play_autosar.Dem.Types.{EventRec}
use plug_and_play_autosar.Dem.Memory.{find_entry, empty_entry}

-- The id in the entry at a position.
abbrev pub id_at : List EventRec → ℕ → Option ℕ
id_at [] i = none
id_at (e ∷ es) zero = some e.event_id
id_at (e ∷ es) (suc i) = id_at es i

-- No event has two entries; any number of them may be free.
pub record IsUnique (es : List EventRec) : Type 0 where
  pub same_position : (id i j : ℕ) → id_at es i ≡ some id → id_at es j ≡ some id → id ≢ 0 → i ≡ j

pub find_entry-some :
    (id : ℕ) (es : List EventRec) (i : ℕ)
    → find_entry id es ≡ some i
    → (i < length es) × (id_at es i ≡ some id)
unfolding find_entry
find_entry-some id [] i h = ground arith
find_entry-some id (e ∷ es) zero h = elim (Option-cases (find_entry id es)) [
  | inl z ↦ ground arith
  | inr (j, z) ↦ ground arith
]
find_entry-some id (e ∷ es) (suc i) h = elim (Option-cases (find_entry id es)) [
  | inl z ↦ ground arith
  | inr (j, z) ↦ ground (arith, find_entry-some id es j z)
]

pub find_entry-none :
    (id : ℕ) (es : List EventRec) (i : ℕ) → find_entry id es ≡ none → id_at es i ≢ some id
unfolding find_entry
find_entry-none id [] i h g = ground arith
find_entry-none id (x ∷ es) zero h g = ground arith
find_entry-none id (x ∷ es) (suc i) h g = elim (Option-cases (find_entry id es)) [
  | inl z ↦ find_entry-none id es i z g
  | inr (j, z) ↦ ground arith
]

-- An entry of `id`, written where no other one has it, is the one that is found.
pub find_entry-set :
    (id : ℕ) (es : List EventRec) (i : ℕ) (v : EventRec)
    → v.event_id ≡ id
    → i < length es
    → (find_entry id es ≡ none) ⊎ (find_entry id es ≡ some i)
    → find_entry id (set es i v) ≡ some i
unfolding find_entry
find_entry-set id [] i v e l h = absurd (omega arith)
find_entry-set id (x ∷ es) zero v e l h = ground arith
find_entry-set id (x ∷ es) (suc i) v e l h = ground (arith, find_entry-set id es i v e)

pub id_at-set :
    (es : List EventRec) (i : ℕ) (v : EventRec) (j x : ℕ)
    → id_at (set es i v) j ≡ some x
    → ((i ≡ j) × (x ≡ v.event_id)) ⊎ ((i ≢ j) × (id_at es j ≡ some x))
id_at-set [] i v j x h = ground arith
id_at-set (e ∷ es) zero v zero x h = ground arith
id_at-set (e ∷ es) zero v (suc j) x h = ground arith
id_at-set (e ∷ es) (suc i) v zero x h = ground arith
id_at-set (e ∷ es) (suc i) v (suc j) x h = ground (arith, id_at-set es i v j x h)

-- A write keeps entries unique, if the id that it writes is free or is not elsewhere.
pub set-IsUnique :
    (es : List EventRec) (i : ℕ) (v : EventRec)
    → IsUnique es
    → (v.event_id ≢ 0 → (j : ℕ) → i ≢ j → id_at es j ≢ some v.event_id)
    → IsUnique (set es i v)
set-IsUnique es i v u fresh = record {
  same_position = λ id j k a b n. elim (id_at-set es i v j id a) [
    | inl (p, q) ↦ elim (id_at-set es i v k id b) [
      | inl (p', q') ↦ sym p ∙ p'
      | inr (p', q') ↦ absurd (fresh (λ z. n (q ∙ z)) k p' (q' ∙ ap some q))
    ]
    | inr (p, q) ↦ elim (id_at-set es i v k id b) [
      | inl (p', q') ↦ absurd (fresh (λ z. n (q' ∙ z)) j p (q ∙ ap some q'))
      | inr (p', q') ↦ u.same_position id j k q q' n
    ]
  ];
}

pub find_entry-set_empty :
    (id : ℕ) (es : List EventRec) (i : ℕ)
    → IsUnique es
    → find_entry id es ≡ some i
    → id ≢ 0
    → find_entry id (set es i empty_entry) ≡ none
find_entry-set_empty id es i u h n = elim (Option-cases (find_entry id (set es i empty_entry))) [
  | inl z ↦ z
  | inr (j, z) ↦ elim (id_at-set es i empty_entry j id (find_entry-some id _ j z).1) [
    | inl (p, q) ↦ absurd (n q)
    | inr (p, q) ↦ absurd (p (u.same_position id i j (find_entry-some id es i h).1 q n))
  ]
]

pub find_entry-set_absent :
    (id : ℕ) (es : List EventRec) (i : ℕ)
    → find_entry id es ≡ none
    → id ≢ 0
    → find_entry id (set es i empty_entry) ≡ none
find_entry-set_absent id es i h n = elim (Option-cases (find_entry id (set es i empty_entry))) [
  | inl z ↦ z
  | inr (j, z) ↦ elim (id_at-set es i empty_entry j id (find_entry-some id _ j z).1) [
    | inl (p, q) ↦ absurd (n q)
    | inr (p, q) ↦ absurd (find_entry-none id es j h q)
  ]
]
