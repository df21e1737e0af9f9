-- ===== src/Common/Lists.antt =====
-- C arrays as lists indexed by native numbers, under the library's names.
use Prim.Native.Nat.{ℕ, zero, suc, ◌+◌, ◌≤◌, ◌<◌}
use mathlib.Core.Path.{◌≡◌, refl, ap, sym, ◌∙◌}
use mathlib.Core.Logic.{◌≢◌}
use mathlib.Core.List.{List, [], ◌∷◌, ◌++◌}
use mathlib.Core.Option.{Option, none, some}
use native.Mathlib.Nat.{zero-add}
use native.Mathlib.Omega.{arith}

module _ {ℓ} {A : Type ℓ} where
  abbrev pub length : List A → ℕ
  length [] = 0
  length (x ∷ xs) = suc (length xs)

  abbrev pub get_elem? : List A → ℕ → Option A
  get_elem? [] i = none
  get_elem? (x ∷ xs) zero = some x
  get_elem? (x ∷ xs) (suc i) = get_elem? xs i

  abbrev pub get_or : List A → ℕ → A → A
  get_or [] i d = d
  get_or (x ∷ xs) zero d = x
  get_or (x ∷ xs) (suc i) d = get_or xs i d

  -- A write out of bounds changes nothing.
  abbrev pub set : List A → ℕ → A → List A
  set [] i v = []
  set (x ∷ xs) zero v = v ∷ xs
  set (x ∷ xs) (suc i) v = x ∷ set xs i v

  abbrev pub drop : ℕ → List A → List A
  drop zero xs = xs
  drop (suc n) [] = []
  drop (suc n) (x ∷ xs) = drop n xs

  abbrev pub take : ℕ → List A → List A
  take zero xs = []
  take (suc n) [] = []
  take (suc n) (x ∷ xs) = x ∷ take n xs

  pub drop_next :
      (i : ℕ) (xs : List A) {x : A} {rest : List A} → drop i xs ≡ x ∷ rest → drop (suc i) xs ≡ rest
  drop_next zero [] e = ground arith
  drop_next zero (y ∷ xs) e = ground arith
  drop_next (suc i) [] e = ground arith
  drop_next (suc i) (y ∷ xs) e = drop_next i xs e

  pub drop_lt : (i : ℕ) (xs : List A) {x : A} {rest : List A} → drop i xs ≡ x ∷ rest → i < length xs
  drop_lt zero [] e = ground arith
  drop_lt zero (y ∷ xs) e = omega arith
  drop_lt (suc i) [] e = ground arith
  drop_lt (suc i) (y ∷ xs) e = omega (arith, drop_lt i xs e)

  pub length-set : (xs : List A) (i : ℕ) (v : A) → length (set xs i v) ≡ length xs
  length-set [] i v = refl
  length-set (x ∷ xs) zero v = refl
  length-set (x ∷ xs) (suc i) v = ap suc (length-set xs i v)

  pub get_elem?-set_self :
      (xs : List A) (i : ℕ) (v : A) → i < length xs → get_elem? (set xs i v) i ≡ some v
  get_elem?-set_self [] i v h = elim h [ ]
  get_elem?-set_self (x ∷ xs) zero v h = refl
  get_elem?-set_self (x ∷ xs) (suc i) v h = get_elem?-set_self xs i v (omega arith)

  pub get_elem?-set_ne :
      (xs : List A) {i j : ℕ} (v : A) → i ≢ j → get_elem? (set xs i v) j ≡ get_elem? xs j
  get_elem?-set_ne [] v h = refl
  get_elem?-set_ne (x ∷ xs) {i = zero} {j = zero} v h = absurd (h refl)
  get_elem?-set_ne (x ∷ xs) {i = zero} {j = suc j} v h = refl
  get_elem?-set_ne (x ∷ xs) {i = suc i} {j = zero} v h = refl
  get_elem?-set_ne (x ∷ xs) {i = suc i} {j = suc j} v h = get_elem?-set_ne xs v (λ e. h (ap suc e))

  pub get_elem?_lt : (xs : List A) (i : ℕ) {x : A} → get_elem? xs i ≡ some x → i < length xs
  get_elem?_lt [] i h = ground arith
  get_elem?_lt (x ∷ xs) zero h = omega arith
  get_elem?_lt (x ∷ xs) (suc i) h = omega (arith, get_elem?_lt xs i h)

-- `P` holds of every entry.
abbrev pub All {ℓ κ} : {A : Type ℓ} → (A → Type κ) → List A → Type κ
All P [] = Unit
All P (x ∷ xs) = P x × All P xs

module _ {ℓ κ μ} {A : Type ℓ} (P : A → Type κ) (Q : A → Type μ) where
  pub All-weaken : ((x : A) → P x → Q x) → (xs : List A) → All P xs → All Q xs
  All-weaken f [] h = tt
  All-weaken f (x ∷ xs) (h, hs) = (f x h, All-weaken f xs hs)

module _ {ℓ κ} {A : Type ℓ} (P : A → Type κ) where
  pub All-snoc : (xs : List A) (x : A) → All P xs → P x → All P (xs ++ (x ∷ []))
  All-snoc [] x h p = (p, tt)
  All-snoc (y ∷ xs) x (h, hs) p = (h, All-snoc xs x hs p)

module _ {ℓ} {A : Type ℓ} where
  pub get_elem?-snoc_old :
      (xs : List A) (x : A) (i : ℕ) {y : A}
      → get_elem? xs i ≡ some y
      → get_elem? (xs ++ (x ∷ [])) i ≡ some y
  get_elem?-snoc_old [] x i e = ground arith
  get_elem?-snoc_old (z ∷ xs) x zero e = e
  get_elem?-snoc_old (z ∷ xs) x (suc i) e = get_elem?-snoc_old xs x i e

  pub get_elem?-snoc_new : (xs : List A) (x : A) → get_elem? (xs ++ (x ∷ [])) (length xs) ≡ some x
  get_elem?-snoc_new [] x = refl
  get_elem?-snoc_new (z ∷ xs) x = get_elem?-snoc_new xs x

  pub length-snoc : (xs : List A) (x : A) → length (xs ++ (x ∷ [])) ≡ suc (length xs)
  length-snoc [] x = refl
  length-snoc (z ∷ xs) x = ap suc (length-snoc xs x)

  pub snoc_++ : (xs : List A) (x : A) (ys : List A) → (xs ++ (x ∷ [])) ++ ys ≡ xs ++ (x ∷ ys)
  snoc_++ [] x ys = refl
  snoc_++ (z ∷ xs) x ys = ap (λ zs. z ∷ zs) (snoc_++ xs x ys)

  pub length-append : (xs ys : List A) → length (xs ++ ys) ≡ length xs + length ys
  length-append [] ys = omega arith
  length-append (x ∷ xs) ys = omega (arith, length-append xs ys)

  pub append_nil : (xs : List A) → xs ++ [] ≡ xs
  append_nil [] = refl
  append_nil (x ∷ xs) = ap (λ zs. x ∷ zs) (append_nil xs)

  pub append_assoc : (xs ys zs : List A) → (xs ++ ys) ++ zs ≡ xs ++ (ys ++ zs)
  append_assoc [] ys zs = refl
  append_assoc (x ∷ xs) ys zs = ap (λ ws. x ∷ ws) (append_assoc xs ys zs)

  -- A write at the end of a prefix extends it.
  pub take-set :
      (xs : List A) (i : ℕ) (v : A)
      → i < length xs
      → take (suc i) (set xs i v) ≡ take i xs ++ (v ∷ [])
  take-set [] i v h = absurd (omega arith)
  take-set (x ∷ xs) zero v h = refl
  take-set (x ∷ xs) (suc i) v h = ap (λ zs. x ∷ zs) (take-set xs i v (omega arith))

  take-nil : (n : ℕ) → take {A = A} n [] ≡ []
  take-nil zero = refl
  take-nil (suc n) = refl

  drop-nil : (n : ℕ) → drop {A = A} n [] ≡ []
  drop-nil zero = refl
  drop-nil (suc n) = refl

  -- What is taken in two steps.
  pub take-append-take : (m n : ℕ) (xs : List A) → take m xs ++ take n (drop m xs) ≡ take (m + n) xs
  take-append-take zero n xs = rw zero-add
  take-append-take (suc m) n [] = take-nil n ∙ sym (take-nil (suc m + n))
  take-append-take (suc m) n (x ∷ xs) =
      let e : suc (m + n) ≡ suc m + n = omega arith in
      ap (λ zs. x ∷ zs) (take-append-take m n xs) ∙ ap (λ k. take k (x ∷ xs)) e

  pub drop-drop : (m n : ℕ) (xs : List A) → drop n (drop m xs) ≡ drop (m + n) xs
  drop-drop zero n xs = rw zero-add
  drop-drop (suc m) n [] = drop-nil n ∙ sym (drop-nil (suc m + n))
  drop-drop (suc m) n (x ∷ xs) =
      let e : suc (m + n) ≡ suc m + n = omega arith in
      drop-drop m n xs ∙ ap (λ k. drop k (x ∷ xs)) e

  pub take-append : (xs ys : List A) → take (length xs) (xs ++ ys) ≡ xs
  take-append [] ys = refl
  take-append (x ∷ xs) ys = ap (λ t. x ∷ t) (take-append xs ys)

  pub drop-append : (xs ys : List A) → drop (length xs) (xs ++ ys) ≡ ys
  drop-append [] ys = refl
  drop-append (x ∷ xs) ys = drop-append xs ys

  pub take-length : (xs : List A) → take (length xs) xs ≡ xs
  take-length [] = refl
  take-length (x ∷ xs) = ap (λ t. x ∷ t) (take-length xs)

  pub length-take : (n : ℕ) (xs : List A) → n ≤ length xs → length (take n xs) ≡ n
  length-take zero xs h = refl
  length-take (suc n) [] h = ground (arith, h)
  length-take (suc n) (x ∷ xs) h = ap suc (length-take n xs (omega (arith, h)))

  pub length-take-drop :
      (k n : ℕ) (xs : List A) → k + n ≤ length xs → length (take n (drop k xs)) ≡ n
  length-take-drop zero n xs h = length-take n xs (omega (arith, h))
  length-take-drop (suc k) zero [] h = refl
  length-take-drop (suc k) (suc n) [] h = ground (arith, h)
  length-take-drop (suc k) n (x ∷ xs) h = length-take-drop k n xs (omega (arith, h))
