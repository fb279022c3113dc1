-- ===== src/Prelude/Lists.antt =====
-- Lists measured and indexed by native numbers, under the library's names.
use Prim.Native.Nat.{ℕ, zero, suc, ◌+◌, ◌≤◌}
use mathlib.Core.Path.{◌≡◌, refl, ap}
use mathlib.Core.Logic.{◌⊎◌, inl, inr}
use mathlib.Core.List.{List, [], ◌∷◌, ◌++◌}
use mathlib.Core.Bool.{Bool, true, false}
use mathlib.Core.Option.{Option, none, some}
use lib_agent_harness.Prelude.Tests.{◌==◌, if◌then◌else◌}
use native.Mathlib.Omega.{arith}

module _ {ℓ} {A : Type ℓ} where
  abbrev pub length : List A → ℕ
  length [] = 0
  length (x ∷ xs) = suc (length xs)

  abbrev pub get_elem? : List A → ℕ → Option A
  get_elem? [] i = none
  get_elem? (x ∷ xs) zero = some x
  get_elem? (x ∷ xs) (suc i) = get_elem? xs i

  -- A write out of bounds changes nothing.
  abbrev pub set : List A → ℕ → A → List A
  set [] i v = []
  set (x ∷ xs) zero v = v ∷ xs
  set (x ∷ xs) (suc i) v = x ∷ set xs i v

  abbrev pub take : ℕ → List A → List A
  take zero xs = []
  take (suc n) [] = []
  take (suc n) (x ∷ xs) = x ∷ take n xs

  abbrev pub drop : ℕ → List A → List A
  drop zero xs = xs
  drop (suc n) [] = []
  drop (suc n) (x ∷ xs) = drop n xs

  pub length-append : (xs ys : List A) → length (xs ++ ys) ≡ length xs + length ys
  length-append [] ys = omega arith
  length-append (x ∷ xs) ys = omega (arith, length-append xs ys)

-- A predicate on every element.
abbrev pub All {ℓ κ} : {A : Type ℓ} → (A → Type κ) → List A → Type κ
All P [] = Unit
All P (x ∷ xs) = P x × All P xs

abbrev pub bit : Bool → ℕ
bit true = 1
bit false = 0

-- How many elements pass a test.
abbrev pub count_if {ℓ} : {A : Type ℓ} → (A → Bool) → List A → ℕ
count_if p [] = 0
count_if p (x ∷ xs) = bit (p x) + count_if p xs

module _ {ℓ} {A : Type ℓ} (p : A → Bool) where
  pub count_if-append : (xs ys : List A) → count_if p (xs ++ ys) ≡ count_if p xs + count_if p ys
  count_if-append [] ys = omega arith
  count_if-append (x ∷ xs) ys = omega (arith, count_if-append xs ys)

  -- Replacing an element moves the count by the two tests.
  pub count_if-set :
      (xs : List A) (i : ℕ) (x y : A)
      → get_elem? xs i ≡ some x
      → count_if p (set xs i y) + bit (p x) ≡ count_if p xs + bit (p y)
  count_if-set [] i x y h = cc
  count_if-set (z ∷ xs) zero x y h = ground arith
  count_if-set (z ∷ xs) (suc i) x y h = omega (arith, count_if-set xs i x y h)

  pub count_if-get :
      (xs : List A) (i : ℕ) (x : A) → get_elem? xs i ≡ some x → bit (p x) ≤ count_if p xs
  count_if-get [] i x h = cc
  count_if-get (z ∷ xs) zero x h = ground arith
  count_if-get (z ∷ xs) (suc i) x h = omega (arith, count_if-get xs i x h)

  -- Two places that pass count for two.
  pub count_if-two :
      (xs : List A) (i j : ℕ) (x y : A)
      → get_elem? xs i ≡ some x
      → get_elem? xs j ≡ some y
      → p x ≡ true
      → p y ≡ true
      → count_if p xs ≤ 1
      → i ≡ j
  count_if-two [] i j x y hi hj px py one = cc
  count_if-two (z ∷ xs) zero zero x y hi hj px py one = refl
  count_if-two (z ∷ xs) zero (suc j) x y hi hj px py one =
      absurd (ground (arith, count_if-get xs j y hj))
  count_if-two (z ∷ xs) (suc i) zero x y hi hj px py one =
      absurd (ground (arith, count_if-get xs i x hi))
  count_if-two (z ∷ xs) (suc i) (suc j) x y hi hj px py one =
      ap suc (count_if-two xs i j x y hi hj px py (omega arith))

pub count_if-le {ℓ} :
    {A : Type ℓ} (p q : A → Bool) (xs : List A)
    → ((x : A) → bit (p x) ≤ bit (q x))
    → count_if p xs ≤ count_if q xs
count_if-le p q [] h = omega arith
count_if-le p q (x ∷ xs) h = omega (arith, h x, count_if-le p q xs h)

module _ {ℓ} {A : Type ℓ} where
  pub get_elem?-set :
      (xs : List A) (i j : ℕ) (x v : A)
      → get_elem? xs i ≡ some x
      → get_elem? (set xs i v) j ≡ (if i == j then some v else get_elem? xs j)
  get_elem?-set [] i j x v h = cc
  get_elem?-set (y ∷ xs) zero zero x v h = refl
  get_elem?-set (y ∷ xs) zero (suc j) x v h = ground arith
  get_elem?-set (y ∷ xs) (suc i) zero x v h = ground arith
  get_elem?-set (y ∷ xs) (suc i) (suc j) x v h = ground (arith, get_elem?-set xs i j x v)

  -- An element of a list with one more at its end is an old one or the new one.
  pub get_elem?-snoc :
      (xs : List A) (y : A) (i : ℕ)
      → (get_elem? (xs ++ y ∷ []) i ≡ get_elem? xs i)
        ⊎ ((get_elem? (xs ++ y ∷ []) i ≡ some y) × (i ≡ length xs) × (get_elem? xs i ≡ none))
  get_elem?-snoc [] y zero = inr (refl, refl, refl)
  get_elem?-snoc [] y (suc i) = inl refl
  get_elem?-snoc (x ∷ xs) y zero = inl refl
  get_elem?-snoc (x ∷ xs) y (suc i) = ground (arith, get_elem?-snoc xs y i)

  pub get_elem?-snoc_last : (xs : List A) (y : A) → get_elem? (xs ++ y ∷ []) (length xs) ≡ some y
  get_elem?-snoc_last [] y = refl
  get_elem?-snoc_last (x ∷ xs) y = get_elem?-snoc_last xs y
