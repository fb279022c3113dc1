-- ===== src/Tokens/Sums.antt =====
-- The checked sum of tokens.go against the sum of unbounded numbers.
use lib_agent_harness.Prelude.{
  ℕ, ◌+◌, ◌≤◌, ◌≡◌, refl, ◌⊎◌, Bool, true, false, List, [], ◌∷◌, arith, leb, if◌then◌else◌,
  Bool-cases, inl, inr, leb→le,
}
use lib_agent_harness.Prelude.Int.{ℤ, pos, negsuc, pos_part, neg_part, max_int64, +ℤ_pos, -ℤ_pos}
use lib_agent_harness.Tokens.{sum_from, sum}

-- The sum of the non-negative figures, with no bound; `none_negative` says that there are no others.
abbrev pub exact_sum : List ℤ → ℕ
exact_sum [] = 0
exact_sum (pos n ∷ parts) = n + exact_sum parts
exact_sum (negsuc n ∷ parts) = exact_sum parts

abbrev pub none_negative : List ℤ → Bool
none_negative [] = true
none_negative (pos n ∷ parts) = none_negative parts
none_negative (negsuc n ∷ parts) = false

-- Every figure is an int64.
abbrev pub IsInt64 : ℤ → Type 0
IsInt64 (pos n) = n ≤ max_int64
IsInt64 (negsuc n) = n ≤ max_int64

abbrev pub AllInt64 : List ℤ → Type 0
AllInt64 [] = Unit
AllInt64 (n ∷ parts) = IsInt64 n × AllInt64 parts

abbrev pub representable : ℕ → List ℤ → ℤ × Bool
representable total parts =
    if none_negative parts
    then (if leb (total + exact_sum parts) max_int64
        then (pos (total + exact_sum parts), true)
        else (pos 0, false))
    else (pos 0, false)

sum_from_lem :
    (total : ℕ) (parts : List ℤ)
    → total ≤ max_int64
    → AllInt64 parts
    → sum_from (pos total) parts ≡ representable total parts
unfolding sum_from
sum_from_lem total [] h r = ground arith
sum_from_lem total (negsuc n ∷ parts) h r = ground arith
sum_from_lem total (pos n ∷ parts) h r = elim (Bool-cases (leb (total + n) max_int64)) [
  | inl fits ↦
      rw (-ℤ_pos max_int64 n r.0 (omega arith), +ℤ_pos total n (leb→le _ _ fits))
        (ground (arith, sum_from_lem (total + n) parts (leb→le _ _ fits) r.1))
  | inr over ↦ rw (-ℤ_pos max_int64 n r.0 (omega arith)) (ground arith)
]

-- The checked sum of int64 figures is their exact sum, with `true`, when none is negative and the
-- exact sum is at most the largest int64; in every other case it is zero with `false`.
pub sum_lem : (parts : List ℤ) → AllInt64 parts → sum parts ≡ representable 0 parts
unfolding sum
sum_lem parts r = sum_from_lem 0 parts (omega arith) r

-- The sum of two figures, as the callers use it.
pub sum_two : (a b : ℤ) → IsInt64 a → IsInt64 b → sum (a ∷ b ∷ []) ≡ representable 0 (a ∷ b ∷ [])
sum_two a b ha hb = sum_lem (a ∷ b ∷ []) (ha, (hb, tt))

-- A checked sum that is not refused is exact.
pub sum_cases :
    (parts : List ℤ)
    → AllInt64 parts
    → (sum parts ≡ (pos 0, false))
      ⊎ ((sum parts ≡ (pos (exact_sum parts), true))
          × (none_negative parts ≡ true)
          × (exact_sum parts ≤ max_int64))
sum_cases parts r = rw (sum_lem parts r) (ground arith)

pub exact_three :
    (a b c : ℤ)
    → none_negative (a ∷ b ∷ c ∷ []) ≡ true
    → (exact_sum (a ∷ b ∷ c ∷ []) ≡ pos_part a + pos_part b + pos_part c)
      × (neg_part a ≡ 0)
      × (neg_part b ≡ 0)
      × (neg_part c ≡ 0)
exact_three (pos a) (pos b) (pos c) h = (omega arith, refl, refl, refl)
exact_three (negsuc a) b c h = cc
exact_three (pos a) (negsuc b) c h = cc
exact_three (pos a) (pos b) (negsuc c) h = cc
