-- ===== src/Prelude/Int.antt =====
-- Go's int64: signed integers over the native numbers, and their two's-complement wrap-around.
use lib_agent_harness.Prelude.Tests.{ltb, leb, if◌then◌else◌}
use Prim.Native.Nat.{ℕ, suc, ◌+◌, ◌-◌, ◌%◌, ◌^◌, ◌≤◌, ◌<◌}
use mathlib.Core.Path.{◌≡◌, refl}
use mathlib.Core.Bool.{Bool}
use native.Mathlib.Omega.{arith}

-- `negsuc n` is -(n + 1).
pub data ℤ : Type 0 where
  pos : ℕ → ℤ
  negsuc : ℕ → ℤ

abbrev pub pos_part : ℤ → ℕ
pos_part (pos n) = n
pos_part (negsuc n) = 0

abbrev pub neg_part : ℤ → ℕ
neg_part (pos n) = 0
neg_part (negsuc n) = suc n

-- a - b, as an integer.
abbrev pub sub_ℕ : ℕ → ℕ → ℤ
sub_ℕ a b = if leb b a then pos (a - b) else negsuc (b - a - 1)

abbrev pub max_int64 : ℕ
max_int64 = 2 ^ 63 - 1

-- The int64 whose bit pattern is that of the integer, modulo 2^64.
abbrev pub from_word : ℕ → ℤ
from_word w = if leb w max_int64 then pos w else negsuc (2 ^ 64 - 1 - w)

abbrev pub wrap64 : ℤ → ℤ
wrap64 (pos n) = from_word (n % 2 ^ 64)
wrap64 (negsuc n) = from_word (2 ^ 64 - 1 - n % 2 ^ 64)

infixl 65 ◌+ℤ◌ ◌-ℤ◌
infix 50 ◌≤ℤ◌
-- The sum and the difference of two int64 values, as Go computes them.
unfoldable pub ◌+ℤ◌ : ℤ → ℤ → ℤ
a +ℤ b = wrap64 (sub_ℕ (pos_part a + pos_part b) (neg_part a + neg_part b))

unfoldable pub ◌-ℤ◌ : ℤ → ℤ → ℤ
a -ℤ b = wrap64 (sub_ℕ (pos_part a + neg_part b) (neg_part a + pos_part b))

abbrev pub ◌≤ℤ◌ : ℤ → ℤ → Type 0
a ≤ℤ b = pos_part a + neg_part b ≤ pos_part b + neg_part a

abbrev pub ltb_ℤ : ℤ → ℤ → Bool
ltb_ℤ a b = ltb (pos_part a + neg_part b) (pos_part b + neg_part a)

-- A sum of non-negative numbers that stays below 2^63 does not wrap.
pub +ℤ_pos : (a b : ℕ) → a + b ≤ max_int64 → pos a +ℤ pos b ≡ pos (a + b)
unfolding ◌+ℤ◌
+ℤ_pos a b h = ground arith

-- Nor does a difference of two representable numbers in order.
pub -ℤ_pos : (a b : ℕ) → b ≤ a → a ≤ max_int64 → pos a -ℤ pos b ≡ pos (a - b)
unfolding ◌-ℤ◌
-ℤ_pos a b h m = ground arith

-- A sum past the largest int64 is a negative number.
pub +ℤ_overflow :
    (a b : ℕ)
    → a ≤ max_int64
    → b ≤ max_int64
    → max_int64 < a + b
    → pos a +ℤ pos b ≡ negsuc (2 ^ 64 - 1 - (a + b))
unfolding ◌+ℤ◌
+ℤ_overflow a b h k o = ground arith

-- The smallest int64 less one wraps to the largest.
least_less_one : negsuc max_int64 -ℤ pos 1 ≡ pos max_int64
unfolding ◌-ℤ◌
least_less_one = refl

-- The same of integers that are counts.
pub -ℤ_counts :
    (a b : ℤ)
    → neg_part a ≡ 0
    → neg_part b ≡ 0
    → pos_part b ≤ pos_part a
    → pos_part a ≤ max_int64
    → a -ℤ b ≡ pos (pos_part a - pos_part b)
-ℤ_counts (pos a) (pos b) ha hb le fits = -ℤ_pos a b le fits
-ℤ_counts (negsuc a) b ha hb le fits = absurd (omega arith)
-ℤ_counts (pos a) (negsuc b) ha hb le fits = absurd (omega arith)
