-- ===== src/Text/Cut.antt =====
-- Texts cut at the start of a character, for `Cut` of internal/textbound/textbound.go.
use lib_agent_harness.Prelude.{
  ℕ, zero, suc, ◌≤◌, ◌<◌, ◌≡◌, refl, ◌⊎◌, inl, inr, true, [], ◌∷◌, arith, length, get_elem?, take,
  Bool-cases, leb, leb→le,
}
use lib_agent_harness.Text.{Text, starts_rune, rune_end, cut}

pub rune_end-le : (text : Text) (end : ℕ) → rune_end text end ≤ end
unfolding rune_end
rune_end-le text zero = omega arith
rune_end-le text (suc end) = ground (arith, rune_end-le text end)

rune_end-suc : (text : Text) (end : ℕ) → rune_end text end ≤ rune_end text (suc end)
unfolding rune_end
rune_end-suc text end = ground (arith, rune_end-le text end)

pub rune_end_mono : (text : Text) (a b : ℕ) → a ≤ b → rune_end text a ≤ rune_end text b
rune_end_mono text zero zero h = omega arith
rune_end_mono text (suc a) zero h = absurd (omega arith)
rune_end_mono text a (suc b) h = elim (Bool-cases (leb a b)) [
  | inl below ↦ omega (arith, rune_end_mono text a b (leb→le a b below), rune_end-suc text b)
  | inr same ↦ let e : a ≡ suc b = ground arith in rw e (omega arith)
]

-- The place is the start of a character, or the start of the text.
pub rune_end-starts :
    (text : Text) (end : ℕ)
    → (rune_end text end ≡ 0) ⊎ (starts_rune (get_elem? text (rune_end text end)) ≡ true)
unfolding rune_end
rune_end-starts text zero = inl refl
rune_end-starts text (suc end) = ground (arith, rune_end-starts text end)

pub length-take_le : (n : ℕ) (text : Text) → n ≤ length text → length (take n text) ≡ n
length-take_le zero text h = refl
length-take_le (suc n) [] h = absurd (omega arith)
length-take_le (suc n) (b ∷ text) h = omega (arith, length-take_le n text)

-- What is kept of a text that is longer than the limit.
pub cut_over :
    (text : Text) (limit : ℕ)
    → limit < length text
    → (length (cut text limit) ≡ rune_end text limit)
      × (cut text limit ≡ take (rune_end text limit) text)
unfolding cut
cut_over text zero h = (unfold rune_end in refl, unfold rune_end in refl)
cut_over text (suc limit) h =
    ground (arith, rune_end-le text (suc limit), length-take_le (rune_end text (suc limit)) text)
