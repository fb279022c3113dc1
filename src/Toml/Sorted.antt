-- ===== src/Toml/Sorted.antt =====
-- internal/restrict/toml.go: the order of the variables, as `sort.Strings` leaves them.
use lib_agent_harness.Prelude.{
  ◌+◌, Bool, true, false, ◌&&◌, List, [], ◌∷◌, count_if, ◌≡◌, refl, ap, ◌∙◌, arith, bit,
}
use lib_agent_harness.Text.{Text}
use lib_agent_harness.Toml.{text_leb, inserted, sorted}

-- each before the next
abbrev pub is_ordered : List Text → Bool
is_ordered [] = true
is_ordered (k ∷ []) = true
is_ordered (k ∷ l ∷ ks) = text_leb k l && is_ordered (l ∷ ks)

text_leb-total : (a b : Text) → text_leb a b ≡ false → text_leb b a ≡ true
text_leb-total [] b h = absurd (ground (arith, h))
text_leb-total (x ∷ xs) [] h = refl
text_leb-total (x ∷ xs) (y ∷ ys) h = ground (arith, text_leb-total xs ys)

inserted-ordered :
    (k : Text) (ks : List Text) → is_ordered ks ≡ true → is_ordered (inserted k ks) ≡ true
inserted-ordered k [] h = refl
inserted-ordered k (x ∷ []) h = ground (arith, text_leb-total k x)
inserted-ordered k (x ∷ y ∷ ks) h =
    ground (arith, text_leb-total k x, text_leb-total k y, inserted-ordered k (y ∷ ks))

pub sorted-ordered : (ks : List Text) → is_ordered (sorted ks) ≡ true
unfolding sorted
sorted-ordered [] = refl
sorted-ordered (k ∷ ks) = inserted-ordered k (sorted ks) (sorted-ordered ks)

inserted-count :
    (p : Text → Bool) (k : Text) (ks : List Text)
    → count_if p (inserted k ks) ≡ bit (p k) + count_if p ks
inserted-count p k [] = refl
inserted-count p k (x ∷ xs) = ground (arith, inserted-count p k xs)

pub sorted-count : (p : Text → Bool) (ks : List Text) → count_if p (sorted ks) ≡ count_if p ks
unfolding sorted
sorted-count p [] = refl
sorted-count p (k ∷ ks) =
    inserted-count p k (sorted ks) ∙ ap (λ n. bit (p k) + n) (sorted-count p ks)
