-- ===== src/Workbench/Parts.antt =====
-- sandbox/write.go: the parts of a text between the matches of another.
use lib_agent_harness.Prelude.{
  ℕ, zero, suc, ◌+◌, ◌-◌, ◌*◌, Bool, true, false, List, [], ◌∷◌, ◌++◌, length, length-append, drop,
  if◌then◌else◌, ◌≡◌, refl, sym, ap, ◌∙◌, arith,
}
use native.Mathlib.Nat.{suc-mul}
use lib_agent_harness.Text.{Text}
use lib_agent_harness.Workbench.Edit.{is_prefix, count_from}

-- the parts, with this text between them
abbrev pub join : Text → List Text → Text
join sep [] = []
join sep (p ∷ []) = p
join sep (p ∷ q ∷ ps) = p ++ (sep ++ join sep (q ∷ ps))

abbrev pub with_byte : ℕ → List Text → List Text
with_byte c [] = (c ∷ []) ∷ []
with_byte c (p ∷ ps) = (c ∷ p) ∷ ps

-- the parts between the matches
unfoldable pub parts_from : Text → ℕ → Text → List Text
parts_from old skip [] = [] ∷ []
parts_from old (suc skip) (c ∷ text) = parts_from old skip text
parts_from old zero (c ∷ text) =
    let after = parts_from old (length old - 1) text in
    let on = parts_from old 0 text in
    if is_prefix old (c ∷ text) then [] ∷ after else with_byte c on

pub length-parts_from :
    (old : Text) (skip : ℕ) (text : Text)
    → length (parts_from old skip text) ≡ suc (count_from old skip text)
unfolding parts_from count_from
length-parts_from old skip [] = refl
length-parts_from old (suc skip) (c ∷ text) = length-parts_from old skip text
length-parts_from old zero (c ∷ text) =
    each (is_prefix old (c ∷ text)) (parts_from old 0 text)
      (length-parts_from old (length old - 1) text) (length-parts_from old 0 text)
  where
    each :
        (b : Bool) (ps : List Text)
        → length (parts_from old (length old - 1) text) ≡ suc (count_from old (length old - 1) text)
        → length ps ≡ suc (count_from old 0 text)
        → length (if b then [] ∷ parts_from old (length old - 1) text else with_byte c ps)
          ≡ suc (if b then suc (count_from old (length old - 1) text) else count_from old 0 text)
    each true ps h k = ap suc h
    each false (p ∷ ps) h k = k
    each false [] h k = absurd (ground (arith, k))

pub join-with_byte :
    (sep : Text) (c : ℕ) (ps : List Text) → join sep (with_byte c ps) ≡ c ∷ join sep ps
join-with_byte sep c [] = refl
join-with_byte sep c (p ∷ []) = refl
join-with_byte sep c (p ∷ q ∷ ps) = refl

prefix-drop : (old text : Text) → is_prefix old text ≡ true → old ++ drop (length old) text ≡ text
unfolding is_prefix
prefix-drop [] text h = refl
prefix-drop (o ∷ old) [] h = absurd (ground (arith, h))
prefix-drop (o ∷ old) (c ∷ text) h =
    first (ground (arith, h)) ∙ ap (λ t. c ∷ t) (prefix-drop old text (ground (arith, h)))
  where
    first : o ≡ c → o ∷ (old ++ drop (length old) text) ≡ c ∷ (old ++ drop (length old) text)
    first e = ap (λ b. b ∷ (old ++ drop (length old) text)) e

drop_nil : (k : ℕ) → ◌≡◌ {A = Text} (drop k []) []
drop_nil zero = refl
drop_nil (suc k) = refl

unfoldable pub total : List Text → ℕ
total [] = 0
total (p ∷ ps) = length p + total ps

pub length-join :
    (sep : Text) (ps : List Text) (n : ℕ)
    → length ps ≡ suc n
    → length (join sep ps) ≡ total ps + n * length sep
unfolding total
length-join sep [] n h = absurd (ground (arith, h))
length-join sep (p ∷ []) zero h = omega arith
length-join sep (p ∷ []) (suc n) h = absurd (omega (arith, h))
length-join sep (p ∷ q ∷ ps) zero h = absurd (omega (arith, h))
length-join sep (p ∷ q ∷ ps) (suc n) h =
    length-append p (sep ++ join sep (q ∷ ps))
    ∙ ap (λ m. length p + m)
        (length-append sep (join sep (q ∷ ps))
          ∙ ap (λ m. length sep + m) (length-join sep (q ∷ ps) n (omega (arith, h))))
    ∙ omega (arith, suc-mul n (length sep))

pub is_prefix-append : (old after : Text) → is_prefix old (old ++ after) ≡ true
unfolding is_prefix
is_prefix-append [] after = refl
is_prefix-append (o ∷ old) after = ground (arith, is_prefix-append old after)

-- The old text is not empty.
module _ (o : ℕ) (os : Text) where
  abbrev pub old : Text
  old = o ∷ os

  less_one : length old - 1 ≡ length os
  less_one = omega arith

  pub join-empty :
      (sep : Text) (ps : List Text) (n : ℕ)
      → length ps ≡ suc n
      → join sep ([] ∷ ps) ≡ sep ++ join sep ps
  join-empty sep (p ∷ ps) n h = refl
  join-empty sep [] n h = absurd (ground (arith, h))

  -- The parts, with the old text between them, are the text.
  pub join-parts_from :
      (skip : ℕ) (text : Text) → join old (parts_from old skip text) ≡ drop skip text
  unfolding parts_from
  join-parts_from skip [] = sym (drop_nil skip)
  join-parts_from (suc skip) (c ∷ text) = join-parts_from skip text
  join-parts_from zero (c ∷ text) =
      each (is_prefix old (c ∷ text)) refl (join-parts_from (length old - 1) text)
        (join-parts_from 0 text)
    where
      each :
          (b : Bool)
          → is_prefix old (c ∷ text) ≡ b
          → join old (parts_from old (length old - 1) text) ≡ drop (length old - 1) text
          → join old (parts_from old 0 text) ≡ text
          → join old (
              if b
              then [] ∷ parts_from old (length old - 1) text
              else with_byte c (parts_from old 0 text))
            ≡ c ∷ text
      each true e h k =
          join-empty old (parts_from old (length old - 1) text)
            (count_from old (length old - 1) text) (length-parts_from old (length old - 1) text)
          ∙ ap (λ t. old ++ t) (h ∙ ap (λ n. drop n text) less_one)
          ∙ prefix-drop old (c ∷ text) e
      each false e h k = join-with_byte old c (parts_from old 0 text) ∙ ap (λ t. c ∷ t) k
