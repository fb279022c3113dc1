-- ===== src/Workbench/Exact.antt =====
-- sandbox/write.go: what `applyEdit` answers, by the parts of the text between the matches.
use lib_agent_harness.Prelude.{
  ℕ, zero, suc, ◌+◌, ◌-◌, ◌*◌, ◌%◌, ◌^◌, ◌≤◌, ◌<◌, Bool, true, false, not, ◌&&◌, Option, none, some,
  List, [], ◌∷◌, ◌++◌, ltb, ◌==◌, length, if◌then◌else◌, ◌≡◌, ◌≢◌, refl, sym, ap, ◌∙◌, ◌⊎◌, inl,
  inr, arith,
}
use native.Mathlib.Nat.{mul-suc, mod-eq_of_lt, mul-le-mul}
use lib_agent_harness.Text.{Text}
use lib_agent_harness.Workbench.Edit.{
  is_prefix, count_from, is_left, one_less, replace_from, match_not_found, match_not_unique,
  file_too_large, Edited, edited, refused, word, edited_length, max_file, max_read_file, apply_edit,
}
use lib_agent_harness.Workbench.Parts.{
  join, with_byte, parts_from, length-parts_from, join-with_byte, total, length-join,
  is_prefix-append, join-empty, join-parts_from,
}

-- The length that is computed modulo 2^64 is the length.
edited_length-exact :
    (content old new : Text) (n rest : ℕ)
    → length content ≡ rest + n * length old
    → length content < 2 ^ 32
    → n * length new < 2 ^ 63
    → edited_length content old new n ≡ rest + n * length new
unfolding edited_length
edited_length-exact content old new n rest whole small fits =
    ap (λ m. (length content + (word - m) + n * length new) % word)
      (mod-eq_of_lt (omega (arith, whole, small)))
    ∙ omega (arith, whole, small, fits)

-- The old text is not empty.
module _ (o : ℕ) (os : Text) where
  abbrev pub old : Text
  old = o ∷ os

  -- so many matches, at least, may be replaced
  abbrev IsEnough : Option ℕ → ℕ → Type 0
  IsEnough none count = Unit
  IsEnough (some n) count = count ≤ n

  -- Replacing every match puts the new text between the parts.
  replace_from-join :
      (new : Text) (n : Option ℕ) (skip : ℕ) (text : Text)
      → IsEnough n (count_from old skip text)
      → replace_from old new n skip text ≡ join new (parts_from old skip text)
  unfolding replace_from parts_from count_from
  replace_from-join new n skip [] enough = refl
  replace_from-join new n (suc skip) (c ∷ text) enough = replace_from-join new n skip text enough
  replace_from-join new n zero (c ∷ text) enough =
      each (is_prefix old (c ∷ text)) n enough
        (λ m e. replace_from-join new m (length old - 1) text e) (replace_from-join new n 0 text)
    where
      empty_first :
          join new ([] ∷ parts_from old (length old - 1) text)
          ≡ new ++ join new (parts_from old (length old - 1) text)
      empty_first =
          join-empty o os new (parts_from old (length old - 1) text)
            (count_from old (length old - 1) text) (length-parts_from old (length old - 1) text)

      each :
          (b : Bool) (m : Option ℕ)
          → IsEnough m
              (if b then suc (count_from old (length old - 1) text) else count_from old 0 text)
          → ((m : Option ℕ)
              → IsEnough m (count_from old (length old - 1) text)
              → replace_from old new m (length old - 1) text
                ≡ join new (parts_from old (length old - 1) text))
          → (IsEnough m (count_from old 0 text)
              → replace_from old new m 0 text ≡ join new (parts_from old 0 text))
          → (if b && is_left m
              then new ++ replace_from old new (one_less m) (length old - 1) text
              else c ∷ replace_from old new m 0 text)
            ≡ join new (
                if b
                then [] ∷ parts_from old (length old - 1) text
                else with_byte c (parts_from old 0 text))
      each false m e h k =
          ap (λ t. c ∷ t) (k e) ∙ sym (join-with_byte new c (parts_from old 0 text))
      each true none e h k = ap (λ t. new ++ t) (h none tt) ∙ sym empty_first
      each true (some j) e h k =
          rw more (ap (λ t. new ++ t) (h (some (j - 1)) (omega (arith, e))) ∙ sym empty_first)
        where
          more : ltb 0 j ≡ true
          more = ground (arith, e)

  -- Where nothing is counted, the old text occurs nowhere.
  count_from-occurring : (before after : Text) → count_from old 0 (before ++ (old ++ after)) ≢ 0
  unfolding count_from
  count_from-occurring [] after h = absurd (ground (arith, h, is_prefix-append old after))
  count_from-occurring (c ∷ before) after h =
      each (is_prefix old (c ∷ (before ++ (old ++ after)))) h (count_from-occurring before after)
    where
      each :
          (b : Bool)
          → (if b
              then suc (count_from old (length old - 1) (before ++ (old ++ after)))
              else count_from old 0 (before ++ (old ++ after)))
            ≡ 0
          → (count_from old 0 (before ++ (old ++ after)) ≢ 0)
          → ⊥
      each true e k = absurd (omega (arith, e))
      each false e k = k e

  abbrev pub parts : Text → List Text
  parts content = parts_from old 0 content

  -- What an answer says of the parts between the matches.
  abbrev pub Explains : Text → Text → Bool → Edited → Type 0
  Explains content new all (edited out) =
      (out ≡ join new (parts content))
      × (1 < length (parts content))
      × ((all ≡ true) ⊎ (length (parts content) ≡ 2))
      × (length out ≤ max_file)
  Explains content new all (refused match_not_found) =
      (before after : Text) → content ≢ before ++ (old ++ after)
  Explains content new all (refused match_not_unique) = (all ≡ false) × (2 < length (parts content))
  Explains content new all (refused file_too_large) =
      (1 < length (parts content))
      × ((all ≡ true) ⊎ (length (parts content) ≡ 2))
      × (max_file < length (join new (parts content)))

  whole : (content : Text) → content ≡ join old (parts content)
  whole content = sym (join-parts_from o os 0 content)

  sized :
      (content new : Text)
      → length content ≤ max_read_file
      → length new < 2 ^ 32
      → edited_length content old new (count_from old 0 content) ≡ length (join new (parts content))
  sized content new small short =
      edited_length-exact content old new n (total (parts content)) long (omega (arith, small))
        (omega (arith, few, bounded, short))
      ∙ sym (length-join new (parts content) n (length-parts_from old 0 content))
    where
      n : ℕ
      n = count_from old 0 content

      long : length content ≡ total (parts content) + n * length old
      long =
          ap length (whole content)
          ∙ length-join old (parts content) n (length-parts_from old 0 content)

      few : n ≤ max_read_file
      few = omega (arith, long, small, mul-suc n (length os))

      bounded : n * length new ≤ max_read_file * 2 ^ 32
      bounded = mul-le-mul {m₂ = 2 ^ 32} few (omega (arith, short))

  explained :
      (content new : Text) (all : Bool)
      → length content ≤ max_read_file
      → length new < 2 ^ 32
      → Explains content new all (apply_edit content old new all)
  unfolding apply_edit
  explained content new all small short = each all (n == 0) (n == 1) refl refl
    where
      n : ℕ
      n = count_from old 0 content

      many : length (parts content) ≡ suc n
      many = length-parts_from old 0 content

      one_length : n ≡ 1 → edited_length content old new 1 ≡ length (join new (parts content))
      one_length one = ap (edited_length content old new) (sym one) ∙ sized content new small short

      one_replaced : n ≡ 1 → replace_from old new (some 1) 0 content ≡ join new (parts content)
      one_replaced one = replace_from-join new (some 1) 0 content (omega (arith, one))

      -- the text with every match replaced, if it is not too long
      for_length :
          (al big : Bool) (l : ℕ) (out : Text)
          → (n == 0) ≡ false
          → (al ≡ true) ⊎ (length (parts content) ≡ 2)
          → l ≡ length (join new (parts content))
          → out ≡ join new (parts content)
          → ltb max_file l ≡ big
          → Explains content new al (if big then refused file_too_large else edited out)
      for_length al true l out p single long same r =
          (ground (arith, p, many), single, ground (arith, r, long))
      for_length al false l out p single long same r =
          (same, ground (arith, p, many), single, ground (arith, r, long, ap length same))

      each :
          (al z u : Bool)
          → (n == 0) ≡ z
          → (n == 1) ≡ u
          → Explains content new al (
              if z
              then refused match_not_found
              else if not u && not al
              then refused match_not_unique
              else if ltb max_file (edited_length content old new (if al then n else 1))
              then refused file_too_large
              else edited (replace_from old new (if al then none else some 1) 0 content))
      each al true u p q = λ before after same.
          count_from-occurring before after (ap (count_from old 0) (sym same) ∙ ground (arith, p))
      each false false false p q = (refl, ground (arith, p, q, many))
      each true false u p q = rw (or_all u) (
          for_length true (ltb max_file (edited_length content old new n))
            (edited_length content old new n) (replace_from old new none 0 content) p (inl refl)
            (sized content new small short) (replace_from-join new none 0 content tt) refl)
        where
          or_all : (b : Bool) → (not b && false) ≡ false
          or_all true = refl
          or_all false = refl
      each false false true p q =
          for_length false (ltb max_file (edited_length content old new 1))
            (edited_length content old new 1) (replace_from old new (some 1) 0 content) p
            (inr (ground (arith, q, many))) (one_length (ground (arith, q)))
            (one_replaced (ground (arith, q))) refl

-- `applyEdit` of a text of at most 16 MiB with an old text that is not empty and a new one of less than
-- 2^32 bytes: the text is its parts between the matches that strings.Count finds, joined by the old text.
-- If it is edited, it is those parts joined by the new text, of at most 1 MiB, with one match at least,
-- and one only unless all are replaced. It is refused as not found where the old text occurs nowhere, as
-- not unique where not all are replaced and there are two matches or more, and as too large where the
-- edited text is longer than 1 MiB: the length that is computed in 64 bits is that of the edited text.
pub edit_explained :
    (o : ℕ) (os content new : Text) (all : Bool)
    → length content ≤ max_read_file
    → length new < 2 ^ 32
    → (content ≡ join (o ∷ os) (parts o os content))
      × Explains o os content new all (apply_edit content (o ∷ os) new all)
edit_explained o os content new all small short =
    (whole o os content, explained o os content new all small short)
