-- ===== src/Workbench/Edit.antt =====
-- sandbox/write.go: `applyEdit`. Texts are lists of bytes, and lengths are words of 64 bits.
use lib_agent_harness.Prelude.{
  ℕ, zero, suc, ◌+◌, ◌-◌, ◌*◌, ◌%◌, ◌^◌, Bool, true, false, not, ◌&&◌, Option, none, some, [], ◌∷◌,
  ◌++◌, ltb, ◌==◌, length, if◌then◌else◌,
}
use lib_agent_harness.Text.{Text}

unfoldable pub is_prefix : Text → Text → Bool
is_prefix [] text = true
is_prefix (o ∷ old) [] = false
is_prefix (o ∷ old) (c ∷ text) = o == c && is_prefix old text

-- `strings.Count` from a place on, with so many bytes to skip: the matches do not overlap
unfoldable pub count_from : Text → ℕ → Text → ℕ
unfolding is_prefix
count_from old skip [] = 0
count_from old (suc skip) (c ∷ text) = count_from old skip text
count_from old zero (c ∷ text) =
    let after = count_from old (length old - 1) text in
    let on = count_from old 0 text in if is_prefix old (c ∷ text) then suc after else on

-- `strings.Replace` for at most so many matches; `none` for all
abbrev pub is_left : Option ℕ → Bool
is_left none = true
is_left (some n) = ltb 0 n

abbrev pub one_less : Option ℕ → Option ℕ
one_less none = none
one_less (some n) = some (n - 1)

unfoldable pub replace_from : Text → Text → Option ℕ → ℕ → Text → Text
unfolding is_prefix
replace_from old new n skip [] = []
replace_from old new n (suc skip) (c ∷ text) = replace_from old new n skip text
replace_from old new n zero (c ∷ text) =
    let after = replace_from old new (one_less n) (length old - 1) text in
    let on = replace_from old new n 0 text in
    if is_prefix old (c ∷ text) && is_left n then new ++ after else c ∷ on

-- how `applyEdit` answers
pub data Refusal : Type 0 where
  match_not_found match_not_unique file_too_large : Refusal

pub data Edited : Type 0 where
  edited : Text → Edited
  refused : Refusal → Edited

abbrev pub word : ℕ
word = 2 ^ 64

-- the length of the result, in `uint64`
unfoldable pub edited_length : Text → Text → Text → ℕ → ℕ
edited_length content old new matches =
    (length content + (word - matches * length old % word) + matches * length new) % word

abbrev pub max_file : ℕ
max_file = 2 ^ 20

-- the most that `writeFile` reads of a file
abbrev pub max_read_file : ℕ
max_read_file = 2 ^ 24

-- `applyEdit`
unfoldable pub apply_edit : Text → Text → Text → Bool → Edited
unfolding count_from replace_from edited_length
apply_edit content old new all =
    let count = count_from old 0 content in
    let matches = if all then count else 1 in
    if count == 0
    then refused match_not_found
    else if not (count == 1) && not all
    then refused match_not_unique
    else if ltb max_file (edited_length content old new matches)
    then refused file_too_large
    else edited (replace_from old new (if all then none else some 1) 0 content)
