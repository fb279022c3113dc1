-- ===== src/EventStream/Lines.antt =====
-- internal/apihttp/stream.go: reading a stream is feeding its lines.
use lib_agent_harness.Prelude.{
  ℕ, zero, suc, ◌+◌, ◌≤◌, ◌<◌, Bool, false, Option, none, some, List, [], ◌∷◌, ◌++◌, ◌==◌, ltb,
  length, length-append, All, ◌≡◌, refl, ◌∙◌, arith,
}
use lib_agent_harness.Text.{Text}
use lib_agent_harness.EventStream.{
  Ended, Reader, read_line, is_line_end, trim_cons, trim_right, take_line, Tail, last_line,
  after_line, after_read, read_from,
}

-- A line with no byte that ends one.
abbrev pub IsLine : Text → Type 0
IsLine line = All (λ c. is_line_end c ≡ false) line

unfoldable pub unlines : List Text → Text
unlines [] = []
unlines (line ∷ rest) = line ++ (10 ∷ unlines rest)

abbrev pub on_going :
    Reader × Option Ended → (Reader → Reader × Option Ended) → Reader × Option Ended
on_going (r, some e) rest = (r, some e)
on_going (r, none) rest = rest r

-- The lines one by one, up to one at which reading ends.
unfoldable pub feed : (List Text → Text → Bool) → Reader → List Text → Reader × Option Ended
feed accept r [] = (r, none)
feed accept r (line ∷ rest) = on_going (take_line accept r line) (λ r'. feed accept r' rest)

-- At the end of the body there is one more, empty line.
unfoldable pub finished : (List Text → Text → Bool) → Tail → Reader × Option Ended → Reader × Ended
finished accept tail (r, some e) = (r, e)
finished accept tail (r, none) = last_line tail (take_line accept r [])

not_newline : (c : ℕ) → is_line_end c ≡ false → (c == 10) ≡ false
not_newline c h = ground arith

pub read_line-line :
    (line rest : Text)
    → IsLine line
    → read_line (line ++ (10 ∷ rest)) ≡ some (line ++ 10 ∷ [], rest)
unfolding read_line
read_line-line [] rest clean = refl
read_line-line (c ∷ line) rest (h, clean) =
    rw (not_newline c h, read_line-line line rest clean) refl

pub trim_right-line : (line : Text) → IsLine line → trim_right (line ++ 10 ∷ []) ≡ line
unfolding trim_right
trim_right-line [] clean = refl
trim_right-line (c ∷ line) (h, clean) = rw (trim_right-line line clean) (whole c line h)
  where
    whole : (b : ℕ) (l : Text) → is_line_end b ≡ false → trim_cons b l ≡ b ∷ l
    whole b [] e = rw e refl
    whole b (d ∷ ds) e = refl

module _ (accept : List Text → Text → Bool) (limit : ℕ) (tail : Tail) where
  read_from-line :
      (fuel read : ℕ) (r : Reader) (line rest : Text)
      → IsLine line
      → read + length (line ++ 10 ∷ []) ≤ limit
      → read_from accept limit tail (suc fuel) read r (line ++ (10 ∷ rest))
        ≡ after_line
            (take_line accept r line)
            (λ r'. read_from accept limit tail fuel (read + length (line ++ 10 ∷ [])) r' rest)
  unfolding read_from after_read
  read_from-line fuel read r line rest clean fits =
      rw (read_line-line line rest clean, trim_right-line line clean, within) refl
    where
      within : ltb limit (read + length (line ++ 10 ∷ [])) ≡ false
      within = ground (arith, fits)

  step :
      (r : Reader × Option Ended) (lines : List Text) (go : Reader → Reader × Ended)
      → ((r' : Reader) → go r' ≡ finished accept tail (feed accept r' lines))
      → after_line r go ≡ finished accept tail (on_going r (λ r'. feed accept r' lines))
  unfolding finished
  step (r, some e) lines go h = refl
  step (r, none) lines go h = h r

  pub read_from-unlines :
      (fuel read : ℕ) (r : Reader) (lines : List Text)
      → All IsLine lines
      → length (unlines lines) < fuel
      → read + length (unlines lines) ≤ limit
      → read_from accept limit tail fuel read r (unlines lines)
        ≡ finished accept tail (feed accept r lines)
  unfolding unlines feed finished read_from after_read read_line trim_right
  read_from-unlines zero read r lines clean enough fits = absurd (omega arith)
  read_from-unlines (suc fuel) read r [] clean enough fits = rw within refl
    where
      within : ltb limit (read + 0) ≡ false
      within = ground (arith, fits)
  read_from-unlines (suc fuel) read r (line ∷ lines) (c, clean) enough fits =
      read_from-line fuel read r line (unlines lines) c (omega (arith, sizes, fits))
      ∙ step (take_line accept r line) lines
          (λ r'.
            read_from accept limit tail fuel (read + length (line ++ 10 ∷ [])) r' (unlines lines))
          (λ r'.
            read_from-unlines fuel (read + length (line ++ 10 ∷ [])) r' lines clean
              (omega (arith, sizes, enough)) (omega (arith, sizes, fits)))
    where
      one : length (line ++ 10 ∷ []) ≡ length line + 1
      one = length-append line (10 ∷ [])

      all : length (line ++ (10 ∷ unlines lines)) ≡ length line + suc (length (unlines lines))
      all = length-append line (10 ∷ unlines lines)

      sizes :
          (length (line ++ 10 ∷ []) ≡ length line + 1)
          × (length (line ++ (10 ∷ unlines lines)) ≡ length line + suc (length (unlines lines)))
      sizes = (one, all)
