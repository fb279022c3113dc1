-- ===== src/Text.antt =====
-- internal/textbound and `bound` of session/redact.go: texts cut to a limit of bytes. A text is the list
-- of its bytes.
pub mod Cut
pub mod Bound
pub mod Prefix
use lib_agent_harness.Prelude.{
  ℕ, zero, suc, ◌+◌, ◌-◌, ◌/◌, ◌%◌, Bool, true, false, not, ◌&&◌, ◌||◌, Option, none, some, List,
  [], ◌∷◌, ◌++◌, String, ltb, leb, ◌==◌, if◌then◌else◌, length, get_elem?, take, codes, ◌>>=◌,
}

abbrev pub Text : Type 0
Text = List ℕ

-- `utf8.RuneStart`: not of the form 10xxxxxx
abbrev pub is_rune_start : ℕ → Bool
is_rune_start b = ltb b 128 || leb 192 b

abbrev pub starts_rune : Option ℕ → Bool
starts_rune none = true
starts_rune (some b) = is_rune_start b

-- the loop of `Cut`, from its end downwards; `text[end]` is in range there
unfoldable pub rune_end : Text → ℕ → ℕ
rune_end text zero = 0
rune_end text (suc end) =
    let lower = rune_end text end in
    if starts_rune (get_elem? text (suc end)) then suc end else lower

unfoldable pub cut : Text → ℕ → Text
unfolding rune_end
cut text limit =
    if limit == 0
    then []
    else if leb (length text) limit
    then text
    else take (rune_end text limit) text

-- `strconv.Itoa`, with as much fuel as the number has units
unfoldable pub itoa_from : ℕ → ℕ → Text → Text
itoa_from zero n out = out
itoa_from (suc fuel) n out =
    let rest = itoa_from fuel (n / 10) ((b'0' + n % 10) ∷ out) in
    if ltb n 10 then (b'0' + n) ∷ out else rest

unfoldable pub itoa : ℕ → Text
unfolding itoa_from
itoa n = itoa_from (suc n) n []

unfoldable pub marker : ℕ → Text
marker omitted = codes "\n[truncated: " ++ (itoa omitted ++ codes " further bytes omitted]")

abbrev pub short_marker : Text
short_marker = codes "[truncated]"

-- The loop of `bound`: `none` where the fuel runs out, and else how it ends, with the text of its
-- `return` or with no room for a marker.
pub data Ending : Type 0 where
  returned : Text → Ending
  no_room : Ending

unfoldable pub settle : ℕ → Text → ℕ → ℕ → Option Ending
settle zero text limit end = none
settle (suc fuel) text limit end =
    let note = marker (length text - end) in
    let next = length (cut text (limit - length note)) in
    let rest = settle fuel text limit next in
    if ltb (length note) limit
    then (if next == end then some (returned (take end text ++ note)) else rest)
    else some no_room

unfoldable pub finish : Text → ℕ → Ending → Text
finish text limit (returned out) = out
finish text limit no_room =
    if leb (length short_marker) limit
    then cut text (limit - length short_marker) ++ short_marker
    else cut text limit

-- `bound`
unfoldable pub bound : Text → ℕ → Option Text
unfolding settle finish
bound text limit =
    if leb (length text) limit
    then some text
    else (do ending ← settle (suc limit + 1) text limit limit; some (finish text limit ending))
