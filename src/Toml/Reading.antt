-- ===== src/Toml/Reading.antt =====
-- What TOML says of basic strings, arrays of them and dotted keys, as a reader: a description that is
-- independent of internal/restrict/toml.go.
use lib_agent_harness.Prelude.{
  ℕ, zero, suc, ◌+◌, ◌-◌, ◌*◌, ◌/◌, ◌%◌, Bool, true, false, not, ◌&&◌, ◌||◌, Option, none, some,
  List, [], ◌∷◌, ◌++◌, ltb, leb, ◌==◌, if◌then◌else◌, ◌>>=◌, length,
}
use lib_agent_harness.Text.{Text}

-- Inside a basic string: among its characters, behind a backslash, or within the digits of an escape, so
-- many of them left, with their value so far.
pub data Place : Type 0 where
  plain escaping : Place
  hexing : ℕ → ℕ → Place

pub data Step : Type 0 where
  closes breaks : Step
  yields : Text → Place → Step

-- the UTF-8 of a code point below 2^16
abbrev pub utf8 : ℕ → Text
utf8 v =
    if ltb v 128
    then v ∷ []
    else if ltb v 2048
    then (192 + v / 64) ∷ (128 + v % 64) ∷ []
    else (224 + v / 4096) ∷ (128 + v / 64 % 64) ∷ (128 + v % 64) ∷ []

abbrev pub hex_value : ℕ → Option ℕ
hex_value c =
    if leb b'0' c && leb c b'9'
    then some (c - b'0')
    else if leb b'A' c && leb c b'F'
    then some (c - b'A' + 10)
    else if leb b'a' c && leb c b'f'
    then some (c - b'a' + 10)
    else none

abbrev pub hexed : ℕ → ℕ → Option ℕ → Step
hexed left v none = breaks
hexed zero v (some d) = yields (utf8 (v * 16 + d)) plain
hexed (suc left) v (some d) = yields [] (hexing left (v * 16 + d))

unfoldable pub step : Place → ℕ → Step
step plain c =
    if c == b'"'
    then closes
    else if c == b'\\'
    then yields [] escaping
    else if (ltb c 32 && not (c == 9)) || c == 127
    then breaks
    else yields (c ∷ []) plain
step escaping c =
    if c == b'b'
    then yields (8 ∷ []) plain
    else if c == b't'
    then yields (9 ∷ []) plain
    else if c == b'n'
    then yields (10 ∷ []) plain
    else if c == b'f'
    then yields (12 ∷ []) plain
    else if c == b'r'
    then yields (13 ∷ []) plain
    else if c == b'"' || c == b'\\'
    then yields (c ∷ []) plain
    else if c == b'u'
    then yields [] (hexing 3 0)
    else breaks
step (hexing left v) c = hexed left v (hex_value c)

abbrev pub prefixed : Text → Option (Text × Text) → Option (Text × Text)
prefixed out none = none
prefixed out (some (value, rest)) = some (out ++ value, rest)

-- the rest of a basic string, with what follows it
unfoldable pub read_rest : Place → Text → Option (Text × Text)
unfolding step
read_rest p [] = none
read_rest p (c ∷ cs) = elim (step p c) [
  | closes ↦ some ([], cs)
  | breaks ↦ none
  | yields out q ↦ prefixed out (read_rest q cs)
]

unfoldable pub read_string : Text → Option (Text × Text)
unfolding read_rest
read_string [] = none
read_string (c ∷ cs) = if c == b'"' then read_rest plain cs else none

-- the rest of an array, behind one of its strings
abbrev pub listed : Text → Option (List Text × Text) → Option (List Text × Text)
listed v none = none
listed v (some (vs, rest)) = some (v ∷ vs, rest)

unfoldable pub read_items : ℕ → Text → Option (List Text × Text)
unfolding read_string
read_items zero text = none
read_items (suc fuel) text = elim (read_string text) [
  | none ↦ none
  | some (v, []) ↦ none
  | some (v, c ∷ rest) ↦ elim (c == b']') [
    | true ↦ some (v ∷ [], rest)
    | false ↦ elim (c == b',') [ true ↦ listed v (read_items fuel rest) | false ↦ none ]
  ]
]

-- an array of basic strings, with no more of them than the text has bytes
unfoldable pub read_array : Text → Option (List Text × Text)
unfolding read_items
read_array (c ∷ d ∷ rest) =
    if c == b'['
    then (if d == b']' then some ([], rest) else read_items (suc (length rest)) (d ∷ rest))
    else none
read_array _ = none

-- `A-Za-z0-9_-`
abbrev pub is_key_char : ℕ → Bool
is_key_char c =
    (leb b'A' c && leb c b'Z')
    || (leb b'a' c && leb c b'z')
    || (leb b'0' c && leb c b'9')
    || c == b'_'
    || c == b'-'

abbrev pub pushed : ℕ → List Text → List Text
pushed c [] = (c ∷ []) ∷ []
pushed c (k ∷ ks) = (c ∷ k) ∷ ks

abbrev pub on_path : (List Text → List Text) → Option (List Text × Text) → Option (List Text × Text)
on_path f none = none
on_path f (some (path, rest)) = some (f path, rest)

-- a dotted key of bare keys, up to its equals sign, with what follows that
unfoldable pub read_path : Text → Option (List Text × Text)
read_path [] = none
read_path (c ∷ cs) =
    let more = read_path cs in
    if c == b'='
    then some ([] ∷ [], cs)
    else if c == b'.'
    then on_path (λ path. [] ∷ path) more
    else if is_key_char c
    then on_path (pushed c) more
    else none

abbrev pub are_named : List Text → Bool
are_named [] = true
are_named ([] ∷ ks) = false
are_named ((c ∷ k) ∷ ks) = are_named ks

pub data Value : Type 0 where
  text_value : Text → Value
  array_value : List Text → Value

abbrev pub whole_text : Option (Text × Text) → Option Value
whole_text (some (v, [])) = some (text_value v)
whole_text _ = none

abbrev pub whole_array : Option (List Text × Text) → Option Value
whole_array (some (vs, [])) = some (array_value vs)
whole_array _ = none

unfoldable pub read_value : Text → Option Value
unfolding read_string read_array
read_value [] = none
read_value (c ∷ cs) =
    if c == b'[' then whole_array (read_array (c ∷ cs)) else whole_text (read_string (c ∷ cs))

-- An override: a dotted key, all of whose keys are named, and one value.
unfoldable pub read_override : Text → Option (List Text × Value)
unfolding read_path read_value
read_override text = elim (read_path text) [
  | none ↦ none
  | some (path, rest) ↦ elim (read_value rest) [
    | none ↦ none
    | some value ↦ if are_named path then some (path, value) else none
  ]
]

unfoldable pub read_overrides : List Text → Option (List (List Text × Value))
unfolding read_override
read_overrides [] = some []
read_overrides (text ∷ texts) = do
  one ← read_override text
  rest ← read_overrides texts
  some (one ∷ rest)
