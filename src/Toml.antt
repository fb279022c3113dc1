-- ===== src/Toml.antt =====
-- internal/restrict/toml.go: values and overrides in TOML. A text is the list of its bytes, and the only
-- use of its encoding, `utf8.ValidString`, is a parameter. A character past ASCII is written as it
-- stands, so its bytes are. The environment is the list of its entries, in the order of the iteration.
pub mod Accepted
pub mod Arrays
pub mod Overrides
pub mod Reading
pub mod RoundTrip
pub mod Sorted
use lib_agent_harness.Prelude.{
  ℕ, ◌+◌, ◌-◌, ◌/◌, ◌%◌, Bool, true, false, not, ◌&&◌, ◌||◌, Option, none, some, List, [], ◌∷◌,
  ◌++◌, map, ltb, leb, ◌==◌, if◌then◌else◌, codes, ◌>>=◌,
}
use lib_agent_harness.Text.{Text}

-- one digit of `%X`
abbrev pub hex_digit : ℕ → ℕ
hex_digit n = if ltb n 10 then b'0' + n else b'A' + (n - 10)

-- the body of the loop of `TOMLString`, with `%04X` of a byte
unfoldable pub escape : ℕ → Text
escape c =
    if c == b'"'
    then codes "\\\""
    else if c == b'\\'
    then codes "\\\\"
    else if c == 8
    then codes "\\b"
    else if c == 9
    then codes "\\t"
    else if c == 10
    then codes "\\n"
    else if c == 12
    then codes "\\f"
    else if c == 13
    then codes "\\r"
    else if ltb c 32 || c == 127
    then b'\\' ∷ b'u' ∷ b'0' ∷ b'0' ∷ hex_digit (c / 16) ∷ hex_digit (c % 16) ∷ []
    else c ∷ []

unfoldable pub escaped : Text → Text
escaped [] = []
escaped (c ∷ cs) = escape c ++ escaped cs

-- `strings.Join` with a comma
unfoldable pub joined : List Text → Text
joined [] = []
joined (t ∷ []) = t
joined (t ∷ u ∷ ts) = t ++ (b',' ∷ joined (u ∷ ts))

abbrev pub is_bare : ℕ → Bool
is_bare c =
    c == b'_'
    || c == b'-'
    || (leb b'a' c && leb c b'z')
    || (leb b'A' c && leb c b'Z')
    || (leb b'0' c && leb c b'9')

abbrev pub all_bare : Text → Bool
all_bare [] = true
all_bare (c ∷ cs) = is_bare c && all_bare cs

-- `bareKey`
unfoldable pub bare_key : Text → Bool
bare_key [] = false
bare_key (c ∷ cs) = all_bare (c ∷ cs)

-- the order of `sort.Strings`
abbrev pub text_leb : Text → Text → Bool
text_leb [] ys = true
text_leb (x ∷ xs) [] = false
text_leb (x ∷ xs) (y ∷ ys) = let rest = text_leb xs ys in if x == y then rest else ltb x y

-- `sort.Strings`
abbrev pub inserted : Text → List Text → List Text
inserted k [] = k ∷ []
inserted k (x ∷ xs) = let rest = inserted k xs in if text_leb k x then k ∷ x ∷ xs else x ∷ rest

unfoldable pub sorted : List Text → List Text
sorted [] = []
sorted (k ∷ ks) = inserted k (sorted ks)

abbrev pub text_eq : Text → Text → Bool
text_eq [] [] = true
text_eq (x ∷ xs) (y ∷ ys) = x == y && text_eq xs ys
text_eq _ _ = false

-- `env[key]`
unfoldable pub env_at : List (Text × Text) → Text → Text
env_at [] key = []
env_at ((k, value) ∷ env) key = if text_eq k key then value else env_at env key

abbrev pub keys : List (Text × Text) → List Text
keys env = map (λ e. e.0) env

abbrev pub are_bare : List Text → Bool
are_bare [] = true
are_bare (k ∷ ks) = bare_key k && are_bare ks

abbrev pub server_prefix : Text → Text
server_prefix name = codes "mcp_servers." ++ (name ++ b'.' ∷ [])

module _ (valid : Text → Bool) where
  -- `TOMLString`; `none` is `ErrUnencodable`
  unfoldable pub toml_string : Text → Option Text
  toml_string value = if valid value then some (b'"' ∷ (escaped value ++ b'"' ∷ [])) else none

  unfoldable pub parts : List Text → Option (List Text)
  unfolding toml_string
  parts [] = some []
  parts (v ∷ vs) = do encoded ← toml_string v; rest ← parts vs; some (encoded ∷ rest)

  -- `TOMLStringArray`
  unfoldable pub toml_string_array : List Text → Option Text
  unfolding parts joined
  toml_string_array values = do encoded ← parts values; some (b'[' ∷ (joined encoded ++ b']' ∷ []))

  -- the last loop of `CodexMCPServer`
  unfoldable pub env_overrides : Text → List (Text × Text) → List Text → Option (List Text)
  unfolding toml_string env_at
  env_overrides prefix env [] = some []
  env_overrides prefix env (key ∷ ks) = do
    value ← toml_string (env_at env key)
    rest ← env_overrides prefix env ks
    some ((prefix ++ (codes "env." ++ (key ++ (b'=' ∷ value)))) ∷ rest)

  -- `CodexMCPServer` after its first test
  unfoldable pub server_overrides :
      Text → Text → List Text → List (Text × Text) → Option (List Text)
  unfolding toml_string_array env_overrides sorted
  server_overrides prefix command args env = do
    encoded_command ← toml_string command
    encoded_args ← toml_string_array args
    rest ← if are_bare (keys env) then env_overrides prefix env (sorted (keys env)) else none
    some (
        (prefix ++ (codes "command=" ++ encoded_command))
        ∷ (prefix ++ (codes "args=" ++ encoded_args))
        ∷ rest)

  -- `CodexMCPServer`
  unfoldable pub codex_mcp_server :
      Text → Text → List Text → List (Text × Text) → Option (List Text)
  unfolding server_overrides
  codex_mcp_server name command args env =
      if bare_key name then server_overrides (server_prefix name) command args env else none
