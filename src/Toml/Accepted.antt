-- ===== src/Toml/Accepted.antt =====
-- internal/restrict/toml.go: what `CodexMCPServer` encodes, and what it refuses.
use lib_agent_harness.Prelude.{
  count_if, Bool, true, false, ◌&&◌, Option, none, some, List, [], map, ◌∷◌, ◌++◌, if◌then◌else◌,
  codes, ◌>>=◌, ◌≡◌, refl, ap, ◌∙◌, arith,
}
use lib_agent_harness.Text.{Text}
use lib_agent_harness.Toml.{
  text_eq, bare_key, are_bare, inserted, sorted, keys, env_at, toml_string, toml_string_array,
  parts, joined, env_overrides, server_prefix, codex_mcp_server,
}
use lib_agent_harness.Toml.Reading.{read_overrides}
use lib_agent_harness.Toml.Sorted.{is_ordered, sorted-count, sorted-ordered}
use lib_agent_harness.Toml.Overrides.{entries, registers}

abbrev pub is_some {ℓ} : {A : Type ℓ} → Option A → Bool
is_some none = false
is_some (some a) = true

module _ (valid : Text → Bool) where
  abbrev pub all_valid : List Text → Bool
  all_valid [] = true
  all_valid (v ∷ vs) = valid v && all_valid vs

  toml_string-some : (v : Text) → is_some (toml_string valid v) ≡ valid v
  unfolding toml_string
  toml_string-some v = ground arith

  parts-some : (vs : List Text) → is_some (parts valid vs) ≡ all_valid vs
  unfolding parts
  parts-some [] = refl
  parts-some (v ∷ vs) =
      each (toml_string valid v) (parts valid vs) (toml_string-some v) (parts-some vs)
    where
      each :
          (o : Option Text) (r : Option (List Text))
          → is_some o ≡ valid v
          → is_some r ≡ all_valid vs
          → is_some (o >>= λ e. r >>= λ rest. some (e ∷ rest)) ≡ valid v && all_valid vs
      each none r p q = ground (arith, p)
      each (some e) none p q = ground (arith, p, q)
      each (some e) (some rest) p q = ground (arith, p, q)

  array-some : (vs : List Text) → is_some (toml_string_array valid vs) ≡ all_valid vs
  unfolding toml_string_array
  array-some vs = each (parts valid vs) ∙ parts-some vs
    where
      each :
          (o : Option (List Text))
          → is_some (o >>= λ e. some (b'[' ∷ (joined e ++ b']' ∷ []))) ≡ is_some o
      each none = refl
      each (some e) = refl

  env-some :
      (prefix : Text) (env : List (Text × Text)) (ks : List Text)
      → is_some (env_overrides valid prefix env ks) ≡ all_valid (map (env_at env) ks)
  unfolding env_overrides
  env-some prefix env [] = refl
  env-some prefix env (k ∷ ks) =
      each (toml_string valid (env_at env k)) (env_overrides valid prefix env ks)
        (toml_string-some (env_at env k)) (env-some prefix env ks)
    where
      each :
          (o : Option Text) (r : Option (List Text))
          → is_some o ≡ valid (env_at env k)
          → is_some r ≡ all_valid (map (env_at env) ks)
          → is_some (
              o >>= λ value.
              r >>= λ rest. some ((prefix ++ (codes "env." ++ (k ++ (b'=' ∷ value)))) ∷ rest))
            ≡ valid (env_at env k) && all_valid (map (env_at env) ks)
      each none r p q = ground (arith, p)
      each (some e) none p q = ground (arith, p, q)
      each (some e) (some rest) p q = ground (arith, p, q)

  module _ (f : Text → Text) where
    valid-inserted :
        (k : Text) (ks : List Text)
        → all_valid (map f (inserted k ks)) ≡ valid (f k) && all_valid (map f ks)
    valid-inserted k [] = refl
    valid-inserted k (x ∷ xs) = ground (arith, valid-inserted k xs)

    valid-sorted : (ks : List Text) → all_valid (map f (sorted ks)) ≡ all_valid (map f ks)
    unfolding sorted
    valid-sorted [] = refl
    valid-sorted (k ∷ ks) =
        valid-inserted k (sorted ks) ∙ ap (λ b. valid (f k) && b) (valid-sorted ks)

  -- The names are bare keys and the texts are valid UTF-8.
  abbrev pub is_encodable : Text → Text → List Text → List (Text × Text) → Bool
  is_encodable name command args env =
      bare_key name
      && valid command
      && all_valid args
      && are_bare (keys env)
      && all_valid (map (env_at env) (keys env))

  codex-some :
      (name command : Text) (args : List Text) (env : List (Text × Text))
      → is_some (codex_mcp_server valid name command args env) ≡ is_encodable name command args env
  unfolding codex_mcp_server
  codex-some name command args env =
      each (bare_key name) (toml_string valid command) (toml_string_array valid args)
        (are_bare (keys env)) (env_overrides valid (server_prefix name) env (sorted (keys env)))
        (toml_string-some command) (array-some args)
        (env-some (server_prefix name) env (sorted (keys env))
          ∙ valid-sorted (env_at env) (keys env))
    where
      each :
          (b : Bool) (oc oa : Option Text) (bs : Bool) (r : Option (List Text))
          → is_some oc ≡ valid command
          → is_some oa ≡ all_valid args
          → is_some r ≡ all_valid (map (env_at env) (keys env))
          → is_some (
              if b
              then (oc >>= λ c. oa >>= λ a. (if bs then r else none) >>= λ rest. some (
                  (server_prefix name ++ (codes "command=" ++ c))
                  ∷ (server_prefix name ++ (codes "args=" ++ a))
                  ∷ rest))
              else none)
            ≡ b && valid command && all_valid args && bs && all_valid (map (env_at env) (keys env))
      each false oc oa bs r p q s = refl
      each true none oa bs r p q s = ground (arith, p)
      each true (some c) none bs r p q s = ground (arith, p, q)
      each true (some c) (some a) false r p q s = ground (arith, p, q)
      each true (some c) (some a) true none p q s = ground (arith, p, q, s)
      each true (some c) (some a) true (some rest) p q s = ground (arith, p, q, s)

  -- `CodexMCPServer` returns overrides exactly if the server's name and those of the variables are bare
  -- keys and every text is valid UTF-8. The overrides then say, to a TOML reader, exactly what it was
  -- given: the command and the arguments of the server of that name, and each variable with its value,
  -- in the order of their names: each name is there as often as it was given, and each before the next.
  pub registers_server :
      (name command : Text) (args : List Text) (env : List (Text × Text)) (key : Text)
      → (is_some (codex_mcp_server valid name command args env)
          ≡ is_encodable name command args env)
        × ((codex_mcp_server valid name command args env >>= read_overrides) ≡ (
            if is_encodable name command args env
            then some (entries name command args env)
            else none))
        × (count_if (text_eq key) (sorted (keys env)) ≡ count_if (text_eq key) (keys env))
        × (is_ordered (sorted (keys env)) ≡ true)
  registers_server name command args env key = (
    codex-some name command args env,
    each (codex_mcp_server valid name command args env) (is_encodable name command args env)
        (codex-some name command args env) (registers valid name command args env),
    sorted-count (text_eq key) (keys env),
    sorted-ordered (keys env),
  )
    where
      each :
          (o : Option (List Text)) (b : Bool)
          → is_some o ≡ b
          → ((out : List Text)
              → o ≡ some out
              → read_overrides out ≡ some (entries name command args env))
          → (o >>= read_overrides) ≡ (if b then some (entries name command args env) else none)
      each none true s r = absurd (ground (arith, s))
      each none false s r = refl
      each (some out) true s r = r out refl
      each (some out) false s r = absurd (ground (arith, s))
