-- ===== src/Toml/Overrides.antt =====
-- internal/restrict/toml.go: what the overrides of `CodexMCPServer` say to a TOML reader.
use lib_agent_harness.Prelude.{
  ℕ, Bool, true, false, Option, none, some, List, [], map, ◌∷◌, ◌++◌, ◌==◌, if◌then◌else◌, codes,
  ◌>>=◌, ◌≡◌, refl, sym, ap, ◌∙◌, arith,
}
use mathlib.Core.List.{append_assoc, append-nil}
use lib_agent_harness.Text.{Text}
use lib_agent_harness.Toml.{
  is_bare, inserted, all_bare, bare_key, are_bare, sorted, keys, env_at, toml_string,
  toml_string_array, parts, joined, env_overrides, server_prefix, codex_mcp_server,
}
use lib_agent_harness.Toml.Reading.{
  is_key_char, pushed, on_path, read_path, are_named, Value, text_value, array_value, whole_text,
  whole_array, read_value, read_override, read_overrides, read_string, read_array,
}
use lib_agent_harness.Toml.RoundTrip.{reads_string}
use lib_agent_harness.Toml.Arrays.{reads_string_array, quoted}

key_char :
    (c : ℕ)
    → is_bare c ≡ true
    → (is_key_char c ≡ true) × ((c == b'=') ≡ false) × ((c == b'.') ≡ false)
key_char c h = ground arith

reads_char :
    (c : ℕ) (cs : Text) → is_bare c ≡ true → read_path (c ∷ cs) ≡ on_path (pushed c) (read_path cs)
unfolding read_path
reads_char c cs h = ground (arith, key_char c)

-- A bare key is read to the dot or the equals sign behind it.
reads_last_key : (k t : Text) → all_bare k ≡ true → read_path (k ++ b'=' ∷ t) ≡ some (k ∷ [], t)
reads_last_key [] t h = unfold read_path in refl
reads_last_key (c ∷ k) t h =
    reads_char c (k ++ b'=' ∷ t) (ground arith)
    ∙ ap (on_path (pushed c)) (reads_last_key k t (ground arith))

reads_key :
    (k t : Text) (path : List Text) (rest : Text)
    → all_bare k ≡ true
    → read_path t ≡ some (path, rest)
    → read_path (k ++ b'.' ∷ t) ≡ some (k ∷ path, rest)
reads_key [] t path rest h e = unfold read_path in ap (on_path (λ p. [] ∷ p)) e
reads_key (c ∷ k) t path rest h e =
    reads_char c (k ++ b'.' ∷ t) (ground arith)
    ∙ ap (on_path (pushed c)) (reads_key k t path rest (ground arith) e)

bare-all_bare : (k : Text) → bare_key k ≡ true → all_bare k ≡ true
unfolding bare_key
bare-all_bare [] h = refl
bare-all_bare (c ∷ k) h = h

bare-named :
    (k : Text) (ks : List Text)
    → bare_key k ≡ true
    → are_named ks ≡ true
    → are_named (k ∷ ks) ≡ true
unfolding bare_key
bare-named [] ks h n = absurd (ground (arith, h))
bare-named (c ∷ k) ks h n = n

abbrev pub servers : Text
servers = codes "mcp_servers"

reads_prefix :
    (name t : Text) (path : List Text) (rest : Text)
    → bare_key name ≡ true
    → read_path t ≡ some (path, rest)
    → read_path (server_prefix name ++ t) ≡ some (servers ∷ name ∷ path, rest)
reads_prefix name t path rest h e =
    ap (λ s. read_path (codes "mcp_servers." ++ s)) (append_assoc name (b'.' ∷ []) t)
    ∙ reads_key servers (name ++ b'.' ∷ t) (name ∷ path) rest refl
        (reads_key name t path rest (bare-all_bare name h) e)

override_lem :
    (text rest : Text) (path : List Text) (value : Value)
    → read_path text ≡ some (path, rest)
    → read_value rest ≡ some value
    → are_named path ≡ true
    → read_override text ≡ some (path, value)
unfolding read_override
override_lem text rest path value p v n = ground arith

-- one field of the server
reads_field :
    (name tail rest : Text) (path : List Text) (value : Value)
    → bare_key name ≡ true
    → read_path tail ≡ some (path, rest)
    → read_value rest ≡ some value
    → are_named path ≡ true
    → read_override (server_prefix name ++ tail) ≡ some (servers ∷ name ∷ path, value)
reads_field name tail rest path value h p v n =
    override_lem (server_prefix name ++ tail) rest (servers ∷ name ∷ path) value
      (reads_prefix name tail path rest h p) v (bare-named name path h n)

are_bare-inserted :
    (k : Text) (ks : List Text)
    → bare_key k ≡ true
    → are_bare ks ≡ true
    → are_bare (inserted k ks) ≡ true
are_bare-inserted k [] h hs = ground arith
are_bare-inserted k (x ∷ xs) h hs = ground (arith, are_bare-inserted k xs)

are_bare-sorted : (ks : List Text) → are_bare ks ≡ true → are_bare (sorted ks) ≡ true
unfolding sorted
are_bare-sorted [] h = refl
are_bare-sorted (k ∷ ks) h =
    are_bare-inserted k (sorted ks) (ground arith) (are_bare-sorted ks (ground arith))

some_inj {ℓ} : {A : Type ℓ} {a b : A} → some a ≡ some b → a ≡ b
some_inj q = cc

abbrev pub env_entry : Text → List (Text × Text) → Text → List Text × Value
env_entry name env key = (servers ∷ name ∷ codes "env" ∷ key ∷ [], text_value (env_at env key))

-- what the overrides of a server are to say
abbrev pub entries : Text → Text → List Text → List (Text × Text) → List (List Text × Value)
entries name command args env =
    (servers ∷ name ∷ codes "command" ∷ [], text_value command)
    ∷ (servers ∷ name ∷ codes "args" ∷ [], array_value args)
    ∷ map (env_entry name env) (sorted (keys env))

module _ (valid : Text → Bool) where
  reads_text_value :
      (v out : Text) → toml_string valid v ≡ some out → read_value out ≡ some (text_value v)
  unfolding read_value
  reads_text_value v out e =
      let (t, at) = quoted valid v out e in
      ap read_value at
      ∙ ap whole_text
          (ap read_string (sym at ∙ sym (append-nil out)) ∙ reads_string valid v out [] e)

  bracketed :
      (vs : List Text) (out : Text)
      → toml_string_array valid vs ≡ some out
      → (t : Text) × (out ≡ b'[' ∷ t)
  unfolding toml_string_array
  bracketed vs out e = each (parts valid vs) e
    where
      each :
          (o : Option (List Text))
          → (o >>= λ encoded. some (b'[' ∷ (joined encoded ++ b']' ∷ []))) ≡ some out
          → (t : Text) × (out ≡ b'[' ∷ t)
      each none q = absurd (ground (arith, q))
      each (some es) q = (joined es ++ b']' ∷ [], cc)

  reads_array_value :
      (vs : List Text) (out : Text)
      → toml_string_array valid vs ≡ some out
      → read_value out ≡ some (array_value vs)
  unfolding read_value
  reads_array_value vs out e =
      let (t, at) = bracketed vs out e in
      ap read_value at
      ∙ ap whole_array
          (ap read_array (sym at ∙ sym (append-nil out)) ∙ reads_string_array valid vs out [] e)

  reads_env :
      (name : Text) (env : List (Text × Text)) (ks : List Text) (out : List Text)
      → bare_key name ≡ true
      → are_bare ks ≡ true
      → env_overrides valid (server_prefix name) env ks ≡ some out
      → read_overrides out ≡ some (map (env_entry name env) ks)
  unfolding env_overrides read_overrides
  reads_env name env [] out h hs e = ap read_overrides (sym (some_inj e))
  reads_env name env (k ∷ ks) out h hs e =
      each (toml_string valid (env_at env k)) (env_overrides valid (server_prefix name) env ks) refl
        (λ rest. reads_env name env ks rest h (ground arith)) e
    where
      tail : Text → Text
      tail value = codes "env." ++ (k ++ (b'=' ∷ value))

      bare : bare_key k ≡ true
      bare = ground arith

      reads_one :
          (value : Text)
          → toml_string valid (env_at env k) ≡ some value
          → read_override (server_prefix name ++ tail value) ≡ some (env_entry name env k)
      reads_one value at =
          reads_field name (tail value) value (codes "env" ∷ k ∷ []) (text_value (env_at env k)) h
            (reads_key (codes "env") (k ++ b'=' ∷ value) (k ∷ []) value refl
              (reads_last_key k value (bare-all_bare k bare)))
            (reads_text_value (env_at env k) value at) (bare-named k [] bare refl)

      each :
          (o : Option Text) (r : Option (List Text))
          → toml_string valid (env_at env k) ≡ o
          → ((rest : List Text)
              → r ≡ some rest
              → read_overrides rest ≡ some (map (env_entry name env) ks))
          → (o >>= λ value. r >>= λ rest. some ((server_prefix name ++ tail value) ∷ rest))
            ≡ some out
          → read_overrides out ≡ some (map (env_entry name env) (k ∷ ks))
      each none r at more q = absurd (ground (arith, q))
      each (some value) none at more q = absurd (ground (arith, q))
      each (some value) (some rest) at more q =
          ap read_overrides (sym (some_inj q)) ∙ ground (arith, reads_one value at, more rest refl)

  -- The overrides that `CodexMCPServer` returns say, to a TOML reader, exactly what it was given: the
  -- command and the arguments of the server of that name, and each variable of its environment, in the
  -- order in which `sort.Strings` puts their names.
  pub registers :
      (name command : Text) (args : List Text) (env : List (Text × Text)) (out : List Text)
      → codex_mcp_server valid name command args env ≡ some out
      → read_overrides out ≡ some (entries name command args env)
  unfolding codex_mcp_server read_overrides
  registers name command args env out e =
      each (bare_key name) (toml_string valid command) (toml_string_array valid args)
        (are_bare (keys env)) refl refl refl refl e
    where
      first : Text → Text
      first value = server_prefix name ++ (codes "command=" ++ value)

      second : Text → Text
      second value = server_prefix name ++ (codes "args=" ++ value)

      last :
          (r : Option (List Text)) (c a : Text)
          → bare_key name ≡ true
          → toml_string valid command ≡ some c
          → toml_string_array valid args ≡ some a
          → ((rest : List Text)
              → r ≡ some rest
              → read_overrides rest ≡ some (map (env_entry name env) (sorted (keys env))))
          → (r >>= λ rest. some (first c ∷ second a ∷ rest)) ≡ some out
          → read_overrides out ≡ some (entries name command args env)
      last none c a h ec ea more q = absurd (ground (arith, q))
      last (some rest) c a h ec ea more q =
          ap read_overrides (sym (some_inj q))
          ∙ ground (
            arith,
            reads_field name (codes "command=" ++ c) c (codes "command" ∷ []) (text_value command) h
                (reads_last_key (codes "command") c refl) (reads_text_value command c ec) refl,
            reads_field name (codes "args=" ++ a) a (codes "args" ∷ []) (array_value args) h
                (reads_last_key (codes "args") a refl) (reads_array_value args a ea) refl,
            more rest refl,
          )

      each :
          (b : Bool) (oc oa : Option Text) (bs : Bool)
          → bare_key name ≡ b
          → toml_string valid command ≡ oc
          → toml_string_array valid args ≡ oa
          → are_bare (keys env) ≡ bs
          → (if b
              then (oc >>= λ c. oa >>= λ a.
                  (if bs
                    then env_overrides valid (server_prefix name) env (sorted (keys env))
                    else none)
                  >>= λ rest. some (first c ∷ second a ∷ rest))
              else none)
            ≡ some out
          → read_overrides out ≡ some (entries name command args env)
      each false oc oa bs h ec ea hs q = absurd (ground (arith, q))
      each true none oa bs h ec ea hs q = absurd (ground (arith, q))
      each true (some c) none bs h ec ea hs q = absurd (ground (arith, q))
      each true (some c) (some a) false h ec ea hs q = absurd (ground (arith, q))
      each true (some c) (some a) true h ec ea hs q =
          last (env_overrides valid (server_prefix name) env (sorted (keys env))) c a h ec ea
            (λ rest at.
              reads_env name env (sorted (keys env)) rest h (are_bare-sorted (keys env) hs) at)
            q
