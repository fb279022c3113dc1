-- ===== src/Toml/Arrays.antt =====
-- internal/restrict/toml.go: arrays of strings are read back.
use lib_agent_harness.Prelude.{
  ℕ, zero, suc, ◌<◌, ◌≤◌, Bool, true, false, Option, none, some, List, [], ◌∷◌, ◌++◌, if◌then◌else◌,
  ◌>>=◌, length, ◌≡◌, refl, sym, ap, subst, ◌∙◌, arith, length-append,
}
use mathlib.Core.List.{append_assoc}
use lib_agent_harness.Text.{Text}
use lib_agent_harness.Toml.{escaped, joined, toml_string, parts, toml_string_array}
use lib_agent_harness.Toml.Reading.{read_items, read_array}
use lib_agent_harness.Toml.RoundTrip.{reads_string}

module _ (valid : Text → Bool) where
  -- what was encoded for each of the values
  abbrev pub AreEncoded : List Text → List Text → Type 0
  AreEncoded [] [] = Unit
  AreEncoded (v ∷ vs) (e ∷ es) = (toml_string valid v ≡ some e) × AreEncoded vs es
  AreEncoded _ _ = ⊥

  parts-AreEncoded : (vs es : List Text) → parts valid vs ≡ some es → AreEncoded vs es
  unfolding parts
  parts-AreEncoded [] [] q = tt
  parts-AreEncoded [] (e ∷ es) q = absurd (ground (arith, q))
  parts-AreEncoded (v ∷ vs) es q =
      each (toml_string valid v) (parts valid vs) refl refl (λ rest. parts-AreEncoded vs rest) q
    where
      cons_inj :
          (a : Text) (as' : List Text) (bs : List Text) → some (a ∷ as') ≡ some bs → a ∷ as' ≡ bs
      cons_inj a as' bs r = cc

      each :
          (o : Option Text) (r : Option (List Text))
          → toml_string valid v ≡ o
          → parts valid vs ≡ r
          → ((rest : List Text) → parts valid vs ≡ some rest → AreEncoded vs rest)
          → (o >>= λ e. r >>= λ rest. some (e ∷ rest)) ≡ some es
          → AreEncoded (v ∷ vs) es
      each none r at there more h = absurd (ground (arith, h))
      each (some e) none at there more h = absurd (ground (arith, h))
      each (some e) (some rest) at there more h =
          subst (AreEncoded (v ∷ vs)) (cons_inj e rest es h) (at, more rest there)

  pub quoted : (v e : Text) → toml_string valid v ≡ some e → (t : Text) × (e ≡ b'"' ∷ t)
  unfolding toml_string
  quoted v e q = each (valid v) q
    where
      each :
          (b : Bool)
          → (if b then some (b'"' ∷ (escaped v ++ b'"' ∷ [])) else none) ≡ some e
          → (t : Text) × (e ≡ b'"' ∷ t)
      each false r = absurd (ground (arith, r))
      each true r = (escaped v ++ b'"' ∷ [], cc)

  length-joined : (vs es : List Text) → AreEncoded vs es → length vs ≤ length (joined es)
  unfolding joined
  length-joined [] [] h = omega arith
  length-joined [] (e ∷ es) h = absurd h
  length-joined (v ∷ vs) [] h = absurd h
  length-joined (v ∷ []) (e ∷ []) (q, h) = let (t, at) = quoted v e q in omega (arith, ap length at)
  length-joined (v ∷ []) (e ∷ f ∷ es) (q, h) = absurd h
  length-joined (v ∷ w ∷ vs) (e ∷ []) (q, h) = absurd h
  length-joined (v ∷ w ∷ vs) (e ∷ f ∷ es) (q, h) =
      omega (arith, length-joined (w ∷ vs) (f ∷ es) h, length-append e (b',' ∷ joined (f ∷ es)))

  reads_items :
      (v : Text) (vs es : List Text) (rest : Text) (fuel : ℕ)
      → AreEncoded (v ∷ vs) es
      → length vs < fuel
      → read_items fuel (joined es ++ b']' ∷ rest) ≡ some (v ∷ vs, rest)
  unfolding joined read_items
  reads_items v vs [] rest fuel h f = absurd h
  reads_items v vs es rest zero h f = absurd (omega arith)
  reads_items v [] (e ∷ []) rest (suc fuel) (q, h) f =
      ground (arith, reads_string valid v e (b']' ∷ rest) q)
  reads_items v [] (e ∷ g ∷ es) rest (suc fuel) (q, h) f = absurd h
  reads_items v (w ∷ vs) (e ∷ []) rest (suc fuel) (q, h) f = absurd h
  reads_items v (w ∷ vs) (e ∷ g ∷ es) rest (suc fuel) (q, h) f = ground (
    arith,
    append_assoc e (b',' ∷ joined (g ∷ es)) (b']' ∷ rest),
    reads_string valid v e (b',' ∷ (joined (g ∷ es) ++ b']' ∷ rest)) q,
    reads_items w vs (g ∷ es) rest fuel h (omega arith),
  )

  starts_quoted :
      (v : Text) (vs : List Text) (x : Text) (es : List Text)
      → AreEncoded (v ∷ vs) (x ∷ es)
      → (t : Text) × (joined (x ∷ es) ≡ b'"' ∷ t)
  unfolding joined
  starts_quoted v vs x [] (q, h) = quoted v x q
  starts_quoted v vs x (y ∷ es) (q, h) =
      let (t, at) = quoted v x q in
      (t ++ b',' ∷ joined (y ∷ es), ap (λ j. j ++ b',' ∷ joined (y ∷ es)) at)

  -- An array that `TOMLStringArray` encodes is read back from what it writes, whatever follows.
  pub reads_string_array :
      (values : List Text) (out rest : Text)
      → toml_string_array valid values ≡ some out
      → read_array (out ++ rest) ≡ some (values, rest)
  unfolding toml_string_array read_array
  reads_string_array values out rest e = each (parts valid values) refl e
    where
      some_inj : {a b : Text} → some a ≡ some b → a ≡ b
      some_inj q = cc

      not_quote : (t : Text) → read_array (b'[' ∷ b'"' ∷ t) ≡ read_items (suc (length t)) (b'"' ∷ t)
      not_quote t = refl

      reads :
          (vs es : List Text)
          → AreEncoded vs es
          → read_array (b'[' ∷ (joined es ++ b']' ∷ rest)) ≡ some (vs, rest)
      reads [] [] h = unfold joined in refl
      reads [] (x ∷ es) h = absurd h
      reads (v ∷ vs) [] h = absurd h
      reads (v ∷ vs) (x ∷ es) h =
          let (t, at) = starts_quoted v vs x es h in
          ap (λ j. read_array (b'[' ∷ (j ++ b']' ∷ rest))) at
          ∙ not_quote (t ++ b']' ∷ rest)
          ∙ ap (λ j. read_items (suc (length (t ++ b']' ∷ rest))) (j ++ b']' ∷ rest)) (sym at)
          ∙ reads_items v vs (x ∷ es) rest (suc (length (t ++ b']' ∷ rest))) h (
              omega (
                arith,
                length-joined (v ∷ vs) (x ∷ es) h,
                ap length at,
                length-append t (b']' ∷ rest),
              ))

      each :
          (o : Option (List Text))
          → parts valid values ≡ o
          → (o >>= λ encoded. some (b'[' ∷ (joined encoded ++ b']' ∷ []))) ≡ some out
          → read_array (out ++ rest) ≡ some (values, rest)
      each none at q = absurd (ground (arith, q))
      each (some es) at q =
          ap (λ t. read_array (t ++ rest)) (sym (some_inj q))
          ∙ ap (λ t. read_array (b'[' ∷ t)) (append_assoc (joined es) (b']' ∷ []) rest)
          ∙ reads values es (parts-AreEncoded values es at)
