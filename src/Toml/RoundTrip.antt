-- ===== src/Toml/RoundTrip.antt =====
-- internal/restrict/toml.go: a TOML reader reads back what `TOMLString` and `TOMLStringArray` write.
use lib_agent_harness.Prelude.{
  ℕ, zero, suc, ◌+◌, ◌*◌, ◌/◌, ◌%◌, ◌<◌, Bool, true, false, ◌||◌, Option, none, some, [], ◌∷◌, ◌++◌,
  ltb, ◌==◌, if◌then◌else◌, ◌≡◌, refl, sym, ap, subst, ◌∙◌, arith, Bool-cases, ◌⊎◌, inl, inr,
  ==_iff,
}
use mathlib.Core.List.{append_assoc}
use lib_agent_harness.Text.{Text}
use lib_agent_harness.Toml.{hex_digit, escape, escaped, toml_string}
use lib_agent_harness.Toml.Reading.{
  Place, plain, escaping, hexing, yields, utf8, hex_value, hexed, step, prefixed, read_rest,
  read_string,
}

hex_value-hex_digit : (n : ℕ) → n < 16 → hex_value (hex_digit n) ≡ some n
hex_value-hex_digit n h = ground arith

prefixed-nil : (o : Option (Text × Text)) → prefixed [] o ≡ o
prefixed-nil none = refl
prefixed-nil (some (v, rest)) = refl

prefixed-append :
    (a b : Text) (o : Option (Text × Text)) → prefixed a (prefixed b o) ≡ prefixed (a ++ b) o
prefixed-append a b none = refl
prefixed-append a b (some (v, rest)) = ap (λ t. some (t, rest)) (sym (append_assoc a b v))

-- How a byte is written: by a letter behind a backslash, by its four digits, or as it stands.
Shape : ℕ → Type 0
Shape c =
    ((e : ℕ) × (escape c ≡ b'\\' ∷ e ∷ []) × (step escaping e ≡ yields (c ∷ []) plain))
    ⊎ (((c < 128)
          × (escape c ≡ b'\\' ∷ b'u' ∷ b'0' ∷ b'0' ∷ hex_digit (c / 16) ∷ hex_digit (c % 16) ∷ []))
        ⊎ ((escape c ≡ c ∷ []) × (step plain c ≡ yields (c ∷ []) plain)))

escape-Shape : (c : ℕ) → Shape c
unfolding Shape escape step
escape-Shape c = letter 34 (inl (34, refl, refl)) (λ n1. letter 92 (inl (92, refl, refl)) (λ n2.
    letter 8 (inl (b'b', refl, refl)) (λ n3. letter 9 (inl (b't', refl, refl)) (λ n4.
      letter 10 (inl (b'n', refl, refl)) (λ n5. letter 12 (inl (b'f', refl, refl)) (λ n6.
        letter 13 (inl (b'r', refl, refl)) (λ n7. elim (Bool-cases (ltb c 32 || c == 127)) [
          | inl e ↦ inr (inl (ground arith, ground arith))
          | inr e ↦ inr (inr (ground arith, ground arith))
        ])))))))
  where
    letter : (k : ℕ) → Shape k → ((c == k) ≡ false → Shape c) → Shape c
    letter k here other = elim (Bool-cases (c == k)) [
      | inl e ↦ subst Shape (sym ((==_iff c k).0 e)) here
      | inr e ↦ other e
    ]

read_rest-yields :
    (p q : Place) (c : ℕ) (out tail : Text)
    → step p c ≡ yields out q
    → read_rest p (c ∷ tail) ≡ prefixed out (read_rest q tail)
unfolding read_rest
read_rest-yields p q c out tail e = ground arith

reads_digit :
    (left v d c : ℕ) (rest : Text)
    → hex_value c ≡ some d
    → read_rest (hexing (suc left) v) (c ∷ rest) ≡ read_rest (hexing left (v * 16 + d)) rest
reads_digit left v d c rest e =
    read_rest-yields (hexing (suc left) v) (hexing left (v * 16 + d)) c [] rest
      (unfold step in ap (hexed (suc left) v) e)
    ∙ prefixed-nil (read_rest (hexing left (v * 16 + d)) rest)

reads_last_digit :
    (v d c : ℕ) (rest : Text)
    → hex_value c ≡ some d
    → read_rest (hexing zero v) (c ∷ rest) ≡ prefixed (utf8 (v * 16 + d)) (read_rest plain rest)
reads_last_digit v d c rest e =
    read_rest-yields (hexing zero v) plain c (utf8 (v * 16 + d)) rest
      (unfold step in ap (hexed zero v) e)

reads_digits :
    (c : ℕ) (tail : Text)
    → c < 128
    → read_rest (hexing 3 0) (b'0' ∷ b'0' ∷ hex_digit (c / 16) ∷ hex_digit (c % 16) ∷ tail)
      ≡ prefixed (c ∷ []) (read_rest plain tail)
reads_digits c tail small =
    reads_digit 2 0 0 b'0' (b'0' ∷ high ∷ low ∷ tail) refl
    ∙ reads_digit 1 0 0 b'0' (high ∷ low ∷ tail) refl
    ∙ reads_digit 0 0 (c / 16) high (low ∷ tail) (hex_value-hex_digit (c / 16) (omega arith))
    ∙ reads_last_digit (0 * 16 + c / 16) (c % 16) low tail
        (hex_value-hex_digit (c % 16) (omega arith))
    ∙ ap (λ t. prefixed t (read_rest plain tail)) whole
  where
    high : ℕ
    high = hex_digit (c / 16)

    low : ℕ
    low = hex_digit (c % 16)

    value : (0 * 16 + c / 16) * 16 + c % 16 ≡ c
    value = omega arith

    whole : utf8 ((0 * 16 + c / 16) * 16 + c % 16) ≡ c ∷ []
    whole = ap utf8 value ∙ ground arith

reads_escape :
    (c : ℕ) (tail : Text)
    → read_rest plain (escape c ++ tail) ≡ prefixed (c ∷ []) (read_rest plain tail)
unfolding Shape
reads_escape c tail = each (escape-Shape c)
  where
    behind :
        (e : ℕ) (rest out : Text) (q : Place)
        → step escaping e ≡ yields out q
        → read_rest plain (b'\\' ∷ e ∷ rest) ≡ prefixed out (read_rest q rest)
    behind e rest out q s =
        read_rest-yields plain escaping b'\\' [] (e ∷ rest) (unfold step in refl)
        ∙ prefixed-nil (read_rest escaping (e ∷ rest))
        ∙ read_rest-yields escaping q e out rest s

    each : Shape c → read_rest plain (escape c ++ tail) ≡ prefixed (c ∷ []) (read_rest plain tail)
    each (inl (e, w, s)) = ap (λ t. read_rest plain (t ++ tail)) w ∙ behind e tail (c ∷ []) plain s
    each (inr (inl (small, w))) =
        ap (λ t. read_rest plain (t ++ tail)) w
        ∙ behind b'u' (b'0' ∷ b'0' ∷ hex_digit (c / 16) ∷ hex_digit (c % 16) ∷ tail) [] (hexing 3 0)
            (unfold step in refl)
        ∙ prefixed-nil
            (read_rest (hexing 3 0) (b'0' ∷ b'0' ∷ hex_digit (c / 16) ∷ hex_digit (c % 16) ∷ tail))
        ∙ reads_digits c tail small
    each (inr (inr (w, s))) =
        ap (λ t. read_rest plain (t ++ tail)) w ∙ read_rest-yields plain plain c (c ∷ []) tail s

-- The escaped text is read to the quote that ends it.
reads_escaped : (v rest : Text) → read_rest plain (escaped v ++ b'"' ∷ rest) ≡ some (v, rest)
unfolding escaped
reads_escaped [] rest = unfold read_rest step in refl
reads_escaped (c ∷ v) rest =
    ap (read_rest plain) (append_assoc (escape c) (escaped v) (b'"' ∷ rest))
    ∙ reads_escape c (escaped v ++ b'"' ∷ rest)
    ∙ ap (prefixed (c ∷ [])) (reads_escaped v rest)

module _ (valid : Text → Bool) where
  -- A text that `TOMLString` encodes is read back from what it writes, whatever follows.
  pub reads_string :
      (value out rest : Text)
      → toml_string valid value ≡ some out
      → read_string (out ++ rest) ≡ some (value, rest)
  unfolding toml_string read_string
  reads_string value out rest e = each (valid value) e
    where
      some_inj : {a b : Text} → some a ≡ some b → a ≡ b
      some_inj q = cc

      each :
          (b : Bool)
          → (if b then some (b'"' ∷ (escaped value ++ b'"' ∷ [])) else none) ≡ some out
          → read_string (out ++ rest) ≡ some (value, rest)
      each false q = absurd (ground (arith, q))
      each true q =
          ap (λ t. read_string (t ++ rest)) (sym (some_inj q))
          ∙ ap (read_rest plain) (append_assoc (escaped value) (b'"' ∷ []) rest)
          ∙ reads_escaped value rest
