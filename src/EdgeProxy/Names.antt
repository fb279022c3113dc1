-- ===== src/EdgeProxy/Names.antt =====
-- internal/edgeproxy/proxy.go: hostnames, requests and addresses, described by themselves.
use lib_agent_harness.Prelude.{
  ℕ, ◌≤◌, ◌<◌, Bool, true, false, some, List, [], ◌∷◌, ◌++◌, ◌==◌, ==_iff, length, All, codes,
  if◌then◌else◌, ◌≡◌, ◌≢◌, refl, sym, ap, ◌∙◌, ◌⊎◌, arith,
}
use lib_agent_harness.Prelude.Int.{ℤ, pos}
use mathlib.Core.List.{append_assoc, append-nil}
use lib_agent_harness.Text.{Text}
use lib_agent_harness.EdgeProxy.{
  text_eq, every, split_from, is_label, is_label_byte, first_is, last_is, Address, is_dialled,
  Request, has_body, is_empty, is_connect, is_single, hostname,
}

pub text_eq_sound : (xs ys : Text) → text_eq xs ys ≡ true → xs ≡ ys
text_eq_sound [] [] h = refl
text_eq_sound [] (y ∷ ys) h = absurd (ground (arith, h))
text_eq_sound (x ∷ xs) [] h = absurd (ground (arith, h))
text_eq_sound (x ∷ xs) (y ∷ ys) h = ground (arith, ==_iff x y, text_eq_sound xs ys)

abbrev pub IsNameByte : ℕ → Type 0
IsNameByte c = ((b'a' ≤ c) × (c ≤ b'z')) ⊎ (((b'0' ≤ c) × (c ≤ b'9')) ⊎ (c ≡ b'-'))

pub record IsLabel (l : Text) : Type 0 where
  pub some_bytes : l ≢ []
  pub short : length l ≤ 63
  pub first : (rest : Text) → l ≢ b'-' ∷ rest
  pub last : (start : Text) → l ≢ start ++ b'-' ∷ []
  pub bytes : All IsNameByte l

-- labels with dots between them
abbrev pub dotted : List Text → Text
dotted [] = []
dotted (l ∷ []) = l
dotted (l ∷ m ∷ ls) = l ++ (b'.' ∷ dotted (m ∷ ls))

-- A name that is given, and the hostname that it is: its lower case, of labels with dots between them.
pub record IsHostname (parse_ip : Text → Bool) (to_lower : Text → Text) (given host : Text)
    : Type 0 where
  pub some_bytes : given ≢ []
  pub short : length given ≤ 253
  pub no_dot : (start : Text) → given ≢ start ++ b'.' ∷ []
  pub no_ip : parse_ip given ≡ false
  pub lower : host ≡ to_lower given
  pub labels : List Text
  pub whole : host ≡ dotted labels
  pub each : All IsLabel labels

dotted-cons : (l : Text) (ls : List Text) → ls ≢ [] → dotted (l ∷ ls) ≡ l ++ (b'.' ∷ dotted ls)
dotted-cons l [] h = absurd (h refl)
dotted-cons l (m ∷ ls) h = refl

split_from-some : (label text : Text) → split_from label text ≢ []
unfolding split_from
split_from-some label [] e = absurd (ground (arith, ap is_empty e))
split_from-some label (c ∷ cs) e = each (c == 46) (split_from-some (label ++ c ∷ []) cs) e
  where
    each :
        (b : Bool)
        → split_from (label ++ c ∷ []) cs ≢ []
        → (if b then label ∷ split_from [] cs else split_from (label ++ c ∷ []) cs) ≡ []
        → ⊥
    each true more q = absurd (ground (arith, ap is_empty q))
    each false more q = more q

dotted-split_from : (label text : Text) → dotted (split_from label text) ≡ label ++ text
unfolding split_from
dotted-split_from label [] = sym (append-nil label)
dotted-split_from label (c ∷ cs) =
    each (c == 46) refl (dotted-split_from [] cs) (dotted-split_from (label ++ c ∷ []) cs)
  where
    each :
        (b : Bool)
        → (c == 46) ≡ b
        → dotted (split_from [] cs) ≡ cs
        → dotted (split_from (label ++ c ∷ []) cs) ≡ (label ++ c ∷ []) ++ cs
        → dotted (if b then label ∷ split_from [] cs else split_from (label ++ c ∷ []) cs)
          ≡ label ++ c ∷ cs
    each true e p q =
        dotted-cons label (split_from [] cs) (split_from-some [] cs)
        ∙ ap (λ t. label ++ (46 ∷ t)) p
        ∙ ap (λ d. label ++ (d ∷ cs)) (sym ((==_iff c 46).0 e))
    each false e p q = q ∙ append_assoc label (c ∷ []) cs

last_is-snoc : (b : ℕ) (start : Text) → last_is b (start ++ b ∷ []) ≡ true
last_is-snoc b [] = ground (arith, ==_iff b b)
last_is-snoc b (c ∷ []) = ground (arith, ==_iff b b)
last_is-snoc b (c ∷ d ∷ start) = last_is-snoc b (d ∷ start)

not_last : (b : ℕ) (t : Text) → last_is b t ≡ false → (start : Text) → t ≢ start ++ b ∷ []
not_last b t h start e = absurd (ground (arith, h, ap (last_is b) e, last_is-snoc b start))

label_bytes : (l : Text) → every is_label_byte l ≡ true → All IsNameByte l
label_bytes [] h = tt
label_bytes (c ∷ cs) h = (ground (arith, h), label_bytes cs (ground (arith, h)))

is_label-IsLabel : (l : Text) → is_label l ≡ true → IsLabel l
unfolding is_label
is_label-IsLabel l h = record {
  some_bytes = λ e. absurd (ground (arith, h, ap (λ t. length t) e));
  short = ground (arith, h);
  first = λ rest e. absurd (ground (arith, h, ap (first_is 45) e));
  last = not_last 45 l (ground (arith, h));
  bytes = label_bytes l (ground (arith, h));
}

every-IsLabel : (ls : List Text) → every is_label ls ≡ true → All IsLabel ls
every-IsLabel [] h = tt
every-IsLabel (l ∷ ls) h =
    (is_label-IsLabel l (ground (arith, h)), every-IsLabel ls (ground (arith, h)))

module _ (parse_ip : Text → Bool) (to_lower : Text → Text) where
  pub hostname-IsHostname :
      (given host : Text)
      → hostname parse_ip to_lower given ≡ some host
      → IsHostname parse_ip to_lower given host
  unfolding hostname
  hostname-IsHostname given host h = record {
    some_bytes = λ e. absurd (ground (arith, h, ap (λ t. length t) e));
    short = ground (arith, h);
    no_dot = not_last 46 given (ground (arith, h));
    no_ip = ground (arith, h);
    lower = lower;
    labels = split_from [] (to_lower given);
    whole = lower ∙ sym (dotted-split_from [] (to_lower given));
    each = every-IsLabel (split_from [] (to_lower given)) (ground (arith, h));
  }
    where
      lower : host ≡ to_lower given
      lower = ground (arith, h)

-- A CONNECT with no body, whose URL has nothing but its authority.
pub record IsConnect (r : Request) : Type 0 where
  pub method : r.method ≡ codes "CONNECT"
  pub no_body : (n : ℕ) → 0 < n → r.content_length ≢ pos n
  pub no_encoding : r.transfer_encoding ≡ []
  pub no_scheme : r.scheme ≡ []
  pub no_user : r.user ≡ false
  pub no_path : r.path ≡ []
  pub no_query : r.query ≡ []
  pub same_host : r.host ≡ r.uri

empty_nil {ℓ} : {A : Type ℓ} (xs : List A) → is_empty xs ≡ true → xs ≡ []
empty_nil [] h = refl
empty_nil (x ∷ xs) h = absurd (ground (arith, h))

no_body : (l : ℤ) → has_body l ≡ false → (n : ℕ) → 0 < n → l ≢ pos n
no_body l h n some_bytes e = absurd (ground (arith, h, ap has_body e))

pub is_connect-IsConnect : (r : Request) → is_connect r ≡ true → IsConnect r
unfolding is_connect
is_connect-IsConnect r h = record {
  method = text_eq_sound r.method (codes "CONNECT") (ground (arith, h));
  no_body = no_body r.content_length (ground (arith, h));
  no_encoding = empty_nil r.transfer_encoding (ground (arith, h));
  no_scheme = empty_nil r.scheme (ground (arith, h));
  no_user = ground (arith, h);
  no_path = empty_nil r.path (ground (arith, h));
  no_query = empty_nil r.query (ground (arith, h));
  same_host = text_eq_sound r.host r.uri (ground (arith, h));
}

pub single : (expected : Text) (cs : List Text) → is_single expected cs ≡ true → cs ≡ expected ∷ []
single expected [] h = absurd (ground (arith, h))
single expected (c ∷ []) h = ap (λ t. t ∷ []) (text_eq_sound c expected h)
single expected (c ∷ d ∷ cs) h = absurd (ground (arith, h))

-- An address that may be dialled under a destination, which permits private ones or not.
pub record IsPermitted (private : Bool) (a : Address) : Type 0 where
  pub valid : a.valid ≡ true
  pub no_zone : a.zoned ≡ false
  pub global : a.global_unicast ≡ true
  pub no_loopback : a.loopback ≡ false
  pub no_link : a.link_local ≡ false
  pub public : (private ≡ true) ⊎ ((a.private_range ≡ false) × (a.special ≡ false))

pub every-IsPermitted :
    (private : Bool) (xs : List Address)
    → every (is_dialled private) xs ≡ true
    → All (IsPermitted private) xs
every-IsPermitted private [] h = tt
every-IsPermitted private (a ∷ xs) h = (permitted, every-IsPermitted private xs (ground (arith, h)))
  where
    permitted : IsPermitted private a
    permitted = unfold is_dialled in ground (arith, h)
