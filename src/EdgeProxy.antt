-- ===== src/EdgeProxy.antt =====
-- internal/edgeproxy/proxy.go: what the proxy of an edge lets through. `net.ParseIP`,
-- `strings.ToLower`, `net.SplitHostPort`, the canonical reading of a port and the resolver are
-- parameters. Texts are lists of bytes. A policy key, `net.JoinHostPort` of a valid hostname and a port,
-- is the pair that it is made of: a valid hostname has no colon.
pub mod Admission
pub mod Names
use lib_agent_harness.Prelude.{
  ℕ, ◌≤◌, Bool, true, false, not, ◌&&◌, ◌||◌, Option, none, some, List, [], ◌∷◌, ◌++◌, ◌==◌, ltb,
  leb, length, if◌then◌else◌, ◌+◌, codes,
}
use lib_agent_harness.Prelude.Int.{ℤ, pos, negsuc}
use lib_agent_harness.Text.{Text}

pub record Destination : Type 0 where
  pub host : Text
  pub port : ℕ
  pub private : Bool

abbrev pub text_eq : Text → Text → Bool
text_eq [] [] = true
text_eq (x ∷ xs) (y ∷ ys) = x == y && text_eq xs ys
text_eq _ _ = false

-- `strings.Split(s, ".")`
unfoldable pub split_from : Text → Text → List Text
split_from label [] = label ∷ []
split_from label (c ∷ cs) =
    let rest = split_from [] cs in
    let more = split_from (label ++ c ∷ []) cs in if c == 46 then label ∷ rest else more

abbrev pub last_is : ℕ → Text → Bool
last_is b [] = false
last_is b (c ∷ []) = c == b
last_is b (c ∷ d ∷ cs) = last_is b (d ∷ cs)

abbrev pub first_is : ℕ → Text → Bool
first_is b [] = false
first_is b (c ∷ cs) = c == b

abbrev pub is_label_byte : ℕ → Bool
is_label_byte c = (leb 97 c && leb c 122) || ((leb 48 c && leb c 57) || c == 45)

abbrev pub every {ℓ} : {A : Type ℓ} → (A → Bool) → List A → Bool
every p [] = true
every p (x ∷ xs) = p x && every p xs

unfoldable pub is_label : Text → Bool
is_label l =
    not (length l == 0)
    && (leb (length l) 63 && (not (first_is 45 l) && (not (last_is 45 l) && every is_label_byte l)))

-- the addresses of a name, by what `netip.Addr` says of each once it is unmapped; `special` is
-- `specialAddress`
pub record Address : Type 0 where
  pub valid : Bool
  pub zoned : Bool
  pub global_unicast : Bool
  pub loopback : Bool
  pub link_local : Bool
  pub private_range : Bool
  pub special : Bool

unfoldable pub is_dialled : Bool → Address → Bool
is_dialled private a =
    a.valid
    && (not a.zoned
        && (a.global_unicast
            && (not a.loopback
                && (not a.link_local && (private || not (a.private_range || a.special))))))

-- `http.Request`, with the parts of its URL that `serve` reads; `user` says whether there is one. A header
-- is under its canonical name.
pub record Request : Type 0 where
  pub method : Text
  pub proto : Text
  pub uri : Text
  pub headers : List (Text × List Text)
  pub content_length : ℤ
  pub transfer_encoding : List Text
  pub scheme : Text
  pub user : Bool
  pub path : Text
  pub query : Text
  pub host : Text

unfoldable pub values_bytes : Text → List Text → ℕ
values_bytes name [] = 0
values_bytes name (value ∷ values) = length name + length value + 4 + values_bytes name values

unfoldable pub headers_bytes : List (Text × List Text) → ℕ
unfolding values_bytes
headers_bytes [] = 0
headers_bytes ((name, values) ∷ headers) = values_bytes name values + headers_bytes headers

unfoldable pub header_bytes : Request → ℕ
unfolding headers_bytes
header_bytes r = length r.uri + length r.method + length r.proto + 8 + headers_bytes r.headers

-- `http.Header.Values`
abbrev pub header_values : Text → List (Text × List Text) → List Text
header_values key [] = []
header_values key ((name, values) ∷ headers) =
    if text_eq name key then values else header_values key headers

abbrev pub credentials : Request → List Text
credentials r = header_values (codes "Proxy-Authorization") r.headers

abbrev pub has_body : ℤ → Bool
has_body (pos n) = ltb 0 n
has_body (negsuc n) = false

abbrev pub is_empty {ℓ} : {A : Type ℓ} → List A → Bool
is_empty [] = true
is_empty (_ ∷ _) = false

-- a CONNECT with nothing but its authority
unfoldable pub is_connect : Request → Bool
is_connect r =
    text_eq r.method (codes "CONNECT")
    && (not (has_body r.content_length)
        && (is_empty r.transfer_encoding
            && (is_empty r.scheme
                && (not r.user
                    && (is_empty r.path && (is_empty r.query && text_eq r.host r.uri))))))

pub data Verdict : Type 0 where
  closed headers_refused credential_required connect_required destination_refused : Verdict
  resolution_refused address_refused : Verdict
  dials : Text → ℕ → List Address → Verdict

abbrev pub Policy : Type 0
Policy = List ((Text × ℕ) × Bool)

unfoldable pub allowed : Policy → Text → ℕ → Option Bool
allowed [] host port = none
allowed (((h, p), private) ∷ rest) host port =
    let later = allowed rest host port in
    if text_eq h host && p == port then some private else later

abbrev pub is_single : Text → List Text → Bool
is_single expected (c ∷ []) = text_eq c expected
is_single expected _ = false

abbrev pub same_flag : Bool → Bool → Bool
same_flag true b = b
same_flag false b = not b

module _ (parse_ip : Text → Bool) (to_lower : Text → Text) where
  unfoldable pub hostname : Text → Option Text
  unfolding split_from is_label
  hostname s =
      if length s == 0 || (ltb 253 (length s) || (last_is 46 s || parse_ip s))
      then none
      else if every is_label (split_from [] (to_lower s))
      then some (to_lower s)
      else none

  -- the policy that `newProxy` makes of one more destination, and of all
  unfoldable pub add_destination : Policy → Destination → Option Policy
  unfolding hostname allowed
  add_destination policy d = elim (hostname d.host) [
    | none ↦ none
    | some host ↦ if d.port == 0 then none else elim (allowed policy host d.port) [
      | none ↦ some (((host, d.port), d.private) ∷ policy)
      | some old ↦ if same_flag old d.private then some policy else none
    ]
  ]

  unfoldable pub policy_from : Policy → List Destination → Option Policy
  unfolding add_destination
  policy_from policy [] = some policy
  policy_from policy (d ∷ ds) = elim (add_destination policy d) [
    | none ↦ none
    | some more ↦ policy_from more ds
  ]

  unfoldable pub policy_of : List Destination → Option Policy
  unfolding policy_from
  policy_of ds = elim (policy_from [] ds) [
    | none ↦ none
    | some [] ↦ none
    | some (e ∷ policy) ↦ some (e ∷ policy)
  ]

  module _ (split_host_port : Text → Option (Text × Text)) (read_port : Text → Option ℕ)
      (resolve : Text → Option (List Address)) where
    -- the host and the port that a request names
    unfoldable pub target : Text → Option (Text × ℕ)
    unfolding hostname
    target uri = elim (split_host_port uri) [
      | none ↦ none
      | some (host, port) ↦ elim (hostname host) [
        | none ↦ none
        | some canonical ↦ elim (read_port port) [
          | none ↦ none
          | some n ↦ if n == 0 then none else some (canonical, n)
        ]
      ]
    ]

    unfoldable pub resolved : Bool → Text → ℕ → Option (List Address) → Verdict
    unfolding is_dialled
    resolved private host port none = resolution_refused
    resolved private host port (some []) = resolution_refused
    resolved private host port (some (a ∷ as')) =
        if every (is_dialled private) (a ∷ as') then dials host port (a ∷ as') else address_refused

    unfoldable pub directed : Policy → Option (Text × ℕ) → Verdict
    unfolding allowed resolved
    directed policy none = destination_refused
    directed policy (some (host, port)) = elim (allowed policy host port) [
      | none ↦ destination_refused
      | some private ↦ resolved private host port (resolve host)
    ]

    -- `serve`, up to its dial
    unfoldable pub serve : Policy → Text → Bool → Request → Verdict
    unfolding directed target header_bytes is_connect
    serve policy expected closing r =
        if closing
        then closed
        else if ltb 8192 (header_bytes r)
        then headers_refused
        else if not (is_single expected (credentials r))
        then credential_required
        else if not (is_connect r)
        then connect_required
        else directed policy (target r.uri)
