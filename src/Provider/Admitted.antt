-- ===== src/Provider/Admitted.antt =====
-- harness.go: the providers that have no problem, described by themselves.
use lib_agent_harness.Prelude.{
  ℕ, String, Bool, true, false, not, ◌&&◌, ◌||◌, Option, none, some, List, [], ◌∷◌, str_eq, eq_iff,
  codes, All, ==_iff, ◌≡◌, ◌≢◌, refl, ap, ◌⊎◌, inl, inr, ◌↔◌, arith,
}
use lib_agent_harness.Prelude.Int.{ℤ, pos, negsuc}
use lib_agent_harness.Capability.Vocabulary.{cli, api, transport}
use lib_agent_harness.Provider.{
  no_problem, OpenRouterRouting, Api, Provider, Url, zero_api, any, is_none, is_query_byte,
  is_negative, is_zero, data_collection_known, effort_parameter_known, loopback_host, is_plain,
  problem,
}
use lib_agent_harness.Provider.Accepted.{
  fields_fit, url_fits, target_fits, api_fits, fits, fits_iff,
}

-- No field is set.
pub record IsUnset (a : Api) : Type 0 where
  pub base_url : a.base_url ≡ ""
  pub dialect : a.dialect ≡ ""
  pub credentials : a.credentials ≡ false
  pub unauthenticated : a.unauthenticated ≡ false
  pub effort_parameter : a.effort_parameter ≡ ""
  pub streaming : a.streaming ≡ false
  pub idle_timeout : a.idle_timeout ≡ pos 0
  pub open_router : a.open_router ≡ none

abbrev pub IsCollection : Option OpenRouterRouting → Type 0
IsCollection none = Unit
IsCollection (some r) =
    (r.data_collection ≡ "") ⊎ ((r.data_collection ≡ "allow") ⊎ (r.data_collection ≡ "deny"))

zero_iff : (t : ℤ) → (is_zero t ≡ true) ↔ (t ≡ pos 0)
zero_iff (pos n) = ground arith
zero_iff (negsuc n) = ground arith

none_iff : (o : Option OpenRouterRouting) → (is_none o ≡ true) ↔ (o ≡ none)
none_iff none = ground arith
none_iff (some r) = ground arith

IsUnset-iff : (a : Api) → (zero_api a ≡ true) ↔ IsUnset a
unfolding zero_api
IsUnset-iff a = ground (
  arith,
  eq_iff a.base_url "",
  eq_iff a.dialect "",
  eq_iff a.effort_parameter "",
  zero_iff a.idle_timeout,
  none_iff a.open_router,
)

no_query_iff :
    (cs : List ℕ) → (any is_query_byte cs ≡ false) ↔ All (λ c. (c ≢ b'?') × (c ≢ b'#')) cs
unfolding is_query_byte
no_query_iff [] = ((λ h. tt), λ h. refl)
no_query_iff (c ∷ cs) = ground (arith, no_query_iff cs, ==_iff c b'?', ==_iff c b'#')

-- at least zero, and zero without streaming
abbrev pub IsTimed : ℤ → Bool → Type 0
IsTimed t streaming = (t ≡ pos 0) ⊎ ((n : ℕ) × (t ≡ pos n) × (streaming ≡ true))

IsTimed-iff :
    (t : ℤ) (streaming : Bool)
    → ((not (is_negative t) && (is_zero t || streaming)) ≡ true) ↔ IsTimed t streaming
IsTimed-iff (pos n) true = ((λ h. inr (n, refl, refl)), λ h. ground arith)
IsTimed-iff (pos n) false = (
  (λ h. inl (ground (arith, h))),
  λ h. elim h [ inl e ↦ ground (arith, e) | inr (m, e, f) ↦ absurd (ground (arith, f)) ],
)
IsTimed-iff (negsuc n) streaming = (
  (λ h. absurd (ground (arith, h))),
  λ h. elim h [ inl e ↦ absurd (ground (arith, e)) | inr (m, e, f) ↦ absurd (ground (arith, e)) ],
)

IsCollection-iff :
    (o : Option OpenRouterRouting) → (data_collection_known o ≡ true) ↔ IsCollection o
IsCollection-iff none = ground arith
IsCollection-iff (some r) = ground (
  arith,
  eq_iff r.data_collection "",
  eq_iff r.data_collection "allow",
  eq_iff r.data_collection "deny",
)

abbrev pub IsEffort : String → Type 0
IsEffort e = (e ≡ "") ⊎ ((e ≡ "reasoning_effort") ⊎ (e ≡ "reasoning.effort"))

IsEffort-known_iff : (e : String) → (effort_parameter_known e ≡ true) ↔ IsEffort e
IsEffort-known_iff e =
    ground (arith, eq_iff e "", eq_iff e "reasoning_effort", eq_iff e "reasoning.effort")

https_set : (s : String) → s ≡ "https" → str_eq s "" ≡ false
https_set s e = ap (λ t. str_eq t "") e

http_set : (s : String) → s ≡ "http" → str_eq s "" ≡ false
http_set s e = ap (λ t. str_eq t "") e

module _ (loopback_ip : String → Bool) where
  -- a host of the machine itself
  abbrev pub IsLocal : Url → Type 0
  IsLocal u = (u.hostname ≡ "localhost") ⊎ (loopback_ip u.hostname ≡ true)

  IsLocal-iff : (u : Url) → (loopback_host loopback_ip u.hostname ≡ true) ↔ IsLocal u
  unfolding loopback_host
  IsLocal-iff u = ground (arith, eq_iff u.hostname "localhost")

  -- A URL that an API configuration may have.
  pub record IsTarget (u : Url) : Type 0 where
    pub opaque_part : u.opaque_part ≡ ""
    pub host : u.host ≢ ""
    pub user : u.user ≡ false
    pub scheme : (u.scheme ≡ "https") ⊎ ((u.scheme ≡ "http") × IsLocal u)

  -- Either a credential is sent, or none, to the machine itself.
  abbrev pub IsCredentialed : Api → Url → Type 0
  IsCredentialed a u =
      ((a.credentials ≡ true) × (a.unauthenticated ≡ false))
      ⊎ ((a.credentials ≡ false) × (a.unauthenticated ≡ true) × IsLocal u)

  target_iff : (u : Url) → (url_fits loopback_ip u ≡ true) ↔ IsTarget u
  unfolding url_fits is_plain
  target_iff u = ground (
    arith,
    eq_iff u.opaque_part "",
    eq_iff u.host "",
    https_set u.scheme,
    http_set u.scheme,
    eq_iff u.scheme "https",
    eq_iff u.scheme "http",
    IsLocal-iff u,
  )

  -- The other fields.
  pub record IsReached (a : Api) (u : Url) : Type 0 where
    pub target : IsTarget u
    pub credentialed : IsCredentialed a u
    pub timed : IsTimed a.idle_timeout a.streaming
    pub collection : IsCollection a.open_router
    pub effort : IsEffort a.effort_parameter

  reached_iff :
      (a : Api) (u : Url)
      → ((url_fits loopback_ip u && fields_fit a (loopback_host loopback_ip u.hostname)) ≡ true)
        ↔ IsReached a u
  unfolding fields_fit
  reached_iff a u = ground (
    arith,
    target_iff u,
    IsLocal-iff u,
    IsTimed-iff a.idle_timeout a.streaming,
    IsCollection-iff a.open_router,
    IsEffort-known_iff a.effort_parameter,
  )

module _ (parse : String → Option Url) (loopback_ip : String → Bool) where
  -- An API configuration that can be used.
  pub record IsUsable (a : Api) : Type 0 where
    pub dialect : a.dialect ≡ "openai-chat-completions"
    pub no_query : All (λ c. (c ≢ b'?') × (c ≢ b'#')) (codes a.base_url)
    pub url : Url
    pub parsed : parse a.base_url ≡ some url
    pub reached : IsReached loopback_ip a url

  -- A provider that has no problem.
  abbrev pub IsAdmitted : Provider → Type 0
  IsAdmitted p =
      ((transport p.engine ≡ cli) × IsUnset p.api)
      ⊎ ((transport p.engine ≡ api) × (p.cli.binary ≡ "") × (p.cli.home ≡ "") × IsUsable p.api)

  IsUsable-iff : (a : Api) → (api_fits parse loopback_ip a ≡ true) ↔ IsUsable a
  unfolding api_fits target_fits
  IsUsable-iff a = (
    (λ h. to (parse a.base_url) refl h),
    λ k. rw k.parsed (
        ground (
          arith,
          (eq_iff a.dialect "openai-chat-completions").1 k.dialect,
          (no_query_iff (codes a.base_url)).1 k.no_query,
          (reached_iff loopback_ip a k.url).1 k.reached,
        )),
  )
    where
      to :
          (o : Option Url)
          → parse a.base_url ≡ o
          → (str_eq a.dialect "openai-chat-completions"
              && (not (any is_query_byte (codes a.base_url)) && target_fits loopback_ip a o))
            ≡ true
          → IsUsable a
      to none e h = absurd (ground (arith, h))
      to (some u) e h = record {
        dialect = (eq_iff a.dialect "openai-chat-completions").0 (ground (arith, h));
        no_query = (no_query_iff (codes a.base_url)).0 (ground (arith, h));
        url = u;
        parsed = e;
        reached = (reached_iff loopback_ip a u).0 (ground (arith, h));
      }

  IsAdmitted-iff : (p : Provider) → (fits parse loopback_ip p ≡ true) ↔ IsAdmitted p
  unfolding fits
  IsAdmitted-iff p =
      ground
        (arith, IsUnset-iff p.api, IsUsable-iff p.api, eq_iff p.cli.binary "", eq_iff p.cli.home "")

  -- A provider has no problem exactly if its engine is a command-line one and no field of its API is set,
  -- or its engine is an API and no command-line field is set, the dialect is the known one, the base URL
  -- has no query or fragment mark and parses to a URL with a host and no opaque part or user, which is
  -- https or http to the machine itself, a credential source is there or the choice to send none to the
  -- machine itself, and not both, the idle timeout is zero or positive with streaming, and the data
  -- collection and the effort parameter are among the known words or empty.
  pub problem_iff : (p : Provider) → (problem parse loopback_ip p ≡ no_problem) ↔ IsAdmitted p
  problem_iff p = (
    λ h. (IsAdmitted-iff p).0 ((fits_iff parse loopback_ip p).0 h),
    λ a. (fits_iff parse loopback_ip p).1 ((IsAdmitted-iff p).1 a),
  )
