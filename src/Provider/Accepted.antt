-- ===== src/Provider/Accepted.antt =====
-- harness.go: which providers are accepted.
use lib_agent_harness.Prelude.{
  ℕ, ◌≤◌, String, Bool, true, false, not, ◌&&◌, ◌||◌, Option, none, some, List, [], ◌∷◌, str_eq,
  codes, length, All, if◌then◌else◌, ◌≡◌, refl, ◌⊎◌, inl, inr, ◌↔◌, Bool-cases, arith,
}
use lib_agent_harness.Capability.Vocabulary.{cli, api, none_known, transport}
use lib_agent_harness.Provider.{
  no_problem, api_base_url_invalid, Api, Provider, Url, zero_api, any, is_query_byte, is_negative,
  is_zero, data_collection_known, effort_parameter_known, routing_problem, credential_problem,
  loopback_host, schemed, is_plain, base, base_of, based_problem, api_problem, problem, invalid,
  is_effort_byte, effort_problem,
}

-- The three conditions on the fields of an API besides its dialect and URL.
unfoldable pub fields_fit : Api → Bool → Bool
fields_fit a loopback =
    (if a.unauthenticated then not a.credentials && loopback else a.credentials)
    && (not (is_negative a.idle_timeout)
        && ((is_zero a.idle_timeout || a.streaming)
            && (data_collection_known a.open_router && effort_parameter_known a.effort_parameter)))

credential_iff :
    (a : Api) (loopback : Bool)
    → (credential_problem a loopback ≡ no_problem) ↔ (fields_fit a loopback ≡ true)
unfolding credential_problem routing_problem fields_fit
credential_iff a loopback = ground arith

-- A URL to which credentials may be sent: plain, and https or to a loopback host.
unfoldable pub url_fits : (String → Bool) → Url → Bool
url_fits loopback_ip u =
    is_plain u
    && (str_eq u.scheme "https" || (str_eq u.scheme "http" && loopback_host loopback_ip u.hostname))

schemed_iff :
    (loopback_ip : String → Bool) (a : Api) (u : Url)
    → (based_problem loopback_ip a
          (if is_plain u then schemed loopback_ip u else invalid api_base_url_invalid)
        ≡ no_problem)
      ↔ ((url_fits loopback_ip u && fields_fit a (loopback_host loopback_ip u.hostname)) ≡ true)
unfolding schemed url_fits based_problem
schemed_iff loopback_ip a u =
    ground (arith, credential_iff a (loopback_host loopback_ip u.hostname))

unfoldable pub target_fits : (String → Bool) → Api → Option Url → Bool
unfolding url_fits fields_fit
target_fits loopback_ip a none = false
target_fits loopback_ip a (some u) =
    url_fits loopback_ip u && fields_fit a (loopback_host loopback_ip u.hostname)

based_iff :
    (loopback_ip : String → Bool) (a : Api) (query : Bool) (parsed : Option Url)
    → (based_problem loopback_ip a (base_of loopback_ip query parsed) ≡ no_problem)
      ↔ ((not query && target_fits loopback_ip a parsed) ≡ true)
unfolding base_of based_problem target_fits
based_iff loopback_ip a true parsed = ground arith
based_iff loopback_ip a false none = ground arith
based_iff loopback_ip a false (some u) = schemed_iff loopback_ip a u

module _ (parse : String → Option Url) (loopback_ip : String → Bool) where
  -- Whether an API configuration names an endpoint, and says how it is reached.
  unfoldable pub api_fits : Api → Bool
  unfolding target_fits
  api_fits a =
      str_eq a.dialect "openai-chat-completions"
      && (not (any is_query_byte (codes a.base_url))
          && target_fits loopback_ip a (parse a.base_url))

  unfoldable pub fits : Provider → Bool
  unfolding api_fits
  fits p = elim (transport p.engine) [
    | cli ↦ zero_api p.api
    | api ↦ str_eq p.cli.binary "" && (str_eq p.cli.home "" && api_fits p.api)
    | none_known ↦ false
  ]

  api_iff : (a : Api) → (api_problem parse loopback_ip a ≡ no_problem) ↔ (api_fits a ≡ true)
  unfolding api_problem api_fits base
  api_iff a = elim (Bool-cases (str_eq a.dialect "openai-chat-completions")) [
    | inl d ↦
        rw d (based_iff loopback_ip a (any is_query_byte (codes a.base_url)) (parse a.base_url))
    | inr d ↦ rw d (ground arith)
  ]

  -- A provider has no problem exactly if it fits.
  pub fits_iff : (p : Provider) → (problem parse loopback_ip p ≡ no_problem) ↔ (fits p ≡ true)
  unfolding problem fits
  fits_iff p = ground (arith, api_iff p.api)

target_guarded :
    (loopback_ip : String → Bool) (a : Api) (parsed : Option Url)
    → target_fits loopback_ip a parsed ≡ true
    → (u : Url) × (parsed ≡ some u)
      × (u.user ≡ false)
      × ((str_eq u.scheme "https" ≡ true) ⊎ (loopback_host loopback_ip u.hostname ≡ true))
      × ((a.credentials ≡ true) ⊎ (loopback_host loopback_ip u.hostname ≡ true))
unfolding target_fits url_fits fields_fit is_plain
target_guarded loopback_ip a none h = absurd (ground (arith, h))
target_guarded loopback_ip a (some u) h =
    (u, refl, ground (arith, h), ground (arith, h), ground (arith, h))

-- An API provider with no problem sends a credential to the host of its URL over https, or to a
-- loopback host, and it sends a request with no credential to a loopback host only.
pub credentials_guarded :
    (parse : String → Option Url) (loopback_ip : String → Bool) (p : Provider)
    → transport p.engine ≡ api
    → problem parse loopback_ip p ≡ no_problem
    → (u : Url) × (parse p.api.base_url ≡ some u)
      × (u.user ≡ false)
      × ((str_eq u.scheme "https" ≡ true) ⊎ (loopback_host loopback_ip u.hostname ≡ true))
      × ((p.api.credentials ≡ true) ⊎ (loopback_host loopback_ip u.hostname ≡ true))
unfolding fits api_fits url_fits fields_fit
credentials_guarded parse loopback_ip p is_api ok =
    let fit : fits parse loopback_ip p ≡ true = (fits_iff parse loopback_ip p).0 ok in
    target_guarded loopback_ip p.api (parse p.api.base_url) (ground (arith, fit, is_api))

allowed_bytes :
    (cs : List ℕ)
    → (any (λ b. not (is_effort_byte b)) cs ≡ false) ↔ All (λ b. is_effort_byte b ≡ true) cs
allowed_bytes [] = ((λ e. tt), λ t. refl)
allowed_bytes (c ∷ cs) = ground (arith, allowed_bytes cs)

-- An effort has no problem exactly if it is empty, or the endpoint's parameter for it is named, it is
-- at most 32 bytes long and every byte is a lower-case ASCII letter, an underscore or a hyphen.
pub effort_iff :
    (a : Api) (effort : List ℕ)
    → (effort_problem a effort ≡ no_problem) ↔ (
        (effort ≡ [])
        ⊎ ((str_eq a.effort_parameter "" ≡ false)
            × (length effort ≤ 32)
            × All (λ b. is_effort_byte b ≡ true) effort))
unfolding effort_problem
effort_iff a [] = ((λ e. inl refl), λ e. refl)
effort_iff a (c ∷ cs) = ground (arith, allowed_bytes (c ∷ cs))
