-- ===== src/Provider.antt =====
-- harness.go: the configuration of where inference comes from, and its validation. `url.Parse` and the
-- loopback test of `net.ParseIP` are parameters of the definitions that use them.
pub mod Accepted
pub mod Admitted
use lib_agent_harness.Prelude.{
  ℕ, ◌+◌, String, Bool, true, false, not, ◌&&◌, ◌||◌, Option, none, some, List, [], ◌∷◌, str_eq,
  ◌==◌, ltb, leb, codes, length, if◌then◌else◌,
}
use lib_agent_harness.Prelude.Int.{ℤ, pos, negsuc}
use lib_agent_harness.Capability.Vocabulary.{Engine, Transport, cli, api, none_known, transport}

pub record Cli : Type 0 where
  pub binary : String
  pub home : String

pub record OpenRouterRouting : Type 0 where
  pub require_parameters : Bool
  pub data_collection : String

-- `API`; of its credential source only whether there is one decides anything here
pub record Api : Type 0 where
  pub base_url : String
  pub dialect : String
  pub credentials : Bool
  pub unauthenticated : Bool
  pub effort_parameter : String
  pub streaming : Bool
  pub idle_timeout : ℤ
  pub open_router : Option OpenRouterRouting

pub record Provider : Type 0 where
  pub engine : Engine
  pub cli : Cli
  pub api : Api

-- What the code reads of a `url.URL`. `host` may have a port; `hostname` is without one.
pub record Url : Type 0 where
  pub scheme : String
  pub opaque_part : String
  pub host : String
  pub hostname : String
  pub user : Bool

abbrev pub is_zero : ℤ → Bool
is_zero (pos n) = n == 0
is_zero (negsuc n) = false

abbrev pub is_negative : ℤ → Bool
is_negative (pos n) = false
is_negative (negsuc n) = true

abbrev pub is_none {ℓ} : {A : Type ℓ} → Option A → Bool
is_none none = true
is_none (some a) = false

-- `API.zero`
unfoldable pub zero_api : Api → Bool
zero_api a =
    str_eq a.base_url ""
    && (str_eq a.dialect ""
        && (not a.credentials
            && (not a.unauthenticated
                && (str_eq a.effort_parameter ""
                    && (not a.streaming && (is_zero a.idle_timeout && is_none a.open_router))))))

unfoldable pub is_query_byte : ℕ → Bool
is_query_byte c = c == 63 || c == 35

abbrev pub any {ℓ} : {A : Type ℓ} → (A → Bool) → List A → Bool
any p [] = false
any p (x ∷ xs) = p x || any p xs

-- The fixed codes that name what is wrong; `no_problem` is "".
pub data Problem : Type 0 where
  no_problem : Problem
  api_base_url_insecure api_base_url_invalid api_config_for_cli_engine api_credentials_conflict
        api_credentials_required api_dialect_required api_dialect_unsupported api_effort_invalid :
      Problem
  api_effort_parameter_required api_effort_parameter_unsupported api_idle_timeout_invalid
        api_idle_timeout_without_streaming api_openrouter_data_collection_invalid
        api_unauthenticated_remote cli_config_for_api_engine unsupported_engine :
      Problem

-- What `API.base` returns: a URL, or a code.
pub data Base : Type 0 where
  valid : Url → Base
  invalid : Problem → Base

-- the last checks of `problem`
abbrev pub data_collection_known : Option OpenRouterRouting → Bool
data_collection_known none = true
data_collection_known (some r) =
    str_eq r.data_collection ""
    || (str_eq r.data_collection "allow" || str_eq r.data_collection "deny")

abbrev pub effort_parameter_known : String → Bool
effort_parameter_known e =
    str_eq e "" || (str_eq e "reasoning_effort" || str_eq e "reasoning.effort")

unfoldable pub routing_problem : Api → Problem
routing_problem a =
    if not (data_collection_known a.open_router)
    then api_openrouter_data_collection_invalid
    else if effort_parameter_known a.effort_parameter
    then no_problem
    else api_effort_parameter_unsupported

unfoldable pub credential_problem : Api → Bool → Problem
unfolding routing_problem
credential_problem a loopback =
    if not a.unauthenticated && not a.credentials
    then api_credentials_required
    else if a.unauthenticated && a.credentials
    then api_credentials_conflict
    else if a.unauthenticated && not loopback
    then api_unauthenticated_remote
    else if is_negative a.idle_timeout
    then api_idle_timeout_invalid
    else if not (is_zero a.idle_timeout) && not a.streaming
    then api_idle_timeout_without_streaming
    else routing_problem a

-- whether a URL is absolute, and has a host and neither an opaque part nor a user
unfoldable pub is_plain : Url → Bool
is_plain u =
    not (str_eq u.scheme "") && (str_eq u.opaque_part "" && (not (str_eq u.host "") && not u.user))

module _ (loopback_ip : String → Bool) where
  -- `loopbackHost`
  unfoldable pub loopback_host : String → Bool
  loopback_host host = str_eq host "localhost" || loopback_ip host

  unfoldable pub schemed : Url → Base
  unfolding loopback_host
  schemed u =
      if str_eq u.scheme "https"
      then valid u
      else if str_eq u.scheme "http"
      then (if loopback_host u.hostname then valid u else invalid api_base_url_insecure)
      else invalid api_base_url_invalid

  unfoldable pub based_problem : Api → Base → Problem
  unfolding credential_problem loopback_host
  based_problem a (invalid code) = code
  based_problem a (valid u) = credential_problem a (loopback_host u.hostname)

-- what `base` makes of whether the text has a query or a fragment, and of the parsed URL
unfoldable pub base_of : (String → Bool) → Bool → Option Url → Base
unfolding is_plain schemed
base_of loopback_ip true parsed = invalid api_base_url_invalid
base_of loopback_ip false none = invalid api_base_url_invalid
base_of loopback_ip false (some u) =
    if is_plain u then schemed loopback_ip u else invalid api_base_url_invalid

module _ (parse : String → Option Url) (loopback_ip : String → Bool) where
  -- `API.base`
  unfoldable pub base : String → Base
  unfolding base_of is_query_byte
  base url = base_of loopback_ip (any is_query_byte (codes url)) (parse url)

  -- `API.problem`
  unfoldable pub api_problem : Api → Problem
  unfolding base based_problem
  api_problem a =
      if str_eq a.dialect "openai-chat-completions"
      then based_problem loopback_ip a (base a.base_url)
      else if str_eq a.dialect ""
      then api_dialect_required
      else api_dialect_unsupported

  -- `Provider.Problem`
  unfoldable pub problem : Provider → Problem
  unfolding api_problem zero_api transport
  problem p = elim (transport p.engine) [
    | cli ↦ if zero_api p.api then no_problem else api_config_for_cli_engine
    | api ↦
        if str_eq p.cli.binary "" && str_eq p.cli.home ""
        then api_problem p.api
        else cli_config_for_api_engine
    | none_known ↦ unsupported_engine
  ]

abbrev pub is_effort_byte : ℕ → Bool
is_effort_byte c = leb 97 c && leb c 122 || (c == 95 || c == 45)

-- `API.EffortProblem`, of an effort that is a list of bytes. A rune that is not ASCII begins with a
-- byte that is not one of the allowed, so the test of runes is a test of bytes.
unfoldable pub effort_problem : Api → List ℕ → Problem
effort_problem a [] = no_problem
effort_problem a (c ∷ cs) =
    if str_eq a.effort_parameter ""
    then api_effort_parameter_required
    else if ltb 32 (length (c ∷ cs)) || any (λ b. not (is_effort_byte b)) (c ∷ cs)
    then api_effort_invalid
    else no_problem
