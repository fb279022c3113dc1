-- ===== src/Examples/Providers.antt =====
-- Providers, with a parser that knows two URLs and a test that knows one loopback address.
use lib_agent_harness.Prelude.{
  String, Bool, true, false, Option, none, some, str_eq, if◌then◌else◌, ◌≡◌, ◌⊎◌, ◌↔◌, refl,
}
use lib_agent_harness.Prelude.Int.{pos}
use lib_agent_harness.Capability.Vocabulary.{openai_compatible, transport}
use lib_agent_harness.Provider.{
  Api, Provider, Url, no_problem, api_base_url_insecure, problem, loopback_host,
}
use lib_agent_harness.Provider.Accepted.{credentials_guarded}
use lib_agent_harness.Provider.Admitted.{IsAdmitted, problem_iff}

abbrev gateway : Url
gateway = record {
  scheme = "https";
  opaque_part = "";
  host = "gateway.example";
  hostname = "gateway.example";
  user = false;
}

abbrev local_server : Url
local_server = record {
  scheme = "http";
  opaque_part = "";
  host = "127.0.0.1:8080";
  hostname = "127.0.0.1";
  user = false;
}

abbrev parse : String → Option Url
parse s =
    if str_eq s "https://gateway.example/v1"
    then some gateway
    else if str_eq s "http://127.0.0.1:8080/v1"
    then some local_server
    else none

abbrev loopback_ip : String → Bool
loopback_ip s = str_eq s "127.0.0.1"

abbrev gateway_api : Api
gateway_api = record {
  base_url = "https://gateway.example/v1";
  dialect = "openai-chat-completions";
  credentials = true;
  unauthenticated = false;
  effort_parameter = "reasoning_effort";
  streaming = true;
  idle_timeout = pos 0;
  open_router = none;
}

abbrev gateway_provider : Provider
gateway_provider = record {
  engine = openai_compatible;
  cli = record { binary = ""; home = "" };
  api = gateway_api;
}

problem_iff_example :
    (problem parse loopback_ip gateway_provider ≡ no_problem)
    ↔ IsAdmitted parse loopback_ip gateway_provider
problem_iff_example = problem_iff parse loopback_ip gateway_provider

credentials_guarded_example :
    (u : Url) × (parse "https://gateway.example/v1" ≡ some u)
    × (u.user ≡ false)
    × ((str_eq u.scheme "https" ≡ true) ⊎ (loopback_host loopback_ip u.hostname ≡ true))
    × ((true ≡ true) ⊎ (loopback_host loopback_ip u.hostname ≡ true))
unfolding problem transport
credentials_guarded_example = credentials_guarded parse loopback_ip gateway_provider refl refl

-- A credential is not sent over http to another host, and a request with none is not sent to one.
plain_http_refused :
    problem (λ _. some (record gateway { scheme = "http" })) loopback_ip gateway_provider
    ≡ api_base_url_insecure
unfolding problem
plain_http_refused = refl
