-- ===== src/Examples/Edges.antt =====
-- An edge that lets one host through, with a resolver that knows one public address. Its split of a
-- host and a port, its lower case and its port are those of the one request.
use lib_agent_harness.Prelude.{
  ℕ, Bool, true, false, Option, some, List, [], ◌∷◌, codes, All, ◌≤◌, ◌≢◌, ◌≡◌, refl,
}
use lib_agent_harness.Text.{Text}
use lib_agent_harness.EdgeProxy.{
  Destination, Address, Request, Policy, header_bytes, credentials, policy_of, serve,
}
use lib_agent_harness.EdgeProxy.Names.{IsConnect, IsPermitted}
use lib_agent_harness.Prelude.Int.{pos}
use lib_agent_harness.EdgeProxy.Admission.{IsTarget, Declares, serve_dials}

abbrev provider : Destination
provider = record { host = codes "api.example"; port = 443; private = false }

abbrev public : Address
public = record {
  valid = true;
  zoned = false;
  global_unicast = true;
  loopback = false;
  link_local = false;
  private_range = false;
  special = false;
}

abbrev no_ip : Text → Bool
no_ip _ = false

abbrev as_is : Text → Text
as_is s = s

abbrev split : Text → Option (Text × Text)
split _ = some (codes "api.example", codes "443")

abbrev https_port : Text → Option ℕ
https_port _ = some 443

abbrev resolver : Text → Option (List Address)
resolver _ = some (public ∷ [])

abbrev policy : Policy
policy = ((codes "api.example", 443), false) ∷ []

abbrev connect : Request
connect = record {
  method = codes "CONNECT";
  proto = codes "HTTP/1.1";
  uri = codes "api.example:443";
  headers = (codes "Proxy-Authorization", codes "Basic x" ∷ []) ∷ [];
  content_length = pos 0;
  transfer_encoding = [];
  scheme = [];
  user = false;
  path = [];
  query = [];
  host = codes "api.example:443";
}

serve_dials_example :
    (false ≡ false)
    × (header_bytes connect ≤ 8192)
    × (credentials connect ≡ codes "Basic x" ∷ [])
    × IsConnect connect
    × IsTarget no_ip as_is split https_port resolver connect.uri (codes "api.example") 443
    × (resolver (codes "api.example") ≡ some (public ∷ []))
    × ((public ∷ []) ≢ [])
    × ((private : Bool) × Declares no_ip as_is (provider ∷ []) (codes "api.example") 443 private
        × All (IsPermitted private) (public ∷ []))
unfolding policy_of serve
serve_dials_example =
    serve_dials no_ip as_is split https_port resolver (provider ∷ []) policy (codes "Basic x") false
      connect (codes "api.example") 443 (public ∷ []) refl refl
