-- ===== src/EdgeProxy/Admission.antt =====
-- internal/edgeproxy/proxy.go: what a request that is let through was allowed by.
use lib_agent_harness.Prelude.{
  ◌≢◌, ◌≤◌, ◌<◌, ◌==◌, if◌then◌else◌, ℕ, Bool, false, Option, none, some, List, [], ◌∷◌, ==_iff,
  All, ◌≡◌, refl, ap, sym, ◌∙◌, ◌⊎◌, inl, inr, Bool-cases, Option-cases, arith,
}
use lib_agent_harness.Text.{Text}
use lib_agent_harness.EdgeProxy.Names.{
  text_eq_sound, IsHostname, hostname-IsHostname, IsConnect, is_connect-IsConnect, single,
  IsPermitted, every-IsPermitted,
}
use lib_agent_harness.EdgeProxy.{
  header_bytes, credentials, Destination, every, Address, is_dialled, Request, dials, Policy,
  allowed, hostname, add_destination, policy_from, policy_of, target, resolved, directed, serve,
}

module _ (parse_ip : Text → Bool) (to_lower : Text → Text) where
  abbrev pub Names : Destination → Text → ℕ → Bool → Type 0
  Names d host port private =
      IsHostname parse_ip to_lower d.host host × (d.port ≡ port) × (d.private ≡ private)

  -- Whether a list has a destination with this name, port and flag.
  abbrev pub Declares : List Destination → Text → ℕ → Bool → Type 0
  Declares [] host port private = ⊥
  Declares (d ∷ ds) host port private = Names d host port private ⊎ Declares ds host port private

  add_destination-allowed :
      (policy more : Policy) (d : Destination) (host : Text) (port : ℕ) (private : Bool)
      → add_destination parse_ip to_lower policy d ≡ some more
      → allowed more host port ≡ some private
      → (allowed policy host port ≡ some private) ⊎ Names d host port private
  unfolding add_destination allowed
  add_destination-allowed policy more d host port private added found =
      elim (Option-cases (hostname parse_ip to_lower d.host)) [
        | inl n ↦ ground (arith, n, added)
        | inr (name, n) ↦ elim (Option-cases (allowed policy name d.port)) [
          | inl a ↦ ground (
            arith,
            n,
            a,
            added,
            found,
            text_eq_sound name host,
            ==_iff d.port port,
            hostname-IsHostname parse_ip to_lower d.host host,
          )
          | inr (old, a) ↦ ground (arith, n, a, added, found)
        ]
      ]

  policy_from-allowed :
      (policy result : Policy) (ds : List Destination) (host : Text) (port : ℕ) (private : Bool)
      → policy_from parse_ip to_lower policy ds ≡ some result
      → allowed result host port ≡ some private
      → (allowed policy host port ≡ some private) ⊎ Declares ds host port private
  unfolding policy_from
  policy_from-allowed policy result [] host port private h found = ground (arith, h, found)
  policy_from-allowed policy result (d ∷ ds) host port private h found =
      elim (Option-cases (add_destination parse_ip to_lower policy d)) [
        | inl n ↦ ground (arith, n, h)
        | inr (more, n) ↦ ground (
          arith,
          n,
          h,
          policy_from-allowed more result ds host port private,
          add_destination-allowed policy more d host port private,
          found,
        )
      ]

  policy_of-Declares :
      (ds : List Destination) (policy : Policy) (host : Text) (port : ℕ) (private : Bool)
      → policy_of parse_ip to_lower ds ≡ some policy
      → allowed policy host port ≡ some private
      → Declares ds host port private
  unfolding policy_of allowed
  policy_of-Declares ds policy host port private h found =
      elim (Option-cases (policy_from parse_ip to_lower [] ds)) [
        | inl n ↦ ground (arith, n, h)
        | inr (made, n) ↦
            ground (arith, n, h, policy_from-allowed [] made ds host port private n, found)
      ]

  module _ (split_host_port : Text → Option (Text × Text)) (read_port : Text → Option ℕ)
      (resolve : Text → Option (List Address)) where
    resolved-dials :
        (private : Bool) (host h : Text) (port n : ℕ) (answer : Option (List Address))
        (ips : List Address)
        → resolved parse_ip to_lower split_host_port read_port resolve private host port answer
          ≡ dials h n ips
        → (host ≡ h) × (port ≡ n) × (answer ≡ some ips) × (ips ≢ []) × All (IsPermitted private) ips
    unfolding resolved
    resolved-dials private host h port n none ips e = absurd (ground (arith, e))
    resolved-dials private host h port n (some []) ips e = absurd (ground (arith, e))
    resolved-dials private host h port n (some (a ∷ rest)) ips e =
        elim (Bool-cases (every (is_dialled private) (a ∷ rest))) [
          | inl q ↦ ground (arith, q, e, every-IsPermitted private (a ∷ rest) q)
          | inr q ↦ absurd (ground (arith, q, e))
        ]

    directed-dials :
        (policy : Policy) (to : Option (Text × ℕ)) (h : Text) (n : ℕ) (ips : List Address)
        → directed parse_ip to_lower split_host_port read_port resolve policy to ≡ dials h n ips
        → (to ≡ some (h, n))
          × ((private : Bool) × (allowed policy h n ≡ some private)
              × (resolve h ≡ some ips)
              × (ips ≢ [])
              × All (IsPermitted private) ips)
    unfolding directed
    directed-dials policy none h n ips e = absurd (ground (arith, e))
    directed-dials policy (some (host, port)) h n ips e =
        elim (Option-cases (allowed policy host port)) [
          | inl q ↦ absurd (ground (arith, q, e))
          | inr (private, q) ↦
              let sent : resolved parse_ip to_lower split_host_port read_port resolve private host
                    port (resolve host)
                  ≡ dials h n ips =
                ground (arith, q, e) in
              let (eh, ep, er, some_ip, all) =
                resolved-dials private host h port n (resolve host) ips sent in
              (
                ground (arith, eh, ep),
                (private, ground (arith, q, eh, ep), ap resolve (sym eh) ∙ er, some_ip, all),
              )
        ]

    -- The host and the port that a request names.
    pub record IsTarget (uri host : Text) (port : ℕ) : Type 0 where
      pub given_host : Text
      pub given_port : Text
      pub divides : split_host_port uri ≡ some (given_host, given_port)
      pub named : IsHostname parse_ip to_lower given_host host
      pub numbered : read_port given_port ≡ some port
      pub some_port : 0 < port

    target-IsTarget :
        (uri host : Text) (port : ℕ)
        → target parse_ip to_lower split_host_port read_port resolve uri ≡ some (host, port)
        → IsTarget uri host port
    unfolding target
    target-IsTarget uri host port e = each (split_host_port uri) refl e
      where
        finished :
            (h p canonical : Text)
            → split_host_port uri ≡ some (h, p)
            → hostname parse_ip to_lower h ≡ some canonical
            → (n : Option ℕ) → read_port p ≡ n
            → ◌≡◌ {A = Option (Text × ℕ)}
                (elim n [ none ↦ none | some k ↦ if k == 0 then none else some (canonical, k) ])
                (some (host, port))
            → IsTarget uri host port
        finished h p canonical divided named none read q = absurd (ground (arith, q))
        finished h p canonical divided named (some k) read q = record {
          given_host = h;
          given_port = p;
          divides = divided;
          named = hostname-IsHostname parse_ip to_lower h host (named ∙ ground (arith, q));
          numbered = read ∙ ground (arith, q);
          some_port = ground (arith, q);
        }

        on_name :
            (h p : Text)
            → split_host_port uri ≡ some (h, p)
            → (o : Option Text) → hostname parse_ip to_lower h ≡ o
            → ◌≡◌ {A = Option (Text × ℕ)}
                (elim o [
                  | none ↦ none
                  | some canonical ↦ elim (read_port p) [
                    | none ↦ none
                    | some k ↦ if k == 0 then none else some (canonical, k)
                  ]
                ])
                (some (host, port))
            → IsTarget uri host port
        on_name h p divided none named q = absurd (ground (arith, q))
        on_name h p divided (some canonical) named q =
            finished h p canonical divided named (read_port p) refl q

        each :
            (o : Option (Text × Text))
            → split_host_port uri ≡ o
            → ◌≡◌ {A = Option (Text × ℕ)}
                (elim o [
                  | none ↦ none
                  | some (h, p) ↦ elim (hostname parse_ip to_lower h) [
                    | none ↦ none
                    | some canonical ↦ elim (read_port p) [
                      | none ↦ none
                      | some k ↦ if k == 0 then none else some (canonical, k)
                    ]
                  ]
                ])
                (some (host, port))
            → IsTarget uri host port
        each none divided q = absurd (ground (arith, q))
        each (some (h, p)) divided q = on_name h p divided (hostname parse_ip to_lower h) refl q

-- With the policy made of some destinations, the proxy dials only for a request that comes while it is
-- not closing, has at most 8192 bytes of headers, exactly the one expected credential and is a CONNECT
-- with no body and nothing but its authority, to the hostname and the port that its URI names and that
-- one of the destinations has, and only if the name resolves and every address of it may be dialled:
-- none is loopback, link-local or zoned, each is global unicast, and one that is private or special is
-- there only for a destination that permits it. A hostname is no IP address, has at most 253 bytes and
-- ends in no dot, and its lower case is made of labels of 1 to 63 letters, digits and hyphens, with no
-- hyphen at an end.
pub serve_dials :
    (parse_ip : Text → Bool) (to_lower : Text → Text)
    (split_host_port : Text → Option (Text × Text)) (read_port : Text → Option ℕ)
    (resolve : Text → Option (List Address)) (ds : List Destination) (policy : Policy)
    (expected : Text) (closing : Bool) (r : Request) (host : Text) (port : ℕ) (ips : List Address)
    → policy_of parse_ip to_lower ds ≡ some policy
    → serve parse_ip to_lower split_host_port read_port resolve policy expected closing r
      ≡ dials host port ips
    → (closing ≡ false)
      × (header_bytes r ≤ 8192)
      × (credentials r ≡ expected ∷ [])
      × IsConnect r
      × IsTarget parse_ip to_lower split_host_port read_port resolve r.uri host port
      × (resolve host ≡ some ips)
      × (ips ≢ [])
      × ((private : Bool) × Declares parse_ip to_lower ds host port private
          × All (IsPermitted private) ips)
unfolding serve
serve_dials parse_ip to_lower split_host_port read_port resolve ds policy expected closing r host
      port ips made e =
    let request : Option (Text × ℕ) =
      target parse_ip to_lower split_host_port read_port resolve r.uri in
    let sent : directed parse_ip to_lower split_host_port read_port resolve policy request
        ≡ dials host port ips =
      ground (arith, e) in
    let (named, (private, found, answered, some_ip, dialled)) =
      directed-dials parse_ip to_lower split_host_port read_port resolve policy request host port
        ips sent in
    (
      ground (arith, e),
      ground (arith, e),
      single expected (credentials r) (ground (arith, e)),
      is_connect-IsConnect r (ground (arith, e)),
      target-IsTarget parse_ip to_lower split_host_port read_port resolve r.uri host port named,
      answered,
      some_ip,
      (
        private,
        policy_of-Declares parse_ip to_lower ds policy host port private made found,
        dialled,
      ),
    )
