-- ===== src/Capability/Bounds.antt =====
-- What `Support` of capability.go never claims.
use lib_agent_harness.Prelude.{String, true, false, ◌≡◌, refl, arith, Option-cases, inl, inr}
use lib_agent_harness.Capability.Vocabulary.{
  Engine, codex, claude, antigravity, openai_compatible, other, cli, transport, Operation, session,
  Feature, available, sandbox_edge, loopback_local_only, loopback_ports, process_inspection,
  Capability, usable,
}
use lib_agent_harness.Capability.Table.{support_table}
use lib_agent_harness.Capability.{
  Platform, linux, darwin, windows, is_hosting, support_for, on_platform, from_table, by_operation,
}

-- The two loopback requests that are stricter than `Loopback` are unsupported for every engine,
-- operation and platform.
pub stricter_loopback_unsupported :
    (p : Platform) (e : Engine) (op : Operation)
    → (usable (support_for p e op loopback_ports) ≡ false)
      × (usable (support_for p e op loopback_local_only) ≡ false)
unfolding support_for usable
stricter_loopback_unsupported p (other name) op = (ground arith, refl)
stricter_loopback_unsupported p codex op = (ground arith, ground arith)
stricter_loopback_unsupported p _ op = (ground arith, ground arith)

-- An engine that the library does not know is offered nothing.
pub unknown_engine_unsupported :
    (p : Platform) (name : String) (op : Operation) (f : Feature)
    → usable (support_for p (other name) op f) ≡ false
unfolding support_for usable
unknown_engine_unsupported p name op sandbox_edge = refl
unknown_engine_unsupported p name op process_inspection = refl
unknown_engine_unsupported p name op loopback_ports =
    (stricter_loopback_unsupported p (other name) op).0
unknown_engine_unsupported p name op _ = refl

hosting_refused :
    (e : Engine) (f : Feature) (c : Capability)
    → transport e ≡ cli
    → is_hosting f ≡ true
    → usable (on_platform windows e session f c) ≡ false
unfolding on_platform usable transport
hosting_refused openai_compatible f c t h = cc
hosting_refused codex f c t h = ground arith
hosting_refused _ f c t h = ground arith

hosting_not_in_table :
    (e : Engine) (f : Feature)
    → transport e ≡ cli
    → is_hosting f ≡ true
    → usable (from_table windows e session f) ≡ false
unfolding from_table usable
hosting_not_in_table e f t h = elim (Option-cases (support_table e session f)) [
  | inl none_there ↦ ground (arith, none_there)
  | inr (c, there) ↦ ground (arith, there, hosting_refused e f c)
]

-- On Windows no CLI session is offered restricted tools, a sandbox, hosted tools, loopback or sandboxed
-- subagents.
pub windows_hosts_nothing :
    (e : Engine) (f : Feature)
    → transport e ≡ cli
    → is_hosting f ≡ true
    → usable (support_for windows e session f) ≡ false
unfolding support_for by_operation transport
windows_hosts_nothing (other name) f t h = cc
windows_hosts_nothing e sandbox_edge t h = cc
windows_hosts_nothing e f t h = ground (arith, hosting_not_in_table e f)

by_operation-usable :
    (p : Platform) (e : Engine) (op : Operation) (f : Feature)
    → usable (by_operation p e op f) ≡ true
    → usable (from_table p e op available) ≡ true
unfolding by_operation
by_operation-usable p e op available u = u
by_operation-usable p e op _ u = ground arith

available_lem :
    (p : Platform) (e : Engine) (op : Operation)
    → by_operation p e op available ≡ from_table p e op available
unfolding by_operation
available_lem p e op = refl

sessions_available :
    (usable (from_table darwin codex session available) ≡ true)
    × (usable (from_table darwin claude session available) ≡ true)
    × (usable (from_table darwin antigravity session available) ≡ true)
    × (usable (from_table linux openai_compatible session available) ≡ true)
unfolding from_table on_platform support_table usable
sessions_available = (refl, refl, refl, refl)

edge_needs_session :
    (p : Platform) (e : Engine) (op : Operation)
    → usable (support_for p e op sandbox_edge) ≡ true
    → usable (support_for p e op available) ≡ true
unfolding support_for by_operation usable
edge_needs_session darwin codex session u = ground (arith, sessions_available)
edge_needs_session darwin claude session u = ground (arith, sessions_available)
edge_needs_session darwin antigravity session u = ground (arith, sessions_available)
edge_needs_session _ e op u = absurd (ground arith)

inspection_needs_session :
    (p : Platform) (e : Engine) (op : Operation)
    → usable (support_for p e op process_inspection) ≡ true
    → usable (support_for p e op available) ≡ true
unfolding support_for by_operation usable
inspection_needs_session linux openai_compatible session u = ground (arith, sessions_available)
inspection_needs_session _ e op u = absurd (ground arith)

-- A feature is offered only where its operation is: on every platform, whatever is usable of an engine's
-- operation, the operation itself is usable.
pub feature_needs_operation :
    (p : Platform) (e : Engine) (op : Operation) (f : Feature)
    → usable (support_for p e op f) ≡ true
    → usable (support_for p e op available) ≡ true
unfolding support_for
feature_needs_operation p e op sandbox_edge u = edge_needs_session p e op u
feature_needs_operation p e op process_inspection u = inspection_needs_session p e op u
feature_needs_operation p e op loopback_ports u =
    absurd (ground (arith, stricter_loopback_unsupported p e op))
feature_needs_operation p (other name) op f u =
    absurd (ground (arith, unknown_engine_unsupported p name op f))
feature_needs_operation p e op loopback_local_only u =
    absurd (ground (arith, stricter_loopback_unsupported p e op))
feature_needs_operation p e op f u =
    ground (arith, by_operation-usable p e op f, available_lem p e op)
