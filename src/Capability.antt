-- ===== src/Capability.antt =====
-- capability.go, capability_loopback.go and capability_inspection.go: what each engine offers on each
-- platform. `runtime.GOOS` is an argument, as it is of `supportFor`.
pub mod Vocabulary
pub mod Table
mod Reasons
pub mod Bounds
use lib_agent_harness.Prelude.{
  String, Bool, true, false, ◌&&◌, ◌||◌, not, Option, none, some, if◌then◌else◌,
}
use Prim.Native.String.{◌++◌}
use Vocabulary.{
  Engine, codex, claude, grok, command_code, antigravity, fx, openai_compatible, other, Transport,
  cli, api, none_known, transport, Operation, complete, runs, session, models, account, Feature,
  available, workspace_read, workspace_write, tools, restrict_tools, sandbox, sandbox_edge,
  loopback, loopback_local_only, loopback_ports, sandboxed_subagents, background,
  process_inspection, Capability, claim, unsupported, unknown, composed, usable,
}
use Table.{support_table}
use Reasons.{
  sandbox_edge_linux_reason, sandbox_edge_fx_reason, loopback_local_only_seatbelt_reason,
  claude_loopback_exposure_reason, claude_linux_host_loopback_reason, claude_linux_loopback_reason,
  loopback_ports_seatbelt_reason, loopback_ports_alternative,
  loopback_ports_private_namespace_reason, process_inspection_seatbelt_reason,
  process_inspection_platform_reason, process_inspection_windows_reason,
  process_inspection_native_reason, process_inspection_namespace_reason,
}

pub data Platform : Type 0 where
  linux darwin windows : Platform
  elsewhere : String → Platform

edge_on : Platform → Engine → Capability
edge_on darwin antigravity =
    claim unknown
      "installed-binary inference through the proxy is proved before launch using fake-provider CA trust; production trusts the macOS /etc/ssl/cert.pem bundle through SSL_CERT_FILE, not the keychain, and is unproved; Gemini API-key login only, as agy keeps its Google-account login in the keychain; needs Loopback for its language server, so its egress is not provider-only: descendants reach every on-machine TCP service, including any local proxy that relays further, and loopback binds and inbound cover all local interfaces"
edge_on darwin e =
    claim unknown
      "installed-binary inference through the proxy is proved before launch using fake-provider CA trust; native TLS trust loading/evaluation is unproved and production TLS may fail; loopback binds and inbound cover all local interfaces"
edge_on linux e = claim unsupported sandbox_edge_linux_reason
edge_on _ e =
    claim unsupported "edge_unavailable: restricted CLI hosting is unavailable on this platform"

-- `sandboxEdgeSupport`
unfoldable pub sandbox_edge_support : Engine → Operation → Platform → Capability
unfolding edge_on
sandbox_edge_support fx session p = claim unsupported sandbox_edge_fx_reason
sandbox_edge_support codex session p = edge_on p codex
sandbox_edge_support claude session p = edge_on p claude
sandbox_edge_support antigravity session p = edge_on p antigravity
sandbox_edge_support _ _ p =
    claim unsupported "sandbox edge is offered only for Codex, Claude and Antigravity sessions"

inspection_on : Platform → Capability
inspection_on linux = claim unknown process_inspection_namespace_reason
inspection_on darwin = claim unsupported process_inspection_seatbelt_reason
inspection_on windows = claim unsupported process_inspection_windows_reason
inspection_on (elsewhere name) = claim unsupported process_inspection_platform_reason

-- `processInspectionSupport`
unfoldable pub process_inspection_support : Engine → Operation → Platform → Capability
unfolding inspection_on
process_inspection_support (other name) op p = claim unsupported "unrecognized engine"
process_inspection_support openai_compatible session p = inspection_on p
process_inspection_support _ _ p = claim unsupported process_inspection_native_reason

-- `loopbackLocalOnlySupport`
unfoldable pub loopback_local_only_support : Platform → Engine → Operation → Capability
loopback_local_only_support darwin claude session = claim unsupported (
    loopback_local_only_seatbelt_reason
    ++ "; Claude allowLocalBinding uses *:* and local-only binds are unproved")
loopback_local_only_support linux claude session =
    claim unsupported
      "Claude Linux session local-only binds and inbound confinement have not been proved; standalone command namespace evidence does not establish this native-session capability"
loopback_local_only_support _ claude session =
    claim unsupported
      "Claude allowLocalBinding permits binds on any interface; local-only binds are unproved on this platform"
loopback_local_only_support darwin openai_compatible session =
    claim unsupported loopback_local_only_seatbelt_reason
loopback_local_only_support linux openai_compatible session =
    claim unsupported
      "workbench sessions have no shared private loopback; standalone sandbox.Open offers LoopbackLocalOnly after proving private-namespace loopback"
loopback_local_only_support _ _ _ =
    claim unsupported "local-only loopback is not proved for this engine, operation and platform"

-- the `reason` that `loopbackPortsSupport` builds up
ports_reason : Engine → Operation → Platform → String
ports_reason e runs p = "native runs have no proved per-port sandbox"
ports_reason openai_compatible session p = "selected loopback ports require proved OS enforcement"
ports_reason claude session linux = claude_linux_host_loopback_reason
ports_reason claude session p = "Claude Code offers only yes/no allowLocalBinding"
ports_reason codex session p = "Codex native loopback is unsupported; no per-port enforcement proof"
ports_reason grok session p = "Grok sessions have no proven OS sandbox"
ports_reason command_code session p = "Command Code sessions have no proven OS sandbox"
ports_reason antigravity session p = "Antigravity sessions have no proven OS sandbox"
ports_reason e op p =
    "selected loopback ports are not proved for this engine, operation and platform"

-- `loopbackPortsSupport`
unfoldable pub loopback_ports_support : Engine → Operation → Platform → Capability
unfolding ports_reason
loopback_ports_support openai_compatible session darwin =
    claim unsupported loopback_ports_seatbelt_reason
loopback_ports_support openai_compatible session linux =
    claim unsupported loopback_ports_private_namespace_reason
loopback_ports_support e session darwin =
    claim unsupported (ports_reason e session darwin ++ ("; " ++ loopback_ports_seatbelt_reason))
loopback_ports_support e op p =
    claim unsupported (ports_reason e op p ++ ("; " ++ loopback_ports_alternative))

abbrev api_commands_unavailable : Capability
api_commands_unavailable =
    claim unsupported
      "API commands require a proved macOS Seatbelt sandbox; this platform has no command sandbox"

abbrev workbench_files_off : Capability
workbench_files_off =
    claim unsupported "workbench file tools are off until their workspace check is verified"

-- `linuxPlatform`; an API session is the pair `openai_compatible session`
linux_platform : Engine → Operation → Feature → Capability → Capability
linux_platform claude session loopback c = claim unknown claude_linux_loopback_reason
linux_platform openai_compatible session sandbox c =
    claim unknown
      "Workbench.Commands proves bubblewrap 0.8.0+ without capabilities or nested user namespaces before launch or refuses the session"
linux_platform openai_compatible session loopback c =
    claim unsupported
      "each command runs in its own bubblewrap network namespace, so a server one command starts is gone before the next; a single command may still start and request its own server"
linux_platform openai_compatible session background c =
    claim composed "Workbench.Commands runs each contained process group at nice 10"
linux_platform openai_compatible session workspace_read c = workbench_files_off
linux_platform openai_compatible session workspace_write c = workbench_files_off
linux_platform _ _ _ c = c

-- `darwinPlatform`
darwin_platform : Engine → Operation → Feature → Capability → Capability
darwin_platform claude session loopback c = claim unknown claude_loopback_exposure_reason
darwin_platform openai_compatible session workspace_read c = workbench_files_off
darwin_platform openai_compatible session workspace_write c = workbench_files_off
darwin_platform _ _ _ c = c

-- `windowsPlatform`, for an API session
windows_api : Feature → Capability → Capability
windows_api sandbox c = api_commands_unavailable
windows_api loopback c = api_commands_unavailable
windows_api background c = api_commands_unavailable
windows_api workspace_write c = record c {
  reason = c.reason ++ "; not directory-synced; new files inherit the directory ACL";
}
windows_api _ c = c

-- the features that a CLI session's hosting would need
abbrev is_hosting : Feature → Bool
is_hosting restrict_tools = true
is_hosting sandbox = true
is_hosting tools = true
is_hosting loopback = true
is_hosting sandboxed_subagents = true
is_hosting _ = false

abbrev is_session : Operation → Bool
is_session session = true
is_session _ = false

abbrev is_cli : Transport → Bool
is_cli cli = true
is_cli _ = false

windows_hosting : Engine → Feature → Capability → Capability
windows_hosting codex loopback c =
    claim unsupported ("restricted and sandboxed hosting are unavailable on Windows; " ++ c.reason)
windows_hosting _ _ c =
    claim unsupported "restricted and sandboxed hosting are unavailable on Windows"

windows_rest : Engine → Operation → Feature → Capability → Capability
windows_rest e op background c =
    claim unsupported "background priority is not implemented on Windows"
windows_rest command_code session f c =
    claim unsupported
      "Command Code sessions are not verified on Windows, where cmd names the system command interpreter"
windows_rest grok complete f c =
    claim unsupported "Grok's restricted runtime home is unavailable on Windows"
windows_rest _ _ _ c = c

windows_platform : Engine → Operation → Feature → Capability → Capability
unfolding windows_api windows_hosting windows_rest transport
windows_platform openai_compatible session f c = windows_api f c
windows_platform e op f c =
    if is_session op && is_cli (transport e) && is_hosting f
    then windows_hosting e f c
    else windows_rest e op f c

-- the end of `platform`, for any other operating system
other_platform : Engine → Operation → Feature → Capability → Capability
other_platform openai_compatible session sandbox c = api_commands_unavailable
other_platform openai_compatible session loopback c = api_commands_unavailable
other_platform openai_compatible session background c = api_commands_unavailable
other_platform e op workspace_read c =
    claim unsupported "workspace mount checks are unavailable on this platform"
other_platform e op workspace_write c =
    claim unsupported "workspace mount checks are unavailable on this platform"
other_platform _ _ _ c = c

-- `platform`
unfoldable pub on_platform : Platform → Engine → Operation → Feature → Capability → Capability
unfolding linux_platform darwin_platform windows_platform other_platform
on_platform linux = linux_platform
on_platform darwin = darwin_platform
on_platform windows = windows_platform
on_platform (elsewhere name) = other_platform

-- The last lines of `supportFor`: what the table claims, as the platform has it.
unfoldable pub from_table : Platform → Engine → Operation → Feature → Capability
from_table p e op f = elim (support_table e op f) [
  | none ↦ claim unsupported "not offered by this engine"
  | some c ↦ on_platform p e op f c
]

abbrev pub is_available : Feature → Bool
is_available available = true
is_available _ = false

-- A feature other than `Available` is what the operation's own claim lets through.
unfoldable pub by_operation : Platform → Engine → Operation → Feature → Capability
by_operation p e op f =
    let operation = from_table p e op available in
    if not (is_available f) && not (usable operation) then operation else from_table p e op f

-- `supportFor`
unfoldable pub support_for : Platform → Engine → Operation → Feature → Capability
unfolding sandbox_edge_support process_inspection_support loopback_ports_support
    loopback_local_only_support by_operation
support_for p e op sandbox_edge = sandbox_edge_support e op p
support_for p e op process_inspection = process_inspection_support e op p
support_for p e op loopback_ports = loopback_ports_support e op p
support_for p (other name) op f = claim unsupported "unrecognized engine"
support_for p e op loopback_local_only = loopback_local_only_support p e op
support_for p e op f = by_operation p e op f
