-- ===== src/Capability/Reasons.antt =====
-- The reasons of capability.go, capability_loopback.go and capability_inspection.go that more than one
-- claim gives, in the words of the source.
use lib_agent_harness.Prelude.{String}

abbrev pub sandbox_edge_linux_reason : String
sandbox_edge_linux_reason =
    "edge_unavailable: Linux bubblewrap CLI edge and provider transport are not yet delivered (Part 2); native per-command loopback does not reach host development servers"

abbrev pub sandbox_edge_fx_reason : String
sandbox_edge_fx_reason =
    "fx 0.0.14 ignores HTTP(S)_PROXY and ALL_PROXY and dials its provider directly, so under the edge, whose only egress is the provider proxy, it cannot reach any provider; it needs proxy support before it can run inside"

abbrev pub loopback_local_only_seatbelt_reason : String
loopback_local_only_seatbelt_reason =
    "loopback_local_only_unenforceable: Seatbelt network filters accept only * or localhost hosts, and localhost admits binds and inbound connections on every local interface (owner-run evidence); local-only loopback cannot be enforced on macOS"

abbrev pub claude_loopback_exposure_reason : String
claude_loopback_exposure_reason =
    "macOS Claude Loopback is proved at launch by localhost reach and bind plus outbound off-machine refusal; LAH-39 real-Seatbelt evidence shows allowLocalBinding (local ip *:*) admits binds and inbound connections on every local interface, so 0.0.0.0 and LAN listeners may be reachable from other machines; no local-only claim; interface-address TCP bind, UDP bind and UDP send diagnostics record observations or unavailable measurements without gating the base proof"

abbrev pub claude_linux_host_loopback_reason : String
claude_linux_host_loopback_reason =
    "claude_linux_host_loopback_unavailable: Claude Linux sessions offer per-command loopback; the host's and other commands' servers are outside this contract"

abbrev pub claude_linux_loopback_reason : String
claude_linux_loopback_reason =
    "Claude Linux offers per-command loopback: a command can reach servers it starts itself; the host's and other commands' servers are outside this contract; owner-observed Ubuntu 24.04.5 / bubblewrap 0.9.0 / Claude Code 2.1.289 proved in-command reach and bind with host localhost unreachable and outbound off-machine traffic refused; proved before launch, host-shared scope refused; host-interface bind confinement remains unproved, no local-only claim; socat is required"

abbrev pub loopback_ports_seatbelt_reason : String
loopback_ports_seatbelt_reason =
    "loopback_ports_unenforceable: Seatbelt per-port rules can name only localhost, which admits TCP/UDP binds on every local interface (owner-run Darwin 27 evidence, LAH-39); selected ports cannot be confined to loopback on macOS; use Loopback via a separate sandbox.Open command sandbox on macOS or Linux for servers started inside the command; command sandboxing is unavailable on Windows and other platforms"

abbrev pub loopback_ports_alternative : String
loopback_ports_alternative =
    "use Loopback via a separate sandbox.Open command sandbox on macOS or Linux for servers started inside the command; command sandboxing is unavailable on Windows and other platforms"

abbrev pub loopback_ports_private_namespace_reason : String
loopback_ports_private_namespace_reason =
    "private per-command loopback has no per-port filter; use Loopback via a separate sandbox.Open command sandbox on macOS or Linux for servers started inside the command; command sandboxing is unavailable on Windows and other platforms"

abbrev pub process_inspection_seatbelt_reason : String
process_inspection_seatbelt_reason =
    "process_inspection_unenforceable: a same-sandbox process-info and sysctl boundary has not been proved on macOS; inspection is refused"

abbrev pub process_inspection_platform_reason : String
process_inspection_platform_reason = "process inspection is unavailable on this platform"

abbrev pub process_inspection_windows_reason : String
process_inspection_windows_reason =
    "process inspection is unavailable on Windows; restricted command hosting is not offered"

abbrev pub process_inspection_native_reason : String
process_inspection_native_reason =
    "process inspection is offered only by the shared command sandbox, not native engines or runs"

abbrev pub process_inspection_namespace_reason : String
process_inspection_namespace_reason =
    "proved per Open in each command's private PID namespace; separate Run and Start trees are invisible"
