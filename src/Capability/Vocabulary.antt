-- ===== src/Capability/Vocabulary.antt =====
-- harness.go and capability.go: the words in which an engine's capabilities are stated. An engine is a
-- string in the source, so one that the library does not know is `other`.
use lib_agent_harness.Prelude.{String, Bool, true, false}

pub data Engine : Type 0 where
  codex claude grok command_code antigravity fx openai_compatible : Engine
  other : String → Engine

pub data Transport : Type 0 where
  cli api none_known : Transport

-- `Engine.Transport`, with `none_known` for ""
unfoldable pub transport : Engine → Transport
transport openai_compatible = api
transport (other name) = none_known
transport _ = cli

pub data Operation : Type 0 where
  complete runs session models account : Operation

pub data Feature : Type 0 where
  available workspace_read workspace_write effort tools structured_output progress_messages :
      Feature
  resume interrupt steer compact append_instructions replace_instructions restrict_tools : Feature
  sandbox sandbox_edge cost_report cache_split context_window max_output_tokens login quota :
      Feature
  credits provided_skills include_global_skills tool_activity loopback loopback_local_only : Feature
  loopback_ports browser sandboxed_browser sandboxed_subagents background tool_images : Feature
  process_inspection : Feature

pub data Availability : Type 0 where
  native composed unsupported unknown : Availability

-- The zero value of the source, whose availability is "", is never a claim of the table.
pub record Capability : Type 0 where
  pub availability : Availability
  pub reason : String

abbrev pub claim : Availability → String → Capability
claim a r = record { availability = a; reason = r }

abbrev pub is_usable : Availability → Bool
is_usable unsupported = false
is_usable _ = true

-- `Capability.Usable`
unfoldable pub usable : Capability → Bool
usable c = is_usable c.availability

abbrev pub native_claim : Capability
native_claim = claim native ""

abbrev pub unverified : Capability
unverified = claim unknown "not verified against the installed harness"

abbrev pub claude_browser : Capability
claude_browser =
    claim native
      "Claude in Chrome (--chrome) drives the operator's real Chrome through its extension, outside any sandbox, reaching whatever the extension's site permissions allow with that profile's logins"

abbrev pub codex_browser : Capability
codex_browser =
    claim native
      "codex-cli browser_use and browser_use_external features select the configured native browser bridge; requires that bridge in the selected CLI home and the ChatGPT Chrome extension; uses the browser profile's logins and site permissions outside the shell sandbox; sandboxed sessions require an isolated bridge and a pre-launch JavaScript confinement proof; not available with Restriction"

abbrev pub cache_varies : Capability
cache_varies = claim unknown "reported only by endpoints that split cached input"

abbrev pub background_claim : Capability
background_claim = claim native "the process group is niced to 10, which descendants inherit"

abbrev pub composed_skills : Capability
composed_skills =
    claim composed
      "the library indexes provided skills and answers a read-only skill tool; a permitted skill's scripts run only when the caller answers those calls"

abbrev pub no_global_skills : Capability
no_global_skills =
    claim unsupported
      "constrained completion never loads installed skills; only Default or Exclude is accepted"
