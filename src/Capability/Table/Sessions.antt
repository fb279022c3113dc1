-- ===== src/Capability/Table/Sessions.antt =====
-- capability_table.go: what the sessions of four engines offer. The reasons are the source's own.
use lib_agent_harness.Prelude.{Option, none, some}
use lib_agent_harness.Capability.Vocabulary.{
  Engine, antigravity, claude, codex, grok, Operation, session, Feature, append_instructions,
  available, cache_split, compact, context_window, effort, interrupt, replace_instructions,
  restrict_tools, resume, sandbox, steer, tool_activity, tools, Capability, claim, composed, native,
  unknown, unsupported, native_claim, unverified,
}

unfoldable pub session_rows : Engine → Operation → Feature → Option Capability
session_rows codex session replace_instructions = some unverified
session_rows codex session restrict_tools = some unverified
session_rows codex session sandbox = some unverified
session_rows codex session tools = some unverified
session_rows codex session effort = some (
    claim native
      "sent with each turn; a restricted session checks it against the installed CLI's model catalog")
session_rows codex session cache_split = some native_claim
session_rows codex session context_window = some unverified
session_rows codex session tool_activity = some (
    claim native
      "item arguments, aggregated output, exit code and MCP results from the app-server's own items")
session_rows claude session available = some unverified
session_rows claude session resume = some unverified
session_rows claude session interrupt = some unverified
session_rows claude session steer = some unverified
session_rows claude session compact =
    some (claim unsupported "Claude exposes no verified manual compaction control protocol")
session_rows claude session append_instructions = some unverified
session_rows claude session replace_instructions = some unverified
session_rows claude session restrict_tools = some unverified
session_rows claude session sandbox = some unverified
session_rows claude session tools = some unverified
session_rows claude session effort = some native_claim
session_rows claude session cache_split = some native_claim
session_rows claude session context_window = some unverified
session_rows claude session tool_activity =
    some (claim native "tool_use input and tool_result content from the stream")
session_rows grok session available = some unverified
session_rows grok session resume = some unverified
session_rows grok session interrupt = some unverified
session_rows grok session steer =
    some (claim composed "Grok steering cancels the running prompt and sends another")
session_rows grok session compact = some (
    claim unsupported
      "Grok exposes no verified manual compaction control; its /compact command and compaction extension are not used")
session_rows grok session append_instructions = some unverified
session_rows grok session replace_instructions = some unverified
session_rows grok session restrict_tools = some (
    claim unsupported
      "Grok sessions have no proven removal of native tools; use Complete for tool-free Grok")
session_rows grok session sandbox =
    some (claim unsupported "Grok sessions have no proven OS sandbox")
session_rows grok session tools = some (claim unsupported "Grok sessions do not host caller tools")
session_rows grok session effort =
    some (claim native "checked against the session's model state before the first turn")
session_rows grok session cache_split = some native_claim
session_rows grok session context_window = some (
    claim unknown
      "estimated from each response's input against the window Grok's model state states")
session_rows grok session tool_activity = some (
    claim native
      "the agent protocol's rawInput, and rawOutput or content on a tool call's final update")
session_rows antigravity session available = some unverified
session_rows antigravity session resume = some unverified
session_rows antigravity session interrupt =
    some
      (claim unsupported "agy's stream-json input reads the next line only after a turn finishes")
session_rows antigravity session steer =
    some
      (claim unsupported "agy's stream-json input reads the next line only after a turn finishes")
session_rows antigravity session compact =
    some (claim unsupported "Antigravity exposes no verified manual compaction control")
session_rows antigravity session append_instructions =
    some (claim unsupported "agy takes no system prompt or instruction flag")
session_rows antigravity session replace_instructions =
    some (claim unsupported "agy takes no system prompt or instruction flag")
session_rows antigravity session restrict_tools =
    some (claim unsupported "Antigravity sessions have no proven removal of native tools")
session_rows antigravity session sandbox =
    some (claim unsupported "Antigravity sessions have no proven OS sandbox")
session_rows antigravity session tools =
    some (claim unsupported "Antigravity sessions do not host caller tools")
session_rows antigravity session effort = some (claim native "set at session launch with --effort")
session_rows antigravity session cache_split = some native_claim
session_rows antigravity session context_window =
    some (claim unsupported "agy stream-json events do not state the model's context window")
session_rows antigravity session tool_activity =
    some (claim native "step_update tool parameters and output from the stream")
session_rows _ _ _ = none
