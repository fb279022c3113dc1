-- ===== src/Capability/Table/CommandCode.antt =====
-- capability_table.go: what Command Code offers. The reasons are the source's own.
use lib_agent_harness.Prelude.{Option, none, some}
use lib_agent_harness.Capability.Vocabulary.{
  Engine, command_code, Operation, account, complete, models, runs, session, Feature,
  append_instructions, available, background, cache_split, compact, context_window, effort,
  include_global_skills, interrupt, loopback, provided_skills, replace_instructions, restrict_tools,
  resume, sandbox, steer, tool_activity, tool_images, tools, Capability, claim, composed, native,
  unknown, unsupported, background_claim, native_claim, unverified,
}

unfoldable pub command_code_rows : Engine → Operation → Feature → Option Capability
command_code_rows command_code complete available =
    some (claim unsupported "no tool-free Command Code mode has been proven; use Session")
command_code_rows command_code runs available =
    some (claim unsupported "Command Code is offered only as a session")
command_code_rows command_code models available =
    some (claim unsupported "Command Code lists its models only inside a session's configuration")
command_code_rows command_code account available =
    some (claim unsupported "Command Code's agent protocol exposes no account inspection")
command_code_rows command_code session available = some unverified
command_code_rows command_code session resume = some (
    claim unknown
      "session/resume, once session/list shows Command Code holds the conversation for WorkDir: it resumes an unknown id as an empty conversation")
command_code_rows command_code session interrupt = some unverified
command_code_rows command_code session steer =
    some (claim composed "Command Code steering cancels the running prompt and sends another")
command_code_rows command_code session effort = some (
    claim native
      "set through session/set_config_option and checked against the configuration the session reports before the first turn")
command_code_rows command_code session cache_split = some native_claim
command_code_rows command_code session context_window = some (
    claim unknown
      "Command Code's own used and size figures from the usage_update each prompt ends with")
command_code_rows command_code session tool_activity = some (
    claim native
      "the agent protocol's rawInput, and rawOutput or content on a tool call's final update")
command_code_rows command_code session tool_images = some (
    claim unknown
      "image content blocks in an ACP tool call update, as the protocol declares them; not seen from a real tool")
command_code_rows command_code session background = some background_claim
command_code_rows command_code session include_global_skills =
    some (claim native "Command Code loads its installed skills itself")
command_code_rows command_code session provided_skills = some (
    claim unsupported
      "cmd acp takes no skill paths and Command Code sessions have no instructions to carry a skill index")
command_code_rows command_code session append_instructions =
    some (claim unsupported "cmd acp's session/new takes no instructions")
command_code_rows command_code session replace_instructions =
    some (claim unsupported "cmd acp's session/new takes no instructions")
command_code_rows command_code session compact = some (
    claim unsupported
      "Command Code exposes no verified manual compaction control; its /compact command is not used")
command_code_rows command_code session restrict_tools =
    some (claim unsupported "Command Code sessions have no proven removal of native tools")
command_code_rows command_code session sandbox =
    some (claim unsupported "Command Code sessions have no proven OS sandbox")
command_code_rows command_code session loopback =
    some (claim unsupported "Command Code sessions have no proven OS sandbox")
command_code_rows command_code session tools =
    some (claim unsupported "Command Code sessions do not host caller tools")
command_code_rows _ _ _ = none
