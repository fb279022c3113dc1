-- ===== src/Capability/Table/Fx.antt =====
-- capability_table.go: what fx offers. The reasons are the source's own.
use lib_agent_harness.Prelude.{Option, none, some}
use lib_agent_harness.Capability.Vocabulary.{
  Engine, fx, Operation, account, complete, models, runs, session, Feature, append_instructions,
  available, background, browser, cache_split, compact, context_window, cost_report, credits,
  effort, include_global_skills, interrupt, login, progress_messages, provided_skills, quota,
  replace_instructions, restrict_tools, resume, sandbox, steer, structured_output, tool_activity,
  tool_images, tools, Capability, claim, composed, native, unknown, unsupported, background_claim,
  native_claim, unverified,
}

unfoldable pub fx_rows : Engine → Operation → Feature → Option Capability
fx_rows fx complete available =
    some (claim unsupported "no tool-free fx mode has been proven; use Session")
fx_rows fx runs available = some native_claim
fx_rows fx runs effort = some native_claim
fx_rows fx runs structured_output = some (claim unsupported "fx ask states no output schema")
fx_rows fx runs progress_messages =
    some (claim unsupported "fx ask returns one final response, not a message stream")
fx_rows fx runs resume = some native_claim
fx_rows fx runs cost_report = some (claim unsupported "fx states no dollar valuation of a run")
fx_rows fx runs cache_split =
    some (claim unsupported "fx states no split between cached and fresh input")
fx_rows fx runs provided_skills =
    some (claim composed "an index with each SKILL.md's path is added to the request")
fx_rows fx runs include_global_skills = some (claim native "fx loads its installed skills itself")
fx_rows fx runs browser = some (claim unsupported "fx ships no CLI browser flag")
fx_rows fx models available = some native_claim
fx_rows fx models effort = some native_claim
fx_rows fx models context_window = some (claim unknown "fx states no context window per model")
fx_rows fx account available =
    some (claim native "read from fx's own status and credits commands, without a session")
fx_rows fx account login = some (claim native "fx status states the active sign-in and its team")
fx_rows fx account quota =
    some (claim unsupported "fx reports spend for a period, not subscription allowance windows")
fx_rows fx account credits =
    some (claim native "the AI Gateway balance fx credits states, in dollars")
fx_rows fx session available = some unverified
fx_rows fx session resume = some (
    claim unknown
      "session/resume answers with the configuration alone; fx refuses an id it does not hold")
fx_rows fx session interrupt = some unverified
fx_rows fx session steer =
    some (claim composed "fx steering cancels the running prompt and sends another")
fx_rows fx session effort = some (
    claim native
      "set through session/set_config_option and checked against the configuration the session reports before the first turn")
fx_rows fx session cache_split = some (
    claim native
      "session/prompt usage states cacheReadTokens and cacheWriteTokens within inputTokens, checked against fx 0.0.14")
fx_rows fx session context_window =
    some (claim unknown "fx's own used and size figures from the usage_update each turn ends with")
fx_rows fx session tool_activity = some (
    claim native
      "the agent protocol's rawInput, and rawOutput or content on a tool call's final update")
fx_rows fx session tool_images = some (
    claim unknown
      "image content blocks in an ACP tool call update, as the protocol declares them; not seen from a real tool")
fx_rows fx session background = some background_claim
fx_rows fx session include_global_skills =
    some (claim native "fx loads its installed skills itself")
fx_rows fx session provided_skills = some (
    claim composed
      "the index of each provided skill's path travels with the session's instructions")
fx_rows fx session append_instructions = some (
    claim native
      "sent as session/new's systemPrompt content blocks, which fx appends to its own system prompt")
fx_rows fx session replace_instructions =
    some (claim unsupported "fx only appends session instructions to its own system prompt")
fx_rows fx session compact =
    some
      (claim unsupported "fx exposes no verified manual compaction control over the agent protocol")
fx_rows fx session restrict_tools =
    some (claim unsupported "fx sessions have no proven removal of native tools")
fx_rows fx session sandbox = some (claim unsupported "fx sessions have no proven OS sandbox")
fx_rows fx session tools = some (claim unsupported "fx sessions do not host caller tools")
fx_rows fx session browser =
    some (claim unsupported "the library switches on no fx browser integration")
fx_rows _ _ _ = none
