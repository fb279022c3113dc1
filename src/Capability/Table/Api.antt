-- ===== src/Capability/Table/Api.antt =====
-- capability_table.go: what an API endpoint offers. The reasons are the source's own.
use lib_agent_harness.Prelude.{Option, none, some}
use lib_agent_harness.Capability.Vocabulary.{
  Engine, claude, codex, openai_compatible, Operation, account, runs, session, Feature,
  append_instructions, available, background, cache_split, compact, context_window, effort,
  include_global_skills, interrupt, loopback, provided_skills, replace_instructions, restrict_tools,
  resume, sandbox, steer, tool_activity, tools, workspace_read, workspace_write, Capability, claim,
  composed, native, unknown, unsupported, cache_varies,
}

unfoldable pub api_rows : Engine → Operation → Feature → Option Capability
api_rows openai_compatible runs available =
    some (claim unsupported "an API endpoint has no native agent; use Complete")
api_rows openai_compatible session workspace_read = some (
    claim composed
      "the library's read_file, list_files and search_files: regular, singly linked files reached inside WorkDir on WorkDir's own mount")
api_rows openai_compatible session workspace_write = some (
    claim composed
      "the library's write_file and edit_file, inside WorkDir on WorkDir's own mount; .git is never written; symlinks are refused, not written through; each write is an atomic, synced replacement")
api_rows openai_compatible session available = some (
    claim composed
      "the library runs the agent loop over the endpoint, keeping the conversation in RuntimeHome")
api_rows openai_compatible session resume = some (
    claim composed
      "the library reloads its own transcript; a call interrupted mid-run is answered as an unknown outcome, never re-run")
api_rows openai_compatible session interrupt =
    some (claim composed "the library cancels the in-flight request and the running handler")
api_rows openai_compatible session steer =
    some (claim composed "the library interrupts the turn and starts another")
api_rows openai_compatible session restrict_tools = some (
    claim composed
      "only the caller's hosted tools and the library's workbench tools exist: the library writes every request itself")
api_rows openai_compatible session tools =
    some (claim composed "the library calls the caller's handler directly, one call at a time")
api_rows openai_compatible session append_instructions =
    some (claim composed "sent as the leading system message")
api_rows openai_compatible session replace_instructions =
    some (
      claim composed
        "sent as the leading system message; an endpoint has no base prompt to replace")
api_rows openai_compatible session effort = some (claim native "requires API.EffortParameter")
api_rows openai_compatible session provided_skills = some (
    claim composed
      "the library indexes provided skills and answers its read-only skill tool; a permitted skill's scripts run as SkillRun says")
api_rows openai_compatible session include_global_skills = some (
    claim unsupported
      "an API endpoint has no installed skills; only Default or Exclude is accepted")
api_rows openai_compatible session sandbox = some (
    claim unknown
      "Workbench.Commands proves its pinned Seatbelt profile before launch or refuses the session")
api_rows openai_compatible session loopback = some (
    claim unknown
      "Workbench.Commands.Loopback on macOS allows binds and inbound connections on every local interface; a server bound to 0.0.0.0 or a LAN address may be reachable from other machines; outbound off-machine traffic stays refused, proved before launch")
api_rows openai_compatible session background =
    some (claim composed "Workbench.Commands runs each contained process group at nice 10")
api_rows openai_compatible session compact =
    some (claim unsupported "the library does not compact a composed session's history")
api_rows openai_compatible session cache_split = some cache_varies
api_rows openai_compatible session context_window =
    some (claim unknown "estimated from each response's input; Chat Completions states no window")
api_rows openai_compatible session tool_activity = some (
    claim composed
      "the library reports the model's call arguments and the handler's result as it ran them")
api_rows openai_compatible account available =
    some (claim unsupported "API endpoints expose no account inspection")
api_rows claude session loopback = some (
    claim unknown
      "Claude Code's sandbox allowLocalBinding, which on macOS allows binds and inbound connections on every local interface; a server bound to 0.0.0.0 or a LAN address may be reachable from other machines; outbound off-machine traffic stays refused; proved before each launch by a canary that must reach and bind loopback and be refused an off-machine address")
api_rows codex session loopback = some (
    claim unsupported
      "codex-cli 0.160.0 native loopback is unproved: owner-observed macOS tests found closed network refused loopback, while enabled network with localhost domain rules, including a proxy variant and a native session, allowed off-machine TCP 443 and TCP/UDP port 53; other platforms have no native enforcement proof; use a closed-network sandbox or a separately proved command sandbox")
api_rows _ _ _ = none
