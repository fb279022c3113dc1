-- ===== src/Capability/Table/Activity.antt =====
-- capability_table.go: loopback, background, images, browsers and subagents. The reasons are the source's own.
use lib_agent_harness.Prelude.{Option, none, some}
use lib_agent_harness.Capability.Vocabulary.{
  Engine, antigravity, claude, codex, fx, grok, Operation, runs, session, Feature, background,
  browser, loopback, sandboxed_browser, sandboxed_subagents, tool_images, Capability, claim, native,
  unknown, unsupported, background_claim, claude_browser, codex_browser,
}

unfoldable pub activity_rows : Engine → Operation → Feature → Option Capability
activity_rows grok session loopback =
    some (claim unsupported "Grok sessions have no proven OS sandbox")
activity_rows antigravity session loopback =
    some (claim unsupported "Antigravity sessions have no proven OS sandbox")
activity_rows fx session loopback = some (claim unsupported "fx sessions have no proven OS sandbox")
activity_rows codex runs loopback =
    some (claim unsupported "a native run has no library-proven sandbox to scope networking in")
activity_rows claude runs loopback =
    some (claim unsupported "a native run has no library-proven sandbox to scope networking in")
activity_rows grok runs loopback =
    some (claim unsupported "a native run has no library-proven sandbox to scope networking in")
activity_rows antigravity runs loopback =
    some (claim unsupported "a native run has no library-proven sandbox to scope networking in")
activity_rows fx runs loopback =
    some (claim unsupported "a native run has no library-proven sandbox to scope networking in")
activity_rows claude session background = some background_claim
activity_rows codex session background = some background_claim
activity_rows grok session background = some background_claim
activity_rows antigravity session background = some background_claim
activity_rows fx session background = some background_claim
activity_rows claude runs background = some background_claim
activity_rows codex runs background = some background_claim
activity_rows grok runs background = some background_claim
activity_rows antigravity runs background = some background_claim
activity_rows fx runs background = some background_claim
activity_rows claude session tool_images = some (
    claim native
      "image blocks in Claude Code's tool results, checked with a claude-in-chrome screenshot")
activity_rows codex session tool_images = some (
    claim native
      "generated images in codex-cli 0.159.2's imageGeneration results, checked through a native session; MCP image content as the app-server protocol declares it")
activity_rows grok session tool_images = some (
    claim unknown
      "image content blocks in an ACP tool call update, as the protocol declares them; not seen from a real tool")
activity_rows antigravity session tool_images =
    some (claim unsupported "agy step_update tool output is text")
activity_rows claude session browser = some claude_browser
activity_rows claude runs browser = some claude_browser
activity_rows codex session browser = some codex_browser
activity_rows codex runs browser = some codex_browser
activity_rows grok session browser =
    some (claim unsupported "Grok 1.0.41 ships no browser integration")
activity_rows antigravity session browser =
    some (claim unsupported "Antigravity ships no CLI browser flag")
activity_rows claude session sandboxed_browser = some (
    claim native
      "a sandboxed Claude session admits the browser's tools beside its own, except those that would read local files or start another agent; the browser itself runs outside the sandbox")
activity_rows codex session sandboxed_browser = some (
    claim native
      "the ChatGPT app node_repl bridge runs JavaScript confined by the session sandbox, proven before launch; drives the owner's real Chrome with its logins; Chrome backend only, no computer use")
activity_rows grok runs browser =
    some (claim unsupported "Grok 1.0.41 ships no browser integration")
activity_rows antigravity runs browser =
    some (claim unsupported "Antigravity ships no CLI browser flag")
activity_rows claude session sandboxed_subagents = some (
    claim native
      "Claude Code's Agent tool with its built-in agent types only; a subagent runs in the session's process under its tools, permission rules and OS sandbox, as Claude Code documents, not proved by the library; isolation: worktree has the CLI create a git worktree and branch outside the sandbox, even without Write")
activity_rows codex session sandboxed_subagents = some (
    claim native
      "codex-cli's multi_agent tools; agents run as threads of the session's app-server under its permission profile and approval policy, as Codex documents, not proved by the library")
activity_rows _ _ _ = none
