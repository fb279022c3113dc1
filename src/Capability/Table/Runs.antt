-- ===== src/Capability/Table/Runs.antt =====
-- capability_table.go: what native runs offer. The reasons are the source's own.
use lib_agent_harness.Prelude.{Option, none, some}
use lib_agent_harness.Capability.Vocabulary.{
  Engine, antigravity, claude, codex, grok, openai_compatible, Operation, complete, runs, session,
  Feature, append_instructions, available, cache_split, compact, cost_report, effort,
  include_global_skills, interrupt, progress_messages, resume, steer, structured_output, Capability,
  claim, unsupported, native_claim, no_global_skills, unverified,
}

unfoldable pub run_rows : Engine → Operation → Feature → Option Capability
run_rows grok complete include_global_skills = some no_global_skills
run_rows openai_compatible complete include_global_skills = some no_global_skills
run_rows codex runs available = some native_claim
run_rows codex runs effort = some native_claim
run_rows codex runs structured_output = some native_claim
run_rows codex runs resume = some native_claim
run_rows codex runs cache_split = some native_claim
run_rows claude runs available = some native_claim
run_rows claude runs effort = some native_claim
run_rows claude runs structured_output = some native_claim
run_rows claude runs progress_messages = some native_claim
run_rows claude runs resume = some native_claim
run_rows claude runs cost_report = some native_claim
run_rows claude runs cache_split = some native_claim
run_rows grok runs available = some native_claim
run_rows grok runs effort = some native_claim
run_rows grok runs structured_output = some native_claim
run_rows grok runs progress_messages = some native_claim
run_rows grok runs resume = some native_claim
run_rows grok runs cost_report = some native_claim
run_rows grok runs cache_split = some native_claim
run_rows antigravity complete available = some (
    claim unsupported
      "no tool-free Antigravity completion mode has been proven; use Run or Session")
run_rows antigravity runs available = some native_claim
run_rows antigravity runs effort = some native_claim
run_rows antigravity runs structured_output = some native_claim
run_rows antigravity runs progress_messages = some native_claim
run_rows antigravity runs resume = some native_claim
run_rows antigravity runs cache_split = some native_claim
run_rows codex session available = some unverified
run_rows codex session resume = some unverified
run_rows codex session interrupt = some unverified
run_rows codex session steer = some unverified
run_rows codex session compact = some unverified
run_rows codex session append_instructions = some unverified
run_rows _ _ _ = none
