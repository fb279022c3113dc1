-- ===== src/Capability/Table/Skills.antt =====
-- capability_table.go: output limits and skills. The reasons are the source's own.
use lib_agent_harness.Prelude.{Option, none, some}
use lib_agent_harness.Capability.Vocabulary.{
  Engine, antigravity, claude, codex, grok, openai_compatible, Operation, complete, runs, session,
  Feature, include_global_skills, max_output_tokens, provided_skills, Capability, claim, composed,
  native, unsupported, composed_skills, native_claim, no_global_skills,
}

unfoldable pub skill_rows : Engine → Operation → Feature → Option Capability
skill_rows openai_compatible session max_output_tokens =
    some (claim native "Loop.MaxOutputTokens, sent as max_completion_tokens")
skill_rows claude complete max_output_tokens =
    some (claim native "CLAUDE_CODE_MAX_OUTPUT_TOKENS, proven by the capability probe")
skill_rows openai_compatible complete max_output_tokens =
    some (claim native "sent as max_completion_tokens")
skill_rows codex complete max_output_tokens =
    some (claim unsupported "codex exec sends no output limit")
skill_rows grok complete max_output_tokens =
    some
      (claim unsupported "the catalog model's own limit can override it, and no probe can prove it")
skill_rows claude runs provided_skills = some (claim native "loaded through a private --plugin-dir")
skill_rows codex runs provided_skills =
    some
      (claim composed "an index with each SKILL.md's path is added to the developer instructions")
skill_rows grok runs provided_skills =
    some (claim composed "an index with each SKILL.md's path is added through --rules")
skill_rows antigravity runs provided_skills = some (
    claim unsupported
      "agy takes no skill plugin flag and has no instruction flag to carry a skill index")
skill_rows claude runs include_global_skills = some native_claim
skill_rows codex runs include_global_skills = some native_claim
skill_rows grok runs include_global_skills = some native_claim
skill_rows antigravity runs include_global_skills =
    some (claim native "agy loads its installed skills from ~/.gemini")
skill_rows claude session provided_skills =
    some (claim native "a private --plugin-dir; composed when sandboxed or restricted")
skill_rows codex session provided_skills = some (
    claim composed
      "instructions or hosted tools; native in sandboxed sessions through the runtime home")
skill_rows grok session provided_skills = some (claim native "grok agent --plugin-dir")
skill_rows antigravity session provided_skills = some (
    claim unsupported
      "agy takes no skill plugin flag and has no instruction flag to carry a skill index")
skill_rows claude session include_global_skills = some (claim native "ordinary sessions only")
skill_rows codex session include_global_skills = some (claim native "ordinary sessions only")
skill_rows grok session include_global_skills = some (claim native "ordinary sessions only")
skill_rows antigravity session include_global_skills = some (claim native "ordinary sessions only")
skill_rows codex complete provided_skills = some composed_skills
skill_rows claude complete provided_skills = some composed_skills
skill_rows grok complete provided_skills = some composed_skills
skill_rows openai_compatible complete provided_skills = some composed_skills
skill_rows codex complete include_global_skills = some no_global_skills
skill_rows claude complete include_global_skills = some no_global_skills
skill_rows _ _ _ = none
