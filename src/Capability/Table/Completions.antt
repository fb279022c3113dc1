-- ===== src/Capability/Table/Completions.antt =====
-- capability_table.go: what constrained completion offers. The reasons are the source's own.
use lib_agent_harness.Prelude.{Option, none, some}
use lib_agent_harness.Capability.Vocabulary.{
  Engine, claude, codex, grok, openai_compatible, Operation, complete, Feature, available,
  cache_split, context_window, cost_report, effort, tools, Capability, claim, native, cache_varies,
  native_claim,
}

unfoldable pub completion_rows : Engine → Operation → Feature → Option Capability
completion_rows codex complete available =
    some (claim native "native tools are proven absent before each request")
completion_rows codex complete effort =
    some (claim native "checked against the installed CLI's model catalog")
completion_rows codex complete tools = some native_claim
completion_rows codex complete cache_split = some native_claim
completion_rows claude complete available =
    some (claim native "native tools are proven absent before each request")
completion_rows claude complete effort = some native_claim
completion_rows claude complete tools = some native_claim
completion_rows claude complete cache_split = some native_claim
completion_rows claude complete cost_report = some native_claim
completion_rows claude complete context_window = some native_claim
completion_rows grok complete available = some (
    claim native
      "native tools and instructions are proven against a local refusing provider before the first launch of each binary and flag set, and checked again in each run's stream and transcript; unavailable on Windows")
completion_rows grok complete effort = some native_claim
completion_rows grok complete tools = some native_claim
completion_rows grok complete cache_split = some native_claim
completion_rows grok complete cost_report = some native_claim
completion_rows openai_compatible complete available = some native_claim
completion_rows openai_compatible complete effort =
    some (claim native "requires API.EffortParameter")
completion_rows openai_compatible complete tools = some native_claim
completion_rows openai_compatible complete cache_split = some cache_varies
completion_rows _ _ _ = none
