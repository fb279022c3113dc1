-- ===== src/Capability/Table/Models.antt =====
-- capability_table.go: what listing models offers. The reasons are the source's own.
use lib_agent_harness.Prelude.{Option, none, some}
use lib_agent_harness.Capability.Vocabulary.{
  Engine, antigravity, claude, codex, grok, openai_compatible, Operation, models, Feature,
  available, context_window, effort, Capability, claim, unknown, unsupported, native_claim,
}

unfoldable pub model_rows : Engine → Operation → Feature → Option Capability
model_rows codex models available = some native_claim
model_rows codex models effort = some native_claim
model_rows codex models context_window = some (
    claim unknown
      "the window the installed CLI's bundled model catalog states; the account's service may differ")
model_rows claude models available = some native_claim
model_rows claude models effort = some native_claim
model_rows grok models available = some native_claim
model_rows grok models effort = some native_claim
model_rows grok models context_window = some native_claim
model_rows antigravity models available = some native_claim
model_rows antigravity models effort =
    some (claim unsupported "agy models does not list per-model efforts")
model_rows antigravity models context_window =
    some (claim unsupported "agy models does not list context windows")
model_rows openai_compatible models available = some native_claim
model_rows openai_compatible models effort =
    some (claim unsupported "endpoints do not list efforts")
model_rows openai_compatible models context_window =
    some (claim unknown "reported only by some gateways")
model_rows _ _ _ = none
