-- ===== src/Capability/Table/Accounts.antt =====
-- capability_table.go: what account inspection offers. The reasons are the source's own.
use lib_agent_harness.Prelude.{Option, none, some}
use lib_agent_harness.Capability.Vocabulary.{
  Engine, antigravity, claude, codex, command_code, grok, Operation, account, session, Feature,
  available, browser, credits, login, quota, Capability, claim, native, unsupported, native_claim,
  unverified,
}

unfoldable pub account_rows : Engine → Operation → Feature → Option Capability
account_rows command_code session browser =
    some (claim unsupported "the library switches on no Command Code browser integration")
account_rows codex account available = some unverified
account_rows codex account login = some unverified
account_rows codex account quota = some unverified
account_rows claude account available = some unverified
account_rows claude account login = some unverified
account_rows claude account quota = some unverified
account_rows codex account credits = some unverified
account_rows claude account credits = some unverified
account_rows grok account available =
    some (claim native "read over Grok's agent protocol without a session")
account_rows grok account login = some native_claim
account_rows grok account quota = some (claim unsupported "Grok exposes no quota windows")
account_rows grok account credits = some (claim unsupported "Grok exposes no credit balance")
account_rows antigravity account available = some unverified
account_rows antigravity account login = some unverified
account_rows antigravity account quota = some unverified
account_rows antigravity account credits = some unverified
account_rows _ _ _ = none
