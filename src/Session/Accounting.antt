-- ===== src/Session/Accounting.antt =====
-- session/turn.go and session/api_loop.go: the usage observed during a turn, and the accounting of a
-- turn whose loop the library runs.
pub mod Exact
use lib_agent_harness.Prelude.{Bool, true, false, Option, none, some, List, [], ◌∷◌, if◌then◌else◌}
use lib_agent_harness.Usage.{Usage, unknown}
use lib_agent_harness.Tokens

-- `session.Usage` of the source, with the embedded `harness.Usage` as its first field
pub record SessionUsage : Type 0 where
  pub figures : Usage
  pub final : Bool

-- `Usage.add`
unfoldable pub add : SessionUsage → SessionUsage → SessionUsage
add u next =
    if next.figures.known
    then record { figures = Tokens.add u.figures next.figures; final = false }
    else u

pub record TurnAccount : Type 0 where
  pub total : SessionUsage
  pub known : Bool

-- the account that `runAPITurn` starts with
abbrev pub opened : TurnAccount
opened = record { total = record { figures = unknown; final = false }; known = true }

-- `turnAccount.add`
unfoldable pub account_add : TurnAccount → Usage → TurnAccount
unfolding add
account_add u next =
    let total = add u.total (record { figures = next; final = false }) in
    if next.known
    then record { total = total; known = if total.figures.known then u.known else false }
    else record u { known = false }

-- the responses of one turn, in order
unfoldable pub account_all : TurnAccount → List Usage → TurnAccount
account_all u [] = u
account_all u (next ∷ rest) = account_all (account_add u next) rest

-- the usage that `endAPITurn` publishes, where it publishes one
unfoldable pub settled : TurnAccount → Option SessionUsage
settled u =
    if u.known
    then some (record { figures = record u.total.figures { known = true }; final = true })
    else none
