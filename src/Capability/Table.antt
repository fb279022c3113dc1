-- ===== src/Capability/Table.antt =====
-- capability_table.go: the library's static claims, one function for each run of rows of the table.
mod Completions
mod Skills
mod Runs
mod Sessions
mod Fx
mod Models
mod Api
mod Activity
mod CommandCode
mod Accounts
use lib_agent_harness.Prelude.{Option, none, some}
use lib_agent_harness.Capability.Vocabulary.{Engine, Operation, Feature, Capability}
use Completions.{completion_rows}
use Skills.{skill_rows}
use Runs.{run_rows}
use Sessions.{session_rows}
use Fx.{fx_rows}
use Models.{model_rows}
use Api.{api_rows}
use Activity.{activity_rows}
use CommandCode.{command_code_rows}
use Accounts.{account_rows}

infixr 40 ◌or_else◌
abbrev ◌or_else◌ : Option Capability → Option Capability → Option Capability
none or_else c = c
some a or_else c = some a

-- `supportTable`: no key stands in it twice, so the order of the rows does not matter.
unfoldable pub support_table : Engine → Operation → Feature → Option Capability
unfolding completion_rows skill_rows run_rows session_rows fx_rows model_rows api_rows activity_rows
    command_code_rows account_rows
support_table e op f =
    completion_rows e op f
    or_else skill_rows e op f
    or_else run_rows e op f
    or_else session_rows e op f
    or_else fx_rows e op f
    or_else model_rows e op f
    or_else api_rows e op f
    or_else activity_rows e op f
    or_else command_code_rows e op f
    or_else account_rows e op f
