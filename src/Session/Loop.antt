-- ===== src/Session/Loop.antt =====
-- session/api_loop.go, and the transcript of session/api_session.go: the loop of a turn that the library
-- runs itself. What the loop reads of the world (the model's replies, the calls' outcomes, cancellation,
-- whether the session closed the turn, and whether the store takes a record) is a script. The events
-- that it emits and the context estimate are left out.
pub mod Accounted
mod Calls
mod Skips
pub mod Rounds
pub mod Same
pub mod Settles
use lib_agent_harness.Prelude.{
  ℕ, zero, suc, ◌+◌, String, Bool, true, false, not, ◌&&◌, ◌||◌, Option, none, some, List, [], ◌∷◌,
  ◌++◌, map, str_eq, if◌then◌else◌,
}
use lib_agent_harness.Text.{Text, bound}
use lib_agent_harness.Usage.{Usage}
use lib_agent_harness.Session.Accounting.{SessionUsage, TurnAccount, account_add, settled}
use lib_agent_harness.Session.Transcript.{
  ToolCall, Outcome, ran, refused, not_run, unknown, Record, assistant, tool_call, tool_result,
  usage, turn_end, CallStates, call_states, Message, conversation, not_run_text, or_empty,
}

-- `toolOutcome`
pub record Out : Type 0 where
  pub text : Text
  pub is_error : Bool
  pub has_run : Bool
  pub is_unknown : Bool

-- How a handed-over call goes on: its outcome comes, or the turn is stopped while it runs, and its
-- result is recorded before the loop goes on or when its handler returns.
pub data Fate : Type 0 where
  completes stops_settled stops_running : Out → Fate

pub record CallStep : Type 0 where
  pub cancelled : Bool  -- before the call
  pub fate : Fate

-- an error of `complete`: the phase and the code of its `RequestError`, if it is one
pub record Failed : Type 0 where
  pub is_request : Bool
  pub preflight : Bool
  pub code : String

pub record Step : Type 0 where
  pub error : Option Failed
  pub usage : Usage
  pub cancelled : Bool  -- where `ctx.Err()` is read after an error
  pub content : Text
  pub replay : Text
  pub calls : List (ToolCall × CallStep)
  pub ended : Bool  -- where `t.ended()` is read after the text
  pub closed : Bool  -- `channelClosed`, after the calls

-- what `endAPITurn` reads; the turn may be closed while the end is recorded
pub record Ending : Type 0 where
  pub stuck : Bool
  pub ended : Bool
  pub interrupt_requested : Bool
  pub ended_after : Bool

-- what the turn publishes: its status, its error's code, its usage and `NativeError`
pub record Published : Type 0 where
  pub status : String
  pub err : String
  pub usage : Option SessionUsage
  pub native_error : Bool

-- The session's records and response count, the store's faults to come (`true` for an append that
-- fails), the results that handlers still owe, the account and what was published.
pub record Run : Type 0 where
  pub records : List Record
  pub responses : ℕ
  pub faults : List Bool
  pub late : List Record
  pub account : TurnAccount
  pub published : Option Published

abbrev pub kept : Run → Record → Run
kept s r = record s { records = s.records ++ r ∷ [] }

abbrev pub stored : Run → Record → List Bool → Run × Bool
stored s r [] = (kept s r, true)
stored s r (true ∷ faults) = (record s { faults = faults }, false)
stored s r (false ∷ faults) = (kept (record s { faults = faults }) r, true)

-- `apiSession.append`
unfoldable pub append : Run → Record → Run × Bool
append s r = stored s r s.faults

-- A round of the loop stops the turn, or goes on.
pub data Next : Type 0 where
  stop again : Run → Next

abbrev pub outcome_of : Out → Outcome
outcome_of out = if out.is_unknown then unknown else if out.has_run then ran else refused

module _ (turn : String) (limit : ℕ) where
  abbrev pub result_of : ℕ → ToolCall → Out → Record
  result_of response call out =
      tool_result turn response call.id call.name out.text out.is_error (outcome_of out)

  -- the end of `runAPICall`; the appends of `settle` ignore their error
  unfoldable pub fated : Run → ℕ → ToolCall → Fate → Run × Bool
  unfolding append
  fated s response call (completes out) = ((append s (result_of response call out)).0, true)
  fated s response call (stops_settled out) = ((append s (result_of response call out)).0, false)
  fated s response call (stops_running out) =
      (record s { late = s.late ++ result_of response call out ∷ [] }, false)

  -- `runAPICall`: false where the turn is to stop
  unfoldable pub run_call : Run → ℕ → ToolCall → Fate → Run × Bool
  unfolding append fated
  run_call s response call fate =
      let (s', ok) = append s (tool_call turn response call.id call.name) in
      if ok then fated s' response call fate else (s', false)

  abbrev pub skipped : ℕ → ToolCall → Record
  skipped response call =
      tool_result turn response call.id call.name (or_empty (bound not_run_text limit)) true not_run

  -- the loop of `skipCalls`, over the states that it has read
  unfoldable pub skip_from : CallStates → Run → ℕ → List ToolCall → Run
  unfolding append
  skip_from states s response [] = s
  skip_from states s response (call ∷ calls) =
      let (s', ok) = append s (skipped response call) in
      let passed = skip_from states s response calls in
      let rest = skip_from states s' response calls in
      if states.started (response, call.id) then passed else if ok then rest else s'

  unfoldable pub skip_calls : Run → ℕ → List ToolCall → Run
  unfolding skip_from
  skip_calls s response calls = skip_from (call_states s.records) s response calls

  abbrev pub called : List (ToolCall × CallStep) → List ToolCall
  called calls = map (λ (c : ToolCall × CallStep). c.0) calls

  -- the loop over a response's calls
  unfoldable pub run_calls : Run → ℕ → List (ToolCall × CallStep) → Run × Bool
  unfolding run_call skip_calls
  run_calls s response [] = (s, true)
  run_calls s response ((call, step) ∷ calls) =
      let (s', ok) = run_call s response call step.fate in
      let rest = run_calls s' response calls in
      if step.cancelled
      then (skip_calls s response (call ∷ called calls), false)
      else if ok
      then rest
      else (skip_calls s' response (call ∷ called calls), false)

  -- the status and the code that `endAPITurn` records
  unfoldable pub end_status : Ending → String → String → String × String
  end_status e status code =
      if e.stuck
      then ("failed", "workspace_io_stuck")
      else if e.ended
      then ("interrupted", "session_closed")
      else if str_eq status "interrupted" && not e.interrupt_requested
      then (status, "session_closed")
      else (status, code)

  -- `endAPITurn`, for an error with this code ("" for none)
  unfoldable pub end_turn : Run → Ending → String → String → Run
  unfolding append end_status settled
  end_turn s e status code =
      let (ended_as, recorded) = end_status e status code in
      let (s', ok) = append s (turn_end turn ended_as recorded) in
      if not ok || e.ended_after then s' else record s' {
        published = some (record {
          status = ended_as;
          err = code;
          usage = settled s'.account;
          native_error = not (str_eq code "") && not (str_eq code "max_steps");
        });
      }

  -- `mayHaveBilled`
  unfoldable pub may_have_billed : Option Failed → Bool
  may_have_billed none = true
  may_have_billed (some f) = not (f.is_request && f.preflight)

  -- the code of `apiTurnFailure`
  unfoldable pub failure_code : Failed → String
  failure_code f = if f.is_request && not (str_eq f.code "") then f.code else "request_failed"

  -- after the calls of a response
  unfoldable pub after_calls : Ending → Bool → Run × Bool → Next
  unfolding end_turn
  after_calls e closed (s, ok) =
      if not ok
      then stop (end_turn s e "interrupted" "")
      else if closed
      then stop (end_turn s e "completed" "")
      else again s

  abbrev pub is_empty {ℓ} : {A : Type ℓ} → List A → Bool
  is_empty [] = true
  is_empty (_ ∷ _) = false

  -- a response that came: `nextResponse`, its record, and its calls
  unfoldable pub respond : Run → Ending → Step → Next
  unfolding append run_calls after_calls end_turn
  respond s e step =
      let response = s.responses + 1 in
      let counted = record s { responses = response } in
      let (s', ok) =
        append counted (assistant turn response step.content step.replay (called step.calls)) in
      if not ok
      then stop s'
      else if step.ended
      then stop (end_turn s' e "interrupted" "")
      else if is_empty step.calls
      then stop (end_turn s' e "completed" "")
      else after_calls e step.closed (run_calls s' response step.calls)

  -- what follows a request whose usage is recorded
  unfoldable pub replied : Run → Ending → Step → Option Failed → Next
  unfolding respond end_turn failure_code
  replied s e step none = respond s e step
  replied s e step (some f) =
      if step.cancelled
      then stop (end_turn s e "interrupted" "")
      else stop (end_turn s e "failed" (failure_code f))

  unfoldable pub billed : Run → Usage → Run
  unfolding account_add
  billed s u = record s { account = account_add s.account u }

  -- one round of `runAPITurn`
  unfoldable pub round : Run → Ending → Step → Next
  unfolding append billed replied may_have_billed
  round s e step =
      let (s', ok) = append (billed s step.usage) (usage turn step.usage) in
      if may_have_billed step.error
      then (if ok then replied s' e step step.error else stop s')
      else replied s e step step.error

  module _ (instructions : Text) (world : ℕ → List Message → Step) (e : Ending) where
    -- `runAPITurn` with this many steps left of its bound, at this step
    unfoldable pub run_turn : ℕ → ℕ → Run → Run
    unfolding end_turn round
    run_turn zero step s = end_turn s e "failed" "max_steps"
    run_turn (suc left) step s =
        elim (round s e (world step (conversation s.records instructions limit))) [
          | stop s' ↦ s'
          | again s' ↦ run_turn left (step + 1) s'
        ]
