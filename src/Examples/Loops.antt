-- ===== src/Examples/Loops.antt =====
-- A turn of two responses: the first one calls a tool, the second one ends the turn.
use lib_agent_harness.Prelude.{
  ℕ, zero, suc, List, none, some, [], ◌∷◌, ◌++◌, codes, true, false, ◌≡◌, refl,
}
use lib_agent_harness.Usage.{Usage}
use lib_agent_harness.Prelude.Int.{pos}
use lib_agent_harness.Session.Accounting.{opened, settled, account_all}
use lib_agent_harness.Session.Transcript.{
  ToolCall, open_turn, header, turn_start, user, Message, call_states, note, note_all,
  recover_transcript,
}
use lib_agent_harness.Session.Transcript.Recovered.{IsSettled}
use lib_agent_harness.Session.Loop.{
  completes, CallStep, Step, Ending, Published, Run, run_turn, round, append, billed, replied,
  may_have_billed, respond, run_calls, run_call, fated, after_calls, end_turn, end_status,
}
use lib_agent_harness.Session.Loop.Rounds.{IsOpen}
use lib_agent_harness.Session.Loop.Settles.{run_turn_settles}
use lib_agent_harness.Session.Loop.Accounted.{recorded_account, Reports, publishes_recorded}
use lib_agent_harness.Session.Loop.Same.{turn_usages}

abbrev tokens : Usage
tokens = record {
  known = true;
  input = pos 5;
  output = pos 2;
  cache_read = pos 0;
  cache_write = pos 0;
  reasoning = pos 0;
  cache_known = false;
  reasoning_known = false;
}

abbrev reply : List (ToolCall × CallStep) → Step
reply calls = record {
  error = none;
  usage = tokens;
  cancelled = false;
  content = codes "ok";
  replay = [];
  calls = calls;
  ended = false;
  closed = false;
}

abbrev shell : ToolCall × CallStep
shell = (
  record { id = "a"; kind = "function"; name = "shell"; arguments = codes "{}"; replay = [] },
  record {
    cancelled = false;
    fate =
        completes
          (record { text = codes "done"; is_error = false; has_run = true; is_unknown = false });
  },
)

abbrev script : ℕ → List Message → Step
script zero messages = reply (shell ∷ [])
script (suc n) messages = reply []

abbrev quiet_end : Ending
quiet_end = record {
  stuck = false;
  ended = false;
  interrupt_requested = false;
  ended_after = false;
}

abbrev begun : Run
begun = record {
  records = header ∷ turn_start "t1" ∷ user "t1" (codes "go") ∷ [];
  responses = 0;
  faults = [];
  late = [];
  account = opened;
  published = none;
}

abbrev ended : Run
ended = run_turn "t1" 100 (codes "") script quiet_end 4 0 begun

begun-IsOpen : IsOpen "t1" 100 begun
unfolding call_states note note_all open_turn IsSettled
begun-IsOpen = record {
  no_faults = refl;
  none_owed = refl;
  settled = tt;
  accounted = λ k h. h;
  going = refl;
}

script-fits : (n : ℕ) (messages : List Message) → (script n messages).ended ≡ false
script-fits zero messages = refl
script-fits (suc n) messages = refl

run_turn_settles_example :
    recover_transcript (ended.records ++ ended.late)
    ≡ ([], record { turn = ""; unknown_outcomes = [] })
run_turn_settles_example =
    run_turn_settles "t1" 100 (codes "") script quiet_end 4 0 begun script-fits begun-IsOpen

abbrev said : Published
said = record {
  status = "completed";
  err = "";
  usage = settled ended.account;
  native_error = false;
}

ended-published : ended.published ≡ some said
unfolding run_turn round append billed replied may_have_billed respond run_calls run_call fated
    after_calls end_turn end_status
ended-published = refl

begun-account : begun.account ≡ recorded_account "t1" 100 begun
unfolding account_all turn_usages
begun-account = refl

publishes_recorded_example : Reports "t1" 100 ended said
publishes_recorded_example =
    publishes_recorded "t1" 100 (codes "") script quiet_end 4 0 begun said refl begun-account
      ended-published
