-- ===== src/Examples/Turns.antt =====
-- Turns and the health of their sessions.
use lib_agent_harness.Prelude.{true, false, none, some, List, [], ◌∷◌, ◌≡◌, refl}
use lib_agent_harness.Prelude.Int.{pos}
use lib_agent_harness.Session.Turn.{
  Turn, Action, emits, finishes, receives, finish, run, wait, started,
}
use lib_agent_harness.Session.Turn.Ended.{IsSound, turn-IsSound, first_end_decides}
use lib_agent_harness.Session.Health.{Session, quiet, health}

abbrev some_turn : Turn
some_turn = started "turn-1" 2 true

abbrev busy : List Action
busy =
    emits 1
    ∷ emits 2
    ∷ emits 3
    ∷ receives
    ∷ finishes "completed" ""
    ∷ emits 4
    ∷ finishes "failed" "late"
    ∷ receives
    ∷ []

turn-IsSound_example : IsSound (run (started "turn-1" 2 true) busy)
turn-IsSound_example = turn-IsSound "turn-1" 2 true busy

first_end_decides_example :
    wait (run (finish some_turn "completed" "") busy) ≡ some ("completed", "turn-1", "")
first_end_decides_example = first_end_decides some_turn "completed" "" busy refl

-- a session whose turn last showed an event three minutes ago
abbrev silent : Session
silent = record {
  closed = false;
  failure = none;
  since_last = some (pos 180000000000);
  turn = some some_turn;
  quiet_after = pos 0;
  tools = none;
}

-- it is quiet, and not stuck
silent_quiet : (health silent).state ≡ quiet
unfolding health
silent_quiet = refl
