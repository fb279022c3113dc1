-- ===== src/Examples/Controls.antt =====
-- A session's turns over its host.
use lib_agent_harness.Prelude.{
  ℕ, true, false, List, [], ◌∷◌, ◌++◌, none, some, get_elem?, All, ◌≡◌, refl,
}
use lib_agent_harness.Session.Turn.{started, finish}
use lib_agent_harness.Session.Host.World.{
  Worker, retired, requests, moves, checks, takes_gate, acquires, returns, releases, frees_gate,
  retires, step,
}
use lib_agent_harness.Session.Host.Starts.{executing}
use lib_agent_harness.Session.Control.{
  Held, Control, Event, hosts, finishes, names, claims, compacts, opens, start_accepted, controls,
  request_accepted, sees_end, cancels_tools, sees_settled, fails, act, history, opened, over,
}
use lib_agent_harness.Session.Control.Alone.{one_turn}
use lib_agent_harness.Session.Control.Fresh.{no_call_outlives}
use lib_agent_harness.Session.Control.Shut.{shut_between_turns}
use lib_agent_harness.Session.Control.Ended.{failing_ends, rest_of_failing}

abbrev start : List Event
start = claims ∷ opens "turn-1" 2 ∷ start_accepted ∷ []

-- a hosted call from its admission to its end
abbrev one_call : List Event
one_call =
    hosts (requests "a" false)
    ∷ hosts (moves 0 checks)
    ∷ hosts (moves 0 takes_gate)
    ∷ hosts (moves 0 acquires)
    ∷ hosts (moves 0 (returns false false))
    ∷ hosts (moves 0 releases)
    ∷ hosts (moves 0 frees_gate)
    ∷ hosts (moves 0 retires)
    ∷ []

-- The first turn is steered: it is interrupted, and another starts in its place.
abbrev steered : List Event
steered =
    start
    ++ controls "turn-1" true
      ∷ request_accepted
      ∷ finishes 0 "interrupted" ""
      ∷ sees_end
      ∷ cancels_tools
      ∷ sees_settled
      ∷ claims
      ∷ opens "turn-2" 2
      ∷ []

abbrev second_turn : Held
second_turn = record { turn = started "turn-2" 2 true; interrupt_requested = false }

second_at : get_elem? (history opened steered).turns 1 ≡ some second_turn
unfolding history step
second_at = refl

one_turn_example : (◌≡◌ {A = ℕ} 1 1) × ((history opened steered).active ≡ some 1)
one_turn_example = one_turn steered 1 1 second_turn second_turn second_at refl second_at refl

abbrev called : List Event
called = start ++ (one_call ++ finishes 0 "completed" "" ∷ [])

abbrev gone_call : Worker
gone_call = record { key = "a"; closing = false; generation = 1; cancelled = true; stage = retired }

no_call_outlives_example :
    (gone_call.stage ≡ retired)
    × (executing (history (act (history opened called) claims) start).world 0 ≡ false)
unfolding history step
no_call_outlives_example =
    no_call_outlives called start 0 gone_call
      (tt, (tt, (tt, (refl, (tt, (tt, (tt, (tt, (tt, (tt, (tt, (tt, tt)))))))))))) refl refl refl

-- a turn and a compaction after it, which both end
abbrev compacted : List Event
compacted =
    start
    ++ finishes 0 "completed" ""
      ∷ compacts 2
      ∷ start_accepted
      ∷ names 1 "turn-2"
      ∷ finishes 1 "completed" ""
      ∷ []

abbrev first_turn : Held
first_turn = record {
  turn = finish (started "turn-1" 2 true) "completed" "";
  interrupt_requested = false;
}

shut_between_turns_example : (history opened compacted).world.host.paused ≡ true
unfolding history step
shut_between_turns_example =
    shut_between_turns compacted 0 first_turn
      (refl, (refl, (refl, (refl, (refl, (refl, (refl, (refl, tt)))))))) (refl, (refl, tt)) refl
      refl

-- the session fails while a call waits
abbrev failed : List Event
failed = start ++ hosts (requests "a" false) ∷ fails none "lost" ∷ []

abbrev later : List Event
later = hosts (moves 0 checks) ∷ hosts (moves 0 takes_gate) ∷ hosts (moves 0 acquires) ∷ claims ∷ []

abbrev last : Control
last = history (history (history opened failed) rest_of_failing) later

failing_ends_example :
    (last.closing ≡ over)
    × All (λ h. h.turn.finished ≡ true) last.turns
    × (last.world.host.stopped ≡ true)
    × (last.world.host.done ≡ true)
    × (get_elem? last.turns 1 ≡ none)
    × (executing last.world 0 ≡ false)
unfolding history step
failing_ends_example = failing_ends failed later 0 1 refl refl refl
