-- ===== src/Examples/Hosts.antt =====
-- Histories of a tool host.
use lib_agent_harness.Prelude.{
  ℕ, ◌≤◌, true, false, List, [], ◌∷◌, some, get_elem?, ◌≡◌, refl, inr, arith,
}
use lib_agent_harness.Session.Host.{is_settled, ready_for_work}
use lib_agent_harness.Session.Host.World.{
  Worker, queued, running, retired, World, Action, requests, moves, pauses, reopens, stops, checks,
  takes_gate, acquires, returns, releases, frees_gate, retires, step, run, opened,
}
use lib_agent_harness.Session.Host.Serial.{executing_unique, running_counted, running_count}
use lib_agent_harness.Session.Host.Starts.{executing}
use lib_agent_harness.Session.Host.Starts.Never.{
  never_after_over, never_while_paused, never_superseded,
}
use lib_agent_harness.Session.Host.Settlement.{settled_all_retired, settled_once_retired}
use lib_agent_harness.Session.Host.Settlement.Reuse.{settled_with_queued, reuse}

-- one call that runs, with a second behind it
abbrev two_calls : List Action
two_calls =
    requests "a" false
    ∷ requests "b" false
    ∷ moves 0 checks
    ∷ moves 1 checks
    ∷ moves 0 takes_gate
    ∷ moves 1 takes_gate
    ∷ moves 0 acquires
    ∷ []

abbrev running_call : Worker
running_call = record {
  key = "a";
  closing = false;
  generation = 0;
  cancelled = false;
  stage = running;
}

executing_unique_example : ◌≡◌ {A = ℕ} 0 0
unfolding run step
executing_unique_example =
    executing_unique two_calls 0 0 (running_call, refl, refl) (running_call, refl, refl)

running_counted_example :
    ((run opened two_calls).host.running ≤ 1)
    × ((run opened two_calls).host.running ≡ running_count (run opened two_calls))
    × ((run opened two_calls).host.settled ≡ is_settled (run opened two_calls).host)
running_counted_example = running_counted two_calls

-- the whole of one call
abbrev one_call : List Action
one_call =
    requests "a" false
    ∷ moves 0 checks
    ∷ moves 0 takes_gate
    ∷ moves 0 acquires
    ∷ moves 0 (returns false false)
    ∷ moves 0 releases
    ∷ moves 0 frees_gate
    ∷ moves 0 retires
    ∷ []

abbrev retired_call : Worker
retired_call = record {
  key = "a";
  closing = false;
  generation = 0;
  cancelled = true;
  stage = retired;
}

settled_all_retired_example : retired_call.stage ≡ retired
unfolding run step
settled_all_retired_example =
    settled_all_retired one_call 0 retired_call (refl, (tt, (tt, (tt, (tt, (tt, (tt, (tt, tt))))))))
      refl refl

settled_once_retired_example : (run opened one_call).host.settled ≡ true
unfolding run step
settled_once_retired_example =
    settled_once_retired one_call (refl, (tt, (tt, (tt, (tt, (tt, (tt, (tt, tt)))))))) (refl, tt)

-- a queued call, then a paused or a stopped channel
abbrev paused_with_call : World
paused_with_call = run opened (requests "a" false ∷ pauses ∷ [])

abbrev stopped_with_call : World
stopped_with_call = run opened (requests "a" false ∷ stops ∷ [])

abbrev to_run : List Action
to_run = moves 0 checks ∷ moves 0 takes_gate ∷ moves 0 acquires ∷ []

never_while_paused_example : executing (run paused_with_call to_run) 0 ≡ false
unfolding run step
never_while_paused_example = never_while_paused paused_with_call to_run 0 refl refl refl

never_after_over_example : executing (run stopped_with_call to_run) 0 ≡ false
unfolding run step
never_after_over_example = never_after_over stopped_with_call to_run 0 (inr refl) refl

-- a call of the first generation, after the channel was paused and reopened
abbrev reopened_with_call : World
reopened_with_call = run opened (requests "a" false ∷ pauses ∷ reopens ∷ [])

never_superseded_example : executing (run reopened_with_call to_run) 0 ≡ false
unfolding run step
never_superseded_example =
    never_superseded reopened_with_call to_run 0 0 1 refl (omega arith) (omega arith) (omega arith)
      refl refl

settled_with_queued_example :
    ((run opened (reuse "a")).host.settled ≡ true)
    × (ready_for_work (run opened (reuse "a")).host ≡ true)
    × ((k : Worker) × (get_elem? (run opened (reuse "a")).workers 0 ≡ some k) × (k.stage ≡ queued))
settled_with_queued_example = settled_with_queued "a"
