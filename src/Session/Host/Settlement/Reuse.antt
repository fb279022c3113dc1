-- ===== src/Session/Host/Settlement/Reuse.antt =====
-- Two calls of toolhost_admission.go that were sent under one key.
use lib_agent_harness.Prelude.{
  ℕ, ◌≡◌, refl, Bool, true, false, List, [], ◌∷◌, ◌++◌, some, arith, get_elem?, String,
}
use text.Mathlib.TextPositions.{eq_refl}
use lib_agent_harness.Session.Host.{new, ready_for_work}
use lib_agent_harness.Session.Host.World.{
  Stage, queued, leaving, retired, Worker, checks, takes_gate, acquires, returns, releases,
  frees_gate, retires, World, Action, requests, moves, step, run, opened,
}

abbrev call_at : String → Stage → Bool → Worker
call_at key stage cancelled = record {
  key = key;
  closing = false;
  generation = 0;
  cancelled = cancelled;
  stage = stage;
}

abbrev reused : String → Stage → World
reused key stage = record {
  host = record new { pending = (key, 1) ∷ []; settled = false; gate = false };
  workers = call_at key queued false ∷ call_at key stage false ∷ [];
}

-- The moves of a call that runs with no error, up to its last.
abbrev pub to_the_end : ℕ → List Action
to_the_end i =
    moves i checks
    ∷ moves i takes_gate
    ∷ moves i acquires
    ∷ moves i (returns false false)
    ∷ moves i releases
    ∷ moves i frees_gate
    ∷ []

-- A history in which a harness reuses the key of a queued call, and the second call runs and retires.
abbrev pub reuse : String → List Action
reuse key = requests key false ∷ requests key false ∷ (to_the_end 1 ++ moves 1 retires ∷ [])

second_request :
    (key : String)
    → step (step opened (requests key false)) (requests key false) ≡ reused key queued
unfolding step
second_request key = ground (arith, eq_refl key)

second_runs : (key : String) → run (reused key queued) (to_the_end 1) ≡ reused key leaving
unfolding run step
second_runs key = refl

last_move :
    (key : String)
    → step (reused key leaving) (moves 1 retires)
      ≡ record { host = new; workers = call_at key queued false ∷ call_at key retired true ∷ [] }
unfolding step
last_move key = ground (arith, eq_refl key)

run-append : (w : World) (xs ys : List Action) → run w (xs ++ ys) ≡ run (run w xs) ys
unfolding run
run-append w [] ys = refl
run-append w (a ∷ xs) ys = run-append (step w a) xs ys

reuse_end :
    (key : String)
    → run opened (reuse key)
      ≡ record { host = new; workers = call_at key queued false ∷ call_at key retired true ∷ [] }
unfolding run
reuse_end key =
    rw
      (
        second_request,
        run-append (reused key queued) (to_the_end 1) (moves 1 retires ∷ []),
        second_runs,
      )
      (last_move key)

-- Where a harness reuses a pending key, whatever the key, after the second of two calls under one key
-- has run and retired, the channel is closed and a turn may start, while the first call is still queued.
pub settled_with_queued :
    (key : String)
    → let w = run opened (reuse key) in
      (w.host.settled ≡ true)
      × (ready_for_work w.host ≡ true)
      × ((k : Worker) × (get_elem? w.workers 0 ≡ some k) × (k.stage ≡ queued))
unfolding ready_for_work
settled_with_queued key = rw reuse_end (refl, refl, (call_at key queued false, refl, refl))
