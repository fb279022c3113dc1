-- ===== src/Session/Host/Starts.antt =====
-- When a hosted call may start: the barrier, the cancellation and the generation tests of
-- toolhost_admission.go.
pub mod Never
use lib_agent_harness.Prelude.{
  ℕ, suc, ◌+◌, ◌-◌, ◌%◌, ◌^◌, ◌≤◌, ◌<◌, ◌≡◌, ◌≢◌, refl, Bool, true, false, List, [], ◌∷◌, Option,
  none, some, arith, get_elem?, set, String, Option-cases, Bool-cases, inl, inr, ◌⊎◌, ◌==◌, ==_iff,
  get_elem?-set, get_elem?-snoc,
}
use lib_agent_harness.Session.Host.{Host, barrier}
use lib_agent_harness.Session.Host.World.{
  Stage, queued, selecting, holding, running, latching, releasing, freeing, leaving, retired,
  Worker, Move, checks, takes_gate, withdraws, sees_stop, acquires, returns, latches, releases,
  frees_gate, retires, move, World, Action, requests, moves, cancels, pauses, closes_admission,
  reopens, stops, announces_stop, probes, step, run,
}
use lib_agent_harness.Session.Host.Serial.{is_counted}

abbrev pub executes : Option Worker → Bool
executes none = false
executes (some k) = is_counted k.stage

-- Whether the call with this number is executing.
abbrev pub executing : World → ℕ → Bool
executing w i = executes (get_elem? w.workers i)

-- What the host and a worker must be for the worker to start.
pub record MayStart (h : Host) (k : Worker) : Type 0 where
  pub open_barrier : barrier h ≡ none
  pub not_cancelled : k.cancelled ≡ false
  pub current : k.generation ≡ h.generation

move-MayStart :
    (i : ℕ) (m : Move) (s : Stage) (k : Worker) (h : Host)
    → k.stage ≡ s
    → is_counted s ≡ false
    → is_counted (move i m s k h).1.stage ≡ true
    → MayStart h k
unfolding move
move-MayStart i checks queued k h e before after = ground arith
move-MayStart i m s k h e before after = ground (arith, ==_iff k.generation h.generation)

-- A move leaves the barriers, the generation and the pause of the host as they are, but for the latch
-- of a closing call.
pub record Kept (h h' : Host) : Type 0 where
  pub closed : h.closed ≡ true → h'.closed ≡ true
  pub stopped : h'.stopped ≡ h.stopped
  pub paused : h'.paused ≡ h.paused
  pub generation : h'.generation ≡ h.generation

pub move-Kept : (i : ℕ) (m : Move) (s : Stage) (k : Worker) (h : Host) → Kept h (move i m s k h).0
unfolding move
move-Kept i checks queued k h = ground arith
move-Kept i m s k h = ground arith

abbrev pub StartedBy : World → Action → ℕ → Type 0
StartedBy w a i = (k : Worker) × (get_elem? w.workers i ≡ some k) × MayStart w.host k

module _ (w : World) (i : ℕ) (before : executing w i ≡ false) where
  moves-starts :
      (j : ℕ) (m : Move) → executing (step w (moves j m)) i ≡ true → StartedBy w (moves j m) i
  unfolding step
  moves-starts j m after = elim (Option-cases (get_elem? w.workers j)) [
    | inl missing ↦ absurd (ground arith)
    | inr (k, e) ↦
        let k' = (move j m k.stage k w.host).1 in
        (
          k,
          ground (arith, get_elem?-set w.workers j i k k'),
          ground (arith, get_elem?-set w.workers j i k k', move-MayStart j m k.stage k w.host),
        )
  ]

  cancels-starts : (j : ℕ) → executing (step w (cancels j)) i ≡ true → StartedBy w (cancels j) i
  unfolding step
  cancels-starts j after = elim (Option-cases (get_elem? w.workers j)) [
    | inl missing ↦ absurd (ground arith)
    | inr (k, e) ↦
        absurd (ground (arith, get_elem?-set w.workers j i k (record k { cancelled = true })))
  ]

  requests-starts :
      (key : String) (closing : Bool)
      → executing (step w (requests key closing)) i ≡ true
      → StartedBy w (requests key closing) i
  unfolding step
  requests-starts key closing after = absurd (ground (arith, get_elem?-snoc w.workers arriving i))
    where
      arriving : Worker
      arriving = record {
        key = key;
        closing = closing;
        generation = w.host.generation;
        cancelled = false;
        stage = queued;
      }

  -- A call starts only past an open barrier, not cancelled, and in the generation that admitted it.
  pub step-starts : (a : Action) → executing (step w a) i ≡ true → StartedBy w a i
  unfolding step
  step-starts (moves j m) after = moves-starts j m after
  step-starts (cancels j) after = cancels-starts j after
  step-starts (requests key closing) after = requests-starts key closing after
  step-starts _ after = absurd (ground arith)
