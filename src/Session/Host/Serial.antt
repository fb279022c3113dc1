-- ===== src/Session/Host/Serial.antt =====
-- Hosted calls execute one at a time: the gate and the running count of toolhost_admission.go.
use lib_agent_harness.Prelude.{
  ℕ, ◌+◌, ◌≤◌, ◌≡◌, refl, Bool, true, false, List, [], ◌∷◌, some, arith, bit, count_if,
  count_if-append, count_if-set, count_if-get, count_if-two, count_if-le, get_elem?, set, String,
  Option-cases, inl, inr,
}
use lib_agent_harness.Session.Host.{Host, is_settled}
use lib_agent_harness.Session.Host.World.{
  Stage, queued, holding, running, latching, releasing, freeing, Worker, Move, checks, move, World,
  Action, requests, moves, cancels, step, run, opened,
}

-- The stages between taking the gate and freeing it, and those in which the host counts the call.
abbrev pub has_gate : Stage → Bool
has_gate holding = true
has_gate running = true
has_gate latching = true
has_gate releasing = true
has_gate freeing = true
has_gate _ = false

abbrev pub is_counted : Stage → Bool
is_counted running = true
is_counted latching = true
is_counted releasing = true
is_counted _ = false

abbrev pub gate_count : World → ℕ
gate_count w = count_if (λ k. has_gate k.stage) w.workers

abbrev pub running_count : World → ℕ
running_count w = count_if (λ k. is_counted k.stage) w.workers

pub record IsSerial (w : World) : Type 0 where
  pub gated : gate_count w ≡ bit w.host.gate
  pub counted : w.host.running ≡ running_count w
  pub settled : w.host.settled ≡ is_settled w.host

-- What a move does to the gate, to the running count and to the settlement.
record Balanced (h : Host) (s : Stage) (after : Host × Worker) : Type 0 where
  gate_moves : bit after.0.gate + bit (has_gate s) ≡ bit h.gate + bit (has_gate after.1.stage)
  running_moves : after.0.running + bit (is_counted s) ≡ h.running + bit (is_counted after.1.stage)
  settled : after.0.settled ≡ is_settled after.0

move-Balanced :
    (i : ℕ) (m : Move) (s : Stage) (k : Worker) (h : Host)
    → k.stage ≡ s
    → bit (has_gate s) ≤ bit h.gate
    → bit (is_counted s) ≤ h.running
    → h.settled ≡ is_settled h
    → Balanced h s (move i m s k h)
unfolding move is_settled
move-Balanced i checks queued k h e g r st = ground arith
move-Balanced i m s k h e g r st = ground arith

module _ (w : World) (v : IsSerial w) where
  worker-bounds :
      (i : ℕ) (k : Worker)
      → get_elem? w.workers i ≡ some k
      → (bit (has_gate k.stage) ≤ bit w.host.gate) × (bit (is_counted k.stage) ≤ w.host.running)
  worker-bounds i k e = omega (
    arith,
    count_if-get (λ (x : Worker). has_gate x.stage) w.workers i k e,
    count_if-get (λ (x : Worker). is_counted x.stage) w.workers i k e,
  )

  moves-IsSerial : (i : ℕ) (m : Move) → IsSerial (step w (moves i m))
  unfolding step
  moves-IsSerial i m = elim (Option-cases (get_elem? w.workers i)) [
    | inl missing ↦ rw (missing, step) v
    | inr (k, e) ↦ rw (e, step) (moved k e)
  ]
    where
      moved :
          (k : Worker)
          → get_elem? w.workers i ≡ some k
          → IsSerial (record {
            host = (move i m k.stage k w.host).0;
            workers = set w.workers i (move i m k.stage k w.host).1;
          })
      moved k e =
          let b =
            move-Balanced i m k.stage k w.host refl (worker-bounds i k e).0 (worker-bounds i k e).1
              v.settled in
          let k' = (move i m k.stage k w.host).1 in
          record {
            gated =
                omega
                  (arith, count_if-set (λ (x : Worker). has_gate x.stage) w.workers i k k' e, b);
            counted =
                omega
                  (arith, count_if-set (λ (x : Worker). is_counted x.stage) w.workers i k k' e, b);
            settled = b.settled;
          }

  cancels-IsSerial : (i : ℕ) → IsSerial (step w (cancels i))
  unfolding step
  cancels-IsSerial i = elim (Option-cases (get_elem? w.workers i)) [
    | inl missing ↦ rw (missing, step) v
    | inr (k, e) ↦
        rw (e, step)
          (record {
            gated = omega (
              arith,
              count_if-set (λ (x : Worker). has_gate x.stage) w.workers i k
                  (record k { cancelled = true }) e,
              v,
            );
            counted = omega (
              arith,
              count_if-set (λ (x : Worker). is_counted x.stage) w.workers i k
                  (record k { cancelled = true }) e,
              v,
            );
            settled = v.settled;
          })
  ]

  requests-IsSerial : (key : String) (closing : Bool) → IsSerial (step w (requests key closing))
  unfolding step is_settled
  requests-IsSerial key closing = ground (
    arith,
    count_if-append (λ (x : Worker). has_gate x.stage) w.workers (arriving ∷ []),
    count_if-append (λ (x : Worker). is_counted x.stage) w.workers (arriving ∷ []),
    v,
  )
    where
      arriving : Worker
      arriving = record {
        key = key;
        closing = closing;
        generation = w.host.generation;
        cancelled = false;
        stage = queued;
      }

-- Whatever happens next, the gate is taken by exactly one worker or free, the host's running count is
-- that of the workers, and the settlement channel is closed exactly while nothing is outstanding.
pub step-IsSerial : (w : World) (a : Action) → IsSerial w → IsSerial (step w a)
unfolding step is_settled
step-IsSerial w (requests key closing) v = requests-IsSerial w v key closing
step-IsSerial w (moves i m) v = moves-IsSerial w v i m
step-IsSerial w (cancels i) v = cancels-IsSerial w v i
step-IsSerial w _ v = ground arith

pub opened-IsSerial : IsSerial opened
unfolding is_settled
opened-IsSerial = ground arith

-- The same after any history of a new host.
pub run-IsSerial : (w : World) (acts : List Action) → IsSerial w → IsSerial (run w acts)
unfolding run
run-IsSerial w [] v = v
run-IsSerial w (a ∷ acts) v = run-IsSerial (step w a) acts (step-IsSerial w a v)

abbrev pub IsExecuting : World → ℕ → Type 0
IsExecuting w i = (k : Worker) × (get_elem? w.workers i ≡ some k) × (is_counted k.stage ≡ true)

bit-is_counted : (s : Stage) → bit (is_counted s) ≤ bit (has_gate s)
bit-is_counted queued = omega arith
bit-is_counted _ = omega arith

bit-le_one : (b : Bool) → bit b ≤ 1
bit-le_one true = omega arith
bit-le_one false = omega arith

running_count-le_one : (w : World) → IsSerial w → running_count w ≤ 1
running_count-le_one w v = omega (
  arith,
  count_if-le (λ (k : Worker). is_counted k.stage) (λ (k : Worker). has_gate k.stage) w.workers
      (λ k. bit-is_counted k.stage),
  bit-le_one w.host.gate,
  v,
)

-- After any interleaving of calls with pauses, reopenings, cancellations and stops, two calls that are
-- executing are one call.
pub executing_unique :
    (acts : List Action) (i j : ℕ)
    → IsExecuting (run opened acts) i
    → IsExecuting (run opened acts) j
    → i ≡ j
executing_unique acts i j (k, ki, kc) (l, lj, lc) =
    count_if-two (λ (x : Worker). is_counted x.stage) (run opened acts).workers i j k l ki lj kc lc
      (running_count-le_one (run opened acts) (run-IsSerial opened acts opened-IsSerial))

-- After any interleaving of calls with pauses, reopenings, cancellations and stops the host counts the calls that are executing, at most one, and its
-- settlement channel is closed exactly while it counts none and no call is pending.
pub running_counted :
    (acts : List Action)
    → let w = run opened acts in
      (w.host.running ≤ 1)
      × (w.host.running ≡ running_count w)
      × (w.host.settled ≡ is_settled w.host)
running_counted acts =
    let v = run-IsSerial opened acts opened-IsSerial in
    (omega (arith, v, running_count-le_one (run opened acts) v), v.counted, v.settled)
