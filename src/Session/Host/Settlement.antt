-- ===== src/Session/Host/Settlement.antt =====
-- What the settlement channel of toolhost_admission.go says: that every admitted call has retired.
pub mod Reuse
use lib_agent_harness.Prelude.{
  ℕ, zero, suc, All, count_if, ◌+◌, ◌≡◌, ◌≢◌, refl, sym, ◌∙◌, ap, Bool, true, false, List, [], ◌∷◌,
  ◌++◌, Option, none, some, arith, get_elem?, length, set, String, Option-cases, Bool-cases, inl,
  inr, ◌⊎◌, ◌==◌, ==_iff, get_elem?-set, get_elem?-snoc, get_elem?-snoc_last, str_eq, eq_iff,
  if◌then◌else◌, ◌↔◌,
}
use text.Mathlib.TextPositions.{eq_refl}
use lib_agent_harness.Session.Host.{
  Host, new, lookup, without, is_empty, is_settled, ready_for_work,
}
use lib_agent_harness.Session.Host.World.{
  Stage, queued, selecting, holding, running, latching, releasing, freeing, leaving, retired,
  Worker, Move, checks, takes_gate, withdraws, sees_stop, acquires, returns, latches, releases,
  frees_gate, retires, move, World, Action, requests, moves, cancels, pauses, closes_admission,
  reopens, stops, announces_stop, probes, step, run, opened,
}
use lib_agent_harness.Session.Host.Serial.{
  IsSerial, step-IsSerial, opened-IsSerial, run-IsSerial, is_counted,
}

lookup-without :
    (k j : String) (m : List (String × ℕ))
    → lookup j (without k m) ≡ (if str_eq k j then none else lookup j m)
lookup-without k j [] = ground arith
lookup-without k j ((i, v) ∷ m) =
    ground (arith, lookup-without k j m, eq_iff i k, eq_iff i j, eq_iff k j)

abbrev pub is_retired : Stage → Bool
is_retired retired = true
is_retired _ = false

-- The call that a request waits for, if it has not retired.
abbrev live : Option Worker → Option String
live none = none
live (some k) = if is_retired k.stage then none else some k.key

-- Every call that has not retired is the one that is pending under its key, and every pending entry is
-- such a call.
pub record IsTracked (w : World) : Type 0 where
  pub pending :
      (i : ℕ) (key : String)
      → live (get_elem? w.workers i) ≡ some key
      → lookup key w.host.pending ≡ some i
  pub alive :
      (i : ℕ) (key : String)
      → lookup key w.host.pending ≡ some i
      → live (get_elem? w.workers i) ≡ some key

-- No request is sent under the key of a pending one.
abbrev pub IsFresh : World → Action → Type 0
IsFresh w (requests key closing) = lookup key w.host.pending ≡ none
IsFresh w _ = Unit

abbrev pub AllFresh : World → List Action → Type 0
AllFresh w [] = Unit
AllFresh w (a ∷ acts) = IsFresh w a × AllFresh (step w a) acts

-- A move leaves the pending calls as they are, or it is the last one of its call.
abbrev MoveTracked : ℕ → Worker → Host → Host × Worker → Type 0
MoveTracked i k h after =
    ((live (some after.1) ≡ live (some k)) × (after.0.pending ≡ h.pending))
    ⊎ ((live (some after.1) ≡ none)
        × (live (some k) ≡ some k.key)
        × (lookup k.key h.pending ≡ some i → after.0.pending ≡ without k.key h.pending))

move-MoveTracked :
    (i : ℕ) (m : Move) (s : Stage) (k : Worker) (h : Host)
    → k.stage ≡ s
    → MoveTracked i k h (move i m s k h)
unfolding move
move-MoveTracked i checks queued k h e = inl (ground arith)
move-MoveTracked i retires leaving k h e = inr (ground (arith, ==_iff i i))
move-MoveTracked i m s k h e = inl (ground arith)

module _ (w : World) (t : IsTracked w) where
  moves-IsTracked : (j : ℕ) (m : Move) → IsTracked (step w (moves j m))
  unfolding step
  moves-IsTracked j m = elim (Option-cases (get_elem? w.workers j)) [
    | inl missing ↦ rw (missing, step) t
    | inr (k, e) ↦ record {
      pending = λ i key l. ground (
        arith,
        get_elem?-set w.workers j i k (move j m k.stage k w.host).1,
        move-MoveTracked j m k.stage k w.host,
        t.pending i key,
        t.pending j k.key,
        lookup-without k.key key w.host.pending,
        eq_iff k.key key,
      );
      alive = λ i key l. ground (
        arith,
        get_elem?-set w.workers j i k (move j m k.stage k w.host).1,
        move-MoveTracked j m k.stage k w.host,
        t.alive i key,
        t.pending j k.key,
        lookup-without k.key key w.host.pending,
        eq_iff k.key key,
      );
    }
  ]

  cancels-IsTracked : (j : ℕ) → IsTracked (step w (cancels j))
  unfolding step
  cancels-IsTracked j = elim (Option-cases (get_elem? w.workers j)) [
    | inl missing ↦ rw (missing, step) t
    | inr (k, e) ↦ record {
      pending = λ i key l.
          ground
            (arith, get_elem?-set w.workers j i k (record k { cancelled = true }), t.pending i key);
      alive = λ i key l.
          ground
            (arith, get_elem?-set w.workers j i k (record k { cancelled = true }), t.alive i key);
    }
  ]

  requests-IsTracked :
      (key : String) (closing : Bool)
      → lookup key w.host.pending ≡ none
      → IsTracked (step w (requests key closing))
  unfolding step
  requests-IsTracked key closing fresh = record {
    pending = λ i other l. ground (
      arith,
      get_elem?-snoc w.workers arriving i,
      t.pending i other,
      lookup-without key other w.host.pending,
      eq_iff key other,
    );
    alive = λ i other l. ground (
      arith,
      get_elem?-snoc w.workers arriving i,
      get_elem?-snoc_last w.workers arriving,
      t.alive i other,
      lookup-without key other w.host.pending,
      eq_iff key other,
    );
  }
    where
      arriving : Worker
      arriving = record {
        key = key;
        closing = closing;
        generation = w.host.generation;
        cancelled = false;
        stage = queued;
      }

pub step-IsTracked : (w : World) (a : Action) → IsFresh w a → IsTracked w → IsTracked (step w a)
unfolding step
step-IsTracked w (requests key closing) f t = requests-IsTracked w t key closing f
step-IsTracked w (moves j m) f t = moves-IsTracked w t j m
step-IsTracked w (cancels j) f t = cancels-IsTracked w t j
step-IsTracked w pauses f t = record { pending = t.pending; alive = t.alive }
step-IsTracked w closes_admission f t = record { pending = t.pending; alive = t.alive }
step-IsTracked w reopens f t = record {
  pending = λ i key l. ground (arith, t.pending i key);
  alive = λ i key l. ground (arith, t.alive i key);
}
step-IsTracked w stops f t = record { pending = t.pending; alive = t.alive }
step-IsTracked w announces_stop f t = record {
  pending = λ i key l. ground (arith, t.pending i key);
  alive = λ i key l. ground (arith, t.alive i key);
}
step-IsTracked w (probes on) f t = record { pending = t.pending; alive = t.alive }

pub opened-IsTracked : IsTracked opened
opened-IsTracked = record { pending = λ i key l. cc; alive = λ i key l. cc }

run-IsTracked :
    (w : World) (acts : List Action) → AllFresh w acts → IsTracked w → IsTracked (run w acts)
unfolding run
run-IsTracked w [] f t = t
run-IsTracked w (a ∷ acts) f t = run-IsTracked (step w a) acts f.1 (step-IsTracked w a f.0 t)

lookup_head :
    (m : List (String × ℕ)) → is_empty m ≡ false → (k : String) × (i : ℕ) × (lookup k m ≡ some i)
lookup_head [] e = cc
lookup_head ((k, i) ∷ m) e = (k, i, ground (arith, eq_iff k k))

lookup_empty : (m : List (String × ℕ)) (k : String) → is_empty m ≡ true → lookup k m ≡ none
lookup_empty [] k e = refl
lookup_empty (x ∷ m) k e = cc

retired_of : (s : Stage) → is_retired s ≡ true → s ≡ retired
retired_of retired e = refl
retired_of queued e = cc
retired_of _ e = cc

-- A closed settlement channel means that every call has retired.
pub tracked_retired :
    (w : World) (i : ℕ) (k : Worker)
    → IsTracked w
    → IsSerial w
    → w.host.settled ≡ true
    → get_elem? w.workers i ≡ some k
    → k.stage ≡ retired
unfolding is_settled
tracked_retired w i k tracked serial done at = elim (Bool-cases (is_retired k.stage)) [
  | inl gone ↦ retired_of k.stage gone
  | inr here ↦
      absurd
        (ground (arith, tracked.pending i k.key, serial.settled, lookup_empty w.host.pending k.key))
]

-- If no request reuses the key of a pending one, then after any interleaving a closed settlement
-- channel means that every admitted call has retired.
pub settled_all_retired :
    (acts : List Action) (i : ℕ) (k : Worker)
    → AllFresh opened acts
    → (run opened acts).host.settled ≡ true
    → get_elem? (run opened acts).workers i ≡ some k
    → k.stage ≡ retired
settled_all_retired acts i k fresh done at =
    tracked_retired (run opened acts) i k (run-IsTracked opened acts fresh opened-IsTracked)
      (run-IsSerial opened acts opened-IsSerial) done at

none_counted :
    (ks : List Worker) → All (λ k. k.stage ≡ retired) ks → count_if (λ k. is_counted k.stage) ks ≡ 0
none_counted [] h = refl
none_counted (k ∷ ks) h = ground (arith, none_counted ks h.1)

live-none :
    (ks : List Worker) (i : ℕ) → All (λ k. k.stage ≡ retired) ks → live (get_elem? ks i) ≡ none
live-none [] i h = refl
live-none (k ∷ ks) zero h = ground arith
live-none (k ∷ ks) (suc i) h = live-none ks i h.1

-- If no request reuses the key of a pending one, then after any interleaving the settlement channel is
-- closed whenever every admitted call has retired.
pub settled_once_retired :
    (acts : List Action)
    → AllFresh opened acts
    → All (λ k. k.stage ≡ retired) (run opened acts).workers
    → (run opened acts).host.settled ≡ true
unfolding is_settled
settled_once_retired acts fresh all = elim (Bool-cases (is_empty (run opened acts).host.pending)) [
  | inl empty ↦ ground (
    arith,
    (run-IsSerial opened acts opened-IsSerial).settled,
    (run-IsSerial opened acts opened-IsSerial).counted,
    none_counted (run opened acts).workers all,
  )
  | inr some_left ↦
      let (k, i, e) = lookup_head (run opened acts).host.pending some_left in
      absurd (
        ground (
          arith,
          (run-IsTracked opened acts fresh opened-IsTracked).alive i k,
          live-none (run opened acts).workers i all,
        ))
]
