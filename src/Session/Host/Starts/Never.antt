-- ===== src/Session/Host/Starts/Never.antt =====
-- Calls that never start: after the work is reported, while the channel is paused, and in a later
-- generation than their own.
use lib_agent_harness.Prelude.{
  ℕ, suc, ◌+◌, ◌%◌, ◌^◌, ◌<◌, ◌≡◌, ◌≢◌, Bool, true, false, List, [], ◌∷◌, Option, none, some, arith,
  get_elem?, Option-cases, Bool-cases, inl, inr, ◌⊎◌, get_elem?-set, get_elem?-snoc, count_if,
}
use lib_agent_harness.Session.Host.{Host, barrier}
use lib_agent_harness.Session.Host.World.{
  Stage, queued, checks, Worker, Move, move, World, Action, requests, moves, cancels, reopens, step,
  run,
}
use lib_agent_harness.Session.Host.Starts.{executing, move-Kept, step-starts}

-- A closing call succeeded, or the session stopped.
abbrev pub IsOver : Host → Type 0
IsOver h = (h.closed ≡ true) ⊎ (h.stopped ≡ true)

pub step-IsOver : (w : World) (a : Action) → IsOver w.host → IsOver (step w a).host
unfolding step
step-IsOver w (moves i m) over = elim (Option-cases (get_elem? w.workers i)) [
  | inl missing ↦ ground arith
  | inr (k, e) ↦ ground (arith, move-Kept i m k.stage k w.host)
]
step-IsOver w _ over = ground arith

pub not_started :
    (w : World) (a : Action) (i : ℕ)
    → barrier w.host ≢ none
    → executing w i ≡ false
    → executing (step w a) i ≡ false
not_started w a i shut before = elim (Bool-cases (executing (step w a) i)) [
  | inl starts ↦ absurd (shut (step-starts w i before a starts).2.open_barrier)
  | inr stays ↦ stays
]

-- Once a closing call has succeeded or the session has stopped, no call starts, whatever happens next:
-- one that is not executing then never executes.
pub never_after_over :
    (w : World) (acts : List Action) (i : ℕ)
    → IsOver w.host
    → executing w i ≡ false
    → executing (run w acts) i ≡ false
unfolding run
never_after_over w [] i over before = before
never_after_over w (a ∷ acts) i over before =
    never_after_over (step w a) acts i (step-IsOver w a over)
      (not_started w a i (unfold barrier in ground arith) before)

abbrev pub is_reopening : Action → Bool
is_reopening reopens = true
is_reopening _ = false

pub step-paused :
    (w : World) (a : Action)
    → is_reopening a ≡ false
    → w.host.paused ≡ true
    → (step w a).host.paused ≡ true
unfolding step
step-paused w (moves i m) r p = elim (Option-cases (get_elem? w.workers i)) [
  | inl missing ↦ ground arith
  | inr (k, e) ↦ ground (arith, move-Kept i m k.stage k w.host)
]
step-paused w _ r p = ground arith

-- While the channel is paused no call starts: through any actions but reopenings, one that is not
-- executing stays so.
pub never_while_paused :
    (w : World) (acts : List Action) (i : ℕ)
    → w.host.paused ≡ true
    → count_if is_reopening acts ≡ 0
    → executing w i ≡ false
    → executing (run w acts) i ≡ false
unfolding run
never_while_paused w [] i p r before = before
never_while_paused w (a ∷ acts) i p r before =
    never_while_paused (step w a) acts i (step-paused w a (ground arith) p) (ground arith)
      (not_started w a i (unfold barrier in ground arith) before)

abbrev admitted_in : Option Worker → Option ℕ
admitted_in none = none
admitted_in (some k) = some k.generation

-- The generation that the call with this number was admitted in.
abbrev pub generation_of : World → ℕ → Option ℕ
generation_of w i = admitted_in (get_elem? w.workers i)

move-generation :
    (i : ℕ) (m : Move) (s : Stage) (k : Worker) (h : Host)
    → (move i m s k h).1.generation ≡ k.generation
unfolding move
move-generation i checks queued k h = ground arith
move-generation i m s k h = ground arith

step-generation_of :
    (w : World) (a : Action) (i g : ℕ)
    → generation_of w i ≡ some g
    → generation_of (step w a) i ≡ some g
unfolding step
step-generation_of w (moves j m) i g e = elim (Option-cases (get_elem? w.workers j)) [
  | inl missing ↦ ground arith
  | inr (k, at) ↦ ground (
    arith,
    get_elem?-set w.workers j i k (move j m k.stage k w.host).1,
    move-generation j m k.stage k w.host,
  )
]
step-generation_of w (cancels j) i g e = elim (Option-cases (get_elem? w.workers j)) [
  | inl missing ↦ ground arith
  | inr (k, at) ↦ ground (arith, get_elem?-set w.workers j i k (record k { cancelled = true }))
]
step-generation_of w (requests key closing) i g e =
    ground (arith, get_elem?-snoc w.workers arriving i)
  where
    arriving : Worker
    arriving = record {
      key = key;
      closing = closing;
      generation = w.host.generation;
      cancelled = false;
      stage = queued;
    }
step-generation_of w _ i g e = ground arith

-- The generation moves only at a reopening, by one.
step-generation :
    (w : World) (a : Action) (g d : ℕ)
    → w.host.generation ≡ (g + d) % 2 ^ 64
    → ((step w a).host.generation ≡ (g + d) % 2 ^ 64)
      ⊎ ((is_reopening a ≡ true) × ((step w a).host.generation ≡ (g + suc d) % 2 ^ 64))
unfolding step
step-generation w (moves i m) g d e = elim (Option-cases (get_elem? w.workers i)) [
  | inl missing ↦ inl (ground arith)
  | inr (k, at) ↦ inl (ground (arith, move-Kept i m k.stage k w.host))
]
step-generation w reopens g d e = ground arith
step-generation w _ g d e = inl (ground arith)

stale : (g d : ℕ) → g < 2 ^ 64 → 0 < d → d < 2 ^ 64 → (g + d) % 2 ^ 64 ≢ g
stale g d h p q = omega arith

stale_not_started :
    (w : World) (a : Action) (i g d : ℕ)
    → generation_of w i ≡ some g
    → g < 2 ^ 64
    → 0 < d
    → d < 2 ^ 64
    → w.host.generation ≡ (g + d) % 2 ^ 64
    → executing w i ≡ false
    → executing (step w a) i ≡ false
stale_not_started w a i g d at h p q e before = elim (Bool-cases (executing (step w a) i)) [
  | inl starts ↦
      let s = step-starts w i before a starts in absurd (stale g d h p q (ground (arith, s)))
  | inr stays ↦ stays
]

-- A call that was admitted before the channel was last reopened never starts: if the host's generation
-- is d reopenings past the call's own, 0 < d, and fewer than 2^64 - d reopenings follow, then a call
-- that is not executing never executes. (The uint64 generation wraps after 2^64 reopenings.)
pub never_superseded :
    (w : World) (acts : List Action) (i g d : ℕ)
    → generation_of w i ≡ some g
    → g < 2 ^ 64
    → 0 < d
    → d + count_if is_reopening acts < 2 ^ 64
    → w.host.generation ≡ (g + d) % 2 ^ 64
    → executing w i ≡ false
    → executing (run w acts) i ≡ false
unfolding run
never_superseded w [] i g d at h p q e before = before
never_superseded w (a ∷ acts) i g d at h p q e before = elim (step-generation w a g d e) [
  | inl same ↦
      never_superseded (step w a) acts i g d (step-generation_of w a i g at) h p (omega arith) same
        (stale_not_started w a i g d at h p (omega arith) e before)
  | inr (r, more) ↦
      never_superseded (step w a) acts i g (suc d) (step-generation_of w a i g at) h (omega arith)
        (ground arith) more (stale_not_started w a i g d at h p (omega arith) e before)
]
