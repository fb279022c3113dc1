-- ===== src/Session/Control/Fresh.antt =====
-- session/control.go over toolhost_admission.go: no hosted call outlives its turn into the next one.
use lib_agent_harness.Prelude.{
  ℕ, Bool, true, false, Option, none, some, List, [], ◌∷◌, get_elem?, get_elem?-set, get_elem?-snoc,
  Option-cases, ◌≡◌, refl, ap, subst, ◌∙◌, inl, inr, arith, if◌then◌else◌,
}
use lib_agent_harness.Session.Host.{Host, ready_for_work, is_settled}
use lib_agent_harness.Session.Host.World.{
  World, Worker, Stage, retired, queued, Move, checks, move, Action, requests, moves, cancels,
  pauses, closes_admission, reopens, stops, announces_stop, step,
}
use lib_agent_harness.Session.Host.Serial.{IsSerial, step-IsSerial, opened-IsSerial, is_counted}
use lib_agent_harness.Session.Host.Settlement.{
  IsTracked, IsFresh, step-IsTracked, opened-IsTracked, tracked_retired, is_retired,
}
use lib_agent_harness.Session.Host.Starts.{executing, executes}
use lib_agent_harness.Session.Control.{
  Stage as Place, Control, Event, hosts, claims, claim_idle, claim, Problem, unsettled, resting,
  restarting, claimed_by, goes_on, is_claimed, act, history, opened,
}
use lib_agent_harness.Session.Control.Moves.{IsKept, act-world}

abbrev pub IsFreshEvent : Control → Event → Type 0
IsFreshEvent c (hosts a) = IsFresh c.world a
IsFreshEvent c _ = Unit

-- No request of the harness reuses the key of a pending one.
abbrev pub HasFreshKeys : Control → List Event → Type 0
HasFreshKeys c [] = Unit
HasFreshKeys c (e ∷ es) = IsFreshEvent c e × HasFreshKeys (act c e) es

abbrev pub IsOrderly : World → Type 0
IsOrderly w = IsTracked w × IsSerial w

IsOrderly-step : (w : World) (a : Action) → IsFresh w a → IsOrderly w → IsOrderly (step w a)
IsOrderly-step w a fresh (t, s) = (step-IsTracked w a fresh t, step-IsSerial w a s)

IsOrderly-IsKept : IsKept IsOrderly
IsOrderly-IsKept = record {
  when_paused = λ w. IsOrderly-step w pauses tt;
  when_shut = λ w. IsOrderly-step w closes_admission tt;
  when_reopened = λ w. IsOrderly-step w reopens tt;
  when_stopped = λ w. IsOrderly-step w stops tt;
  when_announced = λ w. IsOrderly-step w announces_stop tt;
}

history-IsOrderly :
    (c : Control) (es : List Event)
    → HasFreshKeys c es
    → IsOrderly c.world
    → IsOrderly (history c es).world
unfolding history
history-IsOrderly c [] fresh o = o
history-IsOrderly c (e ∷ es) (f, fresh) o = history-IsOrderly (act c e) es fresh (
    act-world IsOrderly IsOrderly-IsKept c e o
      (λ a h. IsOrderly-step c.world a (subst (IsFreshEvent c) h f) o))

abbrev pub is_gone : Option Worker → Bool
is_gone none = false
is_gone (some k) = is_retired k.stage

move-retired :
    (i : ℕ) (m : Move) (s : Stage) (k : Worker) (h : Host)
    → k.stage ≡ s
    → is_retired s ≡ true
    → is_retired (move i m s k h).1.stage ≡ true
unfolding move
move-retired i checks queued k h e r = ground arith
move-retired i m s k h e r = ground arith

-- A call that has retired stays so.
step-gone :
    (w : World) (a : Action) (i : ℕ)
    → is_gone (get_elem? w.workers i) ≡ true
    → is_gone (get_elem? (step w a).workers i) ≡ true
unfolding step
step-gone w (moves j m) i g = elim (Option-cases (get_elem? w.workers j)) [
  | inl missing ↦ ground arith
  | inr (k, at) ↦ ground (
    arith,
    get_elem?-set w.workers j i k (move j m k.stage k w.host).1,
    move-retired j m k.stage k w.host refl,
  )
]
step-gone w (cancels j) i g = elim (Option-cases (get_elem? w.workers j)) [
  | inl missing ↦ ground arith
  | inr (k, at) ↦ ground (arith, get_elem?-set w.workers j i k (record k { cancelled = true }))
]
step-gone w (requests key closing) i g = ground (arith, get_elem?-snoc w.workers arriving i)
  where
    arriving : Worker
    arriving = record {
      key = key;
      closing = closing;
      generation = w.host.generation;
      cancelled = false;
      stage = queued;
    }
step-gone w _ i g = ground arith

IsGone : ℕ → World → Type 0
IsGone i w = is_gone (get_elem? w.workers i) ≡ true

IsGone-IsKept : (i : ℕ) → IsKept (IsGone i)
unfolding IsGone
IsGone-IsKept i = record {
  when_paused = λ w. step-gone w pauses i;
  when_shut = λ w. step-gone w closes_admission i;
  when_reopened = λ w. step-gone w reopens i;
  when_stopped = λ w. step-gone w stops i;
  when_announced = λ w. step-gone w announces_stop i;
}

history-IsGone :
    (c : Control) (es : List Event) (i : ℕ) → IsGone i c.world → IsGone i (history c es).world
unfolding history IsGone
history-IsGone c [] i g = g
history-IsGone c (e ∷ es) i g =
    history-IsGone (act c e) es i
      (act-world (IsGone i) (IsGone-IsKept i) c e g (λ a h. step-gone c.world a i g))

gone-idle : (w : World) (i : ℕ) → IsGone i w → executing w i ≡ false
unfolding IsGone
gone-idle w i g = each (get_elem? w.workers i) g
  where
    each : (o : Option Worker) → is_gone o ≡ true → executes o ≡ false
    each none h = refl
    each (some k) h = by_stage k.stage h
      where
        by_stage : (s : Stage) → is_retired s ≡ true → is_counted s ≡ false
        by_stage retired e = refl
        by_stage queued e = refl
        by_stage s e = ground arith

-- A turn is authorised only where the host is ready.
claimed-ready :
    (c : Control)
    → is_claimed c.stage ≡ false
    → is_claimed (act c claims).stage ≡ true
    → c.world.host.settled ≡ is_settled c.world.host
    → c.world.host.settled ≡ true
unfolding act goes_on claim ready_for_work
claimed-ready c before after same = each c.stage refl after
  where
    ready :
        (b : Bool)
        → ready_for_work c.world.host ≡ b
        → is_claimed (claimed_by c (if b then none else some unsettled)).stage ≡ true
        → c.world.host.settled ≡ true
    ready true r h = same ∙ r
    ready false r h = absurd (ground (arith, h))

    claiming :
        (o : Option Problem)
        → is_claimed
            (claimed_by c (elim o [
              | some problem ↦ some problem
              | none ↦ if ready_for_work c.world.host then none else some unsettled
            ])).stage
          ≡ true
        → c.world.host.settled ≡ true
    claiming none h = ready (ready_for_work c.world.host) refl h
    claiming (some p) h = absurd (ground (arith, h))

    each :
        (s : Place)
        → c.stage ≡ s
        → is_claimed (goes_on c s claims).stage ≡ true
        → c.world.host.settled ≡ true
    each resting e h = claiming (claim_idle c) h
    each restarting e h = claiming (claim_idle c) h
    each s e h = absurd (ground (arith, before, h))

-- No hosted call reaches from one turn into the next. When a turn is authorised, every call that was
-- admitted before has retired, and none of them ever executes again, whatever happens to the session and
-- its host. No request of the harness reuses the key of a pending one.
pub no_call_outlives :
    (es later : List Event) (i : ℕ) (k : Worker)
    → HasFreshKeys opened es
    → is_claimed (history opened es).stage ≡ false
    → is_claimed (act (history opened es) claims).stage ≡ true
    → get_elem? (history opened es).world.workers i ≡ some k
    → (k.stage ≡ retired)
      × (executing (history (act (history opened es) claims) later).world i ≡ false)
unfolding IsGone
no_call_outlives es later i k fresh before after at = (
  gone,
  gone-idle (history c' later).world i (
      history-IsGone c' later i
        (act-world (IsGone i) (IsGone-IsKept i) c claims here (λ a h. absurd (not_hosts a h)))),
)
  where
    c : Control
    c = history opened es

    c' : Control
    c' = act c claims

    orderly : IsOrderly c.world
    orderly = history-IsOrderly opened es fresh (opened-IsTracked, opened-IsSerial)

    gone : k.stage ≡ retired
    gone =
        tracked_retired c.world i k orderly.0 orderly.1
          (claimed-ready c before after orderly.1.settled) at

    here : is_gone (get_elem? c.world.workers i) ≡ true
    here = ap is_gone at ∙ ap is_retired gone

    not_hosts : (a : Action) → claims ≡ hosts a → ⊥
    not_hosts a h = cc
