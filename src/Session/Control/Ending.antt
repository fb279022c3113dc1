-- ===== src/Session/Control/Ending.antt =====
-- session/session.go: `failTurn`, which ends a session for good.
use lib_agent_harness.Prelude.{
  ℕ, String, Bool, true, false, Option, none, some, List, get_elem?, set, get_elem?-set, ◌≡◌, refl,
  sym, subst, ◌∙◌, inl, inr, Option-cases, arith,
}
use lib_agent_harness.Session.Host.World.{World, step, pauses}
use lib_agent_harness.Session.Turn.{finish}
use lib_agent_harness.Session.Control.{
  Closing, finishing, stopping, announcing, Held, Control, claim_idle, claim, with_ended, end_turn,
  Event, is_claimed, finished_active, act,
}
use lib_agent_harness.Session.Control.{unclosed, over}
use lib_agent_harness.Session.Turn.{finish}
use lib_agent_harness.Session.Host.World.{
  Action, moves, closes_admission, reopens, stops, announces_stop,
}
use lib_agent_harness.Session.Host.Starts.{move-Kept}
use lib_agent_harness.Session.Control.Moves.{IsKept, act-world}
use lib_agent_harness.Session.Control.Progress.{Progress, keeps, authorises, begins, act-Progress}
use lib_agent_harness.Session.Control.Keeping.{ended-Follows, end_turn-Keeps, Keeps}
use lib_agent_harness.Session.Control.Alone.{IsAlone, Progress-IsAlone}
use lib_agent_harness.Session.Control.Failing.{Failing, still, fails_now}

-- every turn has ended
abbrev pub AreEnded : List Held → Type 0
AreEnded ts = (i : ℕ) (h : Held) → get_elem? ts i ≡ some h → h.turn.finished ≡ true

-- What is due at each point of `failTurn`.
abbrev pub IsDue : Closing → Control → Type 0
IsDue unclosed c = c.closed ≡ false
IsDue (finishing a err) c = (c.closed ≡ true) × (a ≡ c.active)
IsDue stopping c = (c.closed ≡ true) × AreEnded c.turns
IsDue announcing c = (c.closed ≡ true) × AreEnded c.turns × (c.world.host.stopped ≡ true)
IsDue over c =
    (c.closed ≡ true)
    × AreEnded c.turns
    × (c.world.host.stopped ≡ true)
    × (c.world.host.done ≡ true)

-- What the session has closed or stopped stays so.
pub step-stopped : (w : World) (a : Action) → w.host.stopped ≡ true → (step w a).host.stopped ≡ true
unfolding step
step-stopped w (moves i m) h = elim (Option-cases (get_elem? w.workers i)) [
  | inl missing ↦ ground arith
  | inr (k, e) ↦ ground (arith, move-Kept i m k.stage k w.host)
]
step-stopped w _ h = ground arith

pub step-done : (w : World) (a : Action) → w.host.done ≡ true → (step w a).host.done ≡ true
unfolding step
step-done w (moves i m) h = elim (Option-cases (get_elem? w.workers i)) [
  | inl missing ↦ ground arith
  | inr (k, e) ↦ ground (arith, move-Kept i m k.stage k w.host)
]
step-done w _ h = ground arith

AreEnded-Keeps : (c c' : Control) → Keeps c c' → AreEnded c.turns → AreEnded c'.turns
AreEnded-Keeps c c' k ended i h' e =
    let (h, at, f) = k.turns i h' e in ended-Follows h h' f (ended i h at)

some_inj : {h k : Held} → some h ≡ some k → h ≡ k
some_inj q = cc

-- A turn that was ended has ended.
end_turn-finished :
    (c : Control) (i : ℕ) (status err : String) (k : Held)
    → get_elem? (end_turn c i status err).turns i ≡ some k
    → k.turn.finished ≡ true
unfolding end_turn finish
end_turn-finished c i status err k e = each (get_elem? c.turns i) refl e
  where
    each :
        (o : Option Held)
        → get_elem? c.turns i ≡ o
        → get_elem? (with_ended c i status err o).turns i ≡ some k
        → k.turn.finished ≡ true
    each none at q = absurd (ground (arith, at, q))
    each (some h) at q =
        subst (λ t. t.turn.finished ≡ true) (some_inj (sym written ∙ q))
          (is_ended h.turn.finished refl)
      where
        after : Held
        after = record h { turn = finish h.turn status err }

        written : get_elem? (set c.turns i after) i ≡ some after
        written = ground (arith, get_elem?-set c.turns i i h after at)

        is_ended : (b : Bool) → h.turn.finished ≡ b → (finish h.turn status err).finished ≡ true
        is_ended true f = ground (arith, f)
        is_ended false f = ground (arith, f)

pub record IsEnding (c : Control) : Type 0 where
  pub alone : IsAlone c
  pub due : IsDue c.closing c
  pub barred : c.closed ≡ true → is_claimed c.stage ≡ false

-- Once it is closed, a session begins no turn.
pub closed-Keeps : (c c' : Control) → IsEnding c → c.closed ≡ true → Progress c c' → Keeps c c'
unfolding claim claim_idle
closed-Keeps c c' n shut (keeps k) = k
closed-Keeps c c' n shut (authorises e) = absurd (ground (arith, shut, e))
closed-Keeps c c' n shut (begins w id capacity tools (inl here)) =
    absurd (ground (arith, n.barred shut, here))
closed-Keeps c c' n shut (begins w id capacity tools (inr idle)) =
    absurd (ground (arith, shut, idle))

abbrev pub IsStopped : World → Type 0
IsStopped w = w.host.stopped ≡ true

abbrev pub IsDone : World → Type 0
IsDone w = w.host.done ≡ true

-- Where the session's closing stays as it is, what is due stays so.
IsDue-still :
    (c c' : Control) (s : Closing)
    → c'.closed ≡ c.closed
    → (c.closed ≡ true → Keeps c c')
    → (IsStopped c.world → IsStopped c'.world)
    → (IsDone c.world → IsDone c'.world)
    → IsDue s c
    → IsDue s c'
IsDue-still c c' unclosed same kept stopped done d = same ∙ d
IsDue-still c c' (finishing a err) same kept stopped done (shut, active) =
    (same ∙ shut, active ∙ sym (kept shut).active)
IsDue-still c c' stopping same kept stopped done (shut, ended) =
    (same ∙ shut, AreEnded-Keeps c c' (kept shut) ended)
IsDue-still c c' announcing same kept stopped done (shut, ended, st) =
    (same ∙ shut, AreEnded-Keeps c c' (kept shut) ended, stopped st)
IsDue-still c c' over same kept stopped done (shut, ended, st, dn) =
    (same ∙ shut, AreEnded-Keeps c c' (kept shut) ended, stopped st, done dn)

still-IsEnding :
    (c c' : Control)
    → IsEnding c
    → Progress c c'
    → Failing c c'
    → (IsStopped c.world → IsStopped c'.world)
    → (IsDone c.world → IsDone c'.world)
    → IsEnding c'
still-IsEnding c c' n p f stopped done = record {
  alone = Progress-IsAlone c c' p n.alone;
  due = due' f;
  barred = barred' f;
}
  where
    due' : Failing c c' → IsDue c'.closing c'
    due' (still r s) =
        subst (λ k. IsDue k c') (sym r)
          (IsDue-still c c' c.closing s (λ shut. closed-Keeps c c' n shut p) stopped done n.due)
    due' (fails_now err a b r q) = subst (λ k. IsDue k c') (sym r) (b, refl)

    not_begun : c.closed ≡ true → is_claimed c'.stage ≡ false
    not_begun shut = each (is_claimed c'.stage) refl
      where
        each : (g : Bool) → is_claimed c'.stage ≡ g → is_claimed c'.stage ≡ false
        each false q = q
        each true q = absurd (ground (arith, n.barred shut, (closed-Keeps c c' n shut p).stage q))

    barred' : Failing c c' → c'.closed ≡ true → is_claimed c'.stage ≡ false
    barred' (still r s) shut = not_begun (sym s ∙ shut)
    barred' (fails_now err a b r q) shut = q

IsStopped-IsKept : IsKept IsStopped
IsStopped-IsKept = record {
  when_paused = λ w. step-stopped w pauses;
  when_shut = λ w. step-stopped w closes_admission;
  when_reopened = λ w. step-stopped w reopens;
  when_stopped = λ w. step-stopped w stops;
  when_announced = λ w. step-stopped w announces_stop;
}

IsDone-IsKept : IsKept IsDone
IsDone-IsKept = record {
  when_paused = λ w. step-done w pauses;
  when_shut = λ w. step-done w closes_admission;
  when_reopened = λ w. step-done w reopens;
  when_stopped = λ w. step-done w stops;
  when_announced = λ w. step-done w announces_stop;
}

-- An event that is not a step of the closing keeps what is due.
pub moved-IsEnding :
    (c : Control) (e : Event) → IsEnding c → Failing c (act c e) → IsEnding (act c e)
moved-IsEnding c e n f =
    still-IsEnding c (act c e) n (act-Progress c e) f
      (λ h. act-world IsStopped IsStopped-IsKept c e h (λ a q. step-stopped c.world a h))
      (λ h. act-world IsDone IsDone-IsKept c e h (λ a q. step-done c.world a h))

-- `failTurn` ends the turn that was active, and there is no other that has not ended.
pub all_ended :
    (c : Control) (a : Option ℕ) (err : String)
    → IsAlone c
    → a ≡ c.active
    → AreEnded (finished_active (record c { closing = stopping }) a err).turns
all_ended c none err l same i h at = each h.turn.finished refl
  where
    each : (b : Bool) → h.turn.finished ≡ b → h.turn.finished ≡ true
    each true f = f
    each false f = absurd (ground (arith, l.alone i h at f, same))
all_ended c (some a) err l same i h at = each h.turn.finished refl
  where
    before : Control
    before = record c { closing = stopping }

    each : (b : Bool) → h.turn.finished ≡ b → h.turn.finished ≡ true
    each true f = f
    each false f =
        let (k, at', fo) = (end_turn-Keeps before a "failed" err).turns i h at in
        end_turn-finished before a "failed" err h (
          subst (λ j. get_elem? (end_turn before a "failed" err).turns j ≡ some h)
            (same_place (sym (l.alone i k at' (fo.unfinished f)) ∙ sym same)) at)
      where
        same_place : some i ≡ some a → i ≡ a
        same_place q = cc
