-- ===== src/Session/Control/Ended.antt =====
-- session/session.go: `failTurn`, from its mark to the end.
use lib_agent_harness.Prelude.{
  ℕ, String, Bool, true, false, Option, none, some, List, [], ◌∷◌, get_elem?, ◌≡◌, refl, sym, ap,
  subst, ◌∙◌, inr, arith, if◌then◌else◌,
}
use lib_agent_harness.Session.Host.World.{World, step, pauses}
use lib_agent_harness.Session.Control.{
  names, rename, Closing, finishing, stopping, announcing, Held, Control, with_ended, end_turn,
  fail_turn, Event, hosts, finishes, fails, finishes_failed, stops_host, announces, goes_on,
  is_claimed, closes_on, act, history, opened,
}
use lib_agent_harness.Session.Control.{unclosed, over}
use lib_agent_harness.Session.Host.{Host, barrier}
use lib_agent_harness.Session.Host.World.{Action, closes_admission, reopens, stops, announces_stop}
use lib_agent_harness.Session.Host.Starts.{executing}
use lib_agent_harness.Session.Host.Starts.Never.{IsOver, step-IsOver, not_started}
use lib_agent_harness.Session.Control.Moves.{IsKept, act-world}
use lib_agent_harness.Session.Control.Progress.{act-Progress}
use lib_agent_harness.Session.Control.Failing.{
  rename-Failing, Failing, still, fails_now, fail_turn-Failing, goes_on-Failing, end_turn-Failing,
}
use lib_agent_harness.Prelude.{All, ◌≢◌, suc}
use lib_agent_harness.Session.Control.Ending.{AreEnded, IsDue, IsEnding, closed-Keeps}
use lib_agent_harness.Session.Control.Finishing.{act-IsEnding, history-IsEnding, opened-IsEnding}

-- Where the rest of `failTurn` has run, it stays at its end.
over-stays : (c : Control) (e : Event) → IsEnding c → c.closing ≡ over → (act c e).closing ≡ over
unfolding act closes_on
over-stays c e n at = each e
  where
    moved : (c' : Control) → Failing c c' → c'.closing ≡ over
    moved c' (still r s) = r ∙ at
    moved c' (fails_now err a b r q) =
        absurd (ground (arith, (subst (λ s. IsDue s c) at n.due).0, a))

    each : (e : Event) → (act c e).closing ≡ over
    each (hosts a) = at
    each (finishes i status err) = moved (end_turn c i status err) (end_turn-Failing c i status err)
    each (names i id) = moved (rename c i id) (rename-Failing c i id)
    each (fails expected err) = by_stage (is_claimed c.stage) refl
      where
        by_stage :
            (b : Bool)
            → is_claimed c.stage ≡ b
            → (if b then c else fail_turn c expected err).closing ≡ over
        by_stage true q = at
        by_stage false q = moved (fail_turn c expected err) (fail_turn-Failing c expected err q)
    each finishes_failed = subst (λ s. (closes_on c s finishes_failed).closing ≡ over) (sym at) at
    each stops_host = subst (λ s. (closes_on c s stops_host).closing ≡ over) (sym at) at
    each announces = subst (λ s. (closes_on c s announces).closing ≡ over) (sym at) at
    each e = moved (goes_on c c.stage e) (goes_on-Failing c c.stage e)

history-over :
    (c : Control) (es : List Event) → IsEnding c → c.closing ≡ over → (history c es).closing ≡ over
unfolding history
history-over c [] n at = at
history-over c (e ∷ es) n at = history-over (act c e) es (act-IsEnding c e n) (over-stays c e n at)

closed_when_over : (c : Control) → IsEnding c → c.closing ≡ over → IsDue over c
closed_when_over c n at = subst (λ s. IsDue s c) at n.due

-- From there on no turn begins,
history-no_turn :
    (c : Control) (es : List Event) (j : ℕ)
    → IsEnding c
    → c.closing ≡ over
    → get_elem? c.turns j ≡ none
    → get_elem? (history c es).turns j ≡ none
unfolding history
history-no_turn c [] j n at empty = empty
history-no_turn c (e ∷ es) j n at empty =
    history-no_turn (act c e) es j (act-IsEnding c e n) (over-stays c e n at)
      (each (get_elem? (act c e).turns j) refl)
  where
    each : (o : Option Held) → get_elem? (act c e).turns j ≡ o → get_elem? (act c e).turns j ≡ none
    each none q = q
    each (some h') q =
        let k = closed-Keeps c (act c e) n (closed_when_over c n at).0 (act-Progress c e) in
        let (h, there, f) = k.turns j h' q in absurd (ground (arith, empty, there))

-- and no hosted call starts.
abbrev IsIdle : ℕ → World → Type 0
IsIdle i w = IsOver w.host × (executing w i ≡ false)

IsIdle-step : (i : ℕ) (w : World) (a : Action) → IsIdle i w → IsIdle i (step w a)
IsIdle-step i w a (ended, idle) =
    (step-IsOver w a ended, not_started w a i (shut w.host ended) idle)
  where
    shut : (h : Host) → IsOver h → barrier h ≢ none
    shut h o = unfold barrier in ground arith

IsIdle-IsKept : (i : ℕ) → IsKept (IsIdle i)
IsIdle-IsKept i = record {
  when_paused = λ w. IsIdle-step i w pauses;
  when_shut = λ w. IsIdle-step i w closes_admission;
  when_reopened = λ w. IsIdle-step i w reopens;
  when_stopped = λ w. IsIdle-step i w stops;
  when_announced = λ w. IsIdle-step i w announces_stop;
}

history-IsIdle :
    (c : Control) (es : List Event) (i : ℕ) → IsIdle i c.world → IsIdle i (history c es).world
unfolding history
history-IsIdle c [] i o = o
history-IsIdle c (e ∷ es) i o =
    history-IsIdle (act c e) es i
      (act-world (IsIdle i) (IsIdle-IsKept i) c e o (λ a h. IsIdle-step i c.world a o))

all_of : (ts : List Held) → AreEnded ts → All (λ h. h.turn.finished ≡ true) ts
all_of [] e = tt
all_of (t ∷ ts) e = (e 0 t refl, all_of ts (λ i. e (suc i)))

-- what is left of `failTurn` once it has marked the session
abbrev pub rest_of_failing : List Event
rest_of_failing = finishes_failed ∷ stops_host ∷ announces ∷ []

-- where the closing stands after one of its steps
abbrev next : Closing → Event → Closing
next (finishing a err) finishes_failed = stopping
next stopping stops_host = announcing
next announcing announces = over
next s e = s

end_turn-closing :
    (c : Control) (i : ℕ) (status err : String) → (end_turn c i status err).closing ≡ c.closing
unfolding end_turn
end_turn-closing c i status err = each (get_elem? c.turns i)
  where
    each : (o : Option Held) → (with_ended c i status err o).closing ≡ c.closing
    each none = refl
    each (some h) = refl

closes_on-next :
    (c : Control) (s : Closing) (e : Event) → c.closing ≡ s → (closes_on c s e).closing ≡ next s e
unfolding closes_on
closes_on-next c (finishing none err) finishes_failed at = refl
closes_on-next c (finishing (some i) err) finishes_failed at =
    end_turn-closing (record c { closing = stopping }) i "failed" err
closes_on-next c stopping stops_host at = refl
closes_on-next c announcing announces at = refl
closes_on-next c s e at = at

-- From wherever it stands, the rest of `failTurn` comes to its end.
reaches_over :
    (c : Control) → IsEnding c → c.closed ≡ true → (history c rest_of_failing).closing ≡ over
unfolding history act
reaches_over c n shut =
    closes_on-next d d.closing announces refl
    ∙ ap (λ s. next s announces) (closes_on-next b b.closing stops_host refl)
    ∙ ap (λ s. next (next s stops_host) announces) (closes_on-next c c.closing finishes_failed refl)
    ∙ each c.closing n.due
  where
    b : Control
    b = closes_on c c.closing finishes_failed

    d : Control
    d = closes_on b b.closing stops_host

    each :
        (s : Closing) → IsDue s c → next (next (next s finishes_failed) stops_host) announces ≡ over
    each unclosed due = absurd (ground (arith, due, shut))
    each (finishing a err) due = refl
    each stopping due = refl
    each announcing due = refl
    each over due = refl

-- A session that fails ends for good. Once `failTurn` has marked the session, the rest of it, from
-- wherever it stands, comes to its end, and then, whatever else happens, every turn has ended, the host
-- is stopped and says so, no place of a turn that is free is ever taken, and no hosted call that is not
-- executing ever executes.
pub failing_ends :
    (es later : List Event) (i j : ℕ)
    → (history opened es).closed ≡ true
    → executing (history (history opened es) rest_of_failing).world i ≡ false
    → get_elem? (history (history opened es) rest_of_failing).turns j ≡ none
    → let last = history (history (history opened es) rest_of_failing) later in
      (last.closing ≡ over)
      × All (λ h. h.turn.finished ≡ true) last.turns
      × (last.world.host.stopped ≡ true)
      × (last.world.host.done ≡ true)
      × (get_elem? last.turns j ≡ none)
      × (executing last.world i ≡ false)
failing_ends es later i j shut idle empty = (
  at_end,
  all_of (history c later).turns due.1,
  due.2,
  due.3,
  history-no_turn c later j n at empty,
  (history-IsIdle c later i (inr (closed_when_over c n at).2, idle)).1,
)
  where
    before : Control
    before = history opened es

    before-IsEnding : IsEnding before
    before-IsEnding = history-IsEnding opened es opened-IsEnding

    c : Control
    c = history before rest_of_failing

    n : IsEnding c
    n = history-IsEnding before rest_of_failing before-IsEnding

    at : c.closing ≡ over
    at = reaches_over before before-IsEnding shut

    at_end : (history c later).closing ≡ over
    at_end = history-over c later n at

    due : IsDue over (history c later)
    due = closed_when_over (history c later) (history-IsEnding c later n) at_end
