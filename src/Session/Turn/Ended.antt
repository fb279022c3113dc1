-- ===== src/Session/Turn/Ended.antt =====
-- session/turn.go: a turn ends once, and nothing of it changes afterwards.
use lib_agent_harness.Prelude.{
  ℕ, ◌≤◌, String, Bool, true, false, ◌&&◌, some, List, [], ◌∷◌, ◌++◌, length, length-append, bit,
  ◌≡◌, refl, sym, ap, ◌∙◌, arith,
}
use lib_agent_harness.Session.Turn.{
  Event, Turn, finish, emit, take_event, receive, wait, Action, emits, finishes, receives, act, run,
  started,
}

-- The channels are closed exactly once the turn is finished, the caller's tools are shut once then,
-- the stream holds at most its capacity, and no channel was misused.
unfoldable pub IsSound : Turn → Type 0
IsSound t =
    (t.panicked ≡ false)
    × (t.events.closed ≡ t.finished)
    × (t.done ≡ t.finished)
    × (t.tools_closed ≡ bit (t.finished && t.closes_tools))
    × (length t.events.queue ≤ t.events.capacity)

act-IsSound : (t : Turn) (a : Action) → IsSound t → IsSound (act t a)
unfolding IsSound act
act-IsSound t (emits body) h =
    ground (arith, h, length-append t.events.queue (record { turn_id = t.id; body = body } ∷ []))
act-IsSound t (finishes status err) h = ground (arith, h)
act-IsSound t receives h = taken t.events.queue refl
  where
    taken : (q : List Event) → t.events.queue ≡ q → IsSound (take_event t q)
    taken [] e = h
    taken (x ∷ q) e = (h.0, h.1, h.2, h.3, ground (arith, h, ap length e))

run-IsSound : (t : Turn) (actions : List Action) → IsSound t → IsSound (run t actions)
unfolding run
run-IsSound t [] h = h
run-IsSound t (a ∷ rest) h = run-IsSound (act t a) rest (act-IsSound t a h)

-- However emits, receives and ends follow each other from the start of a turn, no channel is closed
-- twice or sent to once closed, both channels are closed and the tools shut exactly when the turn has
-- finished, the tools once, and the stream never holds more than its capacity.
pub turn-IsSound :
    (id : String) (capacity : ℕ) (closes_tools : Bool) (actions : List Action)
    → IsSound (run (started id capacity closes_tools) actions)
unfolding IsSound
turn-IsSound id capacity closes_tools actions =
    run-IsSound (started id capacity closes_tools) actions (refl, refl, refl, refl, omega arith)

-- All that the caller has seen or will see of the stream.
unfoldable pub stream : Turn → List Event
stream t = t.received ++ t.events.queue

append_snoc :
    (xs : List Event) (y : Event) (ys : List Event) → xs ++ (y ∷ ys) ≡ (xs ++ (y ∷ [])) ++ ys
append_snoc [] y ys = refl
append_snoc (x ∷ xs) y ys = ap (λ l. x ∷ l) (append_snoc xs y ys)

receive-stream : (t : Turn) → stream (receive t) ≡ stream t
unfolding stream receive
receive-stream t = taken t.events.queue refl
  where
    taken : (q : List Event) → t.events.queue ≡ q → stream (take_event t q) ≡ stream t
    taken [] e = refl
    taken (x ∷ q) e = sym (append_snoc t.received x q) ∙ ap (λ l. t.received ++ l) (sym e)

receive-rest : (t : Turn) → ((receive t).finished ≡ t.finished) × (wait (receive t) ≡ wait t)
unfolding receive wait
receive-rest t = taken t.events.queue
  where
    taken :
        (q : List Event)
        → ((take_event t q).finished ≡ t.finished) × (wait (take_event t q) ≡ wait t)
    taken [] = (refl, refl)
    taken (x ∷ q) = (refl, refl)

act-ended :
    (t : Turn) (a : Action)
    → t.finished ≡ true
    → ((act t a).finished ≡ true) × (wait (act t a) ≡ wait t) × (stream (act t a) ≡ stream t)
unfolding act finish emit
act-ended t (emits body) h = rw h (refl, refl, refl)
act-ended t (finishes status err) h = rw h (refl, refl, refl)
act-ended t receives h = ((receive-rest t).0 ∙ h, (receive-rest t).1, receive-stream t)

-- Once a turn has ended, every later step leaves what `Wait` returns and the stream as they are.
pub ended_stays :
    (t : Turn) (actions : List Action)
    → t.finished ≡ true
    → (wait (run t actions) ≡ wait t) × (stream (run t actions) ≡ stream t)
unfolding run
ended_stays t [] h = (refl, refl)
ended_stays t (a ∷ rest) h =
    let (still, waits, streams) = act-ended t a h in
    let (w, s) = ended_stays (act t a) rest still in (w ∙ waits, s ∙ streams)

ending :
    (t : Turn) (status err : String)
    → t.finished ≡ false
    → ((finish t status err).finished ≡ true)
      × (wait (finish t status err) ≡ some (status, t.id, err))
unfolding finish wait
ending t status err going = rw going (refl, refl)

-- The first end of a running turn decides: whatever follows it, further ends included, `Wait` then
-- returns its status and its error, under the turn's name.
pub first_end_decides :
    (t : Turn) (status err : String) (actions : List Action)
    → t.finished ≡ false
    → wait (run (finish t status err) actions) ≡ some (status, t.id, err)
first_end_decides t status err actions going =
    let (ends, waits) = ending t status err going in
    (ended_stays (finish t status err) actions ends).0 ∙ waits
