-- ===== src/Session/Control.antt =====
-- session/control.go and session/compact.go, with `failTurn` of session/session.go: the turns of a session
-- over its tool host.
-- One control operation at a time holds the operation gate, and its stages are between the points at
-- which something else may run: the harness may end a turn, the session may fail, and the workers of the
-- host go on. A turn is known by its place among all the turns that the session has started. Telemetry,
-- capabilities, the context that is delivered with a turn and the steering that an engine does itself
-- are left out. A wait for the tools to settle looks at the channel of the moment, not at the one of its
-- start.
pub mod Alone
pub mod Ended
pub mod Ending
pub mod Failing
pub mod Finishing
pub mod Fresh
pub mod Keeping
pub mod Moves
pub mod Progress
pub mod Shut
pub mod Tooled
use lib_agent_harness.Prelude.{
  ℕ, String, Bool, true, false, not, ◌&&◌, ◌||◌, Option, none, some, List, [], ◌∷◌, ◌++◌, ◌==◌,
  str_eq, length, get_elem?, set, if◌then◌else◌,
}
use lib_agent_harness.Session.Turn.{Turn, finish, started}
use lib_agent_harness.Session.Host.{ready_for_work}
use lib_agent_harness.Session.Host.World.{
  World, Action, closes_admission, reopens, stops, announces_stop, pauses, step,
}

-- Where the operation that holds the gate stands: there is none, `Steer` is about to start the turn that
-- replaces another, a turn is authorised, the harness starts it, it is asked to interrupt one, the
-- operation waits for its end, and `Steer` cancels the tools and waits for them. The flag is true in
-- `Steer`.
pub data Stage : Type 0 where
  resting restarting claimed : Stage
  starting : ℕ → Stage
  requesting waiting : ℕ → Bool → Stage
  cancelling settling : Stage

-- How far `failTurn` is past its critical section, with the turn that it ends.
pub data Closing : Type 0 where
  unclosed : Closing
  finishing : Option ℕ → String → Closing
  stopping announcing over : Closing

pub record Held : Type 0 where
  pub turn : Turn
  pub interrupt_requested : Bool

-- A session whose host is there; `failure` is "" for none.
pub record Control : Type 0 where
  pub world : World
  pub turns : List Held
  pub active : Option ℕ
  pub closed : Bool
  pub failure : String
  pub closing : Closing
  pub stage : Stage

pub data Problem : Type 0 where
  is_closed busy unsettled stale : Problem

abbrev pub closed_error : String
closed_error = "harness session closed"

abbrev pub is_done : Option Held → Bool
is_done none = true
is_done (some h) = h.turn.done

abbrev pub turn_at : Control → Option ℕ → Option Held
turn_at c none = none
turn_at c (some i) = get_elem? c.turns i

-- `claimIdleLocked`
unfoldable pub claim_idle : Control → Option Problem
claim_idle c =
    if c.closed then some is_closed else if is_done (turn_at c c.active) then none else some busy

-- what `startTurnScoped` tests under the session's lock
unfoldable pub claim : Control → Option Problem
unfolding claim_idle ready_for_work
claim c = elim (claim_idle c) [
  | some problem ↦ some problem
  | none ↦ if ready_for_work c.world.host then none else some unsettled
]

abbrev pub is_turn : Option Held → String → Bool
is_turn none expected = false
is_turn (some h) expected = not (str_eq expected "") && str_eq h.turn.id expected

-- `activeTurn`
unfoldable pub active_turn : Control → String → Option Problem
active_turn c expected =
    if c.closed
    then some is_closed
    else if not (is_turn (turn_at c c.active) expected)
    then some stale
    else if is_done (turn_at c c.active)
    then some stale
    else none

-- the end of a turn, which closes the admission of tool calls with it
abbrev pub ended_world : World → Turn → World
ended_world w t = if t.finished then w else if t.closes_tools then step w closes_admission else w

abbrev pub with_ended : Control → ℕ → String → String → Option Held → Control
with_ended c i status err none = c
with_ended c i status err (some h) = record c {
  turns = set c.turns i (record h { turn = finish h.turn status err });
  world = ended_world c.world h.turn;
}

unfoldable pub end_turn : Control → ℕ → String → String → Control
unfolding finish
end_turn c i status err = with_ended c i status err (get_elem? c.turns i)

abbrev pub is_finished : Option Held → Bool
is_finished none = true
is_finished (some h) = h.turn.finished

-- whether `failTurn` is about another turn than the active one, or about one that has ended
abbrev pub is_other : Control → Option ℕ → Bool
is_other c none = false
is_other c (some i) = not (is_active c.active i) || is_finished (get_elem? c.turns i)
  where
    is_active : Option ℕ → ℕ → Bool
    is_active none j = false
    is_active (some k) j = k == j

-- the critical section of `failTurn`
unfoldable pub fail_turn : Control → Option ℕ → String → Control
fail_turn c expected err = if is_other c expected then c else if c.closed then c else record c {
  closed = true;
  failure = if str_eq c.failure "" && not (str_eq err closed_error) then err else c.failure;
  closing = finishing c.active err;
}

-- What can happen next.
pub data Event : Type 0 where
  hosts : Action → Event  -- a worker, a cancellation, or the caller's `CancelTools` or `ResumeTools`
  finishes : ℕ → String → String → Event  -- the harness ends a turn
  names : ℕ → String → Event  -- the server names a turn
  claims : Event
  compacts : ℕ → Event
  opens : String → ℕ → Event  -- with the turn's id and event buffer
  start_accepted : Event
  start_rejected start_lost : String → Event
  controls : String → Bool → Event
  request_accepted request_rejected : Event
  request_lost : String → Event
  sees_end cancels_tools sees_settled gives_up : Event
  fails : Option ℕ → String → Event
  finishes_failed stops_host announces : Event

-- `StartTurn`, and `Steer` once the tools have settled, up to the test of the host
abbrev pub claimed_by : Control → Option Problem → Control
claimed_by c none = record c { stage = claimed }
claimed_by c (some problem) = record c { stage = resting }

-- `Interrupt` and `Steer` of a turn: they mark it before they ask the harness
abbrev pub marked : Control → ℕ → Bool → Option Held → Control
marked c i b none = c
marked c i b (some h) = record c { turns = set c.turns i (record h { interrupt_requested = b }) }

abbrev pub mark : Control → ℕ → Bool → Control
mark c i b = marked c i b (get_elem? c.turns i)

abbrev pub at_stage : Control → Stage → Control
at_stage c stage = record c { stage = stage }

abbrev pub asked : Control → Bool → Option ℕ → Option Problem → Control
asked c steering (some i) none = at_stage (mark c i true) (requesting i steering)
asked c steering _ _ = c

-- after `Wait` of an interrupted turn
abbrev pub after_end : Bool → Option Held → Stage
after_end steering none = resting
after_end steering (some h) =
    if str_eq h.turn.status "interrupted" && steering then cancelling else resting

abbrev pub begun : Control → Turn → Control
begun c t = record c {
  turns = c.turns ++ record { turn = t; interrupt_requested = false } ∷ [];
  active = some (length c.turns);
  stage = starting (length c.turns);
}

-- A turn reopens the channel, and its end shuts it.
abbrev pub opened_turn : Control → String → ℕ → Control
opened_turn c id capacity =
    begun (record c { world = step c.world reopens }) (started id capacity true)

-- `Compact`, whose turn has no identifier yet and leaves the channel alone
abbrev pub compacted_by : Control → ℕ → Option Problem → Control
compacted_by c capacity none = begun c (started "" capacity false)
compacted_by c capacity (some problem) = c

-- `replayStarting` and `compactTurnStarted`: a turn takes the identifier that the server gives it
abbrev pub renamed : Control → ℕ → String → Option Held → Control
renamed c i id none = c
renamed c i id (some h) = record c {
  turns = set c.turns i (record h { turn = record h.turn { id = id; result_id = id } });
}

abbrev pub rename : Control → ℕ → String → Control
rename c i id = renamed c i id (get_elem? c.turns i)

-- The operation that holds the gate goes on; what its stage does not have changes nothing.
unfoldable pub goes_on : Control → Stage → Event → Control
unfolding claim claim_idle active_turn end_turn fail_turn
goes_on c resting claims = claimed_by c (claim c)
goes_on c resting (compacts capacity) = compacted_by c capacity (claim_idle c)
goes_on c restarting claims = claimed_by c (claim c)
goes_on c restarting gives_up = at_stage c resting
goes_on c claimed (opens id capacity) = opened_turn c id capacity
goes_on c (starting i) start_accepted = at_stage c resting
goes_on c (starting i) (start_rejected err) = end_turn (at_stage c resting) i "rejected" err
goes_on c (starting i) (start_lost err) = fail_turn (at_stage c resting) none err
goes_on c resting (controls expected steering) = asked c steering c.active (active_turn c expected)
goes_on c (requesting i steering) request_accepted = at_stage c (waiting i steering)
goes_on c (requesting i steering) request_rejected = at_stage (mark c i false) resting
goes_on c (requesting i steering) (request_lost err) =
    fail_turn (at_stage (mark c i false) resting) none err
goes_on c (waiting i steering) sees_end =
    let ended = at_stage c (after_end steering (get_elem? c.turns i)) in
    if is_done (get_elem? c.turns i) then ended else c
goes_on c (waiting i steering) gives_up = at_stage c resting
goes_on c cancelling cancels_tools = record c { world = step c.world pauses; stage = settling }
goes_on c settling sees_settled = if c.world.host.settled then at_stage c restarting else c
goes_on c settling gives_up = at_stage c resting
goes_on c _ _ = c

abbrev pub is_claimed : Stage → Bool
is_claimed claimed = true
is_claimed _ = false

abbrev pub finished_active : Control → Option ℕ → String → Control
finished_active c none err = c
finished_active c (some i) err = end_turn c i "failed" err

-- the rest of `failTurn`
unfoldable pub closes_on : Control → Closing → Event → Control
unfolding end_turn
closes_on c (finishing active err) finishes_failed =
    finished_active (record c { closing = stopping }) active err
closes_on c stopping stops_host = record c { world = step c.world stops; closing = announcing }
closes_on c announcing announces = record c { world = step c.world announces_stop; closing = over }
closes_on c _ _ = c

-- `failTurn` waits while a turn is authorised: that is under the session's lock.
unfoldable pub act : Control → Event → Control
unfolding goes_on closes_on fail_turn end_turn
act c (hosts a) = record c { world = step c.world a }
act c (finishes i status err) = end_turn c i status err
act c (names i id) = rename c i id
act c (fails expected err) = if is_claimed c.stage then c else fail_turn c expected err
act c finishes_failed = closes_on c c.closing finishes_failed
act c stops_host = closes_on c c.closing stops_host
act c announces = closes_on c c.closing announces
act c e = goes_on c c.stage e

unfoldable pub history : Control → List Event → Control
unfolding act
history c [] = c
history c (e ∷ es) = history (act c e) es

abbrev pub opened : Control
opened = record {
  world = lib_agent_harness.Session.Host.World.opened;
  turns = [];
  active = none;
  closed = false;
  failure = "";
  closing = unclosed;
  stage = resting;
}
