-- ===== src/Session/Turn.antt =====
-- session/turn.go: one turn's event stream and its end. Each function is one critical section under
-- the turn's mutex. A send on a closed channel and a second close panic in Go: the field `panicked`
-- records it. `received` is what the caller has taken from the stream, `queue` what is still in it.
pub mod Ended
use lib_agent_harness.Prelude.{
  ℕ, ◌+◌, String, Bool, true, false, ◌||◌, Option, none, some, List, [], ◌∷◌, ◌++◌, ltb, length,
  if◌then◌else◌,
}

-- An event: its turn, and a number that stands for its other fields.
pub record Event : Type 0 where
  pub turn_id : String
  pub body : ℕ

pub record Channel : Type 0 where
  pub queue : List Event
  pub capacity : ℕ
  pub closed : Bool

-- `Turn`, with the status of its result and a name for its error ("" for none). `tools_closed` counts
-- the calls of `closeTools`, which the turn has if `closes_tools`.
pub record Turn : Type 0 where
  pub id : String
  pub events : Channel
  pub received : List Event
  pub done : Bool
  pub status : String
  pub result_id : String
  pub err : String
  pub finished : Bool
  pub closes_tools : Bool
  pub tools_closed : ℕ
  pub panicked : Bool

pub data EmitResult : Type 0 where
  emitted backpressure : EmitResult

abbrev pub closed_channel : Channel → Channel
closed_channel c = record c { closed = true }

abbrev pub pushed : Channel → Event → Channel
pushed c e = record c { queue = c.queue ++ e ∷ [] }

-- `finish`
unfoldable pub finish : Turn → String → String → Turn
finish t status err = if t.finished then t else record t {
  finished = true;
  status = status;
  result_id = t.id;
  err = err;
  tools_closed = if t.closes_tools then t.tools_closed + 1 else t.tools_closed;
  events = closed_channel t.events;
  done = true;
  panicked = t.panicked || (t.events.closed || t.done);
}

-- `emit` of an event with this body
unfoldable pub emit : Turn → ℕ → Turn × EmitResult
emit t body =
    if t.finished
    then (t, emitted)
    else if t.events.closed
    then (record t { panicked = true }, emitted)
    else if ltb (length t.events.queue) t.events.capacity
    then (record t { events = pushed t.events (record { turn_id = t.id; body = body }) }, emitted)
    else (t, backpressure)

-- the caller's receive from `Events()`: nothing of an empty stream
abbrev pub take_event : Turn → List Event → Turn
take_event t [] = t
take_event t (e ∷ es) = record t {
  received = t.received ++ e ∷ [];
  events = record t.events { queue = es };
}

unfoldable pub receive : Turn → Turn
receive t = take_event t t.events.queue

-- `Wait`: the result's status and turn, and the error, once the turn is done
unfoldable pub wait : Turn → Option (String × String × String)
wait t = if t.done then some (t.status, t.result_id, t.err) else none

pub data Action : Type 0 where
  emits : ℕ → Action
  finishes : String → String → Action
  receives : Action

unfoldable pub act : Turn → Action → Turn
unfolding finish emit receive
act t (emits body) = (emit t body).0
act t (finishes status err) = finish t status err
act t receives = receive t

unfoldable pub run : Turn → List Action → Turn
run t [] = t
run t (a ∷ as') = run (act t a) as'

abbrev pub started : String → ℕ → Bool → Turn
started id capacity closes_tools = record {
  id = id;
  events = record { queue = []; capacity = capacity; closed = false };
  received = [];
  done = false;
  status = "";
  result_id = "";
  err = "";
  finished = false;
  closes_tools = closes_tools;
  tools_closed = 0;
  panicked = false;
}
