-- ===== src/Session/Health.antt =====
-- session/health.go: what is observable of a session. The clock, and what `errors.Is` and `errors.As`
-- find in a failure, are given; durations are nanoseconds. The source reads the session, its tool host
-- and its turn under one mutex after the other; here they are one snapshot.
pub mod States
use lib_agent_harness.Prelude.{
  ℕ, zero, suc, ◌*◌, ◌^◌, String, Bool, true, false, not, ◌&&◌, ◌||◌, Option, none, some, List, [],
  ◌∷◌, ltb, if◌then◌else◌,
}
use lib_agent_harness.Prelude.Int.{ℤ, pos, negsuc, ltb_ℤ}
use lib_agent_harness.Session.Host.{Host}
use lib_agent_harness.Session.Turn.{Turn}

pub data HealthState : Type 0 where
  running active quiet idle exited failed : HealthState

-- `Health`, its time of the last event left to the caller who has it
pub record Health : Type 0 where
  pub state : HealthState
  pub active_tools : ℕ
  pub turn_id : String
  pub reason : String

-- the errors that `failureReason` knows, in its order
pub data Known : Type 0 where
  output_limit protocol event_backpressure turn_failed rejected unsupported transport closed : Known

abbrev pub code : Known → String
code output_limit = "output_limit"
code protocol = "protocol"
code event_backpressure = "event_backpressure"
code turn_failed = "turn_failed"
code rejected = "rejected"
code unsupported = "unsupported"
code transport = "transport"
code closed = "closed"

-- An error: the code of the `ProcessError` in its chain, if there is one, whether `workspaceStuck`
-- holds of it, and which of the known errors it wraps.
pub record Failure : Type 0 where
  pub process : Option String
  pub stuck : Bool
  pub is : Known → Bool

unfoldable pub known_code : (Known → Bool) → List Known → String
known_code is [] = "unknown"
known_code is (k ∷ ks) = let rest = known_code is ks in if is k then code k else rest

abbrev pub all_known : List Known
all_known =
    output_limit ∷ protocol ∷ event_backpressure ∷ turn_failed ∷ rejected ∷ unsupported ∷ transport
    ∷ closed ∷ []

-- `failureReason`
unfoldable pub failure_reason : Failure → String
unfolding known_code
failure_reason f = if f.stuck then "workspace_io_stuck" else known_code f.is all_known

-- The part of a `Session` that its health is read from. `since_last` is the time since the last event.
pub record Session : Type 0 where
  pub closed : Bool
  pub failure : Option Failure
  pub since_last : Option ℤ
  pub turn : Option Turn
  pub quiet_after : ℤ
  pub tools : Option Host

abbrev pub default_quiet : ℤ
default_quiet = pos (2 * 60 * 10 ^ 9)

abbrev pub quiet_limit : ℤ → ℤ
quiet_limit (pos zero) = default_quiet
quiet_limit (pos (suc n)) = pos (suc n)
quiet_limit (negsuc n) = default_quiet

abbrev pub tools_running : Option Host → ℕ
tools_running none = 0
tools_running (some h) = h.running

abbrev pub turn_name : Option Turn → String
turn_name none = ""
turn_name (some t) = t.id

abbrev pub in_turn : Option Turn → Bool
in_turn none = false
in_turn (some t) = not t.done

unfoldable pub is_recent : Option ℤ → ℤ → Bool
is_recent none quiet_after = false
is_recent (some elapsed) quiet_after = ltb_ℤ elapsed (quiet_limit quiet_after)

abbrev pub observed : Option ℤ → Bool
observed none = false
observed (some elapsed) = true

-- the state of a session that neither failed nor was closed
unfoldable pub live_state : Session → HealthState
unfolding is_recent
live_state s =
    if not (in_turn s.turn)
    then idle
    else if ltb 0 (tools_running s.tools) || is_recent s.since_last s.quiet_after
    then active
    else if observed s.since_last
    then quiet
    else running

abbrev pub ended_by : Failure → Option String → HealthState × String
ended_by f none = (failed, failure_reason f)
ended_by f (some code) = (exited, code)

unfoldable pub state_reason : Session → Option Failure → HealthState × String
unfolding live_state failure_reason
state_reason s (some f) = ended_by f f.process
state_reason s none = if s.closed then (exited, "process_exited") else (live_state s, "")

-- `Session.Health`
unfoldable pub health : Session → Health
unfolding state_reason
health s = record {
  state = (state_reason s s.failure).0;
  active_tools = tools_running s.tools;
  turn_id = turn_name s.turn;
  reason = (state_reason s s.failure).1;
}
