-- ===== src/Session/Host/World.antt =====
-- session/toolhost_admission.go: the goroutines that carry hosted calls, one worker to a call, and
-- their interleavings with the session's own operations on the host. A move is what a goroutine does
-- between two points at which another may run.
use lib_agent_harness.Prelude.{
  ℕ, String, Bool, true, false, ◌||◌, not, Option, none, some, List, [], ◌∷◌, ◌++◌, if◌then◌else◌,
  length, get_elem?, set,
}
use lib_agent_harness.Session.Host.{
  Host, Refusal, new, admit, retire, acquire, release, pause, close_admission, reopen, set_probing,
  latch, stop, announce_stop,
}

-- Where a worker stands in `execute`: before `acquire`, in its select, past the gate and before the
-- lock, in the handler, behind a closing handler's success, before `release`, before it frees the gate,
-- before `retire`, and gone.
pub data Stage : Type 0 where
  queued selecting holding running latching releasing freeing leaving retired : Stage

pub record Worker : Type 0 where
  pub key : String
  pub closing : Bool  -- of the tool's definition
  pub generation : ℕ
  pub cancelled : Bool
  pub stage : Stage

pub data Move : Type 0 where
  checks takes_gate withdraws sees_stop acquires : Move
  returns : Bool → Bool → Move  -- the result's `IsError`, or an error, and its `Closes`
  latches releases frees_gate retires : Move

abbrev at_stage : Worker → Stage → Worker
at_stage w s = record w { stage = s }

-- the first test of `acquire`
abbrev check_first : Worker → Worker
check_first w = at_stage w (if w.cancelled then leaving else selecting)

-- the three cases of its select, where they are ready
abbrev take_gate : Worker → Host → Host × Worker
take_gate w h = if h.gate then (h, w) else (record h { gate = true }, at_stage w holding)

abbrev acquired : Worker → Host × Option Refusal → Host × Worker
acquired w (h, none) = (h, at_stage w running)
acquired w (h, some refusal) = (h, at_stage w freeing)

-- A move that the worker's stage does not have changes nothing.
unfoldable pub move : ℕ → Move → Stage → Worker → Host → Host × Worker
unfolding acquire release latch retire
move call checks queued w h = (h, check_first w)
move call takes_gate selecting w h = take_gate w h
move call withdraws selecting w h = (h, if w.cancelled then at_stage w leaving else w)
move call sees_stop selecting w h = (h, if h.done then at_stage w leaving else w)
move call acquires holding w h = acquired w (acquire h w.cancelled w.generation)
move call (returns is_error closes) running w h = (
  h,
  at_stage w
      (if not is_error then (if w.closing || closes then latching else releasing) else releasing),
)
move call latches latching w h = (latch h, at_stage w releasing)
move call releases releasing w h = (release h, at_stage w freeing)
move call frees_gate freeing w h = (record h { gate = false }, at_stage w leaving)
move call retires leaving w h =
    (retire h w.key call, record w { stage = retired; cancelled = true })
move call _ _ w h = (h, w)

pub record World : Type 0 where
  pub host : Host
  pub workers : List Worker

-- What can happen next. A cancellation is that of a paused channel, of a harness that withdrew its call
-- or of a stopped session: each comes at its own time, so it may come at any.
pub data Action : Type 0 where
  requests : String → Bool → Action
  moves : ℕ → Move → Action
  cancels : ℕ → Action
  pauses closes_admission reopens stops announces_stop : Action
  probes : Bool → Action

admitted : World → String → Bool → Host × Option Refusal → World
admitted w key closing (h, some refusal) = w
admitted w key closing (h, none) = record w {
  host = h;
  workers =
      w.workers
      ++ record {
        key = key;
        closing = closing;
        generation = w.host.generation;
        cancelled = false;
        stage = queued;
      }
        ∷ [];
}

abbrev with_worker : World → ℕ → Host × Worker → World
with_worker w i (h, worker) = record { host = h; workers = set w.workers i worker }

unfoldable pub step : World → Action → World
unfolding admit admitted move pause close_admission reopen stop announce_stop set_probing
step w (requests key closing) = admitted w key closing (admit w.host key (length w.workers))
step w (moves i m) = elim (get_elem? w.workers i) [
  | none ↦ w
  | some worker ↦ with_worker w i (move i m worker.stage worker w.host)
]
step w (cancels i) = elim (get_elem? w.workers i) [
  | none ↦ w
  | some worker ↦ with_worker w i (w.host, record worker { cancelled = true })
]
step w pauses = record w { host = (pause w.host).0 }
step w closes_admission = record w { host = close_admission w.host }
step w reopens = record w { host = reopen w.host }
step w stops = record w { host = stop w.host }
step w announces_stop = record w { host = announce_stop w.host }
step w (probes on) = record w { host = set_probing on w.host }

unfoldable pub run : World → List Action → World
run w [] = w
run w (a ∷ acts) = run (step w a) acts

abbrev pub opened : World
opened = record { host = new; workers = [] }
