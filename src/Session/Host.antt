-- ===== src/Session/Host.antt =====
-- session/toolhost.go and session/toolhost_admission.go: the state of a session's tool host and its
-- operations. Each function here is one critical section under the host's mutex. A call is known by
-- its number in the order of admission, which stands for the pointer to its `hostedCall`.
pub mod World
pub mod Serial
pub mod Starts
pub mod Settlement
use lib_agent_harness.Prelude.{
  ℕ, ◌+◌, ◌-◌, ◌%◌, ◌^◌, String, Bool, true, false, ◌&&◌, ◌||◌, Option, none, some, List, [], ◌∷◌,
  ◌==◌, str_eq, if◌then◌else◌,
}

-- Why a call was not run; `unknown` and `malformed` are decided before admission.
pub data Refusal : Type 0 where
  malformed unknown stopped probing channel_closed paused cancelled superseded : Refusal

pub record Host : Type 0 where
  pub closed : Bool
  pub probing : Bool
  pub stopped : Bool
  pub paused : Bool
  pub running : ℕ
  -- requests and the calls that they were admitted as
  pub pending : List (String × ℕ)
  pub generation : ℕ  -- uint64
  -- whether the channels `settled` and `done` are closed, and whether the gate's one place is taken
  pub settled : Bool
  pub done : Bool
  pub gate : Bool

-- the state that `newToolHost` and `newDirectToolHost` make
abbrev pub new : Host
new = record {
  closed = false;
  probing = false;
  stopped = false;
  paused = false;
  running = 0;
  pending = [];
  generation = 0;
  settled = true;
  done = false;
  gate = false;
}

abbrev pub lookup : String → List (String × ℕ) → Option ℕ
lookup k [] = none
lookup k ((j, v) ∷ m) = if str_eq j k then some v else lookup k m

-- `delete(m, k)`, and `m[k] = v`
abbrev pub without : String → List (String × ℕ) → List (String × ℕ)
without k [] = []
without k ((j, v) ∷ m) = let rest = without k m in if str_eq j k then rest else (j, v) ∷ rest

abbrev pub is_empty : List (String × ℕ) → Bool
is_empty [] = true
is_empty (_ ∷ _) = false

-- `settledLocked`
unfoldable pub is_settled : Host → Bool
is_settled h = h.running == 0 && is_empty h.pending

-- `trackSettlementLocked`: an open channel is closed, and a closed one is replaced by an open one
unfoldable pub track_settlement : Host → Host
unfolding is_settled
track_settlement h =
    let idle = is_settled h in
    if h.settled
    then (if idle then h else record h { settled = false })
    else (if idle then record h { settled = true } else h)

-- `barrierLocked`
unfoldable pub barrier : Host → Option Refusal
barrier h =
    if h.stopped
    then some stopped
    else if h.probing
    then some probing
    else if h.closed
    then some channel_closed
    else if h.paused
    then some paused
    else none

-- `admit`, for the call that will have this number
unfoldable pub admit : Host → String → ℕ → Host × Option Refusal
unfolding barrier track_settlement
admit h request call = elim (barrier h) [
  | some refusal ↦ (h, some refusal)
  | none ↦
      (track_settlement (record h { pending = (request, call) ∷ without request h.pending }), none)
]

-- whether `pending[key]` is this very call
abbrev pub is_call : Option ℕ → ℕ → Bool
is_call none call = false
is_call (some existing) call = existing == call

-- `retire`
unfoldable pub retire : Host → String → ℕ → Host
unfolding track_settlement
retire h key call = track_settlement (
    if is_call (lookup key h.pending) call then record h { pending = without key h.pending } else h)

-- the part of `acquire` under the lock: the refusal, or the host with one more call running
unfoldable pub acquire : Host → Bool → ℕ → Host × Option Refusal
unfolding barrier track_settlement
acquire h withdrawn generation = elim (barrier h) [
  | some refusal ↦ (h, some refusal)
  | none ↦
      if withdrawn
      then (h, some cancelled)
      else if generation == h.generation
      then (track_settlement (record h { running = h.running + 1 }), none)
      else (h, some superseded)
]

-- the part of `release` under the lock
unfoldable pub release : Host → Host
unfolding track_settlement
release h = track_settlement (record h { running = h.running - 1 })

-- `pause`, with the calls that it goes on to cancel
unfoldable pub pause : Host → Host × List (String × ℕ)
pause h = (record h { paused = true }, h.pending)

unfoldable pub close_admission : Host → Host
close_admission h = record h { paused = true }

unfoldable pub ready_for_work : Host → Bool
unfolding is_settled
ready_for_work h = is_settled h

unfoldable pub reopen : Host → Host
reopen h =
    if h.closed || h.stopped
    then h
    else record h { paused = false; generation = (h.generation + 1) % 2 ^ 64 }

unfoldable pub set_probing : Bool → Host → Host
set_probing on h = record h { probing = on }

-- a closing tool that succeeded, in `execute`
unfoldable pub latch : Host → Host
latch h = record h { closed = true }

-- `close`: the host stops, and then announces it
unfoldable pub stop : Host → Host
stop h = record h { stopped = true }

unfoldable pub announce_stop : Host → Host
announce_stop h = if h.stopped then record h { done = true } else h
