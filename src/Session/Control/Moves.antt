-- ===== src/Session/Control/Moves.antt =====
-- session/control.go: what a session does to its tool host.
use lib_agent_harness.Prelude.{
  ℕ, String, Bool, true, false, not, ◌&&◌, str_eq, Option, none, some, get_elem?, ◌≡◌, refl,
  if◌then◌else◌,
}
use lib_agent_harness.Session.Host.World.{
  World, Action, closes_admission, reopens, stops, announces_stop, pauses, step,
}
use lib_agent_harness.Session.Control.{
  names, compacts, rename, renamed, compacted_by, claim_idle, closed_error, Stage, resting,
  restarting, claimed, starting, requesting, waiting, cancelling, settling, Closing, finishing,
  stopping, announcing, Held, Control, Problem, active_turn, claim, with_ended, end_turn, is_other,
  fail_turn, Event, hosts, finishes, claims, opens, start_rejected, start_lost, controls,
  request_rejected, request_lost, sees_end, cancels_tools, sees_settled, fails, finishes_failed,
  stops_host, announces, claimed_by, marked, mark, at_stage, asked, after_end, goes_on, is_claimed,
  closes_on, act, is_done,
}

-- A property of the host and its workers that the session's own actions keep.
pub record IsKept (P : World → Type 0) : Type 0 where
  pub when_paused : (w : World) → P w → P (step w pauses)
  pub when_shut : (w : World) → P w → P (step w closes_admission)
  pub when_reopened : (w : World) → P w → P (step w reopens)
  pub when_stopped : (w : World) → P w → P (step w stops)
  pub when_announced : (w : World) → P w → P (step w announces_stop)

module _ (P : World → Type 0) (k : IsKept P) where
  end_turn-world :
      (c : Control) (i : ℕ) (status err : String) → P c.world → P (end_turn c i status err).world
  unfolding end_turn
  end_turn-world c i status err p = each (get_elem? c.turns i)
    where
      each : (o : Option Held) → P (with_ended c i status err o).world
      each none = p
      each (some h) = either h.turn.finished h.turn.closes_tools
        where
          either :
              (finished tools : Bool)
              → P (
                  if finished
                  then c.world
                  else if tools
                  then step c.world closes_admission
                  else c.world)
          either true tools = p
          either false true = k.when_shut c.world p
          either false false = p

  rename-world : (c : Control) (i : ℕ) (id : String) → P c.world → P (rename c i id).world
  rename-world c i id p = each (get_elem? c.turns i)
    where
      each : (o : Option Held) → P (renamed c i id o).world
      each none = p
      each (some h) = p

  compacted_by-world :
      (c : Control) (capacity : ℕ) (o : Option Problem)
      → P c.world
      → P (compacted_by c capacity o).world
  compacted_by-world c capacity none p = p
  compacted_by-world c capacity (some problem) p = p

  either-world : (b : Bool) (c d : Control) → P c.world → P d.world → P (if b then c else d).world
  either-world true c d p q = p
  either-world false c d p q = q

  fail_turn-world :
      (c : Control) (expected : Option ℕ) (err : String)
      → P c.world
      → P (fail_turn c expected err).world
  unfolding fail_turn
  fail_turn-world c expected err p = each (is_other c expected) c.closed
    where
      each :
          (b closed : Bool)
          → P
              (if b then c else if closed then c else record c {
                closed = true;
                failure =
                    if str_eq c.failure "" && not (str_eq err closed_error) then err else c.failure;
                closing = finishing c.active err;
              }).world
      each true closed = p
      each false true = p
      each false false = p

  mark-world : (c : Control) (i : ℕ) (b : Bool) → P c.world → P (mark c i b).world
  mark-world c i b p = each (get_elem? c.turns i)
    where
      each : (o : Option Held) → P (marked c i b o).world
      each none = p
      each (some h) = p

  asked-world :
      (c : Control) (steering : Bool) (o : Option ℕ) (q : Option Problem)
      → P c.world
      → P (asked c steering o q).world
  asked-world c steering (some i) none p = mark-world c i true p
  asked-world c steering (some i) (some q) p = p
  asked-world c steering none q p = p

  claimed_by-world : (c : Control) (q : Option Problem) → P c.world → P (claimed_by c q).world
  claimed_by-world c none p = p
  claimed_by-world c (some q) p = p

  goes_on-world : (c : Control) (s : Stage) (e : Event) → P c.world → P (goes_on c s e).world
  unfolding goes_on
  goes_on-world c resting claims p = claimed_by-world c (claim c) p
  goes_on-world c resting (compacts capacity) p = compacted_by-world c capacity (claim_idle c) p
  goes_on-world c restarting claims p = claimed_by-world c (claim c) p
  goes_on-world c claimed (opens id capacity) p = k.when_reopened c.world p
  goes_on-world c (starting i) (start_rejected err) p =
      end_turn-world (at_stage c resting) i "rejected" err p
  goes_on-world c (starting i) (start_lost err) p = fail_turn-world (at_stage c resting) none err p
  goes_on-world c resting (controls expected steering) p =
      asked-world c steering c.active (active_turn c expected) p
  goes_on-world c (requesting i steering) request_rejected p = mark-world c i false p
  goes_on-world c (requesting i steering) (request_lost err) p =
      fail_turn-world (at_stage (mark c i false) resting) none err (mark-world c i false p)
  goes_on-world c (waiting i steering) sees_end p =
      either-world (is_done (get_elem? c.turns i))
        (at_stage c (after_end steering (get_elem? c.turns i))) c p p
  goes_on-world c cancelling cancels_tools p = k.when_paused c.world p
  goes_on-world c settling sees_settled p =
      either-world c.world.host.settled (at_stage c restarting) c p p
  goes_on-world c s e p = p

  closes_on-world : (c : Control) (s : Closing) (e : Event) → P c.world → P (closes_on c s e).world
  unfolding closes_on
  closes_on-world c (finishing none err) finishes_failed p = p
  closes_on-world c (finishing (some i) err) finishes_failed p =
      end_turn-world (record c { closing = stopping }) i "failed" err p
  closes_on-world c stopping stops_host p = k.when_stopped c.world p
  closes_on-world c announcing announces p = k.when_announced c.world p
  closes_on-world c s e p = p

  -- An event keeps the property, if it does as an action of the host.
  pub act-world :
      (c : Control) (e : Event)
      → P c.world
      → ((a : Action) → e ≡ hosts a → P (step c.world a))
      → P (act c e).world
  unfolding act
  act-world c (hosts a) p own = own a refl
  act-world c (finishes i status err) p own = end_turn-world c i status err p
  act-world c (names i id) p own = rename-world c i id p
  act-world c (fails expected err) p own =
      either-world (is_claimed c.stage) c (fail_turn c expected err) p
        (fail_turn-world c expected err p)
  act-world c finishes_failed p own = closes_on-world c c.closing finishes_failed p
  act-world c stops_host p own = closes_on-world c c.closing stops_host p
  act-world c announces p own = closes_on-world c c.closing announces p
  act-world c e p own = goes_on-world c c.stage e p
