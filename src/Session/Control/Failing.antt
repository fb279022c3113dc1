-- ===== src/Session/Control/Failing.antt =====
-- session/session.go: `failTurn`, and how the other events leave it.
use lib_agent_harness.Prelude.{
  ℕ, String, Bool, true, false, not, ◌&&◌, Option, none, some, get_elem?, str_eq, ◌≡◌, refl, sym,
  ◌∙◌, if◌then◌else◌,
}
use lib_agent_harness.Session.Control.{
  compacts, rename, renamed, compacted_by, claim_idle, closed_error, Stage, resting, restarting,
  claimed, starting, requesting, waiting, cancelling, settling, finishing, Held, Control, Problem,
  is_done, claim, active_turn, with_ended, end_turn, is_other, fail_turn, Event, claims, opens,
  start_accepted, start_rejected, start_lost, controls, request_accepted, request_rejected,
  request_lost, sees_end, cancels_tools, sees_settled, gives_up, claimed_by, marked, mark, at_stage,
  asked, after_end, goes_on, is_claimed,
}

-- How an event leaves the closing of the session, unless it is a step of it.
pub data Failing (c : Control) : Control → Type 0 where
  still : {c' : Control} → c'.closing ≡ c.closing → c'.closed ≡ c.closed → Failing c c'
  fails_now :
      {c' : Control} (err : String)
      → c.closed ≡ false
      → c'.closed ≡ true
      → c'.closing ≡ finishing c'.active err
      → is_claimed c'.stage ≡ false
      → Failing c c'

Failing-either :
    (c d e : Control) (b : Bool) → Failing c d → Failing c e → Failing c (if b then d else e)
Failing-either c d e true p q = p
Failing-either c d e false p q = q

pub fail_turn-Failing :
    (c : Control) (expected : Option ℕ) (err : String)
    → is_claimed c.stage ≡ false
    → Failing c (fail_turn c expected err)
unfolding fail_turn
fail_turn-Failing c expected err free = each (is_other c expected) c.closed refl
  where
    each :
        (b closed : Bool)
        → c.closed ≡ closed
        → Failing c (
            if b then c else if closed then c else record c {
              closed = true;
              failure =
                  if str_eq c.failure "" && not (str_eq err closed_error) then err else c.failure;
              closing = finishing c.active err;
            })
    each true closed e = still refl refl
    each false true e = still refl refl
    each false false e = fails_now err e refl refl free

pub end_turn-Failing :
    (c : Control) (i : ℕ) (status err : String) → Failing c (end_turn c i status err)
unfolding end_turn
end_turn-Failing c i status err = each (get_elem? c.turns i)
  where
    each : (o : Option Held) → Failing c (with_ended c i status err o)
    each none = still refl refl
    each (some h) = still refl refl

mark-Failing : (c : Control) (i : ℕ) (b : Bool) → Failing c (mark c i b)
mark-Failing c i b = each (get_elem? c.turns i)
  where
    each : (o : Option Held) → Failing c (marked c i b o)
    each none = still refl refl
    each (some h) = still refl refl

Failing-after :
    (c d e : Control) → d.closing ≡ c.closing → d.closed ≡ c.closed → Failing d e → Failing c e
Failing-after c d e p q (still r s) = still (r ∙ p) (s ∙ q)
Failing-after c d e p q (fails_now err a b r s) = fails_now err (sym q ∙ a) b r s

Failing-mark : (c : Control) (i : ℕ) (e : Control) → Failing (mark c i false) e → Failing c e
Failing-mark c i e f = each (get_elem? c.turns i) f
  where
    each : (o : Option Held) → Failing (marked c i false o) e → Failing c e
    each none f = f
    each (some h) f = Failing-after c (marked c i false (some h)) e refl refl f

asked-Failing :
    (c : Control) (steering : Bool) (o : Option ℕ) (p : Option Problem)
    → Failing c (asked c steering o p)
asked-Failing c steering (some i) none = each (get_elem? c.turns i)
  where
    each : (o : Option Held) → Failing c (at_stage (marked c i true o) (requesting i steering))
    each none = still refl refl
    each (some h) = still refl refl
asked-Failing c steering (some i) (some p) = still refl refl
asked-Failing c steering none p = still refl refl

claimed_by-Failing : (c : Control) (o : Option Problem) → Failing c (claimed_by c o)
claimed_by-Failing c none = still refl refl
claimed_by-Failing c (some problem) = still refl refl

compacted_by-Failing :
    (c : Control) (capacity : ℕ) (o : Option Problem) → Failing c (compacted_by c capacity o)
compacted_by-Failing c capacity none = still refl refl
compacted_by-Failing c capacity (some problem) = still refl refl

pub rename-Failing : (c : Control) (i : ℕ) (id : String) → Failing c (rename c i id)
rename-Failing c i id = each (get_elem? c.turns i)
  where
    each : (o : Option Held) → Failing c (renamed c i id o)
    each none = still refl refl
    each (some h) = still refl refl

pub goes_on-Failing : (c : Control) (s : Stage) (e : Event) → Failing c (goes_on c s e)
unfolding goes_on
goes_on-Failing c resting claims = claimed_by-Failing c (claim c)
goes_on-Failing c resting (compacts capacity) = compacted_by-Failing c capacity (claim_idle c)
goes_on-Failing c restarting claims = claimed_by-Failing c (claim c)
goes_on-Failing c claimed (opens id capacity) = still refl refl
goes_on-Failing c restarting gives_up = still refl refl
goes_on-Failing c (starting i) start_accepted = still refl refl
goes_on-Failing c (starting i) (start_rejected err) =
    Failing-after c (at_stage c resting) (end_turn (at_stage c resting) i "rejected" err) refl refl
      (end_turn-Failing (at_stage c resting) i "rejected" err)
goes_on-Failing c (starting i) (start_lost err) =
    Failing-after c (at_stage c resting) (fail_turn (at_stage c resting) none err) refl refl
      (fail_turn-Failing (at_stage c resting) none err refl)
goes_on-Failing c resting (controls expected steering) =
    asked-Failing c steering c.active (active_turn c expected)
goes_on-Failing c (requesting i steering) request_accepted = still refl refl
goes_on-Failing c (requesting i steering) request_rejected =
    Failing-mark c i (at_stage (mark c i false) resting) (still refl refl)
goes_on-Failing c (requesting i steering) (request_lost err) =
    Failing-mark c i (fail_turn (at_stage (mark c i false) resting) none err) (
      Failing-after (mark c i false) (at_stage (mark c i false) resting)
        (fail_turn (at_stage (mark c i false) resting) none err) refl refl
        (fail_turn-Failing (at_stage (mark c i false) resting) none err refl))
goes_on-Failing c (waiting i steering) sees_end =
    Failing-either c (at_stage c (after_end steering (get_elem? c.turns i))) c
      (is_done (get_elem? c.turns i)) (still refl refl) (still refl refl)
goes_on-Failing c (waiting i steering) gives_up = still refl refl
goes_on-Failing c cancelling cancels_tools = still refl refl
goes_on-Failing c settling sees_settled =
    Failing-either c (at_stage c restarting) c c.world.host.settled (still refl refl)
      (still refl refl)
goes_on-Failing c settling gives_up = still refl refl
goes_on-Failing c s e = still refl refl
