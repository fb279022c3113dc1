-- ===== src/Session/Control/Progress.antt =====
-- session/control.go: what an event does to the turns of a session.
use lib_agent_harness.Prelude.{
  ◌⊎◌, inl, inr, ℕ, String, Bool, true, false, Option, none, some, get_elem?, ◌≡◌, refl, ap, arith,
}
use lib_agent_harness.Session.Host.World.{World, step, reopens}
use lib_agent_harness.Session.Turn.{started}
use lib_agent_harness.Session.Control.{
  names, compacts, rename, renamed, compacted_by, begun, claim_idle, Stage, resting, restarting,
  claimed, starting, requesting, waiting, cancelling, settling, Closing, finishing, stopping,
  announcing, Held, Control, Problem, is_done, claim, active_turn, end_turn, fail_turn, Event,
  hosts, finishes, claims, opens, start_accepted, start_rejected, start_lost, controls,
  request_accepted, request_rejected, request_lost, sees_end, cancels_tools, sees_settled, gives_up,
  fails, finishes_failed, stops_host, announces, claimed_by, mark, at_stage, after_end, goes_on,
  is_claimed, closes_on, act,
}
use lib_agent_harness.Session.Control.Keeping.{
  Calmer-refl, Calmer-set, Keeps, Keeps-trans, Keeps-refl, at_stage-Keeps, end_turn-Keeps,
  mark-Keeps, fail_turn-Keeps, asked-Keeps, after_end-unclaimed, Keeps-either,
}

-- What an event does to the turns: it keeps them, it authorises a turn, or it begins one.
pub data Progress (c : Control) : Control → Type 0 where
  keeps : {c' : Control} → Keeps c c' → Progress c c'
  authorises : claim c ≡ none → Progress c (at_stage c claimed)
  begins :
      (w : World) (id : String) (capacity : ℕ) (tools : Bool)
      → (is_claimed c.stage ≡ true) ⊎ (claim_idle c ≡ none)
      → Progress c (begun (record c { world = w }) (started id capacity tools))

claimed_by-Progress : (c : Control) (o : Option Problem) → claim c ≡ o → Progress c (claimed_by c o)
claimed_by-Progress c none e = authorises e
claimed_by-Progress c (some problem) e = keeps (at_stage-Keeps c resting refl)

compacted_by-Progress :
    (c : Control) (capacity : ℕ) (o : Option Problem)
    → claim_idle c ≡ o
    → Progress c (compacted_by c capacity o)
compacted_by-Progress c capacity none e = begins c.world "" capacity false (inr e)
compacted_by-Progress c capacity (some problem) e = keeps (Keeps-refl c)

rename-Keeps : (c : Control) (i : ℕ) (id : String) → Keeps c (rename c i id)
rename-Keeps c i id = each (get_elem? c.turns i) refl
  where
    each : (o : Option Held) → get_elem? c.turns i ≡ o → Keeps c (renamed c i id o)
    each none at = Keeps-refl c
    each (some h) at = record {
      active = refl;
      turns =
          Calmer-set c.turns i h (record h { turn = record h.turn { id = id; result_id = id } }) at
            (record { synced = λ s. s; unfinished = λ u. u });
      stage = λ s. s;
    }

rests : (c : Control) → Progress c (at_stage c resting)
rests c = keeps (at_stage-Keeps c resting refl)

fails_resting : (c : Control) (err : String) → Keeps c (fail_turn (at_stage c resting) none err)
fails_resting c err =
    Keeps-trans c (at_stage c resting) (fail_turn (at_stage c resting) none err)
      (at_stage-Keeps c resting refl) (fail_turn-Keeps (at_stage c resting) none err)

goes_on-Progress : (c : Control) (s : Stage) (e : Event) → c.stage ≡ s → Progress c (goes_on c s e)
unfolding goes_on
goes_on-Progress c resting claims at = claimed_by-Progress c (claim c) refl
goes_on-Progress c resting (compacts capacity) at =
    compacted_by-Progress c capacity (claim_idle c) refl
goes_on-Progress c restarting claims at = claimed_by-Progress c (claim c) refl
goes_on-Progress c claimed (opens id capacity) at =
    begins (step c.world reopens) id capacity true (inl (ap is_claimed at))
goes_on-Progress c restarting gives_up at = rests c
goes_on-Progress c (starting i) start_accepted at = rests c
goes_on-Progress c (starting i) (start_rejected err) at = keeps (
    Keeps-trans c (at_stage c resting) (end_turn (at_stage c resting) i "rejected" err)
      (at_stage-Keeps c resting refl) (end_turn-Keeps (at_stage c resting) i "rejected" err))
goes_on-Progress c (starting i) (start_lost err) at = keeps (fails_resting c err)
goes_on-Progress c resting (controls expected steering) at =
    keeps (asked-Keeps c steering c.active (active_turn c expected))
goes_on-Progress c (requesting i steering) request_accepted at =
    keeps (at_stage-Keeps c (waiting i steering) refl)
goes_on-Progress c (requesting i steering) request_rejected at = keeps (
    Keeps-trans c (mark c i false) (at_stage (mark c i false) resting) (mark-Keeps c i false)
      (at_stage-Keeps (mark c i false) resting refl))
goes_on-Progress c (requesting i steering) (request_lost err) at = keeps (
    Keeps-trans c (mark c i false) (fail_turn (at_stage (mark c i false) resting) none err)
      (mark-Keeps c i false) (fails_resting (mark c i false) err))
goes_on-Progress c (waiting i steering) sees_end at = keeps (
    Keeps-either c (at_stage c (after_end steering (get_elem? c.turns i))) c
      (is_done (get_elem? c.turns i))
      (at_stage-Keeps c (after_end steering (get_elem? c.turns i))
        (after_end-unclaimed steering (get_elem? c.turns i)))
      (Keeps-refl c))
goes_on-Progress c (waiting i steering) gives_up at = rests c
goes_on-Progress c cancelling cancels_tools at =
    keeps (record {
      active = refl;
      turns = Calmer-refl c.turns;
      stage = λ s. absurd (ground (arith, s));
    })
goes_on-Progress c settling sees_settled at = keeps (
    Keeps-either c (at_stage c restarting) c c.world.host.settled (at_stage-Keeps c restarting refl)
      (Keeps-refl c))
goes_on-Progress c settling gives_up at = rests c
goes_on-Progress c s e at = keeps (Keeps-refl c)

pub closes_on-Keeps : (c : Control) (s : Closing) (e : Event) → Keeps c (closes_on c s e)
unfolding closes_on
closes_on-Keeps c (finishing none err) finishes_failed = record {
  active = refl;
  turns = Calmer-refl c.turns;
  stage = λ s. s;
}
closes_on-Keeps c (finishing (some i) err) finishes_failed =
    Keeps-trans c (record c { closing = stopping })
      (end_turn (record c { closing = stopping }) i "failed" err)
      (record { active = refl; turns = Calmer-refl c.turns; stage = λ s. s })
      (end_turn-Keeps (record c { closing = stopping }) i "failed" err)
closes_on-Keeps c stopping stops_host = record {
  active = refl;
  turns = Calmer-refl c.turns;
  stage = λ s. s;
}
closes_on-Keeps c announcing announces = record {
  active = refl;
  turns = Calmer-refl c.turns;
  stage = λ s. s;
}
closes_on-Keeps c s e = Keeps-refl c

pub act-Progress : (c : Control) (e : Event) → Progress c (act c e)
unfolding act
act-Progress c (hosts x) =
    keeps (record { active = refl; turns = Calmer-refl c.turns; stage = λ s. s })
act-Progress c (names i id) = keeps (rename-Keeps c i id)
act-Progress c (finishes i status err) = keeps (end_turn-Keeps c i status err)
act-Progress c (fails expected err) = keeps (
    Keeps-either c c (fail_turn c expected err) (is_claimed c.stage) (Keeps-refl c)
      (fail_turn-Keeps c expected err))
act-Progress c finishes_failed = keeps (closes_on-Keeps c c.closing finishes_failed)
act-Progress c stops_host = keeps (closes_on-Keeps c c.closing stops_host)
act-Progress c announces = keeps (closes_on-Keeps c c.closing announces)
act-Progress c e = goes_on-Progress c c.stage e refl
