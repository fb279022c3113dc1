-- ===== src/Session/Control/Shut.antt =====
-- session/control.go over toolhost_admission.go: between turns the tool channel is shut.
use lib_agent_harness.Prelude.{
  ℕ, zero, suc, String, Bool, true, false, not, ◌&&◌, str_eq, Option, none, some, List, [], ◌∷◌,
  length, get_elem?, set, get_elem?-snoc_last, All, ◌≡◌, refl, sym, ap, subst, ◌∙◌, inl, inr, arith,
  if◌then◌else◌,
}
use lib_agent_harness.Session.Turn.{Turn, finish, started}
use lib_agent_harness.Session.Host.World.{
  World, Action, pauses, closes_admission, stops, announces_stop, step,
}
use lib_agent_harness.Session.Host.Starts.Never.{is_reopening, step-paused}
use lib_agent_harness.Session.Control.{
  names, compacts, claim_idle, renamed, rename, begun, compacted_by, closed_error, Stage, resting,
  restarting, claimed, starting, requesting, waiting, cancelling, settling, Closing, finishing,
  stopping, announcing, over, Held, Control, Problem, active_turn, claim, with_ended, end_turn,
  is_other, fail_turn, Event, hosts, finishes, claims, opens, start_rejected, start_lost, controls,
  request_rejected, request_lost, sees_end, cancels_tools, sees_settled, fails, finishes_failed,
  stops_host, announces, claimed_by, marked, mark, at_stage, asked, after_end, goes_on, is_claimed,
  closes_on, act, history, is_done, opened,
}
use lib_agent_harness.Session.Control.Tooled.{
  IsUntooled, IsUnder, IsShut, IsShut-set, IsShut-set_untooled, IsShut-snoc,
}

All-get :
    (P : Held → Type 0) (ts : List Held) (i : ℕ) (h : Held)
    → All P ts
    → get_elem? ts i ≡ some h
    → P h
All-get P [] i h a at = absurd (ground (arith, at))
All-get P (t ∷ ts) zero h (p, ps) at = subst P (some_inj at) p
  where
    some_inj : some t ≡ some h → t ≡ h
    some_inj q = cc
All-get P (t ∷ ts) (suc i) h (p, ps) at = All-get P ts i h ps at

shut_pauses : (w : World) → (step w closes_admission).host.paused ≡ true
unfolding step
shut_pauses w = ground arith

finish-closes_tools :
    (t : Turn) (status err : String) → (finish t status err).closes_tools ≡ t.closes_tools
unfolding finish
finish-closes_tools t status err = ground arith

-- The end of a turn that reopened the channel pauses it, if the turn is under way.
end_turn-IsShut :
    (c : Control) (i : ℕ) (status err : String) → IsShut c → IsShut (end_turn c i status err)
unfolding end_turn
end_turn-IsShut c i status err s = each (get_elem? c.turns i) refl
  where
    after : Held → Held
    after h = record h { turn = finish h.turn status err }

    ended :
        (h : Held) (finished tools : Bool)
        → h.turn.finished ≡ finished
        → h.turn.closes_tools ≡ tools
        → get_elem? c.turns i ≡ some h
        → IsShut (record c {
          turns = set c.turns i (after h);
          world =
              if finished
              then c.world
              else if tools
              then step c.world closes_admission
              else c.world;
        })
    ended h true tools f o at =
        IsShut-set c i h (after h) at (finish-closes_tools h.turn status err)
          (λ u. absurd (ground (arith, f, u))) s
    ended h false true f o at = inr (inr (shut_pauses c.world))
    ended h false false f o at =
        IsShut-set_untooled c i h (after h) at o (finish-closes_tools h.turn status err ∙ o) s

    each : (o : Option Held) → get_elem? c.turns i ≡ o → IsShut (with_ended c i status err o)
    each none at = s
    each (some h) at = ended h h.turn.finished h.turn.closes_tools refl refl at

rename-IsShut : (c : Control) (i : ℕ) (id : String) → IsShut c → IsShut (rename c i id)
rename-IsShut c i id s = each (get_elem? c.turns i) refl
  where
    each : (o : Option Held) → get_elem? c.turns i ≡ o → IsShut (renamed c i id o)
    each none at = s
    each (some h) at =
        IsShut-set c i h (record h { turn = record h.turn { id = id; result_id = id } }) at refl
          (λ u. u) s

compacted_by-IsShut :
    (c : Control) (capacity : ℕ) (o : Option Problem)
    → IsShut c
    → IsShut (compacted_by c capacity o)
compacted_by-IsShut c capacity none s =
    IsShut-snoc c (begun c (started "" capacity false))
      (record { turn = started "" capacity false; interrupt_requested = false }) refl refl refl s
compacted_by-IsShut c capacity (some problem) s = s

mark-IsShut : (c : Control) (i : ℕ) (b : Bool) → IsShut c → IsShut (mark c i b)
mark-IsShut c i b s = each (get_elem? c.turns i) refl
  where
    each : (o : Option Held) → get_elem? c.turns i ≡ o → IsShut (marked c i b o)
    each none at = s
    each (some h) at = IsShut-set c i h (record h { interrupt_requested = b }) at refl (λ u. u) s

either-IsShut : (b : Bool) (c d : Control) → IsShut c → IsShut d → IsShut (if b then c else d)
either-IsShut true c d p q = p
either-IsShut false c d p q = q

-- An action of the host that is no reopening keeps the channel paused.
host-IsShut :
    (c d : Control) (a : Action)
    → is_reopening a ≡ false
    → d.turns ≡ c.turns
    → d.world ≡ step c.world a
    → IsShut c
    → IsShut d
host-IsShut c d a r same moved (inl none_yet) = inl (subst (All IsUntooled) (sym same) none_yet)
host-IsShut c d a r same moved (inr (inl under)) = inr (inl (subst IsUnder (sym same) under))
host-IsShut c d a r same moved (inr (inr p)) =
    inr (inr (ap (λ w. w.host.paused) moved ∙ step-paused c.world a r p))

fail_turn-IsShut :
    (c : Control) (expected : Option ℕ) (err : String)
    → IsShut c
    → IsShut (fail_turn c expected err)
unfolding fail_turn
fail_turn-IsShut c expected err s =
    either-IsShut (is_other c expected) c (if c.closed then c else failed) s
      (either-IsShut c.closed c failed s s)
  where
    failed : Control
    failed = record c {
      closed = true;
      failure = if str_eq c.failure "" && not (str_eq err closed_error) then err else c.failure;
      closing = finishing c.active err;
    }

claimed_by-IsShut : (c : Control) (q : Option Problem) → IsShut c → IsShut (claimed_by c q)
claimed_by-IsShut c none s = s
claimed_by-IsShut c (some p) s = s

asked-IsShut :
    (c : Control) (steering : Bool) (o : Option ℕ) (q : Option Problem)
    → IsShut c
    → IsShut (asked c steering o q)
asked-IsShut c steering (some i) none s = mark-IsShut c i true s
asked-IsShut c steering (some i) (some q) s = s
asked-IsShut c steering none q s = s

goes_on-IsShut : (c : Control) (p : Stage) (e : Event) → IsShut c → IsShut (goes_on c p e)
unfolding goes_on
goes_on-IsShut c resting claims s = claimed_by-IsShut c (claim c) s
goes_on-IsShut c resting (compacts capacity) s = compacted_by-IsShut c capacity (claim_idle c) s
goes_on-IsShut c restarting claims s = claimed_by-IsShut c (claim c) s
goes_on-IsShut c claimed (opens id capacity) s = inr (
    inl (
      length c.turns,
      record { turn = started id capacity true; interrupt_requested = false },
      get_elem?-snoc_last c.turns
          (record { turn = started id capacity true; interrupt_requested = false }),
      refl,
      refl,
    ))
goes_on-IsShut c (starting i) (start_rejected err) s =
    end_turn-IsShut (at_stage c resting) i "rejected" err s
goes_on-IsShut c (starting i) (start_lost err) s = fail_turn-IsShut (at_stage c resting) none err s
goes_on-IsShut c resting (controls expected steering) s =
    asked-IsShut c steering c.active (active_turn c expected) s
goes_on-IsShut c (requesting i steering) request_rejected s = mark-IsShut c i false s
goes_on-IsShut c (requesting i steering) (request_lost err) s =
    fail_turn-IsShut (at_stage (mark c i false) resting) none err (mark-IsShut c i false s)
goes_on-IsShut c (waiting i steering) sees_end s =
    either-IsShut (is_done (get_elem? c.turns i))
      (at_stage c (after_end steering (get_elem? c.turns i))) c s s
goes_on-IsShut c cancelling cancels_tools s =
    host-IsShut c (record c { world = step c.world pauses; stage = settling }) pauses refl refl refl
      s
goes_on-IsShut c settling sees_settled s =
    either-IsShut c.world.host.settled (at_stage c restarting) c s s
goes_on-IsShut c p e s = s

closes_on-IsShut : (c : Control) (p : Closing) (e : Event) → IsShut c → IsShut (closes_on c p e)
unfolding closes_on
closes_on-IsShut c (finishing none err) finishes_failed s = s
closes_on-IsShut c (finishing (some i) err) finishes_failed s =
    end_turn-IsShut (record c { closing = stopping }) i "failed" err s
closes_on-IsShut c stopping stops_host s =
    host-IsShut c (record c { world = step c.world stops; closing = announcing }) stops refl refl
      refl s
closes_on-IsShut c announcing announces s =
    host-IsShut c (record c { world = step c.world announces_stop; closing = over }) announces_stop
      refl refl refl s
closes_on-IsShut c p e s = s

-- whether the caller reopens the channel, by `ResumeTools`
abbrev pub resumes : Event → Bool
resumes (hosts a) = is_reopening a
resumes _ = false

act-IsShut : (c : Control) (e : Event) → resumes e ≡ false → IsShut c → IsShut (act c e)
unfolding act
act-IsShut c (hosts a) r s = host-IsShut c (record c { world = step c.world a }) a r refl refl s
act-IsShut c (finishes i status err) r s = end_turn-IsShut c i status err s
act-IsShut c (names i id) r s = rename-IsShut c i id s
act-IsShut c (fails expected err) r s =
    either-IsShut (is_claimed c.stage) c (fail_turn c expected err) s
      (fail_turn-IsShut c expected err s)
act-IsShut c finishes_failed r s = closes_on-IsShut c c.closing finishes_failed s
act-IsShut c stops_host r s = closes_on-IsShut c c.closing stops_host s
act-IsShut c announces r s = closes_on-IsShut c c.closing announces s
act-IsShut c e r s = goes_on-IsShut c c.stage e s

history-IsShut :
    (c : Control) (es : List Event)
    → All (λ e. resumes e ≡ false) es
    → IsShut c
    → IsShut (history c es)
unfolding history
history-IsShut c [] r s = s
history-IsShut c (e ∷ es) (r, rs) s = history-IsShut (act c e) es rs (act-IsShut c e r s)

-- Unless the caller resumes the tools, the channel is paused whenever every turn has ended and one of
-- them was no compaction: its end, of whatever kind, has shut it, and no compaction reopens it.
pub shut_between_turns :
    (es : List Event) (i : ℕ) (h : Held)
    → All (λ e. resumes e ≡ false) es
    → All (λ t. t.turn.finished ≡ true) (history opened es).turns
    → get_elem? (history opened es).turns i ≡ some h
    → h.turn.closes_tools ≡ true
    → (history opened es).world.host.paused ≡ true
shut_between_turns es i h r ended at o = each (history-IsShut opened es r (inl tt))
  where
    c : Control
    c = history opened es

    each : IsShut c → c.world.host.paused ≡ true
    each (inl none_yet) = absurd (ground (arith, All-get IsUntooled c.turns i h none_yet at, o))
    each (inr (inl (j, k, there, _, u))) =
        absurd (ground (arith, All-get (λ t. t.turn.finished ≡ true) c.turns j k ended there, u))
    each (inr (inr p)) = p
