-- ===== src/Session/Control/Finishing.antt =====
-- session/session.go: the steps of `failTurn`, and what is due at each.
use lib_agent_harness.Prelude.{
  Bool, true, false, none, some, List, [], ◌∷◌, ◌≡◌, refl, sym, subst, ◌∙◌, arith, if◌then◌else◌,
}
use lib_agent_harness.Session.Host.World.{World, step}
use lib_agent_harness.Session.Control.{
  names, Closing, finishing, stopping, announcing, Control, end_turn, fail_turn, Event, hosts,
  finishes, fails, finishes_failed, stops_host, announces, is_claimed, closes_on, act, history,
  opened,
}
use lib_agent_harness.Session.Control.{over}
use lib_agent_harness.Session.Host.{stop, announce_stop}
use lib_agent_harness.Session.Host.World.{stops, announces_stop}
use lib_agent_harness.Session.Control.Progress.{closes_on-Keeps, keeps}
use lib_agent_harness.Session.Control.Keeping.{Keeps}
use lib_agent_harness.Session.Control.Alone.{Progress-IsAlone, opened-IsAlone}
use lib_agent_harness.Session.Control.Failing.{
  rename-Failing, Failing, still, fails_now, fail_turn-Failing, goes_on-Failing, end_turn-Failing,
}
use lib_agent_harness.Session.Control.Ending.{
  IsDue, IsEnding, step-stopped, moved-IsEnding, all_ended,
}

stops-stopped : (w : World) → (step w stops).host.stopped ≡ true
unfolding step stop
stops-stopped w = ground arith

announces-done : (w : World) → w.host.stopped ≡ true → (step w announces_stop).host.done ≡ true
unfolding step announce_stop
announces-done w h = ground arith

-- a step of the closing
arrives :
    (c c' : Control) (s : Closing)
    → IsEnding c
    → c.closed ≡ true
    → Keeps c c'
    → c'.closing ≡ s
    → IsDue s c'
    → IsEnding c'
arrives c c' s n shut k at d = record {
  alone = Progress-IsAlone c c' (keeps k) n.alone;
  due = subst (λ t. IsDue t c') (sym at) d;
  barred = λ shut'. each (is_claimed c'.stage) refl;
}
  where
    each : (g : Bool) → is_claimed c'.stage ≡ g → is_claimed c'.stage ≡ false
    each false q = q
    each true q = absurd (ground (arith, n.barred shut, k.stage q))

closes_on-IsEnding :
    (c : Control) (s : Closing) (e : Event) → IsDue s c → IsEnding c → IsEnding (closes_on c s e)
unfolding closes_on
closes_on-IsEnding c (finishing none err) finishes_failed (shut, same) n =
    arrives c (record c { closing = stopping }) stopping n shut
      (closes_on-Keeps c (finishing none err) finishes_failed) refl
      (shut, all_ended c none err n.alone same)
closes_on-IsEnding c (finishing (some a) err) finishes_failed (shut, same) n =
    each (end_turn-Failing before a "failed" err)
  where
    before : Control
    before = record c { closing = stopping }

    after : Control
    after = end_turn before a "failed" err

    each : Failing before after → IsEnding after
    each (still r s) =
        arrives c after stopping n shut (closes_on-Keeps c (finishing (some a) err) finishes_failed)
          r (s ∙ shut, all_ended c (some a) err n.alone same)
    each (fails_now e q r s t) = absurd (ground (arith, shut, q))
closes_on-IsEnding c stopping stops_host (shut, ended) n =
    arrives c (record c { world = step c.world stops; closing = announcing }) announcing n shut
      (closes_on-Keeps c stopping stops_host) refl (shut, ended, stops-stopped c.world)
closes_on-IsEnding c announcing announces (shut, ended, st) n =
    arrives c (record c { world = step c.world announces_stop; closing = over }) over n shut
      (closes_on-Keeps c announcing announces) refl
      (shut, ended, step-stopped c.world announces_stop st, announces-done c.world st)
closes_on-IsEnding c s e d n = n

pub act-IsEnding : (c : Control) (e : Event) → IsEnding c → IsEnding (act c e)
unfolding act
act-IsEnding c (hosts a) n = moved-IsEnding c (hosts a) n (still refl refl)
act-IsEnding c (finishes i status err) n =
    moved-IsEnding c (finishes i status err) n (end_turn-Failing c i status err)
act-IsEnding c (names i id) n = moved-IsEnding c (names i id) n (rename-Failing c i id)
act-IsEnding c (fails expected err) n =
    moved-IsEnding c (fails expected err) n (each (is_claimed c.stage) refl)
  where
    each :
        (b : Bool) → is_claimed c.stage ≡ b → Failing c (if b then c else fail_turn c expected err)
    each true e = still refl refl
    each false e = fail_turn-Failing c expected err e
act-IsEnding c finishes_failed n = closes_on-IsEnding c c.closing finishes_failed n.due n
act-IsEnding c stops_host n = closes_on-IsEnding c c.closing stops_host n.due n
act-IsEnding c announces n = closes_on-IsEnding c c.closing announces n.due n
act-IsEnding c e n = moved-IsEnding c e n (goes_on-Failing c c.stage e)

pub history-IsEnding : (c : Control) (es : List Event) → IsEnding c → IsEnding (history c es)
unfolding history
history-IsEnding c [] n = n
history-IsEnding c (e ∷ es) n = history-IsEnding (act c e) es (act-IsEnding c e n)

pub opened-IsEnding : IsEnding opened
opened-IsEnding = record { alone = opened-IsAlone; due = refl; barred = λ shut. refl }
