-- ===== src/Session/Loop/Settles.antt =====
-- session/api_loop.go: a turn that the loop has run leaves nothing for a recovery to settle.
use lib_agent_harness.Prelude.{
  ℕ, zero, suc, ◌+◌, String, Bool, true, false, Option, none, some, List, [], ◌∷◌, ◌++◌, ◌≡◌, refl,
  sym, ap, subst, ◌∙◌, arith, if◌then◌else◌,
}
use lib_agent_harness.Text.{Text}
use lib_agent_harness.Session.Transcript.{
  ToolCall, assistant, usage, note, note_all, call_states, Message, conversation, open_turn,
  has_ended, interruption, recover_transcript, no_states, additions_of, unknown_of,
}
use lib_agent_harness.Session.Transcript.Recovered.{note_all-append, IsSettled}
use lib_agent_harness.Session.Transcript.Recovered.Closing.{
  IsClosing, closing-IsSettled, settled-none,
}
use lib_agent_harness.Session.Transcript.Recovered.Interruption.{
  open_turn-closing, interruption-ended, has_ended-append,
}
use lib_agent_harness.Session.Loop.{
  Run, Step, Ending, Failed, CallStep, Next, stop, again, kept, called, run_calls, end_turn,
  after_calls, respond, replied, billed, round, run_turn, is_empty, may_have_billed, failure_code,
}
use lib_agent_harness.Session.Loop.Calls.{
  append-kept, states, final_states, IsAccounted, states-kept, Handled,
}
use lib_agent_harness.Session.Loop.Rounds.{
  IsOpen, IsDone, end_turn-IsDone, Left, IsOpen-IsStopping, recorded, recorded-IsAccounted,
  Handled-IsStopping, after_calls-Left,
}
use lib_agent_harness.Session.Loop.Skips.{run_calls-Handled}

module _ (turn : String) (limit : ℕ) where
  respond-recorded :
      (s : Run) (e : Ending) (step : Step) (o : IsOpen turn limit s)
      → step.ended ≡ false
      → respond turn limit s e step ≡ (
          if is_empty turn limit step.calls
          then stop (
              end_turn turn limit
                (recorded turn limit s o
                  (s.responses + 1)
                  step.content
                  step.replay
                  (called turn limit step.calls))
                e
                "completed"
                "")
          else after_calls turn limit e step.closed (
              run_calls turn limit
                (recorded turn limit s o
                  (s.responses + 1)
                  step.content
                  step.replay
                  (called turn limit step.calls))
                (s.responses + 1)
                step.calls))
  unfolding respond recorded
  respond-recorded s e step o still =
      rw
        (append-kept (record s { responses = s.responses + 1 })
          (assistant turn (s.responses + 1) step.content step.replay (called turn limit step.calls))
          o.no_faults)
        (pick step.ended still)
    where
      recorded_run : Run
      recorded_run =
          kept (record s { responses = s.responses + 1 })
            (assistant turn (s.responses + 1) step.content step.replay
              (called turn limit step.calls))

      pick :
          (b : Bool)
          → b ≡ false
          → (if b
              then stop (end_turn turn limit recorded_run e "interrupted" "")
              else if is_empty turn limit step.calls
              then stop (end_turn turn limit recorded_run e "completed" "")
              else after_calls turn limit e step.closed
                  (run_calls turn limit recorded_run (s.responses + 1) step.calls))
            ≡ (if is_empty turn limit step.calls
                then stop (end_turn turn limit recorded_run e "completed" "")
                else after_calls turn limit e step.closed
                    (run_calls turn limit recorded_run (s.responses + 1) step.calls))
      pick true h = absurd (ground (arith, h))
      pick false h = refl

  respond-Left :
      (s : Run) (e : Ending) (step : Step)
      → IsOpen turn limit s
      → step.ended ≡ false
      → Left turn limit (respond turn limit s e step)
  unfolding recorded Left run_calls
  respond-Left s e step o still =
      subst (Left turn limit) (sym (respond-recorded s e step o still)) (
        choose step.calls (
          run_calls-Handled turn limit (s.responses + 1) base step.calls o.no_faults o.none_owed (
            recorded-IsAccounted turn limit s o (s.responses + 1) step.content step.replay
              (called turn limit step.calls))))
    where
      base : Run
      base =
          recorded turn limit s o (s.responses + 1) step.content step.replay
            (called turn limit step.calls)

      choose :
          (calls : List (ToolCall × CallStep))
          → Handled base
              (run_calls turn limit base (s.responses + 1) calls).0
              (s.responses + 1)
              (called turn limit step.calls)
              (run_calls turn limit base (s.responses + 1) calls).1
          → Left turn limit (
              if is_empty turn limit calls
              then stop (end_turn turn limit base e "completed" "")
              else after_calls turn limit e step.closed
                  (run_calls turn limit base (s.responses + 1) calls))
      choose [] h = end_turn-IsDone turn limit base e "completed" "" (
          Handled-IsStopping turn limit s o (s.responses + 1) step.content step.replay
            (called turn limit step.calls) base true h)
      choose (c ∷ cs) h =
          let (s2, ok) = run_calls turn limit base (s.responses + 1) (c ∷ cs) in
          after_calls-Left turn limit s o (s.responses + 1) step.content step.replay
            (called turn limit step.calls) e step.closed s2 ok h

  replied-Left :
      (s : Run) (e : Ending) (step : Step) (error : Option Failed)
      → IsOpen turn limit s
      → step.ended ≡ false
      → Left turn limit (replied turn limit s e step error)
  unfolding replied Left
  replied-Left s e step none o still = respond-Left s e step o still
  replied-Left s e step (some f) o still = choose step.cancelled
    where
      choose :
          (b : Bool)
          → Left turn limit (
              if b
              then stop (end_turn turn limit s e "interrupted" "")
              else stop (end_turn turn limit s e "failed" (failure_code turn limit f)))
      choose true =
          end_turn-IsDone turn limit s e "interrupted" "" (IsOpen-IsStopping turn limit s o)
      choose false =
          end_turn-IsDone turn limit s e "failed" (failure_code turn limit f)
            (IsOpen-IsStopping turn limit s o)

  -- the usage of a request, recorded
  billed_run : Run → Step → Run
  billed_run s step = kept (billed turn limit s step.usage) (usage turn step.usage)

  billed_run-IsOpen :
      (s : Run) (step : Step) → IsOpen turn limit s → IsOpen turn limit (billed_run s step)
  unfolding billed_run billed IsClosing note
  billed_run-IsOpen s step o =
      let e : states (billed_run s step) ≡ states s =
        states-kept (billed turn limit s step.usage) (usage turn step.usage) in
      record {
        no_faults = o.no_faults;
        none_owed = o.none_owed;
        settled =
            subst (λ t. IsSettled t (billed_run s step).records) (sym e)
              (closing-IsSettled (states s) s.records (usage turn step.usage ∷ []) (tt, tt)
                o.settled);
        accounted = subst (λ t. IsAccounted t t) (sym e) o.accounted;
        going = open_turn-closing "" s.records (usage turn step.usage ∷ []) (tt, tt) ∙ o.going;
      }

  round-Left :
      (s : Run) (e : Ending) (step : Step)
      → IsOpen turn limit s
      → step.ended ≡ false
      → Left turn limit (round turn limit s e step)
  unfolding round billed_run billed
  round-Left s e step o still =
      rw (append-kept (billed turn limit s step.usage) (usage turn step.usage) o.no_faults)
        (choose (may_have_billed turn limit step.error))
    where
      choose :
          (b : Bool)
          → Left turn limit (
              if b
              then replied turn limit (billed_run s step) e step step.error
              else replied turn limit s e step step.error)
      choose true =
          replied-Left (billed_run s step) e step step.error (billed_run-IsOpen s step o) still
      choose false = replied-Left s e step step.error o still

  module _ (instructions : Text) (world : ℕ → List Message → Step) (e : Ending)
      (fits : (n : ℕ) (ms : List Message) → (world n ms).ended ≡ false) where
    run_turn-IsDone :
        (left step : ℕ) (s : Run)
        → IsOpen turn limit s
        → IsDone turn limit (run_turn turn limit instructions world e left step s)
    unfolding run_turn Left
    run_turn-IsDone zero step s o =
        end_turn-IsDone turn limit s e "failed" "max_steps" (IsOpen-IsStopping turn limit s o)
    run_turn-IsDone (suc left) step s o =
        next (round turn limit s e (world step messages))
          (round-Left s e (world step messages) o (fits step messages))
          (run_turn-IsDone left (step + 1))
      where
        messages : List Message
        messages = conversation s.records instructions limit

        next :
            (n : Next)
            → Left turn limit n
            → ((s' : Run)
                → IsOpen turn limit s'
                → IsDone turn limit (run_turn turn limit instructions world e left (step + 1) s'))
            → IsDone turn limit (elim n [
              | stop s' ↦ s'
              | again s' ↦ run_turn turn limit instructions world e left (step + 1) s'
            ])
        next (stop s') h rest = h
        next (again s') h rest = rest s' h

  done-settles :
      (s : Run)
      → IsDone turn limit s
      → recover_transcript (s.records ++ s.late) ≡ ([], record { turn = ""; unknown_outcomes = [] })
  unfolding recover_transcript call_states note_all
  done-settles s d = rw (nothing.0, nothing.1, closed) refl
    where
      whole : call_states (s.records ++ s.late) ≡ final_states s
      whole = note_all-append no_states s.records s.late

      nothing :
          (additions_of (call_states (s.records ++ s.late)) (s.records ++ s.late) ≡ [])
          × (unknown_of (call_states (s.records ++ s.late)) (s.records ++ s.late) ≡ [])
      nothing = settled-none (call_states (s.records ++ s.late)) (s.records ++ s.late) (
          subst (λ t. IsSettled t (s.records ++ s.late)) (sym whole)
            (closing-IsSettled (final_states s) s.records s.late d.owed d.settled))

      closed : interruption (open_turn "" (s.records ++ s.late)) (s.records ++ s.late) ≡ []
      closed =
          ap (λ t. interruption t (s.records ++ s.late))
            (open_turn-closing "" s.records s.late d.owed ∙ d.going)
          ∙ interruption-ended turn (s.records ++ s.late) (
              has_ended-append turn s.records s.late
              ∙ ap (λ b. if b then true else has_ended turn s.late) d.ended)

-- While the store takes every record, a turn that nothing else has ended where the loop looks after a
-- response leaves nothing for a recovery, however it ends then: once the handlers have returned, a
-- recovery of the transcript adds no record, and reports no interrupted turn and no call of unknown
-- outcome. It holds of any replies of the model, any outcomes of calls and any cancellation, from a
-- transcript in which this turn is open, every call has a result and whatever was started has one.
-- (An overrun, a failure of the session or its closing ends a turn there, with its calls unsettled.)
pub run_turn_settles :
    (turn : String) (limit : ℕ) (instructions : Text) (world : ℕ → List Message → Step) (e : Ending)
    (left step : ℕ) (s : Run)
    → ((n : ℕ) (ms : List Message) → (world n ms).ended ≡ false)
    → IsOpen turn limit s
    → recover_transcript (
        (run_turn turn limit instructions world e left step s).records
        ++ (run_turn turn limit instructions world e left step s).late)
      ≡ ([], record { turn = ""; unknown_outcomes = [] })
run_turn_settles turn limit instructions world e left step s fits o =
    done-settles turn limit (run_turn turn limit instructions world e left step s)
      (run_turn-IsDone turn limit instructions world e fits left step s o)
