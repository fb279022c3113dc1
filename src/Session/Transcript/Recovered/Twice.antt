-- ===== src/Session/Transcript/Recovered/Twice.antt =====
-- session/api_transcript.go: a transcript with the records of its recovery appended.
use lib_agent_harness.Prelude.{
  ℕ, List, [], ◌∷◌, ◌++◌, All, ◌≡◌, refl, sym, ap, subst, ◌∙◌, if◌then◌else◌,
}
use lib_agent_harness.Session.Transcript.{
  Record, Key, CallStates, no_states, note_all, call_states, answer, is_empty, conversation,
  additions_of, open_turn, interruption, recover_transcript, system,
}
use lib_agent_harness.Session.Transcript.Recovered.{note_all-append, IsSettled}
use lib_agent_harness.Session.Transcript.Recovered.Closing.{
  IsClosing, All-append, additions-IsClosing, closing-IsSettled, settled-none,
}
use lib_agent_harness.Session.Transcript.Recovered.Additions.{additions-answer, additions-IsSettled}
use lib_agent_harness.Session.Transcript.Recovered.Interruption.{
  note_all-interruption, interruption-IsClosing, open_turn-closing, interruption_once,
}
use lib_agent_harness.Session.Transcript.Recovered.Messages.{messages-same}
use lib_agent_harness.Text.{Text}

module _ (rs : List Record) where
  before : CallStates
  before = call_states rs

  appended : List Record
  appended = additions_of before rs ++ interruption (open_turn "" rs) rs

  appended-IsClosing : All IsClosing appended
  unfolding appended
  appended-IsClosing =
      All-append (additions_of before rs) (interruption (open_turn "" rs) rs)
        (additions-IsClosing before rs) (interruption-IsClosing (open_turn "" rs) rs)

  after-states : call_states (rs ++ appended) ≡ note_all before (additions_of before rs)
  unfolding call_states before appended
  after-states =
      note_all-append no_states rs appended
      ∙ note_all-append before (additions_of before rs) (interruption (open_turn "" rs) rs)
      ∙ note_all-interruption (note_all before (additions_of before rs)) (open_turn "" rs) rs

  after-IsSettled : IsSettled (call_states (rs ++ appended)) (rs ++ appended)
  after-IsSettled =
      subst (λ s. IsSettled s (rs ++ appended)) (sym after-states)
        (closing-IsSettled (note_all before (additions_of before rs)) rs appended appended-IsClosing
          (additions-IsSettled before before rs (λ k h. h)))

-- A recovery is complete: after the records that it appends, a second one appends nothing, reports
-- no interrupted turn and no call of unknown outcome.
pub recovery_settles :
    (rs : List Record)
    → recover_transcript (rs ++ (recover_transcript rs).0)
      ≡ ([], record { turn = ""; unknown_outcomes = [] })
unfolding recover_transcript appended before
recovery_settles rs =
    let (no_calls, no_unknown) =
      settled-none (call_states (rs ++ appended rs)) (rs ++ appended rs) (after-IsSettled rs) in
    rw
      (
        no_calls,
        no_unknown,
        open_turn-closing "" rs (appended rs) (appended-IsClosing rs),
        interruption_once (open_turn "" rs) rs (additions_of (before rs) rs),
      )
      refl

-- A recovery changes no history: a request after the appended records carries the messages that it
-- carried before them, whatever the instructions and the limit.
pub recovery_keeps_conversation :
    (rs : List Record) (instructions : Text) (limit : ℕ)
    → conversation (rs ++ (recover_transcript rs).0) instructions limit
      ≡ conversation rs instructions limit
unfolding recover_transcript conversation appended before
recovery_keeps_conversation rs instructions limit =
    let same : (k : Key) → answer (call_states (rs ++ appended rs)) k ≡ answer (before rs) k = λ k.
      ap (λ s. answer s k) (after-states rs)
      ∙ additions-answer (before rs) (before rs) rs (λ k'. refl) k in
    ap (λ ms. if is_empty instructions then ms else system instructions ∷ ms)
      (messages-same (before rs) (call_states (rs ++ appended rs)) limit rs (appended rs)
        (appended-IsClosing rs) same)
