-- ===== src/Examples/Transcripts.antt =====
-- A transcript that a crash left with two open calls and an open turn.
use lib_agent_harness.Prelude.{List, [], ◌∷◌, ◌++◌, codes, true, false, String, ◌≡◌, refl}
use lib_agent_harness.Session.Transcript.{
  ToolCall, Record, header, turn_start, user, assistant, tool_call, tool_result, ran, note,
  note_all, call_states, conversation, recover_transcript,
}
use lib_agent_harness.Session.Transcript.Answers.{follows, conversation_answers}
use lib_agent_harness.Session.Transcript.Recovered.Twice.{
  recovery_settles, recovery_keeps_conversation,
}

abbrev call : String → ToolCall
call id = record { id = id; kind = "function"; name = "shell"; arguments = codes "{}"; replay = [] }

abbrev crashed : List Record
crashed =
    header
    ∷ turn_start "t1"
    ∷ user "t1" (codes "go")
    ∷ assistant "t1" 1 (codes "") [] (call "a" ∷ call "b" ∷ call "c" ∷ [])
    ∷ tool_call "t1" 1 "a" "shell"
    ∷ tool_result "t1" 1 "a" "shell" (codes "done") false ran
    ∷ tool_call "t1" 1 "b" "shell"
    ∷ []

recovery_settles_example :
    recover_transcript (crashed ++ (recover_transcript crashed).0)
    ≡ ([], record { turn = ""; unknown_outcomes = [] })
recovery_settles_example = recovery_settles crashed

recovery_keeps_conversation_example :
    conversation (crashed ++ (recover_transcript crashed).0) (codes "be brief") 100
    ≡ conversation crashed (codes "be brief") 100
recovery_keeps_conversation_example = recovery_keeps_conversation crashed (codes "be brief") 100

conversation_answers_example : follows 100 [] (conversation crashed (codes "be brief") 100) ≡ true
conversation_answers_example = conversation_answers crashed (codes "be brief") 100

-- The call that was running is reported, the one that never ran is not.
crash_reported :
    (recover_transcript crashed).1 ≡ record { turn = "t1"; unknown_outcomes = ("b", "shell") ∷ [] }
unfolding recover_transcript call_states note_all note
crash_reported = refl
