-- ===== src/Session/Transcript/Recovered/Messages.antt =====
-- session/api_transcript.go: the messages of a transcript with closing records appended.
use lib_agent_harness.Prelude.{ℕ, List, [], ◌∷◌, ◌++◌, All, ◌≡◌, refl}
use lib_agent_harness.Session.Transcript.{
  ToolCall, Record, tool_call, tool_result, header, turn_start, user, assistant, usage, turn_end,
  Key, CallStates, answer, answers, messages_of, all_messages,
}
use lib_agent_harness.Session.Transcript.Recovered.Closing.{IsClosing}

messages-closing :
    (s : CallStates) (limit : ℕ) (xs : List Record)
    → All IsClosing xs
    → all_messages s limit xs ≡ []
unfolding all_messages messages_of IsClosing
messages-closing s limit [] c = refl
messages-closing s limit (tool_result _ _ _ _ _ _ _ ∷ xs) (c, cs) = messages-closing s limit xs cs
messages-closing s limit (turn_end _ _ _ ∷ xs) (c, cs) = messages-closing s limit xs cs
messages-closing s limit (header ∷ xs) (c, cs) = absurd c
messages-closing s limit (turn_start _ ∷ xs) (c, cs) = absurd c
messages-closing s limit (user _ _ ∷ xs) (c, cs) = absurd c
messages-closing s limit (assistant _ _ _ _ _ ∷ xs) (c, cs) = absurd c
messages-closing s limit (tool_call _ _ _ _ ∷ xs) (c, cs) = messages-closing s limit xs cs
messages-closing s limit (usage _ _ ∷ xs) (c, cs) = messages-closing s limit xs cs

-- Messages depend on what each call is answered only.
answers-same :
    (s t : CallStates) (limit response : ℕ) (calls : List ToolCall)
    → ((k : Key) → answer t k ≡ answer s k)
    → answers t limit response calls ≡ answers s limit response calls
unfolding answers
answers-same s t limit response [] same = refl
answers-same s t limit response (call ∷ calls) same =
    rw (same (response, call.id), answers-same s t limit response calls same) refl

pub messages-same :
    (s t : CallStates) (limit : ℕ) (rs xs : List Record)
    → All IsClosing xs
    → ((k : Key) → answer t k ≡ answer s k)
    → all_messages t limit (rs ++ xs) ≡ all_messages s limit rs
unfolding all_messages messages_of
messages-same s t limit [] xs c same = messages-closing t limit xs c
messages-same s t limit (assistant _ response _ _ calls ∷ rs) xs c same =
    rw (answers-same s t limit response calls same, messages-same s t limit rs xs c same) refl
messages-same s t limit (user _ text ∷ rs) xs c same =
    rw (messages-same s t limit rs xs c same) refl
messages-same s t limit (header ∷ rs) xs c same = messages-same s t limit rs xs c same
messages-same s t limit (turn_start _ ∷ rs) xs c same = messages-same s t limit rs xs c same
messages-same s t limit (tool_call _ _ _ _ ∷ rs) xs c same = messages-same s t limit rs xs c same
messages-same s t limit (tool_result _ _ _ _ _ _ _ ∷ rs) xs c same =
    messages-same s t limit rs xs c same
messages-same s t limit (usage _ _ ∷ rs) xs c same = messages-same s t limit rs xs c same
messages-same s t limit (turn_end _ _ _ ∷ rs) xs c same = messages-same s t limit rs xs c same
