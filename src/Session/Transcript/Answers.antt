-- ===== src/Session/Transcript/Answers.antt =====
-- session/api_transcript.go: the messages of a request have the order that Chat Completions requires.
use lib_agent_harness.Prelude.{
  ℕ, Bool, true, false, ◌&&◌, List, [], ◌∷◌, ◌++◌, String, str_eq, eq_iff, leb, length, map, ◌≡◌,
  refl, arith,
}
use lib_agent_harness.Session.Transcript.{
  ToolCall, Record, tool_call, tool_result, header, turn_start, user, assistant, usage, turn_end,
  CallStates, call_states, answer, answers, messages_of, all_messages, conversation, Message,
  system, from_user, from_assistant, tool, or_empty,
}
use lib_agent_harness.Text.{Text, bound}
use lib_agent_harness.Text.Bound.{bound_fits}

-- Messages that answer these calls first, in this order, each in one message of at most the limit, and
-- in which directly after every response its calls are answered so. No other message is an answer.
unfoldable pub follows : ℕ → List String → List Message → Bool
follows limit [] [] = true
follows limit (_ ∷ _) [] = false
follows limit (id ∷ ids) (tool call text ∷ ms) =
    str_eq id call && (leb (length text) limit && follows limit ids ms)
follows limit [] (tool call text ∷ ms) = false
follows limit [] (system text ∷ ms) = follows limit [] ms
follows limit [] (from_user text ∷ ms) = follows limit [] ms
follows limit [] (from_assistant text replay calls ∷ ms) = follows limit (map (λ c. c.id) calls) ms
follows limit (_ ∷ _) (system text ∷ ms) = false
follows limit (_ ∷ _) (from_user text ∷ ms) = false
follows limit (_ ∷ _) (from_assistant text replay calls ∷ ms) = false

bounded : (text : Text) (limit : ℕ) → leb (length (or_empty (bound text limit))) limit ≡ true
bounded text limit =
    let (out, is_out, small, whole) = bound_fits text limit in rw is_out (ground (arith, small))

answers-follow :
    (s : CallStates) (limit response : ℕ) (calls : List ToolCall) (ms : List Message)
    → follows limit [] ms ≡ true
    → follows limit (map (λ c. c.id) calls) (answers s limit response calls ++ ms) ≡ true
unfolding follows answers
answers-follow s limit response [] ms h = h
answers-follow s limit response (call ∷ calls) ms h =
    rw
      (
        (eq_iff call.id call.id).1 refl,
        bounded (answer s (response, call.id)) limit,
        answers-follow s limit response calls ms h,
      )
      refl

messages-follow :
    (s : CallStates) (limit : ℕ) (rs : List Record)
    → follows limit [] (all_messages s limit rs) ≡ true
unfolding follows all_messages messages_of
messages-follow s limit [] = refl
messages-follow s limit (assistant _ response _ _ calls ∷ rs) =
    answers-follow s limit response calls (all_messages s limit rs) (messages-follow s limit rs)
messages-follow s limit (user _ _ ∷ rs) = messages-follow s limit rs
messages-follow s limit (header ∷ rs) = messages-follow s limit rs
messages-follow s limit (turn_start _ ∷ rs) = messages-follow s limit rs
messages-follow s limit (tool_call _ _ _ _ ∷ rs) = messages-follow s limit rs
messages-follow s limit (tool_result _ _ _ _ _ _ _ ∷ rs) = messages-follow s limit rs
messages-follow s limit (usage _ _ ∷ rs) = messages-follow s limit rs
messages-follow s limit (turn_end _ _ _ ∷ rs) = messages-follow s limit rs

-- In every conversation, whatever the records, the instructions and the limit, directly after each
-- response its calls are answered, in their order, each by one message of at most the limit, and no
-- other message is an answer.
pub conversation_answers :
    (rs : List Record) (instructions : Text) (limit : ℕ)
    → follows limit [] (conversation rs instructions limit) ≡ true
unfolding conversation follows
conversation_answers rs [] limit = messages-follow (call_states rs) limit rs
conversation_answers rs (c ∷ cs) limit = messages-follow (call_states rs) limit rs
