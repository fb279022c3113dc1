-- ===== src/Chat/Messages/Sent.antt =====
-- session/api_transcript.go with completion/openai_chat.go: the conversation of a transcript as a request
-- carries it.
use lib_agent_harness.Prelude.{
  Option-cases, false, inl, inr, ℕ, String, Bool, true, not, ◌&&◌, Option, none, some, List, [],
  ◌∷◌, ◌++◌, map, str_eq, ◌≡◌, ◌≢◌, refl, ap, ◌∙◌, arith,
}
use lib_agent_harness.Text.{Text}
use lib_agent_harness.Session.Transcript
use lib_agent_harness.Session.Transcript.{
  Record, header, turn_start, user, assistant, tool_call, tool_result, usage, turn_end, CallStates,
  call_states, answer, answers, messages_of, all_messages, conversation, or_empty,
}
use lib_agent_harness.Chat.Replay.{Replay, open_replay}
use lib_agent_harness.Chat.Messages
use lib_agent_harness.Chat.Messages.{
  ToolCall, Message, ChatToolCall, ChatMessage, Checked, fine, refused, with_first, has_calls,
  plain, opened_call, answered, chat_call, chat_calls, from_assistant, chat_message, chat_messages,
}
use lib_agent_harness.Chat.Replay.{Fields, field}
use lib_agent_harness.Chat.Messages.{message_fields, call_fields}

-- the `completion.ToolCall` that a record holds, and the `completion.Message` that `conversation` makes
abbrev pub request_call : Transcript.ToolCall → ToolCall
request_call c = record {
  id = c.id;
  kind = c.kind;
  name = c.name;
  arguments = c.arguments;
  replay = c.replay;
}

abbrev pub request_message : Transcript.Message → Message
request_message (Transcript.system text) = record {
  role = "system";
  content = text;
  calls = [];
  call_id = "";
  replay = [];
}
request_message (Transcript.from_user text) = record {
  role = "user";
  content = text;
  calls = [];
  call_id = "";
  replay = [];
}
request_message (Transcript.from_assistant text replay calls) = record {
  role = "assistant";
  content = text;
  calls = map request_call calls;
  call_id = "";
  replay = replay;
}
request_message (Transcript.tool call text) = record {
  role = "tool";
  content = text;
  calls = [];
  call_id = call;
  replay = [];
}

abbrev plain_message : String → Text → String → ChatMessage
plain_message role content call_id = record {
  role = role;
  content = some content;
  calls = [];
  call_id = call_id;
  reasoning_content = [];
  reasoning_details = [];
}

-- only a response with calls and no text has no content
abbrev content_of : Text → List Transcript.ToolCall → Option Text
content_of [] (call ∷ calls) = none
content_of text calls = some text

abbrev opened_or_none : Option Fields → Fields
opened_or_none none = []
opened_or_none (some fields) = fields

abbrev is_some : Option Fields → Bool
is_some none = false
is_some (some fields) = true

module _ (unmarshal : Text → Option Replay) (binding : String) where
  -- What is to be sent of each message: its role, its text, its calls and the call that it answers, and
  -- beside a response and a call the fields of its state.
  abbrev pub sent_call : Transcript.ToolCall → ChatToolCall
  sent_call c = record {
    id = c.id;
    kind = c.kind;
    name = c.name;
    arguments = c.arguments;
    extra_content =
        field (opened_or_none (open_replay unmarshal c.replay binding call_fields)) "extra_content";
  }

  unfoldable pub sent_message : Transcript.Message → ChatMessage
  sent_message (Transcript.system text) = plain_message "system" text ""
  sent_message (Transcript.from_user text) = plain_message "user" text ""
  sent_message (Transcript.from_assistant text replay calls) =
      let fields = opened_or_none (open_replay unmarshal replay binding message_fields) in
      record {
        role = "assistant";
        content = content_of text calls;
        calls = map sent_call calls;
        call_id = "";
        reasoning_content = field fields "reasoning_content";
        reasoning_details = field fields "reasoning_details";
      }
  sent_message (Transcript.tool call text) = plain_message "tool" text call

  -- Each call is a function with an identifier and a name, and its state opens for the endpoint.
  abbrev pub are_sendable : List Transcript.ToolCall → Bool
  are_sendable [] = true
  are_sendable (c ∷ cs) =
      str_eq c.kind "function"
      && (not (str_eq c.id "")
          && (not (str_eq c.name "")
              && (is_some (open_replay unmarshal c.replay binding call_fields) && are_sendable cs)))

  -- So is each call of a record, and the state of each response opens.
  abbrev pub has_sendable_calls : List Record → Bool
  has_sendable_calls [] = true
  has_sendable_calls (assistant turn response text replay calls ∷ rs) =
      is_some (open_replay unmarshal replay binding message_fields)
      && (are_sendable calls && has_sendable_calls rs)
  has_sendable_calls (_ ∷ rs) = has_sendable_calls rs

  abbrev is_sendable : Transcript.Message → Bool
  is_sendable (Transcript.from_assistant text replay calls) =
      is_some (open_replay unmarshal replay binding message_fields) && are_sendable calls
  is_sendable (Transcript.tool call text) = not (str_eq call "")
  is_sendable _ = true

  abbrev are_all : List Transcript.Message → Bool
  are_all [] = true
  are_all (m ∷ ms) = is_sendable m && are_all ms

  answers-sendable :
      (s : CallStates) (limit response : ℕ) (calls : List Transcript.ToolCall)
      (ms : List Transcript.Message)
      → are_sendable calls ≡ true
      → are_all ms ≡ true
      → are_all (answers s limit response calls ++ ms) ≡ true
  unfolding answers
  answers-sendable s limit response [] ms n h = h
  answers-sendable s limit response (c ∷ cs) ms n h =
      ground (arith, answers-sendable s limit response cs ms)

  messages-sendable :
      (s : CallStates) (limit : ℕ) (rs : List Record)
      → has_sendable_calls rs ≡ true
      → are_all (all_messages s limit rs) ≡ true
  unfolding all_messages messages_of
  messages-sendable s limit [] n = refl
  messages-sendable s limit (assistant _ response _ _ calls ∷ rs) n = ground (
    arith,
    answers-sendable s limit response calls (all_messages s limit rs),
    messages-sendable s limit rs,
  )
  messages-sendable s limit (user _ _ ∷ rs) n = messages-sendable s limit rs n
  messages-sendable s limit (header ∷ rs) n = messages-sendable s limit rs n
  messages-sendable s limit (turn_start _ ∷ rs) n = messages-sendable s limit rs n
  messages-sendable s limit (tool_call _ _ _ _ ∷ rs) n = messages-sendable s limit rs n
  messages-sendable s limit (tool_result _ _ _ _ _ _ _ ∷ rs) n = messages-sendable s limit rs n
  messages-sendable s limit (usage _ _ ∷ rs) n = messages-sendable s limit rs n
  messages-sendable s limit (turn_end _ _ _ ∷ rs) n = messages-sendable s limit rs n

  conversation-sendable :
      (rs : List Record) (instructions : Text) (limit : ℕ)
      → has_sendable_calls rs ≡ true
      → are_all (conversation rs instructions limit) ≡ true
  unfolding conversation
  conversation-sendable rs [] limit n = messages-sendable (call_states rs) limit rs n
  conversation-sendable rs (c ∷ cs) limit n = messages-sendable (call_states rs) limit rs n

  sends_calls :
      (calls : List Transcript.ToolCall)
      → are_sendable calls ≡ true
      → chat_calls unmarshal binding (map request_call calls) ≡ fine (map sent_call calls)
  unfolding chat_calls
  sends_calls [] n = refl
  sends_calls (c ∷ cs) n =
      elim (Option-cases (open_replay unmarshal c.replay binding call_fields)) [
        | inl e ↦ absurd (ground (arith, e, n))
        | inr (fields, e) ↦ ground (arith, e, sends_calls cs)
      ]

  sends_message :
      (m : Transcript.Message)
      → is_sendable m ≡ true
      → chat_message unmarshal binding (request_message m) ≡ fine (sent_message m)
  unfolding chat_message sent_message open_replay
  sends_message (Transcript.system text) n = refl
  sends_message (Transcript.from_user text) n = refl
  sends_message (Transcript.from_assistant text replay calls) n =
      by_fields (open_replay unmarshal replay binding message_fields) (ground (arith, n))
        (ground (arith, n))
    where
      by_content :
          (text : Text) (calls : List Transcript.ToolCall) (fields : Fields)
          → answered
              (request_message (Transcript.from_assistant text replay calls))
              fields
              (fine (map sent_call calls))
            ≡ fine (record {
              role = "assistant";
              content = content_of text calls;
              calls = map sent_call calls;
              call_id = "";
              reasoning_content = field fields "reasoning_content";
              reasoning_details = field fields "reasoning_details";
            })
      by_content [] [] fields = refl
      by_content [] (c ∷ cs) fields = refl
      by_content (t ∷ ts) [] fields = refl
      by_content (t ∷ ts) (c ∷ cs) fields = refl

      by_fields :
          (o : Option Fields)
          → is_some o ≡ true
          → are_sendable calls ≡ true
          → ◌≡◌ {A = Checked ChatMessage}
              (elim o [
                | none ↦ refused "replay_mismatch"
                | some fields ↦
                    answered
                      (request_message (Transcript.from_assistant text replay calls))
                      fields
                      (chat_calls unmarshal binding (map request_call calls))
              ])
              (fine (record {
                role = "assistant";
                content = content_of text calls;
                calls = map sent_call calls;
                call_id = "";
                reasoning_content = field (opened_or_none o) "reasoning_content";
                reasoning_details = field (opened_or_none o) "reasoning_details";
              }))
      by_fields none h c = absurd (ground (arith, h))
      by_fields (some fields) h c =
          ap (answered (request_message (Transcript.from_assistant text replay calls)) fields)
            (sends_calls calls c)
          ∙ by_content text calls fields
  sends_message (Transcript.tool call text) n = ground arith

  sends_messages :
      (ms : List Transcript.Message)
      → are_all ms ≡ true
      → Messages.all_messages unmarshal binding (map request_message ms)
        ≡ fine (map sent_message ms)
  unfolding Messages.all_messages
  sends_messages [] n = refl
  sends_messages (m ∷ ms) n = ground (arith, sends_message m, sends_messages ms)

  -- `chatMessages` sends the conversation of a transcript, where it is not empty, if every recorded call is
  -- a function with an identifier and a name, and the state that is recorded beside each response and
  -- call is none or opens for the endpoint of the request: it refuses no message, and sends each, in
  -- order, with its role, its text, its calls and the call that it answers, and the fields of its state;
  -- only the text of a response with calls and no text is left out.
  pub conversation_sent :
      (rs : List Record) (instructions : Text) (limit : ℕ)
      → has_sendable_calls rs ≡ true
      → conversation rs instructions limit ≢ []
      → chat_messages unmarshal binding (map request_message (conversation rs instructions limit))
        ≡ fine (map sent_message (conversation rs instructions limit))
  conversation_sent rs instructions limit n some_message =
      each (conversation rs instructions limit) (conversation-sendable rs instructions limit n)
        some_message
    where
      each :
          (ms : List Transcript.Message)
          → are_all ms ≡ true
          → ms ≢ []
          → chat_messages unmarshal binding (map request_message ms) ≡ fine (map sent_message ms)
      each [] h e = absurd (e refl)
      each (m ∷ ms) h e = unfold chat_messages in sends_messages (m ∷ ms) h
