-- ===== src/Chat/Messages.antt =====
-- completion/openai_chat.go: `chatMessages`, the messages of a request as they are sent. A text is the
-- list of its bytes; opening the state that goes with a message is that of completion/replay.go.
pub mod Sent
use lib_agent_harness.Prelude.{
  ℕ, String, Bool, true, false, not, ◌&&◌, ◌||◌, Option, none, some, List, [], ◌∷◌, str_eq,
  if◌then◌else◌,
}
use lib_agent_harness.Text.{Text}
use lib_agent_harness.EventStream.{is_empty}
use lib_agent_harness.Chat.Replay.{Replay, Fields, field, open_replay}

-- `ToolCall`, with its function's name and arguments
pub record ToolCall : Type 0 where
  pub id : String
  pub kind : String
  pub name : String
  pub arguments : Text
  pub replay : Text

-- `Message`
pub record Message : Type 0 where
  pub role : String
  pub content : Text
  pub calls : List ToolCall
  pub call_id : String
  pub replay : Text

-- `chatToolCall`
pub record ChatToolCall : Type 0 where
  pub id : String
  pub kind : String
  pub name : String
  pub arguments : Text
  pub extra_content : Text

-- `chatMessage`, with `none` for null
pub record ChatMessage : Type 0 where
  pub role : String
  pub content : Option Text
  pub calls : List ChatToolCall
  pub call_id : String
  pub reasoning_content : Text
  pub reasoning_details : Text

-- what is sent, or the code of a refusal
pub data Checked (A : Type 0) : Type 0 where
  fine : A → Checked A
  refused : String → Checked A

abbrev pub with_first : {A : Type 0} → Checked A → Checked (List A) → Checked (List A)
with_first (refused code) rest = refused code
with_first (fine x) (refused code) = refused code
with_first (fine x) (fine xs) = fine (x ∷ xs)

abbrev pub has_calls : List ToolCall → Bool
has_calls calls = not (is_empty calls)

abbrev pub message_fields : List String
message_fields = "reasoning_content" ∷ "reasoning_details" ∷ []

abbrev pub call_fields : List String
call_fields = "extra_content" ∷ []

-- a message with no state and no calls
abbrev pub plain : Message → ChatMessage
plain m = record {
  role = m.role;
  content = some m.content;
  calls = [];
  call_id = m.call_id;
  reasoning_content = [];
  reasoning_details = [];
}

abbrev pub opened_call : ToolCall → Option Fields → Checked ChatToolCall
opened_call call none = refused "replay_mismatch"
opened_call call (some extra) = fine (record {
  id = call.id;
  kind = call.kind;
  name = call.name;
  arguments = call.arguments;
  extra_content = field extra "extra_content";
})

abbrev pub answered : Message → Fields → Checked (List ChatToolCall) → Checked ChatMessage
answered m fields (refused code) = refused code
answered m fields (fine calls) = fine (record (plain m) {
  content = if has_calls m.calls && is_empty m.content then none else some m.content;
  calls = calls;
  reasoning_content = field fields "reasoning_content";
  reasoning_details = field fields "reasoning_details";
})

module _ (unmarshal : Text → Option Replay) (binding : String) where
  unfoldable pub chat_call : ToolCall → Checked ChatToolCall
  unfolding open_replay
  chat_call call =
      if not (str_eq call.kind "function") || str_eq call.id "" || str_eq call.name ""
      then refused "invalid_messages"
      else opened_call call (open_replay unmarshal call.replay binding call_fields)

  unfoldable pub chat_calls : List ToolCall → Checked (List ChatToolCall)
  unfolding chat_call
  chat_calls [] = fine []
  chat_calls (call ∷ calls) = with_first (chat_call call) (chat_calls calls)

  unfoldable pub from_assistant : Message → Checked ChatMessage
  unfolding chat_calls
  from_assistant m =
      if not (str_eq m.call_id "")
      then refused "invalid_messages"
      else elim (open_replay unmarshal m.replay binding message_fields) [
        | none ↦ refused "replay_mismatch"
        | some fields ↦ answered m fields (chat_calls m.calls)
      ]

  -- the body of the loop
  unfoldable pub chat_message : Message → Checked ChatMessage
  unfolding from_assistant
  chat_message m =
      if str_eq m.role "system" || str_eq m.role "user"
      then (if has_calls m.calls || not (str_eq m.call_id "") || not (is_empty m.replay)
          then refused "invalid_messages"
          else fine (plain m))
      else if str_eq m.role "tool"
      then (if has_calls m.calls || str_eq m.call_id "" || not (is_empty m.replay)
          then refused "invalid_messages"
          else fine (plain m))
      else if str_eq m.role "assistant"
      then from_assistant m
      else refused "invalid_messages"

  unfoldable pub all_messages : List Message → Checked (List ChatMessage)
  unfolding chat_message
  all_messages [] = fine []
  all_messages (m ∷ ms) = with_first (chat_message m) (all_messages ms)

  -- `chatMessages`
  unfoldable pub chat_messages : List Message → Checked (List ChatMessage)
  unfolding all_messages
  chat_messages [] = refused "invalid_messages"
  chat_messages (m ∷ ms) = all_messages (m ∷ ms)
