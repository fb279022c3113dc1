-- ===== src/Chat/Reply.antt =====
-- completion/openai_chat.go: `parseChatCompletion`, of a decoded response. The tools that a call may
-- name (`toolCatalog`) and `jsonObject` are parameters; usage and provider state are left out.
pub mod Accepted
pub mod Answers
pub mod Calls
mod Finish
use lib_agent_harness.Prelude.{
  ℕ, zero, suc, ◌+◌, String, Bool, true, false, not, ◌&&◌, ◌||◌, Option, none, some, List, [], ◌∷◌,
  ◌++◌, leb, ltb, ◌==◌, length, codes, str_eq, if◌then◌else◌,
}
use lib_agent_harness.Text.{Text}
use lib_agent_harness.EventStream.{text_eq}

-- `chatReplyCall`: its function is a name and arguments
pub record ReplyCall : Type 0 where
  pub id : Text
  pub kind : Text
  pub function : Option (Text × Text)

-- the content of a reply: none, a string, or other JSON
pub data Content : Type 0 where
  no_content other_content : Content
  text_content : Text → Content

-- `chatReply`
pub record Reply : Type 0 where
  pub role : String
  pub content : Content
  pub refusal : Option Text
  pub calls : List ReplyCall

-- `chatResponseChoice`
pub record ResponseChoice : Type 0 where
  pub finish : Option String
  pub message : Option Reply

-- `chatCompletionResponse`
pub record Response : Type 0 where
  pub failure : Option Text
  pub choices : List ResponseChoice

-- a tool call that is proposed: its id, and its function's name and arguments
pub record Proposal : Type 0 where
  pub id : Text
  pub name : Text
  pub arguments : Text

pub record Answer : Type 0 where
  pub content : Text
  pub calls : List Proposal

-- what `parseChatCompletion` returns: a failure's code, the failure that the response reports, or a reply
pub data Parsed : Type 0 where
  rejected : String → Parsed
  embedded : Text → Parsed
  accepted : Answer → Parsed

abbrev pub max_tool_proposals : ℕ
max_tool_proposals = 16

abbrev pub api_tool_call_id_limit : ℕ
api_tool_call_id_limit = 256

abbrev pub unfinished : String → String
unfinished reason =
    if str_eq reason "length"
    then "output_truncated"
    else if str_eq reason "content_filter"
    then "content_filtered"
    else "ambiguous_terminal_state"

-- `finishFailure`; "" where there is none
unfoldable pub finish_failure : Option String → ℕ → String
finish_failure none calls = "ambiguous_terminal_state"
finish_failure (some reason) calls =
    if str_eq reason "stop" || str_eq reason "tool_calls" && ltb 0 calls
    then ""
    else unfinished reason

abbrev pub is_empty {ℓ} : {A : Type ℓ} → List A → Bool
is_empty [] = true
is_empty (_ ∷ _) = false

abbrev pub text_mem : Text → List Text → Bool
text_mem text [] = false
text_mem text (t ∷ ts) = text_eq text t || text_mem text ts

abbrev pub is_refusal : Option Text → Bool
is_refusal none = false
is_refusal (some text) = not (is_empty text)

abbrev pub function_kind : Text
function_kind = codes "function"

abbrev pub propose : ReplyCall → Option (Text × Text) → Proposal
propose call none = record { id = call.id; name = []; arguments = [] }
propose call (some (name, arguments)) = record { id = call.id; name = name; arguments = arguments }

abbrev pub with_first : Proposal → Option (List Proposal) → Option (List Proposal)
with_first p none = none
with_first p (some ps) = some (p ∷ ps)

abbrev pub answered : Text → Option (List Proposal) → Parsed
answered content none = rejected "invalid_tool_call"
answered content (some calls) = accepted (record { content = content; calls = calls })

module _ (allowed json_object : Text → Bool) where
  -- what a call has to be, beside an id that none before it has
  unfoldable pub is_call : ReplyCall → Option (Text × Text) → Bool
  is_call call none = false
  is_call call (some (name, arguments)) =
      text_eq call.kind function_kind
      && not (is_empty call.id)
      && leb (length call.id) api_tool_call_id_limit
      && allowed name
      && json_object arguments

  -- the loop over a reply's calls, with the ids that it has seen
  unfoldable pub check_calls : List Text → List ReplyCall → Option (List Proposal)
  unfolding is_call
  check_calls seen [] = some []
  check_calls seen (call ∷ calls) =
      let rest = check_calls (call.id ∷ seen) calls in
      if is_call call call.function && not (text_mem call.id seen)
      then with_first (propose call call.function) rest
      else none

  unfoldable pub parse_finish : Option String → List ReplyCall → Text → Parsed
  unfolding finish_failure check_calls
  parse_finish reason calls content =
      if not (str_eq (finish_failure reason (length calls)) "")
      then rejected (finish_failure reason (length calls))
      else if ltb max_tool_proposals (length calls)
      then rejected "invalid_tool_call"
      else answered content (check_calls [] calls)

  unfoldable pub parse_content : Option String → List ReplyCall → Content → Parsed
  unfolding parse_finish
  parse_content reason calls no_content = parse_finish reason calls []
  parse_content reason calls other_content = rejected "malformed_response"
  parse_content reason calls (text_content text) = parse_finish reason calls text

  unfoldable pub parse_reply : Option String → Option Reply → Parsed
  unfolding parse_content
  parse_reply reason none = rejected "malformed_response"
  parse_reply reason (some reply) =
      if not (str_eq reply.role "") && not (str_eq reply.role "assistant")
      then rejected "malformed_response"
      else if is_refusal reply.refusal
      then rejected "model_refusal"
      else parse_content reason reply.calls reply.content

  unfoldable pub parse_choices : Option Text → List ResponseChoice → Parsed
  unfolding parse_reply
  parse_choices (some failure) choices = embedded failure
  parse_choices none [] = rejected "unexpected_choice_count"
  parse_choices none (c ∷ []) = parse_reply c.finish c.message
  parse_choices none (c ∷ d ∷ choices) = rejected "unexpected_choice_count"

  -- `parseChatCompletion`
  unfoldable pub parse_chat_completion : Response → Parsed
  unfolding parse_choices
  parse_chat_completion r = parse_choices r.failure r.choices
