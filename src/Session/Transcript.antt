-- ===== src/Session/Transcript.antt =====
-- session/api_transcript.go: the durable conversation of a session whose loop the library runs, what a
-- request carries of it, and its recovery after a crash. Texts are lists of bytes. A record has the
-- fields that its type writes; its time is left out. A transcript key, `Itoa(response) + ":" + call`, is
-- the pair that it is made of: a number has no colon.
pub mod Answers
pub mod Recovered
use lib_agent_harness.Prelude.{
  ℕ, Bool, true, false, ◌&&◌, not, Option, none, some, List, [], ◌∷◌, ◌++◌, String, str_eq, ◌==◌,
  codes, if◌then◌else◌,
}
use lib_agent_harness.Text.{Text, bound}
use lib_agent_harness.Usage.{Usage}

-- `completion.ToolCall`, with the type, and the name and the arguments of its function
pub record ToolCall : Type 0 where
  pub id : String
  pub kind : String
  pub name : String
  pub arguments : Text
  pub replay : Text

pub data Outcome : Type 0 where
  ran refused not_run unknown : Outcome

pub data Record : Type 0 where
  header : Record
  turn_start : String → Record
  user : String → Text → Record
  -- the turn, the response, its text, its opaque state and its calls
  assistant : String → ℕ → Text → Text → List ToolCall → Record
  -- the turn, the response, the call and its tool
  tool_call : String → ℕ → String → String → Record
  -- and of a result the text, whether it is an error, and the outcome
  tool_result : String → ℕ → String → String → Text → Bool → Outcome → Record
  usage : String → Usage → Record
  -- the turn, its status and its code
  turn_end : String → String → String → Record

abbrev pub Key : Type 0
Key = ℕ × String

abbrev pub same_key : Key → Key → Bool
same_key (r, c) (r', c') = r == r' && str_eq c c'

-- The two maps of `callStates`, from a key to the text of its result and to whether it was started.
pub record CallStates : Type 0 where
  pub results : Key → Option Text
  pub started : Key → Bool

abbrev pub no_states : CallStates
no_states = record { results = λ _. none; started = λ _. false }

-- the loop of `callStates`: a later result replaces an earlier one
unfoldable pub note : CallStates → Record → CallStates
note s (tool_call turn response call tool) = record s {
  started = λ k. if same_key (response, call) k then true else s.started k;
}
note s (tool_result turn response call tool text is_error outcome) = record s {
  results = λ k. if same_key (response, call) k then some text else s.results k;
}
note s _ = s

unfoldable pub note_all : CallStates → List Record → CallStates
note_all s [] = s
note_all s (r ∷ rs) = note_all (note s r) rs

unfoldable pub call_states : List Record → CallStates
call_states rs = note_all no_states rs

pub data Message : Type 0 where
  system : Text → Message
  from_user : Text → Message
  from_assistant : Text → Text → List ToolCall → Message
  tool : String → Text → Message

abbrev pub not_run_text : Text
not_run_text =
    codes "This call was not run: the turn ended before it started. Nothing was executed."

abbrev pub unknown_outcome_text : Text
unknown_outcome_text =
    codes
      "The outcome of this call is unknown: the session stopped while it was running, so its effects may or may not have happened. It was not run again; establish what it did from evidence before relying on it."

-- the text that answers a call: its result's, or what is known of a call with no result
unfoldable pub answer : CallStates → Key → Text
answer s k = elim (s.results k) [
  | some text ↦ text
  | none ↦ if s.started k then unknown_outcome_text else not_run_text
]

-- the text that `bound` returns; `none`, that its fuel ran out, is no run of the source
abbrev pub or_empty : Option Text → Text
or_empty none = []
or_empty (some text) = text

unfoldable pub answers : CallStates → ℕ → ℕ → List ToolCall → List Message
unfolding answer
answers s limit response [] = []
answers s limit response (call ∷ calls) =
    tool call.id (or_empty (bound (answer s (response, call.id)) limit))
    ∷ answers s limit response calls

unfoldable pub messages_of : CallStates → ℕ → Record → List Message
unfolding answers
messages_of s limit (user turn text) = from_user text ∷ []
messages_of s limit (assistant turn response text replay calls) =
    from_assistant text replay calls ∷ answers s limit response calls
messages_of s limit _ = []

unfoldable pub all_messages : CallStates → ℕ → List Record → List Message
unfolding messages_of
all_messages s limit [] = []
all_messages s limit (r ∷ rs) = messages_of s limit r ++ all_messages s limit rs

abbrev pub is_empty : Text → Bool
is_empty [] = true
is_empty (_ ∷ _) = false

-- `conversation`
unfoldable pub conversation : List Record → Text → ℕ → List Message
unfolding all_messages
conversation rs instructions limit =
    let rest = all_messages (call_states rs) limit rs in
    if is_empty instructions then rest else system instructions ∷ rest

-- `Recovery`
pub record Recovery : Type 0 where
  pub turn : String
  pub unknown_outcomes : List (String × String)

-- the record that settles a call with no result
unfoldable pub settling : CallStates → String → ℕ → ToolCall → Record
settling s turn response call =
    if s.started (response, call.id)
    then tool_result turn response call.id call.name unknown_outcome_text true unknown
    else tool_result turn response call.id call.name not_run_text true not_run

abbrev pub has_result : CallStates → Key → Bool
has_result s k = elim (s.results k) [ none ↦ false | some text ↦ true ]

unfoldable pub settle_calls : CallStates → String → ℕ → List ToolCall → List Record
unfolding settling
settle_calls s turn response [] = []
settle_calls s turn response (call ∷ calls) =
    let rest = settle_calls s turn response calls in
    if has_result s (response, call.id) then rest else settling s turn response call ∷ rest

unfoldable pub additions_of : CallStates → List Record → List Record
unfolding settle_calls
additions_of s [] = []
additions_of s (assistant turn response text replay calls ∷ rs) =
    settle_calls s turn response calls ++ additions_of s rs
additions_of s (_ ∷ rs) = additions_of s rs

unfoldable pub unknown_calls : CallStates → ℕ → List ToolCall → List (String × String)
unknown_calls s response [] = []
unknown_calls s response (call ∷ calls) =
    let rest = unknown_calls s response calls in
    if not (has_result s (response, call.id)) && s.started (response, call.id)
    then (call.id, call.name) ∷ rest
    else rest

unfoldable pub unknown_of : CallStates → List Record → List (String × String)
unfolding unknown_calls
unknown_of s [] = []
unknown_of s (assistant turn response text replay calls ∷ rs) =
    unknown_calls s response calls ++ unknown_of s rs
unknown_of s (_ ∷ rs) = unknown_of s rs

-- the turn that was started last, and the turns that have ended
unfoldable pub open_turn : String → List Record → String
open_turn latest [] = latest
open_turn latest (turn_start turn ∷ rs) = open_turn turn rs
open_turn latest (_ ∷ rs) = open_turn latest rs

unfoldable pub has_ended : String → List Record → Bool
has_ended turn [] = false
has_ended turn (turn_end t status code ∷ rs) = if str_eq t turn then true else has_ended turn rs
has_ended turn (_ ∷ rs) = has_ended turn rs

unfoldable pub interruption : String → List Record → List Record
unfolding has_ended
interruption turn rs =
    if not (str_eq turn "") && not (has_ended turn rs)
    then turn_end turn "interrupted" "session_interrupted" ∷ []
    else []

-- `recoverTranscript`
unfoldable pub recover_transcript : List Record → List Record × Recovery
unfolding additions_of unknown_of open_turn interruption
recover_transcript rs =
    let s = call_states rs in
    let turn = open_turn "" rs in
    (
      additions_of s rs ++ interruption turn rs,
      record {
        turn = elim (interruption turn rs) [ [] ↦ "" | _ ∷ _ ↦ turn ];
        unknown_outcomes = unknown_of s rs;
      },
    )
