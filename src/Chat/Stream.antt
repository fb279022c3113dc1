-- ===== src/Chat/Stream.antt =====
-- completion/openai_stream.go: `chatStream`, which assembles a streamed response. Raw JSON is its text,
-- and `none` where `rawjson.Absent` holds of it. An event that does not decode is `none`.
pub mod Assembled
pub mod Calls
pub mod Choices
pub mod Merging
use lib_agent_harness.Prelude.{
  ℕ, zero, suc, ◌+◌, String, Bool, true, false, not, ◌&&◌, ◌||◌, Option, none, some, List, [], ◌∷◌,
  ◌++◌, leb, if◌then◌else◌,
}
use lib_agent_harness.Prelude.Int.{ℤ, pos, negsuc}
use lib_agent_harness.Text.{Text}

-- `chatCallDelta`
pub record Fragment : Type 0 where
  pub index : Option ℤ
  pub id : Text
  pub kind : Text
  pub name : Text
  pub arguments : Text
  pub extra : Option Text

pub record Choice : Type 0 where
  pub index : ℤ
  pub content : Option Text
  pub reasoning : Option Text
  pub details : List Text
  pub refusal : Option Text
  pub calls : List Fragment
  pub finish : Option String

-- `chatChunk`
pub record Chunk : Type 0 where
  pub choices : List Choice
  pub usage : Option Text
  pub failure : Option Text

-- `streamedCall`
pub record StreamedCall : Type 0 where
  pub id : Text
  pub kind : Text
  pub name : Text
  pub arguments : Text
  pub extra : Option Text

abbrev pub no_call : StreamedCall
no_call = record { id = []; kind = []; name = []; arguments = []; extra = none }

pub record ChatStream : Type 0 where
  pub content : Text
  pub reasoning : Text
  pub refusal : Text
  pub saw_content : Bool
  pub saw_reasoning : Bool
  pub saw_refusal : Bool
  pub details : List Text
  pub calls : List StreamedCall
  pub finish : Option String
  pub usage : Option Text
  pub failure : Option Text
  pub saw_choice : Bool

abbrev pub new_stream : ChatStream
new_stream = record {
  content = [];
  reasoning = [];
  refusal = [];
  saw_content = false;
  saw_reasoning = false;
  saw_refusal = false;
  details = [];
  calls = [];
  finish = none;
  usage = none;
  failure = none;
  saw_choice = false;
}

abbrev pub max_streamed_calls : ℕ
max_streamed_calls = 64

abbrev pub or_else {ℓ} : {A : Type ℓ} → Option A → Option A → Option A
or_else none old = old
or_else (some new) old = some new

abbrev pub written : Text → Option Text → Text
written text none = text
written text (some more) = text ++ more

abbrev pub is_some {ℓ} : {A : Type ℓ} → Option A → Bool
is_some none = false
is_some (some _) = true

-- the calls, at least this many
unfoldable pub extended : ℕ → List StreamedCall → List StreamedCall
extended zero calls = calls
extended (suc n) [] = no_call ∷ extended n []
extended (suc n) (call ∷ calls) = call ∷ extended n calls

-- a fragment merged into its call
abbrev pub merged : StreamedCall → Fragment → StreamedCall
merged call f = record {
  id = call.id ++ f.id;
  kind = call.kind ++ f.kind;
  name = call.name ++ f.name;
  arguments = call.arguments ++ f.arguments;
  extra = or_else f.extra call.extra;
}

unfoldable pub merged_at : List StreamedCall → ℕ → Fragment → List StreamedCall
merged_at [] i f = []
merged_at (call ∷ calls) zero f = merged call f ∷ calls
merged_at (call ∷ calls) (suc i) f = call ∷ merged_at calls i f

-- the index of a fragment, if it is one
unfoldable pub place : Option ℤ → Option ℕ
place none = none
place (some (negsuc n)) = none
place (some (pos n)) = if leb max_streamed_calls n then none else some n

abbrev pub placed : List StreamedCall → Fragment → Option ℕ → List StreamedCall × Option String
placed calls f none = (calls, some "invalid_tool_call")
placed calls f (some i) = (merged_at (extended (suc i) calls) i f, none)

-- `addCall`
unfoldable pub add_call : List StreamedCall → Fragment → List StreamedCall × Option String
unfolding place extended merged_at
add_call calls f = placed calls f (place f.index)

abbrev pub if_fine {ℓ} :
    {A : Type ℓ} → A × Option String → (A → A × Option String) → A × Option String
if_fine (a, some code) next = (a, some code)
if_fine (a, none) next = next a

unfoldable pub add_calls : List StreamedCall → List Fragment → List StreamedCall × Option String
unfolding add_call
add_calls calls [] = (calls, none)
add_calls calls (f ∷ fs) = if_fine (add_call calls f) (λ calls'. add_calls calls' fs)

-- what a choice's delta writes, without its calls
abbrev pub add_delta : ChatStream → Choice → ChatStream
add_delta s c = record s {
  saw_choice = true;
  content = written s.content c.content;
  saw_content = s.saw_content || is_some c.content;
  reasoning = written s.reasoning c.reasoning;
  saw_reasoning = s.saw_reasoning || is_some c.reasoning;
  refusal = written s.refusal c.refusal;
  saw_refusal = s.saw_refusal || is_some c.refusal;
  details = s.details ++ c.details;
}

abbrev pub add_finish : ChatStream → Option String → Option String → ChatStream × Option String
add_finish s old none = (s, none)
add_finish s none (some reason) = (record s { finish = some reason }, none)
add_finish s (some _) (some reason) = (s, some "ambiguous_terminal_state")

abbrev pub after_calls :
    ChatStream → Option String → List StreamedCall × Option String → ChatStream × Option String
after_calls s reason (calls, some code) = (record s { calls = calls }, some code)
after_calls s reason (calls, none) = add_finish (record s { calls = calls }) s.finish reason

abbrev pub is_first : ℤ → Bool
is_first (pos zero) = true
is_first _ = false

-- one choice of a chunk
unfoldable pub add_choice : ChatStream → Choice → ChatStream × Option String
unfolding add_calls
add_choice s c =
    if is_first c.index
    then after_calls (add_delta s c) c.finish (add_calls s.calls c.calls)
    else (s, some "unexpected_choice_count")

unfoldable pub add_choices : ChatStream → List Choice → ChatStream × Option String
unfolding add_choice
add_choices s [] = (s, none)
add_choices s (c ∷ cs) = if_fine (add_choice s c) (λ s'. add_choices s' cs)

-- `add`
unfoldable pub add_chunk : ChatStream → Chunk → Option Text → ChatStream × Option String
unfolding add_choices
add_chunk s chunk (some failure) = (record s { failure = some failure }, none)
add_chunk s chunk none =
    add_choices (record s { usage = or_else chunk.usage s.usage }) chunk.choices

unfoldable pub add : ChatStream → Option Chunk → ChatStream × Option String
unfolding add_chunk
add s none = (s, some "malformed_response")
add s (some chunk) = add_chunk s chunk chunk.failure

-- `add` for the events of a stream, until one is refused
unfoldable pub adds : ChatStream → List (Option Chunk) → ChatStream × Option String
unfolding add
adds s [] = (s, none)
adds s (chunk ∷ chunks) = if_fine (add s chunk) (λ s'. adds s' chunks)
