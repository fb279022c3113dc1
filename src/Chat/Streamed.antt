-- ===== src/Chat/Streamed.antt =====
-- completion/openai_stream.go: `response` and `reply`, and the answer that is parsed from them. A text
-- that is encoded as JSON and decoded again is that text.
use lib_agent_harness.Prelude.{
  ℕ, zero, suc, ◌≤◌, ◌<◌, String, Bool, true, false, ◌||◌, Option, none, some, List, [], ◌∷◌, ◌++◌,
  length, get_elem?, All, map, if◌then◌else◌, ◌≡◌, refl, sym, ap, subst, ◌∙◌, ◌≢◌, ◌⊎◌, inl, inr,
  arith,
}
use lib_agent_harness.Text.{Text}
use lib_agent_harness.Chat.Stream.{
  Choice, Chunk, is_some, StreamedCall, no_call, ChatStream, new_stream, adds,
}
use lib_agent_harness.Chat.Stream.Merging.{call_at}
use lib_agent_harness.Chat.Stream.Calls.{fragments_at, joined, grown, span}
use lib_agent_harness.Chat.Stream.Choices.{
  IsReadable, or_nothing, texts, has_any, all_fragments, reasons,
}
use lib_agent_harness.Chat.Stream.Assembled.{choices_of, last_failure, Assembles, assembles}
use lib_agent_harness.Chat.Reply.{
  ReplyCall, no_content, text_content, Reply, Response, Proposal, Answer, accepted, is_call,
  is_empty, ResponseChoice, parse_chat_completion,
}
use lib_agent_harness.Chat.Reply.Calls.{proposed}
use lib_agent_harness.Chat.Reply.Accepted.{IsAcceptable, accepts_iff}

abbrev pub reply_call : StreamedCall → ReplyCall
reply_call call = record {
  id = call.id;
  kind = call.kind;
  function = some (call.name, call.arguments);
}

-- `reply`
abbrev pub stream_reply : ChatStream → Reply
stream_reply s = record {
  role = "assistant";
  content = if s.saw_content then text_content s.content else no_content;
  refusal = if s.saw_refusal then some s.refusal else none;
  calls = map reply_call s.calls;
}

abbrev pub only_if : Bool → ResponseChoice → List ResponseChoice
only_if true x = x ∷ []
only_if false x = []

-- `response`
unfoldable pub response : ChatStream → Response
response s = record {
  failure = s.failure;
  choices = only_if s.saw_choice (record { finish = s.finish; message = some (stream_reply s) });
}

-- What an accepted answer has: the content of the choices in order, a finish, and calls whose parts are
-- those of their fragments, none without a fragment.
pub record IsRelayed (chunks : List Chunk) (m : Answer) : Type 0 where
  pub unfailed : last_failure chunks ≡ none
  pub content : m.content ≡ texts (λ c. c.content) (choices_of chunks)
  pub size : length m.calls ≡ span 0 (all_fragments (choices_of chunks))
  pub each :
      (i : ℕ)
      → i < length m.calls
      → (get_elem? m.calls i
          ≡ some (record {
            id = joined (λ f. f.id) (fragments_at i (all_fragments (choices_of chunks)));
            name = joined (λ f. f.name) (fragments_at i (all_fragments (choices_of chunks)));
            arguments =
                joined (λ f. f.arguments) (fragments_at i (all_fragments (choices_of chunks)));
          }))
        × (fragments_at i (all_fragments (choices_of chunks)) ≢ [])

abbrev proposal : StreamedCall → Proposal
proposal call = record { id = call.id; name = call.name; arguments = call.arguments }

length-proposed :
    (calls : List StreamedCall) → length (proposed (map reply_call calls)) ≡ length calls
length-proposed [] = refl
length-proposed (call ∷ calls) = ap suc (length-proposed calls)

get_elem?-proposed :
    (calls : List StreamedCall) (i : ℕ)
    → i < length calls
    → get_elem? (proposed (map reply_call calls)) i ≡ some (proposal (call_at calls i))
unfolding call_at
get_elem?-proposed [] i inside = absurd (omega (arith, inside))
get_elem?-proposed (call ∷ calls) zero inside = refl
get_elem?-proposed (call ∷ calls) (suc i) inside =
    get_elem?-proposed calls i (omega (arith, inside))

-- A text that no choice writes is empty.
texts-none :
    (part : Choice → Option Text) (cs : List Choice) → has_any part cs ≡ false → texts part cs ≡ []
unfolding texts has_any
texts-none part [] h = refl
texts-none part (c ∷ cs) h = each (part c) h (texts-none part cs)
  where
    each :
        (o : Option Text)
        → (is_some o || has_any part cs) ≡ false
        → (has_any part cs ≡ false → texts part cs ≡ [])
        → or_nothing o ++ texts part cs ≡ []
    each none k rest = rest k
    each (some t) k rest = absurd (ground (arith, k))

content_same :
    (b : Bool) (t mc : Text)
    → ((if b then text_content t else no_content) ≡ no_content × mc ≡ [])
      ⊎ ((if b then text_content t else no_content) ≡ text_content mc)
    → (b ≡ false → t ≡ [])
    → mc ≡ t
content_same true t mc (inl (e, _)) nothing = absurd (ground (arith, e))
content_same true t mc (inr e) nothing = sym (inner e)
  where
    inner : text_content t ≡ text_content mc → t ≡ mc
    inner q = cc
content_same false t mc (inl (_, e)) nothing = e ∙ sym (nothing refl)
content_same false t mc (inr e) nothing = absurd (ground (arith, e))

module _ (allowed json_object : Text → Bool) where
  call_at-id :
      (calls : List StreamedCall) (i : ℕ)
      → i < length calls
      → All (λ c. is_call allowed json_object c c.function ≡ true) (map reply_call calls)
      → is_empty (call_at calls i).id ≡ false
  unfolding call_at is_call
  call_at-id [] i inside each = absurd (omega (arith, inside))
  call_at-id (call ∷ calls) zero inside (e, each) = ground (arith, e)
  call_at-id (call ∷ calls) (suc i) inside (e, each) =
      call_at-id calls i (omega (arith, inside)) each

  the_reply :
      (s : ChatStream) (reason : Option String) (reply : Reply)
      → (response s).choices ≡ record { finish = reason; message = some reply } ∷ []
      → stream_reply s ≡ reply
  unfolding response
  the_reply s reason reply h = each s.saw_choice h
    where
      reply_of : List ResponseChoice → Option Reply
      reply_of (c ∷ cs) = c.message
      reply_of [] = none

      each :
          (b : Bool)
          → only_if b (record { finish = s.finish; message = some (stream_reply s) })
            ≡ record { finish = reason; message = some reply } ∷ []
          → stream_reply s ≡ reply
      each true e = some_reply (ap reply_of e)
        where
          some_reply : some (stream_reply s) ≡ some reply → stream_reply s ≡ reply
          some_reply q = cc
      each false e = absurd (ground (arith, e))

  acceptable-IsRelayed :
      (chunks : List Chunk) (s : ChatStream) (m : Answer) (reason : Option String)
      → Assembles chunks s
      → s.failure ≡ none
      → IsAcceptable allowed json_object reason (stream_reply s) m
      → IsRelayed chunks m
  unfolding call_at joined
  acceptable-IsRelayed chunks s m reason a fine k = record {
    unfailed = sym a.failure ∙ fine;
    content =
        content_same s.saw_content s.content m.content k.content (λ e.
          a.grows.content
          ∙ texts-none (λ c. c.content) (choices_of chunks) (sym a.grows.saw_content ∙ e))
        ∙ a.grows.content;
    size = size ∙ a.grows.calls.size;
    each = λ i inside. (
      ap (λ l. get_elem? l i) k.calls
          ∙ get_elem?-proposed s.calls i (omega (arith, inside, size))
          ∙ ap (λ c. some (proposal c)) (a.grows.calls.each i),
      λ missing. absurd (
          ground (
            arith,
            call_at-id s.calls i (omega (arith, inside, size)) k.each,
            ap (λ c. is_empty c.id) (a.grows.calls.each i ∙ ap (grown no_call) missing),
          )),
    );
  }
    where
      size : length m.calls ≡ length s.calls
      size = ap length k.calls ∙ length-proposed s.calls

-- What is accepted of a stream is what was streamed. If an answer is accepted from a stream's response,
-- no chunk reported a failure, the answer's content is that of the choices joined in order, and the call
-- at each index has the id, the name and the arguments of that index's fragments joined in order, of
-- which there is at least one: a stream that skips an index is not accepted. The chunks are as
-- `assembles` wants them.
pub streamed_answer :
    (allowed json_object : Text → Bool) (chunks : List Chunk) (m : Answer)
    → All IsReadable (choices_of chunks)
    → reasons (choices_of chunks) ≤ 1
    → parse_chat_completion allowed json_object (response (adds new_stream (map some chunks)).0)
      ≡ accepted m
    → IsRelayed chunks m
unfolding response
streamed_answer allowed json_object chunks m readable once h =
    let (s, ok, a) = assembles chunks readable once in
    let (fine, reason, reply, only, k) =
      (accepts_iff allowed json_object (response s) m).0
        (subst (λ r. parse_chat_completion allowed json_object (response r.0) ≡ accepted m) ok h) in
    acceptable-IsRelayed allowed json_object chunks s m reason a fine (
      subst (λ q. IsAcceptable allowed json_object reason q m)
        (sym (the_reply allowed json_object s reason reply only)) k)
