-- ===== src/Chat/Stream/Assembled.antt =====
-- completion/openai_stream.go: what a stream of chunks assembles.
use lib_agent_harness.Prelude.{
  ◌≤◌, String, Bool, true, false, Option, none, some, List, [], ◌∷◌, ◌++◌, All, map, if◌then◌else◌,
  ◌≡◌, refl, sym, ap, ◌∙◌, arith,
}
use lib_agent_harness.Text.{Text}
use lib_agent_harness.Chat.Stream.{
  Choice, Chunk, StreamedCall, ChatStream, new_stream, or_else, after_calls, add_delta, add_finish,
  is_first, add_calls, add_choice, add_choices, add_chunk, add, adds, if_fine,
}
use lib_agent_harness.Chat.Stream.Choices.{Grows, IsReadable, reasons, add_choices-Grows}

-- A chunk that reports a failure is read no further.
abbrev pub choices_unless : Option Text → List Choice → List Choice
choices_unless none cs = cs
choices_unless (some _) cs = []

unfoldable pub choices_of : List Chunk → List Choice
choices_of [] = []
choices_of (chunk ∷ chunks) = choices_unless chunk.failure chunk.choices ++ choices_of chunks

abbrev pub usage_unless : Option Text → Option Text → Option Text
usage_unless none u = u
usage_unless (some _) u = none

unfoldable pub last_usage : List Chunk → Option Text
last_usage [] = none
last_usage (chunk ∷ chunks) = or_else (last_usage chunks) (usage_unless chunk.failure chunk.usage)

unfoldable pub last_failure : List Chunk → Option Text
last_failure [] = none
last_failure (chunk ∷ chunks) = or_else (last_failure chunks) chunk.failure

-- a stream with other usage and failure
abbrev pub with_ends : Option Text → Option Text → ChatStream → ChatStream
with_ends usage failure s = record s {
  usage = or_else usage s.usage;
  failure = or_else failure s.failure;
}

abbrev pub both {ℓ} : {A B : Type ℓ} → (A → B) → A × Option String → B × Option String
both g (a, e) = (g a, e)

module _ (u f : Option Text) where
  add_finish-ends :
      (s : ChatStream) (old reason : Option String)
      → add_finish (with_ends u f s) old reason ≡ both (with_ends u f) (add_finish s old reason)
  add_finish-ends s old none = refl
  add_finish-ends s none (some r) = refl
  add_finish-ends s (some o) (some r) = refl

  after_calls-ends :
      (s : ChatStream) (reason : Option String) (r : List StreamedCall × Option String)
      → after_calls (with_ends u f s) reason r ≡ both (with_ends u f) (after_calls s reason r)
  after_calls-ends s reason (calls, some code) = refl
  after_calls-ends s reason (calls, none) =
      add_finish-ends (record s { calls = calls }) s.finish reason

  add_choice-ends :
      (s : ChatStream) (c : Choice)
      → add_choice (with_ends u f s) c ≡ both (with_ends u f) (add_choice s c)
  unfolding add_choice
  add_choice-ends s c = each (is_first c.index)
    where
      r : List StreamedCall × Option String
      r = add_calls s.calls c.calls

      each :
          (b : Bool)
          → (if b
              then after_calls (with_ends u f (add_delta s c)) c.finish r
              else (with_ends u f s, some "unexpected_choice_count"))
            ≡ both (with_ends u f) (
                if b
                then after_calls (add_delta s c) c.finish r
                else (s, some "unexpected_choice_count"))
      each true = after_calls-ends (add_delta s c) c.finish r
      each false = refl

  add_choices-ends :
      (s : ChatStream) (cs : List Choice)
      → add_choices (with_ends u f s) cs ≡ both (with_ends u f) (add_choices s cs)
  unfolding add_choices
  add_choices-ends s [] = refl
  add_choices-ends s (c ∷ cs) =
      ap (λ r. if_fine r (λ t. add_choices t cs)) (add_choice-ends s c)
      ∙ each (add_choice s c) (λ t. add_choices-ends t cs)
    where
      each :
          (r : ChatStream × Option String)
          → ((t : ChatStream)
              → add_choices (with_ends u f t) cs ≡ both (with_ends u f) (add_choices t cs))
          → if_fine (both (with_ends u f) r) (λ t. add_choices t cs)
            ≡ both (with_ends u f) (if_fine r (λ t. add_choices t cs))
      each (t, some code) rest = refl
      each (t, none) rest = rest t

add_choices-append :
    (s : ChatStream) (xs ys : List Choice)
    → add_choices s (xs ++ ys) ≡ if_fine (add_choices s xs) (λ t. add_choices t ys)
unfolding add_choices
add_choices-append s [] ys = refl
add_choices-append s (x ∷ xs) ys = each (add_choice s x) (λ t. add_choices-append t xs ys)
  where
    each :
        (r : ChatStream × Option String)
        → ((t : ChatStream)
            → add_choices t (xs ++ ys) ≡ if_fine (add_choices t xs) (λ t'. add_choices t' ys))
        → if_fine r (λ t. add_choices t (xs ++ ys))
          ≡ if_fine (if_fine r (λ t. add_choices t xs)) (λ t. add_choices t ys)
    each (t, some code) rest = refl
    each (t, none) rest = rest t

or_else_assoc : (a b c : Option Text) → or_else a (or_else b c) ≡ or_else (or_else a b) c
or_else_assoc none b c = refl
or_else_assoc (some a) b c = refl

add-choices :
    (s : ChatStream) (chunk : Chunk)
    → add s (some chunk)
      ≡ both
          (with_ends (usage_unless chunk.failure chunk.usage) chunk.failure)
          (add_choices s (choices_unless chunk.failure chunk.choices))
unfolding add add_chunk add_choices
add-choices s chunk = each chunk.failure
  where
    each :
        (f : Option Text)
        → add_chunk s chunk f
          ≡ both
              (with_ends (usage_unless f chunk.usage) f)
              (add_choices s (choices_unless f chunk.choices))
    each none = add_choices-ends chunk.usage none s chunk.choices
    each (some text) = refl

ends_twice :
    (u v f g : Option Text) (s : ChatStream)
    → with_ends u f (with_ends v g s) ≡ with_ends (or_else u v) (or_else f g) s
ends_twice u v f g s = rw (or_else_assoc u v s.usage, or_else_assoc f g s.failure) refl

-- Chunks are read as all their choices, then their last usage and their last failure.
adds-choices :
    (s : ChatStream) (chunks : List Chunk) (s' : ChatStream)
    → add_choices s (choices_of chunks) ≡ (s', none)
    → adds s (map some chunks) ≡ (with_ends (last_usage chunks) (last_failure chunks) s', none)
unfolding adds choices_of last_usage last_failure add_choices
adds-choices s [] s' ok = ap (both (λ t. t)) ok
adds-choices s (chunk ∷ chunks) s' ok =
    each (add_choices s xs) refl (sym (add_choices-append s xs ys) ∙ ok)
      (λ t t'. adds-choices t chunks t')
  where
    xs : List Choice
    xs = choices_unless chunk.failure chunk.choices

    ys : List Choice
    ys = choices_of chunks

    w : ChatStream → ChatStream
    w = with_ends (usage_unless chunk.failure chunk.usage) chunk.failure

    each :
        (r : ChatStream × Option String)
        → add_choices s xs ≡ r
        → if_fine r (λ t. add_choices t ys) ≡ (s', none)
        → ((t t' : ChatStream)
            → add_choices t ys ≡ (t', none)
            → adds t (map some chunks)
              ≡ (with_ends (last_usage chunks) (last_failure chunks) t', none))
        → adds s (map some (chunk ∷ chunks))
          ≡ (with_ends (last_usage (chunk ∷ chunks)) (last_failure (chunk ∷ chunks)) s', none)
    each (t, some code) h fine rest = absurd (ground (arith, fine))
    each (t, none) h fine rest =
        ap (λ r. if_fine r (λ t'. adds t' (map some chunks))) (add-choices s chunk ∙ ap (both w) h)
        ∙ rest (w t) (w s') (
            add_choices-ends (usage_unless chunk.failure chunk.usage) chunk.failure t ys
            ∙ ap (both w) fine)
        ∙ ap (λ t'. (t', none))
            (ends_twice (last_usage chunks) (usage_unless chunk.failure chunk.usage)
              (last_failure chunks) chunk.failure s')

-- What a stream has of its chunks: the texts, the details, the calls and the finish are those of all the
-- choices in order, and the usage and the failure are the last ones.
pub record Assembles (chunks : List Chunk) (s : ChatStream) : Type 0 where
  pub grows : Grows new_stream (choices_of chunks) (record s { usage = none; failure = none })
  pub usage : s.usage ≡ last_usage chunks
  pub failure : s.failure ≡ last_failure chunks

or_else-none : (a b : Option Text) → b ≡ none → or_else a b ≡ a
or_else-none none b h = h
or_else-none (some a) b h = refl

with_ends-Assembles :
    (chunks : List Chunk) (t : ChatStream)
    → Grows new_stream (choices_of chunks) t
    → Assembles chunks (with_ends (last_usage chunks) (last_failure chunks) t)
with_ends-Assembles chunks t g = record {
  grows = record {
    content = g.content;
    reasoning = g.reasoning;
    refusal = g.refusal;
    saw_content = g.saw_content;
    saw_reasoning = g.saw_reasoning;
    saw_refusal = g.saw_refusal;
    details = g.details;
    calls = g.calls;
    finish = g.finish;
    saw_choice = g.saw_choice;
    same_usage = refl;
    same_failure = refl;
  };
  usage = or_else-none (last_usage chunks) t.usage g.same_usage;
  failure = or_else-none (last_failure chunks) t.failure g.same_failure;
}

-- A stream of chunks is read without an error and assembled, however it is cut into chunks and its calls
-- into fragments: each text is the choices' parts joined in order, the call at an index has the parts of
-- its fragments joined in order and their last extra content, there are as many calls as the largest
-- index needs, and usage and failure are the last ones. Its choices have index 0, its fragments an index
-- from 0 to 63, and at most one choice has a reason to finish.
pub assembles :
    (chunks : List Chunk)
    → All IsReadable (choices_of chunks)
    → reasons (choices_of chunks) ≤ 1
    → (s : ChatStream) × (adds new_stream (map some chunks) ≡ (s, none)) × Assembles chunks s
assembles chunks readable once =
    let (t, ok, g) =
      add_choices-Grows new_stream (choices_of chunks) readable (omega (arith, once)) in
    (
      with_ends (last_usage chunks) (last_failure chunks) t,
      adds-choices new_stream chunks t ok,
      with_ends-Assembles chunks t g,
    )
