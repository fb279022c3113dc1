-- ===== src/Chat/Stream/Choices.antt =====
-- completion/openai_stream.go: what the choices of a stream write.
use lib_agent_harness.Prelude.{
  ℕ, ◌+◌, ◌≤◌, String, Bool, true, false, ◌||◌, Option, none, some, List, [], ◌∷◌, ◌++◌, All, ◌≡◌,
  refl, sym, ap, subst, ◌∙◌, arith,
}
use mathlib.Core.List.{append_assoc, append-nil}
use lib_agent_harness.Text.{Text}
use lib_agent_harness.Chat.Stream.{
  Fragment, Choice, StreamedCall, ChatStream, or_else, written, is_some, is_first, add_delta,
  add_finish, add_choice, add_choices, if_fine,
}
use lib_agent_harness.Chat.Stream.Calls.{IsPlaced, Added, Added-append, Added-none, add_calls-Added}

abbrev pub or_nothing : Option Text → Text
or_nothing none = []
or_nothing (some text) = text

-- a part of the choices, joined
unfoldable pub texts : (Choice → Option Text) → List Choice → Text
texts part [] = []
texts part (c ∷ cs) = or_nothing (part c) ++ texts part cs

unfoldable pub has_any : (Choice → Option Text) → List Choice → Bool
has_any part [] = false
has_any part (c ∷ cs) = is_some (part c) || has_any part cs

unfoldable pub all_details : List Choice → List Text
all_details [] = []
all_details (c ∷ cs) = c.details ++ all_details cs

unfoldable pub all_fragments : List Choice → List Fragment
all_fragments [] = []
all_fragments (c ∷ cs) = c.calls ++ all_fragments cs

-- the reason to finish that comes last
unfoldable pub last_reason : List Choice → Option String
last_reason [] = none
last_reason (c ∷ cs) = or_else (last_reason cs) c.finish

abbrev pub one_if {ℓ} : {A : Type ℓ} → Option A → ℕ
one_if none = 0
one_if (some _) = 1

unfoldable pub reasons : List Choice → ℕ
reasons [] = 0
reasons (c ∷ cs) = one_if c.finish + reasons cs

abbrev pub is_nonempty {ℓ} : {A : Type ℓ} → List A → Bool
is_nonempty [] = false
is_nonempty (_ ∷ _) = true

-- What choices write: each text is what was there and then their parts, in their order.
pub record Grows (s : ChatStream) (cs : List Choice) (s' : ChatStream) : Type 0 where
  pub content : s'.content ≡ s.content ++ texts (λ c. c.content) cs
  pub reasoning : s'.reasoning ≡ s.reasoning ++ texts (λ c. c.reasoning) cs
  pub refusal : s'.refusal ≡ s.refusal ++ texts (λ c. c.refusal) cs
  pub saw_content : s'.saw_content ≡ s.saw_content || has_any (λ c. c.content) cs
  pub saw_reasoning : s'.saw_reasoning ≡ s.saw_reasoning || has_any (λ c. c.reasoning) cs
  pub saw_refusal : s'.saw_refusal ≡ s.saw_refusal || has_any (λ c. c.refusal) cs
  pub details : s'.details ≡ s.details ++ all_details cs
  pub calls : Added s.calls (all_fragments cs) s'.calls
  pub finish : s'.finish ≡ or_else (last_reason cs) s.finish
  pub saw_choice : s'.saw_choice ≡ s.saw_choice || is_nonempty cs
  pub same_usage : s'.usage ≡ s.usage
  pub same_failure : s'.failure ≡ s.failure

-- A choice that can be read: the first one, with its fragments placed.
abbrev pub IsReadable : Choice → Type 0
IsReadable c = (is_first c.index ≡ true) × All IsPlaced c.calls

written-append :
    (text rest : Text) (more : Option Text)
    → written text more ++ rest ≡ text ++ (or_nothing more ++ rest)
written-append text rest none = refl
written-append text rest (some more) = append_assoc text more rest

or_assoc : (a b c : Bool) → (a || b) || c ≡ a || (b || c)
or_assoc true b c = refl
or_assoc false b c = refl

or_true : (b : Bool) → (b || true) ≡ true
or_true true = refl
or_true false = refl

or_else_assoc : (a b c : Option String) → or_else a (or_else b c) ≡ or_else (or_else a b) c
or_else_assoc none b c = refl
or_else_assoc (some a) b c = refl

add_finish_lem :
    (s : ChatStream) (old reason : Option String)
    → s.finish ≡ old
    → one_if old + one_if reason ≤ 1
    → add_finish s old reason ≡ (record s { finish = or_else reason old }, none)
add_finish_lem s old none h once = ap (λ f. (record s { finish = f }, none)) h
add_finish_lem s none (some reason) h once = refl
add_finish_lem s (some o) (some reason) h once = absurd (omega (arith, once))

module _ (s : ChatStream) (c : Choice) where
  abbrev pub chosen : List StreamedCall → ChatStream
  chosen calls = record (add_delta s c) { calls = calls; finish = or_else c.finish s.finish }

  add_choice-chosen :
      IsReadable c
      → one_if s.finish + one_if c.finish ≤ 1
      → (calls : List StreamedCall) × (add_choice s c ≡ (chosen calls, none))
        × Added s.calls c.calls calls
  unfolding add_choice
  add_choice-chosen (first, placed) once =
      let (calls, ok, a) = add_calls-Added s.calls c.calls placed in
      (
        calls,
        rw (first, ok)
            (add_finish_lem (record (add_delta s c) { calls = calls }) s.finish c.finish refl once),
        a,
      )

  Grows-chosen :
      (calls : List StreamedCall) (cs : List Choice) (s' : ChatStream)
      → Added s.calls c.calls calls
      → Grows (chosen calls) cs s'
      → Grows s (c ∷ cs) s'
  unfolding texts has_any all_details all_fragments last_reason
  Grows-chosen calls cs s' a g = record {
    content = g.content ∙ written-append s.content (texts (λ d. d.content) cs) c.content;
    reasoning = g.reasoning ∙ written-append s.reasoning (texts (λ d. d.reasoning) cs) c.reasoning;
    refusal = g.refusal ∙ written-append s.refusal (texts (λ d. d.refusal) cs) c.refusal;
    saw_content =
        g.saw_content ∙ or_assoc s.saw_content (is_some c.content) (has_any (λ d. d.content) cs);
    saw_reasoning =
        g.saw_reasoning
        ∙ or_assoc s.saw_reasoning (is_some c.reasoning) (has_any (λ d. d.reasoning) cs);
    saw_refusal =
        g.saw_refusal ∙ or_assoc s.saw_refusal (is_some c.refusal) (has_any (λ d. d.refusal) cs);
    details = g.details ∙ append_assoc s.details c.details (all_details cs);
    calls = Added-append s.calls calls s'.calls c.calls (all_fragments cs) a g.calls;
    finish = g.finish ∙ or_else_assoc (last_reason cs) c.finish s.finish;
    saw_choice = g.saw_choice ∙ sym (or_true s.saw_choice);
    same_usage = g.same_usage;
    same_failure = g.same_failure;
  }

or_false : (b : Bool) → (b || false) ≡ b
or_false true = refl
or_false false = refl

pub Grows-none : (s s' : ChatStream) → s' ≡ s → Grows s [] s'
unfolding texts has_any all_details all_fragments last_reason
Grows-none s s' same = subst (Grows s []) (sym same) (record {
  content = sym (append-nil s.content);
  reasoning = sym (append-nil s.reasoning);
  refusal = sym (append-nil s.refusal);
  saw_content = sym (or_false s.saw_content);
  saw_reasoning = sym (or_false s.saw_reasoning);
  saw_refusal = sym (or_false s.saw_refusal);
  details = sym (append-nil s.details);
  calls = Added-none s.calls;
  finish = refl;
  saw_choice = sym (or_false s.saw_choice);
  same_usage = refl;
  same_failure = refl;
})

one_if-or_else :
    (a b : Option String) → one_if a + one_if b ≤ 1 → one_if (or_else b a) ≡ one_if a + one_if b
one_if-or_else a none once = omega arith
one_if-or_else none (some r) once = omega arith
one_if-or_else (some q) (some r) once = absurd (omega (arith, once))

pub add_choices-Grows :
    (s : ChatStream) (cs : List Choice)
    → All IsReadable cs
    → one_if s.finish + reasons cs ≤ 1
    → (s' : ChatStream) × (add_choices s cs ≡ (s', none)) × Grows s cs s'
unfolding add_choices reasons
add_choices-Grows s [] readable once = (s, refl, Grows-none s s refl)
add_choices-Grows s (c ∷ cs) (r, readable) once =
    let (calls, ok, a) = add_choice-chosen s c r (omega (arith, once)) in
    let (s', oks, g) =
      add_choices-Grows (chosen s c calls) cs readable
        (omega (arith, once, one_if-or_else s.finish c.finish (omega (arith, once)))) in
    (s', ap (λ r'. if_fine r' (λ t. add_choices t cs)) ok ∙ oks, Grows-chosen s c calls cs s' a g)
