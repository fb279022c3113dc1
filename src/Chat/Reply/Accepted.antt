-- ===== src/Chat/Reply/Accepted.antt =====
-- completion/openai_chat.go: which replies are accepted.
use lib_agent_harness.Prelude.{
  ◌≤◌, String, Bool, true, false, not, ◌&&◌, Option, none, some, List, [], ◌∷◌, length, str_eq, All,
  if◌then◌else◌, ◌≡◌, refl, sym, ap, ◌∙◌, ◌⊎◌, ◌↔◌, inl, inr, eq_iff, arith,
}
use lib_agent_harness.Text.{Text}
use lib_agent_harness.Chat.Reply.{
  ReplyCall, Content, no_content, other_content, text_content, Reply, ResponseChoice, Response,
  Answer, rejected, accepted, max_tool_proposals, text_mem, is_refusal, is_call, parse_finish,
  parse_content, parse_reply, parse_choices, parse_chat_completion,
}
use lib_agent_harness.Chat.Reply.Calls.{IsDistinct, proposed}
use lib_agent_harness.Chat.Reply.Finish.{
  IsFinished, IsFinal, parse_finish-IsFinal, parse_finish-accepted,
}

module _ (allowed json_object : Text → Bool) where
  -- A reply that may be accepted, and what is made of it.
  pub record IsAcceptable (reason : Option String) (reply : Reply) (m : Answer) : Type 0 where
    pub role : (reply.role ≡ "") ⊎ (reply.role ≡ "assistant")
    pub unrefused : is_refusal reply.refusal ≡ false
    pub content :
        (reply.content ≡ no_content × m.content ≡ []) ⊎ (reply.content ≡ text_content m.content)
    pub finished : IsFinished reason reply.calls
    pub few : length reply.calls ≤ max_tool_proposals
    pub each : All (λ c. is_call allowed json_object c c.function ≡ true) reply.calls
    pub distinct : IsDistinct reply.calls
    pub calls : m.calls ≡ proposed reply.calls

  -- A response that may be accepted: one choice with an acceptable reply.
  abbrev pub IsAnswer : Response → Answer → Type 0
  IsAnswer r m =
      (r.failure ≡ none)
      × (reason : Option String) × (reply : Reply) × (r.choices
          ≡ record { finish = reason; message = some reply } ∷ [])
      × IsAcceptable reason reply m

  acceptable :
      (reason : Option String) (reply : Reply) (m : Answer)
      → (reply.role ≡ "") ⊎ (reply.role ≡ "assistant")
      → is_refusal reply.refusal ≡ false
      → (reply.content ≡ no_content × m.content ≡ []) ⊎ (reply.content ≡ text_content m.content)
      → IsFinal allowed json_object reason reply.calls m
      → IsAcceptable reason reply m
  acceptable reason reply m role unrefused content f = record {
    role = role;
    unrefused = unrefused;
    content = content;
    finished = f.finished;
    few = f.few;
    each = f.checked.each;
    distinct = f.checked.distinct;
    calls = f.checked.proposals;
  }

  parse_content-IsFinal :
      (reason : Option String) (calls : List ReplyCall) (c : Content) (m : Answer)
      → parse_content allowed json_object reason calls c ≡ accepted m
      → IsFinal allowed json_object reason calls m
        × ((c ≡ no_content × m.content ≡ []) ⊎ (c ≡ text_content m.content))
  unfolding parse_content
  parse_content-IsFinal reason calls no_content m h =
      let (f, e) = parse_finish-IsFinal allowed json_object reason calls [] m h in
      (f, inl (refl, e))
  parse_content-IsFinal reason calls other_content m h = absurd (ground (arith, h))
  parse_content-IsFinal reason calls (text_content text) m h =
      let (f, e) = parse_finish-IsFinal allowed json_object reason calls text m h in
      (f, inr (ap text_content (sym e)))

  parse_content-accepted :
      (reason : Option String) (calls : List ReplyCall) (c : Content) (m : Answer)
      → IsFinal allowed json_object reason calls m
      → (c ≡ no_content × m.content ≡ []) ⊎ (c ≡ text_content m.content)
      → parse_content allowed json_object reason calls c ≡ accepted m
  unfolding parse_content
  parse_content-accepted reason calls c m f (inl (e, empty)) = rw e (
      ap (parse_finish allowed json_object reason calls) (sym empty)
      ∙ parse_finish-accepted allowed json_object reason calls m f)
  parse_content-accepted reason calls c m f (inr e) =
      rw e (parse_finish-accepted allowed json_object reason calls m f)

  parse_reply-IsAcceptable :
      (reason : Option String) (reply : Reply) (m : Answer)
      → parse_reply allowed json_object reason (some reply) ≡ accepted m
      → IsAcceptable reason reply m
  unfolding parse_reply
  parse_reply-IsAcceptable reason reply m h =
      each (str_eq reply.role "") (str_eq reply.role "assistant") (is_refusal reply.refusal)
        (eq_iff reply.role "") (eq_iff reply.role "assistant") refl h
    where
      each :
          (a b c : Bool)
          → (a ≡ true ↔ (reply.role ≡ ""))
          → (b ≡ true ↔ (reply.role ≡ "assistant"))
          → is_refusal reply.refusal ≡ c
          → (if not a && not b
              then rejected "malformed_response"
              else if c
              then rejected "model_refusal"
              else parse_content allowed json_object reason reply.calls reply.content)
            ≡ accepted m
          → IsAcceptable reason reply m
      each false false c p q u e = absurd (ground (arith, e))
      each true b true p q u e = absurd (ground (arith, e))
      each false true true p q u e = absurd (ground (arith, e))
      each true b false p q u e =
          let (f, content) = parse_content-IsFinal reason reply.calls reply.content m e in
          acceptable reason reply m (inl (p.0 refl)) u content f
      each false true false p q u e =
          let (f, content) = parse_content-IsFinal reason reply.calls reply.content m e in
          acceptable reason reply m (inr (q.0 refl)) u content f

  unseen : (calls : List ReplyCall) → All (λ c. text_mem c.id [] ≡ false) calls
  unseen [] = tt
  unseen (c ∷ calls) = (refl, unseen calls)

  parse_reply-accepted :
      (reason : Option String) (reply : Reply) (m : Answer)
      → IsAcceptable reason reply m
      → parse_reply allowed json_object reason (some reply) ≡ accepted m
  unfolding parse_reply
  parse_reply-accepted reason reply m k =
      rw (role, k.unrefused)
        (parse_content-accepted reason reply.calls reply.content m final k.content)
    where
      role : (not (str_eq reply.role "") && not (str_eq reply.role "assistant")) ≡ false
      role = elim k.role [
        | inl e ↦ ground (arith, (eq_iff reply.role "").1 e)
        | inr e ↦ ground (arith, (eq_iff reply.role "assistant").1 e)
      ]

      final : IsFinal allowed json_object reason reply.calls m
      final = record {
        finished = k.finished;
        few = k.few;
        checked = record {
          each = k.each;
          fresh = unseen reply.calls;
          distinct = k.distinct;
          proposals = k.calls;
        };
      }

  parse_choices-IsAnswer :
      (failure : Option Text) (choices : List ResponseChoice) (m : Answer)
      → parse_choices allowed json_object failure choices ≡ accepted m
      → IsAnswer (record { failure = failure; choices = choices }) m
  unfolding parse_choices parse_reply
  parse_choices-IsAnswer (some f) choices m h = absurd (ground (arith, h))
  parse_choices-IsAnswer none [] m h = absurd (ground (arith, h))
  parse_choices-IsAnswer none (c ∷ d ∷ choices) m h = absurd (ground (arith, h))
  parse_choices-IsAnswer none (c ∷ []) m h = each c.message refl h
    where
      each :
          (message : Option Reply)
          → c.message ≡ message
          → parse_reply allowed json_object c.finish message ≡ accepted m
          → IsAnswer (record { failure = none; choices = c ∷ [] }) m
      each none e k = absurd (ground (arith, k))
      each (some reply) e k = (
        refl,
        c.finish,
        reply,
        ap (λ r. record { finish = c.finish; message = r } ∷ []) e,
        parse_reply-IsAcceptable c.finish reply m k,
      )

-- A response is accepted exactly where the tests of its reply and of each call succeed.
pub accepts_iff :
    (allowed json_object : Text → Bool) (r : Response) (m : Answer)
    → (parse_chat_completion allowed json_object r ≡ accepted m) ↔ IsAnswer allowed json_object r m
unfolding parse_chat_completion parse_choices
accepts_iff allowed json_object r m = (
  parse_choices-IsAnswer allowed json_object r.failure r.choices m,
  λ (fine, reason, reply, one, k).
      rw (fine, one) (parse_reply-accepted allowed json_object reason reply m k),
)
