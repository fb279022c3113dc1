-- ===== src/Chat/Reply/Answers.antt =====
-- completion/openai_chat.go: the answers of `parseChatCompletion`, described by themselves.
use lib_agent_harness.Prelude.{
  ◌≤◌, String, Bool, true, false, Option, none, some, List, [], ◌∷◌, length, All, codes, ==_iff,
  ◌≡◌, ◌≢◌, refl, sym, ap, subst, ◌∙◌, ◌⊎◌, ◌↔◌, arith,
}
use lib_agent_harness.Text.{Text}
use lib_agent_harness.EventStream.{text_eq}
use lib_agent_harness.Chat.Reply.{
  ReplyCall, Proposal, no_content, text_content, Reply, Response, Answer, accepted, function_kind,
  is_empty, is_refusal, is_call, propose, parse_chat_completion,
}
use lib_agent_harness.Chat.Reply.Calls.{IsDistinct, proposed}
use lib_agent_harness.Chat.Reply.Finish.{IsFinished}
use lib_agent_harness.Chat.Reply.Accepted.{IsAnswer, accepts_iff}

-- No two calls have the same id.
abbrev pub HaveOwnIds : List ReplyCall → Type 0
HaveOwnIds [] = Unit
HaveOwnIds (c ∷ cs) = All (λ d. d.id ≢ c.id) cs × HaveOwnIds cs

module _ (allowed json_object : Text → Bool) where
  -- A call that may be proposed, and its proposal.
  pub record IsProposed (c : ReplyCall) (p : Proposal) : Type 0 where
    pub kind : c.kind ≡ codes "function"
    pub function : c.function ≡ some (p.name, p.arguments)
    pub same_id : p.id ≡ c.id
    pub some_id : c.id ≢ []
    pub short_id : length c.id ≤ 256
    pub known : allowed p.name ≡ true
    pub object : json_object p.arguments ≡ true

  abbrev pub AreProposed : List ReplyCall → List Proposal → Type 0
  AreProposed [] [] = Unit
  AreProposed (c ∷ cs) (p ∷ ps) = IsProposed c p × AreProposed cs ps
  AreProposed _ _ = ⊥

  -- A response that is an answer, and the answer.
  pub record Answers (r : Response) (m : Answer) : Type 0 where
    pub reason : Option String
    pub reply : Reply
    pub unfailed : r.failure ≡ none
    pub single : r.choices ≡ record { finish = reason; message = some reply } ∷ []
    pub role : (reply.role ≡ "") ⊎ (reply.role ≡ "assistant")
    pub unrefused : (reply.refusal ≡ none) ⊎ (reply.refusal ≡ some [])
    pub content :
        (reply.content ≡ no_content × m.content ≡ []) ⊎ (reply.content ≡ text_content m.content)
    pub finished : IsFinished reason reply.calls
    pub few : length reply.calls ≤ 16
    pub own_ids : HaveOwnIds reply.calls
    pub calls : AreProposed reply.calls m.calls

text_eq_iff : (xs ys : Text) → (text_eq xs ys ≡ true) ↔ (xs ≡ ys)
text_eq_iff [] [] = ((λ h. refl), λ h. refl)
text_eq_iff [] (y ∷ ys) = ground arith
text_eq_iff (x ∷ xs) [] = ground arith
text_eq_iff (x ∷ xs) (y ∷ ys) = ground (arith, text_eq_iff xs ys, ==_iff x y)

others_iff :
    (id : Text) (cs : List ReplyCall)
    → All (λ c. text_eq c.id id ≡ false) cs ↔ All (λ c. c.id ≢ id) cs
others_iff id [] = ((λ h. tt), λ h. tt)
others_iff id (c ∷ cs) = (
  λ (p, ps).
      ((λ e. absurd (ground (arith, p, (text_eq_iff c.id id).1 e))), (others_iff id cs).0 ps),
  λ (p, ps). (differs (text_eq c.id id) refl p, (others_iff id cs).1 ps),
)
  where
    differs : (b : Bool) → text_eq c.id id ≡ b → c.id ≢ id → text_eq c.id id ≡ false
    differs true e p = absurd (p ((text_eq_iff c.id id).0 e))
    differs false e p = e

own_ids_iff : (cs : List ReplyCall) → IsDistinct cs ↔ HaveOwnIds cs
own_ids_iff [] = ((λ h. tt), λ h. tt)
own_ids_iff (c ∷ cs) = (
  λ (p, ps). ((others_iff c.id cs).0 p, (own_ids_iff cs).0 ps),
  λ (p, ps). ((others_iff c.id cs).1 p, (own_ids_iff cs).1 ps),
)

refusal_iff : (o : Option Text) → (is_refusal o ≡ false) ↔ ((o ≡ none) ⊎ (o ≡ some []))
refusal_iff none = ground arith
refusal_iff (some []) = ground arith
refusal_iff (some (c ∷ cs)) = ground arith

module _ (allowed json_object : Text → Bool) where
  proposes :
      (c : ReplyCall)
      → is_call allowed json_object c c.function ≡ true
      → IsProposed allowed json_object c (propose c c.function)
  proposes c h = each c.function refl h
    where
      given : is_empty c.id ≡ false → c.id ≢ []
      given e q = absurd (ground (arith, e, ap is_empty q))

      each :
          (f : Option (Text × Text))
          → c.function ≡ f
          → is_call allowed json_object c f ≡ true
          → IsProposed allowed json_object c (propose c f)
      each none e k = absurd (unfold is_call in ground (arith, k))
      each (some (name, arguments)) e k = record {
        kind = (text_eq_iff c.kind function_kind).0 (unfold is_call in ground (arith, k));
        function = e;
        same_id = refl;
        some_id = given (unfold is_call in ground (arith, k));
        short_id = unfold is_call in ground (arith, k);
        known = unfold is_call in ground (arith, k);
        object = unfold is_call in ground (arith, k);
      }

  is_proposed :
      (c : ReplyCall) (p : Proposal)
      → IsProposed allowed json_object c p
      → (is_call allowed json_object c c.function ≡ true) × (p ≡ propose c c.function)
  unfolding is_call
  is_proposed c p k = rw k.function (
    ground (
      arith,
      (text_eq_iff c.kind function_kind).1 k.kind,
      given c.id k.some_id,
      k.short_id,
      k.known,
      k.object,
    ),
    ap (λ i. record { id = i; name = p.name; arguments = p.arguments }) k.same_id,
  )
    where
      given : (id : Text) → id ≢ [] → is_empty id ≡ false
      given [] h = absurd (h refl)
      given (x ∷ xs) h = refl

  calls_to :
      (cs : List ReplyCall)
      → All (λ c. is_call allowed json_object c c.function ≡ true) cs
      → AreProposed allowed json_object cs (proposed cs)
  calls_to [] h = tt
  calls_to (c ∷ cs) (h, hs) = (proposes c h, calls_to cs hs)

  calls_from :
      (cs : List ReplyCall) (ps : List Proposal)
      → AreProposed allowed json_object cs ps
      → All (λ c. is_call allowed json_object c c.function ≡ true) cs × (ps ≡ proposed cs)
  calls_from [] [] h = (tt, refl)
  calls_from [] (p ∷ ps) h = absurd h
  calls_from (c ∷ cs) [] h = absurd h
  calls_from (c ∷ cs) (p ∷ ps) (h, hs) =
      let (is, same) = is_proposed c p h in
      let (all, rest) = calls_from cs ps hs in
      ((is, all), ap (λ q. q ∷ ps) same ∙ ap (λ qs. propose c c.function ∷ qs) rest)

  Answers-to :
      (r : Response) (m : Answer)
      → IsAnswer allowed json_object r m
      → Answers allowed json_object r m
  Answers-to r m (unfailed, reason, reply, single, k) = record {
    reason = reason;
    reply = reply;
    unfailed = unfailed;
    single = single;
    role = k.role;
    unrefused = (refusal_iff reply.refusal).0 k.unrefused;
    content = k.content;
    finished = k.finished;
    few = k.few;
    own_ids = (own_ids_iff reply.calls).0 k.distinct;
    calls =
        subst (AreProposed allowed json_object reply.calls) (sym k.calls)
          (calls_to reply.calls k.each);
  }

  Answers-from :
      (r : Response) (m : Answer)
      → Answers allowed json_object r m
      → IsAnswer allowed json_object r m
  Answers-from r m a = (
    a.unfailed,
    a.reason,
    a.reply,
    a.single,
    record {
      role = a.role;
      unrefused = (refusal_iff a.reply.refusal).1 a.unrefused;
      content = a.content;
      finished = a.finished;
      few = a.few;
      each = (calls_from a.reply.calls m.calls a.calls).0;
      distinct = (own_ids_iff a.reply.calls).1 a.own_ids;
      calls = (calls_from a.reply.calls m.calls a.calls).1;
    },
  )

-- A response is accepted as an answer exactly if it reports no failure and has one choice, with a reply
-- of no role or the assistant's and no refusal, whose content is a string or missing, that finished with
-- "stop" or with "tool_calls" and calls, and has at most 16 calls, each a function with an id of 1 to 256
-- bytes that no other call has, a tool that is allowed and an object of arguments; the answer is then
-- that content, or none, and those calls in order, with their ids, names and arguments.
pub accepts :
    (allowed json_object : Text → Bool) (r : Response) (m : Answer)
    → (parse_chat_completion allowed json_object r ≡ accepted m) ↔ Answers allowed json_object r m
accepts allowed json_object r m = (
  λ e. Answers-to allowed json_object r m ((accepts_iff allowed json_object r m).0 e),
  λ a. (accepts_iff allowed json_object r m).1 (Answers-from allowed json_object r m a),
)
