-- ===== src/Chat/Reply/Finish.antt =====
-- completion/openai_chat.go: the finish of a reply that is accepted.
use lib_agent_harness.Prelude.{
  ◌≤◌, ◌<◌, String, Bool, true, false, not, ◌&&◌, ◌||◌, Option, none, some, List, [], ltb, length,
  str_eq, if◌then◌else◌, ◌≡◌, refl, sym, ap, ◌⊎◌, inl, inr, eq_iff, arith,
}
use lib_agent_harness.Text.{Text}
use lib_agent_harness.Chat.Reply.{
  ReplyCall, Proposal, Answer, Parsed, rejected, accepted, max_tool_proposals, unfinished,
  finish_failure, check_calls, answered, parse_finish,
}
use lib_agent_harness.Chat.Reply.Calls.{IsChecked, check_calls-IsChecked, check_calls-some}

-- The response has ended: it stopped, or stopped for its calls.
abbrev pub IsFinished : Option String → List ReplyCall → Type 0
IsFinished none calls = ⊥
IsFinished (some reason) calls = (reason ≡ "stop") ⊎ ((reason ≡ "tool_calls") × (0 < length calls))

finish_failure-IsFinished :
    (reason : Option String) (calls : List ReplyCall)
    → str_eq (finish_failure reason (length calls)) "" ≡ true
    → IsFinished reason calls
unfolding finish_failure
finish_failure-IsFinished none calls h = ground (arith, h)
finish_failure-IsFinished (some reason) calls h =
    each (str_eq reason "stop") (str_eq reason "tool_calls") (ltb 0 (length calls))
      (λ e. (eq_iff reason "stop").0 e) (λ e. (eq_iff reason "tool_calls").0 e)
      (λ e. ground (arith, e)) h
  where
    fails :
        (c d : Bool)
        → str_eq
            (if c
              then "output_truncated"
              else if d
              then "content_filtered"
              else "ambiguous_terminal_state")
            ""
          ≡ false
    fails true d = refl
    fails false true = refl
    fails false false = refl

    failed : str_eq (unfinished reason) "" ≡ true → IsFinished (some reason) calls
    failed e =
        absurd (ground (arith, e, fails (str_eq reason "length") (str_eq reason "content_filter")))

    each :
        (a b n : Bool)
        → (a ≡ true → reason ≡ "stop")
        → (b ≡ true → reason ≡ "tool_calls")
        → (n ≡ true → 0 < length calls)
        → str_eq (if a || b && n then "" else unfinished reason) "" ≡ true
        → IsFinished (some reason) calls
    each true b n p q r e = inl (p refl)
    each false true true p q r e = inr (q refl, r refl)
    each false true false p q r e = failed e
    each false false n p q r e = failed e

finish_failure-none :
    (reason : Option String) (calls : List ReplyCall)
    → IsFinished reason calls
    → finish_failure reason (length calls) ≡ ""
unfolding finish_failure
finish_failure-none none calls f = absurd f
finish_failure-none (some reason) calls (inl stopped) = rw ((eq_iff reason "stop").1 stopped) refl
finish_failure-none (some reason) calls (inr (for_calls, any)) =
    rw ((eq_iff reason "tool_calls").1 for_calls, more) (same (str_eq reason "stop"))
  where
    more : ltb 0 (length calls) ≡ true
    more = ground (arith, any)

    same : (b : Bool) → ◌≡◌ {A = String} (if b || true then "" else unfinished reason) ""
    same true = refl
    same false = refl

passes :
    (b c : Bool) (content : Text) (o : Option (List Proposal)) (m : Answer) (x : String)
    → (if not b then rejected x else if c then rejected "invalid_tool_call" else answered content o)
      ≡ accepted m
    → (b ≡ true) × (c ≡ false) × (o ≡ some m.calls) × (m.content ≡ content)
passes true false content (some ps) m x h =
    (refl, refl, ap some (ap calls_of h), sym (ap content_of h))
  where
    calls_of : Parsed → List Proposal
    calls_of (accepted a) = a.calls
    calls_of _ = []

    content_of : Parsed → Text
    content_of (accepted a) = a.content
    content_of _ = []
passes true false content none m x h = absurd (ground (arith, h))
passes true true content o m x h = absurd (ground (arith, h))
passes false c content o m x h = absurd (ground (arith, h))

module _ (allowed json_object : Text → Bool) where
  -- what `parse_finish` looks at
  pub record IsFinal (reason : Option String) (calls : List ReplyCall) (m : Answer) : Type 0 where
    pub finished : IsFinished reason calls
    pub few : length calls ≤ max_tool_proposals
    pub checked : IsChecked allowed json_object [] calls m.calls

  pub parse_finish-IsFinal :
      (reason : Option String) (calls : List ReplyCall) (content : Text) (m : Answer)
      → parse_finish allowed json_object reason calls content ≡ accepted m
      → IsFinal reason calls m × (m.content ≡ content)
  unfolding parse_finish
  parse_finish-IsFinal reason calls content m h =
      let (b, c, o, e) =
        passes (str_eq (finish_failure reason (length calls)) "")
          (ltb max_tool_proposals (length calls)) content (check_calls allowed json_object [] calls)
          m (finish_failure reason (length calls)) h in
      (
        record {
          finished = finish_failure-IsFinished reason calls b;
          few = ground (arith, c);
          checked = check_calls-IsChecked allowed json_object [] calls m.calls o;
        },
        e,
      )

  pub parse_finish-accepted :
      (reason : Option String) (calls : List ReplyCall) (m : Answer)
      → IsFinal reason calls m
      → parse_finish allowed json_object reason calls m.content ≡ accepted m
  unfolding parse_finish
  parse_finish-accepted reason calls m f =
      rw
        (
          finish_failure-none reason calls f.finished,
          few,
          check_calls-some allowed json_object [] calls m.calls f.checked,
        )
        refl
    where
      few : ltb max_tool_proposals (length calls) ≡ false
      few = ground (arith, f.few)
