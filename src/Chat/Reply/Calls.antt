-- ===== src/Chat/Reply/Calls.antt =====
-- completion/openai_chat.go: the calls of a reply that are accepted.
use lib_agent_harness.Prelude.{
  Bool, true, false, not, ◌&&◌, Option, none, some, List, [], ◌∷◌, All, map, if◌then◌else◌, ◌≡◌,
  refl, sym, ap, ◌∙◌, arith,
}
use lib_agent_harness.Text.{Text}
use lib_agent_harness.EventStream.{text_eq}
use lib_agent_harness.Chat.Reply.{
  ReplyCall, Proposal, text_mem, is_call, propose, with_first, check_calls,
}

-- No two of the calls have the same id.
abbrev pub IsDistinct : List ReplyCall → Type 0
IsDistinct [] = Unit
IsDistinct (call ∷ calls) = All (λ c. text_eq c.id call.id ≡ false) calls × IsDistinct calls

abbrev pub proposed : List ReplyCall → List Proposal
proposed calls = map (λ c. propose c c.function) calls

module _ (allowed json_object : Text → Bool) where
  -- what the loop checks, with the ids that it has seen
  pub record IsChecked (seen : List Text) (calls : List ReplyCall) (ps : List Proposal)
      : Type 0 where
    pub each : All (λ c. is_call allowed json_object c c.function ≡ true) calls
    pub fresh : All (λ c. text_mem c.id seen ≡ false) calls
    pub distinct : IsDistinct calls
    pub proposals : ps ≡ proposed calls

  seen_before :
      (id : Text) (seen : List Text) (calls : List ReplyCall)
      → All (λ c. text_mem c.id (id ∷ seen) ≡ false) calls
      → All (λ c. text_eq c.id id ≡ false) calls × All (λ c. text_mem c.id seen ≡ false) calls
  seen_before id seen [] fresh = (tt, tt)
  seen_before id seen (c ∷ calls) (f, fresh) =
      let (others, before) = seen_before id seen calls fresh in
      ((ground (arith, f), others), (ground (arith, f), before))

  seen_with :
      (id : Text) (seen : List Text) (calls : List ReplyCall)
      → All (λ c. text_eq c.id id ≡ false) calls
      → All (λ c. text_mem c.id seen ≡ false) calls
      → All (λ c. text_mem c.id (id ∷ seen) ≡ false) calls
  seen_with id seen [] others before = tt
  seen_with id seen (c ∷ calls) (o, others) (f, before) =
      (ground (arith, o, f), seen_with id seen calls others before)

  first_checked :
      (b : Bool) (p : Proposal) (rest : Option (List Proposal)) (ps : List Proposal)
      → (if b then with_first p rest else none) ≡ some ps
      → (b ≡ true) × (qs : List Proposal) × (rest ≡ some qs) × (ps ≡ p ∷ qs)
  first_checked true p (some qs) ps h = (refl, qs, refl, ground (arith, h))
  first_checked true p none ps h = absurd (ground (arith, h))
  first_checked false p rest ps h = absurd (ground (arith, h))

  pub check_calls-IsChecked :
      (seen : List Text) (calls : List ReplyCall) (ps : List Proposal)
      → check_calls allowed json_object seen calls ≡ some ps
      → IsChecked seen calls ps
  unfolding check_calls
  check_calls-IsChecked seen [] ps h = record {
    each = tt;
    fresh = tt;
    distinct = tt;
    proposals = ground (arith, h);
  }
  check_calls-IsChecked seen (call ∷ calls) ps h =
      let (b, qs, r, e) =
        first_checked
          (is_call allowed json_object call call.function && not (text_mem call.id seen))
          (propose call call.function) (check_calls allowed json_object (call.id ∷ seen) calls) ps
          h in
      let k = check_calls-IsChecked (call.id ∷ seen) calls qs r in
      let (others, before) = seen_before call.id seen calls k.fresh in
      record {
        each = (ground (arith, b), k.each);
        fresh = (ground (arith, b), before);
        distinct = (others, k.distinct);
        proposals = e ∙ ap (λ l. propose call call.function ∷ l) k.proposals;
      }

  pub check_calls-some :
      (seen : List Text) (calls : List ReplyCall) (ps : List Proposal)
      → IsChecked seen calls ps
      → check_calls allowed json_object seen calls ≡ some ps
  unfolding check_calls
  check_calls-some seen [] ps k = ap some (sym k.proposals)
  check_calls-some seen (call ∷ calls) ps k =
      rw (k.each.0, k.fresh.0)
        (ap (with_first (propose call call.function)) (
            check_calls-some (call.id ∷ seen) calls (proposed calls) (record {
              each = k.each.1;
              fresh = seen_with call.id seen calls k.distinct.0 k.fresh.1;
              distinct = k.distinct.1;
              proposals = refl;
            }))
          ∙ ap some (sym k.proposals))
