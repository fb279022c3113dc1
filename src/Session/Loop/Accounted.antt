-- ===== src/Session/Loop/Accounted.antt =====
-- session/api_loop.go: the accounting that a turn publishes, and its transcript.
use lib_agent_harness.Prelude.{
  ℕ, zero, suc, ◌+◌, String, Bool, true, false, not, ◌&&◌, ◌||◌, Option, none, some, List, [], ◌∷◌,
  ◌++◌, str_eq, eq_iff, ◌≡◌, refl, sym, ap, subst, ◌∙◌, ◌⊎◌, inl, inr, arith, if◌then◌else◌,
}
use mathlib.Core.List.{append-nil}
use lib_agent_harness.Usage.{Usage}
use lib_agent_harness.Text.{Text}
use lib_agent_harness.Session.Accounting.{TurnAccount, account_add, account_all, settled, opened}
use lib_agent_harness.Session.Transcript.{Record, assistant, usage, turn_end, Message, conversation}
use lib_agent_harness.Session.Loop.{
  Run, Step, Ending, Failed, Published, Next, stop, again, kept, stored, append, called, run_calls,
  end_status, end_turn, after_calls, respond, replied, billed, round, run_turn, is_empty,
  may_have_billed, failure_code,
}
use lib_agent_harness.Session.Loop.Same.{
  turn_usages, turn_usages-append, account_all-snoc, Same, Same-trans, append-Same, run_calls-Same,
}

module _ (turn : String) (limit : ℕ) where
  -- the account that the transcript's usages make
  abbrev pub recorded_account : Run → TurnAccount
  recorded_account s = account_all opened (turn_usages turn s.records)

  pub record Agrees (s : Run) : Type 0 where
    pub unpublished : s.published ≡ none
    pub account : s.account ≡ recorded_account s

  -- What was published has the accounting that the transcript makes and the status that it ends with.
  abbrev pub Reports : Run → Published → Type 0
  Reports s p =
      (p.usage ≡ settled (recorded_account s))
      × ((before : List Record) × (code : String) × (s.records
            ≡ before ++ turn_end turn p.status code ∷ []))

  abbrev pub IsReported : Run → Type 0
  IsReported s = (s.published ≡ none) ⊎ ((p : Published) × (s.published ≡ some p) × Reports s p)

  Same-Agrees : (s t : Run) → Agrees s → Same turn limit s t → Agrees t
  Same-Agrees s t a m = record {
    unpublished = m.published ∙ a.unpublished;
    account = m.account ∙ a.account ∙ ap (account_all opened) (sym m.usages);
  }

  end_turn-IsReported :
      (s : Run) (e : Ending) (status code : String)
      → Agrees s
      → IsReported (end_turn turn limit s e status code)
  unfolding end_turn append turn_usages
  end_turn-IsReported s e status code a = each s.faults e.ended_after
    where
      r : Record
      r =
          turn_end turn (end_status turn limit e status code).0
            (end_status turn limit e status code).1

      publish : Run → Run
      publish s' = record s' {
        published = some (record {
          status = (end_status turn limit e status code).0;
          err = code;
          usage = settled s'.account;
          native_error = not (str_eq code "") && not (str_eq code "max_steps");
        });
      }

      usages :
          (s' : Run)
          → s'.records ≡ s.records ++ r ∷ []
          → turn_usages turn s'.records ≡ turn_usages turn s.records
      usages s' grown =
          ap (turn_usages turn) grown
          ∙ turn_usages-append turn s.records (r ∷ [])
          ∙ append-nil (turn_usages turn s.records)

      said :
          (s' : Run)
          → s'.account ≡ s.account
          → s'.records ≡ s.records ++ r ∷ []
          → IsReported (publish s')
      said s' same grown = inr (
        record {
          status = (end_status turn limit e status code).0;
          err = code;
          usage = settled s'.account;
          native_error = not (str_eq code "") && not (str_eq code "max_steps");
        },
        refl,
        (
          ap settled (same ∙ a.account ∙ ap (account_all opened) (sym (usages s' grown))),
          (s.records, (end_status turn limit e status code).1, grown),
        ),
      )

      each :
          (faults : List Bool) (after : Bool)
          → IsReported (
              if not (stored s r faults).1 || after
              then (stored s r faults).0
              else publish (stored s r faults).0)
      each [] true = inl a.unpublished
      each [] false = said (kept s r) refl refl
      each (true ∷ faults) after = inl a.unpublished
      each (false ∷ faults) true = inl a.unpublished
      each (false ∷ faults) false = said (kept (record s { faults = faults }) r) refl refl

  -- what a round leaves
  Left : Next → Type 0
  Left (stop s) = IsReported s
  Left (again s) = Agrees s

  after_calls-Left :
      (e : Ending) (closed : Bool) (s : Run) (ok : Bool)
      → Agrees s
      → Left (after_calls turn limit e closed (s, ok))
  unfolding after_calls Left
  after_calls-Left e closed s false a = end_turn-IsReported s e "interrupted" "" a
  after_calls-Left e true s true a = end_turn-IsReported s e "completed" "" a
  after_calls-Left e false s true a = a

  respond-Left :
      (s : Run) (e : Ending) (step : Step) → Agrees s → Left (respond turn limit s e step)
  unfolding respond Left turn_usages
  respond-Left s e step a =
      choose (append counted response_record).1 step.ended (is_empty turn limit step.calls)
        (append-Same turn limit counted response_record refl)
    where
      counted : Run
      counted = record s { responses = s.responses + 1 }

      response_record : Record
      response_record =
          assistant turn (s.responses + 1) step.content step.replay (called turn limit step.calls)

      s1 : Run
      s1 = (append counted response_record).0

      through : (t : Run) → Same turn limit counted t → Agrees t
      through t m =
          Same-Agrees s t a
            (Same-trans turn limit (record { account = refl; published = refl; usages = refl }) m)

      choose :
          (ok ended empty : Bool)
          → Same turn limit counted s1
          → Left (
              if not ok
              then stop s1
              else if ended
              then stop (end_turn turn limit s1 e "interrupted" "")
              else if empty
              then stop (end_turn turn limit s1 e "completed" "")
              else after_calls turn limit e step.closed
                  (run_calls turn limit s1 (s.responses + 1) step.calls))
      choose false ended empty m = inl (through s1 m).unpublished
      choose true true empty m = end_turn-IsReported s1 e "interrupted" "" (through s1 m)
      choose true false true m = end_turn-IsReported s1 e "completed" "" (through s1 m)
      choose true false false m =
          let (s2, ok2) = run_calls turn limit s1 (s.responses + 1) step.calls in
          after_calls-Left e step.closed s2 ok2 (
            Same-Agrees s1 s2 (through s1 m)
              (run_calls-Same turn limit s1 (s.responses + 1) step.calls))

  replied-Left :
      (s : Run) (e : Ending) (step : Step) (error : Option Failed)
      → Agrees s
      → Left (replied turn limit s e step error)
  unfolding replied Left
  replied-Left s e step none a = respond-Left s e step a
  replied-Left s e step (some f) a = choose step.cancelled
    where
      choose :
          (b : Bool)
          → Left (
              if b
              then stop (end_turn turn limit s e "interrupted" "")
              else stop (end_turn turn limit s e "failed" (failure_code turn limit f)))
      choose true = end_turn-IsReported s e "interrupted" "" a
      choose false = end_turn-IsReported s e "failed" (failure_code turn limit f) a

  -- A usage is added to the account and recorded, or the turn stops.
  billed-Agrees :
      (s : Run) (u : Usage) → Agrees s → Agrees (kept (billed turn limit s u) (usage turn u))
  unfolding billed turn_usages
  billed-Agrees s u a = record {
    unpublished = a.unpublished;
    account =
        ap (λ t. account_add t u) a.account
        ∙ sym (account_all-snoc opened (turn_usages turn s.records) u)
        ∙ ap (account_all opened) (
            sym (
              turn_usages-append turn s.records (usage turn u ∷ [])
              ∙ ap (λ us. turn_usages turn s.records ++ us) own));
  }
    where
      own : turn_usages turn (usage turn u ∷ []) ≡ u ∷ []
      own = rw ((eq_iff turn turn).1 refl) refl

  round-Left : (s : Run) (e : Ending) (step : Step) → Agrees s → Left (round turn limit s e step)
  unfolding round append Left
  round-Left s e step a = each (may_have_billed turn limit step.error) s.faults
    where
      base : Run
      base = billed turn limit s step.usage

      r : Record
      r = usage turn step.usage

      each :
          (b : Bool) (faults : List Bool)
          → Left (
              if b
              then (if (stored base r faults).1
                  then replied turn limit (stored base r faults).0 e step step.error
                  else stop (stored base r faults).0)
              else replied turn limit s e step step.error)
      each false faults = replied-Left s e step step.error a
      each true [] = replied-Left (kept base r) e step step.error (billed-Agrees s step.usage a)
      each true (true ∷ faults) = inl a.unpublished
      each true (false ∷ faults) =
          replied-Left (kept (record base { faults = faults }) r) e step step.error (record {
            unpublished = a.unpublished;
            account = (billed-Agrees s step.usage a).account;
          })

  run_turn-IsReported :
      (instructions : Text) (world : ℕ → List Message → Step) (e : Ending) (left step : ℕ) (s : Run)
      → Agrees s
      → IsReported (run_turn turn limit instructions world e left step s)
  unfolding run_turn Left
  run_turn-IsReported instructions world e zero step s a =
      end_turn-IsReported s e "failed" "max_steps" a
  run_turn-IsReported instructions world e (suc left) step s a =
      next (round turn limit s e (world step messages)) (round-Left s e (world step messages) a)
        (run_turn-IsReported instructions world e left (step + 1))
    where
      messages : List Message
      messages = conversation s.records instructions limit

      next :
          (n : Next)
          → Left n
          → ((s' : Run)
              → Agrees s'
              → IsReported (run_turn turn limit instructions world e left (step + 1) s'))
          → IsReported (elim n [
            | stop s' ↦ s'
            | again s' ↦ run_turn turn limit instructions world e left (step + 1) s'
          ])
      next (stop s') h rest = h
      next (again s') h rest = rest s' h

-- What a turn publishes, its transcript can show: whatever the model, the calls and the store do, if a
-- turn publishes its end then its usage is what an account of the usages that it has recorded settles
-- to, and the last record is the end of the turn, with the published status. Before, the account is that
-- of the recorded usages and nothing is published.
pub publishes_recorded :
    (turn : String) (limit : ℕ) (instructions : Text) (world : ℕ → List Message → Step) (e : Ending)
    (left step : ℕ) (s : Run) (p : Published)
    → s.published ≡ none
    → s.account ≡ recorded_account turn limit s
    → (run_turn turn limit instructions world e left step s).published ≡ some p
    → Reports turn limit (run_turn turn limit instructions world e left step s) p
publishes_recorded turn limit instructions world e left step s p none_yet agrees out =
    elim (run_turn-IsReported turn limit instructions world e left step s
      (record { unpublished = none_yet; account = agrees })) [
        | inl nothing ↦ absurd (ground (arith, nothing, out))
        | inr (q, said, reports) ↦
            subst (Reports turn limit s') (some_eq q p (sym said ∙ out)) reports
      ]
  where
    s' : Run
    s' = run_turn turn limit instructions world e left step s

    some_eq : (q r : Published) → some q ≡ some r → q ≡ r
    some_eq q r h = cc
