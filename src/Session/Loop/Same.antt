-- ===== src/Session/Loop/Same.antt =====
-- session/api_loop.go: the calls of a response change neither the account of a turn nor the usages that
-- it has recorded.
use lib_agent_harness.Prelude.{
  ℕ, String, Bool, true, false, List, [], ◌∷◌, ◌++◌, str_eq, Bool-cases, ◌≡◌, refl, ap, ◌∙◌, inl,
  inr, if◌then◌else◌,
}
use mathlib.Core.List.{append-nil}
use lib_agent_harness.Usage.{Usage}
use lib_agent_harness.Session.Accounting.{TurnAccount, account_add, account_all}
use lib_agent_harness.Session.Transcript.{
  ToolCall, Record, header, turn_start, user, assistant, tool_call, tool_result, usage, turn_end,
  CallStates, call_states,
}
use lib_agent_harness.Session.Loop.{
  Run, CallStep, Fate, completes, stops_settled, stops_running, stored, append, called, fated,
  run_call, skipped, skip_from, skip_calls, run_calls, result_of,
}

-- the usages that a turn has recorded, in order
unfoldable pub turn_usages : String → List Record → List Usage
turn_usages turn [] = []
turn_usages turn (usage t u ∷ rs) =
    let rest = turn_usages turn rs in if str_eq t turn then u ∷ rest else rest
turn_usages turn (_ ∷ rs) = turn_usages turn rs

pub turn_usages-append :
    (turn : String) (rs xs : List Record)
    → turn_usages turn (rs ++ xs) ≡ turn_usages turn rs ++ turn_usages turn xs
unfolding turn_usages
turn_usages-append turn [] xs = refl
turn_usages-append turn (usage t u ∷ rs) xs = elim (Bool-cases (str_eq t turn)) [
  | inl p ↦ rw (p, turn_usages-append turn rs xs) refl
  | inr p ↦ rw (p, turn_usages-append turn rs xs) refl
]
turn_usages-append turn (header ∷ rs) xs = turn_usages-append turn rs xs
turn_usages-append turn (turn_start _ ∷ rs) xs = turn_usages-append turn rs xs
turn_usages-append turn (user _ _ ∷ rs) xs = turn_usages-append turn rs xs
turn_usages-append turn (assistant _ _ _ _ _ ∷ rs) xs = turn_usages-append turn rs xs
turn_usages-append turn (tool_call _ _ _ _ ∷ rs) xs = turn_usages-append turn rs xs
turn_usages-append turn (tool_result _ _ _ _ _ _ _ ∷ rs) xs = turn_usages-append turn rs xs
turn_usages-append turn (turn_end _ _ _ ∷ rs) xs = turn_usages-append turn rs xs

pub account_all-snoc :
    (a : TurnAccount) (us : List Usage) (u : Usage)
    → account_all a (us ++ u ∷ []) ≡ account_add (account_all a us) u
unfolding account_all
account_all-snoc a [] u = refl
account_all-snoc a (v ∷ us) u = account_all-snoc (account_add a v) us u

module _ (turn : String) (limit : ℕ) where
  -- nothing that is accounted or published differs
  pub record Same (s s' : Run) : Type 0 where
    pub account : s'.account ≡ s.account
    pub published : s'.published ≡ s.published
    pub usages : turn_usages turn s'.records ≡ turn_usages turn s.records

  pub Same-refl : (s : Run) → Same s s
  Same-refl s = record { account = refl; published = refl; usages = refl }

  pub Same-trans : {s t u : Run} → Same s t → Same t u → Same s u
  Same-trans a b = record {
    account = b.account ∙ a.account;
    published = b.published ∙ a.published;
    usages = b.usages ∙ a.usages;
  }

  pub append-Same : (s : Run) (r : Record) → turn_usages turn (r ∷ []) ≡ [] → Same s (append s r).0
  unfolding append
  append-Same s r nothing = each s.faults
    where
      same : turn_usages turn (s.records ++ r ∷ []) ≡ turn_usages turn s.records
      same =
          turn_usages-append turn s.records (r ∷ [])
          ∙ ap (λ us. turn_usages turn s.records ++ us) nothing
          ∙ append-nil (turn_usages turn s.records)

      each : (faults : List Bool) → Same s (stored s r faults).0
      each [] = record { account = refl; published = refl; usages = same }
      each (true ∷ faults) = record { account = refl; published = refl; usages = refl }
      each (false ∷ faults) = record { account = refl; published = refl; usages = same }

  fated-Same :
      (s : Run) (response : ℕ) (call : ToolCall) (fate : Fate)
      → Same s (fated turn limit s response call fate).0
  unfolding fated turn_usages
  fated-Same s response call (completes out) =
      append-Same s (result_of turn limit response call out) refl
  fated-Same s response call (stops_settled out) =
      append-Same s (result_of turn limit response call out) refl
  fated-Same s response call (stops_running out) = record {
    account = refl;
    published = refl;
    usages = refl;
  }

  run_call-Same :
      (s : Run) (response : ℕ) (call : ToolCall) (fate : Fate)
      → Same s (run_call turn limit s response call fate).0
  unfolding run_call turn_usages
  run_call-Same s response call fate = pick (append s its_call).1 (append-Same s its_call refl)
    where
      its_call : Record
      its_call = tool_call turn response call.id call.name

      pick :
          (b : Bool)
          → Same s (append s its_call).0
          → Same s
              (if b
                then fated turn limit (append s its_call).0 response call fate
                else ((append s its_call).0, false)).0
      pick true h = Same-trans h (fated-Same (append s its_call).0 response call fate)
      pick false h = h

  skip_from-Same :
      (t : CallStates) (s : Run) (response : ℕ) (calls : List ToolCall)
      → Same s (skip_from turn limit t s response calls)
  unfolding skip_from turn_usages
  skip_from-Same t s response [] = Same-refl s
  skip_from-Same t s response (call ∷ calls) =
      pick (t.started (response, call.id)) (append s (skipped turn limit response call)).1
        (skip_from-Same t s response calls) (append-Same s (skipped turn limit response call) refl)
        (skip_from-Same t (append s (skipped turn limit response call)).0 response calls)
    where
      s1 : Run
      s1 = (append s (skipped turn limit response call)).0

      pick :
          (b ok : Bool)
          → Same s (skip_from turn limit t s response calls)
          → Same s s1
          → Same s1 (skip_from turn limit t s1 response calls)
          → Same s (
              if b
              then skip_from turn limit t s response calls
              else if ok
              then skip_from turn limit t s1 response calls
              else s1)
      pick true ok h g k = h
      pick false true h g k = Same-trans g k
      pick false false h g k = g

  skip_calls-Same :
      (s : Run) (response : ℕ) (calls : List ToolCall)
      → Same s (skip_calls turn limit s response calls)
  unfolding skip_calls
  skip_calls-Same s response calls = skip_from-Same (call_states s.records) s response calls

  pub run_calls-Same :
      (s : Run) (response : ℕ) (calls : List (ToolCall × CallStep))
      → Same s (run_calls turn limit s response calls).0
  unfolding run_calls
  run_calls-Same s response [] = Same-refl s
  run_calls-Same s response ((call, step) ∷ calls) =
      pick step.cancelled (run_call turn limit s response call step.fate).1
        (run_call-Same s response call step.fate) (run_calls-Same s1 response calls)
    where
      s1 : Run
      s1 = (run_call turn limit s response call step.fate).0

      rest : List ToolCall
      rest = call ∷ called turn limit calls

      pick :
          (b ok : Bool)
          → Same s s1
          → Same s1 (run_calls turn limit s1 response calls).0
          → Same s
              (if b
                then (skip_calls turn limit s response rest, false)
                else if ok
                then run_calls turn limit s1 response calls
                else (skip_calls turn limit s1 response rest, false)).0
      pick true ok h k = skip_calls-Same s response rest
      pick false true h k = Same-trans h k
      pick false false h k = Same-trans h (skip_calls-Same s1 response rest)
