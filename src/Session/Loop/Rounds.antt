-- ===== src/Session/Loop/Rounds.antt =====
-- session/api_loop.go: what the rounds of the loop keep true of the transcript while no append fails.
use lib_agent_harness.Prelude.{
  ℕ, String, Bool, true, false, List, [], ◌∷◌, ◌++◌, str_eq, eq_iff, All, ◌≡◌, refl, sym, ap, subst,
  ◌∙◌, inl, inr, arith, if◌then◌else◌,
}
use lib_agent_harness.Text.{Text}
use lib_agent_harness.Session.Transcript.{
  ToolCall, Record, header, turn_start, user, assistant, tool_call, tool_result, usage, turn_end,
  CallStates, note, note_all, call_states, has_result, open_turn, has_ended,
}
use lib_agent_harness.Session.Transcript.Recovered.{Within, IsSettled, IsSettled-mono}
use lib_agent_harness.Session.Transcript.Recovered.Closing.{IsClosing, closing-IsSettled}
use lib_agent_harness.Session.Transcript.Recovered.Interruption.{
  open_turn-closing, has_ended-append,
}
use lib_agent_harness.Session.Loop.{
  Run, Ending, Next, stop, again, kept, end_status, end_turn, after_calls,
}
use lib_agent_harness.Session.Loop.Calls.{
  append-kept, states, final_states, IsAccounted, states-kept, Handled,
}

IsSettled-snoc :
    (t : CallStates) (rs : List Record) (turn : String) (response : ℕ) (text replay : Text)
    (calls : List ToolCall)
    → IsSettled t rs
    → All (λ c. has_result t (response, c.id) ≡ true) calls
    → IsSettled t (rs ++ assistant turn response text replay calls ∷ [])
unfolding IsSettled
IsSettled-snoc t [] turn response text replay calls h a = (a, tt)
IsSettled-snoc t (assistant _ _ _ _ _ ∷ rs) turn response text replay calls (b, h) a =
    (b, IsSettled-snoc t rs turn response text replay calls h a)
IsSettled-snoc t (header ∷ rs) turn response text replay calls h a =
    IsSettled-snoc t rs turn response text replay calls h a
IsSettled-snoc t (turn_start _ ∷ rs) turn response text replay calls h a =
    IsSettled-snoc t rs turn response text replay calls h a
IsSettled-snoc t (user _ _ ∷ rs) turn response text replay calls h a =
    IsSettled-snoc t rs turn response text replay calls h a
IsSettled-snoc t (tool_call _ _ _ _ ∷ rs) turn response text replay calls h a =
    IsSettled-snoc t rs turn response text replay calls h a
IsSettled-snoc t (tool_result _ _ _ _ _ _ _ ∷ rs) turn response text replay calls h a =
    IsSettled-snoc t rs turn response text replay calls h a
IsSettled-snoc t (usage _ _ ∷ rs) turn response text replay calls h a =
    IsSettled-snoc t rs turn response text replay calls h a
IsSettled-snoc t (turn_end _ _ _ ∷ rs) turn response text replay calls h a =
    IsSettled-snoc t rs turn response text replay calls h a

open_turn-snoc :
    (turn t : String) (rs : List Record) (response : ℕ) (text replay : Text) (calls : List ToolCall)
    → open_turn turn (rs ++ assistant t response text replay calls ∷ []) ≡ open_turn turn rs
unfolding open_turn
open_turn-snoc turn t [] response text replay calls = refl
open_turn-snoc turn t (turn_start u ∷ rs) response text replay calls =
    open_turn-snoc u t rs response text replay calls
open_turn-snoc turn t (assistant _ _ _ _ _ ∷ rs) response text replay calls =
    open_turn-snoc turn t rs response text replay calls
open_turn-snoc turn t (header ∷ rs) response text replay calls =
    open_turn-snoc turn t rs response text replay calls
open_turn-snoc turn t (user _ _ ∷ rs) response text replay calls =
    open_turn-snoc turn t rs response text replay calls
open_turn-snoc turn t (tool_call _ _ _ _ ∷ rs) response text replay calls =
    open_turn-snoc turn t rs response text replay calls
open_turn-snoc turn t (tool_result _ _ _ _ _ _ _ ∷ rs) response text replay calls =
    open_turn-snoc turn t rs response text replay calls
open_turn-snoc turn t (usage _ _ ∷ rs) response text replay calls =
    open_turn-snoc turn t rs response text replay calls
open_turn-snoc turn t (turn_end _ _ _ ∷ rs) response text replay calls =
    open_turn-snoc turn t rs response text replay calls

module _ (turn : String) (limit : ℕ) where
  -- between rounds, before the end is recorded, and after it
  pub record IsOpen (s : Run) : Type 0 where
    pub no_faults : s.faults ≡ []
    pub none_owed : s.late ≡ []
    pub settled : IsSettled (states s) s.records
    pub accounted : IsAccounted (states s) (states s)
    pub going : open_turn "" s.records ≡ turn

  pub record IsStopping (s : Run) : Type 0 where
    pub no_faults : s.faults ≡ []
    pub settled : IsSettled (final_states s) s.records
    pub owed : All IsClosing s.late
    pub going : open_turn "" s.records ≡ turn

  pub record IsDone (s : Run) : Type 0 where
    pub settled : IsSettled (final_states s) s.records
    pub owed : All IsClosing s.late
    pub going : open_turn "" s.records ≡ turn
    pub ended : has_ended turn s.records ≡ true

  end_record : Ending → String → String → Record
  end_record e status code =
      turn_end turn (end_status turn limit e status code).0 (end_status turn limit e status code).1

  end_turn-kept :
      (s : Run) (e : Ending) (status code : String)
      → s.faults ≡ []
      → ((end_turn turn limit s e status code).records ≡ s.records ++ end_record e status code ∷ [])
        × ((end_turn turn limit s e status code).late ≡ s.late)
  unfolding end_turn end_record
  end_turn-kept s e status code f = rw (append-kept s (end_record e status code) f) (ground arith)

  -- The end of a turn is recorded after all else.
  pub end_turn-IsDone :
      (s : Run) (e : Ending) (status code : String)
      → IsStopping s
      → IsDone (end_turn turn limit s e status code)
  unfolding end_record IsClosing has_ended note
  end_turn-IsDone s e status code stopping = record {
    settled =
        subst (λ rs. IsSettled (note_all (call_states rs) s'.late) rs) (sym kept_all.0)
          (subst (λ l. IsSettled (note_all (call_states all) l) all) (sym kept_all.1)
            (subst (λ t. IsSettled (note_all t s.late) all) (sym end-states)
              (closing-IsSettled (final_states s) s.records (end_record e status code ∷ []) (tt, tt)
                stopping.settled)));
    owed = subst (All IsClosing) (sym kept_all.1) stopping.owed;
    going =
        ap (open_turn "") kept_all.0
        ∙ open_turn-closing "" s.records (end_record e status code ∷ []) (tt, tt)
        ∙ stopping.going;
    ended =
        ap (has_ended turn) kept_all.0
        ∙ has_ended-append turn s.records (end_record e status code ∷ [])
        ∙ always (has_ended turn s.records);
  }
    where
      s' : Run
      s' = end_turn turn limit s e status code

      all : List Record
      all = s.records ++ end_record e status code ∷ []

      kept_all : (s'.records ≡ all) × (s'.late ≡ s.late)
      kept_all = end_turn-kept s e status code stopping.no_faults

      end-states : call_states all ≡ states s
      end-states = states-kept s (end_record e status code)

      always : (b : Bool) → (if b then true else (if str_eq turn turn then true else false)) ≡ true
      always true = refl
      always false = rw ((eq_iff turn turn).1 refl) refl

  -- what a round leaves
  unfoldable pub Left : Next → Type 0
  Left (stop s) = IsDone s
  Left (again s) = IsOpen s

  pub final-none : (s : Run) → s.late ≡ [] → final_states s ≡ states s
  unfolding note_all
  final-none s l = ap (λ late. note_all (states s) late) l

  pub IsOpen-IsStopping : (s : Run) → IsOpen s → IsStopping s
  unfolding IsClosing
  IsOpen-IsStopping s o = record {
    no_faults = o.no_faults;
    settled = subst (λ t. IsSettled t s.records) (sym (final-none s o.none_owed)) o.settled;
    owed = subst (All IsClosing) (sym o.none_owed) tt;
    going = o.going;
  }

  -- After a response is recorded and its calls are handled, every call of the transcript has a result.
  module _ (s : Run) (o : IsOpen s) (response : ℕ) (content replay : Text)
      (calls : List ToolCall) where
    unfoldable pub recorded : Run
    recorded =
        kept (record s { responses = response }) (assistant turn response content replay calls)

    recorded-states : states recorded ≡ states s
    unfolding recorded note
    recorded-states =
        states-kept (record s { responses = response })
          (assistant turn response content replay calls)

    pub recorded-IsAccounted : IsAccounted (states recorded) (states recorded)
    recorded-IsAccounted = subst (λ t. IsAccounted t t) (sym recorded-states) o.accounted

    recorded-going : open_turn "" recorded.records ≡ turn
    unfolding recorded
    recorded-going = open_turn-snoc "" turn s.records response content replay calls ∙ o.going

    pub Handled-IsStopping :
        (s' : Run) (ok : Bool) → Handled recorded s' response calls ok → IsStopping s'
    unfolding recorded
    Handled-IsStopping s' ok h = record {
      no_faults = h.no_faults;
      settled = subst (IsSettled (final_states s')) (sym h.grown) (
          closing-IsSettled (final_states s') recorded.records h.new h.plain (
            IsSettled-snoc (final_states s') s.records turn response content replay calls
              (IsSettled-mono (states s) (final_states s') s.records
                (subst (λ t. Within t (final_states s')) recorded-states h.within) o.settled)
              h.answered));
      owed = h.owed;
      going =
          ap (open_turn "") h.grown
          ∙ open_turn-closing "" recorded.records h.new h.plain
          ∙ recorded-going;
    }

    Handled-IsOpen : (s' : Run) → Handled recorded s' response calls true → IsOpen s'
    Handled-IsOpen s' h = record {
      no_faults = h.no_faults;
      none_owed = none;
      settled =
          subst (λ t. IsSettled t s'.records) (final-none s' none)
            (Handled-IsStopping s' true h).settled;
      accounted = subst (IsAccounted (states s')) (final-none s' none) h.accounted;
      going = (Handled-IsStopping s' true h).going;
    }
      where
        none : s'.late ≡ []
        none = elim h.nothing_owed [ inl wrong ↦ absurd (ground (arith, wrong)) | inr l ↦ l ]

    pub after_calls-Left :
        (e : Ending) (closed : Bool) (s' : Run) (ok : Bool)
        → Handled recorded s' response calls ok
        → Left (after_calls turn limit e closed (s', ok))
    unfolding after_calls Left
    after_calls-Left e closed s' false h =
        end_turn-IsDone s' e "interrupted" "" (Handled-IsStopping s' false h)
    after_calls-Left e true s' true h =
        end_turn-IsDone s' e "completed" "" (Handled-IsStopping s' true h)
    after_calls-Left e false s' true h = Handled-IsOpen s' h
