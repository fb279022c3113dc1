-- ===== src/Session/Loop/Calls.antt =====
-- session/api_loop.go: what the calls of a response leave in the transcript while no append fails.
use lib_agent_harness.Prelude.{
  ℕ, String, Bool, true, false, List, [], ◌∷◌, ◌++◌, All, Bool-cases, ◌≡◌, refl, sym, ap, subst,
  ◌∙◌, ◌⊎◌, inl, inr, arith,
}
use mathlib.Core.List.{append_assoc}
use lib_agent_harness.Session.Transcript.{
  ToolCall, Record, tool_call, Key, same_key, CallStates, no_states, note, note_all, call_states,
  has_result,
}
use lib_agent_harness.Session.Transcript.Recovered.{
  note_all-append, Within, Within-note, has_result-note, same_key-eq,
}
use lib_agent_harness.Session.Transcript.Recovered.Closing.{IsClosing}
use lib_agent_harness.Session.Loop.{
  Out, Fate, completes, stops_settled, stops_running, Run, kept, append, outcome_of, result_of,
  fated, run_call,
}

pub append-kept : (s : Run) (r : Record) → s.faults ≡ [] → append s r ≡ (kept s r, true)
unfolding append
append-kept s r h = rw h refl

-- the states of the calls by the transcript, and with the results that are still owed
abbrev pub states : Run → CallStates
states s = call_states s.records

abbrev pub final_states : Run → CallStates
final_states s = note_all (states s) s.late

-- Whatever was started has a result in the end.
abbrev pub IsAccounted : CallStates → CallStates → Type 0
IsAccounted s t = (k : Key) → s.started k ≡ true → has_result t k ≡ true

pub states-kept : (s : Run) (r : Record) → states (kept s r) ≡ note (states s) r
unfolding call_states note_all
states-kept s r = note_all-append no_states s.records (r ∷ [])

pub record Handled (s s' : Run) (response : ℕ) (calls : List ToolCall) (ok : Bool) : Type 0 where
  pub no_faults : s'.faults ≡ []
  pub nothing_owed : (ok ≡ false) ⊎ (s'.late ≡ [])
  pub new : List Record
  pub grown : s'.records ≡ s.records ++ new
  pub plain : All IsClosing new
  pub owed : All IsClosing s'.late
  pub accounted : IsAccounted (states s') (final_states s')
  pub within : Within (states s) (final_states s')
  pub answered : All (λ c. has_result (final_states s') (response, c.id) ≡ true) calls

-- a call and its result
module _ (turn : String) (response : ℕ) (call : ToolCall) (out : Out) where
  started_call : Record
  started_call = tool_call turn response call.id call.name

  its_result : Record
  its_result = result_of turn 0 response call out

  call-answered : (t : CallStates) → has_result (note t its_result) (response, call.id) ≡ true
  unfolding its_result
  call-answered t =
      has_result-note t turn response call.id call.name out.text out.is_error (outcome_of out)

  call-Within : (t : CallStates) → Within t (note (note t started_call) its_result)
  call-Within t k h =
      Within-note (note t started_call) its_result k (Within-note t started_call k h)

  call-IsAccounted :
      (t : CallStates)
      → IsAccounted t t
      → IsAccounted (note t started_call) (note (note t started_call) its_result)
  unfolding started_call note
  call-IsAccounted t known k h = elim (Bool-cases (same_key (response, call.id) k)) [
    | inl same ↦
        subst (λ k'. has_result (note (note t started_call) its_result) k' ≡ true)
          (same_key-eq (response, call.id) k same) (call-answered (note t started_call))
    | inr other ↦ call-Within t k (known k (ground (arith, other, h)))
  ]

  call-known_after :
      (t : CallStates)
      → IsAccounted t t
      → IsAccounted (note (note t started_call) its_result) (note (note t started_call) its_result)
  unfolding its_result note
  call-known_after t known k h = call-IsAccounted t known k h

  -- the run in which the call has its result, and the one in which its handler owes it
  settled_run : Run → Run
  settled_run s = kept (kept s started_call) its_result

  owing_run : Run → Run
  owing_run s = record (kept s started_call) {
    late = (kept s started_call).late ++ its_result ∷ [];
  }

  settled_run-states :
      (s : Run) → states (settled_run s) ≡ note (note (states s) started_call) its_result
  unfolding settled_run
  settled_run-states s =
      states-kept (kept s started_call) its_result
      ∙ ap (λ t. note t its_result) (states-kept s started_call)

  settled_run-final :
      (s : Run)
      → s.late ≡ []
      → final_states (settled_run s) ≡ note (note (states s) started_call) its_result
  unfolding settled_run note_all
  settled_run-final s none_owed =
      ap (λ l. note_all (states (settled_run s)) l) none_owed ∙ settled_run-states s

  owing_run-final :
      (s : Run)
      → s.late ≡ []
      → final_states (owing_run s) ≡ note (note (states s) started_call) its_result
  unfolding owing_run note_all
  owing_run-final s none_owed =
      ap (λ l. note_all (states (kept s started_call)) (l ++ its_result ∷ [])) none_owed
      ∙ ap (λ t. note t its_result) (states-kept s started_call)

  two_records : (s : Run) → (settled_run s).records ≡ s.records ++ (started_call ∷ its_result ∷ [])
  unfolding settled_run
  two_records s = append_assoc s.records (started_call ∷ []) (its_result ∷ [])

  settled_run-Handled :
      (s : Run) (ok : Bool)
      → s.faults ≡ []
      → s.late ≡ []
      → IsAccounted (states s) (states s)
      → Handled s (settled_run s) response (call ∷ []) ok
  unfolding settled_run IsClosing started_call its_result
  settled_run-Handled s ok f l known = record {
    no_faults = f;
    nothing_owed = inr l;
    new = started_call ∷ its_result ∷ [];
    grown = two_records s;
    plain = (tt, (tt, tt));
    owed = subst (All IsClosing) (sym l) tt;
    accounted =
        subst (λ t. IsAccounted (states (settled_run s)) t) (sym (settled_run-final s l))
          (subst (λ t. IsAccounted t (note (note (states s) started_call) its_result))
            (sym (settled_run-states s)) (call-known_after (states s) known));
    within = subst (Within (states s)) (sym (settled_run-final s l)) (call-Within (states s));
    answered = (
      subst (λ t. has_result t (response, call.id) ≡ true) (sym (settled_run-final s l))
          (call-answered (note (states s) started_call)),
      tt,
    );
  }

  owing_run-Handled :
      (s : Run)
      → s.faults ≡ []
      → s.late ≡ []
      → IsAccounted (states s) (states s)
      → Handled s (owing_run s) response (call ∷ []) false
  unfolding owing_run IsClosing started_call its_result
  owing_run-Handled s f l known = record {
    no_faults = f;
    nothing_owed = inl refl;
    new = started_call ∷ [];
    grown = refl;
    plain = (tt, tt);
    owed = subst (λ o. All IsClosing (o ++ its_result ∷ [])) (sym l) (tt, tt);
    accounted =
        subst (λ t. IsAccounted (states (kept s started_call)) t) (sym (owing_run-final s l))
          (subst (λ t. IsAccounted t (note (note (states s) started_call) its_result))
            (sym (states-kept s started_call)) (call-IsAccounted (states s) known));
    within = subst (Within (states s)) (sym (owing_run-final s l)) (call-Within (states s));
    answered = (
      subst (λ t. has_result t (response, call.id) ≡ true) (sym (owing_run-final s l))
          (call-answered (note (states s) started_call)),
      tt,
    );
  }

run_call-fated :
    (turn : String) (limit : ℕ) (s : Run) (response : ℕ) (call : ToolCall) (fate : Fate)
    → s.faults ≡ []
    → run_call turn limit s response call fate
      ≡ fated turn limit (kept s (tool_call turn response call.id call.name)) response call fate
unfolding run_call
run_call-fated turn limit s response call fate f =
    rw (append-kept s (tool_call turn response call.id call.name) f) refl

-- what a handed-over call leaves
handed : String → Run → ℕ → ToolCall → Fate → Run × Bool
handed turn s response call (completes out) = (settled_run turn response call out s, true)
handed turn s response call (stops_settled out) = (settled_run turn response call out s, false)
handed turn s response call (stops_running out) = (owing_run turn response call out s, false)

run_call-handed :
    (turn : String) (limit : ℕ) (s : Run) (response : ℕ) (call : ToolCall) (fate : Fate)
    → s.faults ≡ []
    → run_call turn limit s response call fate ≡ handed turn s response call fate
unfolding fated handed settled_run owing_run started_call its_result
run_call-handed turn limit s response call (completes out) f =
    run_call-fated turn limit s response call (completes out) f
    ∙ ap (λ (p : Run × Bool). (p.0, true))
        (append-kept (kept s (tool_call turn response call.id call.name))
          (result_of turn limit response call out) f)
run_call-handed turn limit s response call (stops_settled out) f =
    run_call-fated turn limit s response call (stops_settled out) f
    ∙ ap (λ (p : Run × Bool). (p.0, false))
        (append-kept (kept s (tool_call turn response call.id call.name))
          (result_of turn limit response call out) f)
run_call-handed turn limit s response call (stops_running out) f =
    run_call-fated turn limit s response call (stops_running out) f

pub run_call-Handled :
    (turn : String) (limit : ℕ) (s : Run) (response : ℕ) (call : ToolCall) (fate : Fate)
    → s.faults ≡ []
    → s.late ≡ []
    → IsAccounted (states s) (states s)
    → Handled s
        (run_call turn limit s response call fate).0
        response
        (call ∷ [])
        (run_call turn limit s response call fate).1
unfolding handed
run_call-Handled turn limit s response call fate f l known =
    subst (λ p. Handled s p.0 response (call ∷ []) p.1)
      (sym (run_call-handed turn limit s response call fate f)) (each fate)
  where
    each :
        (g : Fate)
        → Handled s
            (handed turn s response call g).0
            response
            (call ∷ [])
            (handed turn s response call g).1
    each (completes out) = settled_run-Handled turn response call out s true f l known
    each (stops_settled out) = settled_run-Handled turn response call out s false f l known
    each (stops_running out) = owing_run-Handled turn response call out s f l known
