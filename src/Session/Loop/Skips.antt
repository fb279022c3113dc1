-- ===== src/Session/Loop/Skips.antt =====
-- session/api_loop.go: the calls that a stopped turn never reached, and all calls of a response.
use lib_agent_harness.Prelude.{
  ℕ, String, Bool, true, false, List, [], ◌∷◌, ◌++◌, All, Bool-cases, ◌≡◌, refl, sym, ap, subst,
  ◌∙◌, inl, inr, arith, if◌then◌else◌,
}
use mathlib.Core.List.{append_assoc, append-nil}
use lib_agent_harness.Session.Transcript.{
  ToolCall, Record, tool_call, tool_result, header, turn_start, user, assistant, usage, turn_end,
  Key, same_key, CallStates, note, note_all, has_result, not_run_text, or_empty, not_run,
}
use lib_agent_harness.Text.{bound}
use lib_agent_harness.Session.Transcript.Recovered.{
  Within, Within-note, Within-note_all, has_result-note,
}
use lib_agent_harness.Session.Transcript.Recovered.Closing.{IsClosing, All-append}
use lib_agent_harness.Session.Loop.{
  CallStep, Run, kept, run_call, skipped, skip_from, skip_calls, called, run_calls,
}
use lib_agent_harness.Session.Loop.Calls.{
  append-kept, states, final_states, IsAccounted, states-kept, Handled, run_call-Handled,
}

Within-note_mono : (t u : CallStates) (r : Record) → Within t u → Within (note t r) (note u r)
unfolding note
Within-note_mono t u (tool_result turn response call tool text e o) w k h =
    elim (Bool-cases (same_key (response, call) k)) [
      | inl p ↦ rw (p, has_result) refl
      | inr p ↦ rw (p, has_result) (w k (ground (arith, p, h)))
    ]
Within-note_mono t u header w k h = w k h
Within-note_mono t u (turn_start _) w k h = w k h
Within-note_mono t u (user _ _) w k h = w k h
Within-note_mono t u (assistant _ _ _ _ _) w k h = w k h
Within-note_mono t u (tool_call _ _ _ _) w k h = w k h
Within-note_mono t u (usage _ _) w k h = w k h
Within-note_mono t u (turn_end _ _ _) w k h = w k h

Within-note_all_mono :
    (t u : CallStates) (rs : List Record) → Within t u → Within (note_all t rs) (note_all u rs)
unfolding note_all
Within-note_all_mono t u [] w = w
Within-note_all_mono t u (r ∷ rs) w =
    Within-note_all_mono (note t r) (note u r) rs (Within-note_mono t u r w)

-- What answering calls as not run leaves.
record Passed (s s' : Run) (response : ℕ) (calls : List ToolCall) : Type 0 where
  pub no_faults : s'.faults ≡ []
  pub same_late : s'.late ≡ s.late
  pub same_started : (k : Key) → (states s').started k ≡ (states s).started k
  pub new : List Record
  pub grown : s'.records ≡ s.records ++ new
  pub plain : All IsClosing new
  pub more : Within (final_states s) (final_states s')
  pub answered : All (λ c. has_result (final_states s') (response, c.id) ≡ true) calls

module _ (turn : String) (limit : ℕ) (response : ℕ) where
  pass : ToolCall → Record
  pass call = skipped turn limit response call

  kept-started :
      (s : Run) (call : ToolCall) (k : Key)
      → (states (kept s (pass call))).started k ≡ (states s).started k
  unfolding pass note
  kept-started s call k = ap (λ (t : CallStates). t.started k) (states-kept s (pass call))

  kept-more :
      (s : Run) (call : ToolCall) → Within (final_states s) (final_states (kept s (pass call)))
  kept-more s call =
      subst (λ t. Within (final_states s) (note_all t s.late)) (sym (states-kept s (pass call)))
        (Within-note_all_mono (states s) (note (states s) (pass call)) s.late
          (Within-note (states s) (pass call)))

  kept-answered :
      (s : Run) (call : ToolCall)
      → has_result (final_states (kept s (pass call))) (response, call.id) ≡ true
  unfolding pass
  kept-answered s call =
      subst (λ t. has_result (note_all t s.late) (response, call.id) ≡ true)
        (sym (states-kept s (pass call)))
        (Within-note_all (note (states s) (pass call)) (note (states s) (pass call)) s.late
          (λ k h. h) (response, call.id)
          (has_result-note (states s) turn response call.id call.name
            (or_empty (bound not_run_text limit)) true not_run))

  skip_from-step :
      (t : CallStates) (s : Run) (call : ToolCall) (calls : List ToolCall)
      → s.faults ≡ []
      → skip_from turn limit t s response (call ∷ calls) ≡ (
          if t.started (response, call.id)
          then skip_from turn limit t s response calls
          else skip_from turn limit t (kept s (pass call)) response calls)
  unfolding skip_from pass
  skip_from-step t s call calls f = rw (append-kept s (pass call) f) refl

  Passed-more :
      (s s' : Run) (call : ToolCall) (calls : List ToolCall)
      → Passed (kept s (pass call)) s' response calls
      → Passed s s' response (call ∷ calls)
  unfolding pass IsClosing
  Passed-more s s' call calls p = record {
    no_faults = p.no_faults;
    same_late = p.same_late;
    same_started = λ k. p.same_started k ∙ kept-started s call k;
    new = pass call ∷ p.new;
    grown = p.grown ∙ append_assoc s.records (pass call ∷ []) p.new;
    plain = (tt, p.plain);
    more = λ k h. p.more k (kept-more s call k h);
    answered = (p.more (response, call.id) (kept-answered s call), p.answered);
  }

  skip_from-Passed :
      (t : CallStates) (s : Run) (calls : List ToolCall)
      → s.faults ≡ []
      → ((k : Key) → t.started k ≡ true → has_result (final_states s) k ≡ true)
      → Passed s (skip_from turn limit t s response calls) response calls
  unfolding skip_from
  skip_from-Passed t s [] f known = record {
    no_faults = f;
    same_late = refl;
    same_started = λ k. refl;
    new = [];
    grown = sym (append-nil s.records);
    plain = tt;
    more = λ k h. h;
    answered = tt;
  }
  skip_from-Passed t s (call ∷ calls) f known =
      subst (λ s'. Passed s s' response (call ∷ calls)) (sym (skip_from-step t s call calls f))
        (choose (t.started (response, call.id)) refl (skip_from-Passed t s calls f known)
          (skip_from-Passed t (kept s (pass call)) calls f (λ k h. kept-more s call k (known k h))))
    where
      choose :
          (b : Bool)
          → t.started (response, call.id) ≡ b
          → Passed s (skip_from turn limit t s response calls) response calls
          → Passed
              (kept s (pass call))
              (skip_from turn limit t (kept s (pass call)) response calls)
              response
              calls
          → Passed s
              (if b
                then skip_from turn limit t s response calls
                else skip_from turn limit t (kept s (pass call)) response calls)
              response
              (call ∷ calls)
      choose true e p q = record {
        no_faults = p.no_faults;
        same_late = p.same_late;
        same_started = p.same_started;
        new = p.new;
        grown = p.grown;
        plain = p.plain;
        more = p.more;
        answered = (p.more (response, call.id) (known (response, call.id) e), p.answered);
      }
      choose false e p q =
          Passed-more s (skip_from turn limit t (kept s (pass call)) response calls) call calls q

  skip_calls-Passed :
      (s : Run) (calls : List ToolCall)
      → s.faults ≡ []
      → IsAccounted (states s) (final_states s)
      → Passed s (skip_calls turn limit s response calls) response calls
  unfolding skip_calls
  skip_calls-Passed s calls f known = skip_from-Passed (states s) s calls f known

  -- Answering the rest after some calls, of which the last may be one of the rest.
  Handled-Passed :
      (s s1 s2 : Run) (some_calls calls : List ToolCall)
      → Handled s s1 response some_calls false
      → Passed s1 s2 response calls
      → Handled s s2 response calls false
  Handled-Passed s s1 s2 some_calls calls h p = record {
    no_faults = p.no_faults;
    nothing_owed = inl refl;
    new = h.new ++ p.new;
    grown = p.grown ∙ ap (λ rs. rs ++ p.new) h.grown ∙ append_assoc s.records h.new p.new;
    plain = All-append h.new p.new h.plain p.plain;
    owed = subst (All IsClosing) (sym p.same_late) h.owed;
    accounted = λ k e. p.more k (h.accounted k (sym (p.same_started k) ∙ e));
    within = λ k e. p.more k (h.within k e);
    answered = p.answered;
  }

  final-none : (s : Run) → s.late ≡ [] → final_states s ≡ states s
  unfolding note_all
  final-none s l = ap (λ late. note_all (states s) late) l

  Handled-Handled :
      (s s1 s2 : Run) (call : ToolCall) (calls : List ToolCall) (ok : Bool)
      → s1.late ≡ []
      → Handled s s1 response (call ∷ []) true
      → Handled s1 s2 response calls ok
      → Handled s s2 response (call ∷ calls) ok
  Handled-Handled s s1 s2 call calls ok l h g =
      let through : Within (final_states s1) (final_states s2) =
        subst (λ t. Within t (final_states s2)) (sym (final-none s1 l)) g.within in
      record {
        no_faults = g.no_faults;
        nothing_owed = g.nothing_owed;
        new = h.new ++ g.new;
        grown = g.grown ∙ ap (λ rs. rs ++ g.new) h.grown ∙ append_assoc s.records h.new g.new;
        plain = All-append h.new g.new h.plain g.plain;
        owed = g.owed;
        accounted = g.accounted;
        within = λ k e. through k (h.within k e);
        answered = (through (response, call.id) h.answered.0, g.answered);
      }

  nothing-Handled :
      (s : Run) (ok : Bool)
      → s.faults ≡ []
      → s.late ≡ []
      → IsAccounted (states s) (states s)
      → Handled s s response [] ok
  nothing-Handled s ok f l known = record {
    no_faults = f;
    nothing_owed = inr l;
    new = [];
    grown = sym (append-nil s.records);
    plain = tt;
    owed = subst (All IsClosing) (sym l) tt;
    accounted = subst (IsAccounted (states s)) (sym (final-none s l)) known;
    within = subst (Within (states s)) (sym (final-none s l)) (λ k h. h);
    answered = tt;
  }

  run_calls-step :
      (s : Run) (call : ToolCall) (step : CallStep) (calls : List (ToolCall × CallStep))
      → run_calls turn limit s response ((call, step) ∷ calls) ≡ (
          if step.cancelled
          then (skip_calls turn limit s response (call ∷ called turn limit calls), false)
          else if (run_call turn limit s response call step.fate).1
          then run_calls turn limit (run_call turn limit s response call step.fate).0 response calls
          else (
            skip_calls turn limit
                (run_call turn limit s response call step.fate).0
                response
                (call ∷ called turn limit calls),
            false,
          ))
  unfolding run_calls
  run_calls-step s call step calls = refl

  Results : Run → List ToolCall → Run × Bool → Type 0
  Results s calls p = Handled s p.0 response calls p.1

  pub run_calls-Handled :
      (s : Run) (calls : List (ToolCall × CallStep))
      → s.faults ≡ []
      → s.late ≡ []
      → IsAccounted (states s) (states s)
      → Handled s
          (run_calls turn limit s response calls).0
          response
          (called turn limit calls)
          (run_calls turn limit s response calls).1
  unfolding run_calls Results
  run_calls-Handled s [] f l known = nothing-Handled s true f l known
  run_calls-Handled s ((call, step) ∷ calls) f l known =
      subst (Results s (call ∷ called turn limit calls)) (sym (run_calls-step s call step calls)) (
        choose step.cancelled ok refl
          (run_call-Handled turn limit s response call step.fate f l known)
          (run_calls-Handled s1 calls))
    where
      s1 : Run
      s1 = (run_call turn limit s response call step.fate).0

      ok : Bool
      ok = (run_call turn limit s response call step.fate).1

      choose :
          (c b : Bool)
          → ok ≡ b
          → Handled s s1 response (call ∷ []) b
          → (s1.faults ≡ []
              → s1.late ≡ []
              → IsAccounted (states s1) (states s1)
              → Results s1 (called turn limit calls) (run_calls turn limit s1 response calls))
          → Results s (call ∷ called turn limit calls) (
              if c
              then (skip_calls turn limit s response (call ∷ called turn limit calls), false)
              else if b
              then run_calls turn limit s1 response calls
              else (skip_calls turn limit s1 response (call ∷ called turn limit calls), false))
      choose true b e h rest =
          Handled-Passed s s (skip_calls turn limit s response (call ∷ called turn limit calls)) []
            (call ∷ called turn limit calls) (nothing-Handled s false f l known)
            (skip_calls-Passed s (call ∷ called turn limit calls) f
              (subst (IsAccounted (states s)) (sym (final-none s l)) known))
      choose false false e h rest =
          Handled-Passed s s1 (skip_calls turn limit s1 response (call ∷ called turn limit calls))
            (call ∷ []) (call ∷ called turn limit calls) h
            (skip_calls-Passed s1 (call ∷ called turn limit calls) h.no_faults h.accounted)
      choose false true e h rest =
          let l1 : s1.late ≡ [] = elim h.nothing_owed [
            | inl wrong ↦ absurd (ground (arith, wrong))
            | inr none ↦ none
          ] in
          let (s2, ok2) = run_calls turn limit s1 response calls in
          Handled-Handled s s1 s2 call (called turn limit calls) ok2 l1 h
            (rest h.no_faults l1 (subst (IsAccounted (states s1)) (final-none s1 l1) h.accounted))
