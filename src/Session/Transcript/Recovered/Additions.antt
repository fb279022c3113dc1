-- ===== src/Session/Transcript/Recovered/Additions.antt =====
-- session/api_transcript.go: the results that a recovery appends.
use lib_agent_harness.Prelude.{true, List, [], ◌∷◌, All, ◌≡◌, sym, subst}
use lib_agent_harness.Session.Transcript.{
  ToolCall, Record, tool_call, tool_result, header, turn_start, user, assistant, usage, turn_end,
  Key, CallStates, note_all, answer, has_result, settle_calls, additions_of,
}
use lib_agent_harness.Session.Transcript.Recovered.{
  note_all-append, Within, Within-note_all, settle_calls-answer, settle_calls-settled, IsSettled,
}

pub additions-answer :
    (s t : CallStates) (rs : List Record)
    → ((k : Key) → answer t k ≡ answer s k)
    → (k : Key) → answer (note_all t (additions_of s rs)) k ≡ answer s k
unfolding additions_of note_all
additions-answer s t [] same k = same k
additions-answer s t (assistant turn response text replay calls ∷ rs) same k =
    rw (note_all-append t (settle_calls s turn response calls) (additions_of s rs)) (
      additions-answer s (note_all t (settle_calls s turn response calls)) rs
        (settle_calls-answer s t turn response calls same) k)
additions-answer s t (header ∷ rs) same k = additions-answer s t rs same k
additions-answer s t (turn_start _ ∷ rs) same k = additions-answer s t rs same k
additions-answer s t (user _ _ ∷ rs) same k = additions-answer s t rs same k
additions-answer s t (tool_call _ _ _ _ ∷ rs) same k = additions-answer s t rs same k
additions-answer s t (tool_result _ _ _ _ _ _ _ ∷ rs) same k = additions-answer s t rs same k
additions-answer s t (usage _ _ ∷ rs) same k = additions-answer s t rs same k
additions-answer s t (turn_end _ _ _ ∷ rs) same k = additions-answer s t rs same k

pub additions-IsSettled :
    (s t : CallStates) (rs : List Record)
    → Within s t
    → IsSettled (note_all t (additions_of s rs)) rs
unfolding additions_of IsSettled
additions-IsSettled s t [] w = tt
additions-IsSettled s t (assistant turn response text replay calls ∷ rs) w =
    let mid : List Record = settle_calls s turn response calls in
    let u : CallStates = note_all t mid in
    subst (λ v. IsSettled v (assistant turn response text replay calls ∷ rs))
      (sym (note_all-append t mid (additions_of s rs)))
      (
        each u (note_all u (additions_of s rs)) (Within-note_all u u (additions_of s rs) (λ k h. h))
            calls (settle_calls-settled s t turn response calls w),
        additions-IsSettled s u rs (Within-note_all s t mid w),
      )
  where
    each :
        (u v : CallStates)
        → Within u v
        → (cs : List ToolCall) → All (λ call. has_result u (response, call.id) ≡ true) cs
        → All (λ call. has_result v (response, call.id) ≡ true) cs
    each u v w [] h = h
    each u v w (call ∷ cs) (x, h) = (w (response, call.id) x, each u v w cs h)
additions-IsSettled s t (header ∷ rs) w = additions-IsSettled s t rs w
additions-IsSettled s t (turn_start _ ∷ rs) w = additions-IsSettled s t rs w
additions-IsSettled s t (user _ _ ∷ rs) w = additions-IsSettled s t rs w
additions-IsSettled s t (tool_call _ _ _ _ ∷ rs) w = additions-IsSettled s t rs w
additions-IsSettled s t (tool_result _ _ _ _ _ _ _ ∷ rs) w = additions-IsSettled s t rs w
additions-IsSettled s t (usage _ _ ∷ rs) w = additions-IsSettled s t rs w
additions-IsSettled s t (turn_end _ _ _ ∷ rs) w = additions-IsSettled s t rs w
