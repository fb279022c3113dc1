-- ===== src/Session/Transcript/Recovered/Closing.antt =====
-- session/api_transcript.go: the kinds of record that a recovery appends, and what they leave alone.
use lib_agent_harness.Prelude.{
  ℕ, Bool, true, false, List, [], ◌∷◌, ◌++◌, String, All, Bool-cases, ◌≡◌, refl, inl, inr,
  if◌then◌else◌,
}
use lib_agent_harness.Session.Transcript.{
  ToolCall, Record, tool_call, tool_result, header, turn_start, user, assistant, usage, turn_end,
  CallStates, settling, has_result, settle_calls, additions_of, unknown_calls, unknown_of,
}
use lib_agent_harness.Session.Transcript.Recovered.{IsSettled}

-- Records that neither start a turn nor say anything: calls, results, usage and the ends of turns.
-- A recovery appends such records only.
unfoldable pub IsClosing : Record → Type 0
IsClosing (tool_result _ _ _ _ _ _ _) = Unit
IsClosing (tool_call _ _ _ _) = Unit
IsClosing (usage _ _) = Unit
IsClosing (turn_end _ _ _) = Unit
IsClosing _ = ⊥

pub All-append :
    (xs ys : List Record) → All IsClosing xs → All IsClosing ys → All IsClosing (xs ++ ys)
All-append [] ys p q = q
All-append (x ∷ xs) ys (h, p) q = (h, All-append xs ys p q)

settling-IsClosing :
    (s : CallStates) (turn : String) (response : ℕ) (call : ToolCall)
    → IsClosing (settling s turn response call)
unfolding settling IsClosing
settling-IsClosing s turn response call = elim (Bool-cases (s.started (response, call.id))) [
  | inl p ↦ rw p tt
  | inr p ↦ rw p tt
]

settle_calls-IsClosing :
    (s : CallStates) (turn : String) (response : ℕ) (calls : List ToolCall)
    → All IsClosing (settle_calls s turn response calls)
unfolding settle_calls
settle_calls-IsClosing s turn response [] = tt
settle_calls-IsClosing s turn response (call ∷ calls) =
    pick (has_result s (response, call.id)) (settle_calls-IsClosing s turn response calls)
  where
    pick :
        (b : Bool)
        → All IsClosing (settle_calls s turn response calls)
        → All IsClosing (
            if b
            then settle_calls s turn response calls
            else settling s turn response call ∷ settle_calls s turn response calls)
    pick true h = h
    pick false h = (settling-IsClosing s turn response call, h)

pub additions-IsClosing : (s : CallStates) (rs : List Record) → All IsClosing (additions_of s rs)
unfolding additions_of
additions-IsClosing s [] = tt
additions-IsClosing s (assistant turn response text replay calls ∷ rs) =
    All-append (settle_calls s turn response calls) (additions_of s rs)
      (settle_calls-IsClosing s turn response calls) (additions-IsClosing s rs)
additions-IsClosing s (header ∷ rs) = additions-IsClosing s rs
additions-IsClosing s (turn_start _ ∷ rs) = additions-IsClosing s rs
additions-IsClosing s (user _ _ ∷ rs) = additions-IsClosing s rs
additions-IsClosing s (tool_call _ _ _ _ ∷ rs) = additions-IsClosing s rs
additions-IsClosing s (tool_result _ _ _ _ _ _ _ ∷ rs) = additions-IsClosing s rs
additions-IsClosing s (usage _ _ ∷ rs) = additions-IsClosing s rs
additions-IsClosing s (turn_end _ _ _ ∷ rs) = additions-IsClosing s rs

-- Closing records hold no call to settle, and no message.
pub closing-IsSettled :
    (s : CallStates) (rs xs : List Record)
    → All IsClosing xs
    → IsSettled s rs
    → IsSettled s (rs ++ xs)
unfolding IsSettled IsClosing
closing-IsSettled s [] [] c h = tt
closing-IsSettled s [] (header ∷ xs) (c, cs) h = absurd c
closing-IsSettled s [] (turn_start _ ∷ xs) (c, cs) h = absurd c
closing-IsSettled s [] (user _ _ ∷ xs) (c, cs) h = absurd c
closing-IsSettled s [] (assistant _ _ _ _ _ ∷ xs) (c, cs) h = absurd c
closing-IsSettled s [] (tool_call _ _ _ _ ∷ xs) (c, cs) h = closing-IsSettled s [] xs cs tt
closing-IsSettled s [] (usage _ _ ∷ xs) (c, cs) h = closing-IsSettled s [] xs cs tt
closing-IsSettled s [] (tool_result _ _ _ _ _ _ _ ∷ xs) (c, cs) h = closing-IsSettled s [] xs cs tt
closing-IsSettled s [] (turn_end _ _ _ ∷ xs) (c, cs) h = closing-IsSettled s [] xs cs tt
closing-IsSettled s (assistant _ _ _ _ _ ∷ rs) xs c (a, h) = (a, closing-IsSettled s rs xs c h)
closing-IsSettled s (header ∷ rs) xs c h = closing-IsSettled s rs xs c h
closing-IsSettled s (turn_start _ ∷ rs) xs c h = closing-IsSettled s rs xs c h
closing-IsSettled s (user _ _ ∷ rs) xs c h = closing-IsSettled s rs xs c h
closing-IsSettled s (tool_call _ _ _ _ ∷ rs) xs c h = closing-IsSettled s rs xs c h
closing-IsSettled s (tool_result _ _ _ _ _ _ _ ∷ rs) xs c h = closing-IsSettled s rs xs c h
closing-IsSettled s (usage _ _ ∷ rs) xs c h = closing-IsSettled s rs xs c h
closing-IsSettled s (turn_end _ _ _ ∷ rs) xs c h = closing-IsSettled s rs xs c h

-- With nothing to settle, a recovery adds and reports nothing.
pub settled-none :
    (s : CallStates) (rs : List Record)
    → IsSettled s rs
    → (additions_of s rs ≡ []) × (unknown_of s rs ≡ [])
unfolding IsSettled additions_of unknown_of settle_calls unknown_calls
settled-none s [] h = (refl, refl)
settled-none s (assistant turn response text replay calls ∷ rs) (c, h) =
    let (no_calls, no_unknown) = none calls c in
    let (no_rest, no_more) = settled-none s rs h in
    (rw (no_calls, no_rest) refl, rw (no_unknown, no_more) refl)
  where
    none :
        (cs : List ToolCall)
        → All (λ call. has_result s (response, call.id) ≡ true) cs
        → (settle_calls s turn response cs ≡ []) × (unknown_calls s response cs ≡ [])
    none [] u = (refl, refl)
    none (call ∷ cs) (x, u) = rw (x, (none cs u).0, (none cs u).1) (refl, refl)
settled-none s (header ∷ rs) h = settled-none s rs h
settled-none s (turn_start _ ∷ rs) h = settled-none s rs h
settled-none s (user _ _ ∷ rs) h = settled-none s rs h
settled-none s (tool_call _ _ _ _ ∷ rs) h = settled-none s rs h
settled-none s (tool_result _ _ _ _ _ _ _ ∷ rs) h = settled-none s rs h
settled-none s (usage _ _ ∷ rs) h = settled-none s rs h
settled-none s (turn_end _ _ _ ∷ rs) h = settled-none s rs h
