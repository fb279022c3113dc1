-- ===== src/Session/Transcript/Recovered.antt =====
-- session/api_transcript.go: what the records that a recovery appends change.
pub mod Closing
mod Additions
pub mod Interruption
mod Messages
pub mod Twice
use lib_agent_harness.Prelude.{
  ℕ, Bool, true, false, not, ◌&&◌, Option, none, some, List, [], ◌∷◌, ◌++◌, String, str_eq, eq_iff,
  All, Bool-cases, Option-cases, ==_iff, ◌≡◌, refl, sym, ap, subst, ◌∙◌, inl, inr, ◌==◌,
  if◌then◌else◌, arith,
}
use lib_agent_harness.Session.Transcript.{
  Outcome, ran, refused, not_run, unknown, ToolCall, Record, tool_call, tool_result, header,
  turn_start, user, assistant, usage, turn_end, Key, same_key, CallStates, no_states, note,
  note_all, call_states, answer, answers, messages_of, all_messages, is_empty, conversation,
  Recovery, settling, has_result, settle_calls, additions_of, unknown_calls, unknown_of, open_turn,
  has_ended, interruption, recover_transcript, Message,
}
use lib_agent_harness.Text.{Text}

same_key_refl : (k : Key) → same_key k k ≡ true
same_key_refl (r, c) = rw ((==_iff r r).1 refl) ((eq_iff c c).1 refl)

pub same_key-eq : (k l : Key) → same_key k l ≡ true → k ≡ l
same_key-eq (r, c) (r', c') h = ground (arith, ==_iff r r', eq_iff c c')

pub note_all-append :
    (s : CallStates) (rs xs : List Record) → note_all s (rs ++ xs) ≡ note_all (note_all s rs) xs
unfolding note_all
note_all-append s [] xs = refl
note_all-append s (r ∷ rs) xs = note_all-append (note s r) rs xs

-- Whatever has a result in the first has one in the second.
abbrev pub Within : CallStates → CallStates → Type 0
Within s t = (k : Key) → has_result s k ≡ true → has_result t k ≡ true

pub Within-note : (s : CallStates) (r : Record) → Within s (note s r)
unfolding note
Within-note s header k h = h
Within-note s (turn_start _) k h = h
Within-note s (user _ _) k h = h
Within-note s (assistant _ _ _ _ _) k h = h
Within-note s (tool_call _ _ _ _) k h = h
Within-note s (tool_result turn response call tool text e o) k h =
    elim (Bool-cases (same_key (response, call) k)) [
      | inl p ↦ rw (p, has_result) refl
      | inr p ↦ rw (p, has_result) h
    ]
Within-note s (usage _ _) k h = h
Within-note s (turn_end _ _ _) k h = h

pub Within-note_all : (s t : CallStates) (rs : List Record) → Within s t → Within s (note_all t rs)
unfolding note_all
Within-note_all s t [] w = w
Within-note_all s t (r ∷ rs) w = Within-note_all s (note t r) rs (λ k h. Within-note t r k (w k h))

-- Every call of every response has a result.
unfoldable pub IsSettled : CallStates → List Record → Type 0
IsSettled s [] = Unit
IsSettled s (assistant turn response text replay calls ∷ rs) =
    All (λ call. has_result s (response, call.id) ≡ true) calls × IsSettled s rs
IsSettled s (_ ∷ rs) = IsSettled s rs

pub IsSettled-mono :
    (s t : CallStates) (rs : List Record) → Within s t → IsSettled s rs → IsSettled t rs
unfolding IsSettled
IsSettled-mono s t [] w h = h
IsSettled-mono s t (assistant turn response text replay calls ∷ rs) w (c, h) =
    (each calls c, IsSettled-mono s t rs w h)
  where
    each :
        (cs : List ToolCall)
        → All (λ call. has_result s (response, call.id) ≡ true) cs
        → All (λ call. has_result t (response, call.id) ≡ true) cs
    each [] u = u
    each (call ∷ cs) (x, u) = (w (response, call.id) x, each cs u)
IsSettled-mono s t (header ∷ rs) w h = IsSettled-mono s t rs w h
IsSettled-mono s t (turn_start _ ∷ rs) w h = IsSettled-mono s t rs w h
IsSettled-mono s t (user _ _ ∷ rs) w h = IsSettled-mono s t rs w h
IsSettled-mono s t (tool_call _ _ _ _ ∷ rs) w h = IsSettled-mono s t rs w h
IsSettled-mono s t (tool_result _ _ _ _ _ _ _ ∷ rs) w h = IsSettled-mono s t rs w h
IsSettled-mono s t (usage _ _ ∷ rs) w h = IsSettled-mono s t rs w h
IsSettled-mono s t (turn_end _ _ _ ∷ rs) w h = IsSettled-mono s t rs w h

-- The settling record carries the answer that its call had.
settling_result :
    (s : CallStates) (turn : String) (response : ℕ) (call : ToolCall)
    → has_result s (response, call.id) ≡ false
    → (o : Outcome) × (settling s turn response call
        ≡ tool_result turn response call.id call.name (answer s (response, call.id)) true o)
unfolding settling answer
settling_result s turn response call fresh = elim (Option-cases (s.results (response, call.id))) [
  | inr (text, found) ↦ absurd (ground (arith, fresh, found))
  | inl none_found ↦ elim (Bool-cases (s.started (response, call.id))) [
    | inl p ↦ (unknown, rw (none_found, p, answer) refl)
    | inr p ↦ (not_run, rw (none_found, p, answer) refl)
  ]
]

-- A result leaves the answer of every other call, and is the answer of its own.
answer-note :
    (t : CallStates) (turn : String) (response : ℕ) (call tool : String) (text : Text) (e : Bool)
    (o : Outcome) (k : Key)
    → answer (note t (tool_result turn response call tool text e o)) k
      ≡ (if same_key (response, call) k then text else answer t k)
unfolding note answer
answer-note t turn response call tool text e o k = elim (Bool-cases (same_key (response, call) k)) [
  | inl p ↦ rw (p, answer) refl
  | inr p ↦ rw (p, answer) refl
]

note-settling :
    (s t : CallStates) (turn : String) (response : ℕ) (call : ToolCall)
    → has_result s (response, call.id) ≡ false
    → ((k : Key) → answer t k ≡ answer s k)
    → (k : Key) → answer (note t (settling s turn response call)) k ≡ answer s k
note-settling s t turn response call fresh same k =
    let key : Key = (response, call.id) in
    let (o, eq) = settling_result s turn response call fresh in
    ap (λ r. answer (note t r) k) eq
    ∙ answer-note t turn response call.id call.name (answer s key) true o k
    ∙ elim (Bool-cases (same_key key k)) [
      | inl p ↦ rw p (ap (answer s) (same_key-eq key k p))
      | inr p ↦ rw p (same k)
    ]

pub has_result-note :
    (t : CallStates) (turn : String) (response : ℕ) (call tool : String) (text : Text) (e : Bool)
    (o : Outcome)
    → has_result (note t (tool_result turn response call tool text e o)) (response, call) ≡ true
unfolding note
has_result-note t turn response call tool text e o =
    rw (same_key_refl (response, call), has_result) refl

settling-has_result :
    (s t : CallStates) (turn : String) (response : ℕ) (call : ToolCall)
    → has_result s (response, call.id) ≡ false
    → has_result (note t (settling s turn response call)) (response, call.id) ≡ true
settling-has_result s t turn response call fresh =
    let (o, eq) = settling_result s turn response call fresh in
    rw eq (has_result-note t turn response call.id call.name (answer s (response, call.id)) true o)

-- The records that settle some calls: they keep every answer, and then each of the calls has a result.
pub settle_calls-answer :
    (s t : CallStates) (turn : String) (response : ℕ) (calls : List ToolCall)
    → ((k : Key) → answer t k ≡ answer s k)
    → (k : Key) → answer (note_all t (settle_calls s turn response calls)) k ≡ answer s k
unfolding note_all settle_calls
settle_calls-answer s t turn response [] same k = same k
settle_calls-answer s t turn response (call ∷ calls) same k =
    elim (Bool-cases (has_result s (response, call.id))) [
      | inl p ↦ rw p (settle_calls-answer s t turn response calls same k)
      | inr p ↦
          let u : CallStates = note t (settling s turn response call) in
          rw p (
            settle_calls-answer s u turn response calls
              (note-settling s t turn response call p same) k)
    ]

pub settle_calls-settled :
    (s t : CallStates) (turn : String) (response : ℕ) (calls : List ToolCall)
    → Within s t
    → All
        (λ call.
          has_result (note_all t (settle_calls s turn response calls)) (response, call.id) ≡ true)
        calls
unfolding note_all settle_calls
settle_calls-settled s t turn response [] w = tt
settle_calls-settled s t turn response (call ∷ calls) w =
    elim (Bool-cases (has_result s (response, call.id))) [
      | inl p ↦
          subst (λ rs. All (λ c. has_result (note_all t rs) (response, c.id) ≡ true) (call ∷ calls))
            (sym (ap (λ b. if b then rest else settling s turn response call ∷ rest) p))
            (
              Within-note_all s t rest w (response, call.id) p,
              settle_calls-settled s t turn response calls w,
            )
      | inr p ↦
          let u : CallStates = note t (settling s turn response call) in
          subst (λ rs. All (λ c. has_result (note_all t rs) (response, c.id) ≡ true) (call ∷ calls))
            (sym (ap (λ b. if b then rest else settling s turn response call ∷ rest) p))
            (
              Within-note_all u u rest (λ k h. h) (response, call.id)
                  (settling-has_result s t turn response call p),
              settle_calls-settled s u turn response calls
                  (λ k h. Within-note t (settling s turn response call) k (w k h)),
            )
    ]
  where
    rest : List Record
    rest = settle_calls s turn response calls
