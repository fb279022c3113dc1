-- ===== src/Session/Transcript/Recovered/Interruption.antt =====
-- session/api_transcript.go: the end of the interrupted turn that a recovery appends.
use lib_agent_harness.Prelude.{
  true, false, not, ◌&&◌, List, [], ◌∷◌, ◌++◌, String, str_eq, eq_iff, All, Bool-cases, ◌≡◌, refl,
  ◌∙◌, inl, inr, if◌then◌else◌,
}
use lib_agent_harness.Session.Transcript.{
  Record, tool_call, tool_result, header, turn_start, user, assistant, usage, turn_end, CallStates,
  note, note_all, open_turn, has_ended, interruption,
}
use lib_agent_harness.Session.Transcript.Recovered.Closing.{IsClosing}

pub note_all-interruption :
    (s : CallStates) (turn : String) (rs : List Record) → note_all s (interruption turn rs) ≡ s
unfolding interruption note_all note
note_all-interruption s turn rs =
    elim (Bool-cases (not (str_eq turn "") && not (has_ended turn rs))) [
      | inl p ↦ rw p refl
      | inr p ↦ rw p refl
    ]

pub interruption-IsClosing :
    (turn : String) (rs : List Record) → All IsClosing (interruption turn rs)
unfolding interruption IsClosing
interruption-IsClosing turn rs =
    elim (Bool-cases (not (str_eq turn "") && not (has_ended turn rs))) [
      | inl p ↦ rw p (tt, tt)
      | inr p ↦ rw p tt
    ]

pub open_turn-closing :
    (turn : String) (rs xs : List Record)
    → All IsClosing xs
    → open_turn turn (rs ++ xs) ≡ open_turn turn rs
unfolding open_turn IsClosing
open_turn-closing turn [] [] c = refl
open_turn-closing turn [] (tool_result _ _ _ _ _ _ _ ∷ xs) (c, cs) = open_turn-closing turn [] xs cs
open_turn-closing turn [] (turn_end _ _ _ ∷ xs) (c, cs) = open_turn-closing turn [] xs cs
open_turn-closing turn [] (header ∷ xs) (c, cs) = absurd c
open_turn-closing turn [] (turn_start _ ∷ xs) (c, cs) = absurd c
open_turn-closing turn [] (user _ _ ∷ xs) (c, cs) = absurd c
open_turn-closing turn [] (assistant _ _ _ _ _ ∷ xs) (c, cs) = absurd c
open_turn-closing turn [] (tool_call _ _ _ _ ∷ xs) (c, cs) = open_turn-closing turn [] xs cs
open_turn-closing turn [] (usage _ _ ∷ xs) (c, cs) = open_turn-closing turn [] xs cs
open_turn-closing turn (turn_start t ∷ rs) xs c = open_turn-closing t rs xs c
open_turn-closing turn (header ∷ rs) xs c = open_turn-closing turn rs xs c
open_turn-closing turn (user _ _ ∷ rs) xs c = open_turn-closing turn rs xs c
open_turn-closing turn (assistant _ _ _ _ _ ∷ rs) xs c = open_turn-closing turn rs xs c
open_turn-closing turn (tool_call _ _ _ _ ∷ rs) xs c = open_turn-closing turn rs xs c
open_turn-closing turn (tool_result _ _ _ _ _ _ _ ∷ rs) xs c = open_turn-closing turn rs xs c
open_turn-closing turn (usage _ _ ∷ rs) xs c = open_turn-closing turn rs xs c
open_turn-closing turn (turn_end _ _ _ ∷ rs) xs c = open_turn-closing turn rs xs c

pub has_ended-append :
    (turn : String) (rs xs : List Record)
    → has_ended turn (rs ++ xs) ≡ (if has_ended turn rs then true else has_ended turn xs)
unfolding has_ended
has_ended-append turn [] xs = refl
has_ended-append turn (turn_end t _ _ ∷ rs) xs = elim (Bool-cases (str_eq t turn)) [
  | inl p ↦ rw p refl
  | inr p ↦ rw p (has_ended-append turn rs xs)
]
has_ended-append turn (header ∷ rs) xs = has_ended-append turn rs xs
has_ended-append turn (turn_start _ ∷ rs) xs = has_ended-append turn rs xs
has_ended-append turn (user _ _ ∷ rs) xs = has_ended-append turn rs xs
has_ended-append turn (assistant _ _ _ _ _ ∷ rs) xs = has_ended-append turn rs xs
has_ended-append turn (tool_call _ _ _ _ ∷ rs) xs = has_ended-append turn rs xs
has_ended-append turn (tool_result _ _ _ _ _ _ _ ∷ rs) xs = has_ended-append turn rs xs
has_ended-append turn (usage _ _ ∷ rs) xs = has_ended-append turn rs xs

has_ended-interruption :
    (turn : String) (rs : List Record)
    → str_eq turn "" ≡ false
    → has_ended turn rs ≡ false
    → has_ended turn (interruption turn rs) ≡ true
unfolding interruption has_ended
has_ended-interruption turn rs named going = rw (named, going, (eq_iff turn turn).1 refl) refl

pub interruption-ended :
    (turn : String) (rs : List Record) → has_ended turn rs ≡ true → interruption turn rs ≡ []
unfolding interruption
interruption-ended turn rs h = elim (Bool-cases (str_eq turn "")) [
  | inl p ↦ rw p refl
  | inr p ↦ rw (p, h) refl
]

interruption-unnamed :
    (turn : String) (rs : List Record) → str_eq turn "" ≡ true → interruption turn rs ≡ []
unfolding interruption
interruption-unnamed turn rs p = rw p refl

-- Once the interruption is appended, there is none to append.
pub interruption_once :
    (turn : String) (rs xs : List Record)
    → interruption turn (rs ++ (xs ++ interruption turn rs)) ≡ []
interruption_once turn rs xs = elim (Bool-cases (str_eq turn "")) [
  | inl p ↦ interruption-unnamed turn (rs ++ (xs ++ interruption turn rs)) p
  | inr p ↦ interruption-ended turn (rs ++ (xs ++ interruption turn rs)) (
      has_ended-append turn rs (xs ++ interruption turn rs)
      ∙ (elim (Bool-cases (has_ended turn rs)) [
        | inl q ↦ rw q refl
        | inr q ↦
            rw
              (
                q,
                has_ended-append turn xs (interruption turn rs),
                has_ended-interruption turn rs p q,
              )
              (elim (Bool-cases (has_ended turn xs)) [ inl r ↦ rw r refl | inr r ↦ rw r refl ])
      ]))
]
