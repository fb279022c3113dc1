-- ===== src/Chat/Stream/Merging.antt =====
-- completion/openai_stream.go: a fragment merged into its call.
use lib_agent_harness.Prelude.{
  ℕ, zero, suc, ◌<◌, false, List, [], ◌∷◌, leb, ◌==◌, length, if◌then◌else◌, ◌≡◌, refl, sym, ap,
  ◌∙◌, arith,
}
use lib_agent_harness.Chat.Stream.{Fragment, StreamedCall, no_call, extended, merged, merged_at}

-- the call at an index; past the last one, the empty call
unfoldable pub call_at : List StreamedCall → ℕ → StreamedCall
call_at [] i = no_call
call_at (call ∷ calls) zero = call
call_at (call ∷ calls) (suc i) = call_at calls i

abbrev pub larger : ℕ → ℕ → ℕ
larger a b = if leb a b then b else a

pub call_at-extended :
    (n : ℕ) (calls : List StreamedCall) (i : ℕ) → call_at (extended n calls) i ≡ call_at calls i
unfolding extended call_at
call_at-extended zero calls i = refl
call_at-extended (suc n) [] zero = refl
call_at-extended (suc n) [] (suc i) = call_at-extended n [] i
call_at-extended (suc n) (call ∷ calls) zero = refl
call_at-extended (suc n) (call ∷ calls) (suc i) = call_at-extended n calls i

pub length-extended :
    (n : ℕ) (calls : List StreamedCall) → length (extended n calls) ≡ larger (length calls) n
unfolding extended
length-extended zero calls = ground arith
length-extended (suc n) [] = ground (arith, length-extended n [])
length-extended (suc n) (call ∷ calls) = ground (arith, length-extended n calls)

pub length-merged_at :
    (calls : List StreamedCall) (i : ℕ) (f : Fragment) → length (merged_at calls i f) ≡ length calls
unfolding merged_at
length-merged_at [] i f = refl
length-merged_at (call ∷ calls) zero f = refl
length-merged_at (call ∷ calls) (suc i) f = ap suc (length-merged_at calls i f)

pub call_at-merged_at :
    (calls : List StreamedCall) (i : ℕ) (f : Fragment) (j : ℕ)
    → i < length calls
    → call_at (merged_at calls i f) j
      ≡ (if i == j then merged (call_at calls j) f else call_at calls j)
unfolding merged_at call_at
call_at-merged_at [] i f j inside = absurd (omega (arith, inside))
call_at-merged_at (call ∷ calls) zero f zero inside = refl
call_at-merged_at (call ∷ calls) zero f (suc j) inside = rw differs refl
  where
    differs : (0 == suc j) ≡ false
    differs = ground arith
call_at-merged_at (call ∷ calls) (suc i) f zero inside = rw differs refl
  where
    differs : (suc i == 0) ≡ false
    differs = ground arith
call_at-merged_at (call ∷ calls) (suc i) f (suc j) inside =
    call_at-merged_at calls i f j (omega (arith, inside))
    ∙ ap (λ b. if b then merged (call_at calls j) f else call_at calls j) (sym same)
  where
    same : (suc i == suc j) ≡ (i == j)
    same = ground arith
