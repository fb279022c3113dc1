-- ===== src/Text/Bound.antt =====
-- `bound` of session/redact.go always returns, within its limit.
use lib_agent_harness.Prelude.{
  ℕ, zero, suc, ◌+◌, ◌-◌, ◌/◌, ◌%◌, ◌≤◌, ◌<◌, ◌≡◌, refl, ◌⊎◌, inl, inr, [], ◌∷◌, ◌++◌, some, arith,
  length, take, length-append, Bool-cases, leb, leb→le, ltb, ltb→lt, ◌==◌, ==_iff, codes,
}
use lib_agent_harness.Text.{
  Text, cut, itoa_from, itoa, marker, short_marker, Ending, returned, no_room, settle, finish,
  bound,
}
use lib_agent_harness.Text.Cut.{rune_end-le, rune_end_mono, cut_over, length-take_le}

length-itoa_from_le : (f n : ℕ) (out : Text) → length out ≤ length (itoa_from f n out)
unfolding itoa_from
length-itoa_from_le zero n out = omega arith
length-itoa_from_le (suc f) n out =
    ground (arith, length-itoa_from_le f (n / 10) ((b'0' + n % 10) ∷ out))

-- More fuel, a larger number and a longer text give no shorter text.
itoa_from_mono :
    (f g n m : ℕ) (out out' : Text)
    → f ≤ g
    → n ≤ m
    → length out ≤ length out'
    → length (itoa_from f n out) ≤ length (itoa_from g m out')
unfolding itoa_from
itoa_from_mono zero g n m out out' hf hn ho = omega (arith, length-itoa_from_le g m out')
itoa_from_mono (suc f) zero n m out out' hf hn ho = absurd (omega arith)
itoa_from_mono (suc f) (suc g) n m out out' hf hn ho = ground (
  arith,
  itoa_from_mono f g (n / 10) (m / 10) ((b'0' + n % 10) ∷ out) ((b'0' + m % 10) ∷ out'),
  length-itoa_from_le g (m / 10) ((b'0' + m % 10) ∷ out'),
)

marker_mono : (a b : ℕ) → a ≤ b → length (marker a) ≤ length (marker b)
unfolding marker itoa
marker_mono a b h = omega (
  arith,
  length-append (codes "\n[truncated: ") (itoa a ++ codes " further bytes omitted]"),
  length-append (codes "\n[truncated: ") (itoa b ++ codes " further bytes omitted]"),
  length-append (itoa a) (codes " further bytes omitted]"),
  length-append (itoa b) (codes " further bytes omitted]"),
  itoa_from_mono (suc a) (suc b) a b [] [] (omega arith) h (omega arith),
)

module _ (text : Text) (limit : ℕ) (over : limit < length text) where
  next : ℕ → ℕ
  next end = length (cut text (limit - length (marker (length text - end))))

  next_mono : (a b : ℕ) → a ≤ b → next a ≤ next b
  unfolding next
  next_mono a b h =
      let la : ℕ = limit - length (marker (length text - a)) in
      let lb : ℕ = limit - length (marker (length text - b)) in
      let shorter : la ≤ lb =
        omega (arith, marker_mono (length text - b) (length text - a) (omega arith)) in
      omega (
        arith,
        (cut_over text la (omega arith)).0,
        (cut_over text lb (omega arith)).0,
        rune_end_mono text la lb shorter,
      )

  next-le : (end : ℕ) → next end ≤ limit - length (marker (length text - end))
  unfolding next
  next-le end =
      let l : ℕ = limit - length (marker (length text - end)) in
      omega (arith, (cut_over text l (omega arith)).0, rune_end-le text l)

  abbrev Fits : Ending → Type 0
  Fits (returned out) = length out ≤ limit
  Fits no_room = Unit

  -- The ends fall until one is its own successor, so the fuel suffices.
  settle_total :
      (fuel end : ℕ)
      → end < fuel
      → end ≤ limit
      → next end ≤ end
      → (e : Ending) × (settle fuel text limit end ≡ some e) × Fits e
  unfolding settle next
  settle_total zero end enough le falls = absurd (omega arith)
  settle_total (suc fuel) end enough le falls =
      elim (Bool-cases (ltb (length (marker (length text - end))) limit)) [
        | inr none_left ↦ (no_room, rw none_left, tt)
        | inl room ↦ elim (Bool-cases (next end == end)) [
          | inl found ↦ (
            returned (take end text ++ marker (length text - end)),
            rw (room, found),
            omega (
              arith,
              length-append (take end text) (marker (length text - end)),
              length-take_le end text (omega arith),
              next-le end,
              (==_iff (next end) end).0 found,
              ltb→lt (length (marker (length text - end))) limit room,
            ),
          )
          | inr lower ↦
              rw (room, lower)
                (settle_total fuel (next end) (ground (arith, ==_iff (next end) end)) (omega arith)
                  (next_mono (next end) end falls))
        ]
      ]

  finish-Fits : (e : Ending) → Fits e → length (finish text limit e) ≤ limit
  unfolding finish
  finish-Fits (returned out) h = h
  finish-Fits no_room h = elim (Bool-cases (leb (length short_marker) limit)) [
    | inl fits ↦
        let l : ℕ = limit - length short_marker in
        rw fits (
          omega (
            arith,
            length-append (cut text l) short_marker,
            (cut_over text l (omega arith)).0,
            rune_end-le text l,
            leb→le (length short_marker) limit fits,
          ))
    | inr tight ↦ rw tight (omega (arith, (cut_over text limit over).0, rune_end-le text limit))
  ]

-- `bound` always returns: its loop settles within as many rounds as the limit has bytes, and two. The
-- text that it returns is at most the limit long, and it is the whole text unless that is longer.
pub bound_fits :
    (text : Text) (limit : ℕ)
    → (out : Text) × (bound text limit ≡ some out)
      × (length out ≤ limit)
      × ((out ≡ text) ⊎ (limit < length text))
unfolding bound
bound_fits text limit = elim (Bool-cases (leb (length text) limit)) [
  | inl fits ↦ (text, rw fits, leb→le (length text) limit fits, inl refl)
  | inr over ↦
      let long : limit < length text = ground arith in
      let (e, settled, small) =
        settle_total text limit long (suc limit + 1) limit (omega arith) (omega arith)
          (omega (arith, next-le text limit long limit)) in
      (finish text limit e, rw over (rw settled), finish-Fits text limit long e small, inr long)
]
