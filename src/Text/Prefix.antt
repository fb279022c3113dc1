-- ===== src/Text/Prefix.antt =====
-- internal/textbound/prefix.go: a writer that keeps the first bytes written to it and counts all.
use mathlib.Core.List.{append-nil, append_assoc}
use lib_agent_harness.Prelude.{
  ℕ, zero, suc, ◌+◌, ◌-◌, ◌≡◌, refl, Bool, List, [], ◌∷◌, ◌++◌, arith, length, length-append, take,
  ltb, if◌then◌else◌, Bool-cases, inl, inr, ◌∙◌, sym,
}
use lib_agent_harness.Text.{Text}

pub record Prefix : Type 0 where
  pub limit : ℕ
  pub buf : Text
  pub total : ℕ

abbrev pub empty : ℕ → Prefix
empty limit = record { limit = limit; buf = []; total = 0 }

-- `Write`; the buffer never passes the limit, so the truncated subtraction is the source's
unfoldable pub write : Prefix → Text → Prefix
write p b = record p {
  total = p.total + length b;
  buf = if ltb 0 (p.limit - length p.buf) then p.buf ++ take (p.limit - length p.buf) b else p.buf;
}

unfoldable pub exceeded : Prefix → Bool
exceeded p = ltb p.limit p.total

pub write_all : Prefix → List Text → Prefix
write_all p [] = p
write_all p (b ∷ bs) = write_all (write p b) bs

abbrev pub joined : List Text → Text
joined [] = []
joined (b ∷ bs) = b ++ joined bs

take-append : (n : ℕ) (xs ys : Text) → take n (xs ++ ys) ≡ take n xs ++ take (n - length xs) ys
take-append zero [] ys = refl
take-append zero (x ∷ xs) ys = ground arith
take-append (suc n) [] ys = ground arith
take-append (suc n) (x ∷ xs) ys = ground (arith, take-append n xs ys)

take_nil : (n : ℕ) → ◌≡◌ {A = Text} [] (take n [])
take_nil zero = refl
take_nil (suc n) = refl

left-take : (n : ℕ) (xs : Text) → n - length (take n xs) ≡ n - length xs
left-take zero xs = ground arith
left-take (suc n) [] = refl
left-take (suc n) (x ∷ xs) = omega (arith, left-take n xs)

-- What the writer holds after the bytes that were written.
pub record Holds (limit : ℕ) (written : Text) (p : Prefix) : Type 0 where
  pub limited : p.limit ≡ limit
  pub kept : p.buf ≡ take limit written
  pub counted : p.total ≡ length written

write-Holds :
    (limit : ℕ) (written b : Text) (p : Prefix)
    → Holds limit written p
    → Holds limit (written ++ b) (write p b)
unfolding write
write-Holds limit written b p h = elim (Bool-cases (ltb 0 (p.limit - length p.buf))) [
  | inl room ↦ record {
    limited = h.limited;
    kept = rw (room, take-append limit written b, h.limited, h.kept, left-take limit written);
    counted = omega (arith, length-append written b, h.counted);
  }
  | inr full ↦
      let none_left : limit - length written ≡ 0 =
        ground (arith, h.limited, h.kept, left-take limit written) in
      record {
        limited = h.limited;
        kept =
            rw (full, take-append limit written b, none_left)
              (h.kept ∙ sym (append-nil (take limit written)));
        counted = omega (arith, length-append written b, h.counted);
      }
]

write_all-Holds :
    (limit : ℕ) (written : Text) (p : Prefix) (bs : List Text)
    → Holds limit written p
    → Holds limit (written ++ joined bs) (write_all p bs)
unfolding write_all
write_all-Holds limit written p [] h = rw append-nil h
write_all-Holds limit written p (b ∷ bs) h =
    rw (← append_assoc)
      (write_all-Holds limit (written ++ b) (write p b) bs (write-Holds limit written b p h))

-- However the bytes are split into writes, the writer keeps the first `limit` of them all, counts them
-- all, and reports an excess exactly when there were more than `limit`.
pub prefix_exact :
    (limit : ℕ) (bs : List Text)
    → let p = write_all (empty limit) bs in
      (p.buf ≡ take limit (joined bs)) × (exceeded p ≡ ltb limit (length (joined bs)))
unfolding exceeded
prefix_exact limit bs =
    let h =
      write_all-Holds limit [] (empty limit) bs
        (record { limited = refl; kept = take_nil limit; counted = refl }) in
    (h.kept, rw (h.limited, h.counted))
