-- ===== src/Session/Accounting/Exact.antt =====
-- A turn's account against the exact sums of what its responses reported.
use lib_agent_harness.Prelude.{
  refl, some, ℕ, ◌+◌, ◌≡◌, Bool, true, false, List, [], ◌∷◌, ◌&&◌, inl, inr, arith, leb, All,
  Bool-cases,
}
use lib_agent_harness.Prelude.Int.{ℤ, pos_part, max_int64}
use lib_agent_harness.Usage.{Usage}
use lib_agent_harness.Tokens.Reports.{IsConsistent, unknown-IsMeasured}
use lib_agent_harness.Tokens.Accumulation.{fits, add_exact, add-IsConsistent}
use lib_agent_harness.Session.Accounting.{TurnAccount, opened, account_add, account_all, settled}

-- The exact sum of one figure over the responses.
abbrev pub summed : (Usage → ℤ) → List Usage → ℕ
summed figure [] = 0
summed figure (u ∷ us) = pos_part (figure u) + summed figure us

abbrev pub all_known : List Usage → Bool
all_known [] = true
all_known (u ∷ us) = u.known && all_known us

-- The account holds what it held before, and the sums of the responses.
pub record IsSum (before : TurnAccount) (us : List Usage) (after : TurnAccount) : Type 0 where
  pub consistent : IsConsistent after.total.figures
  pub input :
      pos_part after.total.figures.input
      ≡ pos_part before.total.figures.input + summed (λ u. u.input) us
  pub output :
      pos_part after.total.figures.output
      ≡ pos_part before.total.figures.output + summed (λ u. u.output) us
  pub cache_read :
      pos_part after.total.figures.cache_read
      ≡ pos_part before.total.figures.cache_read + summed (λ u. u.cache_read) us
  pub cache_write :
      pos_part after.total.figures.cache_write
      ≡ pos_part before.total.figures.cache_write + summed (λ u. u.cache_write) us
  pub reasoning :
      pos_part after.total.figures.reasoning
      ≡ pos_part before.total.figures.reasoning + summed (λ u. u.reasoning) us

-- One response leaves the account known exactly when it was known, the response is, and the sums of
-- the inputs and of the outputs fit.
account_add_known :
    (a : TurnAccount) (u : Usage)
    → IsConsistent a.total.figures
    → IsConsistent u
    → (account_add a u).known ≡ (u.known && (a.known && fits a.total.figures u))
unfolding account_add
account_add_known a u ha hu = ground (arith, add_exact a.total.figures u, ha.unknown_empty)

account_add-IsSum :
    (a : TurnAccount) (u : Usage)
    → IsConsistent a.total.figures
    → IsConsistent u
    → (account_add a u).known ≡ true
    → IsSum a (u ∷ []) (account_add a u)
unfolding account_add
account_add-IsSum a u ha hu k =
    ground
      (arith, add_exact a.total.figures u, add-IsConsistent a.total.figures u, ha.unknown_empty)

-- An account that is not known stays so.
account_all_latched :
    (a : TurnAccount) (us : List Usage) → a.known ≡ false → (account_all a us).known ≡ false
unfolding account_all account_add
account_all_latched a [] h = h
account_all_latched a (u ∷ us) h = account_all_latched (account_add a u) us (ground arith)

account_add-IsConsistent :
    (a : TurnAccount) (u : Usage)
    → IsConsistent a.total.figures
    → IsConsistent u
    → IsConsistent (account_add a u).total.figures
unfolding account_add
account_add-IsConsistent a u ha hu = ground (arith, add-IsConsistent a.total.figures u)

abbrev known_after : TurnAccount → List Usage → Bool
known_after a us =
    all_known us
    && leb (pos_part a.total.figures.input + summed (λ u. u.input) us) max_int64
    && leb (pos_part a.total.figures.output + summed (λ u. u.output) us) max_int64

account_all_lem :
    (a : TurnAccount) (us : List Usage)
    → IsConsistent a.total.figures
    → All IsConsistent us
    → a.known ≡ true
    → ((account_all a us).known ≡ known_after a us)
      × ((account_all a us).known ≡ true → IsSum a us (account_all a us))
unfolding account_all
account_all_lem a [] ha hs k = (ground arith, λ _. ground arith)
account_all_lem a (u ∷ us) ha hs k = elim (Bool-cases (account_add a u).known) [
  | inl still ↦ ground (
    arith,
    account_add_known a u,
    account_add-IsSum a u,
    account_add-IsConsistent a u,
    account_all_lem (account_add a u) us,
  )
  | inr lost ↦ ground (arith, account_add_known a u, account_all_latched (account_add a u) us)
]

-- For responses with consistent usages, the account of a turn is known exactly when every response
-- reported its usage and the sums of their inputs and of their outputs are representable.
pub account_known :
    (us : List Usage)
    → All IsConsistent us
    → (account_all opened us).known ≡ (
        all_known us
        && leb (summed (λ u. u.input) us) max_int64
        && leb (summed (λ u. u.output) us) max_int64)
account_known us hs = ground (arith, account_all_lem opened us, unknown-IsMeasured)

-- A turn's account that is known holds the exact sum of every figure over the turn's responses, and the
-- usage that the turn publishes is known and final and has those figures.
pub account_exact :
    (us : List Usage)
    → All IsConsistent us
    → (account_all opened us).known ≡ true
    → IsSum opened us (account_all opened us)
      × (settled (account_all opened us)
          ≡ some (record {
            figures = record (account_all opened us).total.figures { known = true };
            final = true;
          }))
unfolding settled
account_exact us hs known =
    ((account_all_lem opened us unknown-IsMeasured.consistent hs refl).1 known, rw known)
