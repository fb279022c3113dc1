-- ===== src/Tokens/Accumulation.antt =====
-- What `Add` of tokens.go makes of two usages.
use lib_agent_harness.Prelude.{
  ◌+◌, ◌≤◌, ◌<◌, ◌≡◌, Bool, true, ◌&&◌, arith, leb, some, none, if◌then◌else◌,
}
use lib_agent_harness.Prelude.Int.{ℤ, pos, negsuc, pos_part, neg_part, max_int64, +ℤ_overflow}
use lib_agent_harness.Usage.{Usage, unknown, total}
use lib_agent_harness.Tokens.{add_figure, add_known, add}
use lib_agent_harness.Tokens.Sums.{sum_two}
use lib_agent_harness.Tokens.Reports.{IsConsistent, unknown-IsMeasured}

add_figure_lem :
    (a b : ℤ)
    → neg_part a ≡ 0
    → neg_part b ≡ 0
    → pos_part a ≤ max_int64
    → pos_part b ≤ max_int64
    → add_figure a b ≡ (
        if leb (pos_part a + pos_part b) max_int64
        then some (pos (pos_part a + pos_part b))
        else none)
unfolding add_figure
add_figure_lem (negsuc a) b na nb fa fb = absurd (omega arith)
add_figure_lem (pos a) (negsuc b) na nb fa fb = absurd (omega arith)
add_figure_lem (pos a) (pos b) na nb fa fb = ground (arith, sum_two (pos a) (pos b))

-- The figures of two usages added with no bound, with a split that is known where both state it.
abbrev pub joined : Usage → Usage → Usage
joined a b = record {
  known = true;
  input = pos (pos_part a.input + pos_part b.input);
  output = pos (pos_part a.output + pos_part b.output);
  cache_read = pos (pos_part a.cache_read + pos_part b.cache_read);
  cache_write = pos (pos_part a.cache_write + pos_part b.cache_write);
  reasoning = pos (pos_part a.reasoning + pos_part b.reasoning);
  cache_known = a.cache_known && b.cache_known;
  reasoning_known = a.reasoning_known && b.reasoning_known;
}

abbrev pub fits : Usage → Usage → Bool
fits a b =
    leb (pos_part a.input + pos_part b.input) max_int64
    && leb (pos_part a.output + pos_part b.output) max_int64

add_known_lem :
    (a b : Usage)
    → IsConsistent a
    → IsConsistent b
    → add_known a b ≡ (if fits a b then joined a b else unknown)
unfolding add_known
add_known_lem a b ha hb = ground (
  arith,
  add_figure_lem a.input b.input,
  add_figure_lem a.output b.output,
  add_figure_lem a.cache_read b.cache_read,
  add_figure_lem a.cache_write b.cache_write,
  add_figure_lem a.reasoning b.reasoning,
)

-- Adding two known, consistent usages gives the exact sum of every figure when the sums of the inputs
-- and of the outputs are representable, with a split known only where both stated it, and otherwise
-- the unknown usage. An unknown second usage gives the unknown usage, and an unknown first one is
-- passed over.
pub add_exact :
    (acc next : Usage)
    → IsConsistent acc
    → IsConsistent next
    → add acc next ≡ (
        if next.known
        then (if acc.known then (if fits acc next then joined acc next else unknown) else next)
        else unknown)
unfolding add
add_exact acc next ha hn = ground (arith, add_known_lem acc next)

-- Adding two consistent usages gives a consistent one: representable counts, parts no larger than their
-- wholes, and no figure where it is unknown.
pub add-IsConsistent :
    (acc next : Usage) → IsConsistent acc → IsConsistent next → IsConsistent (add acc next)
add-IsConsistent acc next ha hn = rw (add_exact acc next ha hn) (ground (arith, unknown-IsMeasured))

-- `Add` checks each figure alone. For two known, consistent usages whose inputs and whose outputs
-- have representable sums that together pass the largest int64, the sum is still known, and its total
-- is a negative number.
pub total-add_wraps :
    (acc next : Usage)
    → IsConsistent acc
    → IsConsistent next
    → acc.known ≡ true
    → next.known ≡ true
    → fits acc next ≡ true
    → max_int64
      < pos_part acc.input + pos_part next.input + (pos_part acc.output + pos_part next.output)
    → ((add acc next).known ≡ true)
      × (pos_part (total (add acc next)) ≡ 0)
      × (0 < neg_part (total (add acc next)))
unfolding total
total-add_wraps acc next ha hn ka kn f over = rw (add_exact acc next ha hn) (
    ground (
      arith,
      +ℤ_overflow (pos_part acc.input + pos_part next.input)
          (pos_part acc.output + pos_part next.output),
    ))
