-- ===== src/Tokens/Reports.antt =====
-- What `CacheInclusive` and `CacheExclusive` of tokens.go make of a report.
use lib_agent_harness.Prelude.{ℕ, ◌⊎◌, inr, ◌+◌, ◌-◌, ◌≤◌, ◌≡◌, refl, true, [], ◌∷◌, some, arith}
use lib_agent_harness.Prelude.Int.{
  ℤ, pos, negsuc, pos_part, neg_part, max_int64, +ℤ_pos, -ℤ_pos, -ℤ_counts,
}
use lib_agent_harness.Usage.{Usage, unknown, fresh, total}
use lib_agent_harness.Tokens.{
  Report, value, finish, inclusive, exclusive, cache_inclusive, cache_exclusive,
}
use lib_agent_harness.Tokens.Sums.{IsInt64, exact_sum, sum_two, sum_lem, sum_cases, exact_three}

-- Every figure is a representable count, no part is larger than its whole, and a usage that is not
-- known carries no figure.
pub record IsConsistent (u : Usage) : Type 0 where
  pub unknown_empty : (u.known ≡ true) ⊎ (u ≡ unknown)
  pub input_counts : neg_part u.input ≡ 0
  pub output_counts : neg_part u.output ≡ 0
  pub read_counts : neg_part u.cache_read ≡ 0
  pub write_counts : neg_part u.cache_write ≡ 0
  pub reasoning_counts : neg_part u.reasoning ≡ 0
  pub input_fits : pos_part u.input ≤ max_int64
  pub output_fits : pos_part u.output ≤ max_int64
  pub cache_within : pos_part u.cache_read + pos_part u.cache_write ≤ pos_part u.input
  pub reasoning_within : pos_part u.reasoning ≤ pos_part u.output

-- So is the total of a single report.
pub record IsMeasured (u : Usage) : Type 0 where
  pub consistent : IsConsistent u
  pub total_fits : pos_part u.input + pos_part u.output ≤ max_int64

abbrev pub IsReport : Report → Type 0
IsReport r =
    IsInt64 (value r.input)
    × IsInt64 (value r.output)
    × IsInt64 (value r.cache_read)
    × IsInt64 (value r.cache_write)
    × IsInt64 (value r.reasoning)

pub unknown-IsMeasured : IsMeasured unknown
unknown-IsMeasured = record {
  consistent = record {
    unknown_empty = inr refl;
    input_counts = refl;
    output_counts = refl;
    read_counts = refl;
    write_counts = refl;
    reasoning_counts = refl;
    input_fits = omega arith;
    output_fits = omega arith;
    cache_within = omega arith;
    reasoning_within = omega arith;
  };
  total_fits = omega arith;
}

finish-IsMeasured :
    (r : Report) (input output : ℤ)
    → IsInt64 input
    → IsInt64 output
    → neg_part (value r.cache_read) ≡ 0
    → neg_part (value r.cache_write) ≡ 0
    → pos_part (value r.cache_read) + pos_part (value r.cache_write) ≤ pos_part input
    → IsMeasured (finish r input output)
unfolding finish
finish-IsMeasured r (negsuc i) output hi ho nr nw within =
    rw (sum_two (negsuc i) output hi ho) (ground (arith, unknown-IsMeasured))
finish-IsMeasured r (pos i) (negsuc o) hi ho nr nw within =
    rw (sum_two (pos i) (negsuc o) hi ho) (ground (arith, unknown-IsMeasured))
finish-IsMeasured r (pos i) (pos o) hi ho nr nw within =
    rw (sum_two (pos i) (pos o) hi ho) (ground (arith, unknown-IsMeasured))

inclusive-IsMeasured :
    (r : Report) (input output : ℤ)
    → IsInt64 input
    → IsInt64 output
    → IsInt64 (value r.cache_read)
    → IsInt64 (value r.cache_write)
    → IsMeasured (inclusive r input output)
unfolding inclusive
inclusive-IsMeasured r (negsuc i) output hi ho hr hw =
    ground (arith, unknown-IsMeasured, finish-IsMeasured r (negsuc i) output)
inclusive-IsMeasured r (pos i) output hi ho hr hw = ground (
  arith,
  unknown-IsMeasured,
  finish-IsMeasured r (pos i) output,
  -ℤ_pos i (pos_part (value r.cache_read)),
)

exclusive-IsMeasured :
    (r : Report) (input output : ℤ)
    → IsInt64 input
    → IsInt64 output
    → IsInt64 (value r.cache_read)
    → IsInt64 (value r.cache_write)
    → IsMeasured (exclusive r input output)
unfolding exclusive
exclusive-IsMeasured r input output hi ho hr hw = ground (
  arith,
  unknown-IsMeasured,
  sum_cases (input ∷ value r.cache_read ∷ value r.cache_write ∷ []) (hi, (hr, (hw, tt))),
  exact_three input (value r.cache_read) (value r.cache_write),
  finish-IsMeasured r (pos (exact_sum (input ∷ value r.cache_read ∷ value r.cache_write ∷ [])))
      output,
)

-- A report of int64 figures, read as cache-inclusive, gives a usage whose figures are representable
-- counts, whose cache parts lie within its input and whose reasoning lies within its output, whose
-- total fits an int64, and which is all zeros when it is not known.
pub cache_inclusive-IsMeasured : (r : Report) → IsReport r → IsMeasured (cache_inclusive r)
unfolding cache_inclusive
cache_inclusive-IsMeasured r h =
    ground (arith, unknown-IsMeasured, inclusive-IsMeasured r (value r.input) (value r.output))

-- A report of int64 figures, read as cache-exclusive, gives a usage whose figures are representable
-- counts, whose cache parts lie within its input and whose reasoning lies within its output, whose
-- total fits an int64, and which is all zeros when it is not known.
pub cache_exclusive-IsMeasured : (r : Report) → IsReport r → IsMeasured (cache_exclusive r)
unfolding cache_exclusive
cache_exclusive-IsMeasured r h =
    ground (arith, unknown-IsMeasured, exclusive-IsMeasured r (value r.input) (value r.output))

-- For a consistent usage that is known with a known cache split, the fresh input is known, is not
-- negative, and with the two cache figures adds up to the input: the subtraction never wraps.
pub fresh_exact :
    (u : Usage)
    → IsConsistent u
    → u.known ≡ true
    → u.cache_known ≡ true
    → ((fresh u).1 ≡ true)
      × (neg_part (fresh u).0 ≡ 0)
      × (pos_part (fresh u).0 + pos_part u.cache_read + pos_part u.cache_write ≡ pos_part u.input)
unfolding fresh
fresh_exact u h known split = ground (
  arith,
  -ℤ_counts u.input u.cache_read,
  -ℤ_counts (pos (pos_part u.input - pos_part u.cache_read)) u.cache_write,
)

-- A cache-exclusive report of counts, whose sums fit an int64 and whose reasoning is part of its
-- output, is read without loss: the fresh input is the input that the provider stated, and the total
-- is the sum of the input, the cache figures and the output.
pub fresh-cache_exclusive :
    (i o read write reasoning : ℕ)
    → i + read + write + o ≤ max_int64
    → reasoning ≤ o
    → let u = cache_exclusive (record {
      input = some (pos i);
      output = some (pos o);
      cache_read = some (pos read);
      cache_write = some (pos write);
      reasoning = some (pos reasoning);
    }) in
      (fresh u ≡ (pos i, true)) × (total u ≡ pos (i + read + write + o))
unfolding cache_exclusive exclusive finish fresh total
fresh-cache_exclusive i o read write reasoning h k = ground (
  arith,
  sum_lem (pos i ∷ pos read ∷ pos write ∷ []) (omega arith),
  sum_two (pos (i + (read + (write + 0)))) (pos o),
  -ℤ_counts (pos (i + (read + (write + 0)))) (pos read),
  -ℤ_counts (pos (i + (read + (write + 0)) - read)) (pos write),
  +ℤ_pos (i + (read + (write + 0))) o,
)
