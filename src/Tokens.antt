-- ===== src/Tokens.antt =====
-- internal/tokens/tokens.go: a provider's token report turned into a `Usage`, and the accumulation
-- of usage. A pointer to a figure is an `Option`, absent where the pointer is nil.
pub mod Sums
pub mod Reports
pub mod Accumulation
use lib_agent_harness.Prelude.{
  ◌>>=◌, Bool, true, false, Option, none, some, List, [], ◌∷◌, ◌&&◌, ◌||◌, if◌then◌else◌,
}
use lib_agent_harness.Prelude.Int.{ℤ, pos, max_int64, ltb_ℤ, ◌+ℤ◌, ◌-ℤ◌}
use lib_agent_harness.Usage.{Usage, unknown}

pub record Report : Type 0 where
  pub input : Option ℤ
  pub output : Option ℤ
  pub cache_read : Option ℤ
  pub cache_write : Option ℤ
  pub reasoning : Option ℤ

abbrev pub value : Option ℤ → ℤ
value none = pos 0
value (some n) = n

abbrev pub stated : Option ℤ → Bool
stated none = false
stated (some n) = true

-- the loop of `sum`
pub sum_from : ℤ → List ℤ → ℤ × Bool
sum_from total [] = (total, true)
sum_from total (part ∷ rest) =
    if ltb_ℤ part (pos 0) || ltb_ℤ (pos max_int64 -ℤ part) total
    then (pos 0, false)
    else sum_from (total +ℤ part) rest

unfoldable pub sum : List ℤ → ℤ × Bool
sum parts = sum_from (pos 0) parts

-- `finish`, which dereferences `r.Output`: both callers have seen that it is not nil
unfoldable pub finish : Report → ℤ → ℤ → Usage
finish r input output =
    let reasoning = value r.reasoning in
    let (_, fits) = sum (input ∷ output ∷ []) in
    if ltb_ℤ reasoning (pos 0) || ltb_ℤ output reasoning
    then unknown
    else if fits
    then record {
      known = true;
      input = input;
      output = output;
      cache_read = value r.cache_read;
      cache_write = value r.cache_write;
      reasoning = reasoning;
      cache_known = stated r.cache_read && stated r.cache_write;
      reasoning_known = stated r.reasoning;
    }
    else unknown

inclusive : Report → ℤ → ℤ → Usage
inclusive r input output =
    let read = value r.cache_read in
    let write = value r.cache_write in
    if ltb_ℤ read (pos 0) || ltb_ℤ write (pos 0) || ltb_ℤ input read || ltb_ℤ (input -ℤ read) write
    then unknown
    else finish r input output

exclusive : Report → ℤ → ℤ → Usage
exclusive r input output =
    let (all, fits) = sum (input ∷ value r.cache_read ∷ value r.cache_write ∷ []) in
    if fits then finish r all output else unknown

-- `CacheInclusive` and `CacheExclusive` first refuse an absent input or output.
abbrev with_both : Option ℤ → Option ℤ → (ℤ → ℤ → Usage) → Usage
with_both (some i) (some o) f = f i o
with_both _ _ f = unknown

unfoldable pub cache_inclusive : Report → Usage
unfolding inclusive
cache_inclusive r = with_both r.input r.output (inclusive r)

unfoldable pub cache_exclusive : Report → Usage
unfolding exclusive
cache_exclusive r = with_both r.input r.output (exclusive r)

checked : ℤ × Bool → Option ℤ
checked (n, fits) = if fits then some n else none

-- One round of the loop in `Add`; `none` stands for its `return harness.Usage{}`.
unfoldable pub add_figure : ℤ → ℤ → Option ℤ
unfolding checked
add_figure acc add = checked (sum (acc ∷ add ∷ []))

add_figures : Usage → Usage → Option Usage
add_figures acc next = do
  input ← add_figure acc.input next.input
  output ← add_figure acc.output next.output
  read ← add_figure acc.cache_read next.cache_read
  write ← add_figure acc.cache_write next.cache_write
  reasoning ← add_figure acc.reasoning next.reasoning
  some (record {
    known = true;
    input = input;
    output = output;
    cache_read = read;
    cache_write = write;
    reasoning = reasoning;
    cache_known = acc.cache_known && next.cache_known;
    reasoning_known = acc.reasoning_known && next.reasoning_known;
  })

abbrev pub or_unknown : Option Usage → Usage
or_unknown none = unknown
or_unknown (some u) = u

add_known : Usage → Usage → Usage
unfolding add_figures
add_known acc next = or_unknown (add_figures acc next)

unfoldable pub add : Usage → Usage → Usage
unfolding add_known
add acc next = if next.known then (if acc.known then add_known acc next else next) else unknown

unfoldable pub no_cache_write : Option ℤ → Option ℤ
no_cache_write none = none
no_cache_write (some read) = some (pos 0)

-- `Sum`: nil when a figure is absent, otherwise the checked total of all of them
gather : List (Option ℤ) → Option (List ℤ)
gather [] = some []
gather (none ∷ parts) = none
gather (some n ∷ parts) = elim (gather parts) [ none ↦ none | some values ↦ some (n ∷ values) ]

unfoldable pub sum_stated : List (Option ℤ) → Option ℤ
unfolding gather checked
sum_stated parts = elim (gather parts) [ none ↦ none | some values ↦ checked (sum values) ]
