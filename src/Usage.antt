-- ===== src/Usage.antt =====
-- usage.go: token accounting in one shape for every engine and mode. The figures are int64 values;
-- a cost's float64 dollars are not modelled.
use lib_agent_harness.Prelude.{Bool, true, false, not, ◌||◌, if◌then◌else◌}
use lib_agent_harness.Prelude.Int.{ℤ, pos, ◌+ℤ◌, ◌-ℤ◌}

pub record Usage : Type 0 where
  pub known : Bool
  pub input : ℤ
  pub output : ℤ
  pub cache_read : ℤ
  pub cache_write : ℤ
  pub reasoning : ℤ
  pub cache_known : Bool
  pub reasoning_known : Bool

-- `harness.Usage{}`
abbrev pub unknown : Usage
unknown = record {
  known = false;
  input = pos 0;
  output = pos 0;
  cache_read = pos 0;
  cache_write = pos 0;
  reasoning = pos 0;
  cache_known = false;
  reasoning_known = false;
}

unfoldable pub fresh : Usage → ℤ × Bool
fresh u =
    if not u.known || not u.cache_known
    then (pos 0, false)
    else (u.input -ℤ u.cache_read -ℤ u.cache_write, true)

unfoldable pub total : Usage → ℤ
total u = u.input +ℤ u.output
