-- ===== src/Examples/Counts.antt =====
-- Token counts and the account of a turn.
use lib_agent_harness.Prelude.{
  ◌-◌, ◌^◌, ◌<◌, ◌&&◌, true, List, [], ◌∷◌, some, leb, ◌≡◌, ◌∙◌, refl, inl, arith,
}
use lib_agent_harness.Prelude.Int.{pos, pos_part, neg_part, max_int64}
use lib_agent_harness.Usage.{Usage, total}
use lib_agent_harness.Tokens.{Report, add}
use lib_agent_harness.Tokens.Reports.{IsConsistent}
use lib_agent_harness.Tokens.Accumulation.{joined, add_exact, add-IsConsistent, total-add_wraps}
use lib_agent_harness.Session.Accounting.{opened, account_all, settled}
use lib_agent_harness.Session.Accounting.Exact.{
  IsSum, all_known, summed, account_known, account_exact,
}

-- 100 tokens of prompt, 40 of them read from a cache and 10 written to it, and 20 of output
abbrev response : Usage
response = record {
  known = true;
  input = pos 100;
  output = pos 20;
  cache_read = pos 40;
  cache_write = pos 10;
  reasoning = pos 5;
  cache_known = true;
  reasoning_known = true;
}

response-IsConsistent : IsConsistent response
response-IsConsistent = record {
  unknown_empty = inl refl;
  input_counts = refl;
  output_counts = refl;
  read_counts = refl;
  write_counts = refl;
  reasoning_counts = refl;
  input_fits = omega arith;
  output_fits = omega arith;
  cache_within = omega arith;
  reasoning_within = omega arith;
}

abbrev huge : Usage
huge = record response { input = pos (2 ^ 62 - 1); output = pos (2 ^ 61) }

huge-IsConsistent : IsConsistent huge
huge-IsConsistent = record {
  unknown_empty = inl refl;
  input_counts = refl;
  output_counts = refl;
  read_counts = refl;
  write_counts = refl;
  reasoning_counts = refl;
  input_fits = omega arith;
  output_fits = omega arith;
  cache_within = omega arith;
  reasoning_within = omega arith;
}

abbrev reported : Report
reported = record {
  input = some (pos 100);
  output = some (pos 20);
  cache_read = some (pos 40);
  cache_write = some (pos 10);
  reasoning = some (pos 5);
}

add_exact_example : add response response ≡ joined response response
add_exact_example = add_exact response response response-IsConsistent response-IsConsistent

add-IsConsistent_example : IsConsistent (add response huge)
add-IsConsistent_example = add-IsConsistent response huge response-IsConsistent huge-IsConsistent

total-add_wraps_example :
    ((add huge huge).known ≡ true)
    × (pos_part (total (add huge huge)) ≡ 0)
    × (0 < neg_part (total (add huge huge)))
total-add_wraps_example =
    total-add_wraps huge huge huge-IsConsistent huge-IsConsistent refl refl refl (omega arith)

abbrev responses : List Usage
responses = response ∷ response ∷ []

account_known_example : (account_all opened responses).known ≡ (
    all_known responses
    && leb (summed (λ u. u.input) responses) max_int64
    && leb (summed (λ u. u.output) responses) max_int64)
account_known_example = account_known responses (response-IsConsistent, (response-IsConsistent, tt))

responses_known : (account_all opened responses).known ≡ true
responses_known =
    account_known responses (response-IsConsistent, (response-IsConsistent, tt)) ∙ refl

account_exact_example :
    IsSum opened responses (account_all opened responses)
    × (settled (account_all opened responses)
        ≡ some (record {
          figures = record (account_all opened responses).total.figures { known = true };
          final = true;
        }))
account_exact_example =
    account_exact responses (response-IsConsistent, (response-IsConsistent, tt)) responses_known
