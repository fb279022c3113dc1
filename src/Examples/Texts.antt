-- ===== src/Examples/Texts.antt =====
-- Bounded texts.
use lib_agent_harness.Prelude.{◌≤◌, ◌<◌, List, [], ◌∷◌, some, codes, length, ◌≡◌, ◌⊎◌}
use lib_agent_harness.Text.{Text, bound}
use lib_agent_harness.Text.Bound.{bound_fits}

abbrev sentence : Text
sentence = codes "a tool result that is longer than its limit, so that the end of it is left out"

bound_fits_example :
    (out : Text) × (bound sentence 40 ≡ some out)
    × (length out ≤ 40)
    × ((out ≡ sentence) ⊎ (40 < length sentence))
bound_fits_example = bound_fits sentence 40

abbrev writes : List Text
writes = codes "one " ∷ codes "two " ∷ codes "three" ∷ []
