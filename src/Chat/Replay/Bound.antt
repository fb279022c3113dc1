-- ===== src/Chat/Replay/Bound.antt =====
-- completion/replay.go: what is captured goes back to where it came from, and nowhere else.
use lib_agent_harness.Prelude.{
  String, true, false, Option, none, some, List, [], ◌∷◌, str_eq, eq_iff, if◌then◌else◌, ◌≡◌, refl,
  arith,
}
use lib_agent_harness.Text.{Text}
use lib_agent_harness.EventStream.{is_empty}
use lib_agent_harness.Chat.Replay.{
  Fields, Replay, captured, are_listed, capture_replay, open_replay,
}

listed_more :
    (fields : Fields) (n : String) (names : List String)
    → are_listed fields names ≡ true
    → are_listed fields (n ∷ names) ≡ true
listed_more [] n names h = refl
listed_more ((k, value) ∷ fields) n names h = ground (arith, listed_more fields n names)

captured-listed :
    (raw : Fields) (names : List String) → are_listed (captured raw names) names ≡ true
unfolding captured
captured-listed raw [] = refl
captured-listed raw (n ∷ names) =
    ground (arith, captured-listed raw names, listed_more (captured raw names) n names, eq_iff n n)

-- What `captureReplay` keeps for one endpoint and model is opened there as it was captured, and for any
-- other it is refused, unless nothing was captured. The envelope that was captured is encoded as some
-- bytes, which decode to it.
pub captured_replay_opens :
    (marshal : Replay → Text) (unmarshal : Text → Option Replay) (binding other : String)
    (raw : Fields) (names : List String)
    → unmarshal (marshal (record { binding = binding; fields = captured raw names }))
      ≡ some (record { binding = binding; fields = captured raw names })
    → is_empty (marshal (record { binding = binding; fields = captured raw names })) ≡ false
    → open_replay unmarshal (capture_replay marshal binding raw names) other names ≡ (
        if is_empty (captured raw names)
        then some []
        else if str_eq binding other
        then some (captured raw names)
        else none)
unfolding open_replay capture_replay
captured_replay_opens marshal unmarshal binding other raw names decodes some_bytes =
    ground (arith, captured-listed raw names)
