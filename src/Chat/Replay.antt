-- ===== src/Chat/Replay.antt =====
-- completion/replay.go: the state that an endpoint returns beside a message and needs back with it. The
-- encoding of the envelope as JSON and its decoding are parameters, and a digest that names the endpoint
-- and the model is a text. A map is the list of its entries.
pub mod Bound
use lib_agent_harness.Prelude.{
  ℕ, String, Bool, true, false, not, ◌&&◌, ◌||◌, Option, none, some, List, [], ◌∷◌, codes, str_eq,
  if◌then◌else◌, leb, ◌==◌,
}
use lib_agent_harness.Text.{Text}
use lib_agent_harness.EventStream.{is_empty, text_eq}

abbrev pub Fields : Type 0
Fields = List (String × Text)

-- `replay`
pub record Replay : Type 0 where
  pub binding : String
  pub fields : Fields

-- the value of a name, nil where there is none
abbrev pub field : Fields → String → Text
field [] name = []
field ((k, value) ∷ fields) name = if str_eq k name then value else field fields name

abbrev pub is_space : ℕ → Bool
is_space c = (leb 9 c && leb c 13) || c == 32

-- `bytes.TrimSpace`, of the spaces of ASCII: JSON has no others around a value
abbrev pub trim_front : Text → Text
trim_front [] = []
trim_front (c ∷ cs) = let rest = trim_front cs in if is_space c then rest else c ∷ cs

abbrev pub trim_cons : ℕ → Text → Text
trim_cons c [] = if is_space c then [] else c ∷ []
trim_cons c (d ∷ ds) = c ∷ d ∷ ds

abbrev pub trim_back : Text → Text
trim_back [] = []
trim_back (c ∷ cs) = trim_cons c (trim_back cs)

-- `rawjson.Absent`: no value, or null
unfoldable pub is_absent : Text → Bool
is_absent value =
    let trimmed = trim_back (trim_front value) in is_empty trimmed || text_eq trimmed (codes "null")

-- the loop of `captureReplay`
unfoldable pub captured : Fields → List String → Fields
unfolding is_absent
captured raw [] = []
captured raw (name ∷ names) =
    let rest = captured raw names in
    if is_absent (field raw name) then rest else (name, field raw name) ∷ rest

abbrev pub name_mem : String → List String → Bool
name_mem name [] = false
name_mem name (n ∷ names) = str_eq n name || name_mem name names

-- whether every field has one of the names
abbrev pub are_listed : Fields → List String → Bool
are_listed [] names = true
are_listed ((k, value) ∷ fields) names = name_mem k names && are_listed fields names

module _ (marshal : Replay → Text) where
  -- `captureReplay`, with nil for none
  unfoldable pub capture_replay : String → Fields → List String → Text
  unfolding captured
  capture_replay binding raw names =
      if is_empty (captured raw names)
      then []
      else marshal (record { binding = binding; fields = captured raw names })

module _ (unmarshal : Text → Option Replay) where
  -- `openReplay`, with `none` for false
  unfoldable pub open_replay : Text → String → List String → Option Fields
  open_replay value binding names = if is_empty value then some [] else elim (unmarshal value) [
    | none ↦ none
    | some r ↦
        if not (str_eq r.binding binding) || is_empty r.fields
        then none
        else if are_listed r.fields names
        then some r.fields
        else none
  ]
