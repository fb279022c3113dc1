-- ===== src/Examples/Requests.antt =====
-- Messages as they are sent, with the state that an endpoint returned, and overrides in TOML.
use lib_agent_harness.Prelude.{
  count_if, Bool, true, false, Option, none, some, List, [], ◌∷◌, map, codes, if◌then◌else◌, str_eq,
  ◌>>=◌, ◌≡◌, refl, ltb,
}
use lib_agent_harness.Text.{Text}
use lib_agent_harness.EventStream.{is_empty}
use lib_agent_harness.Session.Transcript.{
  ToolCall, Record, user, assistant, tool_call, tool_result, ran, conversation,
}
use lib_agent_harness.Chat.Replay.{Replay, Fields, captured, capture_replay, open_replay}
use lib_agent_harness.Chat.Replay.Bound.{captured_replay_opens}
use lib_agent_harness.Chat.Messages.{fine, chat_messages}
use lib_agent_harness.Chat.Messages.Sent.{request_message, sent_message, conversation_sent}
use lib_agent_harness.Toml.Sorted.{is_ordered}
use lib_agent_harness.Toml.{text_eq, sorted, keys, codex_mcp_server}
use lib_agent_harness.Toml.Reading.{read_overrides}
use lib_agent_harness.Toml.Overrides.{entries}
use lib_agent_harness.Toml.Accepted.{is_some, is_encodable, registers_server}

abbrev reads_file : ToolCall
reads_file = record {
  id = "call-1";
  kind = "function";
  name = "read";
  arguments = codes "{}";
  replay = [];
}

abbrev records : List Record
records =
    user "turn-1" (codes "What is in it?")
    ∷ assistant "turn-1" 0 [] (codes "{}") (reads_file ∷ [])
    ∷ tool_call "turn-1" 0 "call-1" "read"
    ∷ tool_result "turn-1" 0 "call-1" "read" (codes "nothing") false ran
    ∷ []

abbrev raw : Fields
raw = ("reasoning_content", codes "\"so\"") ∷ ("index", codes "0") ∷ []

abbrev envelope : Replay
envelope = record { binding = "endpoint"; fields = captured raw ("reasoning_content" ∷ []) }

-- an encoding of that one envelope
abbrev encoded : Replay → Text
encoded r = codes "{}"

abbrev decoded : Text → Option Replay
decoded text = some envelope

conversation_sent_example :
    chat_messages decoded "endpoint" (map request_message (conversation records [] 64))
    ≡ fine (map (sent_message decoded "endpoint") (conversation records [] 64))
unfolding open_replay captured
conversation_sent_example =
    conversation_sent decoded "endpoint" records [] 64 refl (unfold conversation in λ e. cc)

captured_replay_opens_example :
    open_replay decoded
      (capture_replay encoded "endpoint" raw ("reasoning_content" ∷ []))
      "another"
      ("reasoning_content" ∷ [])
    ≡ (if is_empty (captured raw ("reasoning_content" ∷ []))
        then some []
        else if str_eq "endpoint" "another"
        then some (captured raw ("reasoning_content" ∷ []))
        else none)
captured_replay_opens_example =
    captured_replay_opens encoded decoded "endpoint" "another" raw ("reasoning_content" ∷ []) refl
      refl

-- a text of ASCII is valid
abbrev is_ascii : Text → Bool
is_ascii [] = true
is_ascii (c ∷ cs) = let rest = is_ascii cs in if ltb c 128 then rest else false

abbrev variables : List (Text × Text)
variables = (codes "PATH", codes "/bin") ∷ (codes "HOME", codes "C:\\me") ∷ []

registers_server_example :
    (is_some (codex_mcp_server is_ascii (codes "tools") (codes "serve") (codes "-v" ∷ []) variables)
      ≡ is_encodable is_ascii (codes "tools") (codes "serve") (codes "-v" ∷ []) variables)
    × ((codex_mcp_server is_ascii (codes "tools") (codes "serve") (codes "-v" ∷ []) variables
          >>= read_overrides)
        ≡ (if is_encodable is_ascii (codes "tools") (codes "serve") (codes "-v" ∷ []) variables
            then some (entries (codes "tools") (codes "serve") (codes "-v" ∷ []) variables)
            else none))
    × (count_if (text_eq (codes "HOME")) (sorted (keys variables))
        ≡ count_if (text_eq (codes "HOME")) (keys variables))
    × (is_ordered (sorted (keys variables)) ≡ true)
registers_server_example =
    registers_server is_ascii (codes "tools") (codes "serve") (codes "-v" ∷ []) variables
      (codes "HOME")
