-- ===== src/Examples/Streams.antt =====
-- A stream of server-sent events, and a streamed response with two calls.
use lib_agent_harness.Prelude.{
  ℕ, String, Bool, Option, List, none, some, [], ◌∷◌, codes, true, false, map, length, All, ◌≤◌,
  ◌≡◌, ◌↔◌, refl, arith,
}
use lib_agent_harness.Prelude.Int.{pos}
use lib_agent_harness.Text.{Text}
use lib_agent_harness.EventStream.{done, ended, broken, eof, done_text, read_events}
use lib_agent_harness.EventStream.Lines.{unlines}
use lib_agent_harness.EventStream.RoundTrip.{
  Frame, event, comment, lines_of, done_lines, events_of, IsSendable, reads_events,
}
use lib_agent_harness.Chat.Stream.{
  Fragment, Chunk, new_stream, add, add_chunk, add_choices, add_choice, add_calls, add_call, place,
  extended, merged_at, adds, ChatStream,
}
use lib_agent_harness.Chat.Stream.Choices.{IsReadable, reasons}
use lib_agent_harness.Chat.Stream.Assembled.{choices_of, Assembles, assembles}
use lib_agent_harness.Chat.Reply.{
  Answer, accepted, parse_chat_completion, parse_choices, parse_reply, parse_content, parse_finish,
  finish_failure, check_calls, is_call,
}
use lib_agent_harness.Chat.Reply.Answers.{Answers, accepts}
use lib_agent_harness.Chat.Wire.{IsClean, on_event, reads_response}
use lib_agent_harness.Chat.Streamed.{response, IsRelayed, streamed_answer}

abbrev frames : List Frame
frames =
    event (codes "one") [] ∷ comment (codes " keep") ∷ event (codes "two") (codes "lines" ∷ []) ∷ []

abbrev at_most_two : List Text → Text → Bool
at_most_two [] text = true
at_most_two (e ∷ []) text = true
at_most_two (e ∷ f ∷ es) text = false

frames-IsSendable : IsSendable at_most_two [] frames
unfolding IsSendable
frames-IsSendable = (
  (refl, (refl, (refl, tt))),
  tt,
  refl,
  refl,
  (
    (refl, (refl, (refl, (refl, (refl, tt))))),
    ((refl, (refl, (refl, tt))), ((refl, (refl, (refl, (refl, (refl, tt))))), tt), refl, refl, tt),
  ),
)

frames-events : events_of frames ≡ codes "one" ∷ codes "two\nlines" ∷ []
unfolding events_of
frames-events = refl

frames-fit : length (unlines (lines_of frames done_lines)) ≤ 200
unfolding unlines lines_of
frames-fit = omega arith

reads_events_example :
    (read_events at_most_two 200 broken (unlines (lines_of frames done_lines))
      ≡ (record { pending = some done_text; events = events_of frames }, done))
    × (read_events at_most_two 200 eof (unlines (lines_of frames []))
        ≡ (record { pending = none; events = events_of frames }, ended))
reads_events_example = reads_events at_most_two 200 broken frames frames-IsSendable frames-fit

abbrev fragment : ℕ → String → String → String → String → Fragment
fragment i id kind name arguments = record {
  index = some (pos i);
  id = codes id;
  kind = codes kind;
  name = codes name;
  arguments = codes arguments;
  extra = none;
}

abbrev chunk : Option Text → List Fragment → Option String → Chunk
chunk content calls finish = record {
  choices =
      record {
        index = pos 0;
        content = content;
        reasoning = none;
        details = [];
        refusal = none;
        calls = calls;
        finish = finish;
      }
      ∷ [];
  usage = none;
  failure = none;
}

-- The two calls come in pieces, one between those of the other.
abbrev chunks : List Chunk
chunks =
    chunk (some (codes "I ")) (fragment 1 "b" "function" "write" "{" ∷ []) none
    ∷ chunk (some (codes "see"))
        (fragment 0 "a" "function" "read" "{}" ∷ fragment 1 "" "" "" "}" ∷ []) (some "tool_calls")
    ∷ []

chunks-IsReadable : All IsReadable (choices_of chunks)
unfolding choices_of place
chunks-IsReadable = ((refl, ((1, refl), tt)), ((refl, ((0, refl), ((1, refl), tt))), tt))

chunks-once : reasons (choices_of chunks) ≤ 1
unfolding choices_of reasons
chunks-once = omega arith

assembles_example :
    (s : ChatStream) × (adds new_stream (map some chunks) ≡ (s, none)) × Assembles chunks s
assembles_example = assembles chunks chunks-IsReadable chunks-once

abbrev known_tool : Text → Bool
known_tool name = true

abbrev is_object : Text → Bool
is_object arguments = true

abbrev answer : Answer
answer = record {
  content = codes "I see";
  calls =
      record { id = codes "a"; name = codes "read"; arguments = codes "{}" }
      ∷ record { id = codes "b"; name = codes "write"; arguments = codes "{}" }
      ∷ [];
}

chunks-accepted :
    parse_chat_completion known_tool is_object (response (adds new_stream (map some chunks)).0)
    ≡ accepted answer
unfolding adds add add_chunk add_choices add_choice add_calls add_call place extended merged_at
    response parse_chat_completion parse_choices parse_reply parse_content parse_finish
    finish_failure check_calls is_call
chunks-accepted = refl

accepts_example :
    (parse_chat_completion known_tool is_object (response (adds new_stream (map some chunks)).0)
      ≡ accepted answer)
    ↔ Answers known_tool is_object (response (adds new_stream (map some chunks)).0) answer
accepts_example =
    accepts known_tool is_object (response (adds new_stream (map some chunks)).0) answer

streamed_answer_example : IsRelayed chunks answer
streamed_answer_example =
    streamed_answer known_tool is_object chunks answer chunks-IsReadable chunks-once chunks-accepted

-- An event names a chunk by its length.
abbrev numbered : Text → Option Chunk
numbered (c ∷ []) =
    some (chunk (some (codes "I ")) (fragment 1 "b" "function" "write" "{" ∷ []) none)
numbered _ = some (
    chunk (some (codes "see"))
      (fragment 0 "a" "function" "read" "{}" ∷ fragment 1 "" "" "" "}" ∷ []) (some "tool_calls"))

abbrev numbers : List Frame
numbers = event (codes "1") [] ∷ comment (codes " keep") ∷ event (codes "22") [] ∷ []

numbers-IsClean : IsClean numbers
unfolding IsClean
numbers-IsClean = (
  (refl, tt),
  tt,
  refl,
  ((refl, (refl, (refl, (refl, (refl, tt))))), ((refl, (refl, tt)), tt, refl, tt)),
)

numbers-decoded : map numbered (events_of numbers) ≡ map some chunks
unfolding events_of
numbers-decoded = refl

numbers-fit : length (unlines (lines_of numbers done_lines)) ≤ 100
unfolding unlines lines_of
numbers-fit = omega arith

reads_response_example :
    (read_events (on_event numbered) 100 eof (unlines (lines_of numbers done_lines))
      ≡ (record { pending = some done_text; events = events_of numbers }, done))
    × ((adds new_stream (map numbered (events_of numbers))).1 ≡ none)
    × Assembles chunks (adds new_stream (map numbered (events_of numbers))).0
reads_response_example =
    reads_response numbered 100 eof numbers chunks numbers-decoded numbers-IsClean chunks-IsReadable
      chunks-once numbers-fit
