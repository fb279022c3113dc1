-- ===== src/EventStream/RoundTrip.antt =====
-- internal/apihttp/stream.go: reading back the events of a stream.
use lib_agent_harness.Prelude.{
  ℕ, suc, ◌+◌, ◌≤◌, Bool, true, false, none, some, List, [], ◌∷◌, ◌++◌, length, length-append,
  codes, All, ◌≡◌, refl, sym, ap, ◌∙◌, arith,
}
use mathlib.Core.List.{append_assoc, append-nil}
use lib_agent_harness.Text.{Text}
use lib_agent_harness.EventStream.{
  done, ended, text_eq, take_line, data_line, blank_line, without_prefix, done_text, Tail, eof,
  last_line, read_events, start,
}
use lib_agent_harness.EventStream.Lines.{IsLine, unlines, feed, finished, read_from-unlines}

-- What a server sends: an event, as the lines of its data, or a comment.
pub data Frame : Type 0 where
  event : Text → List Text → Frame
  comment : Text → Frame

abbrev pub frame_data : Text → List Text → Text
frame_data text [] = text
frame_data text (line ∷ more) = frame_data (text ++ (10 ∷ line)) more

abbrev pub data_lines : List Text → List Text
data_lines [] = [] ∷ []
data_lines (line ∷ more) = (codes "data: " ++ line) ∷ data_lines more

-- the lines of the frames, then those in `after`
unfoldable pub lines_of : List Frame → List Text → List Text
lines_of [] after = after
lines_of (event line more ∷ frames) after = data_lines (line ∷ more) ++ lines_of frames after
lines_of (comment text ∷ frames) after = (58 ∷ text) ∷ lines_of frames after

-- the data of the events among them
unfoldable pub events_of : List Frame → List Text
events_of [] = []
events_of (event line more ∷ frames) = frame_data line more ∷ events_of frames
events_of (comment text ∷ frames) = events_of frames

abbrev pub done_lines : List Text
done_lines = codes "data: [DONE]" ∷ [] ∷ []

-- Lines have no byte that ends one, and no event is what ends the stream or one that is refused after
-- the events before it.
unfoldable pub IsSendable : (List Text → Text → Bool) → List Text → List Frame → Type 0
IsSendable accept events [] = Unit
IsSendable accept events (event line more ∷ frames) =
    IsLine line
    × All IsLine more
    × (text_eq (frame_data line more) done_text ≡ false)
    × (accept events (frame_data line more) ≡ true)
    × IsSendable accept (events ++ frame_data line more ∷ []) frames
IsSendable accept events (comment text ∷ frames) = IsLine text × IsSendable accept events frames

module _ (accept : List Text → Text → Bool) where
  -- the lines of an event under way
  feed-more :
      (text : Text) (events : List Text) (more rest : List Text)
      → feed accept (record { pending = some text; events = events }) (data_lines more ++ rest)
        ≡ feed accept
            (record { pending = some (frame_data text more); events = events })
            ([] ∷ rest)
  unfolding feed take_line data_line without_prefix
  feed-more text events [] rest = refl
  feed-more text events (line ∷ more) rest = feed-more (text ++ (10 ∷ line)) events more rest

  feed-blank :
      (text : Text) (events rest : List Text)
      → text_eq text done_text ≡ false
      → accept events text ≡ true
      → feed accept (record { pending = some text; events = events }) ([] ∷ rest)
        ≡ feed accept (record { pending = none; events = events ++ text ∷ [] }) rest
  unfolding feed take_line blank_line
  feed-blank text events rest other taken = rw (other, taken) refl

  feed-lines_of :
      (events : List Text) (frames : List Frame) (after : List Text)
      → IsSendable accept events frames
      → feed accept (record { pending = none; events = events }) (lines_of frames after)
        ≡ feed accept (record { pending = none; events = events ++ events_of frames }) after
  unfolding feed lines_of events_of IsSendable take_line data_line without_prefix
  feed-lines_of events [] after sendable =
      ap (λ e. feed accept (record { pending = none; events = e }) after) (sym (append-nil events))
  feed-lines_of events (event line more ∷ frames) after (_, _, other, taken, sendable) =
      feed-more line events more (lines_of frames after)
      ∙ feed-blank (frame_data line more) events (lines_of frames after) other taken
      ∙ feed-lines_of (events ++ frame_data line more ∷ []) frames after sendable
      ∙ ap (λ e. feed accept (record { pending = none; events = e }) after)
          (append_assoc events (frame_data line more ∷ []) (events_of frames))
  feed-lines_of events (comment text ∷ frames) after (_, sendable) =
      feed-lines_of events frames after sendable

  data_lines-IsLine :
      (more rest : List Text)
      → All IsLine more
      → All IsLine rest
      → All IsLine (data_lines more ++ rest)
  data_lines-IsLine [] rest clean after = (tt, after)
  data_lines-IsLine (line ∷ more) rest (c, clean) after =
      ((refl, (refl, (refl, (refl, (refl, (refl, c)))))), data_lines-IsLine more rest clean after)

  lines_of-IsLine :
      (events : List Text) (frames : List Frame) (after : List Text)
      → IsSendable accept events frames
      → All IsLine after
      → All IsLine (lines_of frames after)
  unfolding lines_of IsSendable
  lines_of-IsLine events [] after sendable clean = clean
  lines_of-IsLine events (event line more ∷ frames) after (first, others, _, _, sendable) clean =
      data_lines-IsLine (line ∷ more) (lines_of frames after) (first, others)
        (lines_of-IsLine (events ++ frame_data line more ∷ []) frames after sendable clean)
  lines_of-IsLine events (comment text ∷ frames) after (c, sendable) clean =
      ((refl, c), lines_of-IsLine events frames after sendable clean)

  read-lines_of :
      (limit : ℕ) (tail : Tail) (frames : List Frame) (after : List Text)
      → IsSendable accept [] frames
      → All IsLine after
      → length (unlines (lines_of frames after)) ≤ limit
      → read_events accept limit tail (unlines (lines_of frames after))
        ≡ finished accept tail
            (feed accept (record { pending = none; events = events_of frames }) after)
  unfolding read_events
  read-lines_of limit tail frames after sendable clean fits =
      read_from-unlines accept limit tail (suc (length (unlines (lines_of frames after)))) 0 start
        (lines_of frames after) (lines_of-IsLine [] frames after sendable clean) (omega arith)
        (omega (arith, fits))
      ∙ ap (finished accept tail) (feed-lines_of [] frames after sendable)

done_lines-IsLine : All IsLine done_lines
done_lines-IsLine = (
  (
    refl,
    (refl, (refl, (refl, (refl, (refl, (refl, (refl, (refl, (refl, (refl, (refl, tt))))))))))),
  ),
  (tt, tt),
)

lines_of-append :
    (frames : List Frame) (after : List Text) → lines_of frames after ≡ lines_of frames [] ++ after
unfolding lines_of
lines_of-append [] after = refl
lines_of-append (event line more ∷ frames) after =
    ap (λ ls. data_lines (line ∷ more) ++ ls) (lines_of-append frames after)
    ∙ sym (append_assoc (data_lines (line ∷ more)) (lines_of frames []) after)
lines_of-append (comment text ∷ frames) after =
    ap (λ ls. (58 ∷ text) ∷ ls) (lines_of-append frames after)

unlines-append : (xs ys : List Text) → unlines (xs ++ ys) ≡ unlines xs ++ unlines ys
unfolding unlines
unlines-append [] ys = refl
unlines-append (x ∷ xs) ys =
    ap (λ t. x ++ (10 ∷ t)) (unlines-append xs ys)
    ∙ sym (append_assoc x (10 ∷ unlines xs) (unlines ys))

shorter :
    (frames : List Frame) (after : List Text)
    → length (unlines (lines_of frames [])) ≤ length (unlines (lines_of frames after))
shorter frames after = omega (arith, sizes)
  where
    sizes :
        length (unlines (lines_of frames after))
        ≡ length (unlines (lines_of frames [])) + length (unlines after)
    sizes =
        ap (λ ls. length (unlines ls)) (lines_of-append frames after)
        ∙ ap length (unlines-append (lines_of frames []) after)
        ∙ length-append (unlines (lines_of frames [])) (unlines after)

-- A stream of events and comments is read back as the data of its events, in order, each handed on once.
-- Reading ends as done where the terminator follows; where the body ends without it, the same events have
-- been handed on and reading says that it ended. The stream is within the limit, its lines have no byte
-- that ends one, and no event has the terminator's data or is refused.
pub reads_events :
    (accept : List Text → Text → Bool) (limit : ℕ) (tail : Tail) (frames : List Frame)
    → IsSendable accept [] frames
    → length (unlines (lines_of frames done_lines)) ≤ limit
    → (read_events accept limit tail (unlines (lines_of frames done_lines))
        ≡ (record { pending = some done_text; events = events_of frames }, done))
      × (read_events accept limit eof (unlines (lines_of frames []))
          ≡ (record { pending = none; events = events_of frames }, ended))
unfolding feed take_line finished data_line blank_line without_prefix last_line
reads_events accept limit tail frames sendable fits = (
  read-lines_of accept limit tail frames done_lines sendable done_lines-IsLine fits ∙ refl,
  read-lines_of accept limit eof frames [] sendable tt
        (omega (arith, fits, shorter frames done_lines))
      ∙ refl,
)
