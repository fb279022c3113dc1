-- ===== src/Chat/Wire.antt =====
-- completion/openai_stream.go with internal/apihttp/stream.go: `add` as the callback of `readEvents`, from
-- the bytes of a response to its assembled stream. The decoding of an event's JSON is a parameter.
use lib_agent_harness.Prelude.{
  ℕ, ◌≤◌, String, Bool, true, false, Option, none, some, List, [], ◌∷◌, ◌++◌, length, All, map, ◌≡◌,
  refl, sym, ap, subst, ◌∙◌, arith,
}
use mathlib.Core.List.{append_assoc}
use lib_agent_harness.Text.{Text}
use lib_agent_harness.EventStream.{text_eq, done, done_text, Tail, read_events}
use lib_agent_harness.EventStream.Lines.{IsLine, unlines}
use lib_agent_harness.EventStream.RoundTrip.{
  Frame, event, comment, frame_data, lines_of, done_lines, events_of, IsSendable, reads_events,
}
use lib_agent_harness.Chat.Stream.{Chunk, ChatStream, new_stream, if_fine, add, adds}
use lib_agent_harness.Chat.Stream.Choices.{IsReadable, reasons}
use lib_agent_harness.Chat.Stream.Assembled.{choices_of, Assembles, assembles}

abbrev pub is_none {ℓ} : {A : Type ℓ} → Option A → Bool
is_none none = true
is_none (some _) = false

-- Lines have no byte that ends one, and no event is what ends the stream.
unfoldable pub IsClean : List Frame → Type 0
IsClean [] = Unit
IsClean (event line more ∷ frames) =
    IsLine line
    × All IsLine more
    × (text_eq (frame_data line more) done_text ≡ false)
    × IsClean frames
IsClean (comment text ∷ frames) = IsLine text × IsClean frames

-- Where all chunks are read, each is after those before it.
adds-prefix :
    (s : ChatStream) (xs : List (Option Chunk)) (x : Option Chunk) (ys : List (Option Chunk))
    → (adds s (xs ++ x ∷ ys)).1 ≡ none
    → (add (adds s xs).0 x).1 ≡ none
unfolding adds
adds-prefix s [] x ys h = each (add s x) h
  where
    each : (r : ChatStream × Option String) → (if_fine r (λ t. adds t ys)).1 ≡ none → r.1 ≡ none
    each (t, none) k = refl
    each (t, some code) k = absurd (ground (arith, k))
adds-prefix s (y ∷ xs) x ys h = each (add s y) h (λ t. adds-prefix t xs x ys)
  where
    each :
        (r : ChatStream × Option String)
        → (if_fine r (λ t. adds t (xs ++ x ∷ ys))).1 ≡ none
        → ((t : ChatStream) → (adds t (xs ++ x ∷ ys)).1 ≡ none → (add (adds t xs).0 x).1 ≡ none)
        → (add (if_fine r (λ t. adds t xs)).0 x).1 ≡ none
    each (t, none) k rest = rest t k
    each (t, some code) k rest = absurd (ground (arith, k))

map-append :
    (decode : Text → Option Chunk) (xs ys : List Text)
    → map decode (xs ++ ys) ≡ map decode xs ++ map decode ys
map-append decode [] ys = refl
map-append decode (x ∷ xs) ys = ap (λ l. decode x ∷ l) (map-append decode xs ys)

module _ (decode : Text → Option Chunk) where
  -- the callback, after the events before
  unfoldable pub on_event : List Text → Text → Bool
  on_event events text = is_none (add (adds new_stream (map decode events)).0 (decode text)).1

  sendable :
      (events : List Text) (frames : List Frame)
      → IsClean frames
      → (adds new_stream (map decode (events ++ events_of frames))).1 ≡ none
      → IsSendable on_event events frames
  unfolding IsClean IsSendable events_of on_event
  sendable events [] clean h = tt
  sendable events (comment text ∷ frames) (c, clean) h = (c, sendable events frames clean h)
  sendable events (event line more ∷ frames) (l, m, other, clean) h = (
    l,
    m,
    other,
    ap is_none (
        adds-prefix new_stream (map decode events) (decode text) (map decode (events_of frames)) (
          ap (λ l. (adds new_stream l).1) (sym (map-append decode events (text ∷ events_of frames)))
          ∙ h)),
    sendable (events ++ text ∷ []) frames clean (
        ap (λ l. (adds new_stream (map decode l)).1)
          (append_assoc events (text ∷ []) (events_of frames))
        ∙ h),
  )
    where
      text : Text
      text = frame_data line more

-- A streamed response, from its bytes: reading ends at the terminator with every event handed to the
-- stream in order and none refused, and the stream then has what the chunks' choices write. The events
-- that the server sends decode to chunks whose choices can be read, with one reason to finish at most; the
-- stream is within the limit, its lines have no byte that ends one, and no event has the terminator's data.
pub reads_response :
    (decode : Text → Option Chunk) (limit : ℕ) (tail : Tail) (frames : List Frame)
    (chunks : List Chunk)
    → map decode (events_of frames) ≡ map some chunks
    → IsClean frames
    → All IsReadable (choices_of chunks)
    → reasons (choices_of chunks) ≤ 1
    → length (unlines (lines_of frames done_lines)) ≤ limit
    → (read_events (on_event decode) limit tail (unlines (lines_of frames done_lines))
        ≡ (record { pending = some done_text; events = events_of frames }, done))
      × ((adds new_stream (map decode (events_of frames))).1 ≡ none)
      × Assembles chunks (adds new_stream (map decode (events_of frames))).0
reads_response decode limit tail frames chunks decodes clean readable once fits =
    let (s, ok, a) = assembles chunks readable once in
    let all = ap (adds new_stream) decodes ∙ ok in
    (
      (reads_events (on_event decode) limit tail frames
          (sendable decode [] frames clean (ap (λ r. r.1) all)) fits).0,
      ap (λ r. r.1) all,
      subst (Assembles chunks) (sym (ap (λ r. r.0) all)) a,
    )
