-- ===== src/EventStream.antt =====
-- internal/apihttp/stream.go: `readEvents`, which splits a stream of server-sent events. A stream is the
-- list of its bytes, with what ends it: the end of the body, or an error of the reader. The callback is
-- a parameter that accepts an event or refuses it, by what it was handed before; the idle timer is left out.
pub mod Lines
pub mod RoundTrip
use lib_agent_harness.Prelude.{
  ℕ, zero, suc, ◌+◌, Bool, true, false, not, ◌&&◌, ◌||◌, Option, none, some, List, [], ◌∷◌, ◌++◌,
  ◌==◌, ltb, length, codes, if◌then◌else◌,
}
use lib_agent_harness.Text.{Text}

-- How `readEvents` returns: at the terminator, at the end of the body, past the limit, on a refusal of the
-- callback, or on an error of the reader.
pub data Ended : Type 0 where
  done ended output_limit refused failed : Ended

abbrev pub text_eq : Text → Text → Bool
text_eq [] [] = true
text_eq (x ∷ xs) (y ∷ ys) = x == y && text_eq xs ys
text_eq _ _ = false

abbrev pub longer : ℕ → Option (Text × Text) → Option (Text × Text)
longer c none = none
longer c (some (line, rest)) = some (c ∷ line, rest)

-- `ReadBytes('\n')`: a line with its newline, and the rest; `none` where there is no newline any more
unfoldable pub read_line : Text → Option (Text × Text)
read_line [] = none
read_line (c ∷ cs) =
    let found = read_line cs in if c == 10 then some (c ∷ [], cs) else longer c found

abbrev pub is_line_end : ℕ → Bool
is_line_end c = c == 10 || c == 13

-- `bytes.TrimRight(line, "\r\n")`
abbrev pub trim_cons : ℕ → Text → Text
trim_cons c [] = if is_line_end c then [] else c ∷ []
trim_cons c (d ∷ ds) = c ∷ d ∷ ds

unfoldable pub trim_right : Text → Text
trim_right [] = []
trim_right (c ∷ cs) = trim_cons c (trim_right cs)

-- `bytes.TrimPrefix`, and whether the prefix was there
unfoldable pub without_prefix : Text → Text → Option Text
without_prefix [] text = some text
without_prefix (p ∷ ps) [] = none
without_prefix (p ∷ ps) (c ∷ cs) = if p == c then without_prefix ps cs else none

abbrev pub data_prefix : Text
data_prefix = codes "data:"

abbrev pub done_text : Text
done_text = codes "[DONE]"

abbrev pub trim_space : Text → Text
trim_space [] = []
trim_space (c ∷ cs) = if c == 32 then cs else c ∷ cs

abbrev pub is_empty {ℓ} : {A : Type ℓ} → List A → Bool
is_empty [] = true
is_empty (_ ∷ _) = false

-- the data of the event under way, if there is one, and the events that were handed on
pub record Reader : Type 0 where
  pub pending : Option Text
  pub events : List Text

abbrev pub appended : Option Text → Text → Text
appended none value = value
appended (some text) value = text ++ (10 ∷ value)

-- one line, trimmed: how reading ends there, if it does
unfoldable pub data_line : Reader → Option Text → Reader × Option Ended
data_line r none = (r, none)
data_line r (some value) =
    (record r { pending = some (appended r.pending (trim_space value)) }, none)

unfoldable pub blank_line : (List Text → Text → Bool) → Reader → Option Text → Reader × Option Ended
blank_line accept r none = (r, none)
blank_line accept r (some text) =
    if text_eq text done_text
    then (r, some done)
    else if accept r.events text
    then (record r { pending = none; events = r.events ++ text ∷ [] }, none)
    else (record r { events = r.events ++ text ∷ [] }, some refused)

unfoldable pub take_line : (List Text → Text → Bool) → Reader → Text → Reader × Option Ended
unfolding data_line blank_line without_prefix
take_line accept r line =
    if is_empty line
    then blank_line accept r r.pending
    else data_line r (without_prefix data_prefix line)

abbrev pub is_done : Option Text → Bool
is_done none = false
is_done (some text) = text_eq text done_text

-- what the last read returns beside its bytes: `io.EOF` or another error
pub data Tail : Type 0 where
  eof broken : Tail

-- after the last read
unfoldable pub last_line : Tail → Reader × Option Ended → Reader × Ended
last_line tail (r, some e) = (r, e)
last_line eof (r, none) = (r, if is_done r.pending then done else ended)
last_line broken (r, none) = (r, failed)

-- after a read that is not the last
abbrev pub after_line : Reader × Option Ended → (Reader → Reader × Ended) → Reader × Ended
after_line (r, some e) rest = (r, e)
after_line (r, none) rest = rest r

-- One read: the last one, or a line and the rest of the stream.
unfoldable pub after_read :
    (List Text → Text → Bool)
    → ℕ
    → Tail
    → ℕ
    → Reader
    → Text
    → Option (Text × Text)
    → (ℕ → Reader → Text → Reader × Ended)
    → Reader × Ended
unfolding take_line last_line trim_right
after_read accept limit tail read r text none go =
    if ltb limit (read + length text)
    then (r, output_limit)
    else last_line tail (take_line accept r (trim_right text))
after_read accept limit tail read r text (some (line, rest)) go =
    if ltb limit (read + length line)
    then (r, output_limit)
    else after_line (take_line accept r (trim_right line)) (λ r'. go (read + length line) r' rest)

-- The loop of `readEvents`, with as much fuel as the stream has bytes, and one: a read that is not the
-- last takes a newline at least.
unfoldable pub read_from :
    (List Text → Text → Bool) → ℕ → Tail → ℕ → ℕ → Reader → Text → Reader × Ended
unfolding read_line after_read
read_from accept limit tail zero read r text = (r, failed)
read_from accept limit tail (suc fuel) read r text =
    after_read accept limit tail read r text (read_line text) (read_from accept limit tail fuel)

abbrev pub start : Reader
start = record { pending = none; events = [] }

-- `readEvents`
unfoldable pub read_events : (List Text → Text → Bool) → ℕ → Tail → Text → Reader × Ended
unfolding read_from
read_events accept limit tail text = read_from accept limit tail (suc (length text)) 0 start text
