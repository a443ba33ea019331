-- ===== src/Reader/Timeline.antt =====
-- `Timeline` of crates/rrjj-reader/src/lib.rs: the events of a stream of lines, checked as they are
-- read. The lines come from std's `BufRead::lines`, and what a line means is serde's: both are
-- parameters.
pub mod Order
pub mod Written
use rrjj.Prelude.{
  ℕ, ◌+◌, Bool, true, false, String, str_eq, Option, none, some, List, [], ◌∷◌, ◌++◌, ◌==◌,
  if◌then◌else◌, length, get_elem?,
}
use rrjj.Prelude.Action.{Result, ok, err, and_then, map_err}
use rrjj.Schema.{Event}
use rrjj.Sinks.Error.{IoError}
use rrjj.Reader.Errors.{ReadError, io, json, version, sequence, session}

pub record Timeline : Type 0 where
  pub events : List Event

-- A line, whether it is blank once trimmed, and its JSON.
pub record Text (L : Type 0) : Type 0 where
  pub is_blank : L → Bool
  pub decode : L → Result String Event

unfoldable pub check_version : ℕ → Event → Result ReadError Unit
check_version line event = if event.v == 0 then ok tt else err (version line event.v)

unfoldable pub check_sequence : ℕ → ℕ → Event → Result ReadError Unit
check_sequence line expected event =
    if event.seq == expected then ok tt else err (sequence line expected event.seq)

-- The `match` on the session, which answers the session from here on.
unfoldable pub check_session : ℕ → Option String → Event → Result ReadError String
check_session line none event = ok event.session_id
check_session line (some expected) event =
    if str_eq expected event.session_id
    then ok expected
    else err (session line expected event.session_id)

-- One line that is not blank, after `events`: its event and its session.
unfoldable pub read_event :
    {L : Type 0} → Text L → ℕ → Option String → List Event → L → Result ReadError (Event × String)
unfolding check_version check_sequence check_session
read_event text number session_id events line =
    and_then (map_err (json number) (text.decode line)) λ event.
      and_then (check_version number event) λ _.
        and_then (check_sequence number (length events) event)
          λ _. and_then (check_session number session_id event) λ of_session. ok (event, of_session)

-- The loop, from a line number on.
unfoldable pub read_lines :
    {L : Type 0}
    → Text L
    → ℕ
    → Option String
    → List Event
    → List (Result IoError L)
    → Result ReadError (List Event)
unfolding read_event
read_lines text number session_id events [] = ok events
read_lines text number session_id events (err e ∷ lines) = err (io e)
read_lines text number session_id events (ok line ∷ lines) =
    if text.is_blank line
    then read_lines text (number + 1) session_id events lines
    else and_then (read_event text number session_id events line) λ (event, of_session).
      read_lines text (number + 1) (some of_session) (events ++ event ∷ []) lines

unfoldable pub read : {L : Type 0} → Text L → List (Result IoError L) → Result ReadError Timeline
unfolding read_lines
read text lines =
    and_then (read_lines text 1 none [] lines) λ events. ok (record { events = events })

unfoldable pub event : ℕ → Timeline → Option Event
event seq timeline = get_elem? timeline.events seq
