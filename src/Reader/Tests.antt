-- ===== src/Reader/Tests.antt =====
-- A session in memory, on which the theorems about the reader are applied.
use rrjj.Prelude.{ℕ, ◌≡◌, refl, true, false, Option, none, some, List, [], ◌∷◌, arith}
use rrjj.Prelude.Action.{Result, ok, err}
use rrjj.Schema.{Event, EventBody, event_at}
use rrjj.Schema.Manifest.{SessionManifest}
use rrjj.Sinks.Error.{IoError}
use rrjj.Reader.Timeline.{Text, Timeline, read}
use rrjj.Reader.Timeline.Order.{IsRead, read-IsRead}
use rrjj.Reader.Timeline.Written.{IsReadable}
use rrjj.Reader.Session.{event, Session, Files, open_session}
use rrjj.Reader.ObjectId.{decode_id}
use rrjj.Reader.ObjectId.Hex.{has_colon, encode, decode_id-encode}
use rrjj.Reader.Session.Lookup.{open_session-event}

-- A line is an event, or a blank.
abbrev text : Text (Option Event)
text = record {
  is_blank = λ line. elim line [ none ↦ true | some e ↦ false ];
  decode = λ line. elim line [ none ↦ err "blank" | some e ↦ ok e ];
}

abbrev shown : Event → Option Event
shown e = some e

readable : IsReadable text shown
readable = record { shown = λ e. refl; round_trip = λ e. refl }

abbrev numbered : ℕ → Event
numbered n = event_at "session" n "now" (EventBody.flush (record { op = "op"; through_seq = n }))

abbrev lines : List (Result IoError (Option Event))
lines = ok (some (numbered 0)) ∷ ok none ∷ ok (some (numbered 1)) ∷ []

abbrev timeline : Timeline
timeline = record { events = numbered 0 ∷ numbered 1 ∷ [] }

lines_read : read text lines ≡ ok timeline
unfolding read
lines_read = refl

read-IsRead_example : IsRead timeline.events
read-IsRead_example = read-IsRead text lines timeline lines_read

abbrev manifest : SessionManifest
manifest = record {
  session_id = "session";
  format = record {
    session_format = 1;
    schema_version = 0;
    rrjj_version = "0";
    jj_lib_version = "0";
    jj_store_version = "0";
  };
  last_seq = 1;
  last_op = "op";
  events_object = none;
  durable_seq = some 1;
  durable_op = some "op";
  storage = none;
}

abbrev files : Files Unit (Option Event)
files = record {
  read = λ root path. ok tt;
  open_lines = λ root path. ok lines;
  decode_manifest = λ bytes. ok manifest;
}

abbrev session : Session
session = record { root = "/session"; manifest = manifest; timeline = timeline }

opened : open_session files text "/session" ≡ ok session
unfolding open_session read
opened = refl

open_session-event_example : (e : Event) × (event 1 session ≡ ok e) × (e.seq ≡ 1)
open_session-event_example =
    open_session-event files text "/session" session 1 1 opened refl (omega arith)

plain_tag : has_colon (111 ∷ 112 ∷ []) ≡ false
unfolding has_colon
plain_tag = refl

-- The id `op:0fff`, and the bare `0fff`
decode_id-encode_example :
    (decode_id (λ t. "") (48 ∷ 102 ∷ 102 ∷ 102 ∷ []) ≡ some (ok (15 ∷ 255 ∷ [])))
    × (decode_id (λ t. "") (111 ∷ 112 ∷ 58 ∷ 48 ∷ 102 ∷ 102 ∷ 102 ∷ []) ≡ some (ok (15 ∷ 255 ∷ [])))
unfolding encode
decode_id-encode_example =
    decode_id-encode (λ t. "") (111 ∷ 112 ∷ []) (15 ∷ 255 ∷ []) plain_tag
      (omega arith, (omega arith, tt))

-- A character of two bytes across the pairs is a panic, not an error.
decode_id_accent : decode_id (λ t. "") (97 ∷ 195 ∷ 169 ∷ 98 ∷ []) ≡ none
unfolding decode_id
decode_id_accent = refl

-- A sign is taken for a digit.
decode_id_plus : decode_id (λ t. "") (43 ∷ 102 ∷ []) ≡ some (ok (15 ∷ []))
unfolding decode_id
decode_id_plus = refl
