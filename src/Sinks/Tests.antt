-- ===== src/Sinks/Tests.antt =====
-- A file in memory and a one-byte encoding, on which the theorems about the journal are applied.
use rrjj.Prelude.{
  append_assoc, sym, ap, ◌∙◌, suc, ℕ, ◌+◌, ◌-◌, ◌≡◌, refl, ap, sym, ◌∙◌, Bool, true, false, ◌&&◌,
  String, str_eq, eq_iff, some, List, [], ◌∷◌, ◌++◌, arith, ◌==◌,
}
use rrjj.Prelude.Action.{Result, ok, err}
use rrjj.Schema.{Event, EventBody, event_at}
use rrjj.Sinks.Traits.{log_after}
use rrjj.Sinks.Error.{IoError}
use rrjj.Sinks.Util.{Encoder, Decoder, parse_event_spool}
use rrjj.Sinks.Journal.{Writer, Journal, emit}
use rrjj.Sinks.Journal.Acceptance.{IsOrdered, emit-IsOrdered}
use rrjj.Sinks.Journal.Recovery.{IsJson, Written, IsAppending, parse_event_spool-Written}
use rrjj.Sinks.Traits.{CheckpointSink, EventSink, FlushRequest}
use rrjj.Sinks.Journal.{journal_sink}
use rrjj.Sinks.Journal.Acceptance.{journal-AcceptsLog}
use rrjj.Sinks.Durable.{DurableSessionSink, flush_session}
use rrjj.Sinks.Durable.Published.{IsPublished, flush_session-IsPublished}
use rrjj.Sinks.Broadcast
use rrjj.Sinks.Broadcast.{BroadcastSink}
use rrjj.Sinks.Broadcast.Sent.{emit-sent}

-- The file is its contents.
abbrev memory_file : Writer (List ℕ)
memory_file = record {
  write_all = λ line w. (ok tt, w ++ line);
  flush = λ w. (ok tt, w);
  sync_data = λ w. (ok tt, w);
  sync_all = λ w. (ok tt, w);
}

-- A file behind a buffer, and what of it is durable
record Buffered : Type 0 where
  buffer : List ℕ
  contents : List ℕ
  durable : List ℕ

abbrev buffered_file : Writer Buffered
buffered_file = record {
  write_all = λ line w. (ok tt, record w { buffer = w.buffer ++ line });
  flush = λ w. (ok tt, record w { buffer = []; contents = w.contents ++ w.buffer });
  sync_data = λ w. (ok tt, record w { durable = w.contents });
  sync_all = λ w. (ok tt, record w { durable = w.contents });
}

appended_later :
    (line : List ℕ) (w w' : Buffered)
    → ◌≡◌ {A = Result IoError Unit × Buffered}
        (ok tt, record w { buffer = w.buffer ++ line })
        (ok tt, w')
    → w'.contents ++ w'.buffer ≡ (w.contents ++ w.buffer) ++ line
appended_later line w w' h =
    ap (λ (r : Result IoError Unit × Buffered). r.1.contents ++ r.1.buffer) (sym h)
    ∙ sym (append_assoc w.contents w.buffer line)

abbrev buffered_file-IsAppending : IsAppending buffered_file
buffered_file-IsAppending = record {
  buffered = λ w. w.buffer;
  contents = λ w. w.contents;
  durable = λ w. w.durable;
  write_all = appended_later;
  flush = λ w w' h. (
    ap (λ (r : Result IoError Unit × Buffered). r.1.buffer) (sym h),
    ap (λ (r : Result IoError Unit × Buffered). r.1.contents) (sym h),
  );
  sync_data = λ w w' h. (
    ap (λ (r : Result IoError Unit × Buffered). r.1.buffer) (sym h),
    ap (λ (r : Result IoError Unit × Buffered). r.1.contents) (sym h),
    ap (λ (r : Result IoError Unit × Buffered). r.1.durable) (sym h),
  );
}

-- The events of the example, which differ only in their number.
abbrev numbered : ℕ → Event
numbered n = event_at "session" n "now" (EventBody.flush (record { op = "op"; through_seq = 0 }))

abbrev shown : Bool → ℕ → Result String (List ℕ)
shown true seq = ok ((seq + 11) ∷ [])
shown false seq = err "not one of the example"

abbrev is_flush : EventBody → Bool
is_flush (EventBody.flush f) = str_eq f.op "op" && f.through_seq == 0
is_flush _ = false

abbrev encode : Encoder
encode e =
    shown ((e.v == 0 && str_eq e.session_id "session") && (str_eq e.ts "now" && is_flush e.body))
      e.seq

abbrev decode : Decoder
decode (b ∷ []) = ok (numbered (b - 11))
decode _ = err "not one byte"

shown-true :
    (b : Bool) (n : ℕ) (line : List ℕ) → shown b n ≡ ok line → (b ≡ true) × (line ≡ (n + 11) ∷ [])
shown-true true n line h = (refl, cc)
shown-true false n line h = cc

is_flush-eq :
    (b : EventBody)
    → is_flush b ≡ true
    → b ≡ EventBody.flush (record { op = "op"; through_seq = 0 })
is_flush-eq (EventBody.flush f) h = ground (arith, eq_iff f.op "op")
is_flush-eq _ h = cc

numbered-eq :
    (e : Event) (line : List ℕ)
    → encode e ≡ ok line
    → (e ≡ numbered e.seq) × (line ≡ (e.seq + 11) ∷ [])
numbered-eq e line h =
    let (b, same) = shown-true _ e.seq line h in
    (ground (arith, eq_iff e.session_id "session", eq_iff e.ts "now", is_flush-eq e.body), same)

byte-numbered : (n : ℕ) → n + 11 - 11 ≡ n
byte-numbered n = omega arith

encode-IsJson : IsJson encode decode
encode-IsJson = record {
  round_trip = λ e line h.
      let (same, one) = numbered-eq e line h in
      rw one (ap (λ n. ok (numbered n)) (byte-numbered e.seq) ∙ ap ok (sym same));
  one_line =
      λ e line h. let (same, one) = numbered-eq e line h in rw one ((λ n. omega (arith, n)), tt);
  nonempty = λ e line h n. let (same, one) = numbered-eq e line h in cc;
}

abbrev two_lines : List ℕ
two_lines = 11 ∷ 10 ∷ 12 ∷ 10 ∷ []

two_lines-Written : Written encode (numbered 0 ∷ numbered 1 ∷ []) two_lines
two_lines-Written = (11 ∷ [], 12 ∷ 10 ∷ [], refl, refl, (12 ∷ [], [], refl, refl, refl))

parse_event_spool-Written_example :
    parse_event_spool decode "session" 0 two_lines ≡ ok (numbered 0 ∷ numbered 1 ∷ [])
parse_event_spool-Written_example =
    parse_event_spool-Written encode decode encode-IsJson "session" 0 (numbered 0 ∷ numbered 1 ∷ [])
      two_lines (refl, (refl, tt)) ((refl, refl), ((refl, refl), tt)) two_lines-Written

abbrev journal : Journal (List ℕ)
journal = record {
  writer = two_lines;
  bytes = 4;
  max_spool_bytes = 100;
  session_id = some "session";
  schema_version = some 0;
  accepted = numbered 0 ∷ numbered 1 ∷ [];
}

abbrev longer : Journal (List ℕ)
longer = (emit memory_file encode (numbered 2) journal).1

emit_runs : emit memory_file encode (numbered 2) journal ≡ (ok tt, longer)
unfolding emit
emit_runs = refl

abbrev buffered_journal : Journal Buffered
buffered_journal = record {
  writer = record { buffer = []; contents = two_lines; durable = two_lines };
  bytes = 4;
  max_spool_bytes = 100;
  session_id = some "session";
  schema_version = some 0;
  accepted = numbered 0 ∷ numbered 1 ∷ [];
}

abbrev buffered_longer : Journal Buffered
buffered_longer = (emit buffered_file encode (numbered 2) buffered_journal).1

journal-IsOrdered : IsOrdered "session" 0 journal
journal-IsOrdered = record {
  session_id = refl;
  schema_version = refl;
  counted = (refl, (refl, tt));
  one_session = ((refl, refl), ((refl, refl), tt));
  fits = omega arith;
}

emit-IsOrdered_example :
    IsOrdered "session" 0 longer
    × (longer.accepted
        ≡ log_after (emit memory_file encode (numbered 2) journal).0 (numbered 2) journal.accepted)
emit-IsOrdered_example =
    emit-IsOrdered memory_file encode "session" 0 (numbered 2) journal journal-IsOrdered

-- A repository and a server that accept whatever they are sent, and count it.
abbrev repository : CheckpointSink ℕ
repository = record {
  publish_checkpoint = λ request n.
      (ok (record { checkpoint = "c:ABCDEF0123456789ABCDEF0123456789ABCDEF01" }), suc n);
}

abbrev server : EventSink ℕ
server = record {
  publish_events =
      λ request n. (ok (record { accepted_through_seq = 1; durable_through_seq = some 1 }), suc n);
}

abbrev session : DurableSessionSink (List ℕ) ℕ ℕ
session = record { journal = journal; checkpoint = 0; events = 0; session_id = "session" }

abbrev flush_request : FlushRequest
flush_request = record {
  shadow_root = "/shadow";
  last_seq = 1;
  last_op = "op";
  checkpoint = some "commit";
}

abbrev published : DurableSessionSink (List ℕ) ℕ ℕ
published = record session { checkpoint = 1; events = 1 }

flush_session_runs :
    flush_session memory_file encode repository server flush_request session ≡ (ok tt, published)
unfolding flush_session rrjj.Sinks.Journal.flush
flush_session_runs = refl

flush_session-IsPublished_example :
    IsPublished memory_file encode repository server flush_request session published
flush_session-IsPublished_example =
    flush_session-IsPublished memory_file encode repository server flush_request session published
      flush_session_runs

abbrev listened : BroadcastSink (Journal (List ℕ))
listened = record { durable = journal; sent = journal.accepted }

emit-sent_example :
    (Broadcast.emit (journal_sink memory_file encode) (numbered 2) listened).1.sent
    ≡ (journal-AcceptsLog memory_file encode).accepted
        (Broadcast.emit (journal_sink memory_file encode) (numbered 2) listened).1.durable
emit-sent_example =
    emit-sent (journal_sink memory_file encode) (journal-AcceptsLog memory_file encode) (numbered 2)
      listened (unfold journal-AcceptsLog in refl)
