-- ===== src/Sinks/Journal/Acceptance.antt =====
-- The events and the bytes of the journal of crates/rrjj-sinks/src/journal.rs.
use rrjj.Prelude.{
  ℕ, ◌+◌, ◌≤◌, ◌≡◌, refl, ap, sym, ◌∙◌, subst, String, eq_iff, Option, none, some, List, [], ◌∷◌,
  ◌++◌, arith, length, All, wrap64,
}
use rrjj.Prelude.Action.{and_then-eq-ok, Result, ok, err, Action, modify, resume, ◌>>◌}
use rrjj.Schema.{Event}
use rrjj.Schema.Numbering.{CountsFrom, CountsFrom-append, OfSession, All-append}
use rrjj.Sinks.Error.{IoError, SinkError}
use rrjj.Sinks.Traits.{AcceptsLog, log_after}
use rrjj.Sinks.Util.{Encoder}
use rrjj.Sinks.Journal.{
  Writer, Journal, admit, after_write, on_writer, accept, append_line, emit, flush, journal_sink,
  check_session, check_schema, check_seq, check_room, encode_line, next_seq,
}

module _ {W : Type 0} where
  -- Everything of the journal but its writer.
  record SameBut (j k : Journal W) : Type 0 where
    bytes : k.bytes ≡ j.bytes
    max_spool_bytes : k.max_spool_bytes ≡ j.max_spool_bytes
    session_id : k.session_id ≡ j.session_id
    schema_version : k.schema_version ≡ j.schema_version
    accepted : k.accepted ≡ j.accepted

  after_write-SameBut :
      (a : Result IoError Unit × W) (j : Journal W) → SameBut j (after_write a j).1
  unfolding after_write
  after_write-SameBut (ok u, w) j = ground arith
  after_write-SameBut (err e, w) j = ground arith

  SameBut-refl : (j : Journal W) → SameBut j j
  SameBut-refl j = ground arith

  -- a step on the writer alone
  record Quiet (m : Action (Journal W) SinkError Unit) : Type 0 where
    at : (j : Journal W) → SameBut j (m j).1

  on_writer-Quiet : (call : Action W IoError Unit) → Quiet (on_writer call)
  unfolding on_writer
  on_writer-Quiet call = record { at = λ j. after_write-SameBut (call j.writer) j }

  SameBut-trans : {j k l : Journal W} → SameBut j k → SameBut k l → SameBut j l
  SameBut-trans p q = record {
    bytes = q.bytes ∙ p.bytes;
    max_spool_bytes = q.max_spool_bytes ∙ p.max_spool_bytes;
    session_id = q.session_id ∙ p.session_id;
    schema_version = q.schema_version ∙ p.schema_version;
    accepted = q.accepted ∙ p.accepted;
  }

  seq-Quiet : (m n : Action (Journal W) SinkError Unit) → Quiet m → Quiet n → Quiet (m >> n)
  seq-Quiet m n qm qn = record { at = λ j. onward (m j).0 (m j).1 j (qm.at j) }
    where
      onward :
          (r : Result SinkError Unit) (k j : Journal W)
          → SameBut j k
          → SameBut j (resume r (λ _. n) k).1
      onward (ok a) k j s = SameBut-trans s (qn.at k)
      onward (err e) k j s = s

  -- How an attempt to append left the journal: as it was, or with the line and the event added.
  abbrev Appended : Event → List ℕ → Journal W → Result SinkError Unit → Journal W → Type 0
  Appended e line j (ok _) k = (i : Journal W) × SameBut j i × (k ≡ accept e line i)
  Appended e line j (err _) k = SameBut j k

  record Appends (e : Event) (line : List ℕ) (m : Action (Journal W) SinkError Unit) : Type 0 where
    at : (j : Journal W) → Appended e line j (m j).0 (m j).1

  accept-Appends : (e : Event) (line : List ℕ) → Appends e line (modify (accept e line))
  accept-Appends e line = record { at = λ j. (j, SameBut-refl j, refl) }

  moved :
      (e : Event) (line : List ℕ) {j k : Journal W} (r : Result SinkError Unit) (l : Journal W)
      → SameBut j k
      → Appended e line k r l
      → Appended e line j r l
  moved e line (ok a) l s (i, t, q) = (i, SameBut-trans s t, q)
  moved e line (err x) l s t = SameBut-trans s t

  then-Appends :
      (e : Event) (line : List ℕ) (m n : Action (Journal W) SinkError Unit)
      → Quiet m
      → Appends e line n
      → Appends e line (m >> n)
  then-Appends e line m n q a = record { at = λ j. onward (m j).0 (m j).1 j (q.at j) }
    where
      onward :
          (r : Result SinkError Unit) (k j : Journal W)
          → SameBut j k
          → Appended e line j (resume r (λ _. n) k).0 (resume r (λ _. n) k).1
      onward (ok _) k j s = moved e line (n k).0 (n k).1 s (a.at k)
      onward (err x) k j s = s

-- What `admit` has checked of an event that it lets through.
pub record Admitted {W : Type 0} (encode : Encoder) (e : Event) (j : Journal W) (line : List ℕ)
    : Type 0 where
  session : check_session j.session_id e ≡ ok tt
  schema : check_schema j.schema_version e ≡ ok tt
  number : e.seq ≡ length j.accepted
  pub encoded : encode_line encode e ≡ ok line
  room : wrap64 (j.bytes + length line) ≤ j.max_spool_bytes

check_room-ok :
    (max bytes : ℕ) (given line : List ℕ)
    → check_room max bytes given ≡ ok line
    → (given ≡ line) × (wrap64 (bytes + length line) ≤ max)
unfolding check_room
check_room-ok max bytes given line h = ground arith

pub admit-Admitted :
    {W : Type 0} (encode : Encoder) (e : Event) (j : Journal W) (line : List ℕ)
    → admit encode e j ≡ ok line
    → Admitted encode e j line
unfolding admit next_seq
admit-Admitted encode e j line h =
    let (_, session, h1) = and_then-eq-ok (check_session j.session_id e) _ h in
    let (_, schema, h2) = and_then-eq-ok (check_schema j.schema_version e) _ h1 in
    let (_, number, h3) = and_then-eq-ok (check_seq (length j.accepted) e) _ h2 in
    let (given, encoded, h4) = and_then-eq-ok (encode_line encode e) _ h3 in
    let (same, room) = check_room-ok j.max_spool_bytes j.bytes given line h4 in
    record {
      session = session;
      schema = schema;
      number = unfold check_seq in (ground arith);
      encoded = encoded ∙ ap ok same;
      room = room;
    }

-- What the journal keeps: its events count up from 0, they are of its session and schema, and its
-- bytes fit.
pub record IsOrdered {W : Type 0} (session : String) (version : ℕ) (j : Journal W) : Type 0 where
  pub session_id : j.session_id ≡ some session
  pub schema_version : j.schema_version ≡ some version
  pub counted : CountsFrom 0 j.accepted
  pub one_session : All (OfSession session version) j.accepted
  pub fits : j.bytes ≤ j.max_spool_bytes

carry :
    {W : Type 0} {session : String} {version : ℕ} {j k : Journal W}
    → SameBut j k
    → IsOrdered session version j
    → IsOrdered session version k
carry s h = record {
  session_id = s.session_id ∙ h.session_id;
  schema_version = s.schema_version ∙ h.schema_version;
  counted = rw s.accepted h.counted;
  one_session = rw s.accepted h.one_session;
  fits = rw (s.bytes, s.max_spool_bytes) h.fits;
}

check_session-eq :
    (o : Option String) (session : String) (e : Event)
    → o ≡ some session
    → check_session o e ≡ ok tt
    → e.session_id ≡ session
unfolding check_session
check_session-eq none session e q h = cc
check_session-eq (some s) session e q h = ground (arith, eq_iff e.session_id s)

check_schema-eq :
    (o : Option ℕ) (version : ℕ) (e : Event)
    → o ≡ some version
    → check_schema o e ≡ ok tt
    → e.v ≡ version
unfolding check_schema
check_schema-eq none version e q h = cc
check_schema-eq (some s) version e q h = ground arith

accept-IsOrdered :
    {W : Type 0} (encode : Encoder) (session : String) (version : ℕ) (e : Event) (line : List ℕ)
    (j : Journal W)
    → Admitted encode e j line
    → IsOrdered session version j
    → IsOrdered session version (accept e line j)
unfolding accept
accept-IsOrdered encode session version e line j a h = record {
  session_id = h.session_id;
  schema_version = h.schema_version;
  counted = CountsFrom-append 0 j.accepted e h.counted (omega (arith, a.number));
  one_session = All-append (OfSession session version) j.accepted e h.one_session (
    check_session-eq j.session_id session e h.session_id a.session,
    check_schema-eq j.schema_version version e h.schema_version a.schema,
  );
  fits = a.room;
}

accept-SameBut :
    {W : Type 0} (e : Event) (line : List ℕ) {j i : Journal W}
    → SameBut j i
    → SameBut (accept e line j) (accept e line i)
unfolding accept
accept-SameBut e line s = record {
  bytes = ap (λ b. wrap64 (b + length line)) s.bytes;
  max_spool_bytes = s.max_spool_bytes;
  session_id = s.session_id;
  schema_version = s.schema_version;
  accepted = ap (λ l. l ++ e ∷ []) s.accepted;
}

module _ {W : Type 0} (file : Writer W) (encode : Encoder) where
  append_line-Appends :
      (e : Event) (line : List ℕ) → Appends e line (append_line file encode e line)
  unfolding append_line
  append_line-Appends e line = then-Appends e line _ _ (on_writer-Quiet (file.write_all line)) (
      then-Appends e line _ _ (on_writer-Quiet file.flush)
        (then-Appends e line _ _ (on_writer-Quiet file.sync_data) (accept-Appends e line)))

  -- An emission that is acknowledged has appended its event, and one that fails has added nothing.
  pub emit-accepted :
      (e : Event) (j : Journal W)
      → (emit file encode e j).1.accepted ≡ log_after (emit file encode e j).0 e j.accepted
  unfolding emit
  emit-accepted e j = go (admit encode e j)
    where
      finish :
          (line : List ℕ) (r : Result SinkError Unit) (k : Journal W)
          → Appended e line j r k
          → k.accepted ≡ log_after r e j.accepted
      finish line (ok u) k (i, s, q) =
          unfold accept in (ap (λ (x : Journal W). x.accepted) q ∙ ap (λ l. l ++ e ∷ []) s.accepted)
      finish line (err x) k s = s.accepted

      go :
          (r : Result SinkError (List ℕ))
          → (resume r (append_line file encode e) j).1.accepted
            ≡ log_after (resume r (append_line file encode e) j).0 e j.accepted
      go (ok line) = finish line _ _ ((append_line-Appends e line).at j)
      go (err x) = refl

  -- Whatever the file answers, an emission keeps the journal in order, within its bytes and in one
  -- session: one that is acknowledged has appended the next event, and one that is refused has added
  -- nothing.
  pub emit-IsOrdered :
      (session : String) (version : ℕ) (e : Event) (j : Journal W)
      → IsOrdered session version j
      → IsOrdered session version (emit file encode e j).1
        × ((emit file encode e j).1.accepted ≡ log_after (emit file encode e j).0 e j.accepted)
  emit-IsOrdered session version e j h =
      (unfold emit in go (admit encode e j) refl, emit-accepted e j)
    where
      finish :
          (line : List ℕ) (r : Result SinkError Unit) (k : Journal W)
          → Admitted encode e j line
          → Appended e line j r k
          → IsOrdered session version k
      finish line (ok u) k a (i, s, q) =
          subst (IsOrdered session version) (sym q)
            (carry (accept-SameBut e line s) (accept-IsOrdered encode session version e line j a h))
      finish line (err x) k a s = carry s h

      go :
          (r : Result SinkError (List ℕ))
          → admit encode e j ≡ r
          → IsOrdered session version (resume r (append_line file encode e) j).1
      go (ok line) q =
          finish line _ _ (admit-Admitted encode e j line q) ((append_line-Appends e line).at j)
      go (err x) q = h

  flush-Quiet : Quiet (flush file encode)
  unfolding flush
  flush-Quiet = seq-Quiet _ _ (on_writer-Quiet file.flush) (on_writer-Quiet file.sync_all)

  pub flush-accepted : (j : Journal W) → (flush file encode j).1.accepted ≡ j.accepted
  flush-accepted j = (flush-Quiet.at j).accepted

  -- The journal is a sink that the coordinator may rely on.
  unfoldable pub journal-AcceptsLog : AcceptsLog (journal_sink file encode)
  unfolding journal_sink
  journal-AcceptsLog = record {
    accepted = λ j. j.accepted;
    accepted-emit = emit-accepted;
    accepted-flush_session = λ r j. flush-accepted j;
  }
