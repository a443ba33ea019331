-- ===== src/Reader/Timeline/Order.antt =====
-- The order of what `Timeline::read` of crates/rrjj-reader/src/lib.rs accepts.
use rrjj.Prelude.{
  ℕ, ◌+◌, ◌≡◌, refl, ap, sym, ◌∙◌, subst, Bool-cases, ◌⊎◌, inl, inr, String, eq_iff, Option, none,
  some, List, [], ◌∷◌, ◌++◌, arith, length, All,
}
use rrjj.Prelude.Action.{and_then-eq-ok, Result, ok, err, map_err}
use rrjj.Schema.{Event}
use rrjj.Schema.Numbering.{CountsFrom, CountsFrom-append, OfSession, All-append}
use rrjj.Sinks.Error.{IoError}
use rrjj.Reader.Errors.{ReadError, json}
use rrjj.Reader.Timeline.{
  Timeline, Text, check_version, check_sequence, check_session, read_event, read_lines, read,
}

-- The events of a session, in their order.
pub record IsTimeline (session : String) (events : List Event) : Type 0 where
  pub counted : CountsFrom 0 events
  pub one_session : All (OfSession session 0) events

-- The same with the session that the loop has seen so far.
abbrev Seen : Option String → List Event → Type 0
Seen none events = events ≡ []
Seen (some session) events = IsTimeline session events

same_session :
    (number : ℕ) (expected : String) (e : Event) (of_session : String)
    → check_session number (some expected) e ≡ ok of_session
    → (expected ≡ e.session_id) × (expected ≡ of_session)
unfolding check_session
same_session number expected e of_session h = ground (arith, eq_iff expected e.session_id)

check_version-ok : (number : ℕ) (e : Event) → check_version number e ≡ ok tt → e.v ≡ 0
unfolding check_version
check_version-ok number e h = ground arith

check_sequence-ok :
    (number expected : ℕ) (e : Event) → check_sequence number expected e ≡ ok tt → e.seq ≡ expected
unfolding check_sequence
check_sequence-ok number expected e h = ground arith

same_event :
    (x e : Event) (s t : String)
    → ◌≡◌ {A = Result ReadError (Event × String)} (ok (x, s)) (ok (e, t))
    → (x ≡ e) × (s ≡ t)
same_event x e s t h = (cc, cc)

ok_inj : {A : Type 0} {a b : A} → ◌≡◌ {A = Result ReadError A} (ok a) (ok b) → a ≡ b
ok_inj h = cc

-- One more event of the session that was seen.
extended :
    (number : ℕ) (o : Option String) (events : List Event) (e : Event) (of_session : String)
    → check_session number o e ≡ ok of_session
    → e.v ≡ 0
    → e.seq ≡ length events
    → Seen o events
    → IsTimeline of_session (events ++ e ∷ [])
unfolding check_session
extended number none events e of_session h v n seen =
    rw seen (record { counted = (n ∙ ap length seen, tt); one_session = ((cc, v), tt) })
extended number (some expected) events e of_session h v n seen =
    let (same, kept) = same_session number expected e of_session h in
    record {
      counted = CountsFrom-append 0 events e seen.counted (omega (arith, n));
      one_session =
          All-append (OfSession of_session 0) events e
            (subst (λ s. All (OfSession s 0) events) kept seen.one_session) (sym same ∙ kept, v);
    }

-- What has been read at the end: nothing, or the events of one session.
abbrev pub IsRead : List Event → Type 0
IsRead events = (events ≡ []) ⊎ ((session : String) × IsTimeline session events)

module _ {L : Type 0} (text : Text L) where
  read_event-IsTimeline :
      (number : ℕ) (o : Option String) (events : List Event) (line : L) (e : Event)
      (of_session : String)
      → read_event text number o events line ≡ ok (e, of_session)
      → Seen o events
      → IsTimeline of_session (events ++ e ∷ [])
  unfolding read_event
  read_event-IsTimeline number o events line e of_session h seen =
      let (x, decoded, h1) = and_then-eq-ok (map_err (json number) (text.decode line)) _ h in
      let (_, v, h2) = and_then-eq-ok (check_version number x) _ h1 in
      let (_, n, h3) = and_then-eq-ok (check_sequence number (length events) x) _ h2 in
      let (s, q, h4) = and_then-eq-ok (check_session number o x) _ h3 in
      let (event_eq, session_eq) = same_event x e s of_session h4 in
      subst (λ y. IsTimeline of_session (events ++ y ∷ [])) event_eq
        (extended number o events x of_session (q ∙ ap ok session_eq) (check_version-ok number x v)
          (check_sequence-ok number (length events) x n) seen)

  Seen-IsRead : (o : Option String) (events : List Event) → Seen o events → IsRead events
  Seen-IsRead none events seen = inl seen
  Seen-IsRead (some session) events seen = inr (session, seen)

  read_lines-IsRead :
      (number : ℕ) (o : Option String) (events : List Event) (lines : List (Result IoError L))
      (all : List Event)
      → read_lines text number o events lines ≡ ok all
      → Seen o events
      → IsRead all
  unfolding read_lines
  read_lines-IsRead number o events [] all h seen =
      subst IsRead (ok_inj h) (Seen-IsRead o events seen)
  read_lines-IsRead number o events (err x ∷ lines) all h seen = cc
  read_lines-IsRead number o events (ok line ∷ lines) all h seen =
      elim (Bool-cases (text.is_blank line)) [
        | inl blank ↦ read_lines-IsRead (number + 1) o events lines all (rw blank at h) seen
        | inr shown ↦
            let ((e, of_session), q, rest) =
              and_then-eq-ok (read_event text number o events line) _ (rw shown at h) in
            read_lines-IsRead (number + 1) (some of_session) (events ++ e ∷ []) lines all rest
              (read_event-IsTimeline number o events line e of_session q seen)
      ]

  -- Whatever the lines, a timeline that is read counts its events up from 0 without a gap, in one
  -- session and in the schema version of the reader.
  pub read-IsRead :
      (lines : List (Result IoError L)) (timeline : Timeline)
      → read text lines ≡ ok timeline
      → IsRead timeline.events
  unfolding read
  read-IsRead lines timeline h =
      let (events, q, same) = and_then-eq-ok (read_lines text 1 none [] lines) _ h in
      subst IsRead (ap (λ (t : Timeline). t.events) (ok_inj same))
        (read_lines-IsRead 1 none [] lines events q refl)
