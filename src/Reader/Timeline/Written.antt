-- ===== src/Reader/Timeline/Written.antt =====
-- `Timeline::read` of crates/rrjj-reader/src/lib.rs on what the recorder wrote.
use rrjj.Prelude.{
  ℕ, ◌+◌, ◌≤◌, ◌≡◌, refl, ap, sym, subst, false, inl, inr, ◌⊎◌, String, eq_iff, Option, none, some,
  List, [], ◌∷◌, ◌++◌, map, arith, append_assoc, append-nil, length, length-append, All,
  u64_modulus,
}
use rrjj.Prelude.Action.{Result, ok, and_then}
use rrjj.Schema.{Event}
use rrjj.Schema.Numbering.{CountsFrom, OfSession, NumberedFrom-CountsFrom}
use rrjj.Sinks.Error.{IoError}
use rrjj.Sinks.Traits.{AcceptsLog}
use rrjj.Core.Coordinator.{Coordinator, Services}
use rrjj.Core.Coordinator.Logging.{IsLogged}
use rrjj.Core.Command.{Command, run}
use rrjj.Core.Command.Invariants.{run-IsLogged}
use rrjj.Reader.Timeline.{
  Text, check_version, check_sequence, check_session, read_event, read_lines, read,
}

-- What a writer of lines promises: a line is not blank, and is read back as its event.
pub record IsReadable {L : Type 0} (text : Text L) (show : Event → L) : Type 0 where
  pub shown : (e : Event) → text.is_blank (show e) ≡ false
  pub round_trip : (e : Event) → text.decode (show e) ≡ ok e

checked :
    (number expected : ℕ) (session : String) (e : Event) (o : Option String)
    → OfSession session 0 e
    → e.seq ≡ expected
    → (o ≡ none) ⊎ (o ≡ some session)
    → and_then (check_version number e) (λ _.
      and_then
        (check_sequence number expected e)
        (λ _. and_then {B = Event × String} (check_session number o e) (λ s. ok (e, s))))
      ≡ ok (e, session)
unfolding check_version check_sequence check_session
checked number expected session e o of_session n seen = ground (arith, eq_iff session e.session_id)

-- The lines of a log.
abbrev pub written : {L : Type 0} → (Event → L) → List Event → List (Result IoError L)
written show events = map (λ e. ok (show e)) events

module _ {L : Type 0} (text : Text L) (show : Event → L) (readable : IsReadable text show) where
  read_event-show :
      (number : ℕ) (session : String) (e : Event) (o : Option String) (events : List Event)
      → OfSession session 0 e
      → e.seq ≡ length events
      → (o ≡ none) ⊎ (o ≡ some session)
      → read_event text number o events (show e) ≡ ok (e, session)
  unfolding read_event
  read_event-show number session e o events of_session n seen =
      rw (readable.round_trip e) (checked number (length events) session e o of_session n seen)

  read_lines-written :
      (number : ℕ) (session : String) (o : Option String) (events es : List Event)
      → CountsFrom (length events) es
      → All (OfSession session 0) es
      → (o ≡ none) ⊎ (o ≡ some session)
      → read_lines text number o events (written show es) ≡ ok (events ++ es)
  unfolding read_lines
  read_lines-written number session o events [] counted one_session seen =
      ap ok (sym (append-nil events))
  read_lines-written number session o events (e ∷ es) counted one_session seen =
      rw
        (
          readable.shown e,
          read_event-show number session e o events one_session.0 counted.0 seen,
          read_lines-written (number + 1) session (some session) (events ++ e ∷ []) es
              (subst (λ n. CountsFrom n es) (omega (arith, length-append events (e ∷ [])))
                counted.1)
              one_session.1 (inr refl),
        )
        (ap ok (append_assoc events (e ∷ []) es))

  -- A log whose events count up from 0 in one session and schema 0 is read back as it is.
  pub read-written :
      (session : String) (events : List Event)
      → CountsFrom 0 events
      → All (OfSession session 0) events
      → read text (written show events) ≡ ok (record { events = events })
  unfolding read
  read-written session events counted one_session =
      rw (read_lines-written 1 session none [] events counted one_session (inl refl)) refl

  -- Whatever commands arrive, the log that the recorder leaves, as long as it has no more than 2 ^ 64
  -- events, is a timeline that the reader accepts and reads back as it is.
  pub read-run :
      {S R : Type 0} (io : Services S R) (log : AcceptsLog io.sink) (session : String)
      (commands : List Command) (c : Coordinator S R)
      → IsLogged io log session c
      → length (log.accepted (run io commands c).sink) ≤ u64_modulus
      → read text (written show (log.accepted (run io commands c).sink))
        ≡ ok (record { events = log.accepted (run io commands c).sink })
  read-run io log session commands c logged few =
      let r = run-IsLogged io log session commands c logged in
      read-written session _ (NumberedFrom-CountsFrom 0 _ (omega (arith, few)) r.numbered)
        r.one_session
