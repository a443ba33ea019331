-- ===== src/Sinks/Durable/Published.antt =====
-- `flush_session` of crates/rrjj-sinks/src/durable.rs when it returns without an error.
use rrjj.Prelude.{
  ℕ, ◌≤◌, ◌≡◌, refl, ap, sym, ◌∙◌, Bool-cases, inl, inr, String, Option, none, some, List, arith,
  ◌==◌, if◌then◌else◌, last,
}
use rrjj.Prelude.Action.{Result, ok, err, Action, lift, >>=-eq-ok}
use rrjj.Schema.{Event}
use rrjj.Sinks.Error.{SinkError}
use rrjj.Sinks.Traits.{
  CheckpointSink, EventSink, FlushRequest, CheckpointRequest, EventPublishRequest,
  CheckpointPublication, EventAcknowledgement,
}
use rrjj.Sinks.Util.{Encoder}
use rrjj.Sinks.Util.Oid.{normalize_commit_oid}
use rrjj.Sinks.Journal
use rrjj.Sinks.Journal.{Writer, Journal, events_through}
use rrjj.Sinks.Durable.{
  DurableSessionSink, check_ack, commit_of, on_journal, on_checkpoint, on_events, flush,
  checkpoint_request, publish_request, publish, flush_session,
}

events_through-ok :
    {W : Type 0} (n : ℕ) (j : Journal W) (events : List Event)
    → events_through n j ≡ ok events
    → (events ≡ j.accepted) × ((e : Event) × (last j.accepted ≡ some e) × (e.seq ≡ n))
unfolding events_through
events_through-ok n j events h = go (last j.accepted) refl h
  where
    go :
        (o : Option Event)
        → last j.accepted ≡ o
        → (elim o [
          | none ↦ err (SinkError.invalid_flush "journal does not end at requested sequence")
          | some event ↦
              if event.seq == n
              then ok j.accepted
              else err (SinkError.invalid_flush "journal does not end at requested sequence")
        ])
          ≡ ok events
        → (events ≡ j.accepted) × ((e : Event) × (last j.accepted ≡ some e) × (e.seq ≡ n))
    go none q g = cc
    go (some e) q g = elim (Bool-cases (e.seq == n)) [
      | inl same ↦ (ground (arith, g), (e, q, ground (arith, same)))
      | inr other ↦ absurd (ground (arith, g))
    ]

check_ack-ok :
    (n : ℕ) (ack : EventAcknowledgement) → check_ack n ack ≡ ok tt → n ≤ ack.accepted_through_seq
unfolding check_ack
check_ack-ok n ack h = ground (arith, h)

module _ {W C E : Type 0} (file : Writer W) (encode : Encoder) (checkpoints : CheckpointSink C)
    (publisher : EventSink E) where
  -- What was published: the checkpoint first, then all events of the journal, which end with the one
  -- that was asked for, with the checkpoint as their watermark; and both were acknowledged.
  pub record IsPublished (request : FlushRequest) (s t : DurableSessionSink W C E) : Type 0 where
    pub commit : String
    pub publication : CheckpointPublication
    pub checkpoint : String
    pub ack : EventAcknowledgement
    pub end : Event
    pub complete : last t.journal.accepted ≡ some end
    pub number : end.seq ≡ request.last_seq
    pub chosen : commit_of request t.journal.accepted ≡ ok commit
    pub checkpointed :
        checkpoints.publish_checkpoint
          (checkpoint_request file encode checkpoints publisher s.session_id request commit)
          s.checkpoint
        ≡ (ok publication, t.checkpoint)
    pub normal : normalize_commit_oid publication.checkpoint ≡ ok checkpoint
    pub published :
        publisher.publish_events
          (publish_request file encode checkpoints publisher s.session_id request t.journal.accepted
            checkpoint)
          s.events
        ≡ (ok ack, t.events)
    pub acknowledged : request.last_seq ≤ ack.accepted_through_seq

  abbrev request_of : String → FlushRequest → String → CheckpointRequest
  request_of = checkpoint_request file encode checkpoints publisher

  abbrev events_of : String → FlushRequest → List Event → String → EventPublishRequest
  events_of = publish_request file encode checkpoints publisher

  -- The steps put together, each on the state that it found.
  assembled :
      (request : FlushRequest) (s t : DurableSessionSink W C E) (events : List Event)
      (commit checkpoint of1 of2 : String) (publication : CheckpointPublication)
      (ack : EventAcknowledgement) (end : Event) (c c' : C) (e e' : E)
      → events ≡ t.journal.accepted
      → last t.journal.accepted ≡ some end
      → end.seq ≡ request.last_seq
      → commit_of request events ≡ ok commit
      → of1 ≡ s.session_id
      → c ≡ s.checkpoint
      → c' ≡ t.checkpoint
      → checkpoints.publish_checkpoint (request_of of1 request commit) c ≡ (ok publication, c')
      → normalize_commit_oid publication.checkpoint ≡ ok checkpoint
      → of2 ≡ s.session_id
      → e ≡ s.events
      → e' ≡ t.events
      → publisher.publish_events (events_of of2 request events checkpoint) e ≡ (ok ack, e')
      → request.last_seq ≤ ack.accepted_through_seq
      → IsPublished request s t
  assembled request s t events commit checkpoint of1 of2 publication ack end c c' e e' listed
        complete number chosen o1 q1 q2 checkpointed normal o2 q3 q4 published acknowledged =
      record {
        commit = commit;
        publication = publication;
        checkpoint = checkpoint;
        ack = ack;
        end = end;
        complete = complete;
        number = number;
        chosen = rw⁻¹ listed chosen;
        checkpointed = rw⁻¹ (o1, q1, q2) checkpointed;
        normal = normal;
        published = rw⁻¹ (listed, o2, q3, q4) published;
        acknowledged = acknowledged;
      }

  -- What a step on one part leaves of the others.
  on_journal-ok :
      (m : Action (Journal W) SinkError Unit) (s t : DurableSessionSink W C E)
      → on_journal file encode checkpoints publisher m s ≡ (ok tt, t)
      → (s.checkpoint ≡ t.checkpoint) × (s.events ≡ t.events) × (s.session_id ≡ t.session_id)
  on_journal-ok m s t h = (
    ap (λ (r : Result SinkError Unit × DurableSessionSink W C E). r.1.checkpoint) h,
    ap (λ (r : Result SinkError Unit × DurableSessionSink W C E). r.1.events) h,
    ap (λ (r : Result SinkError Unit × DurableSessionSink W C E). r.1.session_id) h,
  )

  on_checkpoint-ok :
      (m : Action C SinkError CheckpointPublication) (s t : DurableSessionSink W C E)
      (p : CheckpointPublication)
      → on_checkpoint file encode checkpoints publisher m s ≡ (ok p, t)
      → (m s.checkpoint ≡ (ok p, t.checkpoint))
        × (s.events ≡ t.events)
        × (s.session_id ≡ t.session_id)
        × (s.journal ≡ t.journal)
  on_checkpoint-ok m s t p h = (
    ap
        (λ (r : Result SinkError CheckpointPublication × DurableSessionSink W C E).
          (r.0, r.1.checkpoint))
        h,
    ap (λ (r : Result SinkError CheckpointPublication × DurableSessionSink W C E). r.1.events) h,
    ap (λ (r : Result SinkError CheckpointPublication × DurableSessionSink W C E). r.1.session_id)
        h,
    ap (λ (r : Result SinkError CheckpointPublication × DurableSessionSink W C E). r.1.journal) h,
  )

  on_events-ok :
      (m : Action E SinkError EventAcknowledgement) (s t : DurableSessionSink W C E)
      (a : EventAcknowledgement)
      → on_events file encode checkpoints publisher m s ≡ (ok a, t)
      → (m s.events ≡ (ok a, t.events)) × (s.checkpoint ≡ t.checkpoint) × (s.journal ≡ t.journal)
  on_events-ok m s t a h = (
    ap (λ (r : Result SinkError EventAcknowledgement × DurableSessionSink W C E). (r.0, r.1.events))
        h,
    ap (λ (r : Result SinkError EventAcknowledgement × DurableSessionSink W C E). r.1.checkpoint) h,
    ap (λ (r : Result SinkError EventAcknowledgement × DurableSessionSink W C E). r.1.journal) h,
  )

  settled :
      {A : Type 0} (r : Result SinkError A) (s t : DurableSessionSink W C E) (a : A)
      → ◌≡◌ {A = Result SinkError A × DurableSessionSink W C E} (r, s) (ok a, t)
      → (r ≡ ok a) × (s ≡ t)
  settled {A} r s t a h = (
    ap (λ (x : Result SinkError A × DurableSessionSink W C E). x.0) h,
    ap (λ (x : Result SinkError A × DurableSessionSink W C E). x.1) h,
  )

  -- When `flush_session` returns without an error, the checkpoint was published, then all events of
  -- the journal, which end with the event that was asked for, under the checkpoint's normal form, and
  -- the acknowledgement reaches that event.
  pub flush_session-IsPublished :
      (request : FlushRequest) (s t : DurableSessionSink W C E)
      → flush_session file encode checkpoints publisher request s ≡ (ok tt, t)
      → IsPublished request s t
  unfolding flush_session publish flush
  flush_session-IsPublished request s t h =
      let (_, s1, flushed, h1) = >>=-eq-ok (flush file encode checkpoints publisher) _ s h in
      let (events, s2, listed, h2) =
        >>=-eq-ok (λ (s : DurableSessionSink W C E). (events_through request.last_seq s.journal, s))
          _ s1 h1 in
      let (commit, s3, committed, h3) = >>=-eq-ok (lift (commit_of request events)) _ s2 h2 in
      let (publication, s4, checkpointed, h4) =
        >>=-eq-ok
          (λ s.
            on_checkpoint file encode checkpoints publisher
              (checkpoints.publish_checkpoint
                (checkpoint_request file encode checkpoints publisher s.session_id request commit))
              s)
          _ s3 h3 in
      let (checkpoint, s5, normal, h5) =
        >>=-eq-ok (lift (normalize_commit_oid publication.checkpoint)) _ s4 h4 in
      let (ack, s6, published, h6) =
        >>=-eq-ok
          (λ s.
            on_events file encode checkpoints publisher
              (publisher.publish_events (
                publish_request file encode checkpoints publisher s.session_id request events
                  checkpoint))
              s)
          _ s5 h5 in
      let (x1, x2, x3) = on_journal-ok (Journal.flush file encode) s s1 flushed in
      let (l1, l2) = settled (events_through request.last_seq s1.journal) s1 s2 events listed in
      let (m1, m2) = settled (commit_of request events) s2 s3 commit committed in
      let (y1, y2, y3, y4) =
        on_checkpoint-ok (checkpoints.publish_checkpoint (request_of s3.session_id request commit))
          s3 s4 publication checkpointed in
      let (n1, n2) =
        settled (normalize_commit_oid publication.checkpoint) s4 s5 checkpoint normal in
      let (z1, z2, z3) =
        on_events-ok (publisher.publish_events (events_of s5.session_id request events checkpoint))
          s5 s6 ack published in
      let (a1, a2) = settled (check_ack request.last_seq ack) s6 t tt h6 in
      let (same, (end, there, number)) = events_through-ok request.last_seq s1.journal events l1 in
      let j =
        ap (λ (x : DurableSessionSink W C E). x.journal) (l2 ∙ m2)
        ∙ y4
        ∙ ap (λ (x : DurableSessionSink W C E). x.journal) n2
        ∙ z3
        ∙ ap (λ (x : DurableSessionSink W C E). x.journal) a2 in
      assembled request s t events commit checkpoint s3.session_id s5.session_id publication ack end
        s3.checkpoint s4.checkpoint s5.events s6.events
        (same ∙ ap (λ (x : Journal W). x.accepted) j)
        (ap (λ (x : Journal W). last x.accepted) (sym j) ∙ there) number m1
        (ap (λ (x : DurableSessionSink W C E). x.session_id) (sym (l2 ∙ m2)) ∙ sym x3)
        (ap (λ (x : DurableSessionSink W C E). x.checkpoint) (sym (l2 ∙ m2)) ∙ sym x1)
        (ap (λ (x : DurableSessionSink W C E). x.checkpoint) n2
          ∙ z2
          ∙ ap (λ (x : DurableSessionSink W C E). x.checkpoint) a2)
        y1 n1
        (ap (λ (x : DurableSessionSink W C E). x.session_id) (sym n2)
          ∙ sym y3
          ∙ ap (λ (x : DurableSessionSink W C E). x.session_id) (sym (l2 ∙ m2))
          ∙ sym x3)
        (ap (λ (x : DurableSessionSink W C E). x.events) (sym n2)
          ∙ sym y2
          ∙ ap (λ (x : DurableSessionSink W C E). x.events) (sym (l2 ∙ m2))
          ∙ sym x2)
        (ap (λ (x : DurableSessionSink W C E). x.events) a2) z1
        (check_ack-ok request.last_seq ack a1)
