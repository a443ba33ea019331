-- ===== src/Sinks/Http/Publish/Reaching.antt =====
-- The end of `publish_events` in crates/rrjj-sinks/src/http.rs.
use rrjj.Prelude.{
  ℕ, zero, suc, ◌+◌, ◌≤◌, ◌<◌, ◌≡◌, ◌≢◌, refl, ap, sym, ◌∙◌, Bool, true, false, Option, none, some,
  List, [], ◌∷◌, ◌++◌, arith, inl, inr, Bool-cases, leb, ◌==◌, if◌then◌else◌, length, length-append,
  append-nil, last, drop, wrap64,
}
use rrjj.Prelude.Action.{
  Result, ok, err, Action, map_err, fail, lift, pure, modify, ◌>>=◌, ◌>>◌, Ends, Ends-bind, Outcome,
}
use rrjj.Schema.{Event}
use rrjj.Sinks.Error.{IoError, SinkError, io}
use rrjj.Sinks.Traits.{EventAcknowledgement, EventPublishRequest, SinkCursor}
use rrjj.Sinks.Util.{Encoder}
use rrjj.Sinks.Http.{
  HttpEventSink, HttpError, Network, sink_error, as_sink_error, post_batch, take_batch,
  validate_contiguous, u32_modulus,
}
use rrjj.Sinks.Http.Batches.{take_batch-IsBatch}
use rrjj.Sinks.Http.Delivery.{IsReported, Reaches, post_batch-Posted}
use rrjj.Sinks.Http.Publish.{
  on_network, write_cursor, publish_batch, publish_from, publish_events, publish_by, publish_first,
  publish_after, skip_delivered, batch_of, delivered_cursor, nonempty,
}

drop-append : {A : Type 0} (xs ys : List A) → drop (length xs) (xs ++ ys) ≡ ys
drop-append [] ys = refl
drop-append (x ∷ xs) ys = drop-append xs ys

last-append_cons :
    {A : Type 0} (xs : List A) (y : A) (ys : List A) → last (xs ++ y ∷ ys) ≡ last (y ∷ ys)
last-append_cons [] y ys = refl
last-append_cons (x ∷ []) y ys = refl
last-append_cons (x ∷ z ∷ xs) y ys = last-append_cons (z ∷ xs) y ys

-- The acknowledgement is not before the last event.
abbrev pub Covers : Option Event → EventAcknowledgement → Type 0
Covers none ack = Unit
Covers (some end) ack = end.seq ≤ ack.accepted_through_seq

Reaches-Covers :
    (o : Option Event) (ack : EventAcknowledgement)
    → ((end : Event) → o ≡ some end → end.seq ≤ ack.accepted_through_seq)
    → Covers o ack
Reaches-Covers none ack h = tt
Reaches-Covers (some end) ack h = h end refl

module _ {N : Type 0} (net : Network N) where
  -- A batch may hold an event, and the count of attempts stays within its 32 bits.
  record IsReady (s : HttpEventSink N) : Type 0 where
    some_event : 0 < s.config.max_events_per_batch
    few_retries : s.config.max_retries + 1 < u32_modulus

  on_network-ends :
      {A : Type 0} (R : A → Type 0) (call : Action N HttpError A) (s : HttpEventSink N)
      → Outcome IsReported (λ a (_ : N). R a) (call s.network).0 (call s.network).1
      → IsReady s
      → Outcome IsReported
          (λ a (t : HttpEventSink N). R a × IsReady t)
          (on_network net call s).0
          (on_network net call s).1
  on_network-ends R call s h ready = go (call s.network).0 h
    where
      go :
          (r : Result HttpError _)
          → Outcome IsReported (λ a (_ : N). R a) r (call s.network).1
          → Outcome IsReported
              (λ a (t : HttpEventSink N). R a × IsReady t)
              r
              (record s { network = (call s.network).1 })
      go (ok a) h = (h, record { some_event = ready.some_event; few_retries = ready.few_retries })
      go (err e) h = h

  write_cursor-IsReported :
      (cursor : SinkCursor) (n : N)
      → Outcome IsReported
          (λ (_ : Unit) (_ : N). Unit)
          (write_cursor net cursor n).0
          (write_cursor net cursor n).1
  unfolding write_cursor
  write_cursor-IsReported cursor n = go (net.write_cursor cursor n).0
    where
      go :
          (r : Result IoError Unit)
          → Outcome IsReported
              (λ (_ : Unit) (_ : N). Unit)
              (map_err (λ e. sink_error (io e)) r)
              (net.write_cursor cursor n).1
      go (ok a) = tt
      go (err e) = λ same. cc

  abbrev Reached : List Event → EventAcknowledgement → HttpEventSink N → Type 0
  Reached events ack s = Reaches events ack × IsReady s

  advance : EventAcknowledgement → Action (HttpEventSink N) HttpError Unit
  advance ack = modify (λ s. record s { delivered_seq = some ack.accepted_through_seq })

  record_cursor : SinkCursor → Action (HttpEventSink N) HttpError Unit
  record_cursor cursor = on_network net (write_cursor net cursor)

  advance-Ends :
      (batch : List Event) (ack : EventAcknowledgement)
      → Ends IsReported (Reached batch ack) (advance ack) (λ _. Reached batch ack)
  unfolding advance
  advance-Ends batch ack = record {
    at = λ s q. (q.0, record { some_event = q.1.some_event; few_retries = q.1.few_retries });
  }

  kept :
      (batch : List Event) (ack : EventAcknowledgement) (r : Result HttpError Unit)
      (s : HttpEventSink N)
      → Reaches batch ack
      → Outcome IsReported (λ (_ : Unit) (t : HttpEventSink N). Unit × IsReady t) r s
      → Outcome IsReported (λ (_ : Unit) (t : HttpEventSink N). Reached batch ack t) r s
  kept batch ack (ok u) s q h = (q, h.1)
  kept batch ack (err e) s q h = h

  record_cursor-Ends :
      (batch : List Event) (ack : EventAcknowledgement) (cursor : SinkCursor)
      → Ends IsReported (Reached batch ack) (record_cursor cursor) (λ _. Reached batch ack)
  unfolding record_cursor
  record_cursor-Ends batch ack cursor = record {
    at = λ s q. kept batch ack (record_cursor cursor s).0 (record_cursor cursor s).1 q.0 (
        on_network-ends (λ _. Unit) (write_cursor net cursor) s
          (write_cursor-IsReported cursor s.network) q.1);
  }

  post_on_network :
      EventPublishRequest
      → List Event
      → List Event
      → Action (HttpEventSink N) HttpError EventAcknowledgement
  post_on_network request remaining batch s =
      on_network net (post_batch net s.config.max_retries (batch_of net request remaining batch)) s

  post_on_network-Ends :
      (request : EventPublishRequest) (remaining batch : List Event)
      → Ends IsReported IsReady (post_on_network request remaining batch) (Reached batch)
  unfolding post_on_network
  post_on_network-Ends request remaining batch = record {
    at = λ s ready.
        on_network-ends (Reaches batch)
          (post_batch net s.config.max_retries (batch_of net request remaining batch)) s
          (post_batch-Posted net s.config.max_retries (batch_of net request remaining batch)
            ready.few_retries s.network)
          ready;
  }

  publish_batch-Ends :
      (request : EventPublishRequest) (remaining batch : List Event)
      → Ends IsReported IsReady (publish_batch net request remaining batch) (Reached batch)
  unfolding publish_batch advance record_cursor post_on_network
  publish_batch-Ends request remaining batch =
      Ends-bind (Reached batch) (post_on_network request remaining batch)
        (λ ack.
          advance ack
          >> (record_cursor (delivered_cursor net request ack.accepted_through_seq) >> pure ack))
        (post_on_network-Ends request remaining batch)
        (λ ack.
          Ends-bind (λ _. Reached batch ack) (advance ack)
            (λ _. record_cursor (delivered_cursor net request ack.accepted_through_seq) >> pure ack)
            (advance-Ends batch ack)
            (λ _.
              Ends-bind (λ _. Reached batch ack)
                (record_cursor (delivered_cursor net request ack.accepted_through_seq))
                (λ _. pure ack) (record_cursor-Ends batch ack _) (λ _. record { at = λ s q. q })))

  module _ (encode : Encoder) (request : EventPublishRequest) (whole : List Event) where
    -- What is left ends where the whole ends, or nothing is left and the end was reached.
    abbrev IsLeft : List Event → EventAcknowledgement → Type 0
    IsLeft [] ack = Reaches whole ack
    IsLeft (e ∷ es) ack = last (e ∷ es) ≡ last whole

    IsLeft-after :
        (batch rest : List Event) (ack : EventAcknowledgement)
        → last (batch ++ rest) ≡ last whole
        → Reaches batch ack
        → IsLeft rest ack
    IsLeft-after batch [] ack same reaches =
        λ end q. reaches end (ap last (sym (append-nil batch)) ∙ same ∙ q)
    IsLeft-after batch (x ∷ rest) ack same reaches = sym (last-append_cons batch x rest) ∙ same

    abbrev take_some : List Event → Action (HttpEventSink N) HttpError (List Event)
    take_some remaining s = (
      as_sink_error
          (take_batch encode remaining s.config.max_events_per_batch s.config.max_bytes_per_batch),
      s,
    )

    -- a batch of the limits of some configuration
    record IsTaken (remaining batch : List Event) : Type 0 where
      rest : List Event
      split : batch ++ rest ≡ remaining
      some_event : 0 < length batch

    take_some-Ends :
        (e : Event) (es : List Event)
        → Ends IsReported IsReady
            (take_some (e ∷ es))
            (λ batch s. IsTaken (e ∷ es) batch × IsReady s)
    take_some-Ends e es = record { at = λ s ready. go s ready _ refl }
      where
        go :
            (s : HttpEventSink N)
            → IsReady s
            → (r : Result SinkError (List Event))
            → take_batch encode (e ∷ es) s.config.max_events_per_batch s.config.max_bytes_per_batch
              ≡ r
            → Outcome IsReported (λ batch t. IsTaken (e ∷ es) batch × IsReady t) (as_sink_error r) s
        go s ready (err x) q = λ same. cc
        go s ready (ok batch) q =
            let b =
              take_batch-IsBatch encode (e ∷ es) s.config.max_events_per_batch
                s.config.max_bytes_per_batch batch (λ nil. cc) ready.some_event q in
            (record { rest = b.rest; split = b.split; some_event = b.some_event }, ready)

    publish_from-Ends :
        (fuel : ℕ) (remaining : List Event) (ack : EventAcknowledgement)
        → length remaining ≤ fuel
        → IsLeft remaining ack
        → Ends IsReported IsReady
            (publish_from net encode fuel request remaining ack)
            (Reached whole)
    unfolding publish_from
    publish_from-Ends fuel [] ack few left = record { at = λ s ready. (left, ready) }
    publish_from-Ends zero (e ∷ es) ack few left = absurd (omega (arith, few))
    publish_from-Ends (suc fuel) (e ∷ es) ack few left =
        Ends-bind (λ batch s. IsTaken (e ∷ es) batch × IsReady s) (take_some (e ∷ es))
          (λ batch. publish_batch net request (e ∷ es) batch >>= λ ack.
            publish_from net encode fuel request (drop (length batch) (e ∷ es)) ack)
          (take_some-Ends e es)
          (λ batch. record { at = λ s q. (onward batch q.0 (publish_from-Ends fuel)).at s q.1 })
      where
        onward :
            (batch : List Event)
            → IsTaken (e ∷ es) batch
            → ((rest : List Event) (ack : EventAcknowledgement)
                → length rest ≤ fuel
                → IsLeft rest ack
                → Ends IsReported IsReady
                    (publish_from net encode fuel request rest ack)
                    (Reached whole))
            → Ends IsReported IsReady
                (publish_batch net request (e ∷ es) batch >>= λ ack.
                  publish_from net encode fuel request (drop (length batch) (e ∷ es)) ack)
                (Reached whole)
        onward batch t ih =
            let same = ap (drop (length batch)) (sym t.split) ∙ drop-append batch t.rest in
            Ends-bind (Reached batch) (publish_batch net request (e ∷ es) batch)
              (λ ack. publish_from net encode fuel request (drop (length batch) (e ∷ es)) ack)
              (publish_batch-Ends request (e ∷ es) batch)
              (λ ack. record {
                at = λ s q. rw same (
                    (ih t.rest ack
                        (omega
                          (arith, few, t.some_event, ap length t.split, length-append batch t.rest))
                        (IsLeft-after batch t.rest ack (ap last t.split ∙ left) q.0)).at
                      s q.1);
              })

  some_eq : (a b : Event) → some a ≡ some b → a ≡ b
  some_eq a b h = cc

  nonempty_list : {A : Type 0} {x : A} {xs : List A} → (x ∷ xs) ≢ []
  nonempty_list h = cc

  -- The events that a cursor leaves out are not after it.
  skip_delivered-reaches :
      (delivered : ℕ) (events : List Event) (end : Event)
      → skip_delivered net delivered events ≡ []
      → last events ≡ some end
      → end.seq ≤ delivered
  unfolding skip_delivered
  skip_delivered-reaches delivered [] end h q = cc
  skip_delivered-reaches delivered (e ∷ []) end h q =
      ground (arith, ap (λ (x : Event). x.seq) (some_eq e end q))
  skip_delivered-reaches delivered (e ∷ x ∷ es) end h q = elim (Bool-cases (leb e.seq delivered)) [
    | inl early ↦ skip_delivered-reaches delivered (x ∷ es) end (rw early at h) q
    | inr late ↦ absurd (nonempty_list (rw late at h))
  ]

  skip_delivered-last :
      (delivered : ℕ) (events : List Event)
      → skip_delivered net delivered events ≢ []
      → last (skip_delivered net delivered events) ≡ last events
  unfolding skip_delivered
  skip_delivered-last delivered [] ne = refl
  skip_delivered-last delivered (e ∷ []) ne = ground arith
  skip_delivered-last delivered (e ∷ x ∷ es) ne = elim (Bool-cases (leb e.seq delivered)) [
    | inl early ↦ rw early (skip_delivered-last delivered (x ∷ es) (rw early at ne))
    | inr late ↦ rw late refl
  ]

  guarded :
      (b : Bool) (events : List Event) (x : SinkError)
      (m : Action (HttpEventSink N) HttpError EventAcknowledgement)
      → Ends IsReported IsReady m (Reached events)
      → Ends IsReported IsReady (if b then m else fail (sink_error x)) (Reached events)
  guarded true events x m h = h
  guarded false events x m h = record { at = λ s ready same. cc }

  publish_after-Ends :
      (encode : Encoder) (request : EventPublishRequest) (delivered : ℕ) (events : List Event)
      → skip_delivered net delivered request.events ≡ events
      → Ends IsReported IsReady
          (publish_after net encode request delivered events)
          (Reached request.events)
  publish_after-Ends encode request delivered [] q = record {
    at = λ s ready.
        ((λ end same. skip_delivered-reaches delivered request.events end q same), ready);
  }
  publish_after-Ends encode request delivered (e ∷ es) q =
      guarded (e.seq == wrap64 (delivered + 1)) request.events _ _ (
        publish_from-Ends encode request request.events (length (e ∷ es)) (e ∷ es) _ (omega arith) (
          (ap last (sym q)
            ∙ skip_delivered-last delivered request.events (λ z. nonempty_list (sym q ∙ z)))))

  publish_first-Ends :
      (encode : Encoder) (request : EventPublishRequest) (events : List Event)
      → request.events ≡ events
      → Ends IsReported IsReady (publish_first net encode request events) (Reached request.events)
  publish_first-Ends encode request [] q = record { at = λ s ready same. cc }
  publish_first-Ends encode request (e ∷ es) q = guarded (e.seq == 0) request.events _ _ (
      publish_from-Ends encode request request.events (length (e ∷ es)) (e ∷ es) _ (omega arith)
        (ap last (sym q)))

  lift-Ends :
      (r : Result SinkError Unit)
      → Ends IsReported IsReady
          (lift (as_sink_error r))
          (λ (_ : Unit) (s : HttpEventSink N). IsReady s)
  lift-Ends (ok u) = record { at = λ s ready. ready }
  lift-Ends (err e) = record { at = λ s ready same. cc }

  publish_by-Ends :
      (encode : Encoder) (request : EventPublishRequest) (delivered : Option ℕ)
      → Ends IsReported IsReady (publish_by net encode request delivered) (Reached request.events)
  publish_by-Ends encode request none = publish_first-Ends encode request request.events refl
  publish_by-Ends encode request (some delivered) =
      publish_after-Ends encode request delivered (skip_delivered net delivered request.events) refl

  publish_delivered :
      Encoder → EventPublishRequest → Action (HttpEventSink N) HttpError EventAcknowledgement
  publish_delivered encode request s = publish_by net encode request s.delivered_seq s

  publish_events-Ends :
      (encode : Encoder) (request : EventPublishRequest)
      → Ends IsReported IsReady (publish_events net encode request) (Reached request.events)
  unfolding publish_events publish_delivered
  publish_events-Ends encode request =
      Ends-bind (λ (_ : Unit) (s : HttpEventSink N). IsReady s)
        (lift (as_sink_error (nonempty net request.events)))
        (λ _.
          lift (as_sink_error (validate_contiguous request.events))
          >> publish_delivered encode request)
        (lift-Ends (nonempty net request.events))
        (λ _.
          Ends-bind (λ (_ : Unit) (s : HttpEventSink N). IsReady s)
            (lift (as_sink_error (validate_contiguous request.events)))
            (λ _. publish_delivered encode request) (lift-Ends (validate_contiguous request.events))
            (λ _. record {
              at = λ s ready. (publish_by-Ends encode request s.delivered_seq).at s ready;
            }))

  weakened :
      (events : List Event) (r : Result HttpError EventAcknowledgement) (s : HttpEventSink N)
      → Outcome IsReported (Reached events) r s
      → Outcome IsReported (λ ack (_ : HttpEventSink N). Covers (last events) ack) r s
  weakened events (ok ack) s h = Reaches-Covers (last events) ack h.0
  weakened events (err e) s h = h

  -- Publishing ends, whatever the server and the disk answer, if a batch may hold an event and the
  -- attempts can be counted in 32 bits: with an error of the sink, or with an acknowledgement that
  -- reaches the last event of the request.
  pub publish_events-Covers :
      (encode : Encoder) (request : EventPublishRequest) (s : HttpEventSink N)
      → 0 < s.config.max_events_per_batch
      → s.config.max_retries + 1 < u32_modulus
      → Outcome IsReported
          (λ ack (_ : HttpEventSink N). Covers (last request.events) ack)
          (publish_events net encode request s).0
          (publish_events net encode request s).1
  publish_events-Covers encode request s some_event few_retries =
      weakened request.events (publish_events net encode request s).0
        (publish_events net encode request s).1
        ((publish_events-Ends encode request).at s
          (record { some_event = some_event; few_retries = few_retries }))
