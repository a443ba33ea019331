-- ===== src/Core/Coordinator/Flushing.antt =====
-- What `mark` and `flush` of crates/rrjj-core/src/lib.rs have done when they return.
use rrjj.Prelude.{
  ℕ, ◌+◌, ◌-◌, ◌%◌, ◌<◌, ◌≡◌, refl, ap, subst, sym, ◌∙◌, Bool-cases, String, List, [], ◌∷◌, ◌++◌,
  arith, inl, inr, ◌==◌, wrap64, u64_modulus,
}
use rrjj.Prelude.Action.{Result, ok, err, gets, ◌>>◌, >>=-eq-ok}
use rrjj.Schema.{Event, EventBody, event_at}
use rrjj.Sinks.Error.{SinkError}
use rrjj.Sinks.Traits.{AcceptsLog, FlushRequest, log_after}
use rrjj.Core.Coordinator.{
  CoordinatorError, Coordinator, Services, Status, after_emit, emit_exact, emit, tick, mark,
  emit_mark, flush, flush_durable, flush_body, flush_through, after_flush, settle_audit, status,
}
use rrjj.Core.Coordinator.Invariants.{
  IsStable-IsSteady, settle_audit-Keeps, flush_durable-Keeps, emit_mark-Keeps,
}
use rrjj.Core.Coordinator.Logging.{IsLogged, IsLogged-stable}
use rrjj.Core.Coordinator.Reporting.{IsKnown-steady}
use rrjj.Core.Coordinator.Settling.{IsStarted, IsSettled}
use rrjj.Core.Coordinator.Writing.{AreReported, Keeps-eq, settle_audit-ok, written_after}

module _ {S R : Type 0} (io : Services S R) (log : AcceptsLog io.sink) where
  -- The event that `emit` builds.
  abbrev pub next_event : EventBody → Coordinator S R → Event
  next_event body c = event_at c.config.session_id c.seq (io.now c.clock) body

  after_emit-ok :
      (a : Result SinkError Unit × S) (c d : Coordinator S R)
      → after_emit a c ≡ (ok tt, d)
      → (a.0 ≡ ok tt) × (d ≡ record c { sink = a.1; seq = wrap64 (c.seq + 1) })
  unfolding after_emit
  after_emit-ok (ok tt, s) c d h =
      (refl, sym (ap (λ (r : Result CoordinatorError Unit × Coordinator S R). r.1) h))
  after_emit-ok (err e, s) c d h = cc

  -- An emission that succeeds has appended its event and advanced `seq`, and changed nothing else but
  -- the clock.
  pub emit-ok :
      (body : EventBody) (c d : Coordinator S R)
      → emit io body c ≡ (ok tt, d)
      → (s : S) × (d ≡ record (tick c) { sink = s; seq = wrap64 (c.seq + 1) })
        × (log.accepted s ≡ log.accepted c.sink ++ next_event body c ∷ [])
  unfolding emit emit_exact
  emit-ok body c d h = elim (Bool-cases (c.seq == c.seq)) [
    | inl same ↦
        let e = next_event body c in
        let r = after_emit-ok (io.sink.emit e c.sink) (tick c) d (rw same at h) in
        (
          (io.sink.emit e c.sink).1,
          r.1,
          log.accepted-emit e c.sink ∙ ap (λ a. log_after a e (log.accepted c.sink)) r.0,
        )
    | inr other ↦ absurd (ground arith)
  ]

  after_flush-ok :
      (a : Result SinkError Unit × S) (c d : Coordinator S R)
      → after_flush a c ≡ (ok tt, d)
      → (a ≡ (ok tt, d.sink)) × (d ≡ record c { sink = d.sink })
  unfolding after_flush
  after_flush-ok (ok tt, s) c d h =
      let e = ap (λ (r : Result CoordinatorError Unit × Coordinator S R). r.1) h in
      (
        ap (λ (x : Coordinator S R). (ok tt, x.sink)) e,
        sym e ∙ ap (λ (x : Coordinator S R). record c { sink = x.sink }) e,
      )
  after_flush-ok (err e, s) c d h = cc

  -- What `flush_durable` asks of the sink, after its event.
  abbrev pub flush_request : Coordinator S R → FlushRequest
  flush_request c = record {
    shadow_root = c.config.shadow_root;
    last_seq = c.seq;
    last_op = io.recorder.op_id c.recorder;
    checkpoint = io.recorder.commit_id c.recorder;
  }

  -- the state after the event of `flush_durable`
  abbrev pub advanced : Coordinator S R → S → Coordinator S R
  advanced c s = record (tick c) { sink = s; seq = wrap64 (c.seq + 1) }

  previous_seq : (n : ℕ) → n < u64_modulus → (wrap64 (n + 1) + u64_modulus - 1) % u64_modulus ≡ n
  previous_seq n small = omega arith

  flush_through-ok :
      (c d : Coordinator S R) (s : S)
      → c.seq < u64_modulus
      → flush_through io
          (io.recorder.op_id c.recorder)
          (io.recorder.commit_id c.recorder)
          (advanced c s)
        ≡ (ok tt, d)
      → (d ≡ advanced c d.sink) × (io.sink.flush_session (flush_request c) s ≡ (ok tt, d.sink))
  unfolding flush_through
  flush_through-ok c d s small h =
      let r = after_flush-ok _ (advanced c s) d h in (r.1, rw (previous_seq c.seq small) at r.0)

  pub flush_durable-ok :
      (c d : Coordinator S R)
      → c.seq < u64_modulus
      → flush_durable io c ≡ (ok tt, d)
      → (s : S) × (d ≡ advanced c d.sink)
        × (log.accepted s ≡ log.accepted c.sink ++ next_event (flush_body io c) c ∷ [])
        × (io.sink.flush_session (flush_request c) s ≡ (ok tt, d.sink))
  unfolding flush_durable
  flush_durable-ok c d small h =
      let (_, m, emitted, flushed) =
        >>=-eq-ok (emit io (flush_body io c)) (λ _. flush_through io _ _) c h in
      let (s, state, grown) = emit-ok (flush_body io c) c m emitted in
      let (same, asked) = flush_through-ok c d s small (
        subst
          (λ m.
            flush_through io (io.recorder.op_id c.recorder) (io.recorder.commit_id c.recorder) m
            ≡ (ok tt, d))
          state flushed) in
      (s, same, grown, asked)

  -- What a durable flush has left: the log ends with a flush event which names itself and the
  -- operation of the recorder, and the sink was then asked to make all events through it durable, with
  -- that operation and its commit, and did.
  pub record IsFlushed (d : Coordinator S R) : Type 0 where
    pub before : List Event
    pub event : Event
    pub journal : S
    pub body :
        event.body
        ≡ EventBody.flush (record { op = io.recorder.op_id d.recorder; through_seq = event.seq })
    pub last : log.accepted journal ≡ before ++ event ∷ []
    pub durable :
        io.sink.flush_session
          (record {
            shadow_root = d.config.shadow_root;
            last_seq = event.seq;
            last_op = io.recorder.op_id d.recorder;
            checkpoint = io.recorder.commit_id d.recorder;
          })
          journal
        ≡ (ok tt, d.sink)

  flush_durable-IsFlushed :
      (c d : Coordinator S R)
      → c.seq < u64_modulus
      → IsSettled c
      → flush_durable io c ≡ (ok tt, d)
      → IsFlushed d × IsSettled d
  flush_durable-IsFlushed c d small settled h =
      let (s, same, grown, asked) = flush_durable-ok c d small h in
      subst (λ x. IsFlushed x × IsSettled x) (sym same)
        (
          record {
            before = log.accepted c.sink;
            event = next_event (flush_body io c) c;
            journal = s;
            body = refl;
            last = grown;
            durable = asked;
          },
          record { idle = settled.idle; touched = settled.touched; overflows = settled.overflows },
        )

  status_lem :
      (x d : Coordinator S R) (st : Status)
      → ◌≡◌ {A = Result CoordinatorError Status × Coordinator S R} (ok (status io x), x) (ok st, d)
      → st ≡ status io x
  status_lem x d st e = cc

  pub IsLogged-ok :
      (session : String) (c m : Coordinator S R)
      → IsLogged io log session c
      → settle_audit io c ≡ (ok tt, m)
      → IsLogged io log session m
  IsLogged-ok session c m h e =
      subst (λ (r : Result CoordinatorError Unit × Coordinator S R). IsLogged io log session r.1) e
        ((settle_audit-Keeps io (IsStable-IsSteady io (IsLogged-stable io log session))).at c h)

  small_seq :
      (session : String) (c : Coordinator S R) → IsLogged io log session c → c.seq < u64_modulus
  small_seq session c h = omega (arith, h.counted)

  reported_still :
      (c m x : Coordinator S R)
      → settle_audit io c ≡ (ok tt, m)
      → flush_durable io m ≡ (ok tt, x)
      → IsSettled x
      → AreReported io log c x
  reported_still c m x settled flushed q = written_after io log c m x settled q (λ path o.
      Keeps-eq (flush_durable io) m (flush_durable-Keeps io (IsKnown-steady io log path o)) flushed)

  -- When `flush` returns a status, every operation at a path that was in the window, or in the
  -- accumulator at the first look, is in the log, unless the coordinator met its limit on paths;
  -- nothing is pending, the log ends with a flush event that names itself, and the sink has confirmed
  -- the log through that event, the recorder's operation and its commit as durable.
  pub flush-IsFlushed :
      (session : String) (c d : Coordinator S R) (st : Status)
      → IsStarted c
      → IsLogged io log session c
      → flush io c ≡ (ok st, d)
      → IsFlushed d × IsSettled d × AreReported io log c d × (st ≡ status io d)
  unfolding flush
  flush-IsFlushed session c d st started logged h =
      let (_, m, settled, rest) =
        >>=-eq-ok (settle_audit io) (λ _. flush_durable io >> gets (status io)) c h in
      let (_, x, flushed, shown) = >>=-eq-ok (flush_durable io) (λ _. gets (status io)) m rest in
      let small = small_seq session m (IsLogged-ok session c m logged settled) in
      let r =
        flush_durable-IsFlushed m x small (settle_audit-ok io log c m started settled).0 flushed in
      let same = ap (λ (r : Result CoordinatorError Status × Coordinator S R). r.1) shown in
      let said = status_lem x d st shown in
      subst (λ y. IsFlushed y × IsSettled y × AreReported io log c y × (st ≡ status io y)) same
        (r.0, r.1, reported_still c m x settled flushed r.1, said)

  -- The log ends with this mark, at the recorder's operation.
  pub record IsMarked (label meta : String) (d : Coordinator S R) : Type 0 where
    pub before : List Event
    pub event : Event
    pub body :
        event.body
        ≡ EventBody.mark
            (record { label = label; meta = meta; ref_op = io.recorder.op_id d.recorder })
    pub last : log.accepted d.sink ≡ before ++ event ∷ []

  emit_mark-IsMarked :
      (label meta : String) (m d : Coordinator S R)
      → IsSettled m
      → emit_mark io label meta m ≡ (ok tt, d)
      → IsMarked label meta d × IsSettled d
  unfolding emit_mark
  emit_mark-IsMarked label meta m d q marked =
      let (s, same, grown) = emit-ok _ m d marked in
      subst (λ x. IsMarked label meta x × IsSettled x) (sym same)
        (
          record { before = log.accepted m.sink; event = _; body = refl; last = grown },
          record { idle = q.idle; touched = q.touched; overflows = q.overflows },
        )

  -- When `mark` returns without an error, the log ends with the mark, which refers to the operation of
  -- the recorder, nothing is pending, and every operation at a path that was in the window, or in the
  -- accumulator at the first look, is in the log, unless the coordinator met its limit on paths.
  pub mark-IsMarked :
      (label meta : String) (c d : Coordinator S R)
      → IsStarted c
      → mark io label meta c ≡ (ok tt, d)
      → IsMarked label meta d × IsSettled d × AreReported io log c d
  unfolding mark
  mark-IsMarked label meta c d started h =
      let (_, m, settled, marked) =
        >>=-eq-ok (settle_audit io) (λ _. emit_mark io label meta) c h in
      let q = (settle_audit-ok io log c m started settled).0 in
      let (end, settled_end) = emit_mark-IsMarked label meta m d q marked in
      (
        end,
        settled_end,
        written_after io log c m d settled settled_end (λ path o.
            Keeps-eq (emit_mark io label meta) m
              (emit_mark-Keeps io (IsKnown-steady io log path o) label meta) marked),
      )
