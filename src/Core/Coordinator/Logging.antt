-- ===== src/Core/Coordinator/Logging.antt =====
-- The log that the coordinator's sink has accepted, and the number `seq`.
use rrjj.Prelude.{
  ◌==◌, ◌≡◌, refl, ap, Bool, Bool-cases, String, Option, none, some, List, [], ◌∷◌, arith, inl, inr,
  wrap64, length, All, length-append, subst,
}
use rrjj.Prelude.Action.{Keeps, Result, ok, err}
use rrjj.Schema.{Event, EventBody, Snapshot}
use rrjj.Schema.Numbering.{NumberedFrom, OfSession, NumberedFrom-append, All-append}
use rrjj.Sinks.Error.{SinkError}
use rrjj.Sinks.Traits.{AcceptsLog, log_after, FlushRequest}
use rrjj.Core.Coordinator.{
  Coordinator, Services, after_emit, emit_exact, emit, after_audit, after_snapshot, after_retry,
  hold_snapshot, capture_tree, after_capture, flush_sink, after_flush, drain_audit,
}
use rrjj.Core.Audit.{OverflowNotice, AuditState, Notification}
use rrjj.Core.Coordinator.Invariants.{IsStable}
use rrjj.Core.Coordinator.Frame.{drain_audit-SameLog}

-- A retained event is one of this session.
abbrev pub Held : String → Option Event → Type 0
Held session none = Unit
Held session (some e) = OfSession session 0 e

module _ {S R : Type 0} (io : Services S R) (log : AcceptsLog io.sink) (session : String) where
  pub record IsLogged (c : Coordinator S R) : Type 0 where
    pub session_id : c.config.session_id ≡ session
    pub numbered : NumberedFrom 0 (log.accepted c.sink)
    pub counted : c.seq ≡ wrap64 (length (log.accepted c.sink))
    pub one_session : All (OfSession session 0) (log.accepted c.sink)
    pub held : Held session c.pending_snapshot_event

  carry :
      {c d : Coordinator S R}
      → IsLogged c
      → d.config ≡ c.config
      → d.sink ≡ c.sink
      → d.seq ≡ c.seq
      → Held session d.pending_snapshot_event
      → IsLogged d
  carry h config sink seq held = record {
    session_id = rw config h.session_id;
    numbered = rw sink h.numbered;
    counted = rw (sink, seq) h.counted;
    one_session = rw sink h.one_session;
    held = held;
  }

  after_emit-IsLogged :
      (e : Event) (a : Result SinkError Unit × S) (c : Coordinator S R)
      → OfSession session 0 e
      → e.seq ≡ c.seq
      → log.accepted a.1 ≡ log_after a.0 e (log.accepted c.sink)
      → IsLogged c
      → IsLogged (after_emit a c).1
  unfolding after_emit
  after_emit-IsLogged e (ok u, s) c o q grown h = record {
    session_id = h.session_id;
    numbered =
        rw grown
          (NumberedFrom-append 0 (log.accepted c.sink) e h.numbered (omega (arith, h.counted)));
    counted =
        omega (arith, h.counted, ap length grown, length-append (log.accepted c.sink) (e ∷ []));
    one_session =
        rw grown (All-append (OfSession session 0) (log.accepted c.sink) e h.one_session o);
    held = h.held;
  }
  after_emit-IsLogged e (err x, s) c o q same h = record {
    session_id = h.session_id;
    numbered = rw same h.numbered;
    counted = rw same h.counted;
    one_session = rw same h.one_session;
    held = h.held;
  }

  emit_exact-IsLogged : (e : Event) → OfSession session 0 e → Keeps IsLogged (emit_exact io e)
  unfolding emit_exact
  emit_exact-IsLogged e o = record {
    at = λ c h. elim (Bool-cases (e.seq == c.seq)) [
      | inl same ↦ rw same (
          after_emit-IsLogged e (io.sink.emit e c.sink) c o (ground arith)
            (log.accepted-emit e c.sink) h)
      | inr other ↦ rw other h
    ];
  }

  emit-IsLogged : (body : EventBody) → Keeps IsLogged (emit io body)
  unfolding emit
  emit-IsLogged body = record {
    at = λ c h. (emit_exact-IsLogged _ (h.session_id, refl)).at _ (carry h refl refl refl h.held);
  }

  drain_audit-IsLogged : (c : Coordinator S R) → IsLogged c → IsLogged (drain_audit c)
  drain_audit-IsLogged c h =
      let same = drain_audit-SameLog c in
      carry h same.config same.sink same.seq (rw same.held h.held)

  after_audit-IsLogged : (c : Coordinator S R) → IsLogged c → IsLogged (after_audit c)
  unfolding after_audit
  after_audit-IsLogged c h = carry h refl refl refl h.held

  after_snapshot-IsLogged : (c : Coordinator S R) → IsLogged c → IsLogged (after_snapshot c)
  unfolding after_snapshot
  after_snapshot-IsLogged c h = carry h refl refl refl tt

  after_retry-IsLogged : (c : Coordinator S R) → IsLogged c → IsLogged (after_retry c)
  unfolding after_retry
  after_retry-IsLogged c h = carry h refl refl refl tt

  hold_snapshot-IsLogged :
      (s : Snapshot) (c : Coordinator S R) → IsLogged c → IsLogged (hold_snapshot io s c)
  unfolding hold_snapshot
  hold_snapshot-IsLogged s c h = carry h refl refl refl (h.session_id, refl)

  drop-IsLogged :
      (rest : List OverflowNotice) (c : Coordinator S R)
      → IsLogged c
      → IsLogged (record c { pending_overflows = rest })
  drop-IsLogged rest c h = carry h refl refl refl h.held

  after_capture-IsLogged :
      (a : Result String Snapshot × R) (c : Coordinator S R)
      → IsLogged c
      → IsLogged (after_capture a c).1
  unfolding after_capture
  after_capture-IsLogged (ok s, r) c h = carry h refl refl refl h.held
  after_capture-IsLogged (err e, r) c h = carry h refl refl refl h.held

  capture_tree-IsLogged : Keeps IsLogged (capture_tree io)
  unfolding capture_tree
  capture_tree-IsLogged = record {
    at = λ c h.
        after_capture-IsLogged
          (io.recorder.capture c.force_full_scan c.config.max_changes_per_event c.recorder) c h;
  }

  after_flush-IsLogged :
      (a : Result SinkError Unit × S) (c : Coordinator S R)
      → log.accepted a.1 ≡ log.accepted c.sink
      → IsLogged c
      → IsLogged (after_flush a c).1
  unfolding after_flush
  after_flush-IsLogged (ok u, s) c same h = record {
    session_id = h.session_id;
    numbered = rw same h.numbered;
    counted = rw same h.counted;
    one_session = rw same h.one_session;
    held = h.held;
  }
  after_flush-IsLogged (err e, s) c same h = record {
    session_id = h.session_id;
    numbered = rw same h.numbered;
    counted = rw same h.counted;
    one_session = rw same h.one_session;
    held = h.held;
  }

  flush_sink-IsLogged : (r : FlushRequest) → Keeps IsLogged (flush_sink io r)
  unfolding flush_sink
  flush_sink-IsLogged r = record {
    at = λ c h.
        after_flush-IsLogged (io.sink.flush_session r c.sink) c
          (log.accepted-flush_session r c.sink) h;
  }

  retained-IsLogged :
      (e : Event) (c : Coordinator S R)
      → c.pending_snapshot_event ≡ some e
      → IsLogged c
      → IsLogged (emit_exact io e c).1
  retained-IsLogged e c held h = (emit_exact-IsLogged e (subst (Held session) held h.held)).at c h

  pub IsLogged-stable : IsStable io IsLogged
  IsLogged-stable = record {
    emit = emit-IsLogged;
    retained = retained-IsLogged;
    capture_tree = capture_tree-IsLogged;
    flush_sink = flush_sink-IsLogged;
    drain_audit = drain_audit-IsLogged;
    hold_snapshot = hold_snapshot-IsLogged;
    after_audit = after_audit-IsLogged;
    after_snapshot = after_snapshot-IsLogged;
    after_retry = after_retry-IsLogged;
    left_with = drop-IsLogged;
    tick = λ c h. carry h refl refl refl h.held;
  }

  -- The log depends neither on the flag `paused` nor on what the watcher noted.
  pub beside-IsLogged :
      (paused : Bool) (audit : AuditState) (arrivals : List (List Notification))
      (c : Coordinator S R)
      → IsLogged c
      → IsLogged (record c { paused = paused; audit = audit; arrivals = arrivals })
  beside-IsLogged paused audit arrivals c h = carry h refl refl refl h.held
