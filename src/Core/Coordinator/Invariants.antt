-- ===== src/Core/Coordinator/Invariants.antt =====
-- The rule for invariants of Core/Coordinator: its primitive steps, and its methods made of them.
use rrjj.Prelude.{
  ℕ, zero, suc, ◌≡◌, refl, Bool, true, false, String, Option, none, some, List, [], ◌∷◌,
}
use rrjj.Prelude.Action.{
  Result, ok, err, Action, pure, gets, modify, when, resume, ◌>>◌, Keeps, Keeps-pure, Keeps-fail,
  Keeps-gets, Keeps-bind,
}
use rrjj.Schema.{Event, EventBody, Snapshot, is_snapshot}
use rrjj.Sinks.Traits.{FlushRequest}
use rrjj.Core.Audit.{OverflowNotice}
use rrjj.Core.Coordinator.{
  CoordinatorError, Coordinator, Services, out_of_fuel, drain_audit, after_retry, after_snapshot,
  after_audit, left_with, tick, rounds, overflow_body, emit_exact, emit, emit_window, emit_audit,
  emit_each, emit_overflows, capture_tree, hold_snapshot, emit_held, commit, drained_snapshot,
  fresh_snapshot, retry_body, retry_snapshot, snapshot_from, snapshot, settle, settle_audit,
  emit_mark, mark, flush_sink, flush_through, flush_body, flush_durable, emit_session_end, finish,
  status, flush,
}

-- The primitive steps, each by itself.
pub record IsStable {S R : Type 0} (io : Services S R) (P : Coordinator S R → Type 0) : Type 0 where
  pub emit : (body : EventBody) → Keeps P (emit io body)
  pub retained :
      (e : Event) (c : Coordinator S R)
      → c.pending_snapshot_event ≡ some e
      → P c
      → P (emit_exact io e c).1
  pub capture_tree : Keeps P (capture_tree io)
  pub flush_sink : (r : FlushRequest) → Keeps P (flush_sink io r)
  pub drain_audit : (c : Coordinator S R) → P c → P (drain_audit c)
  pub hold_snapshot : (s : Snapshot) (c : Coordinator S R) → P c → P (hold_snapshot io s c)
  pub after_audit : (c : Coordinator S R) → P c → P (after_audit c)
  pub after_snapshot : (c : Coordinator S R) → P c → P (after_snapshot c)
  pub after_retry : (c : Coordinator S R) → P c → P (after_retry c)
  pub left_with : (ns : List OverflowNotice) (c : Coordinator S R) → P c → P (left_with ns c)
  pub tick : (c : Coordinator S R) → P c → P (tick c)

-- The steps that the methods are made of, each with the change of the state that always follows it.
pub record IsSteady {S R : Type 0} (io : Services S R) (P : Coordinator S R → Type 0) : Type 0 where
  pub emit : (body : EventBody) → is_snapshot body ≡ false → Keeps P (emit io body)
  pub window : (started : String) → Keeps P (emit_window io (some started))
  pub commit : (s : Snapshot) → Keeps P (commit io s)
  pub retried :
      (e : Event) (s : Snapshot) (c : Coordinator S R)
      → c.pending_snapshot_event ≡ some e
      → e.body ≡ EventBody.snapshot s
      → P c
      → P (retry_body io e (EventBody.snapshot s) c).1
  pub capture_tree : Keeps P (capture_tree io)
  pub flush_sink : (r : FlushRequest) → Keeps P (flush_sink io r)
  pub drain_audit : (c : Coordinator S R) → P c → P (drain_audit c)
  pub hold_snapshot : (s : Snapshot) (c : Coordinator S R) → P c → P (hold_snapshot io s c)
  pub left_with : (ns : List OverflowNotice) (c : Coordinator S R) → P c → P (left_with ns c)

module _ {S R : Type 0} {P : Coordinator S R → Type 0} where
  modify-Keeps :
      (f : Coordinator S R → Coordinator S R)
      → ((c : Coordinator S R) → P c → P (f c))
      → Keeps {E = CoordinatorError} P (modify f)
  modify-Keeps f h = record { at = h }

  finish_snapshot-Keeps :
      (f : Coordinator S R → Coordinator S R) (s : Snapshot)
      → ((c : Coordinator S R) → P c → P (f c))
      → Keeps {E = CoordinatorError} P (modify f >> pure s)
  finish_snapshot-Keeps f s h =
      Keeps-bind (modify f) (λ _. pure s) (modify-Keeps f h) (λ _. Keeps-pure s)

module _ {S R : Type 0} (io : Services S R) {P : Coordinator S R → Type 0} (p : IsStable io P) where
  emit_window-Keeps : (started : String) → Keeps P (emit_window io (some started))
  unfolding emit_window
  emit_window-Keeps started = Keeps-bind _ _ (Keeps-gets _) (λ body.
      Keeps-bind _ _ (modify-Keeps tick p.tick)
        (λ _. Keeps-bind _ _ (p.emit body) (λ _. modify-Keeps after_audit p.after_audit)))

  -- The retry emits the event that the state holds.
  retry_body-Keeps :
      (e : Event) (b : EventBody) (c : Coordinator S R)
      → c.pending_snapshot_event ≡ some e
      → P c
      → P (retry_body io e b c).1
  unfolding retry_body
  retry_body-Keeps e (EventBody.snapshot s) c held h =
      onward (emit_exact io e c).0 (emit_exact io e c).1 (p.retained e c held h)
    where
      onward :
          (r : Result CoordinatorError Unit) (d : Coordinator S R)
          → P d
          → P (resume r (λ _. modify after_retry >> pure s) d).1
      onward (ok _) d q = p.after_retry d q
      onward (err _) d q = q
  retry_body-Keeps e _ c held h = h

  emit_held-Keeps : Keeps P (λ c. emit_held io c.pending_snapshot_event c)
  unfolding emit_held
  emit_held-Keeps = record { at = λ c h. from c.pending_snapshot_event c refl h }
    where
      from :
          (e : Option Event) (c : Coordinator S R)
          → c.pending_snapshot_event ≡ e
          → P c
          → P (emit_held io e c).1
      from none c held h = h
      from (some e) c held h = p.retained e c held h

  commit-Keeps : (s : Snapshot) → Keeps P (commit io s)
  unfolding commit
  commit-Keeps s =
      Keeps-bind _ _ emit_held-Keeps λ _. finish_snapshot-Keeps after_snapshot s p.after_snapshot

  pub IsStable-IsSteady : IsSteady io P
  IsStable-IsSteady = record {
    emit = λ body _. p.emit body;
    window = emit_window-Keeps;
    commit = commit-Keeps;
    retried = λ e s c held _ h. retry_body-Keeps e (EventBody.snapshot s) c held h;
    capture_tree = p.capture_tree;
    flush_sink = p.flush_sink;
    drain_audit = p.drain_audit;
    hold_snapshot = p.hold_snapshot;
    left_with = p.left_with;
  }

module _ {S R : Type 0} (io : Services S R) {P : Coordinator S R → Type 0} (p : IsSteady io P) where
  emit_window-steady : (started : Option String) → Keeps P (emit_window io started)
  unfolding emit_window
  emit_window-steady none = Keeps-pure tt
  emit_window-steady (some started) = p.window started

  emit_audit-Keeps : Keeps P (emit_audit io)
  unfolding emit_audit
  emit_audit-Keeps = record { at = λ c h. (emit_window-steady c.audit_started_at).at c h }

  emit_each-Keeps : (ns : List OverflowNotice) → Keeps P (emit_each io ns)
  unfolding emit_each
  emit_each-Keeps [] = Keeps-pure tt
  emit_each-Keeps (n ∷ ns) = Keeps-bind (emit io (overflow_body n)) _ (p.emit _ refl) (λ _.
      Keeps-bind _ (λ _. emit_each io ns) (modify-Keeps (left_with ns) (p.left_with ns))
        (λ _. emit_each-Keeps ns))

  emit_overflows-Keeps : Keeps P (emit_overflows io)
  unfolding emit_overflows
  emit_overflows-Keeps = record { at = λ c h. (emit_each-Keeps c.pending_overflows).at c h }

  retry_body-steady :
      (e : Event) (b : EventBody) (c : Coordinator S R)
      → c.pending_snapshot_event ≡ some e
      → e.body ≡ b
      → P c
      → P (retry_body io e b c).1
  retry_body-steady e (EventBody.snapshot s) c held same h = p.retried e s c held same h
  retry_body-steady e _ c held same h = unfold retry_body in h

  drained_snapshot-Keeps : Keeps P (drained_snapshot io)
  unfolding drained_snapshot commit
  drained_snapshot-Keeps = Keeps-bind _ _ emit_overflows-Keeps λ _.
      Keeps-bind _ _ emit_audit-Keeps λ _.
        Keeps-bind _ _ p.capture_tree λ s.
          Keeps-bind _ _ (modify-Keeps (hold_snapshot io s) (p.hold_snapshot s)) λ _. p.commit s

  fresh_snapshot-Keeps : Keeps P (fresh_snapshot io)
  unfolding fresh_snapshot
  fresh_snapshot-Keeps = record {
    at = λ c h. drained_snapshot-Keeps.at (drain_audit c) (p.drain_audit c h);
  }

  -- Whatever the primitive steps keep, taking a snapshot keeps.
  pub snapshot-Keeps : Keeps P (snapshot io)
  unfolding snapshot retry_snapshot
  snapshot-Keeps = record { at = λ c h. from c.pending_snapshot_event c refl h }
    where
      from :
          (e : Option Event) (c : Coordinator S R)
          → c.pending_snapshot_event ≡ e
          → P c
          → P (snapshot_from io e c).1
      from none c held h = fresh_snapshot-Keeps.at c h
      from (some e) c held h = retry_body-steady e e.body c held refl h

  when-Keeps :
      (b : Bool) (m : Action (Coordinator S R) CoordinatorError Unit)
      → Keeps P m
      → Keeps P (when b m)
  when-Keeps true m k = k
  when-Keeps false m k = Keeps-pure tt

  pub settle-Keeps : (fuel : ℕ) → Keeps P (settle io fuel)
  unfolding settle
  settle-Keeps zero = record {
    at = λ c h. (when-Keeps c.pending_snapshot _ (Keeps-fail out_of_fuel)).at c h;
  }
  settle-Keeps (suc fuel) = record {
    at = λ c h.
        (when-Keeps c.pending_snapshot _ (
            Keeps-bind (snapshot io) _ snapshot-Keeps (λ _.
              Keeps-bind _ (λ _. settle io fuel) (modify-Keeps drain_audit p.drain_audit)
                (λ _. settle-Keeps fuel)))).at
          c h;
  }

  pub settle_audit-Keeps : Keeps P (settle_audit io)
  unfolding settle_audit
  settle_audit-Keeps = record {
    at = λ c h. (settle-Keeps (rounds c)).at (drain_audit c) (p.drain_audit c h);
  }

  pub emit_mark-Keeps : (label meta : String) → Keeps P (emit_mark io label meta)
  unfolding emit_mark
  emit_mark-Keeps label meta = record { at = λ c h. (p.emit _ refl).at c h }

  pub mark-Keeps : (label meta : String) → Keeps P (mark io label meta)
  unfolding mark
  mark-Keeps label meta =
      Keeps-bind (settle_audit io) (λ _. emit_mark io label meta) settle_audit-Keeps
        λ _. emit_mark-Keeps label meta

  flush_through-Keeps :
      (op : String) (checkpoint : Option String) → Keeps P (flush_through io op checkpoint)
  unfolding flush_through
  flush_through-Keeps op checkpoint = record { at = λ c h. (p.flush_sink _).at c h }

  pub flush_durable-Keeps : Keeps P (flush_durable io)
  unfolding flush_durable
  flush_durable-Keeps = record {
    at = λ c h.
        (Keeps-bind (emit io (flush_body io c)) (λ _. flush_through io _ _) (p.emit _ refl)
            (λ _. flush_through-Keeps _ _)).at
          c h;
  }

  pub emit_session_end-Keeps : (reason : String) → Keeps P (emit_session_end io reason)
  unfolding emit_session_end
  emit_session_end-Keeps reason = record { at = λ c h. (p.emit _ refl).at c h }

  pub finish-Keeps : (reason : String) → Keeps P (finish io reason)
  unfolding finish
  finish-Keeps reason =
      Keeps-bind (settle_audit io) (λ _. emit_session_end io reason >> flush_durable io)
        settle_audit-Keeps
        λ _.
          Keeps-bind (emit_session_end io reason) (λ _. flush_durable io)
            (emit_session_end-Keeps reason) λ _. flush_durable-Keeps

  pub flush-Keeps : Keeps P (flush io)
  unfolding flush
  flush-Keeps =
      Keeps-bind (settle_audit io) (λ _. flush_durable io >> gets (status io)) settle_audit-Keeps
        λ _.
          Keeps-bind (flush_durable io) (λ _. gets (status io)) flush_durable-Keeps
            λ _. Keeps-gets (status io)
