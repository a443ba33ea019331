-- ===== src/Core/Coordinator/Reporting.antt =====
-- How what a window holds gets into the log: `emit_audit` of crates/rrjj-core/src/lib.rs.
use rrjj.Prelude.{
  ℕ, ◌+◌, ◌≡◌, refl, ◌⊎◌, inl, inr, Bool, true, false, ◌||◌, Option, Option-cases, none, some,
  String, List, [], ◌∷◌, ◌++◌, map, arith,
}
use rrjj.Prelude.Action.{
  Result, ok, err, Keeps, After-end, After-resume, modify, pure, resume, ◌>>◌,
}
use rrjj.Schema.{Event, EventBody, Snapshot, TouchOperation, event_at}
use rrjj.Sinks.Error.{SinkError}
use rrjj.Sinks.Traits.{AcceptsLog}
use rrjj.Core.PathMap.{PathMap, OperationSet, lookup}
use rrjj.Core.PathMap.Covers.{saw, saw-insert, saw-extend_at}
use rrjj.Core.Audit.{drain, AuditBatch, AuditState, Notification}
use rrjj.Core.Audit.Retains.{reports}
use rrjj.Core.Coordinator.{
  Coordinator, Services, emit_exact, emit, emit_window, after_audit, after_snapshot, after_retry,
  retry_body, commit, emit_held, capture_tree, after_capture, flush_sink, after_flush, drain_audit,
  hold_snapshot, window, tick, touched_path, merge_path, merge_paths, take_batch, arrive,
}
use rrjj.Core.Coordinator.Frame.{drain_audit-SameLog}
use rrjj.Core.Coordinator.Invariants.{IsSteady}
use rrjj.Core.Coordinator.Emitting.{Logs, emit_exact-Logs}

-- An event of the log reports the operation at the path.
unfoldable pub reported : String → TouchOperation → EventBody → Bool
reported path o (EventBody.touched_paths w) = reports w.paths path o
reported path o _ = false

unfoldable pub was_reported : List Event → String → TouchOperation → Bool
unfolding reported
was_reported [] path o = false
was_reported (e ∷ es) path o = reported path o e.body || was_reported es path o

was_reported-append :
    (es : List Event) (e : Event) (path : String) (o : TouchOperation)
    → was_reported (es ++ e ∷ []) path o ≡ (was_reported es path o || reported path o e.body)
unfolding was_reported
was_reported-append [] e path o = ground arith
was_reported-append (x ∷ es) e path o = ground (arith, was_reported-append es e path o)

reports-touched_path :
    (m : PathMap) (path : String) (o : TouchOperation)
    → reports (map touched_path m) path o ≡ saw m path o
reports-touched_path [] path o = refl
reports-touched_path ((k, set) ∷ m) path o = ground (arith, reports-touched_path m path o)

module _ {S R : Type 0} (path : String) (o : TouchOperation) where
  merge_path-saw :
      (raw : ℕ) (k : String) (set : OperationSet) (c : Coordinator S R)
      → saw c.touched_paths path o ≡ true
      → saw (merge_path raw k set c).touched_paths path o ≡ true
  unfolding merge_path
  merge_path-saw raw k set c h = elim (Option-cases (lookup k c.touched_paths)) [
    | inl absent ↦ ground (arith, saw-insert k path set c.touched_paths o absent)
    | inr (old, known) ↦ ground (arith, saw-extend_at k path set c.touched_paths o)
  ]

  merge_paths-saw :
      (raw : ℕ) (m : PathMap) (c : Coordinator S R)
      → saw c.touched_paths path o ≡ true
      → saw (merge_paths raw m c).touched_paths path o ≡ true
  unfolding merge_paths
  merge_paths-saw raw [] c h = h
  merge_paths-saw raw ((k, set) ∷ m) c h =
      merge_paths-saw raw m (merge_path raw k set c) (merge_path-saw raw k set c h)

  arrive-saw :
      (ns : List (List Notification)) (c : Coordinator S R)
      → saw c.touched_paths path o ≡ true
      → saw (arrive ns c).touched_paths path o ≡ true
  unfolding arrive
  arrive-saw [] c h = h
  arrive-saw (n ∷ ns) c h = h

  take_batch-saw :
      (b : AuditBatch × AuditState) (c : Coordinator S R)
      → saw c.touched_paths path o ≡ true
      → saw (take_batch b c).touched_paths path o ≡ true
  unfolding take_batch
  take_batch-saw (b, a) c h = merge_paths-saw b.raw_events b.paths _ h

  -- No drain takes an operation out of the window.
  drain_audit-saw :
      (c : Coordinator S R)
      → saw c.touched_paths path o ≡ true
      → saw (drain_audit c).touched_paths path o ≡ true
  unfolding drain_audit
  drain_audit-saw c h =
      take_batch-saw (drain (arrive c.arrivals c).audit) (arrive c.arrivals c)
        (arrive-saw c.arrivals c h)

module _ {S R : Type 0} (io : Services S R) (log : AcceptsLog io.sink) (path : String)
    (o : TouchOperation) where
  -- The operation at the path is in the window or in the log.
  abbrev pub IsKnown : Coordinator S R → Type 0
  IsKnown c =
      (saw c.touched_paths path o ≡ true) ⊎ (was_reported (log.accepted c.sink) path o ≡ true)

  same-IsKnown :
      (c d : Coordinator S R)
      → IsKnown c
      → d.touched_paths ≡ c.touched_paths
      → log.accepted d.sink ≡ log.accepted c.sink
      → IsKnown d
  same-IsKnown c d (inl w) t l = inl (rw t w)
  same-IsKnown c d (inr r) t l = inr (rw l r)

  grown-IsKnown :
      (e : Event) (c d : Coordinator S R)
      → IsKnown c
      → Logs io log (log.accepted c.sink ++ e ∷ []) c d
      → IsKnown d
  grown-IsKnown e c d (inl w) l = inl (rw l.touched w)
  grown-IsKnown e c d (inr r) l =
      inr (rw (l.accepted, was_reported-append (log.accepted c.sink) e path o, r) refl)

  unchanged :
      (c d : Coordinator S R) → IsKnown c → Logs io log (log.accepted c.sink) c d → IsKnown d
  unchanged c d h l = same-IsKnown c d h l.touched l.accepted

  -- What is in the window that an event writes is in the log after it.
  written-IsKnown :
      (e : Event) (c d : Coordinator S R)
      → reported path o e.body ≡ saw c.touched_paths path o
      → IsKnown c
      → Logs io log (log.accepted c.sink ++ e ∷ []) c d
      → was_reported (log.accepted d.sink) path o ≡ true
  written-IsKnown e c d says (inl w) l =
      rw (l.accepted, was_reported-append (log.accepted c.sink) e path o, says) (ground arith)
  written-IsKnown e c d says (inr r) l =
      rw (l.accepted, was_reported-append (log.accepted c.sink) e path o, r) refl

  exact-IsKnown : (e : Event) (c : Coordinator S R) → IsKnown c → IsKnown (emit_exact io e c).1
  exact-IsKnown e c h =
      After-end (emit_exact io e c) (emit_exact-Logs io log e c) (λ u d l. grown-IsKnown e c d h l)
        (λ d l. unchanged c d h l)

  window-IsKnown : (started : String) → Keeps IsKnown (emit_window io (some started))
  unfolding emit_window after_audit emit reported
  window-IsKnown started = record {
    at = λ c h.
        let e = event_at c.config.session_id c.seq (io.now (c.clock + 1)) (window io started c) in
        let d = tick (tick c) in
        After-resume {P = IsKnown} (emit_exact io e d) (λ _. modify after_audit)
          (emit_exact-Logs io log e d)
          (λ u x l. inr (written-IsKnown e d x (reports-touched_path c.touched_paths path o) h l))
          (λ x l. unchanged d x h l);
  }

  commit-IsKnown : (s : Snapshot) → Keeps IsKnown (commit io s)
  unfolding commit emit_held after_snapshot
  commit-IsKnown s = record { at = λ c h. from c.pending_snapshot_event c h }
    where
      from :
          (held : Option Event) (c : Coordinator S R)
          → IsKnown c
          → IsKnown
              (resume
                (emit_held io held c).0
                (λ _. modify after_snapshot >> pure s)
                (emit_held io held c).1).1
      from none c h = h
      from (some e) c h =
          After-resume {P = IsKnown} (emit_exact io e c) (λ _. modify after_snapshot >> pure s)
            (emit_exact-Logs io log e c) (λ u d l. grown-IsKnown e c d h l)
            (λ d l. unchanged c d h l)

  retry_body-IsKnown :
      (e : Event) (s : Snapshot) (c : Coordinator S R)
      → IsKnown c
      → IsKnown (retry_body io e (EventBody.snapshot s) c).1
  unfolding retry_body after_retry
  retry_body-IsKnown e s c h =
      After-resume {P = IsKnown} (emit_exact io e c) (λ _. modify after_retry >> pure s)
        (emit_exact-Logs io log e c) (λ u d l. grown-IsKnown e c d h l) (λ d l. unchanged c d h l)

  after_capture-IsKnown :
      (a : Result String Snapshot × R) (c : Coordinator S R)
      → IsKnown c
      → IsKnown (after_capture a c).1
  unfolding after_capture
  after_capture-IsKnown (ok s, r) c h = h
  after_capture-IsKnown (err e, r) c h = h

  after_flush-IsKnown :
      (a : Result SinkError Unit × S) (c : Coordinator S R)
      → log.accepted a.1 ≡ log.accepted c.sink
      → IsKnown c
      → IsKnown (after_flush a c).1
  unfolding after_flush
  after_flush-IsKnown (ok u, s) c same h = same-IsKnown c (record c { sink = s }) h refl same
  after_flush-IsKnown (err e, s) c same h = same-IsKnown c (record c { sink = s }) h refl same

  drain_audit-IsKnown : (c : Coordinator S R) → IsKnown c → IsKnown (drain_audit c)
  drain_audit-IsKnown c (inl w) = inl (drain_audit-saw path o c w)
  drain_audit-IsKnown c (inr r) = inr (rw (drain_audit-SameLog c).sink r)

  pub IsKnown-steady : IsSteady io IsKnown
  unfolding capture_tree flush_sink hold_snapshot emit
  IsKnown-steady = record {
    emit = λ body _. record { at = λ c h. exact-IsKnown _ _ h };
    window = window-IsKnown;
    commit = commit-IsKnown;
    retried = λ e s c held is h. retry_body-IsKnown e s c h;
    capture_tree = record { at = λ c h. after_capture-IsKnown _ c h };
    flush_sink =
        λ r. record { at = λ c h. after_flush-IsKnown _ c (log.accepted-flush_session r c.sink) h };
    drain_audit = drain_audit-IsKnown;
    hold_snapshot = λ s c h. h;
    left_with = λ ns c h. h;
  }
