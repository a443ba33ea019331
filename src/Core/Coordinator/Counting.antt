-- ===== src/Core/Coordinator/Counting.antt =====
-- The counter `snapshots` of crates/rrjj-core/src/lib.rs and the snapshot events of the log.
use rrjj.Prelude.{
  ℕ, suc, ◌+◌, ◌≡◌, refl, ap, true, false, Option, none, some, String, List, [], ◌∷◌, ◌++◌, arith,
  wrap64, if◌then◌else◌,
}
use rrjj.Prelude.Action.{
  Result, ok, err, Keeps, resume, After-end, After-resume, modify, pure, ◌>>◌,
}
use rrjj.Schema.{Event, EventBody, Snapshot, is_snapshot, event_at}
use rrjj.Sinks.Error.{SinkError}
use rrjj.Sinks.Traits.{AcceptsLog}
use rrjj.Core.Coordinator.{
  Coordinator, Services, emit_exact, emit, emit_window, after_audit, after_snapshot, after_retry,
  retry_body, commit, emit_held, capture_tree, after_capture, flush_sink, after_flush,
  hold_snapshot, window, tick,
}
use rrjj.Core.Coordinator.Frame.{drain_audit-SameLog}
use rrjj.Core.Coordinator.Invariants.{IsSteady}
use rrjj.Core.Coordinator.Emitting.{Logs, emit_exact-Logs}

-- The number of snapshot events of a log.
unfoldable pub count_snapshots : List Event → ℕ
count_snapshots [] = 0
count_snapshots (e ∷ es) =
    let rest = count_snapshots es in if is_snapshot e.body then suc rest else rest

count_snapshots-append :
    (es : List Event) (e : Event)
    → count_snapshots (es ++ e ∷ []) ≡ count_snapshots es + (if is_snapshot e.body then 1 else 0)
unfolding count_snapshots
count_snapshots-append [] e = ground arith
count_snapshots-append (x ∷ es) e = ground (arith, count_snapshots-append es e)

-- A retained event is a snapshot.
abbrev pub HeldSnapshot : Option Event → Type 0
HeldSnapshot none = Unit
HeldSnapshot (some e) = is_snapshot e.body ≡ true

module _ {S R : Type 0} (io : Services S R) (log : AcceptsLog io.sink) where
  pub record IsCounted (c : Coordinator S R) : Type 0 where
    pub counted : c.snapshots ≡ wrap64 (count_snapshots (log.accepted c.sink))
    pub held : HeldSnapshot c.pending_snapshot_event

  -- The counter after one more snapshot in the log
  counts_one :
      (e : Event) (c d : Coordinator S R)
      → is_snapshot e.body ≡ true
      → IsCounted c
      → Logs io log (log.accepted c.sink ++ e ∷ []) c d
      → wrap64 (d.snapshots + 1) ≡ wrap64 (count_snapshots (log.accepted d.sink))
  counts_one e c d is h l =
      rw (l.accepted, l.snapshots, count_snapshots-append (log.accepted c.sink) e, is)
        (omega (arith, h.counted))

  counts_none :
      (e : Event) (c d : Coordinator S R)
      → is_snapshot e.body ≡ false
      → IsCounted c
      → Logs io log (log.accepted c.sink ++ e ∷ []) c d
      → IsCounted d
  counts_none e c d is h l = record {
    counted =
        rw (l.accepted, l.snapshots, count_snapshots-append (log.accepted c.sink) e, is)
          (omega (arith, h.counted));
    held = rw l.held h.held;
  }

  unchanged :
      (c d : Coordinator S R) → IsCounted c → Logs io log (log.accepted c.sink) c d → IsCounted d
  unchanged c d h l = record {
    counted = rw (l.accepted, l.snapshots) h.counted;
    held = rw l.held h.held;
  }

  same_log :
      {c d : Coordinator S R}
      → IsCounted c
      → d.snapshots ≡ c.snapshots
      → log.accepted d.sink ≡ log.accepted c.sink
      → HeldSnapshot d.pending_snapshot_event
      → IsCounted d
  same_log h n l held = record { counted = rw (n, l) h.counted; held = held }

  ticked : (c : Coordinator S R) → IsCounted c → IsCounted (tick c)
  ticked c h = same_log h refl refl h.held

  emit-IsCounted : (body : EventBody) → is_snapshot body ≡ false → Keeps IsCounted (emit io body)
  unfolding emit
  emit-IsCounted body plain = record {
    at = λ c h.
        let e = event_at c.config.session_id c.seq (io.now c.clock) body in
        After-end (emit_exact io e (tick c)) (emit_exact-Logs io log e (tick c))
          (λ u d l. counts_none e (tick c) d plain (ticked c h) l)
          (λ d l. unchanged (tick c) d (ticked c h) l);
  }

  window-IsCounted : (started : String) → Keeps IsCounted (emit_window io (some started))
  unfolding emit_window after_audit emit
  window-IsCounted started = record {
    at = λ c h.
        let e = event_at c.config.session_id c.seq (io.now (c.clock + 1)) (window io started c) in
        let twice = ticked (tick c) (ticked c h) in
        After-resume {P = IsCounted} (emit_exact io e (tick (tick c))) (λ _. modify after_audit)
          (emit_exact-Logs io log e (tick (tick c)))
          (λ u d l.
            let k = counts_none e (tick (tick c)) d refl twice l in same_log k refl refl k.held)
          (λ d l. unchanged (tick (tick c)) d twice l);
  }

  commit-IsCounted : (s : Snapshot) → Keeps IsCounted (commit io s)
  unfolding commit emit_held after_snapshot
  commit-IsCounted s = record { at = λ c h. from c.pending_snapshot_event c h.held h }
    where
      from :
          (o : Option Event) (c : Coordinator S R)
          → HeldSnapshot o
          → IsCounted c
          → IsCounted
              (resume
                (emit_held io o c).0
                (λ _. modify after_snapshot >> pure s)
                (emit_held io o c).1).1
      from none c is h = h
      from (some e) c is h =
          After-resume {P = IsCounted} (emit_exact io e c) (λ _. modify after_snapshot >> pure s)
            (emit_exact-Logs io log e c)
            (λ u d l. record { counted = counts_one e c d is h l; held = tt })
            (λ d l. unchanged c d h l)

  after_capture-IsCounted :
      (a : Result String Snapshot × R) (c : Coordinator S R)
      → IsCounted c
      → IsCounted (after_capture a c).1
  unfolding after_capture
  after_capture-IsCounted (ok s, r) c h = same_log h refl refl h.held
  after_capture-IsCounted (err e, r) c h = same_log h refl refl h.held

  after_flush-IsCounted :
      (a : Result SinkError Unit × S) (c : Coordinator S R)
      → log.accepted a.1 ≡ log.accepted c.sink
      → IsCounted c
      → IsCounted (after_flush a c).1
  unfolding after_flush
  after_flush-IsCounted (ok u, s) c same h = same_log h refl same h.held
  after_flush-IsCounted (err e, s) c same h = same_log h refl same h.held

  retry_body-IsCounted :
      (e : Event) (s : Snapshot) (c : Coordinator S R)
      → e.body ≡ EventBody.snapshot s
      → IsCounted c
      → IsCounted (retry_body io e (EventBody.snapshot s) c).1
  unfolding retry_body after_retry
  retry_body-IsCounted e s c is h =
      After-resume {P = IsCounted} (emit_exact io e c) (λ _. modify after_retry >> pure s)
        (emit_exact-Logs io log e c)
        (λ u d l. record { counted = counts_one e c d (ap is_snapshot is) h l; held = tt })
        (λ d l. unchanged c d h l)

  pub IsCounted-steady : IsSteady io IsCounted
  unfolding capture_tree flush_sink hold_snapshot
  IsCounted-steady = record {
    emit = emit-IsCounted;
    window = window-IsCounted;
    commit = commit-IsCounted;
    retried = λ e s c held is h. retry_body-IsCounted e s c is h;
    capture_tree = record { at = λ c h. after_capture-IsCounted _ c h };
    flush_sink = λ r. record {
      at = λ c h. after_flush-IsCounted _ c (log.accepted-flush_session r c.sink) h;
    };
    drain_audit = λ c h.
        let same = drain_audit-SameLog c in
        same_log h same.snapshots (ap log.accepted same.sink) (rw same.held h.held);
    hold_snapshot = λ s c h. same_log h refl refl refl;
    left_with = λ ns c h. same_log h refl refl h.held;
  }
