-- ===== src/Core/Coordinator/Emitting.antt =====
-- What `emit_exact` of crates/rrjj-core/src/lib.rs changes, when it returns and when it fails.
use rrjj.Prelude.{◌==◌, ◌≡◌, refl, Bool-cases, inl, inr, List, [], ◌∷◌, ◌++◌}
use rrjj.Prelude.Action.{Result, ok, err, After}
use rrjj.Schema.{Event}
use rrjj.Sinks.Error.{SinkError}
use rrjj.Sinks.Traits.{AcceptsLog, log_after}
use rrjj.Core.Coordinator.{Coordinator, Services, after_emit, emit_exact}

module _ {S R : Type 0} (io : Services S R) (log : AcceptsLog io.sink) where
  -- The log went from the first state's to this one, and the rest is as it was.
  pub record Logs (events : List Event) (c d : Coordinator S R) : Type 0 where
    pub snapshots : d.snapshots ≡ c.snapshots
    pub held : d.pending_snapshot_event ≡ c.pending_snapshot_event
    pub touched : d.touched_paths ≡ c.touched_paths
    pub accepted : log.accepted d.sink ≡ events

  after_emit-Logs :
      (e : Event) (a : Result SinkError Unit × S) (c : Coordinator S R)
      → log.accepted a.1 ≡ log_after a.0 e (log.accepted c.sink)
      → After
          (λ _ d. Logs (log.accepted c.sink ++ e ∷ []) c d)
          (λ d. Logs (log.accepted c.sink) c d)
          (after_emit a c)
  unfolding after_emit
  after_emit-Logs e (ok u, s) c h = record {
    snapshots = refl;
    held = refl;
    touched = refl;
    accepted = h;
  }
  after_emit-Logs e (err x, s) c h = record {
    snapshots = refl;
    held = refl;
    touched = refl;
    accepted = h;
  }

  pub emit_exact-Logs :
      (e : Event) (c : Coordinator S R)
      → After
          (λ _ d. Logs (log.accepted c.sink ++ e ∷ []) c d)
          (λ d. Logs (log.accepted c.sink) c d)
          (emit_exact io e c)
  unfolding emit_exact
  emit_exact-Logs e c = elim (Bool-cases (e.seq == c.seq)) [
    | inl same ↦ rw same (after_emit-Logs e (io.sink.emit e c.sink) c (log.accepted-emit e c.sink))
    | inr other ↦
        rw other (record { snapshots = refl; held = refl; touched = refl; accepted = refl })
  ]
