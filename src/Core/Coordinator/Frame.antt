-- ===== src/Core/Coordinator/Frame.antt =====
-- What `drain_audit` of Core/Coordinator leaves alone.
use rrjj.Prelude.{ℕ, ◌≡◌, refl, ◌∙◌, String, List, [], ◌∷◌, arith}
use rrjj.Core.PathMap.{PathMap, OperationSet}
use rrjj.Core.Audit.{Notification, AuditBatch, AuditState}
use rrjj.Core.Coordinator.{Coordinator, arrive, merge_path, merge_paths, take_batch, drain_audit}

module _ {S R : Type 0} where
  pub record SameLog (c d : Coordinator S R) : Type 0 where
    pub config : d.config ≡ c.config
    pub sink : d.sink ≡ c.sink
    pub recorder : d.recorder ≡ c.recorder
    pub seq : d.seq ≡ c.seq
    pub snapshots : d.snapshots ≡ c.snapshots
    pub held : d.pending_snapshot_event ≡ c.pending_snapshot_event
    pub paused : d.paused ≡ c.paused

  SameLog-refl : (c : Coordinator S R) → SameLog c c
  SameLog-refl c = record {
    config = refl;
    sink = refl;
    recorder = refl;
    seq = refl;
    snapshots = refl;
    held = refl;
    paused = refl;
  }

  SameLog-trans : {c d e : Coordinator S R} → SameLog c d → SameLog d e → SameLog c e
  SameLog-trans p q = record {
    config = q.config ∙ p.config;
    sink = q.sink ∙ p.sink;
    recorder = q.recorder ∙ p.recorder;
    seq = q.seq ∙ p.seq;
    snapshots = q.snapshots ∙ p.snapshots;
    held = q.held ∙ p.held;
    paused = q.paused ∙ p.paused;
  }

  arrive-SameLog : (ns : List (List Notification)) (c : Coordinator S R) → SameLog c (arrive ns c)
  unfolding arrive
  arrive-SameLog [] c = SameLog-refl c
  arrive-SameLog (n ∷ ns) c = record {
    config = refl;
    sink = refl;
    recorder = refl;
    seq = refl;
    snapshots = refl;
    held = refl;
    paused = refl;
  }

  merge_path-SameLog :
      (raw : ℕ) (path : String) (ops : OperationSet) (c : Coordinator S R)
      → SameLog c (merge_path raw path ops c)
  unfolding merge_path
  merge_path-SameLog raw path ops c = ground arith

  merge_paths-SameLog :
      (raw : ℕ) (m : PathMap) (c : Coordinator S R) → SameLog c (merge_paths raw m c)
  unfolding merge_paths
  merge_paths-SameLog raw [] c = SameLog-refl c
  merge_paths-SameLog raw ((path, ops) ∷ m) c =
      SameLog-trans (merge_path-SameLog raw path ops c)
        (merge_paths-SameLog raw m (merge_path raw path ops c))

  take_batch-SameLog :
      (b : AuditBatch × AuditState) (c : Coordinator S R) → SameLog c (take_batch b c)
  unfolding take_batch
  take_batch-SameLog (batch, audit) c =
      let m = merge_paths-SameLog batch.raw_events batch.paths _ in
      record {
        config = m.config;
        sink = m.sink;
        recorder = m.recorder;
        seq = m.seq;
        snapshots = m.snapshots;
        held = m.held;
        paused = m.paused;
      }

  pub drain_audit-SameLog : (c : Coordinator S R) → SameLog c (drain_audit c)
  unfolding drain_audit
  drain_audit-SameLog c =
      SameLog-trans (arrive-SameLog c.arrivals c) (take_batch-SameLog _ (arrive c.arrivals c))
