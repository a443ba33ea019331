-- ===== src/Core/Coordinator/Limits.antt =====
-- What a drain of the audit accumulator carries over.
use rrjj.Prelude.{
  ℕ, ◌≡◌, ◌≢◌, sym, ◌∙◌, true, false, ◌||◌, ◌&&◌, Bool-cases, Option-cases, String, str_eq, [], ◌∷◌,
  arith, inl, inr,
}
use rrjj.Schema.{TouchOperation}
use rrjj.Core.PathMap.{PathMap, OperationSet, lookup}
use rrjj.Core.PathMap.Covers.{has, saw, saw-insert, saw-extend_at}
use rrjj.Core.Audit.{drain}
use rrjj.Core.Coordinator.{Coordinator, arrive, merge_path, merge_paths, take_batch, drain_audit}

differ : true ≢ false
differ e = cc

module _ {S R : Type 0} where
  saw-merge_path :
      (raw : ℕ) (k : String) (set : OperationSet) (c : Coordinator S R) (path : String)
      (o : TouchOperation)
      → (merge_path raw k set c).path_limit_reported ≡ false
      → saw (merge_path raw k set c).touched_paths path o
        ≡ (saw c.touched_paths path o || (str_eq k path && has o set))
  unfolding merge_path
  saw-merge_path raw k set c path o h = elim (Option-cases (lookup k c.touched_paths)) [
    | inl absent ↦ ground (arith, saw-insert k path set c.touched_paths o absent)
    | inr (old, known) ↦ ground (arith, saw-extend_at k path set c.touched_paths o)
  ]

  limited-merge_paths :
      (raw : ℕ) (m : PathMap) (c : Coordinator S R)
      → c.path_limit_reported ≡ true
      → (merge_paths raw m c).path_limit_reported ≡ true
  unfolding merge_paths merge_path
  limited-merge_paths raw [] c h = h
  limited-merge_paths raw ((k, set) ∷ m) c h =
      limited-merge_paths raw m (merge_path raw k set c) (ground arith)

  saw-merge_paths :
      (raw : ℕ) (m : PathMap) (c : Coordinator S R) (path : String) (o : TouchOperation)
      → (merge_paths raw m c).path_limit_reported ≡ false
      → saw (merge_paths raw m c).touched_paths path o
        ≡ (saw c.touched_paths path o || saw m path o)
  unfolding merge_paths
  saw-merge_paths raw [] c path o h = ground arith
  saw-merge_paths raw ((k, set) ∷ m) c path o h =
      elim (Bool-cases (merge_path raw k set c).path_limit_reported) [
        | inl closed ↦
            absurd (differ (sym (limited-merge_paths raw m (merge_path raw k set c) closed) ∙ h))
        | inr open_ ↦ ground (
          arith,
          saw-merge_path raw k set c path o open_,
          saw-merge_paths raw m (merge_path raw k set c) path o h,
        )
      ]

  -- Unless the coordinator reports its limit on paths, the window holds after a drain exactly what it
  -- held before and what the accumulator holds: nothing is lost on the way and nothing invented.
  pub saw-drain_audit :
      (c : Coordinator S R) (path : String) (o : TouchOperation)
      → (drain_audit c).path_limit_reported ≡ false
      → saw (drain_audit c).touched_paths path o ≡ (
          saw (arrive c.arrivals c).touched_paths path o
          || saw (arrive c.arrivals c).audit.paths path o)
  unfolding drain_audit take_batch drain
  saw-drain_audit c path o h =
      let a = arrive c.arrivals c in saw-merge_paths a.audit.raw_events a.audit.paths _ path o h
