-- ===== src/Core/Coordinator/Writing.antt =====
-- That `self.drain_audit()` and the loop after it, in crates/rrjj-core/src/lib.rs, write what was noted.
use rrjj.Prelude.{
  refl, ap, true, false, ◌≢◌, not, ◌||◌, sym, ◌∙◌, inl, inr, Bool, Bool-cases, [], arith, ◌≡◌,
  subst, String,
}
use rrjj.Prelude.Action.{Result, ok, err, Action, Keeps, Outcome}
use rrjj.Schema.{TouchOperation}
use rrjj.Sinks.Traits.{AcceptsLog}
use rrjj.Core.Coordinator.{
  Coordinator, CoordinatorError, Services, drain_audit, rounds, settle_audit,
}
use rrjj.Core.Coordinator.Invariants.{settle-Keeps}
use rrjj.Core.Coordinator.Reporting.{IsKnown, IsKnown-steady}
use rrjj.Core.Coordinator.Rounds.{IsProper}
use rrjj.Core.Coordinator.Settling.{IsStarted, IsSettled, Settles, settle_audit-Settles}
use rrjj.Core.PathMap.Covers.{saw}
use rrjj.Core.Coordinator.{arrive}
use rrjj.Core.Coordinator.Limits.{saw-drain_audit}
use rrjj.Core.Coordinator.Reporting.{was_reported}

differ : true ≢ false
differ e = cc

-- What the window held, or the accumulator at the next look at it
abbrev pub was_noted : {S R : Type 0} → Coordinator S R → String → TouchOperation → Bool
was_noted c path o =
    saw (arrive c.arrivals c).touched_paths path o || saw (arrive c.arrivals c).audit.paths path o

module _ {S R : Type 0} (io : Services S R) (log : AcceptsLog io.sink) where
  -- Every operation at a path that waited in the first state, in the window or in the accumulator, is
  -- in an event of the log of the second, unless the coordinator met its limit on paths.
  pub record AreReported (c d : Coordinator S R) : Type 0 where
    pub at :
        (path : String) (o : TouchOperation)
        → ((drain_audit c).path_limit_reported
            || (not (was_noted c path o) || was_reported (log.accepted d.sink) path o))
          ≡ true

  drained-IsKnown :
      (c : Coordinator S R) (path : String) (o : TouchOperation)
      → (drain_audit c).path_limit_reported ≡ false
      → was_noted c path o ≡ true
      → IsKnown io log path o (drain_audit c)
  drained-IsKnown c path o room noted = inl (saw-drain_audit c path o room ∙ noted)

  settled_reported :
      (c d : Coordinator S R) (path : String) (o : TouchOperation)
      → d.touched_paths ≡ []
      → IsKnown io log path o d
      → was_reported (log.accepted d.sink) path o ≡ true
  settled_reported c d path o empty (inl w) = absurd (differ (sym w ∙ ap (λ m. saw m path o) empty))
  settled_reported c d path o empty (inr r) = r

  -- When what the drain found is known in a settled state, it is in the log.
  pub known_reported :
      (c d : Coordinator S R)
      → d.touched_paths ≡ []
      → ((path : String) (o : TouchOperation)
          → IsKnown io log path o (drain_audit c)
          → IsKnown io log path o d)
      → AreReported c d
  known_reported c d empty keep = record {
    at = λ path o. elim (Bool-cases (drain_audit c).path_limit_reported) [
      | inl limited ↦ rw limited refl
      | inr room ↦ elim (Bool-cases (was_noted c path o)) [
        | inl noted ↦ ground (
          arith,
          settled_reported c d path o empty (keep path o (drained-IsKnown c path o room noted)),
        )
        | inr other ↦ rw other (ground arith)
      ]
    ];
  }

-- What a step keeps holds in the state that it leaves.
pub Keeps-eq :
    {S E A : Type 0} {P : S → Type 0} (m : Action S E A) (s : S) {r : Result E A} {t : S}
    → Keeps P m
    → m s ≡ (r, t)
    → P s
    → P t
Keeps-eq {P = P} m s k h p = subst (λ x. P x.1) h (k.at s p)

module _ {S R : Type 0} (io : Services S R) (log : AcceptsLog io.sink) where
  settled-IsKnown :
      (path : String) (o : TouchOperation) (c : Coordinator S R)
      → IsKnown io log path o (drain_audit c)
      → IsKnown io log path o (settle_audit io c).1
  unfolding settle_audit
  settled-IsKnown path o c h =
      (settle-Keeps io (IsKnown-steady io log path o) (rounds c)).at (drain_audit c) h

  -- How a run of the loop ends, and what it has written.
  abbrev pub Writes : Coordinator S R → Result CoordinatorError Unit × Coordinator S R → Type 0
  Writes c r =
      Outcome IsProper (λ _ (d : Coordinator S R). IsSettled d × AreReported io log c d) r.0 r.1

  outcome :
      (c : Coordinator S R) (r : Result CoordinatorError Unit × Coordinator S R)
      → Settles io r
      → ((path : String) (o : TouchOperation)
          → IsKnown io log path o (drain_audit c)
          → IsKnown io log path o r.1)
      → Writes c r
  outcome c (ok u, d) s keep = (s, known_reported io log c d s.touched keep)
  outcome c (err e, d) s keep = s

  pub settle_audit-Writes : (c : Coordinator S R) → IsStarted c → Writes c (settle_audit io c)
  settle_audit-Writes c h =
      outcome c (settle_audit io c) (settle_audit-Settles io c h)
        (λ path o. settled-IsKnown path o c)

  pub settle_audit-ok :
      (c m : Coordinator S R)
      → IsStarted c
      → settle_audit io c ≡ (ok tt, m)
      → IsSettled m × AreReported io log c m
  settle_audit-ok c m h e = subst (Writes c) e (settle_audit-Writes c h)

  settled_at :
      (c m : Coordinator S R)
      → settle_audit io c ≡ (ok tt, m)
      → (path : String) (o : TouchOperation) → IsKnown io log path o (drain_audit c)
      → IsKnown io log path o m
  settled_at c m e path o k =
      subst (λ (r : Result CoordinatorError Unit × Coordinator S R). IsKnown io log path o r.1) e
        (settled-IsKnown path o c k)

  -- What the loop has written stays written by what follows it.
  pub written_after :
      (c m d : Coordinator S R)
      → settle_audit io c ≡ (ok tt, m)
      → IsSettled d
      → ((path : String) (o : TouchOperation) → IsKnown io log path o m → IsKnown io log path o d)
      → AreReported io log c d
  written_after c m d e settled keep =
      known_reported io log c d settled.touched
        (λ path o k. keep path o (settled_at c m e path o k))
