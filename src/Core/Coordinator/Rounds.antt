-- ===== src/Core/Coordinator/Rounds.antt =====
-- One round of the loop `while self.pending_snapshot` of crates/rrjj-core/src/lib.rs.
-- `emit_audit` clears a window only if it has a timestamp, so that is part of the state looked at.
use rrjj.Prelude.{
  ℕ, ◌≤◌, ◌≡◌, ◌≢◌, refl, false, Bool-cases, String, Option, none, some, List, [], ◌∷◌, length, inl,
  inr, ◌==◌,
}
use rrjj.Prelude.Action.{Result, ok, err, pure, modify, ◌>>◌, Ends, Ends-bind, Outcome}
use rrjj.Schema.{Event, EventBody, Snapshot}
use rrjj.Sinks.Error.{SinkError}
use rrjj.Core.PathMap.{PathMap}
use rrjj.Core.Audit.{OverflowNotice, AuditState, Notification, empty_audit}
use rrjj.Core.Coordinator.{
  CoordinatorError, Coordinator, Services, out_of_fuel, after_snapshot, after_audit, left_with,
  tick, overflow_body, emit_exact, after_emit, emit, emit_window, emit_audit, emit_each,
  emit_overflows, capture_tree, after_capture, hold_snapshot, emit_held, drained_snapshot, window,
}

-- The part of the state that the loop depends on.
pub record Work : Type 0 where
  pub touched : PathMap
  pub started : Option String
  pub overflows : List OverflowNotice
  pub audit : AuditState
  pub arrivals : List (List Notification)

unfoldable pub work : {S R : Type 0} → Coordinator S R → Work
work c = record {
  touched = c.touched_paths;
  started = c.audit_started_at;
  overflows = c.pending_overflows;
  audit = c.audit;
  arrivals = c.arrivals;
}

-- An error of the program, not the model's.
abbrev pub IsProper : CoordinatorError → Type 0
IsProper e = e ≢ out_of_fuel

module _ {S R : Type 0} (io : Services S R) where
  after_emit-Ends :
      (P : Work → Type 0) (a : Result SinkError Unit × S) (c : Coordinator S R)
      → P (work c)
      → Outcome IsProper (λ _ d. P (work d)) (after_emit a c).0 (after_emit a c).1
  unfolding after_emit work
  after_emit-Ends P (ok u, s) c p = p
  after_emit-Ends P (err e, s) c p = λ same. cc

  pub emit_exact-Ends :
      (P : Work → Type 0) (e : Event)
      → Ends IsProper (λ c. P (work c)) (emit_exact io e) (λ _ c. P (work c))
  unfolding emit_exact
  emit_exact-Ends P e = record {
    at = λ c p. elim (Bool-cases (e.seq == c.seq)) [
      | inl same ↦ rw same (after_emit-Ends P (io.sink.emit e c.sink) c p)
      | inr other ↦ rw other (λ same. cc)
    ];
  }

  emit-Ends :
      (P : Work → Type 0) (body : EventBody)
      → Ends IsProper (λ c. P (work c)) (emit io body) (λ _ c. P (work c))
  unfolding emit work
  emit-Ends P body = record { at = λ c p. (emit_exact-Ends P _).at (tick c) p }

-- Everything that the watcher noted has been taken over, and `n` more batches will come at most.
pub record IsDrained (n : ℕ) (w : Work) : Type 0 where
  pub stamped : w.touched ≢ [] → w.started ≢ none
  pub audit : w.audit ≡ empty_audit
  pub few : length w.arrivals ≤ n

pub record IsCleared (n : ℕ) (w : Work) : Type 0 where
  pub touched : w.touched ≡ []
  pub overflows : w.overflows ≡ []
  pub audit : w.audit ≡ empty_audit
  pub few : length w.arrivals ≤ n

untouched :
    (m : PathMap) {started : Option String} → (m ≢ [] → started ≢ none) → started ≡ none → m ≡ []
untouched [] h e = refl
untouched (x ∷ m) h e = absurd (h (λ q. cc) e)

module _ {S R : Type 0} (io : Services S R) (n : ℕ) where
  emit_each-Ends :
      (ns : List OverflowNotice)
      → Ends IsProper
          (λ (c : Coordinator S R). IsDrained n (work c) × ((work c).overflows ≡ ns))
          (emit_each io ns)
          (λ _ (c : Coordinator S R). IsDrained n (work c) × ((work c).overflows ≡ []))
  unfolding emit_each
  emit_each-Ends [] = record { at = λ c p. p }
  emit_each-Ends (x ∷ ns) =
      Ends-bind (λ _ (c : Coordinator S R). IsDrained n (work c) × ((work c).overflows ≡ x ∷ ns))
        (emit io (overflow_body x)) _
        (emit-Ends io (λ w. IsDrained n w × (w.overflows ≡ x ∷ ns)) (overflow_body x))
        (λ _.
          Ends-bind (λ _ (c : Coordinator S R). IsDrained n (work c) × ((work c).overflows ≡ ns))
            (modify (left_with ns)) (λ _. emit_each io ns)
            (record {
              at = λ c p.
                  unfold work in
                  (record { stamped = p.0.stamped; audit = p.0.audit; few = p.0.few }, refl);
            })
            (λ _. emit_each-Ends ns))

  after_audit-IsCleared :
      (d : Coordinator S R)
      → IsDrained n (work d) × ((work d).overflows ≡ [])
      → IsCleared n (work (after_audit d))
  unfolding work after_audit
  after_audit-IsCleared d q = record {
    touched = refl;
    overflows = q.1;
    audit = q.0.audit;
    few = q.0.few;
  }

  clear-Ends :
      Ends {E = CoordinatorError} IsProper
        (λ (d : Coordinator S R). IsDrained n (work d) × ((work d).overflows ≡ []))
        (modify after_audit)
        (λ _ (c : Coordinator S R). IsCleared n (work c))
  clear-Ends = record { at = after_audit-IsCleared }

  emit_window-Ends :
      (started : Option String)
      → Ends IsProper
          (λ (c : Coordinator S R).
            IsDrained n (work c) × ((work c).overflows ≡ []) × ((work c).started ≡ started))
          (emit_window io started)
          (λ _ (c : Coordinator S R). IsCleared n (work c))
  unfolding emit_window
  emit_window-Ends none = record {
    at = λ c p. record {
      touched = untouched _ p.0.stamped p.2;
      overflows = p.1;
      audit = p.0.audit;
      few = p.0.few;
    };
  }
  emit_window-Ends (some started) = record {
    at = λ c p.
        let emitting =
          Ends-bind (λ _ d. IsDrained n (work d) × ((work d).overflows ≡ []))
            (emit io (window io started c)) (λ _. modify after_audit)
            (emit-Ends io (λ w. IsDrained n w × (w.overflows ≡ [])) (window io started c))
            (λ _. clear-Ends) in
        emitting.at (tick c) (
          unfold work in (record { stamped = p.0.stamped; audit = p.0.audit; few = p.0.few }, p.1));
  }

  after_capture-Ends :
      (a : Result String Snapshot × R) (c : Coordinator S R)
      → IsCleared n (work c)
      → Outcome IsProper (λ _ d. IsCleared n (work d)) (after_capture a c).0 (after_capture a c).1
  unfolding after_capture work
  after_capture-Ends (ok s, r) c p = record {
    touched = p.touched;
    overflows = p.overflows;
    audit = p.audit;
    few = p.few;
  }
  after_capture-Ends (err e, r) c p = λ same. cc

  capture_tree-Ends :
      Ends IsProper
        (λ (c : Coordinator S R). IsCleared n (work c))
        (capture_tree io)
        (λ _ (c : Coordinator S R). IsCleared n (work c))
  unfolding capture_tree
  capture_tree-Ends = record { at = λ c p. after_capture-Ends _ c p }

  emit_held-Ends :
      Ends IsProper
        (λ (c : Coordinator S R). IsCleared n (work c))
        (λ c. emit_held io c.pending_snapshot_event c)
        (λ _ (c : Coordinator S R). IsCleared n (work c))
  unfolding emit_held
  emit_held-Ends = record { at = λ c p. from c.pending_snapshot_event c p }
    where
      from :
          (e : Option Event) (c : Coordinator S R)
          → IsCleared n (work c)
          → Outcome IsProper (λ _ d. IsCleared n (work d)) (emit_held io e c).0 (emit_held io e c).1
      from none c p = λ same. cc
      from (some e) c p = (emit_exact-Ends io (IsCleared n) e).at c p

  -- After a snapshot that was accepted nothing is pending.
  pub record IsQuiet (c : Coordinator S R) : Type 0 where
    pub cleared : IsCleared n (work c)
    pub idle : c.pending_snapshot ≡ false
    pub released : c.pending_snapshot_event ≡ none

  done_lem :
      (s : Snapshot)
      → Ends {E = CoordinatorError} IsProper
          (λ (c : Coordinator S R). IsCleared n (work c))
          (modify after_snapshot >> pure s)
          (λ _ (c : Coordinator S R). IsQuiet c)
  unfolding after_snapshot work
  done_lem s = record {
    at = λ c p. record {
      cleared = record {
        touched = p.touched;
        overflows = p.overflows;
        audit = p.audit;
        few = p.few;
      };
      idle = refl;
      released = refl;
    };
  }

  hold-Ends :
      (s : Snapshot)
      → Ends {E = CoordinatorError} IsProper
          (λ (c : Coordinator S R). IsCleared n (work c))
          (modify (hold_snapshot io s))
          (λ _ (c : Coordinator S R). IsCleared n (work c))
  unfolding hold_snapshot work
  hold-Ends s = record {
    at = λ c p. record {
      touched = p.touched;
      overflows = p.overflows;
      audit = p.audit;
      few = p.few;
    };
  }

  emit_overflows-Ends :
      Ends IsProper
        (λ (c : Coordinator S R). IsDrained n (work c))
        (emit_overflows io)
        (λ _ (c : Coordinator S R). IsDrained n (work c) × ((work c).overflows ≡ []))
  unfolding emit_overflows work
  emit_overflows-Ends = record { at = λ c p. (emit_each-Ends c.pending_overflows).at c (p, refl) }

  emit_audit-Ends :
      Ends IsProper
        (λ (c : Coordinator S R). IsDrained n (work c) × ((work c).overflows ≡ []))
        (emit_audit io)
        (λ _ (c : Coordinator S R). IsCleared n (work c))
  unfolding emit_audit work
  emit_audit-Ends = record {
    at = λ c p. (emit_window-Ends c.audit_started_at).at c (p.0, p.1, refl);
  }

  -- `fresh_snapshot` after its first step
  pub drained_snapshot-Ends :
      Ends IsProper
        (λ (c : Coordinator S R). IsDrained n (work c))
        (drained_snapshot io)
        (λ _ (c : Coordinator S R). IsQuiet c)
  unfolding drained_snapshot
  drained_snapshot-Ends =
      Ends-bind (λ _ (c : Coordinator S R). IsDrained n (work c) × ((work c).overflows ≡ []))
        (emit_overflows io) _ emit_overflows-Ends
        λ _.
          Ends-bind (λ _ (c : Coordinator S R). IsCleared n (work c)) (emit_audit io) _
            emit_audit-Ends
            λ _.
              Ends-bind (λ _ (c : Coordinator S R). IsCleared n (work c)) (capture_tree io) _
                capture_tree-Ends
                λ s.
                  Ends-bind (λ _ (c : Coordinator S R). IsCleared n (work c))
                    (modify (hold_snapshot io s)) _ (hold-Ends s)
                    λ _.
                      Ends-bind (λ _ (c : Coordinator S R). IsCleared n (work c))
                        (λ c. emit_held io c.pending_snapshot_event c) _ emit_held-Ends
                        λ _. done_lem s
