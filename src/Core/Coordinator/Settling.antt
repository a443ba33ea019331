-- ===== src/Core/Coordinator/Settling.antt =====
-- The loop `while self.pending_snapshot` of crates/rrjj-core/src/lib.rs, from its drain to its end.
use rrjj.Prelude.{
  ℕ, zero, suc, ◌+◌, ◌≤◌, ◌≡◌, ◌≢◌, refl, ap, sym, ◌∙◌, Bool, true, false, String, Option, none,
  some, List, [], ◌∷◌, arith, length,
}
use rrjj.Prelude.Action.{Result, Action, modify, when, ◌>>=◌, ◌>>◌, Ends, Ends-bind, Outcome}
use rrjj.Schema.{Event, EventBody}
use rrjj.Core.PathMap.{PathMap, OperationSet}
use rrjj.Core.Audit.{AuditState, Notification, empty_audit, drain}
use rrjj.Core.Audit.Bounds.{IsTimed, notify_all-IsTimed, empty_audit-IsTimed}
use rrjj.Core.Coordinator.{
  CoordinatorError, Coordinator, Services, drain_audit, after_retry, rounds, emit_exact,
  drained_snapshot, fresh_snapshot, retry_body, retry_snapshot, snapshot_from, snapshot, settle,
  settle_audit, arrive, merge_path, merge_paths, take_batch, or_started,
}
use rrjj.Core.Coordinator.Frame.{drain_audit-SameLog}
use rrjj.Core.Coordinator.Rounds.{
  work, IsDrained, IsCleared, IsQuiet, IsProper, drained_snapshot-Ends, emit_exact-Ends,
}

module _ {S R : Type 0} where
  -- The window has a timestamp if it has a path, and so has the accumulator.
  pub record IsStarted (c : Coordinator S R) : Type 0 where
    pub stamped : c.touched_paths ≢ [] → c.audit_started_at ≢ none
    pub timed : IsTimed c.audit

  pub record SameWindow (c d : Coordinator S R) : Type 0 where
    pub started : d.audit_started_at ≡ c.audit_started_at
    pub audit : d.audit ≡ c.audit
    pub arrivals : d.arrivals ≡ c.arrivals
    pub pending : d.pending_snapshot ≡ c.pending_snapshot

  merge_path-SameWindow :
      (raw : ℕ) (path : String) (ops : OperationSet) (c : Coordinator S R)
      → SameWindow c (merge_path raw path ops c)
  unfolding merge_path
  merge_path-SameWindow raw path ops c = ground arith

  merge_paths-SameWindow :
      (raw : ℕ) (m : PathMap) (c : Coordinator S R) → SameWindow c (merge_paths raw m c)
  unfolding merge_paths
  merge_paths-SameWindow raw [] c = record {
    started = refl;
    audit = refl;
    arrivals = refl;
    pending = refl;
  }
  merge_paths-SameWindow raw ((path, ops) ∷ m) c =
      let here = merge_path-SameWindow raw path ops c in
      let rest = merge_paths-SameWindow raw m (merge_path raw path ops c) in
      record {
        started = rest.started ∙ here.started;
        audit = rest.audit ∙ here.audit;
        arrivals = rest.arrivals ∙ here.arrivals;
        pending = rest.pending ∙ here.pending;
      }

  merged-stamped :
      (raw : ℕ) (m : PathMap) (c : Coordinator S R) (b : Option String) (a : AuditState)
      → (m ≢ [] → b ≢ none)
      → (c.touched_paths ≢ [] → c.audit_started_at ≢ none)
      → (merge_paths raw m (record c {
        audit = a;
        audit_started_at = or_started c.audit_started_at b;
      })).touched_paths
        ≢ []
      → or_started c.audit_started_at b ≢ none
  unfolding merge_paths
  merged-stamped raw [] c b a hb hc ne = ground (arith, hc ne)
  merged-stamped raw (x ∷ m) c b a hb hc ne = ground (arith, hb (λ q. cc))

  arrive-IsStarted :
      (ns : List (List Notification)) (c : Coordinator S R) → IsStarted c → IsStarted (arrive ns c)
  unfolding arrive
  arrive-IsStarted [] c h = h
  arrive-IsStarted (n ∷ ns) c h = record {
    stamped = h.stamped;
    timed = notify_all-IsTimed n c.audit h.timed;
  }

  -- the state in which the loop of `drain_audit` starts
  abbrev emptied : Coordinator S R → Coordinator S R
  emptied c = record c {
    audit = empty_audit;
    audit_started_at = or_started c.audit_started_at c.audit.started_at;
  }

  drained_window :
      (c : Coordinator S R)
      → SameWindow (emptied c) (merge_paths c.audit.raw_events c.audit.paths (emptied c))
  drained_window c = merge_paths-SameWindow c.audit.raw_events c.audit.paths (emptied c)

  take_batch-IsStarted :
      (c : Coordinator S R) → IsStarted c → IsStarted (take_batch (drain c.audit) c)
  unfolding take_batch drain
  take_batch-IsStarted c h = record {
    stamped = λ ne. rw (drained_window c).started (
        merged-stamped c.audit.raw_events c.audit.paths c c.audit.started_at empty_audit
          h.timed.stamped h.stamped ne);
    timed = rw (drained_window c).audit empty_audit-IsTimed;
  }

  pub drain_audit-IsStarted : (c : Coordinator S R) → IsStarted c → IsStarted (drain_audit c)
  unfolding drain_audit
  drain_audit-IsStarted c h =
      take_batch-IsStarted (arrive c.arrivals c) (arrive-IsStarted c.arrivals c h)

  take_batch-audit : (c : Coordinator S R) → (take_batch (drain c.audit) c).audit ≡ empty_audit
  unfolding take_batch drain
  take_batch-audit c = (drained_window c).audit

  take_batch-arrivals : (c : Coordinator S R) → (take_batch (drain c.audit) c).arrivals ≡ c.arrivals
  unfolding take_batch drain
  take_batch-arrivals c = (drained_window c).arrivals

  arrive-few :
      (n : ℕ) (ns : List (List Notification)) (c : Coordinator S R)
      → c.arrivals ≡ ns
      → length ns ≤ suc n
      → length (arrive ns c).arrivals ≤ n
  unfolding arrive
  arrive-few n [] c e h = rw e (omega arith)
  arrive-few n (x ∷ ns) c e h = omega arith

  -- A drain takes one batch of arrivals and leaves the accumulator empty.
  drain_audit-IsDrained :
      (n : ℕ) (c : Coordinator S R)
      → IsStarted c
      → length c.arrivals ≤ suc n
      → IsDrained n (work (drain_audit c))
  unfolding work
  drain_audit-IsDrained n c h few = record {
    stamped = (drain_audit-IsStarted c h).stamped;
    audit = unfold drain_audit in take_batch-audit (arrive c.arrivals c);
    few =
        unfold drain_audit in
        rw (take_batch-arrivals (arrive c.arrivals c)) (arrive-few n c.arrivals c refl few);
  }

  -- Nothing is pending after a drain only if no path and no overflow waits.
  drain_audit-idle :
      (c : Coordinator S R)
      → (drain_audit c).pending_snapshot ≡ false
      → ((drain_audit c).touched_paths ≡ []) × ((drain_audit c).pending_overflows ≡ [])
  unfolding drain_audit take_batch
  drain_audit-idle c h = ground arith

  take_empty :
      (c : Coordinator S R)
      → c.touched_paths ≡ []
      → c.pending_overflows ≡ []
      → c.pending_snapshot ≡ false
      → (take_batch (drain empty_audit) c).pending_snapshot ≡ false
  unfolding take_batch drain merge_paths
  take_empty c t o p = ground arith

  take_quiet :
      (a : AuditState) (c : Coordinator S R)
      → a ≡ empty_audit
      → c.touched_paths ≡ []
      → c.pending_overflows ≡ []
      → c.pending_snapshot ≡ false
      → (take_batch (drain a) c).pending_snapshot ≡ false
  take_quiet a c e t o p = rw e (take_empty c t o p)

  -- With nothing to come, a drain leaves an idle coordinator idle.
  drain_quiet :
      (c : Coordinator S R)
      → IsCleared zero (work c)
      → c.pending_snapshot ≡ false
      → (drain_audit c).pending_snapshot ≡ false
  unfolding work drain_audit
  drain_quiet c q idle = go c.arrivals refl
    where
      go :
          (ns : List (List Notification))
          → c.arrivals ≡ ns
          → (take_batch (drain (arrive ns c).audit) (arrive ns c)).pending_snapshot ≡ false
      go [] e = unfold arrive in take_quiet c.audit c q.audit q.touched q.overflows idle
      go (x ∷ ns) e = absurd (omega (arith, ap length e, q.few))

-- No snapshot is pending, and no path or overflow waits in the window.
pub record IsSettled {S R : Type 0} (c : Coordinator S R) : Type 0 where
  pub idle : c.pending_snapshot ≡ false
  pub touched : c.touched_paths ≡ []
  pub overflows : c.pending_overflows ≡ []

-- whether an event is retained, as a number of rounds
abbrev held_rounds : Option Event → ℕ
held_rounds none = 0
held_rounds (some e) = 1

differ : true ≢ false
differ e = cc

module _ {S R : Type 0} (io : Services S R) where
  -- What the loop knows at its test.
  record IsLooping (n : ℕ) (c : Coordinator S R) : Type 0 where
    drained : IsDrained n (work c)
    empty : c.pending_snapshot ≡ false → (c.touched_paths ≡ []) × (c.pending_overflows ≡ [])

  settled : (n : ℕ) (c : Coordinator S R) → IsLooping n c → c.pending_snapshot ≡ false → IsSettled c
  settled n c l idle = record {
    idle = idle;
    touched = (l.empty idle).0;
    overflows = (l.empty idle).1;
  }

  drained-IsStarted : (n : ℕ) (c : Coordinator S R) → IsDrained n (work c) → IsStarted c
  unfolding work
  drained-IsStarted n c d = record { stamped = d.stamped; timed = rw d.audit empty_audit-IsTimed }

  drain-IsLooping :
      (n : ℕ) (c : Coordinator S R)
      → IsStarted c
      → length c.arrivals ≤ suc n
      → IsLooping n (drain_audit c)
  drain-IsLooping n c h few = record {
    drained = drain_audit-IsDrained n c h few;
    empty = drain_audit-idle c;
  }

  cleared-IsStarted : (n : ℕ) (c : Coordinator S R) → IsCleared n (work c) → IsStarted c
  unfolding work
  cleared-IsStarted n c q = record {
    stamped = λ ne. absurd (ne q.touched);
    timed = rw q.audit empty_audit-IsTimed;
  }

  retry_body-Ends :
      (n : ℕ) (e : Event) (b : EventBody)
      → Ends IsProper
          (λ (c : Coordinator S R). IsDrained n (work c))
          (retry_body io e b)
          (λ _ (c : Coordinator S R). IsDrained n (work c) × (c.pending_snapshot_event ≡ none))
  unfolding retry_body
  retry_body-Ends n e (EventBody.snapshot s) =
      Ends-bind (λ _ (c : Coordinator S R). IsDrained n (work c)) (emit_exact io e) _
        (emit_exact-Ends io (IsDrained n) e)
        (λ _. record {
          at = λ c p.
              unfold work after_retry in
              (record { stamped = p.stamped; audit = p.audit; few = p.few }, refl);
        })
  retry_body-Ends n e _ = record { at = λ c p. λ same. cc }

  -- How a run of the loop ends.
  abbrev pub Settles : Result CoordinatorError Unit × Coordinator S R → Type 0
  Settles r = Outcome IsProper (λ _ (d : Coordinator S R). IsSettled d) r.0 r.1

  when-Settles :
      (b : Bool) (m : Action (Coordinator S R) CoordinatorError Unit) (c : Coordinator S R)
      → (b ≡ false → IsSettled c)
      → (b ≡ true → Settles (m c))
      → Settles (when b m c)
  when-Settles true m c f t = t refl
  when-Settles false m c f t = f refl

  settle_quiet :
      (fuel : ℕ) (d : Coordinator S R)
      → IsQuiet io zero d
      → Settles (settle io fuel (drain_audit d))
  settle_quiet fuel d q =
      let idle = drain_quiet d q.cleared q.idle in
      go fuel idle (record {
        idle = idle;
        touched = (drain_audit-idle d idle).0;
        overflows = (drain_audit-idle d idle).1;
      })
    where
      go :
          (fuel : ℕ)
          → (drain_audit d).pending_snapshot ≡ false
          → IsSettled (drain_audit d)
          → Settles (settle io fuel (drain_audit d))
      go zero idle s =
          unfold settle in when-Settles _ _ _ (λ _. s) (λ p. absurd (differ (sym p ∙ idle)))
      go (suc f) idle s =
          unfold settle in when-Settles _ _ _ (λ _. s) (λ p. absurd (differ (sym p ∙ idle)))

  module _ (fuel : ℕ)
      (rest : (n : ℕ) (c : Coordinator S R)
        → IsLooping n c
        → n + suc (held_rounds c.pending_snapshot_event) ≤ fuel
        → Settles (settle io fuel c)) where
    -- the drain that ends a round, and the rest of the loop
    drain_and_rest :
        (n : ℕ) (d : Coordinator S R)
        → IsStarted d
        → length d.arrivals ≤ suc n
        → d.pending_snapshot_event ≡ none
        → n + 1 ≤ fuel
        → Settles (settle io fuel (drain_audit d))
    drain_and_rest n d h few released enough =
        rest n (drain_audit d) (drain-IsLooping n d h few)
          (rw ((drain_audit-SameLog d).held ∙ released) (omega arith))

    after_fresh :
        (n : ℕ) (d : Coordinator S R)
        → IsQuiet io n d
        → n ≤ fuel
        → Settles (settle io fuel (drain_audit d))
    unfolding work
    after_fresh zero d q enough = settle_quiet fuel d q
    after_fresh (suc n) d q enough =
        drain_and_rest n d (cleared-IsStarted (suc n) d q.cleared) q.cleared.few q.released
          (omega arith)

    fresh_round :
        (n : ℕ) (c : Coordinator S R)
        → IsDrained n (work (drain_audit c))
        → n ≤ fuel
        → Settles ((fresh_snapshot io >>= λ _. modify drain_audit >> settle io fuel) c)
    unfolding fresh_snapshot
    fresh_round n c d enough =
        (Ends-bind (λ _ (d : Coordinator S R). IsQuiet io n d) (drained_snapshot io)
            (λ _. modify drain_audit >> settle io fuel) (drained_snapshot-Ends io n)
            (λ _. record { at = λ d q. after_fresh n d q enough })).at
          (drain_audit c) d

    round :
        (n : ℕ) (e : Option Event) (c : Coordinator S R)
        → IsLooping n c
        → n + held_rounds e ≤ fuel
        → Settles ((snapshot_from io e >>= λ _. modify drain_audit >> settle io fuel) c)
    unfolding retry_snapshot work
    round n (some e) c l enough =
        (Ends-bind
            (λ _ (d : Coordinator S R). IsDrained n (work d) × (d.pending_snapshot_event ≡ none))
            (retry_body io e e.body) (λ _. modify drain_audit >> settle io fuel)
            (retry_body-Ends n e e.body)
            (λ _. record {
              at = λ d q.
                  drain_and_rest n d (drained-IsStarted n d q.0) (omega (arith, q.0.few)) q.1
                    enough;
            })).at
          c l.drained
    round zero none c l enough =
        fresh_round zero c
          (drain_audit-IsDrained zero c (drained-IsStarted zero c l.drained)
            (omega (arith, l.drained.few)))
          enough
    round (suc n) none c l enough =
        fresh_round n c
          (drain_audit-IsDrained n c (drained-IsStarted (suc n) c l.drained) l.drained.few)
          (omega arith)

  -- With a round for each batch to come, one for a retained event and one more, the loop ends.
  settle-Ends :
      (fuel n : ℕ) (c : Coordinator S R)
      → IsLooping n c
      → n + suc (held_rounds c.pending_snapshot_event) ≤ fuel
      → Settles (settle io fuel c)
  unfolding settle snapshot
  settle-Ends zero n c l enough = absurd (omega arith)
  settle-Ends (suc fuel) n c l enough =
      when-Settles c.pending_snapshot _ c (settled n c l)
        (λ _. round fuel (settle-Ends fuel) n c.pending_snapshot_event c l (omega arith))

  held_rounds-le : (e : Option Event) → held_rounds e ≤ 1
  held_rounds-le none = omega arith
  held_rounds-le (some e) = omega arith

  -- `self.drain_audit()` and the loop end, whatever the sink and the recorder answer: with an error of
  -- theirs, or with nothing pending.
  pub settle_audit-Settles : (c : Coordinator S R) → IsStarted c → Settles (settle_audit io c)
  unfolding settle_audit
  settle_audit-Settles c h =
      settle-Ends (rounds c) (length c.arrivals) (drain_audit c)
        (drain-IsLooping (length c.arrivals) c h (omega arith))
        (omega (arith, held_rounds-le (drain_audit c).pending_snapshot_event))
