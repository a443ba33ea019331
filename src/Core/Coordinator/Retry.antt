-- ===== src/Core/Coordinator/Retry.antt =====
-- The event of a snapshot whose emission failed, in `snapshot` of crates/rrjj-core/src/lib.rs.
use rrjj.Prelude.{
  ℕ, zero, suc, ◌+◌, ◌<◌, ◌≡◌, ◌≢◌, refl, ap, sym, ◌∙◌, Bool, true, false, String, Option, some,
  arith, wrap64, u64_modulus,
}
use rrjj.Prelude.Action.{Result, ok, err, Action, when, >>=-eq-ok}
use rrjj.Schema.{Event, EventBody, Snapshot}
use rrjj.Sinks.Traits.{AcceptsLog}
use rrjj.Core.Coordinator.{
  CoordinatorError, Coordinator, Services, sequence_changed, emit_exact, mark, emit_mark,
  drain_audit, snapshot, retry_snapshot, retry_body, snapshot_from, settle, settle_audit, rounds,
}
use rrjj.Core.Coordinator.Frame.{drain_audit-SameLog}
use rrjj.Core.Coordinator.Flushing.{emit-ok}

taken : (n : ℕ) → n < u64_modulus → n ≢ wrap64 (n + 1)
taken n small = omega arith

module _ {S R : Type 0} (io : Services S R) where
  snapshot_from-eq :
      (o : Option Event) (c : Coordinator S R)
      → c.pending_snapshot_event ≡ o
      → snapshot io c ≡ snapshot_from io o c
  unfolding snapshot
  snapshot_from-eq o c e = ap (λ (x : Option Event). snapshot_from io x c) e

  refused :
      (e : Event) (b : EventBody) (s : Snapshot) (c : Coordinator S R)
      → b ≡ EventBody.snapshot s
      → e.seq ≢ c.seq
      → retry_body io e b c ≡ (err sequence_changed, c)
  unfolding retry_body emit_exact
  refused e (EventBody.snapshot t) s c q other = ground arith
  refused e _ s c q other = cc

  -- Once another event has taken the number of a retained snapshot, every later attempt to take a
  -- snapshot fails and changes nothing: the coordinator is stuck.
  pub snapshot_stuck :
      (e : Event) (s : Snapshot) (c : Coordinator S R)
      → c.pending_snapshot_event ≡ some e
      → e.body ≡ EventBody.snapshot s
      → e.seq ≢ c.seq
      → snapshot io c ≡ (err sequence_changed, c)
  unfolding retry_snapshot
  snapshot_stuck e s c held body other =
      snapshot_from-eq (some e) c held ∙ refused e e.body s c body other

  when_idle :
      (b : Bool) (m : Action (Coordinator S R) CoordinatorError Unit) (c : Coordinator S R)
      → b ≡ false
      → when b m c ≡ (ok tt, c)
  when_idle true m c e = cc
  when_idle false m c e = refl

  settle_idle :
      (fuel : ℕ) (c : Coordinator S R) → c.pending_snapshot ≡ false → settle io fuel c ≡ (ok tt, c)
  unfolding settle
  settle_idle zero c e = when_idle c.pending_snapshot _ c e
  settle_idle (suc fuel) c e = when_idle c.pending_snapshot _ c e

module _ {S R : Type 0} (io : Services S R) (log : AcceptsLog io.sink) where
  -- A mark that is accepted while a failed snapshot is retained and nothing is pending takes the
  -- snapshot's number, so that from then on no snapshot can be taken.
  pub mark-snapshot_stuck :
      (label meta : String) (e : Event) (s : Snapshot) (c d : Coordinator S R)
      → c.pending_snapshot_event ≡ some e
      → e.body ≡ EventBody.snapshot s
      → e.seq ≡ c.seq
      → c.seq < u64_modulus
      → (drain_audit c).pending_snapshot ≡ false
      → mark io label meta c ≡ (ok tt, d)
      → snapshot io d ≡ (err sequence_changed, d)
  unfolding mark settle_audit emit_mark
  mark-snapshot_stuck label meta e s c d held body number small idle h =
      let (_, m, settled, marked) =
        >>=-eq-ok (settle_audit io) (λ _. emit_mark io label meta) c h in
      let same : m ≡ drain_audit c =
        ap (λ (r : Result CoordinatorError Unit × Coordinator S R). r.1)
          (sym settled ∙ settle_idle io (rounds c) (drain_audit c) idle) in
      let (sink, state, grown) = emit-ok io log _ m d marked in
      let frame = drain_audit-SameLog c in
      snapshot_stuck io e s d
        (ap (λ (x : Coordinator S R). x.pending_snapshot_event) (state)
          ∙ ap (λ (x : Coordinator S R). x.pending_snapshot_event) same
          ∙ frame.held
          ∙ held)
        body
        (λ q. taken c.seq small (
          sym number
          ∙ q
          ∙ ap (λ (x : Coordinator S R). x.seq) state
          ∙ ap (λ (x : Coordinator S R). wrap64 (x.seq + 1)) same
          ∙ ap (λ n. wrap64 (n + 1)) frame.seq))
