-- ===== src/Core/System/Pausing.antt =====
-- Pausing in Core/System: the coordinator's flag, which its status reports, and the watcher's.
use rrjj.Prelude.{
  ◌≡◌, [], ◌∷◌, ap, refl, ◌∙◌, Bool, true, false, Bool-cases, inl, inr, ◌==◌, String, none, List,
}
use rrjj.Prelude.Action.{Result, ok, err}
use rrjj.Schema.{Event, Snapshot}
use rrjj.Sinks.Error.{SinkError}
use rrjj.Core.Audit.{Notification, notify_all}
use rrjj.Core.Coordinator
use rrjj.Core.Coordinator.{
  Coordinator, CoordinatorError, Services, Status, after_emit, emit_exact, emit, capture_tree,
  after_capture, hold_snapshot, after_audit, after_snapshot, after_retry, flush_sink, after_flush,
  drain_audit,
}
use rrjj.Core.Coordinator.Frame.{drain_audit-SameLog}
use rrjj.Core.Coordinator.Invariants.{IsStable, IsStable-IsSteady}
use rrjj.Core.Command.{Command, Reply, with_status, with_snapshot, done, handle}
use rrjj.Core.Command.Invariants.{resume_capture-Keeps}
use rrjj.Core.Watcher.{Watch, audit_due, due}
use rrjj.Core.System.{System, arriving, land, after_resume, after_command, call, serve, next_due}

module _ {S R : Type 0} (io : Services S R) (b : Bool) where
  abbrev Flag : Coordinator S R → Type 0
  Flag c = c.paused ≡ b

  after_emit-Flag :
      (a : Result SinkError Unit × S) (c : Coordinator S R) → Flag c → Flag (after_emit a c).1
  unfolding after_emit
  after_emit-Flag (ok u, s) c h = h
  after_emit-Flag (err e, s) c h = h

  emit_exact-Flag : (e : Event) (c : Coordinator S R) → Flag c → Flag (emit_exact io e c).1
  unfolding emit_exact
  emit_exact-Flag e c h = elim (Bool-cases (e.seq == c.seq)) [
    | inl same ↦ rw same (after_emit-Flag (io.sink.emit e c.sink) c h)
    | inr other ↦ rw other h
  ]

  after_capture-Flag :
      (a : Result String Snapshot × R) (c : Coordinator S R) → Flag c → Flag (after_capture a c).1
  unfolding after_capture
  after_capture-Flag (ok s, r) c h = h
  after_capture-Flag (err e, r) c h = h

  after_flush-Flag :
      (a : Result SinkError Unit × S) (c : Coordinator S R) → Flag c → Flag (after_flush a c).1
  unfolding after_flush
  after_flush-Flag (ok u, s) c h = h
  after_flush-Flag (err e, s) c h = h

  Flag-stable : IsStable io Flag
  unfolding emit capture_tree flush_sink hold_snapshot after_audit after_snapshot after_retry
  Flag-stable = record {
    emit = λ body. record { at = λ c h. emit_exact-Flag _ _ h };
    retained = λ e c held h. emit_exact-Flag e c h;
    capture_tree = record { at = λ c h. after_capture-Flag _ c h };
    flush_sink = λ r. record { at = λ c h. after_flush-Flag _ c h };
    drain_audit = λ c h. (drain_audit-SameLog c).paused ∙ h;
    hold_snapshot = λ s c h. h;
    after_audit = λ c h. h;
    after_snapshot = λ c h. h;
    after_retry = λ c h. h;
    left_with = λ ns c h. h;
    tick = λ c h. h;
  }

module _ {S R : Type 0} (io : Services S R) where
  -- A resume clears the flag, and clears it also when it fails.
  handle-resume-paused : (c : Coordinator S R) → (handle io Command.resume c).1.paused ≡ false
  unfolding handle
  handle-resume-paused c =
      (resume_capture-Keeps io (IsStable-IsSteady io (Flag-stable io false))).at _ refl

module _ {S R : Type 0} where
  land-paused :
      (later : List (List Notification)) (c : Coordinator S R) → (land later c).paused ≡ c.paused
  unfolding land
  land-paused [] c = refl
  land-paused (ns ∷ later) c = land-paused later (record c { audit = notify_all ns c.audit })

  after_resume_failed :
      (a : Reply × System S R) {e : CoordinatorError}
      → (after_resume a).0 ≡ with_status (err e)
      → (after_resume a).1 ≡ a.1
  unfolding after_resume
  after_resume_failed (with_status (ok status), s) failed = cc
  after_resume_failed (with_status (err e), s) failed = refl
  after_resume_failed (with_snapshot r, s) failed = cc
  after_resume_failed (done r, s) failed = cc

module _ {S R G : Type 0} (io : Services S R) (w : Watch G) where
  paused-next_due : (s : System S R) → s.paused ≡ true → next_due io w s ≡ none
  unfolding next_due due audit_due
  paused-next_due s h = rw h refl

-- A resume that fails clears the coordinator's flag, so that its status no longer says `paused`, and
-- leaves the watcher paused: it does not wake up by itself.
pub call-resume_failed :
    {S R G : Type 0} (io : Services S R) (w : Watch G) (arrivals : List (List Notification))
    (s : System S R) {e : CoordinatorError}
    → s.paused ≡ true
    → (call io w Command.resume arrivals s).0 ≡ with_status (err e)
    → ((Coordinator.status io (call io w Command.resume arrivals s).1.coordinator).paused ≡ false)
      × (next_due io w (call io w Command.resume arrivals s).1 ≡ none)
unfolding call Coordinator.status serve after_command
call-resume_failed io w arrivals s paused failed =
    let c = arriving arrivals s.coordinator in
    let a = serve io w Command.resume arrivals s in
    let same = after_resume_failed a failed in
    let d = (handle io Command.resume c).1 in
    (
      ap (λ (t : System _ _). t.coordinator.paused) same
          ∙ land-paused d.arrivals d
          ∙ handle-resume-paused io c,
      paused-next_due io w (call io w Command.resume arrivals s).1
          (ap (λ (t : System _ _). t.paused) same ∙ paused),
    )
