-- ===== src/Core/System/Firing.antt =====
-- When the watcher of Core/System asks for a snapshot.
use rrjj.Prelude.{◌≡◌, refl, ◌∙◌, true, false, ℕ, ◌+◌, ◌≤◌, Option, none, some, arith, min}
use rrjj.Core.Audit.{is_dirty}
use rrjj.Core.Audit.Bounds.{notify_all-IsTimed, due_lem}
use rrjj.Core.Coordinator.{Services}
use rrjj.Core.Coordinator.Settling.{IsStarted}
use rrjj.Core.Coordinator.Started.{IsStarted-stable}
use rrjj.Core.Watcher.{Watch, audit_due, due}
use rrjj.Core.System.{System, next_due, Reach}
use rrjj.Core.System.Invariants.{IsShared, Reach-keeps}

module _ {S R : Type 0} (io : Services S R) where
  IsStarted-shared : IsShared io IsStarted
  IsStarted-shared = record {
    stable = IsStarted-stable io;
    paused = λ b c h. record { stamped = h.stamped; timed = h.timed };
    arriving = λ ns c h. record { stamped = h.stamped; timed = h.timed };
    noted = λ ns c h. record { stamped = h.stamped; timed = notify_all-IsTimed ns c.audit h.timed };
  }

due-le :
    (audit : ℕ) (retry : Option ℕ) (bound : ℕ)
    → audit ≤ bound
    → (d : ℕ) × (due false (some audit) retry ≡ some d) × (d ≤ bound)
unfolding due
due-le audit none bound h = (audit, refl, h)
due-le audit (some retry) bound h = (min audit retry, refl, omega arith)

module _ {S R G : Type 0} (io : Services S R) (w : Watch G) where
  next_due-eq :
      (s : System S R) {audit : ℕ}
      → s.paused ≡ false
      → audit_due w false s.coordinator.audit ≡ some audit
      → next_due io w s ≡ due false (some audit) s.retry_due
  unfolding next_due audit_due
  next_due-eq s running a = rw (running, a) refl

-- In every reachable state in which the watcher runs, capture is not paused and something has been
-- noted, the watcher will wake up by itself, at the latest the longest delay after the first of what
-- was noted.
pub Reach-fires :
    {S R G : Type 0} (io : Services S R) (w : Watch G) {s t : System S R}
    → Reach io w s t
    → IsStarted s.coordinator
    → t.watching ≡ true
    → t.paused ≡ false
    → is_dirty t.coordinator.audit ≡ true
    → (due first : ℕ) × (next_due io w t ≡ some due)
      × (t.coordinator.audit.first ≡ some first)
      × (due ≤ first + w.max_delay)
unfolding audit_due
Reach-fires io w {t = t} r h on running dirty =
    let started = Reach-keeps io w (IsStarted-shared io) r h in
    let (audit, first, last, is_audit, is_first, is_last, early, quiet) =
      due_lem t.coordinator.audit started.timed w.quiescence w.max_delay dirty in
    let (d, is_due, below) = due-le audit t.retry_due (first + w.max_delay) early in
    (d, first, next_due-eq io w t running is_audit ∙ is_due, is_first, below)
