-- ===== src/Core/Audit/Bounds.antt =====
-- The limits of the accumulator of Core/Audit, and the time at which its content is due.
use rrjj.Prelude.{
  Option-cases, ℕ, ◌+◌, ◌≤◌, ◌<◌, ◌≡◌, ◌≢◌, Bool, true, false, inl, inr, String, none, some, List,
  [], ◌∷◌, arith, length, length-append, min,
}
use rrjj.Schema.{TouchedPath}
use rrjj.Core.PathMap.{PathMap, extend, lookup}
use rrjj.Core.PathMap.Covers.{length-extend_at, length-insert}
use rrjj.Core.Audit.{
  AuditState, Notification, touched, overflowed, empty_audit, note, note_all, push_overflow, notice,
  report_limit_source, notify, notify_all, deadline, is_dirty, max_audit_paths,
  max_overflow_reports,
}

-- What every reachable state of the accumulator keeps.
pub record IsBounded (s : AuditState) : Type 0 where
  pub few_paths : length s.paths ≤ max_audit_paths
  pub few_reports : length s.overflows ≤ max_overflow_reports
  pub room_for_limit_report :
      s.overflow_reports_limited ≡ false → length s.overflows < max_overflow_reports

length-note :
    (t : TouchedPath) (m : PathMap × Bool)
    → length m.0 ≤ max_audit_paths
    → length (note t m).0 ≤ max_audit_paths
unfolding note
length-note t m h = elim (Option-cases (lookup t.path m.0)) [
  | inl absent ↦ ground (arith, length-insert t.path (extend [] t.operations) m.0 absent)
  | inr (set, known) ↦ ground (arith, length-extend_at t.path t.operations m.0)
]

length-note_all :
    (ts : List TouchedPath) (m : PathMap × Bool)
    → length m.0 ≤ max_audit_paths
    → length (note_all ts m).0 ≤ max_audit_paths
unfolding note_all
length-note_all [] m h = h
length-note_all (t ∷ ts) m h = length-note_all ts (note t m) (length-note t m h)

push_overflow-IsBounded :
    (source : String) (raw : ℕ) (s : AuditState)
    → IsBounded s
    → IsBounded (push_overflow source raw s)
unfolding push_overflow
push_overflow-IsBounded source raw s b = ground (
  arith,
  b.room_for_limit_report,
  length-append s.overflows (notice source raw ∷ []),
  length-append s.overflows (notice report_limit_source raw ∷ []),
)

notify-IsBounded : (n : Notification) (s : AuditState) → IsBounded s → IsBounded (notify n s)
unfolding notify
notify-IsBounded (touched instant timestamp [] raw) s b = b
notify-IsBounded (touched instant timestamp (t ∷ ts) raw) s b = record {
  few_paths = length-note_all (t ∷ ts) (s.paths, s.path_limit_reported) b.few_paths;
  few_reports = b.few_reports;
  room_for_limit_report = b.room_for_limit_report;
}
notify-IsBounded (overflowed instant source raw) s b =
    push_overflow-IsBounded source raw _ (record {
      few_paths = b.few_paths;
      few_reports = b.few_reports;
      room_for_limit_report = b.room_for_limit_report;
    })

-- Whatever is notified, the accumulator never holds more than 100,000 paths or 64 overflow reports.
pub notify_all-IsBounded :
    (ns : List Notification) (s : AuditState) → IsBounded s → IsBounded (notify_all ns s)
unfolding notify_all
notify_all-IsBounded [] s b = b
notify_all-IsBounded (n ∷ ns) s b = notify_all-IsBounded ns (notify n s) (notify-IsBounded n s b)

pub empty_audit-IsBounded : IsBounded empty_audit
empty_audit-IsBounded = ground arith

-- The accumulator knows when its content came: paths have a timestamp, and anything an instant.
pub record IsTimed (s : AuditState) : Type 0 where
  pub stamped : s.paths ≢ [] → s.started_at ≢ none
  pub first_set : is_dirty s ≡ true → s.first ≢ none
  pub last_set : is_dirty s ≡ true → s.last ≢ none

notify-IsTimed : (n : Notification) (s : AuditState) → IsTimed s → IsTimed (notify n s)
unfolding notify push_overflow is_dirty
notify-IsTimed (touched instant timestamp [] raw) s t = t
notify-IsTimed (touched instant timestamp (p ∷ ps) raw) s t = ground arith
notify-IsTimed (overflowed instant source raw) s t = ground (arith, t.stamped)

pub notify_all-IsTimed :
    (ns : List Notification) (s : AuditState) → IsTimed s → IsTimed (notify_all ns s)
unfolding notify_all
notify_all-IsTimed [] s t = t
notify_all-IsTimed (n ∷ ns) s t = notify_all-IsTimed ns (notify n s) (notify-IsTimed n s t)

pub empty_audit-IsTimed : IsTimed empty_audit
unfolding is_dirty
empty_audit-IsTimed = ground arith

-- An accumulator that holds anything has a deadline.
pub due_lem :
    (s : AuditState)
    → IsTimed s
    → (quiescence max_delay : ℕ) → is_dirty s ≡ true
    → (due first last : ℕ) × (deadline quiescence max_delay s ≡ some due)
      × (s.first ≡ some first)
      × (s.last ≡ some last)
      × (due ≤ first + max_delay)
      × (due ≤ last + quiescence)
unfolding deadline
due_lem s t quiescence max_delay dirty = elim (Option-cases s.first) [
  | inl absent ↦ absurd (t.first_set dirty absent)
  | inr (first, e) ↦ elim (Option-cases s.last) [
    | inl absent ↦ absurd (t.last_set dirty absent)
    | inr (last, f) ↦ (
      min (first + max_delay) (last + quiescence),
      first,
      last,
      ground arith,
      e,
      f,
      omega arith,
      omega arith,
    )
  ]
]
