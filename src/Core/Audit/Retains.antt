-- ===== src/Core/Audit/Retains.antt =====
-- The paths and operations that the accumulator of Core/Audit retains of what it is notified.
use rrjj.Prelude.{
  sym, ap, ◌∙◌, Option-cases, Bool-cases, ◌≡◌, ◌≢◌, refl, Bool, true, false, ◌||◌, ◌&&◌, inl, inr,
  String, str_eq, List, [], ◌∷◌, arith,
}
use rrjj.Schema.{TouchOperation, TouchedPath}
use rrjj.Core.PathMap.{PathMap, extend, lookup}
use rrjj.Core.PathMap.Covers.{has, has-extend, saw, saw-insert, saw-extend_at}
use rrjj.Core.Audit.{
  AuditState, Notification, touched, overflowed, note, note_all, push_overflow, notify, notify_all,
}

-- One of the paths of a notification reports this operation at this path.
abbrev pub reports : List TouchedPath → String → TouchOperation → Bool
reports [] path o = false
reports (t ∷ ts) path o = (str_eq t.path path && has o t.operations) || reports ts path o

-- Unless the limit on paths is met, noting a path adds exactly its operations.
saw-note :
    (t : TouchedPath) (m : PathMap) (limited : Bool) (path : String) (o : TouchOperation)
    → (note t (m, limited)).1 ≡ false
    → saw (note t (m, limited)).0 path o ≡ (saw m path o || reports (t ∷ []) path o)
unfolding note
saw-note t m limited path o open_ = elim (Option-cases (lookup t.path m)) [
  | inl absent ↦ ground (
    arith,
    saw-insert t.path path (extend [] t.operations) m o absent,
    has-extend o t.operations [],
  )
  | inr (set, known) ↦ ground (arith, saw-extend_at t.path path t.operations m o)
]

-- The flag of the limit is never taken back.
note-limited : (t : TouchedPath) (m : PathMap) → (note t (m, true)).1 ≡ true
unfolding note
note-limited t m = ground arith

note_all-limited : (ts : List TouchedPath) (m : PathMap) → (note_all ts (m, true)).1 ≡ true
unfolding note_all
note_all-limited [] m = refl
note_all-limited (t ∷ ts) m =
    ap (λ f. (note_all ts ((note t (m, true)).0, f)).1) (note-limited t m)
    ∙ note_all-limited ts (note t (m, true)).0

true_eq_false : true ≢ false
true_eq_false e = cc

saw-note_all :
    (ts : List TouchedPath) (m : PathMap) (limited : Bool) (path : String) (o : TouchOperation)
    → (note_all ts (m, limited)).1 ≡ false
    → saw (note_all ts (m, limited)).0 path o ≡ (saw m path o || reports ts path o)
unfolding note_all
saw-note_all [] m limited path o h = ground arith
saw-note_all (t ∷ ts) m limited path o h = elim (Bool-cases (note t (m, limited)).1) [
  | inl closed ↦ absurd (
      true_eq_false (
        sym (
          ap (λ f. (note_all ts ((note t (m, limited)).0, f)).1) closed
          ∙ note_all-limited ts (note t (m, limited)).0)
        ∙ h))
  | inr open_ ↦ ground (
    arith,
    saw-note t m limited path o open_,
    saw-note_all ts (note t (m, limited)).0 (note t (m, limited)).1 path o h,
  )
]

-- The same of a history of notifications.
abbrev pub history_reports : List Notification → String → TouchOperation → Bool
history_reports [] path o = false
history_reports (touched instant timestamp ts raw ∷ ns) path o =
    reports ts path o || history_reports ns path o
history_reports (overflowed instant source raw ∷ ns) path o = history_reports ns path o

limited-notify :
    (n : Notification) (state : AuditState)
    → state.path_limit_reported ≡ true
    → (notify n state).path_limit_reported ≡ true
unfolding notify push_overflow
limited-notify (touched instant timestamp [] raw) state h = h
limited-notify (touched instant timestamp (t ∷ ts) raw) state h =
    rw h (note_all-limited (t ∷ ts) state.paths)
limited-notify (overflowed instant source raw) state h = ground arith

limited-notify_all :
    (ns : List Notification) (state : AuditState)
    → state.path_limit_reported ≡ true
    → (notify_all ns state).path_limit_reported ≡ true
unfolding notify_all
limited-notify_all [] state h = h
limited-notify_all (n ∷ ns) state h =
    limited-notify_all ns (notify n state) (limited-notify n state h)

saw-notify :
    (n : Notification) (state : AuditState) (path : String) (o : TouchOperation)
    → (notify n state).path_limit_reported ≡ false
    → saw (notify n state).paths path o
      ≡ (saw state.paths path o || history_reports (n ∷ []) path o)
unfolding notify push_overflow
saw-notify (touched instant timestamp [] raw) state path o h = ground arith
saw-notify (touched instant timestamp (t ∷ ts) raw) state path o h =
    ground (arith, saw-note_all (t ∷ ts) state.paths state.path_limit_reported path o h)
saw-notify (overflowed instant source raw) state path o h = ground arith

-- While the limit on paths is not reported, the accumulator has seen an operation at a path exactly
-- when it had before or one of the notifications reports it: nothing is lost and nothing invented.
pub saw-notify_all :
    (ns : List Notification) (state : AuditState) (path : String) (o : TouchOperation)
    → (notify_all ns state).path_limit_reported ≡ false
    → saw (notify_all ns state).paths path o ≡ (saw state.paths path o || history_reports ns path o)
unfolding notify_all
saw-notify_all [] state path o h = ground arith
saw-notify_all (n ∷ ns) state path o h = elim (Bool-cases (notify n state).path_limit_reported) [
  | inl closed ↦ cc (limited-notify_all ns (notify n state) closed)
  | inr open_ ↦
      ground (arith, saw-notify n state path o open_, saw-notify_all ns (notify n state) path o h)
]
