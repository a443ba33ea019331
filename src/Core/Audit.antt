-- ===== src/Core/Audit.antt =====
-- `AuditAccumulator` of crates/rrjj-core/src/lib.rs: what the watcher's callback adds up until the
-- coordinator takes it. An operation is a function on the locked state; the two clocks that it
-- reads, an instant in milliseconds and a timestamp, are arguments.
pub mod Bounds
pub mod Retains
use rrjj.Prelude.{
  ℕ, ◌+◌, ◌-◌, Bool, true, false, ◌||◌, not, String, Option, none, some, List, [], ◌∷◌, ◌++◌, min,
  ltb, if◌then◌else◌, length, is_empty, saturating_add,
}
use rrjj.Schema.{TouchedPath}
use rrjj.Core.PathMap.{PathMap, extend, lookup, insert, extend_at}

-- `MAX_AUDIT_PATHS`
abbrev pub max_audit_paths : ℕ
max_audit_paths = 100000

-- `MAX_OVERFLOW_REPORTS`
abbrev pub max_overflow_reports : ℕ
max_overflow_reports = 64

-- The texts that `format!` builds from the two limits.
abbrev pub path_limit_source : String
path_limit_source = "rrjj:audit_path_limit:100000"

abbrev pub report_limit_source : String
report_limit_source = "rrjj:overflow_report_limit:64"

pub record OverflowNotice : Type 0 where
  pub source : String
  pub raw_events : ℕ

abbrev pub notice : String → ℕ → OverflowNotice
notice source raw_events = record { source = source; raw_events = raw_events }

pub record AuditState : Type 0 where
  pub paths : PathMap
  pub raw_events : ℕ
  pub started_at : Option String
  pub first : Option ℕ
  pub last : Option ℕ
  pub overflows : List OverflowNotice
  pub overflow_reports_limited : Bool
  pub path_limit_reported : Bool

-- `AuditState::default`
abbrev pub empty_audit : AuditState
empty_audit = record {
  paths = [];
  raw_events = 0;
  started_at = none;
  first = none;
  last = none;
  overflows = [];
  overflow_reports_limited = false;
  path_limit_reported = false;
}

pub record AuditBatch : Type 0 where
  pub paths : PathMap
  pub raw_events : ℕ
  pub started_at : Option String
  pub overflows : List OverflowNotice

-- `Option::get_or_insert`
abbrev pub get_or_insert {ℓ} : {A : Type ℓ} → A → Option A → Option A
get_or_insert a none = some a
get_or_insert a (some b) = some b

-- The three branches of the loop in `observe`, on the map and the flag `path_limit_reported`.
unfoldable pub note : TouchedPath → PathMap × Bool → PathMap × Bool
note touched (m, limited) = elim (lookup touched.path m) [
  | some _ ↦ (extend_at touched.path touched.operations m, limited)
  | none ↦
      if ltb (length m) max_audit_paths
      then (insert touched.path (extend [] touched.operations) m, limited)
      else (m, true)
]

unfoldable pub note_all : List TouchedPath → PathMap × Bool → PathMap × Bool
note_all [] m = m
note_all (touched ∷ rest) m = note_all rest (note touched m)

unfoldable pub observe : ℕ → String → List TouchedPath → ℕ → AuditState → AuditState
observe instant timestamp [] raw_events state = state
observe instant timestamp (p ∷ ps) raw_events state =
    let (paths, limited) = note_all (p ∷ ps) (state.paths, state.path_limit_reported) in
    record state {
      started_at = get_or_insert timestamp state.started_at;
      first = get_or_insert instant state.first;
      last = some instant;
      raw_events = saturating_add state.raw_events raw_events;
      paths = paths;
      path_limit_reported = limited;
    }

unfoldable pub push_overflow : String → ℕ → AuditState → AuditState
push_overflow source raw_events state =
    if ltb (length state.overflows) (max_overflow_reports - 1)
    then record state { overflows = state.overflows ++ notice source raw_events ∷ [] }
    else if not state.overflow_reports_limited
    then record state {
      overflow_reports_limited = true;
      overflows = state.overflows ++ notice report_limit_source raw_events ∷ [];
    }
    else state

unfoldable pub report_overflow : ℕ → String → ℕ → AuditState → AuditState
unfolding push_overflow
report_overflow instant source raw_events state =
    push_overflow source raw_events
      (record state { first = get_or_insert instant state.first; last = some instant })

-- The time at which the watcher asks for a snapshot.
unfoldable pub deadline : ℕ → ℕ → AuditState → Option ℕ
deadline quiescence max_delay state = elim state.first [
  | none ↦ none
  | some first ↦ elim state.last [
    | none ↦ none
    | some last ↦ some (min (first + max_delay) (last + quiescence))
  ]
]

-- `drain`; `mem::take` leaves the default state.
unfoldable pub drain : AuditState → AuditBatch × AuditState
drain state = (
  record {
    paths = state.paths;
    raw_events = state.raw_events;
    started_at = state.started_at;
    overflows =
        if state.path_limit_reported
        then state.overflows ++ notice path_limit_source state.raw_events ∷ []
        else state.overflows;
  },
  empty_audit,
)

unfoldable pub is_dirty : AuditState → Bool
is_dirty state = not (is_empty state.paths) || not (is_empty state.overflows)

-- What reaches the accumulator from the watcher's callback or through the handle.
pub data Notification : Type 0 where
  touched : (instant : ℕ) (timestamp : String) → List TouchedPath → (raw_events : ℕ) → Notification
  overflowed : (instant : ℕ) → String → (raw_events : ℕ) → Notification

unfoldable pub notify : Notification → AuditState → AuditState
unfolding observe report_overflow
notify (touched instant timestamp paths raw) state = observe instant timestamp paths raw state
notify (overflowed instant source raw) state = report_overflow instant source raw state

unfoldable pub notify_all : List Notification → AuditState → AuditState
unfolding notify
notify_all [] state = state
notify_all (n ∷ ns) state = notify_all ns (notify n state)
