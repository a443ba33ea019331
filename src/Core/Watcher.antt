-- ===== src/Core/Watcher.antt =====
-- `start_watcher` of crates/rrjj-core/src/lib.rs and what it calls: which changes of the file system
-- it passes on, and when it asks for a snapshot. The crates `notify` and `globset` are parameters, a
-- path is its list of components, and so is the directory that the process runs in.
pub mod Filter
use Prim.Native.Char.{Char, char}
use Prim.Native.String.{◌++◌ as text_append}
use rrjj.Prelude.{
  ℕ, ◌+◌, ◌==◌, Bool, true, false, ◌&&◌, ◌||◌, not, String, Option, none, some, List, [], ◌∷◌, ◌++◌,
  min, str_eq, if◌then◌else◌, is_empty,
}
use rrjj.Prelude.Action.{Result, ok, err, and_then}
use rrjj.Prelude.Texts.{trim_start, trim, replace_char}
use rrjj.Schema.{TouchOperation, TouchedPath}
use rrjj.Sinks.Error.{SinkError}
use rrjj.Core.Audit.{AuditState, Notification, touched, overflowed, deadline}
use rrjj.Core.Coordinator.{CoordinatorError, sink_error}

-- `/` and `\`
abbrev pub slash : Char
slash = char 47 tt

abbrev pub backslash : Char
backslash = char 92 tt

-- `notify::event::RenameMode`, `ModifyKind` and `EventKind`, as far as the code tells them apart
pub data RenameMode : Type 0 where
  any from to both other : RenameMode

pub data ModifyKind : Type 0 where
  any data_change metadata other : ModifyKind
  name : RenameMode → ModifyKind

pub data EventKind : Type 0 where
  any access create remove other : EventKind
  modify : ModifyKind → EventKind

unfoldable pub touch_operation : EventKind → Option TouchOperation
touch_operation EventKind.access = none
touch_operation EventKind.create = some TouchOperation.create
touch_operation EventKind.remove = some TouchOperation.remove
touch_operation (EventKind.modify (ModifyKind.name mode)) = some TouchOperation.rename
touch_operation (EventKind.modify kind) = some TouchOperation.modify
touch_operation kind = some TouchOperation.other

-- `std::path::Path`: whether it begins at the root, and its components.
pub record FilePath : Type 0 where
  pub is_absolute : Bool
  pub components : List String

-- `absolute`, where `current_dir` may fail
unfoldable pub absolute : Option FilePath → FilePath → Option FilePath
absolute current_dir path = if path.is_absolute then some path else elim current_dir [
  | none ↦ none
  | some dir ↦ some (record dir { components = dir.components ++ path.components })
]

-- The rest of the components after a prefix of them.
unfoldable pub strip : List String → List String → Option (List String)
strip [] names = some names
strip (p ∷ prefix) [] = none
strip (p ∷ prefix) (n ∷ names) = if str_eq p n then strip prefix names else none

abbrev pub same_root : Bool → Bool → Bool
same_root true b = b
same_root false b = not b

-- `Path::strip_prefix`, the prefix first
unfoldable pub strip_prefix : FilePath → FilePath → Option (List String)
unfolding strip
strip_prefix prefix path =
    if same_root prefix.is_absolute path.is_absolute
    then strip prefix.components path.components
    else none

abbrev pub is_some {ℓ} : {A : Type ℓ} → Option A → Bool
is_some none = false
is_some (some a) = true

-- `path.starts_with(excluded)`, for one of them
unfoldable pub is_excluded : List FilePath → FilePath → Bool
unfolding strip_prefix
is_excluded [] path = false
is_excluded (e ∷ excluded) path = is_some (strip_prefix e path) || is_excluded excluded path

-- `component.as_os_str() == ignore.trim_matches('/')`, for one of the patterns
unfoldable pub is_literal : List String → String → Bool
is_literal [] component = false
is_literal (i ∷ ignores) component = str_eq component (trim slash i) || is_literal ignores component

unfoldable pub has_literal : List String → List String → Bool
unfolding is_literal
has_literal ignores [] = false
has_literal ignores (c ∷ components) = is_literal ignores c || has_literal ignores components

-- What the code uses of the crate `globset`.
pub record Globs (G : Type 0) : Type 0 where
  pub glob : String → Result String G
  pub matches : G → List String → Bool

module _ {G : Type 0} (globs : Globs G) where
  -- The two patterns that one `--ignore` adds: the path itself and what is below it.
  unfoldable pub add_pattern : String → List G → Result String (List G)
  add_pattern pattern set = and_then (globs.glob (trim_start slash pattern)) λ own.
      and_then (globs.glob (text_append (trim_start slash pattern) "/**"))
        λ below. ok (set ++ own ∷ below ∷ [])

  unfoldable pub add_patterns : List String → List G → Result String (List G)
  unfolding add_pattern
  add_patterns [] set = ok set
  add_patterns (p ∷ patterns) set = and_then (add_pattern p set) (add_patterns patterns)

  unfoldable pub build_ignore_set : List String → Result String (List G)
  unfolding add_patterns
  build_ignore_set patterns = add_patterns patterns []

  -- `GlobSet::is_match`
  unfoldable pub is_match : List G → List String → Bool
  is_match [] path = false
  is_match (g ∷ set) path = globs.matches g path || is_match set path

-- What the watcher was started with.
pub record Watch (G : Type 0) : Type 0 where
  pub globs : Globs G
  -- `to_string_lossy` of a relative path
  pub to_string : List String → String
  pub current_dir : Option FilePath
  pub root : FilePath
  pub excluded : List FilePath
  pub ignores : List G
  pub literal_ignores : List String
  pub quiescence : ℕ
  pub max_delay : ℕ

-- `excluded_paths.iter().filter_map(|path| absolute(path).ok())`
unfoldable pub absolute_paths : Option FilePath → List FilePath → List FilePath
unfolding absolute
absolute_paths current_dir [] = []
absolute_paths current_dir (p ∷ paths) = elim (absolute current_dir p) [
  | none ↦ absolute_paths current_dir paths
  | some path ↦ path ∷ absolute_paths current_dir paths
]

-- `start_watcher` up to the watcher itself; `canonical` is what `canonicalize` answers for the root.
unfoldable pub start_watch :
    {G : Type 0}
    → Globs G
    → (List String → String)
    → Option FilePath
    → (canonical : Result String FilePath) (excluded : List FilePath) (ignore : List String)
    → (quiescence max_delay : ℕ) → Result String (Watch G)
unfolding absolute_paths build_ignore_set
start_watch globs to_string current_dir canonical excluded ignore quiescence max_delay =
    if not (not (quiescence == 0) && not (max_delay == 0))
    then err "watch delays must be greater than zero"
    else and_then canonical λ root. and_then (build_ignore_set globs ignore) λ ignores. ok (record {
      globs = globs;
      to_string = to_string;
      current_dir = current_dir;
      root = root;
      excluded = absolute_paths current_dir excluded;
      ignores = ignores;
      literal_ignores = ignore;
      quiescence = quiescence;
      max_delay = max_delay;
    })

module _ {G : Type 0} (w : Watch G) where
  unfoldable pub path_text : List String → String
  path_text relative = replace_char backslash slash (w.to_string relative)

  -- The three conditions of the second `if` of `watcher_path`.
  unfoldable pub is_ignored : List String → Bool
  unfolding is_match has_literal
  is_ignored relative =
      is_empty relative
      || is_match w.globs w.ignores relative
      || has_literal w.literal_ignores relative

  unfoldable pub relative_text : Option (List String) → Option String
  unfolding path_text is_ignored
  relative_text none = none
  relative_text (some relative) = if is_ignored relative then none else some (path_text relative)

  unfoldable pub absolute_text : Option FilePath → Option String
  unfolding is_excluded relative_text
  absolute_text none = none
  absolute_text (some path) =
      if is_excluded w.excluded path then none else relative_text (strip_prefix w.root path)

  unfoldable pub watcher_path : FilePath → Option String
  unfolding absolute absolute_text
  watcher_path path = absolute_text (absolute w.current_dir path)

  unfoldable pub touched_paths : TouchOperation → List FilePath → List TouchedPath
  unfolding watcher_path
  touched_paths operation [] = []
  touched_paths operation (p ∷ paths) = elim (watcher_path p) [
    | none ↦ touched_paths operation paths
    | some path ↦
        record { path = path; operations = operation ∷ [] } ∷ touched_paths operation paths
  ]

-- What `notify` passes to the callback.
pub data Received : Type 0 where
  event : EventKind → List FilePath → (need_rescan : Bool) → Received
  error : String → Received

abbrev pub rescan_report : ℕ → Bool → List Notification
rescan_report instant true = overflowed instant "notify:rescan" 1 ∷ []
rescan_report instant false = []

-- The calls on the accumulator that the callback makes.
module _ {G : Type 0} (w : Watch G) where
  unfoldable pub observe_event :
      ℕ → String → Option TouchOperation → List FilePath → List Notification
  unfolding touched_paths
  observe_event instant timestamp none paths = []
  observe_event instant timestamp (some operation) paths =
      touched instant timestamp (touched_paths w operation paths) 1 ∷ []

  unfoldable pub callback : ℕ → String → Received → List Notification
  unfolding touch_operation observe_event
  callback instant timestamp (event kind paths need_rescan) =
      observe_event instant timestamp (touch_operation kind) paths
      ++ rescan_report instant need_rescan
  callback instant timestamp (error message) =
      overflowed instant (text_append "notify:" message) 0 ∷ []

  -- `audit_due`
  unfoldable pub audit_due : Bool → AuditState → Option ℕ
  unfolding deadline
  audit_due true audit = none
  audit_due false audit = deadline w.quiescence w.max_delay audit

-- `due`
unfoldable pub due : Bool → Option ℕ → Option ℕ → Option ℕ
due paused (some audit) (some retry) = some (min audit retry)
due paused (some audit) none = some audit
due false none (some retry) = some retry
due paused none retry = none

-- The error types that `anyhow` is asked for.
unfoldable pub fatal_capture_error : CoordinatorError → Bool
fatal_capture_error (sink_error (SinkError.spool_full used attempted limit)) = true
fatal_capture_error (sink_error (SinkError.disk_exhausted m)) = true
fatal_capture_error (sink_error (SinkError.failed m)) = true
fatal_capture_error e = false
