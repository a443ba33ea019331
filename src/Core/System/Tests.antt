-- ===== src/Core/System/Tests.antt =====
-- A watched directory and a small session, on which the theorems of Core/Watcher and Core/System are
-- applied.
use rrjj.Core.PathMap.{insert, lookup}
use rrjj.Prelude.Texts.{replace_char, trim, trim_start}
use rrjj.Prelude.{
  ℕ, ◌+◌, ◌≤◌, ◌≡◌, refl, true, false, none, some, List, [], ◌∷◌, String, arith, str_eq, ◌&&◌, ◌↔◌,
}
use rrjj.Prelude.Action.{ok, err}
use rrjj.Schema.{Event}
use rrjj.Sinks.Error.{SinkError}
use rrjj.Core.Audit.{drain, note, note_all, is_dirty, notify_all}
use rrjj.Core.Coordinator
use rrjj.Core.Coordinator.{Coordinator, CoordinatorError, Services, sink_error}
use rrjj.Core.Command.{Command}
use rrjj.Core.Tests.{services, memory_log, start, edits, start-IsLogged, start-IsStarted}
use rrjj.Core.Watcher.{
  FilePath, Globs, Watch, EventKind, Received, ModifyKind, RenameMode, build_ignore_set, callback,
  watcher_path,
}
use rrjj.Core.Watcher.Filter.{IsWatched, watcher_path_iff}
use rrjj.Core.System.{
  serve, System, call, fire, next_due, noted, received, pausing, served, fired, elapsed, Reach,
  here, next,
}
use rrjj.Core.System.Pausing.{call-resume_failed}
use rrjj.Core.System.Firing.{Reach-fires}
use rrjj.Core.System.Log.{Grows, Reach-Grows}

abbrev pub names : List String → String
names [] = ""
names (n ∷ []) = n
names (n ∷ m ∷ ns) = "src/main.rs"

-- Only the pattern `*.tmp` matches, and only the name `a.tmp`.
abbrev pub globs : Globs String
globs = record {
  glob = λ p. ok p;
  matches = λ g path. str_eq g "*.tmp" && str_eq (names path) "a.tmp";
}

abbrev pub watch : Watch String
watch = record {
  globs = globs;
  to_string = names;
  current_dir = none;
  root = record { is_absolute = true; components = "work" ∷ [] };
  excluded = record { is_absolute = true; components = "work" ∷ "shadow" ∷ [] } ∷ [];
  ignores = "*.tmp" ∷ "*.tmp/**" ∷ [];
  literal_ignores = "*.tmp" ∷ "/.git/" ∷ [];
  quiescence = 200;
  max_delay = 2000;
}

abbrev below_work : List String → FilePath
below_work components = record { is_absolute = true; components = "work" ∷ components }

ignores_built : build_ignore_set globs ("/*.tmp" ∷ []) ≡ ok ("*.tmp" ∷ "*.tmp/**" ∷ [])
unfolding build_ignore_set trim_start
ignores_built = refl

source_watched : watcher_path watch (below_work ("src" ∷ "main.rs" ∷ [])) ≡ some "src/main.rs"
unfolding watcher_path trim replace_char
source_watched = refl

shadow_dropped : watcher_path watch (below_work ("shadow" ∷ "repo" ∷ [])) ≡ none
unfolding watcher_path
shadow_dropped = refl

git_dropped : watcher_path watch (below_work (".git" ∷ "index" ∷ [])) ≡ none
unfolding watcher_path trim
git_dropped = refl

temporary_dropped : watcher_path watch (below_work ("a.tmp" ∷ [])) ≡ none
unfolding watcher_path
temporary_dropped = refl

watcher_path_iff_example :
    (watcher_path watch (below_work ("src" ∷ "main.rs" ∷ [])) ≡ some "src/main.rs")
    ↔ IsWatched watch (below_work ("src" ∷ "main.rs" ∷ [])) "src/main.rs"
watcher_path_iff_example =
    watcher_path_iff watch (below_work ("src" ∷ "main.rs" ∷ [])) "src/main.rs"

abbrev pub begun : System (List Event) ℕ
begun = record {
  coordinator = start;
  paused = false;
  retry_due = none;
  watching = true;
  serving = true;
  resumed = 0;
  instant = 10;
}

abbrev edited : Received
edited =
    Received.event (EventKind.modify (ModifyKind.name RenameMode.both))
      (below_work ("src" ∷ "main.rs" ∷ []) ∷ below_work (".git" ∷ "HEAD" ∷ []) ∷ []) false

abbrev noticed : System (List Event) ℕ
noticed = noted (callback watch 10 "12:00:10" edited) begun

abbrev waited : System (List Event) ℕ
waited = record noticed { instant = 210 }

abbrev taken : System (List Event) ℕ
taken = fire services watch [] 210 waited

abbrev halted : System (List Event) ℕ
halted = (call services watch Command.pause [] taken).1

waited_due : next_due services watch waited ≡ some 210
unfolding next_due callback notify_all trim
waited_due = refl

waited_reached : Reach services watch begun waited
waited_reached = next (next here (received begun "12:00:10" edited refl)) (elapsed noticed 200)

halted_reached : Reach services watch begun halted
unfolding fire Coordinator.snapshot Coordinator.fresh_snapshot drain notify_all callback trim
    note_all note lookup Coordinator.merge_paths insert Coordinator.merge_path Coordinator.emit
    Coordinator.emit_exact serve call
halted_reached =
    next
      (next
        (next waited_reached (fired waited [] 210 210 refl waited_due (omega arith) (omega arith)))
        (pausing taken))
      (served (record taken { paused = true }) Command.pause [] refl)

Reach-Grows_example : Grows "session" [] halted.coordinator.sink
Reach-Grows_example =
    Reach-Grows services memory_log "session" watch {s = begun} {t = halted} halted_reached
      start-IsLogged

waited_dirty : is_dirty waited.coordinator.audit ≡ true
unfolding is_dirty callback notify_all trim note_all note lookup insert
waited_dirty = refl

Reach-fires_example :
    (due first : ℕ) × (next_due services watch waited ≡ some due)
    × (waited.coordinator.audit.first ≡ some first)
    × (due ≤ first + 2000)
Reach-fires_example =
    Reach-fires services watch {s = begun} {t = waited} waited_reached start-IsStarted refl refl
      waited_dirty

-- The sink has no room.
abbrev full_services : Services (List Event) ℕ
full_services = record services {
  sink = record (services.sink) { emit = λ e s. (err (SinkError.spool_full 10 20 15), s) };
}

abbrev stopped : System (List Event) ℕ
stopped = record begun { coordinator = record start { paused = true }; paused = true }

call-resume_failed_example :
    ((Coordinator.status full_services
        (call full_services watch Command.resume (edits ∷ []) stopped).1.coordinator).paused
      ≡ false)
    × (next_due full_services watch (call full_services watch Command.resume (edits ∷ []) stopped).1
        ≡ none)
unfolding call Coordinator.settle Coordinator.drain_audit Coordinator.merge_paths drain notify_all
    note_all note lookup insert Coordinator.merge_path Coordinator.snapshot
    Coordinator.fresh_snapshot Coordinator.emit Coordinator.emit_exact
call-resume_failed_example =
    call-resume_failed full_services watch (edits ∷ []) stopped
      {e = sink_error (SinkError.spool_full 10 20 15)} refl refl
