-- ===== src/Daemon/Options.antt =====
-- The options of `run_daemon` in crates/rrjj/src/main.rs: how they are checked, and what is built of
-- them. A path is a text here, except where the git sink keeps its cursor.
use rrjj.Prelude.{
  ℕ, ◌==◌, Bool, true, false, ◌&&◌, not, String, str_eq, Option, none, some, List, [], ◌∷◌,
  if◌then◌else◌,
}
use rrjj.Prelude.Action.{Result, ok, err, and_then}
use rrjj.Sinks.Files.{Location}
use rrjj.Sinks.Git.{GitCheckpointConfig}
use rrjj.Core.Coordinator.{Config}
use Prim.Native.String.{compare}
use Prim.Native.Nat.{Ordering}

pub data CheckpointBackend : Type 0 where
  local git : CheckpointBackend

-- `None` is `nowhere`.
pub data EventBackend : Type 0 where
  local http nowhere : EventBackend

pub record DaemonOptions : Type 0 where
  pub root : String
  pub shadow : String
  pub events : String
  pub session_dir : Option String
  pub socket : String
  pub session_id : String
  pub max_changes : ℕ
  pub max_spool_bytes : ℕ
  pub quiescence_ms : ℕ
  pub max_delay_ms : ℕ
  pub ignore : List String
  pub checkpoint_backend : Option CheckpointBackend
  pub event_backend : Option EventBackend
  pub git_remote_url : Option String
  pub git_ref_prefix : String
  pub event_http_url : Option String
  pub event_max_batch_events : ℕ
  pub event_max_batch_bytes : ℕ

abbrev pub given : Option String → Bool
given none = false
given (some text) = true

abbrev pub ensure : Bool → String → Result String Unit
ensure true message = ok tt
ensure false message = err message

abbrev pub positive : ℕ → Bool
positive n = not (n == 0)

unfoldable pub check_limits : DaemonOptions → Result String Unit
check_limits o =
    and_then (ensure (positive o.max_changes) "--max-changes must be greater than zero") λ _.
      and_then
        (ensure (positive o.quiescence_ms && positive o.max_delay_ms)
          "watch delays must be greater than zero")
        λ _.
          and_then
            (ensure (positive o.event_max_batch_events)
              "--event-max-batch-events must be greater than zero")
            λ _.
              ensure (positive o.event_max_batch_bytes)
                "--event-max-batch-bytes must be greater than zero"

-- `options.checkpoint_backend.or_else(…)`, by whether a session directory and a remote are given
unfoldable pub default_checkpoint :
    Option CheckpointBackend → (session_dir git_remote : Bool) → Option CheckpointBackend
default_checkpoint (some backend) session_dir git_remote = some backend
default_checkpoint none true git_remote = some CheckpointBackend.local
default_checkpoint none false true = some CheckpointBackend.git
default_checkpoint none false false = none

unfoldable pub default_events :
    Option EventBackend → (session_dir http_url : Bool) → Option EventBackend
default_events (some backend) session_dir http_url = some backend
default_events none true http_url = some EventBackend.local
default_events none false true = some EventBackend.http
default_events none false false = some EventBackend.nowhere

-- The arms of the first `match` on the two backends.
unfoldable pub check_mode :
    Option CheckpointBackend
    → Option EventBackend
    → (session_dir git_remote http_url : Bool) → Result String Unit
check_mode (some CheckpointBackend.local) (some EventBackend.local) session_dir git_remote
      http_url =
    ensure session_dir "--session-dir is required for local checkpoint/event backends"
check_mode (some CheckpointBackend.git) (some EventBackend.http) session_dir git_remote http_url =
    and_then (ensure git_remote "--git-remote-url is required for the git checkpoint backend")
      λ _. ensure http_url "--event-http-url is required for the http event backend"
check_mode none (some EventBackend.nowhere) session_dir git_remote http_url = ok tt
check_mode (some CheckpointBackend.local) (some EventBackend.nowhere) session_dir git_remote
      http_url =
    err "local backends must be used together via --session-dir"
check_mode none (some EventBackend.local) session_dir git_remote http_url =
    err "local backends must be used together via --session-dir"
check_mode checkpoint events session_dir git_remote http_url =
    err "supported durable modes are: local (--session-dir), git+http, or spool-only"

abbrev pub checkpoint_of : DaemonOptions → Option CheckpointBackend
checkpoint_of o =
    default_checkpoint o.checkpoint_backend (given o.session_dir) (given o.git_remote_url)

abbrev pub events_of : DaemonOptions → Option EventBackend
events_of o = default_events o.event_backend (given o.session_dir) (given o.event_http_url)

-- `run_daemon` up to the first thing that it opens.
unfoldable pub validate : DaemonOptions → Result String Unit
unfolding check_limits check_mode default_checkpoint default_events
validate o = and_then (check_limits o) λ _.
    check_mode (checkpoint_of o) (events_of o) (given o.session_dir) (given o.git_remote_url)
      (given o.event_http_url)

pub record HttpOptions : Type 0 where
  pub url : String
  pub max_events_per_batch : ℕ
  pub max_bytes_per_batch : ℕ
  pub max_retries : ℕ

-- The durable sink that is created, or a panic of `expect` or `unreachable!`.
pub data DurableSink : Type 0 where
  directory : (session_dir : String) → DurableSink
  session : GitCheckpointConfig → HttpOptions → DurableSink
  spool : DurableSink
  panicked : DurableSink

abbrev pub directory_at : Option String → DurableSink
directory_at none = panicked
directory_at (some session_dir) = directory session_dir

abbrev pub session_at :
    DaemonOptions → Option String → Location → Option String → Option String → DurableSink
session_at o authorization git_cursor (some remote) (some url) =
    session
      (record {
        remote_url = remote;
        authorization = authorization;
        ref_prefix = o.git_ref_prefix;
        session_id = o.session_id;
        cursor_path = git_cursor;
      })
      (record {
        url = url;
        max_events_per_batch = o.event_max_batch_events;
        max_bytes_per_batch = o.event_max_batch_bytes;
        max_retries = 8;
      })
session_at o authorization git_cursor remote url = panicked

-- The second `match` on the two backends; the authorization is read from the environment.
unfoldable pub durable :
    DaemonOptions
    → Option String
    → Location
    → Option CheckpointBackend
    → Option EventBackend
    → DurableSink
durable o authorization git_cursor (some CheckpointBackend.local) (some EventBackend.local) =
    directory_at o.session_dir
durable o authorization git_cursor (some CheckpointBackend.git) (some EventBackend.http) =
    session_at o authorization git_cursor o.git_remote_url o.event_http_url
durable o authorization git_cursor none (some EventBackend.nowhere) = spool
durable o authorization git_cursor checkpoint events = panicked

abbrev pub is_after : String → String → Bool
is_after a b = elim (compare a b) [ Ordering.gt ↦ true | _ ↦ false ]

-- `Vec::sort` and `Vec::dedup` of texts
unfoldable pub insert_sorted : String → List String → List String
insert_sorted a [] = a ∷ []
insert_sorted a (b ∷ sorted) =
    let rest = insert_sorted a sorted in if is_after a b then b ∷ rest else a ∷ b ∷ sorted

unfoldable pub sort : List String → List String
unfolding insert_sorted
sort [] = []
sort (a ∷ texts) = insert_sorted a (sort texts)

abbrev pub drop_equal : String → List String → List String
drop_equal a [] = a ∷ []
drop_equal a (b ∷ rest) = if str_eq a b then b ∷ rest else a ∷ b ∷ rest

unfoldable pub dedup : List String → List String
dedup [] = []
dedup (a ∷ texts) = drop_equal a (dedup texts)

unfoldable pub excluded_paths : DaemonOptions → List String
excluded_paths o =
    o.shadow
    ∷ o.events
    ∷ o.socket
    ∷ elim o.session_dir [ none ↦ [] | some session_dir ↦ session_dir ∷ [] ]

-- The coordinator's configuration.
unfoldable pub config_of : DaemonOptions → Config
unfolding sort dedup excluded_paths
config_of o = record {
  session_id = o.session_id;
  watched_root = o.root;
  shadow_root = o.shadow;
  ignore = dedup (sort (".git" ∷ ".jj" ∷ o.ignore));
  excluded_paths = excluded_paths o;
  max_changes_per_event = o.max_changes;
  quiescence = o.quiescence_ms;
  max_delay = o.max_delay_ms;
}
