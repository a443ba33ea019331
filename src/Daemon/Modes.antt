-- ===== src/Daemon/Modes.antt =====
-- Which options `validate` of Daemon/Options accepts.
use rrjj.Prelude.{String, ◌≢◌, ◌≡◌, ◌⊎◌, ◌↔◌, Bool, true, false, Option, none, some, arith}
use rrjj.Prelude.Action.{ok, and_then-eq-ok}
use rrjj.Sinks.Files.{Location}
use rrjj.Daemon.Options.{
  CheckpointBackend, EventBackend, DaemonOptions, check_limits, check_mode, default_checkpoint,
  default_events, checkpoint_of, events_of, validate, given, durable, panicked,
}

-- Asked for, or not asked for where `hint` says that it is meant.
abbrev pub IsMeant {ℓ} : {A : Type 0} → A → Option A → Type ℓ → Type ℓ
IsMeant backend asked hint = (asked ≡ some backend) ⊎ ((asked ≡ none) × hint)

-- The three ways to run, by the backends that were asked for and by what was given.
abbrev pub InDirectory :
    Option CheckpointBackend → Option EventBackend → (session_dir : Bool) → Type 0
InDirectory checkpoint events session_dir =
    (session_dir ≡ true)
    × ((checkpoint ≡ some CheckpointBackend.local) ⊎ (checkpoint ≡ none))
    × ((events ≡ some EventBackend.local) ⊎ (events ≡ none))

abbrev pub WithServices :
    Option CheckpointBackend
    → Option EventBackend
    → (session_dir git_remote http_url : Bool) → Type 0
WithServices checkpoint events session_dir git_remote http_url =
    (git_remote ≡ true)
    × (http_url ≡ true)
    × ((checkpoint ≡ some CheckpointBackend.git) ⊎ ((checkpoint ≡ none) × (session_dir ≡ false)))
    × ((events ≡ some EventBackend.http) ⊎ ((events ≡ none) × (session_dir ≡ false)))

abbrev pub SpoolOnly :
    Option CheckpointBackend
    → Option EventBackend
    → (session_dir git_remote http_url : Bool) → Type 0
SpoolOnly checkpoint events session_dir git_remote http_url =
    (checkpoint ≡ none)
    × (session_dir ≡ false)
    × (git_remote ≡ false)
    × ((events ≡ some EventBackend.nowhere) ⊎ ((events ≡ none) × (http_url ≡ false)))

check_mode_iff :
    (c : Option CheckpointBackend) (e : Option EventBackend) (s g h : Bool)
    → (check_mode (default_checkpoint c s g) (default_events e s h) s g h ≡ ok tt)
      ↔ (InDirectory c e s ⊎ (WithServices c e s g h ⊎ SpoolOnly c e s g h))
unfolding check_mode default_checkpoint default_events
check_mode_iff c e s g h = ground arith

-- The numbers that must not be 0.
pub record HasLimits (o : DaemonOptions) : Type 0 where
  pub max_changes : o.max_changes ≢ 0
  pub quiescence_ms : o.quiescence_ms ≢ 0
  pub max_delay_ms : o.max_delay_ms ≢ 0
  pub event_max_batch_events : o.event_max_batch_events ≢ 0
  pub event_max_batch_bytes : o.event_max_batch_bytes ≢ 0

check_limits-HasLimits : (o : DaemonOptions) → check_limits o ≡ ok tt → HasLimits o
unfolding check_limits
check_limits-HasLimits o h = ground arith

HasLimits-check_limits : (o : DaemonOptions) → HasLimits o → check_limits o ≡ ok tt
unfolding check_limits
HasLimits-check_limits o h = ground (
  arith, h.max_changes, h.quiescence_ms, h.max_delay_ms, h.event_max_batch_events,
  h.event_max_batch_bytes,
)

-- The daemon accepts its options exactly when no limit or delay is 0 and one of the three modes is
-- asked for or meant, with what it needs: a session directory, a git remote and an event server, or
-- neither of them.
pub validate_iff :
    (o : DaemonOptions)
    → let s = given o.session_dir in
      let g = given o.git_remote_url in
      let h = given o.event_http_url in
      let c = o.checkpoint_backend in
      let e = o.event_backend in
      (validate o ≡ ok tt)
      ↔ (HasLimits o × (InDirectory c e s ⊎ (WithServices c e s g h ⊎ SpoolOnly c e s g h)))
unfolding validate
validate_iff o =
    let s = given o.session_dir in
    let g = given o.git_remote_url in
    let h = given o.event_http_url in
    let mode = check_mode_iff o.checkpoint_backend o.event_backend s g h in
    (
      λ accepted.
          let (_, limits, supported) = and_then-eq-ok (check_limits o) _ accepted in
          (check_limits-HasLimits o limits, mode.0 supported),
      λ (limits, supported). rw (HasLimits-check_limits o limits) (mode.1 supported),
    )

durable-panicked :
    (o : DaemonOptions) (authorization : Option String) (cursor : Location)
    (c : Option CheckpointBackend) (e : Option EventBackend)
    → check_mode c e (given o.session_dir) (given o.git_remote_url) (given o.event_http_url) ≡ ok tt
    → durable o authorization cursor c e ≢ panicked
unfolding check_mode durable
durable-panicked o authorization cursor c e h = ground arith

-- Options that were accepted lead to a durable sink: neither `unreachable!` nor an `expect` on an
-- option that was validated is met.
pub validate-durable :
    (o : DaemonOptions) (authorization : Option String) (cursor : Location)
    → validate o ≡ ok tt
    → durable o authorization cursor (checkpoint_of o) (events_of o) ≢ panicked
unfolding validate
validate-durable o authorization cursor h =
    let (_, limits, supported) = and_then-eq-ok (check_limits o) _ h in
    durable-panicked o authorization cursor (checkpoint_of o) (events_of o) supported
