-- ===== src/Core/System.antt =====
-- The recorder at run time, crates/rrjj-core/src/lib.rs: the coordinator's task, the watcher's task
-- and the clones of `CoordinatorHandle`, which share the accumulator and the flag `paused` of the
-- watch channel. The calls of the clones run into each other: setting the flag, the coordinator's
-- turn and clearing the flag are steps of their own. What is noted while the coordinator works is its
-- `arrivals`, and what it has not looked at stays in the accumulator. `std::time::Instant` is a number of milliseconds.
pub mod Tests
pub mod Invariants
pub mod Pausing
pub mod Firing
pub mod Log
use rrjj.Prelude.{
  ℕ, ◌+◌, ◌-◌, ◌≤◌, ◌≡◌, ◌&&◌, not, [], ◌∷◌, Bool, true, false, String, Option, none, some, List,
  if◌then◌else◌,
}
use rrjj.Prelude.Action.{Result, ok, err}
use rrjj.Schema.{Snapshot}
use rrjj.Core.Audit.{Notification, notify_all}
use rrjj.Core.Coordinator
use rrjj.Core.Coordinator.{Coordinator, CoordinatorError, Services, closed}
use rrjj.Core.Command.{Command, Reply, with_status, with_snapshot, done, handle}
use rrjj.Core.Watcher.{Watch, Received, callback, audit_due, due, fatal_capture_error}

pub record System (S R : Type 0) : Type 0 where
  pub coordinator : Coordinator S R
  -- the flag that `CoordinatorHandle` and the watcher share
  pub paused : Bool
  pub retry_due : Option ℕ
  -- the watcher's task has not returned
  pub watching : Bool
  -- `Coordinator::run` has not returned
  pub serving : Bool
  -- the clones of the handle whose resume was acknowledged and that have not yet cleared the flag
  pub resumed : ℕ
  pub instant : ℕ

-- A command that ends `run`
abbrev pub stops : Command → Bool
stops (Command.shutdown reason) = true
stops command = false

-- Whether a reply lets `CoordinatorHandle::resume` go on to clear the flag, as a number
abbrev pub resumes : Command → Reply → ℕ
resumes Command.resume (with_status (ok status)) = 1
resumes command reply = 0

module _ {S R : Type 0} where
  -- What has been noted by the time of the next step.
  abbrev pub noted : List Notification → System S R → System S R
  noted ns s = record s {
    coordinator = record (s.coordinator) { audit = notify_all ns s.coordinator.audit };
  }

  abbrev pub arriving : List (List Notification) → Coordinator S R → Coordinator S R
  arriving arrivals c = record c { arrivals = arrivals }

  -- What was noted after the coordinator's last look at the accumulator stays there.
  unfoldable pub land : List (List Notification) → Coordinator S R → Coordinator S R
  land [] c = arriving [] c
  land (ns ∷ later) c = land later (record c { audit = notify_all ns c.audit })

  -- `self.paused.send_replace(false)`, after `response.await??`
  unfoldable pub after_resume : Reply × System S R → Reply × System S R
  after_resume (with_status (ok status), s) =
      (with_status (ok status), record s { paused = false; resumed = s.resumed - 1 })
  after_resume (reply, s) = (reply, s)

  -- The coordinator's side of a command: a shutdown ends `run`, and an acknowledged resume has still
  -- to clear the flag.
  unfoldable pub after_command : Command → Reply × Coordinator S R → System S R → System S R
  unfolding land
  after_command command (reply, c) s = record s {
    coordinator = land c.arrivals c;
    serving = s.serving && not (stops command);
    resumed = s.resumed + resumes command reply;
  }

  -- What the watcher does after `handle.snap().await`, where `now` is the instant of the failure.
  unfoldable pub after_snap :
      ℕ → ℕ → Result CoordinatorError Snapshot × Coordinator S R → System S R → System S R
  unfolding fatal_capture_error
  after_snap quiescence now (ok snapshot, c) s = record s {
    coordinator = c;
    retry_due = none;
    instant = now;
  }
  after_snap quiescence now (err e, c) s =
      if fatal_capture_error e
      then record s { coordinator = c; watching = false; instant = now }
      else record s { coordinator = c; retry_due = some (now + quiescence); instant = now }

module _ {S R G : Type 0} (io : Services S R) (w : Watch G) where
  -- One turn of the loop of `run`.
  unfoldable pub serve : Command → List (List Notification) → System S R → Reply × System S R
  unfolding handle after_command
  serve command arrivals s =
      let a = handle io command (arriving arrivals s.coordinator) in
      (a.0, after_command command a s)

  -- The methods of `CoordinatorHandle` that send a command, when no other step comes between.
  unfoldable pub call : Command → List (List Notification) → System S R → Reply × System S R
  unfolding serve after_resume
  call Command.pause arrivals s = serve Command.pause arrivals (record s { paused = true })
  call Command.resume arrivals s = after_resume (serve Command.resume arrivals s)
  call command arrivals s = serve command arrivals s

  -- The time at which the loop of the watcher wakes up by itself.
  unfoldable pub next_due : System S R → Option ℕ
  unfolding audit_due due
  next_due s = due s.paused (audit_due w s.paused s.coordinator.audit) s.retry_due

  -- The answer to the watcher's `handle.snap().await`.
  unfoldable pub ask :
      List (List Notification) → System S R → Result CoordinatorError Snapshot × Coordinator S R
  unfolding land
  ask arrivals s =
      let a = Coordinator.snapshot io (arriving arrivals s.coordinator) in
      if s.serving then (a.0, land a.1.arrivals a.1) else (err closed, s.coordinator)

  unfoldable pub fire : List (List Notification) → ℕ → System S R → System S R
  unfolding ask after_snap
  fire arrivals now s = after_snap w.quiescence now (ask arrivals s) s

  pub data Step : System S R → System S R → Type 0 where
    -- the callback of `notify`
    received :
        (s : System S R) (timestamp : String) (r : Received)
        → s.watching ≡ true
        → Step s (noted (callback w s.instant timestamp r) s)
    -- `CoordinatorHandle::touched` and `overflow`
    told : (s : System S R) (n : List Notification) → Step s (noted n s)
    -- `self.paused.send_replace(true)` of a clone of the handle
    pausing : (s : System S R) → Step s (record s { paused = true })
    -- `run` takes a command from the channel
    served :
        (s : System S R) (command : Command) (arrivals : List (List Notification))
        → s.serving ≡ true
        → Step s (serve command arrivals s).1
    -- `self.paused.send_replace(false)` of a clone whose resume was acknowledged
    resuming :
        (s : System S R) (n : ℕ)
        → s.resumed ≡ n + 1
        → Step s (record s { paused = false; resumed = n })
    -- `sleep` ends first
    fired :
        (s : System S R) (arrivals : List (List Notification)) (due now : ℕ)
        → s.watching ≡ true
        → next_due s ≡ some due
        → due ≤ s.instant
        → s.instant ≤ now
        → Step s (fire arrivals now s)
    elapsed : (s : System S R) (ms : ℕ) → Step s (record s { instant = s.instant + ms })

  pub data Reach (s : System S R) : System S R → Type 0 where
    here : Reach s s
    next : {t u : System S R} → Reach s t → Step t u → Reach s u
