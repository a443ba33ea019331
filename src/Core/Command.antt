-- ===== src/Core/Command.antt =====
-- The command loop of crates/rrjj-core/src/lib.rs: `Coordinator::run` on the commands that
-- `CoordinatorHandle` sends. A reply channel is the reply that is returned.
pub mod Invariants
use rrjj.Prelude.{true, false, String, List, [], ◌∷◌}
use rrjj.Prelude.Action.{Result, Action, gets, ◌>>=◌, ◌>>◌}
use rrjj.Schema.{Snapshot}
use rrjj.Core.Coordinator
use rrjj.Core.Coordinator.{
  Status, CoordinatorError, Services, Coordinator, drain_audit, settle, rounds,
}

pub data Command : Type 0 where
  status : Command
  snap : Command
  mark : (label meta : String) → Command
  flush : Command
  pause : Command
  resume : Command
  shutdown : (reason : String) → Command

pub data Reply : Type 0 where
  with_status : Result CoordinatorError Status → Reply
  with_snapshot : Result CoordinatorError Snapshot → Reply
  done : Result CoordinatorError Unit → Reply

module _ {S R : Type 0} (io : Services S R) where
  -- the `async` block of `Command::Resume`
  unfoldable pub resume_capture : Action (Coordinator S R) CoordinatorError Status
  resume_capture = do (λ c. settle io (rounds c) c); gets (Coordinator.status io)

  -- The arms of the `match`, up to `return`.
  unfoldable pub handle : Command → Coordinator S R → Reply × Coordinator S R
  unfolding resume_capture
  handle Command.status c = (with_status (Result.ok (Coordinator.status io c)), c)
  handle Command.snap c = let (r, c') = Coordinator.snapshot io c in (with_snapshot r, c')
  handle (Command.mark label meta) c =
      let (r, c') = Coordinator.mark io label meta c in (done r, c')
  handle Command.flush c = let (r, c') = Coordinator.flush io c in (with_status r, c')
  handle Command.pause c =
      let c' = record c { paused = true } in
      (with_status (Result.ok (Coordinator.status io c')), c')
  handle Command.resume c =
      let (r, c') = resume_capture (record (drain_audit c) { paused = false }) in
      (with_status r, c')
  handle (Command.shutdown reason) c = let (r, c') = Coordinator.finish io reason c in (done r, c')

  -- `run`: a shutdown ends the loop, and so does the end of the channel, after a last `finish`.
  unfoldable pub run : List Command → Coordinator S R → Coordinator S R
  unfolding handle
  run [] c = (Coordinator.finish io "control_channel_closed" c).1
  run (Command.shutdown reason ∷ rest) c = (handle (Command.shutdown reason) c).1
  run (command ∷ rest) c = run rest (handle command c).1
