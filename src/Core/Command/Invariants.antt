-- ===== src/Core/Command/Invariants.antt =====
-- The rule for invariants over the command loop, and what it gives for the log.
use rrjj.Prelude.{Bool, true, false, String, List, [], ◌∷◌}
use rrjj.Prelude.Action.{Keeps, Keeps-bind, Keeps-gets, gets}
use rrjj.Sinks.Traits.{AcceptsLog}
use rrjj.Core.Coordinator
use rrjj.Core.Coordinator.{Coordinator, Services, settle, rounds, drain_audit}
use rrjj.Core.Coordinator.Counting.{IsCounted, IsCounted-steady}
use rrjj.Core.Coordinator.Invariants.{
  IsSteady, IsStable-IsSteady, snapshot-Keeps, settle-Keeps, mark-Keeps, finish-Keeps, flush-Keeps,
}
use rrjj.Core.Coordinator.Logging.{IsLogged, IsLogged-stable, beside-IsLogged}
use rrjj.Core.Command.{Command, handle, run, resume_capture}

module _ {S R : Type 0} (io : Services S R) {P : Coordinator S R → Type 0} (p : IsSteady io P) where
  pub resume_capture-Keeps : Keeps P (resume_capture io)
  unfolding resume_capture
  resume_capture-Keeps =
      Keeps-bind _ (λ _. gets (Coordinator.status io))
        (record { at = λ c h. (settle-Keeps io p (rounds c)).at c h })
        (λ _. Keeps-gets (Coordinator.status io))

  -- `paused` is what the commands themselves change.
  pub handle-Keeps :
      ((b : Bool) (c : Coordinator S R) → P c → P (record c { paused = b }))
      → (command : Command) (c : Coordinator S R) → P c
      → P (handle io command c).1
  unfolding handle
  handle-Keeps z Command.status c h = h
  handle-Keeps z Command.snap c h = (snapshot-Keeps io p).at c h
  handle-Keeps z (Command.mark label meta) c h = (mark-Keeps io p label meta).at c h
  handle-Keeps z Command.flush c h = (flush-Keeps io p).at c h
  handle-Keeps z Command.pause c h = z true c h
  handle-Keeps z Command.resume c h =
      resume_capture-Keeps.at _ (z false (drain_audit c) (p.drain_audit c h))
  handle-Keeps z (Command.shutdown reason) c h = (finish-Keeps io p reason).at c h

  pub run-Keeps :
      ((b : Bool) (c : Coordinator S R) → P c → P (record c { paused = b }))
      → (commands : List Command) (c : Coordinator S R) → P c
      → P (run io commands c)
  unfolding run
  run-Keeps z [] c h = (finish-Keeps io p "control_channel_closed").at c h
  run-Keeps z (Command.shutdown reason ∷ rest) c h = handle-Keeps z (Command.shutdown reason) c h
  run-Keeps z (command ∷ rest) c h =
      run-Keeps z rest (handle io command c).1 (handle-Keeps z command c h)

-- Whatever commands arrive and whatever the sink, the recorder and the watcher do between them, the
-- events that the sink has accepted at the end of the loop count up from 0 in the coordinator's
-- session, and `seq` is the next number.
pub run-IsLogged :
    {S R : Type 0} (io : Services S R) (log : AcceptsLog io.sink) (session : String)
    (commands : List Command) (c : Coordinator S R)
    → IsLogged io log session c
    → IsLogged io log session (run io commands c)
run-IsLogged io log session =
    run-Keeps io (IsStable-IsSteady io (IsLogged-stable io log session))
      (λ b c. beside-IsLogged io log session b c.audit c.arrivals c)

-- Whatever commands arrive and whatever the sink, the recorder and the watcher do between them, the
-- counter `snapshots` at the end of the loop is the number of snapshot events that the sink has
-- accepted, modulo 2 ^ 64, if it was at its start, and a retained event is a snapshot.
pub run-IsCounted :
    {S R : Type 0} (io : Services S R) (log : AcceptsLog io.sink) (commands : List Command)
    (c : Coordinator S R)
    → IsCounted io log c
    → IsCounted io log (run io commands c)
run-IsCounted io log =
    run-Keeps io (IsCounted-steady io log) (λ b c h. record { counted = h.counted; held = h.held })
