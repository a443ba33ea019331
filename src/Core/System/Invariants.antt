-- ===== src/Core/System/Invariants.antt =====
-- What all interleavings of Core/System keep of the coordinator and its log.
use rrjj.Prelude.{Bool, Bool-cases, inl, inr, ℕ, String, List, [], ◌∷◌}
use rrjj.Prelude.Action.{Result, ok, err}
use rrjj.Schema.{Snapshot}
use rrjj.Sinks.Traits.{AcceptsLog}
use rrjj.Core.Audit.{Notification, notify_all}
use rrjj.Core.Coordinator
use rrjj.Core.Coordinator.{Coordinator, CoordinatorError, Services}
use rrjj.Core.Coordinator.Invariants.{IsStable, IsStable-IsSteady, snapshot-Keeps}
use rrjj.Core.Coordinator.Logging.{IsLogged, IsLogged-stable, beside-IsLogged}
use rrjj.Core.Command.{Command, handle}
use rrjj.Core.Command.Invariants.{handle-Keeps}
use rrjj.Core.Watcher.{Watch, fatal_capture_error}
use rrjj.Core.System.{
  System, arriving, land, after_command, after_snap, serve, ask, fire, Step, received, told,
  pausing, served, resuming, fired, elapsed, Reach, here, next,
}

module _ {S R : Type 0} (P : Coordinator S R → Type 0) where
  after_snap-keeps :
      (quiescence now : ℕ) (a : Result CoordinatorError Snapshot × Coordinator S R) (s : System S R)
      → P a.1
      → P (after_snap quiescence now a s).coordinator
  unfolding after_snap
  after_snap-keeps quiescence now (ok snapshot, c) s h = h
  after_snap-keeps quiescence now (err e, c) s h = elim (Bool-cases (fatal_capture_error e)) [
    | inl fatal ↦ rw fatal h
    | inr other ↦ rw other h
  ]

-- A predicate on the coordinator that the primitive steps keep, and that neither the flag `paused`
-- nor a note in the accumulator touches.
pub record IsShared {S R : Type 0} (io : Services S R) (P : Coordinator S R → Type 0) : Type 0 where
  pub stable : IsStable io P
  pub paused : (b : Bool) (c : Coordinator S R) → P c → P (record c { paused = b })
  pub arriving : (ns : List (List Notification)) (c : Coordinator S R) → P c → P (arriving ns c)
  pub noted :
      (ns : List Notification) (c : Coordinator S R)
      → P c
      → P (record c { audit = notify_all ns c.audit })

module _ {S R G : Type 0} (io : Services S R) (w : Watch G) {P : Coordinator S R → Type 0}
    (p : IsShared io P) where
  land-keeps : (later : List (List Notification)) (c : Coordinator S R) → P c → P (land later c)
  unfolding land
  land-keeps [] c h = p.arriving [] c h
  land-keeps (ns ∷ later) c h =
      land-keeps later (record c { audit = notify_all ns c.audit }) (p.noted ns c h)

  serve-keeps :
      (command : Command) (arrivals : List (List Notification)) (s : System S R)
      → P s.coordinator
      → P (serve io w command arrivals s).1.coordinator
  unfolding serve after_command
  serve-keeps command arrivals s h =
      let c = (handle io command (arriving arrivals s.coordinator)).1 in
      land-keeps c.arrivals c (
        handle-Keeps io (IsStable-IsSteady io p.stable) p.paused command
          (arriving arrivals s.coordinator) (p.arriving arrivals s.coordinator h))

  ask-keeps :
      (arrivals : List (List Notification)) (s : System S R)
      → P s.coordinator
      → P (ask io w arrivals s).1
  unfolding ask
  ask-keeps arrivals s h =
      let c = (Coordinator.snapshot io (arriving arrivals s.coordinator)).1 in
      elim (Bool-cases s.serving) [
        | inl serving ↦ rw serving (
            land-keeps c.arrivals c (
              (snapshot-Keeps io (IsStable-IsSteady io p.stable)).at
                (arriving arrivals s.coordinator) (p.arriving arrivals s.coordinator h)))
        | inr stopped ↦ rw stopped h
      ]

  Step-keeps : {s t : System S R} → Step io w s t → P s.coordinator → P t.coordinator
  unfolding fire
  Step-keeps (received s timestamp r on) h = p.noted _ s.coordinator h
  Step-keeps (told s n) h = p.noted n s.coordinator h
  Step-keeps (pausing s) h = h
  Step-keeps (served s command arrivals on) h = serve-keeps command arrivals s h
  Step-keeps (resuming s n some_resumed) h = h
  Step-keeps (fired s arrivals d now on is_due past later) h =
      after_snap-keeps P w.quiescence now (ask io w arrivals s) s (ask-keeps arrivals s h)
  Step-keeps (elapsed s ms) h = h

  pub Reach-keeps : {s t : System S R} → Reach io w s t → P s.coordinator → P t.coordinator
  Reach-keeps here h = h
  Reach-keeps (next r step) h = Step-keeps step (Reach-keeps r h)

module _ {S R : Type 0} (io : Services S R) (log : AcceptsLog io.sink) (session : String) where
  pub IsLogged-shared : IsShared io (IsLogged io log session)
  IsLogged-shared = record {
    stable = IsLogged-stable io log session;
    paused = λ b c. beside-IsLogged io log session b c.audit c.arrivals c;
    arriving = λ ns c. beside-IsLogged io log session c.paused c.audit ns c;
    noted = λ ns c. beside-IsLogged io log session c.paused (notify_all ns c.audit) c.arrivals c;
  }
