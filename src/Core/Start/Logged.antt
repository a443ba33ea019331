-- ===== src/Core/Start/Logged.antt =====
-- What the invariants of the coordinator need, after `initialize` of crates/rrjj-core/src/lib.rs.
use rrjj.Prelude.{ℕ, ◌≡◌, refl, String, List, [], subst}
use rrjj.Prelude.Action.{Result, ok, err}
use rrjj.Schema.{Snapshot}
use rrjj.Sinks.Traits.{AcceptsLog}
use rrjj.Core.Audit.{Notification}
use rrjj.Core.Audit.Bounds.{empty_audit-IsTimed}
use rrjj.Core.Coordinator.{Config, Coordinator, CoordinatorError, Services, emit}
use rrjj.Core.Coordinator.Logging.{IsLogged, IsLogged-stable}
use rrjj.Core.Coordinator.Settling.{IsStarted}
use rrjj.Core.Coordinator.Started.{IsStarted-stable}
use rrjj.Core.Start.{fresh, session_start, started, after_baseline, initialize}

module _ {S R : Type 0} (io : Services S R) (log : AcceptsLog io.sink) (rrjj_version : String) where
  fresh-IsLogged :
      (config : Config) (sink : S) (recorder : R) (arrivals : List (List Notification)) (clock : ℕ)
      → log.accepted sink ≡ []
      → IsLogged io log config.session_id (fresh config sink recorder arrivals clock)
  fresh-IsLogged config sink recorder arrivals clock nil = record {
    session_id = refl;
    numbered = rw nil tt;
    counted = rw nil refl;
    one_session = rw nil tt;
    held = tt;
  }

  fresh-IsStarted :
      (config : Config) (sink : S) (recorder : R) (arrivals : List (List Notification)) (clock : ℕ)
      → IsStarted (fresh config sink recorder arrivals clock)
  fresh-IsStarted config sink recorder arrivals clock = record {
    stamped = λ ne. absurd (ne refl);
    timed = empty_audit-IsTimed;
  }

  started-keeps :
      (P : Coordinator S R → Type 0) (a : Result CoordinatorError Unit × Coordinator S R)
      (c : Coordinator S R)
      → started io rrjj_version a ≡ ok c
      → P a.1
      → P c
  started-keeps P (ok u, d) c h p = subst P (same d c h) p
    where
      same :
          (d c : Coordinator S R)
          → ◌≡◌ {A = Result CoordinatorError (Coordinator S R)} (ok d) (ok c)
          → d ≡ c
      same d c h = cc
  started-keeps P (err e, d) c h p = cc

  begun :
      (config : Config) (sink : S) (arrivals : List (List Notification)) (clock : ℕ)
      (a : Result String Snapshot × R) (c : Coordinator S R)
      → log.accepted sink ≡ []
      → after_baseline io rrjj_version config sink arrivals clock a ≡ ok c
      → IsLogged io log config.session_id c × IsStarted c
  begun config sink arrivals clock (ok baseline, recorder) c nil h =
      let body = session_start rrjj_version config baseline in
      let first = fresh config sink recorder arrivals clock in
      (
        started-keeps (IsLogged io log config.session_id) (emit io body first) c h (
            ((IsLogged-stable io log config.session_id).emit body).at first
              (fresh-IsLogged config sink recorder arrivals clock nil)),
        started-keeps IsStarted (emit io body first) c h (
            ((IsStarted-stable io).emit body).at first
              (fresh-IsStarted config sink recorder arrivals clock)),
      )
  begun config sink arrivals clock (err e, recorder) c nil h = cc

  -- On a sink that has accepted nothing, `initialize` returns a coordinator whose log counts up from 0
  -- in the session of its configuration, and whose window has a timestamp if it has a path.
  pub initialize-IsLogged :
      (config : Config) (sink : S) (recorder : R) (arrivals : List (List Notification)) (clock : ℕ)
      (c : Coordinator S R)
      → log.accepted sink ≡ []
      → initialize io rrjj_version config sink recorder arrivals clock ≡ ok c
      → IsLogged io log config.session_id c × IsStarted c
  unfolding initialize
  initialize-IsLogged config sink recorder arrivals clock c nil h =
      begun config sink arrivals clock (io.recorder.capture _ config.max_changes_per_event recorder)
        c nil h
