-- ===== src/Core/System/Log.antt =====
-- The recorder of Core/System against its specification: a log of a session that only grows.
use rrjj.Prelude.{
  ◌==◌, ◌≡◌, refl, sym, ap, ◌∙◌, subst, Bool-cases, inl, inr, String, List, [], ◌∷◌, ◌++◌, arith,
  length, wrap64,
}
use rrjj.Prelude.Action.{Result, ok, err}
use rrjj.Schema.{Event, Snapshot}
use rrjj.Schema.Numbering.{OfSession}
use rrjj.Sinks.Error.{SinkError}
use rrjj.Sinks.Traits.{AcceptsLog, log_after}
use rrjj.Core.Coordinator.{
  Coordinator, Services, after_emit, emit_exact, emit, capture_tree, after_capture, hold_snapshot,
  after_audit, after_snapshot, after_retry, flush_sink, after_flush,
}
use rrjj.Core.Coordinator.Frame.{drain_audit-SameLog}
use rrjj.Core.Coordinator.Invariants.{IsStable}
use rrjj.Core.Coordinator.Logging.{IsLogged, IsLogged-stable, Held}
use rrjj.Core.Watcher.{Watch}
use rrjj.Core.System.{System, Reach}
use rrjj.Core.System.Invariants.{IsShared, IsLogged-shared, Reach-keeps}

-- A run of the specification, whose state is the log and whose one step appends the next event.
pub data Grows (session : String) (log : List Event) : List Event → Type 0 where
  same : Grows session log log
  grown :
      {later : List Event}
      → Grows session log later
      → (e : Event) → e.session_id ≡ session
      → e.seq ≡ wrap64 (length later)
      → Grows session log (later ++ e ∷ [])

module _ {S R : Type 0} (io : Services S R) (log : AcceptsLog io.sink) (session : String)
    (base : List Event) where
  record Has (c : Coordinator S R) : Type 0 where
    logged : IsLogged io log session c
    grows : Grows session base (log.accepted c.sink)

  after_emit-Grows :
      (e : Event) (a : Result SinkError Unit × S) (c : Coordinator S R)
      → OfSession session 0 e
      → e.seq ≡ c.seq
      → log.accepted a.1 ≡ log_after a.0 e (log.accepted c.sink)
      → Has c
      → Grows session base (log.accepted (after_emit a c).1.sink)
  unfolding after_emit
  after_emit-Grows e (ok u, s) c o q more h =
      subst (Grows session base) (sym more) (grown h.grows e o.0 (q ∙ h.logged.counted))
  after_emit-Grows e (err x, s) c o q unchanged h =
      subst (Grows session base) (sym unchanged) h.grows

  emit_exact-Grows :
      (e : Event) (c : Coordinator S R)
      → OfSession session 0 e
      → Has c
      → Grows session base (log.accepted (emit_exact io e c).1.sink)
  unfolding emit_exact
  emit_exact-Grows e c o h = elim (Bool-cases (e.seq == c.seq)) [
    | inl equal ↦ rw equal (
        after_emit-Grows e (io.sink.emit e c.sink) c o (ground arith) (log.accepted-emit e c.sink)
          h)
    | inr other ↦ rw other h.grows
  ]

  after_capture-sink :
      (a : Result String Snapshot × R) (c : Coordinator S R) → (after_capture a c).1.sink ≡ c.sink
  unfolding after_capture
  after_capture-sink (ok s, r) c = refl
  after_capture-sink (err e, r) c = refl

  after_flush-sink :
      (a : Result SinkError Unit × S) (c : Coordinator S R) → (after_flush a c).1.sink ≡ a.1
  unfolding after_flush
  after_flush-sink (ok u, s) c = refl
  after_flush-sink (err e, s) c = refl

  on_sink : {c d : Coordinator S R} → IsLogged io log session d → d.sink ≡ c.sink → Has c → Has d
  on_sink l q h = record {
    logged = l;
    grows = subst (λ s. Grows session base (log.accepted s)) (sym q) h.grows;
  }

  Has-stable : IsStable io Has
  unfolding emit capture_tree flush_sink hold_snapshot after_audit after_snapshot after_retry
  Has-stable =
      let l = IsLogged-stable io log session in
      record {
        emit = λ body. record {
          at = λ c h. record {
            logged = (l.emit body).at c h.logged;
            grows =
                emit_exact-Grows _ _ (h.logged.session_id, refl)
                  (on_sink (l.tick c h.logged) refl h);
          };
        };
        retained = λ e c held h. record {
          logged = l.retained e c held h.logged;
          grows = emit_exact-Grows e c (subst (Held session) held h.logged.held) h;
        };
        capture_tree = record {
          at = λ c h. on_sink (l.capture_tree.at c h.logged) (after_capture-sink _ c) h;
        };
        flush_sink = λ r. record {
          at = λ c h. record {
            logged = (l.flush_sink r).at c h.logged;
            grows =
                subst (Grows session base)
                  (sym (
                    ap log.accepted (after_flush-sink (io.sink.flush_session r c.sink) c)
                    ∙ log.accepted-flush_session r c.sink))
                  h.grows;
          };
        };
        drain_audit = λ c h. on_sink (l.drain_audit c h.logged) (drain_audit-SameLog c).sink h;
        hold_snapshot = λ s c h. on_sink (l.hold_snapshot s c h.logged) refl h;
        after_audit = λ c h. on_sink (l.after_audit c h.logged) refl h;
        after_snapshot = λ c h. on_sink (l.after_snapshot c h.logged) refl h;
        after_retry = λ c h. on_sink (l.after_retry c h.logged) refl h;
        left_with = λ ns c h. on_sink (l.left_with ns c h.logged) refl h;
        tick = λ c h. on_sink (l.tick c h.logged) refl h;
      }

  Has-shared : IsShared io Has
  Has-shared =
      let l = IsLogged-shared io log session in
      record {
        stable = Has-stable;
        paused = λ b c h. on_sink (l.paused b c h.logged) refl h;
        arriving = λ ns c h. on_sink (l.arriving ns c h.logged) refl h;
        noted = λ ns c h. on_sink (l.noted ns c h.logged) refl h;
      }

-- Refinement: in every interleaving, what the sink has accepted goes from its earlier content to its
-- later one by steps of the specification, each of which appends one event of the session that has
-- the log's length as its number; nothing that was accepted is changed, moved or removed.
pub Reach-Grows :
    {S R G : Type 0} (io : Services S R) (log : AcceptsLog io.sink) (session : String) (w : Watch G)
    {s t : System S R}
    → Reach io w s t
    → IsLogged io log session s.coordinator
    → Grows session (log.accepted s.coordinator.sink) (log.accepted t.coordinator.sink)
Reach-Grows io log session w {s = s} {t = t} r h =
    let kept =
      Reach-keeps io w (Has-shared io log session (log.accepted s.coordinator.sink)) r
        (record { logged = h; grows = same }) in
    kept.grows
