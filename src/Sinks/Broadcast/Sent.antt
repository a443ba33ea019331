-- ===== src/Sinks/Broadcast/Sent.antt =====
-- What crates/rrjj-sinks/src/broadcast.rs sends, beside what its durable sink accepts.
use rrjj.Prelude.{◌≡◌, ap, sym, ◌∙◌, [], ◌∷◌, ◌++◌}
use rrjj.Prelude.Action.{Result, ok, err}
use rrjj.Schema.{Event}
use rrjj.Sinks.Error.{SinkError}
use rrjj.Sinks.Traits.{Sink, AcceptsLog, log_after}
use rrjj.Sinks.Broadcast.{BroadcastSink, after_durable, emit}

module _ {S : Type 0} (inner : Sink S) (log : AcceptsLog inner) where
  after_durable-sent :
      (e : Event) (a : Result SinkError Unit × S) (s : BroadcastSink S)
      → log.accepted a.1 ≡ log_after a.0 e (log.accepted s.durable)
      → s.sent ≡ log.accepted s.durable
      → (after_durable inner e a s).1.sent ≡ log.accepted (after_durable inner e a s).1.durable
  after_durable-sent e (ok u, t) s grown same = ap (λ l. l ++ e ∷ []) same ∙ sym grown
  after_durable-sent e (err x, t) s grown same = same ∙ sym grown

  -- If what was broadcast is what the durable sink has accepted, it stays so with every emission,
  -- acknowledged or refused.
  pub emit-sent :
      (e : Event) (s : BroadcastSink S)
      → s.sent ≡ log.accepted s.durable
      → (emit inner e s).1.sent ≡ log.accepted (emit inner e s).1.durable
  unfolding emit
  emit-sent e s = after_durable-sent e (inner.emit e s.durable) s (log.accepted-emit e s.durable)
