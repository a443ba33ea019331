-- ===== src/Sinks/Local/Watermark.antt =====
-- The durable watermark of Sinks/Local.
use rrjj.Prelude.{◌≡◌, refl, sym, ap, ◌∙◌, Bool-cases, inl, inr, some, arith, ◌==◌}
use rrjj.Prelude.Action.{Result, ok, err, Action, resume, ◌>>=◌}
use rrjj.Schema.Manifest.{SessionManifest}
use rrjj.Sinks.Error.{IoError, SinkError}
use rrjj.Sinks.Traits.{FlushRequest}
use rrjj.Sinks.Local.Repository.{DirectorySyncStats, Sync}
use rrjj.Sinks.Local.{
  DirectorySessionSink, Outside, flush, flush_session, check_failed, latched, check_seq,
  sync_session, synced, after_flush, flush_spool,
}

-- How a session flush ends.
pub data Flushed {W F : Type 0} (r : FlushRequest) (s : DirectorySessionSink W F)
    : Result SinkError Unit × DirectorySessionSink W F → Type 0 where
  -- the durable watermark is the request's, which is the spool's end
  durable_now :
      (t : DirectorySessionSink W F)
      → r.last_seq ≡ s.state.manifest.last_seq
      → t.state.manifest.last_seq ≡ r.last_seq
      → t.state.manifest.durable_seq ≡ some r.last_seq
      → t.state.manifest.durable_op ≡ some r.last_op
      → Flushed r s (ok tt, t)
  unchanged :
      (x : SinkError) (t : DirectorySessionSink W F) → t.state ≡ s.state → Flushed r s (err x, t)

module _ {W F : Type 0} (out : Outside W F) where
  after_flush-state :
      (a : Result IoError Unit × W) (s : DirectorySessionSink W F)
      → (after_flush a s).1.state ≡ s.state
  after_flush-state (r, spool) s = refl

  -- The rest of a block keeps the state if it does from wherever it starts.
  resume-state :
      (a : Result SinkError Unit × DirectorySessionSink W F)
      (f : Unit → Action (DirectorySessionSink W F) SinkError Unit) (s : DirectorySessionSink W F)
      → a.1.state ≡ s.state
      → ((t : DirectorySessionSink W F) → (f tt t).1.state ≡ t.state)
      → (resume a.0 f a.1).1.state ≡ s.state
  resume-state (ok u, t) f s same k = k t ∙ same
  resume-state (err e, t) f s same k = same

  flush-state : (s : DirectorySessionSink W F) → (flush out s).1.state ≡ s.state
  unfolding flush check_failed
  flush-state s =
      resume-state (latched s.state.failed, s) _ s refl
        λ t. resume-state (flush_spool out out.writer.flush t) _ t refl λ u. refl

  synced-Flushed :
      (r : FlushRequest) (s t : DirectorySessionSink W F) (m : SessionManifest)
      (a : Result IoError DirectorySyncStats × Sync F)
      → t.state ≡ s.state
      → m.last_seq ≡ r.last_seq
      → r.last_seq ≡ s.state.manifest.last_seq
      → Flushed r s (synced out r m a t)
  synced-Flushed r s t m (ok stats, d) same last at_end = durable_now _ at_end last refl refl
  synced-Flushed r s t m (err e, d) same last at_end = unchanged _ _ same

  checked :
      (r : FlushRequest) (s t : DirectorySessionSink W F)
      → t.state ≡ s.state
      → Flushed r s (resume (check_seq out r t) (λ _. sync_session out r) t)
  unfolding check_seq sync_session
  checked r s t same = elim (Bool-cases (r.last_seq == t.state.manifest.last_seq)) [
    | inl equal ↦
        let at_end : r.last_seq ≡ t.state.manifest.last_seq = ground (arith, equal) in
        rw equal (
          synced-Flushed r s t (record (t.state.manifest) { last_op = r.last_op }) _ same
            (sym at_end) (at_end ∙ ap (λ d. d.manifest.last_seq) same))
    | inr differ ↦ rw differ (unchanged _ t same)
  ]

  flushed :
      (r : FlushRequest) (s : DirectorySessionSink W F)
      (a : Result SinkError Unit × DirectorySessionSink W F)
      → a.1.state ≡ s.state
      → Flushed r s
          (resume a.0 (λ _. (λ t. (check_seq out r t, t)) >>= λ _. sync_session out r) a.1)
  flushed r s (ok u, t) same = checked r s t same
  flushed r s (err e, t) same = unchanged e t same

-- A session flush that succeeds was asked for the sequence number at which the spool ends, and makes
-- it and the request's operation the durable watermark; one that fails leaves the sink's state,
-- watermark and all, as it was.
pub flush_session-Flushed :
    {W F : Type 0} (out : Outside W F) (r : FlushRequest) (s : DirectorySessionSink W F)
    → Flushed r s (flush_session out r s)
unfolding flush_session
flush_session-Flushed out r s = flushed out r s (flush out s) (flush-state out s)
