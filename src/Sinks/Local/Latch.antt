-- ===== src/Sinks/Local/Latch.antt =====
-- The branches of `emit` and `flush_session` of Sinks/Local.
use rrjj.Prelude.{ℕ, ◌+◌, ◌≤◌, ◌≡◌, refl, Option, none, some, List, arith, length, wrap64}
use rrjj.Prelude.Action.{Result, ok, err, Action, and_then-eq-ok, resume, ◌>>=◌}
use rrjj.Schema.{Event}
use rrjj.Sinks.Error.{IoError, SinkError, failed}
use rrjj.Sinks.Traits.{FlushRequest}
use rrjj.Sinks.Journal.{encode_line}
use rrjj.Sinks.Local.{
  DirectorySessionSink, Outside, accept, after_write, on_spool, observe_manifest, admit, append,
  emit, flush, flush_session, check_failed, check_room, latched, fail_io,
}

-- How an `emit` of `e` in the state `s` ends.
pub data Emitted {W F : Type 0} (e : Event) (s : DirectorySessionSink W F)
    : Result SinkError Unit × DirectorySessionSink W F → Type 0 where
  -- accepted: the manifest and the size say so
  accepted :
      (t : DirectorySessionSink W F)
      → t.state.manifest.last_seq ≡ e.seq
      → t.state.spool_bytes ≤ t.max_spool_bytes
      → t.state.failed ≡ none
      → Emitted e s (ok tt, t)
  -- refused before anything was written
  refused : (x : SinkError) → Emitted e s (err x, s)
  -- a write failed: the failure is kept
  broken :
      (x : SinkError) (t : DirectorySessionSink W F)
      → t.state.failed ≡ some x
      → t.state.manifest ≡ s.state.manifest
      → Emitted e s (err x, t)

module _ {W F : Type 0} (out : Outside W F) where
  check_room-ok :
      (line given : List ℕ) (s : DirectorySessionSink W F)
      → check_room given s ≡ ok line
      → wrap64 (s.state.spool_bytes + length line) ≤ s.max_spool_bytes
  unfolding check_room
  check_room-ok line given s h = ground (arith, h)

  admit-room :
      (e : Event) (line : List ℕ) (s : DirectorySessionSink W F)
      → admit out e s ≡ ok line
      → wrap64 (s.state.spool_bytes + length line) ≤ s.max_spool_bytes
  unfolding admit
  admit-room e line s h =
      let (given, encoded, room) = and_then-eq-ok (encode_line out.encode e) _ h in
      check_room-ok line given s room

  -- What the writes leave alone.
  record SameState (s t : DirectorySessionSink W F) : Type 0 where
    manifest : t.state.manifest ≡ s.state.manifest
    spool_bytes : t.state.spool_bytes ≡ s.state.spool_bytes
    limit : t.max_spool_bytes ≡ s.max_spool_bytes
    whole : t.state.failed ≡ none

  -- A call on the spool, and what follows it.
  on_spool-Emitted :
      (e : Event) (s t : DirectorySessionSink W F) (a : Result IoError Unit × W)
      (next : Action (DirectorySessionSink W F) SinkError Unit)
      → SameState s t
      → ((u : DirectorySessionSink W F) → SameState s u → Emitted e s (next u))
      → Emitted e s (resume (after_write a t).0 (λ _. next) (after_write a t).1)
  unfolding after_write fail_io
  on_spool-Emitted e s t (ok u, spool) next same k =
      k (record t { spool = spool })
        (record {
          manifest = same.manifest;
          spool_bytes = same.spool_bytes;
          limit = same.limit;
          whole = same.whole;
        })
  on_spool-Emitted e s t (err x, spool) next same k = broken _ _ refl same.manifest

  accept-Emitted :
      (e : Event) (line : List ℕ) (s t : DirectorySessionSink W F)
      → wrap64 (s.state.spool_bytes + length line) ≤ s.max_spool_bytes
      → SameState s t
      → Emitted e s (ok tt, observe_manifest out (accept e line t))
  unfolding accept observe_manifest
  accept-Emitted e line s t room same =
      accepted _ refl (omega (arith, room, same.spool_bytes, same.limit)) same.whole

  append-Emitted :
      (e : Event) (line : List ℕ) (s : DirectorySessionSink W F)
      → s.state.failed ≡ none
      → wrap64 (s.state.spool_bytes + length line) ≤ s.max_spool_bytes
      → Emitted e s (append out e line s)
  unfolding append on_spool
  append-Emitted e line s whole room =
      on_spool-Emitted e s s (out.writer.write_all line s.spool) _
        (record { manifest = refl; spool_bytes = refl; limit = refl; whole = whole })
        λ t st. on_spool-Emitted e s t (out.writer.flush t.spool) _ st λ u su.
          on_spool-Emitted e s u (out.writer.sync_data u.spool) _ su
            λ v sv. accept-Emitted e line s v room sv

  admitted :
      (e : Event) (s : DirectorySessionSink W F) (r : Result SinkError (List ℕ))
      → s.state.failed ≡ none
      → admit out e s ≡ r
      → Emitted e s (resume r (append out e) s)
  admitted e s (ok line) whole h = append-Emitted e line s whole (admit-room e line s h)
  admitted e s (err x) whole h = refused x

  latched-Emitted :
      (e : Event) (s : DirectorySessionSink W F) (failed : Option SinkError)
      → s.state.failed ≡ failed
      → Emitted e s (resume (latched failed) (λ _. (λ t. (admit out e t, t)) >>= append out e) s)
  latched-Emitted e s none whole = admitted e s (admit out e s) whole refl
  latched-Emitted e s (some x) h = refused _

  -- An emit ends in one of three ways: the event is accepted, is the manifest's last one and leaves
  -- the spool within its limit; it is refused and nothing has changed; or a write has failed, and the
  -- failure is kept, with the manifest as it was.
  pub emit-Emitted : (e : Event) (s : DirectorySessionSink W F) → Emitted e s (emit out e s)
  unfolding emit check_failed
  emit-Emitted e s = latched-Emitted e s s.state.failed refl

-- After a failure that was kept, every emit, flush and session flush fails and changes nothing.
failed-refuses :
    {W F : Type 0} (out : Outside W F) (e : Event) (r : FlushRequest) (s : DirectorySessionSink W F)
    {x : SinkError}
    → s.state.failed ≡ some x
    → (emit out e s ≡ (err (failed "an earlier write failed"), s))
      × (flush out s ≡ (err (failed "an earlier write failed"), s))
      × (flush_session out r s ≡ (err (failed "an earlier write failed"), s))
unfolding emit flush flush_session check_failed
failed-refuses out e r s h = rw h (refl, refl, refl)
