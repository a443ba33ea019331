-- ===== src/Sinks/Git.antt =====
-- `GitCheckpointSink` of crates/rrjj-sinks/src/git.rs: checkpoints of a session as a reference of a
-- remote git repository. git2 is a parameter; an object id is the text that `to_string` gives of it.
mod Tests
pub mod Refs
pub mod Check
use Prim.Native.String.{◌++◌ as text_append}
use Prim.Native.Char.{Char, char}
use rrjj.Prelude.{
  ℕ, Bool, true, false, ◌&&◌, ◌||◌, not, String, str_eq, Option, none, some, List, [], ◌∷◌,
  if◌then◌else◌,
}
use rrjj.Prelude.Action.{
  modify, Result, ok, err, Action, and_then, map_err, lift, pure, fail, gets, ◌>>=◌, ◌>>◌,
}
use rrjj.Prelude.Texts.{
  is_empty_text, trim_end, starts_with, contains, contains_char, ends_with_char,
}
use rrjj.Sinks.Error.{
  IoError, SinkError, serialize, io, failed, invalid_flush, invalid_config, checkpoint_conflict,
  event_conflict, transient, not_found,
}
use rrjj.Sinks.Traits.{CheckpointRequest, CheckpointPublication, CheckpointSink}
use rrjj.Sinks.Util.Oid.{normalize_commit_oid}
use rrjj.Sinks.Files.{Location, Files, join, parent, write_json_atomic}

abbrev pub slash : Char
slash = char 47 tt

pub record GitCheckpointConfig : Type 0 where
  pub remote_url : String
  pub authorization : Option String
  pub ref_prefix : String
  pub session_id : String
  pub cursor_path : Location

unfoldable pub validate_ref_prefix : String → Result SinkError Unit
validate_ref_prefix prefix =
    if not (starts_with "refs/" prefix) || starts_with "refs/heads" prefix
    then err (invalid_config "git ref prefix must be under refs/ and outside refs/heads")
    else if contains "//" prefix || ends_with_char slash prefix
    then err (invalid_config "git ref prefix must not end with '/' or contain '//'")
    else ok tt

unfoldable pub validate_session_id : String → Result SinkError Unit
validate_session_id session_id =
    if is_empty_text session_id
      || contains_char slash session_id
      || contains_char (char 92 tt) session_id
      || contains_char (char 0 tt) session_id
      || contains ".." session_id
    then err (invalid_config "session id is not safe for a git ref name")
    else ok tt

-- `format!("{}/{}", …)`
unfoldable pub session_ref : GitCheckpointConfig → String
session_ref config =
    text_append (trim_end slash config.ref_prefix) (text_append "/" config.session_id)

unfoldable pub check_ref : String → Result SinkError Unit
check_ref name =
    if starts_with "refs/heads/" name || not (starts_with "refs/" name)
    then err (invalid_config "recorder ref must be under refs/ and outside refs/heads")
    else ok tt

-- What the code uses of git2: the shadow repository and the remote one, in one state.
pub record Git (W : Type 0) : Type 0 where
  pub open_bare : (git_dir : String) → W → Result String Unit
  pub oid_from_str : String → Result String String
  pub find_commit : String → W → Result String Unit
  -- the local reference, made or moved
  pub reference : (name oid : String) → Action W String Unit
  -- `Repository::open(url).or_else(open_bare(url))`
  pub opens : (url : String) → W → Bool
  pub remote_reference : (url name : String) → W → Option String
  pub local_reference : (name : String) → W → Option String
  pub remote_anonymous : (url : String) → W → Result String Unit
  pub fetch : (authorization : Option String) (refspec : String) → Action W String Unit
  -- `Remote::push`, with the status that the server gave for the reference, if it refused it
  pub push : (authorization : Option String) (name : String) → Action W String (Option String)
  -- what other writers do to the remote repository between the look at it and the push
  pub others : W → W

abbrev pub is_timeout : String → Bool
is_timeout message =
    contains "timed out" message
    || contains "Could not connect" message
    || contains "Failed to connect" message

unfoldable pub push_error : String → SinkError
push_error message =
    if contains "non-fast-forward" message
      || contains "cannot lock ref" message
      || contains "rejected" message
    then checkpoint_conflict message
    else if is_timeout message
    then transient message
    else failed message

-- `Ok(None)` is a remote that does not have the reference.
unfoldable pub fetch_error : String → Result SinkError (Option String)
fetch_error message =
    if contains "not found" message
      || contains "couldn't find remote ref" message
      || contains "does not exist" message
    then ok none
    else err (if is_timeout message then transient message else failed message)

-- What the `match` on the remote's tip decides.
pub data Decision : Type 0 where
  published advance : Decision
  conflict : String → Decision

unfoldable pub decide : Option String → Option String → String → Decision
decide none expected commit = advance
decide (some tip) (some expected) commit =
    if str_eq tip commit
    then published
    else if str_eq tip expected
    then advance
    else conflict "remote is not at the expected commit"
decide (some tip) none commit =
    if str_eq tip commit
    then published
    else conflict "remote already exists; refusing unconditional create"

module _ {W : Type 0} (git : Git W) where
  abbrev pub cache_ref : GitCheckpointConfig → String
  cache_ref config = text_append "refs/rrjj/remote-cache/" config.session_id

  abbrev pub refspec : String → GitCheckpointConfig → String
  refspec name config = text_append "+" (text_append name (text_append ":" (cache_ref config)))

  abbrev pub after_fetch :
      GitCheckpointConfig → Result String Unit × W → Result SinkError (Option String) × W
  after_fetch config (ok _, w) = (ok (git.local_reference (cache_ref config) w), w)
  after_fetch config (err message, w) = (fetch_error message, w)

  unfoldable pub fetch_remote_tip :
      GitCheckpointConfig → String → Action W SinkError (Option String)
  unfolding fetch_error
  fetch_remote_tip config name w =
      after_fetch config (git.fetch config.authorization (refspec name config) w)

  abbrev pub open_remote : GitCheckpointConfig → Action W SinkError Unit
  open_remote config w = (map_err failed (git.remote_anonymous config.remote_url w), w)

  unfoldable pub remote_tip : GitCheckpointConfig → String → Action W SinkError (Option String)
  unfolding fetch_remote_tip
  remote_tip config name w =
      if git.opens config.remote_url w
      then (ok (git.remote_reference config.remote_url name w), w)
      else (open_remote config >> fetch_remote_tip config name) w

  abbrev pub on_push :
      String → Result String (Option String) × W → Result SinkError CheckpointPublication × W
  on_push commit (ok none, w) = (ok (record { checkpoint = commit }), w)
  on_push commit (ok (some status), w) = (err (checkpoint_conflict status), w)
  on_push commit (err message, w) = (err (push_error message), w)

  unfoldable pub push_ref :
      GitCheckpointConfig → String → String → Action W SinkError CheckpointPublication
  unfolding push_error
  push_ref config name commit =
      open_remote config >> λ w. on_push commit (git.push config.authorization name w)

  unfoldable pub carry_out :
      GitCheckpointConfig → String → String → Decision → Action W SinkError CheckpointPublication
  unfolding push_ref
  carry_out config name commit published = pure (record { checkpoint = commit })
  carry_out config name commit advance = push_ref config name commit
  carry_out config name commit (conflict message) = fail (checkpoint_conflict message)

  unfoldable pub swap :
      GitCheckpointConfig
      → String
      → String
      → Option String
      → Action W SinkError CheckpointPublication
  unfolding remote_tip decide carry_out
  swap config name commit expected = do
    tip ← remote_tip config name
    modify git.others
    carry_out config name commit (decide tip expected commit)

  -- The checks on the shadow repository: the commit's id.
  unfoldable pub local_commit : String → String → Action W SinkError String
  local_commit shadow_root commit w = (
    and_then (map_err failed (git.open_bare (text_append shadow_root "/repo/store/git") w)) λ _.
        and_then (map_err invalid_flush (git.oid_from_str commit))
          λ oid. and_then (map_err invalid_flush (git.find_commit oid w)) λ _. ok oid,
    w,
  )

  unfoldable pub update_reference : String → String → Action W SinkError Unit
  update_reference name oid w = let (r, w') = git.reference name oid w in (map_err failed r, w')

  unfoldable pub push_checkpoint_from_shadow :
      GitCheckpointConfig
      → (shadow_root name commit : String) (expected : Option String)
      → Action W SinkError CheckpointPublication
  unfolding check_ref local_commit update_reference swap
  push_checkpoint_from_shadow config shadow_root name commit expected = do
    lift (check_ref name)
    oid ← local_commit shadow_root commit
    update_reference name oid
    swap config name commit expected

-- The cursor's file, and what serde makes of its content.
pub record CursorFile : Type 0 where
  pub decode : List ℕ → Result String (Option String)
  pub encode : String → Result IoError (List ℕ)

pub record GitCheckpointSink (W F : Type 0) : Type 0 where
  pub config : GitCheckpointConfig
  pub last_pushed : Option String
  pub world : W
  pub disk : F

module _ {W F : Type 0} (git : Git W) (files : Files F) (cursor : CursorFile) where
  abbrev pub pushed_oid : Result IoError (List ℕ) → Result SinkError (Option String)
  pushed_oid (ok bytes) = map_err serialize (cursor.decode bytes)
  pushed_oid (err not_found) = ok none
  pushed_oid (err e) = err (io e)

  unfoldable pub read_pushed_oid : Location → F → Result SinkError (Option String)
  read_pushed_oid path disk = pushed_oid (files.read path disk)

  unfoldable pub write_pushed_oid : Location → String → Action F IoError Unit
  write_pushed_oid path checkpoint =
      files.create_dir_all (parent path) >> write_json_atomic files path (cursor.encode checkpoint)

  unfoldable pub create : GitCheckpointConfig → W → F → Result SinkError (GitCheckpointSink W F)
  unfolding validate_ref_prefix validate_session_id read_pushed_oid
  create config world disk = and_then (validate_ref_prefix config.ref_prefix) λ _.
      and_then (validate_session_id config.session_id) λ _.
        and_then (read_pushed_oid config.cursor_path disk) λ last_pushed.
          ok (record { config = config; last_pushed = last_pushed; world = world; disk = disk })

  abbrev pub after_push :
      Result SinkError CheckpointPublication × W
      → Action (GitCheckpointSink W F) SinkError CheckpointPublication
  after_push (r, w) s = (r, record s { world = w })

  abbrev pub after_cursor :
      Result IoError Unit × F
      → GitCheckpointSink W F
      → Result SinkError Unit × GitCheckpointSink W F
  after_cursor (r, disk) s = (map_err io r, record s { disk = disk })

  -- `*last_pushed = Some(checkpoint)`, and then its file
  unfoldable pub record_pushed : String → Action (GitCheckpointSink W F) SinkError Unit
  unfolding write_pushed_oid
  record_pushed checkpoint s =
      after_cursor (write_pushed_oid s.config.cursor_path checkpoint s.disk)
        (record s { last_pushed = some checkpoint })

  -- Redacting a message leaves the kind of an error, and is left out.
  unfoldable pub push_checkpoint :
      String → String → Action (GitCheckpointSink W F) SinkError CheckpointPublication
  push_checkpoint shadow_root commit s =
      after_push
        (push_checkpoint_from_shadow git s.config shadow_root (session_ref s.config) commit
          s.last_pushed s.world)
        s

  unfoldable pub publish_checkpoint :
      CheckpointRequest → Action (GitCheckpointSink W F) SinkError CheckpointPublication
  unfolding normalize_commit_oid push_checkpoint record_pushed
  publish_checkpoint request = do
    commit ← lift (normalize_commit_oid request.commit)
    result ← push_checkpoint request.shadow_root commit
    record_pushed result.checkpoint
    pure result

  unfoldable pub checkpoint_sink : CheckpointSink (GitCheckpointSink W F)
  unfolding publish_checkpoint
  checkpoint_sink = record { publish_checkpoint = publish_checkpoint }
