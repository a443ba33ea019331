-- ===== src/Sinks/Git/Check.antt =====
-- What a checkpoint does to the remote reference of Sinks/Git.
use Prim.Native.String.{◌++◌ as text_append}
use rrjj.Prelude.{◌≡◌, ◌⊎◌, true, String, Option, none, some}
use rrjj.Prelude.Action.{Result, ok, err, and_then, map_err}
use rrjj.Sinks.Error.{SinkError, invalid_flush}
use rrjj.Sinks.Traits.{CheckpointPublication}
use rrjj.Sinks.Git.{
  Git, GitCheckpointConfig, Decision, published, advance, conflict, fetch_error, cache_ref, refspec,
}

-- What the code relies on of git: one reference of the remote repository and the shadow repository's
-- reference of the same name.
pub record HasRemote {W : Type 0} (git : Git W) (config : GitCheckpointConfig) (name : String)
    : Type 0 where
  pub remote : W → Option String
  pub local : W → Option String
  pub reference-local :
      (oid : String) (w : W)
      → (git.reference name oid w).0 ≡ ok tt
      → local (git.reference name oid w).1 ≡ some oid
  pub reference-remote : (oid : String) (w : W) → remote (git.reference name oid w).1 ≡ remote w
  pub opened :
      (w : W)
      → git.opens config.remote_url w ≡ true
      → git.remote_reference config.remote_url name w ≡ remote w
  pub fetch-remote :
      (w : W) → remote (git.fetch config.authorization (refspec git name config) w).1 ≡ remote w
  pub fetch-local :
      (w : W) → local (git.fetch config.authorization (refspec git name config) w).1 ≡ local w
  pub fetched :
      (w : W)
      → (git.fetch config.authorization (refspec git name config) w).0 ≡ ok tt
      → git.local_reference
          (cache_ref git config)
          (git.fetch config.authorization (refspec git name config) w).1
        ≡ remote w
  -- a message that the code reads as a missing reference is given for one
  pub missing :
      (w : W) (message : String)
      → (git.fetch config.authorization (refspec git name config) w).0 ≡ err message
      → fetch_error message ≡ ok none
      → remote w ≡ none
  -- other writers move the remote's reference, and nothing of the shadow repository
  pub interfere : Option String → Option String
  pub others-remote : (w : W) → remote (git.others w) ≡ interfere (remote w)
  pub others-local : (w : W) → local (git.others w) ≡ local w
  pub pushed :
      (w : W)
      → (git.push config.authorization name w).0 ≡ ok none
      → remote (git.push config.authorization name w).1 ≡ local w

-- The remote may be moved from here: it is absent or where it is expected.
pub IsFree : Option String → Option String → Type 0
IsFree expected seen = (seen ≡ none) ⊎ (seen ≡ expected)

-- The specification, a check and then a push: `seen` is where the remote is at the check, `interfere`
-- what other writers make of it by the time of the push, and `after` where it is at the end. A failed
-- push may have reached the remote, so that nothing is known of `after` then.
pub data Checked (expected : Option String) (commit : String)
    (interfere : Option String → Option String) (seen after : Option String)
    : Result SinkError CheckpointPublication → Type 0 where
  already :
      seen ≡ some commit
      → after ≡ interfere seen
      → Checked expected commit interfere seen after (ok (record { checkpoint = commit }))
  moved :
      IsFree expected seen
      → after ≡ some commit
      → Checked expected commit interfere seen after (ok (record { checkpoint = commit }))
  attempted :
      (e : SinkError) → IsFree expected seen → Checked expected commit interfere seen after (err e)
  refused :
      (e : SinkError)
      → after ≡ interfere seen
      → Checked expected commit interfere seen after (err e)
  not_checked :
      (e : SinkError) → after ≡ seen → Checked expected commit interfere seen after (err e)

-- What `decide` answers for a tip.
data Decided (tip expected : Option String) (commit : String) : Decision → Type 0 where
  is_published : tip ≡ some commit → Decided tip expected commit published
  is_advance : (tip ≡ none) ⊎ (tip ≡ expected) → Decided tip expected commit advance
  is_conflict : (message : String) → Decided tip expected commit (conflict message)

module _ {W : Type 0} (git : Git W) (config : GitCheckpointConfig) (name : String)
    (laws : HasRemote git config name) (commit : String) (expected : Option String) where
  open laws use {remote, local, interfere}

  -- A step, after the remote was seen there, that ended with this result has the specification's
  -- effect.
  abbrev Checks : Option String → Result SinkError CheckpointPublication × W → Type 0
  Checks seen a = Checked expected commit interfere seen (remote a.1) a.0

  -- The look at the remote changes neither reference, and what it finds is the remote's.
  record IsTip (w : W) (a : Result SinkError (Option String) × W) : Type 0 where
    same_remote : remote a.1 ≡ remote w
    same_local : local a.1 ≡ local w
    found : (tip : Option String) → a.0 ≡ ok tip → tip ≡ remote w

  abbrev found : W → String → Result SinkError String
  found w oid = and_then (map_err invalid_flush (git.find_commit oid w)) (λ _. ok oid)
