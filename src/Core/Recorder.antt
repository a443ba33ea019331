-- ===== src/Core/Recorder.antt =====
-- `JjRecorder` of crates/rrjj-core/src/lib.rs. jj-lib is a parameter, with the repository, the working
-- copy, a tree and a commit as types of its own and the disk as a state.
mod Tests
pub mod Diff
pub mod Chained
use Prim.Native.String.{◌++◌}
use rrjj.Prelude.{ℕ, ◌+◌, Bool, true, false, String, Option, none, some, List, wrap64}
use rrjj.Prelude.Action.{Result, ok, err, Action, gets, modify, lift, pure, when, ◌>>=◌, ◌>>◌}
use rrjj.Schema.{Snapshot}
use rrjj.Core.Coordinator.{Recorder}
use rrjj.Core.Recorder.Diff.{Entry, Projection, project_diff}

-- What the code uses of jj-lib, with an error as its text. `D` is the disk.
pub record Jj (D Repo WorkingCopy Tree Commit : Type 0) : Type 0 where
  pub op_hex : Repo → String
  pub new_working_copy : Repo → (generation : ℕ) → Action D String WorkingCopy
  -- `start_mutation` and `snapshot`, and `finish` with the operation's id
  pub snapshot : WorkingCopy → Action D String (Tree × WorkingCopy)
  pub finish : WorkingCopy → Repo → Action D String WorkingCopy
  pub diff_stream : Tree → Tree → List Entry
  pub metadata_len : D → String → Option ℕ
  pub root_commit : Repo → Commit
  -- `new_commit(…).write()` and `set_wc_commit` in a transaction, and its `commit`
  pub write_commit : Repo → (parent : Commit) → Tree → Action D String Commit
  pub commit_transaction : Repo → Commit → Action D String Repo
  pub tree_hex : Tree → Result String String
  pub commit_hex : Commit → String

pub record JjRecorder (D Repo WorkingCopy Tree Commit : Type 0) : Type 0 where
  pub disk : D
  pub repo : Repo
  pub working_copy : WorkingCopy
  pub state_generation : ℕ
  pub previous_tree : Tree
  pub previous_commit : Option Commit

module _ {D Repo WorkingCopy Tree Commit : Type 0} (jj : Jj D Repo WorkingCopy Tree Commit) where
  abbrev pub State : Type 0
  State = JjRecorder D Repo WorkingCopy Tree Commit

  unfoldable pub op_id : State → String
  op_id s = "op:" ++ jj.op_hex s.repo

  abbrev pub commit_text : Option Commit → Option String
  commit_text none = none
  commit_text (some commit) = some ("c:" ++ jj.commit_hex commit)

  unfoldable pub commit_id : State → Option String
  commit_id s = commit_text s.previous_commit

  abbrev pub on_disk : {A : Type 0} → Action D String A → Action State String A
  on_disk call s = let (r, disk) = call s.disk in (r, record s { disk = disk })

  abbrev pub set_working_copy : WorkingCopy → State → State
  set_working_copy wc s = record s { working_copy = wc }

  -- The `if full_scan` of `capture`.
  unfoldable pub rescan : Bool → Action State String Unit
  rescan false = pure tt
  rescan true = do
    modify (λ s. record s { state_generation = wrap64 (s.state_generation + 1) })
    wc ← (λ s. on_disk (jj.new_working_copy s.repo s.state_generation) s)
    modify (set_working_copy wc)

  unfoldable pub snapshot_tree : Action State String Tree
  snapshot_tree = do
    taken ← (λ s. on_disk (jj.snapshot s.working_copy) s)
    wc ← (λ s. on_disk (jj.finish taken.1 s.repo) s)
    modify (set_working_copy wc)
    pure taken.0

  abbrev pub parent_of : State → Commit
  parent_of s = elim s.previous_commit [ none ↦ jj.root_commit s.repo | some commit ↦ commit ]

  -- `self.repo = repo` and what follows it
  unfoldable pub advance : Repo → Tree → Commit → Action State String Unit
  advance repo tree commit = do
    modify (λ s. record s { repo = repo })
    wc ← (λ s. on_disk (jj.finish s.working_copy s.repo) s)
    modify
        (λ s. record s { working_copy = wc; previous_tree = tree; previous_commit = some commit })

  unfoldable pub snapshot_of : (op parent_op : String) → Commit → String → Projection → Snapshot
  snapshot_of op parent_op commit tree diff = record {
    op = op;
    parent_op = parent_op;
    commit = "c:" ++ jj.commit_hex commit;
    tree = "t:" ++ tree;
    changes = diff.changes;
    stats = diff.stats;
    truncated = diff.truncated;
  }

  -- The transaction, where `parent_op` is the operation before it.
  unfoldable pub record_after : Tree → Projection → String → Action State String Snapshot
  unfolding advance snapshot_of
  record_after tree diff parent_op = do
    commit ← (λ s. on_disk (jj.write_commit s.repo (parent_of s) tree) s)
    repo ← (λ s. on_disk (jj.commit_transaction s.repo commit) s)
    tree_id ← lift (jj.tree_hex tree)
    advance repo tree commit
    pure (snapshot_of ("op:" ++ jj.op_hex repo) parent_op commit tree_id diff)

  unfoldable pub record_tree : Tree → Projection → Action State String Snapshot
  unfolding record_after op_id
  record_tree tree diff = gets op_id >>= record_after tree diff

  unfoldable pub compared : ℕ → Tree → Action State String Projection
  unfolding project_diff
  compared max_changes tree s =
      (project_diff (jj.metadata_len s.disk) max_changes (jj.diff_stream s.previous_tree tree), s)

  unfoldable pub capture : Bool → ℕ → Action State String Snapshot
  unfolding rescan snapshot_tree compared record_tree
  capture full_scan max_changes = do
    rescan full_scan
    tree ← snapshot_tree
    diff ← compared max_changes tree
    record_tree tree diff

  unfoldable pub jj_recorder : Recorder State
  unfolding op_id commit_id capture
  jj_recorder = record { op_id = op_id; commit_id = commit_id; capture = capture }
