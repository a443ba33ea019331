-- ===== src/Core/Recorder/Chained.antt =====
-- How the snapshots of Core/Recorder follow one another.
use Prim.Native.String.{◌++◌}
use rrjj.Prelude.{ℕ, ◌≡◌, refl, subst, ap, ◌∙◌, Bool, true, false, String, some}
use rrjj.Prelude.Action.{
  Result, ok, err, Action, Runs, Runs-bind, After, resume, modify, lift, pure,
}
use rrjj.Schema.{Snapshot}
use rrjj.Core.Recorder.Diff.{Projection}
use rrjj.Core.Recorder.{
  Jj, JjRecorder, op_id, commit_id, on_disk, set_working_copy, rescan, snapshot_tree, parent_of,
  advance, snapshot_of, record_after, record_tree, commit_text, compared, capture,
}

module _ {D Repo WorkingCopy Tree Commit : Type 0} (jj : Jj D Repo WorkingCopy Tree Commit) where
  -- The recorder is at the operation with this text.
  pub record IsAt (op : String) (s : JjRecorder D Repo WorkingCopy Tree Commit) : Type 0 where
    pub at_op : op_id jj s ≡ op

  -- What a snapshot says is where the recorder was and where it is.
  pub record IsChained (op : String) (snapshot : Snapshot)
      (s : JjRecorder D Repo WorkingCopy Tree Commit) : Type 0 where
    pub parent : snapshot.parent_op ≡ op
    pub at_op : op_id jj s ≡ snapshot.op
    pub at_commit : commit_id jj s ≡ some snapshot.commit

  abbrev Any : JjRecorder D Repo WorkingCopy Tree Commit → Type 0
  Any s = Unit

  -- The same repository is at the same operation.
  same-IsAt :
      (op : String) (s t : JjRecorder D Repo WorkingCopy Tree Commit)
      → t.repo ≡ s.repo
      → IsAt op s
      → IsAt op t
  unfolding op_id
  same-IsAt op s t same h = record { at_op = ap (λ r. "op:" ++ jj.op_hex r) same ∙ h.at_op }

  call-IsAt :
      {A : Type 0} (op : String)
      (call : JjRecorder D Repo WorkingCopy Tree Commit → Action D String A)
      → Runs (IsAt op) (λ s. on_disk jj (call s) s) (λ _. IsAt op) Any
  call-IsAt op call = record { at = λ s h. onward s (call s s.disk) h }
    where
      onward :
          {A : Type 0} (s : JjRecorder D Repo WorkingCopy Tree Commit) (a : Result String A × D)
          → IsAt op s
          → After (λ _. IsAt op) Any (a.0, record s { disk = a.1 })
      onward s (ok b, d) h = same-IsAt op s _ refl h
      onward s (err e, d) h = tt

  modify-IsAt :
      (op : String)
      (f : JjRecorder D Repo WorkingCopy Tree Commit → JjRecorder D Repo WorkingCopy Tree Commit)
      → ((s : JjRecorder D Repo WorkingCopy Tree Commit) → (f s).repo ≡ s.repo)
      → Runs {E = String} (IsAt op) (modify f) (λ _. IsAt op) Any
  modify-IsAt op f same = record { at = λ s h. same-IsAt op s (f s) (same s) h }

  lift-Runs :
      {A : Type 0} (P : JjRecorder D Repo WorkingCopy Tree Commit → Type 0) (r : Result String A)
      → Runs P (lift r) (λ _. P) Any
  lift-Runs P (ok a) = record { at = λ s h. h }
  lift-Runs P (err e) = record { at = λ s h. tt }

  rescan-IsAt : (op : String) (full : Bool) → Runs (IsAt op) (rescan jj full) (λ _. IsAt op) Any
  unfolding rescan
  rescan-IsAt op false = record { at = λ s h. h }
  rescan-IsAt op true =
      Runs-bind (λ _. IsAt op) _ _ (modify-IsAt op _ (λ s. refl))
        λ _.
          Runs-bind (λ _. IsAt op) _ _
            (call-IsAt op (λ s. jj.new_working_copy s.repo s.state_generation))
            λ wc. modify-IsAt op (set_working_copy jj wc) (λ s. refl)

  snapshot_tree-IsAt : (op : String) → Runs (IsAt op) (snapshot_tree jj) (λ _. IsAt op) Any
  unfolding snapshot_tree
  snapshot_tree-IsAt op =
      Runs-bind (λ _. IsAt op) _ _ (call-IsAt op (λ s. jj.snapshot s.working_copy))
        λ taken.
          Runs-bind (λ _. IsAt op) _ _ (call-IsAt op (λ s. jj.finish taken.1 s.repo))
            λ wc.
              Runs-bind (λ _. IsAt op) _ (λ _. pure taken.0)
                (modify-IsAt op (set_working_copy jj wc) (λ s. refl)) λ _. record { at = λ s h. h }

  compared-IsAt :
      (op : String) (max_changes : ℕ) (tree : Tree)
      → Runs (IsAt op) (compared jj max_changes tree) (λ _. IsAt op) Any
  unfolding compared
  compared-IsAt op max_changes tree = record {
    at = λ s h. (lift-Runs (IsAt op) (compared jj max_changes tree s).0).at s h;
  }

  -- The recorder is at the repository's operation and at the commit.
  record IsOn (repo : Repo) (commit : Commit) (s : JjRecorder D Repo WorkingCopy Tree Commit)
      : Type 0 where
    on_repo : s.repo ≡ repo
    on_commit : s.previous_commit ≡ some commit

  advance-IsOn :
      (op : String) (repo : Repo) (tree : Tree) (commit : Commit)
      → Runs (IsAt op) (advance jj repo tree commit) (λ _. IsOn repo commit) Any
  unfolding advance
  advance-IsOn op repo tree commit = record {
    at = λ s h. onward s (jj.finish s.working_copy repo s.disk);
  }
    where
      onward :
          (s : JjRecorder D Repo WorkingCopy Tree Commit) (a : Result String WorkingCopy × D)
          → After
              (λ _. IsOn repo commit)
              Any
              (resume a.0
                (λ wc. modify (λ t. record t {
                  working_copy = wc;
                  previous_tree = tree;
                  previous_commit = some commit;
                }))
                (record s { repo = repo; disk = a.1 }))
      onward s (ok wc, d) = record { on_repo = refl; on_commit = refl }
      onward s (err e, d) = tt

  record_after-IsChained :
      (op parent_op : String) (tree : Tree) (diff : Projection)
      → parent_op ≡ op
      → Runs (IsAt op) (record_after jj tree diff parent_op) (IsChained op) Any
  unfolding record_after snapshot_of op_id commit_id
  record_after-IsChained op parent_op tree diff same =
      Runs-bind (λ _. IsAt op) _ _
        (call-IsAt op (λ s. jj.write_commit s.repo (parent_of jj s) tree))
        λ commit.
          Runs-bind (λ _. IsAt op) _ _ (call-IsAt op (λ s. jj.commit_transaction s.repo commit))
            λ repo.
              Runs-bind (λ _. IsAt op) _ _ (lift-Runs (IsAt op) (jj.tree_hex tree))
                λ tree_id.
                  Runs-bind (λ _. IsOn repo commit) _
                    (λ _.
                      pure (snapshot_of jj ("op:" ++ jj.op_hex repo) parent_op commit tree_id diff))
                    (advance-IsOn op repo tree commit)
                    λ _. record {
                      at = λ s h. record {
                        parent = same;
                        at_op = ap (λ r. "op:" ++ jj.op_hex r) h.on_repo;
                        at_commit = ap (commit_text jj) h.on_commit;
                      };
                    }

  record_tree-IsChained :
      (op : String) (tree : Tree) (diff : Projection)
      → Runs (IsAt op) (record_tree jj tree diff) (IsChained op) Any
  unfolding record_tree
  record_tree-IsChained op tree diff = record {
    at = λ s h. (record_after-IsChained op (op_id jj s) tree diff h.at_op).at s h;
  }

  pub capture-Runs :
      (op : String) (full : Bool) (max_changes : ℕ)
      → Runs (IsAt op) (capture jj full max_changes) (IsChained op) Any
  unfolding capture
  capture-Runs op full max_changes =
      Runs-bind (λ _. IsAt op) _ _ (rescan-IsAt op full)
        λ _.
          Runs-bind (λ _. IsAt op) _ _ (snapshot_tree-IsAt op)
            λ tree.
              Runs-bind (λ _. IsAt op) (compared jj max_changes tree) _
                (compared-IsAt op max_changes tree) λ diff. record_tree-IsChained op tree diff

-- Every capture that succeeds continues the chain of operations: its snapshot names the operation at
-- which the recorder was as its parent, and the recorder is now at the snapshot's operation and
-- commit.
pub capture-IsChained :
    {D Repo WorkingCopy Tree Commit : Type 0} (jj : Jj D Repo WorkingCopy Tree Commit) (full : Bool)
    (max_changes : ℕ) (s t : JjRecorder D Repo WorkingCopy Tree Commit) {snapshot : Snapshot}
    → capture jj full max_changes s ≡ (ok snapshot, t)
    → IsChained jj (op_id jj s) snapshot t
capture-IsChained jj full max_changes s t {snapshot} h =
    subst (After (IsChained jj (op_id jj s)) (λ u. Unit)) h
      ((capture-Runs jj (op_id jj s) full max_changes).at s (record { at_op = refl }))
