-- ===== src/Core/Recorder/Tests.antt =====
-- A repository in memory, on which the theorems about Core/Recorder are applied.
use rrjj.Prelude.{ℕ, ◌≡◌, refl, true, false, String, Option, none, some, List, [], ◌∷◌, arith}
use rrjj.Prelude.Action.{ok, and_then}
use rrjj.Schema.{record_change, Snapshot, Change, ChangeKind, no_changes}
use rrjj.Core.Recorder.{Jj, JjRecorder, op_id, capture}
use rrjj.Core.Recorder.Chained.{IsChained, capture-IsChained}
use rrjj.Core.Recorder.Diff.{Entry, TreeValue, project_diff}
use rrjj.Core.Recorder.Diff.Reference.{resolve_all, reported, project_diff-reported}

abbrev made_file : Entry
made_file = record {
  path = "a.rs";
  values = ok (record { before = some none; after = some (some (TreeValue.file "aa" false)) });
}

abbrev made_runnable : Entry
made_runnable = record {
  path = "run.sh";
  values = ok (record {
    before = some (some (TreeValue.file "bb" false));
    after = some (some (TreeValue.file "bb" true));
  });
}

abbrev entries : List Entry
entries = made_file ∷ made_runnable ∷ []

abbrev metadata : String → Option ℕ
metadata path = some 3

project_diff-reported_example :
    project_diff metadata 1 entries
    ≡ and_then (resolve_all entries) (λ rs. ok (reported metadata 1 rs))
project_diff-reported_example = project_diff-reported metadata 1 entries (omega arith)

abbrev memory_jj : Jj Unit String Unit String String
memory_jj = record {
  op_hex = λ r. r;
  new_working_copy = λ r n d. (ok tt, d);
  snapshot = λ w d. (ok ("t1", tt), d);
  finish = λ w r d. (ok tt, d);
  diff_stream = λ a b. entries;
  metadata_len = λ d p. some 3;
  root_commit = λ r. "00";
  write_commit = λ r p t d. (ok "c1", d);
  commit_transaction = λ r c d. (ok "o1", d);
  tree_hex = λ t. ok t;
  commit_hex = λ c. c;
}

abbrev fresh : JjRecorder Unit String Unit String String
fresh = record {
  disk = tt;
  repo = "o0";
  working_copy = tt;
  state_generation = 0;
  previous_tree = "t0";
  previous_commit = none;
}

abbrev first_change : Change
first_change = record {
  path = "a.rs";
  kind = ChangeKind.added;
  blob = some "b:aa";
  prev_blob = none;
  from = none;
  bytes = some 3;
}

abbrev taken : Snapshot
taken = record {
  op = "op:o1";
  parent_op = "op:o0";
  commit = "c:c1";
  tree = "t:t1";
  changes = first_change ∷ [];
  stats = record no_changes { added = 1; mode_changed = 1 };
  truncated = true;
}

abbrev after_taken : JjRecorder Unit String Unit String String
after_taken = record fresh {
  repo = "o1";
  state_generation = 1;
  previous_tree = "t1";
  previous_commit = some "c1";
}

capture_runs : capture memory_jj true 1 fresh ≡ (ok taken, after_taken)
unfolding capture record_change
capture_runs = refl

capture-IsChained_example : IsChained memory_jj (op_id memory_jj fresh) taken after_taken
capture-IsChained_example =
    capture-IsChained memory_jj true 1 fresh after_taken {snapshot = taken} capture_runs
