-- ===== src/Core/Recorder/Diff.antt =====
-- `project_diff` of crates/rrjj-core/src/lib.rs and what it calls. jj's stream of differences is a list
-- of entries, and the length of a file a function of its path.
pub mod Reference
use Prim.Native.String.{◌++◌ as text_append}
use rrjj.Prelude.{
  ℕ, ◌+◌, Bool, true, false, ◌&&◌, not, String, str_eq, Option, none, some, List, [], ◌∷◌, ◌++◌,
  ltb, if◌then◌else◌, length, wrap64,
}
use rrjj.Prelude.Action.{Result, ok, err, and_then}
use rrjj.Schema.{Change, ChangeKind, ChangeStats, record_change, no_changes}

-- `jj_lib::backend::TreeValue`, as far as the code tells its cases apart; an id is its hex text.
pub data TreeValue : Type 0 where
  file : (id : String) (executable : Bool) → TreeValue
  symlink : (id : String) → TreeValue
  other : TreeValue

-- A value of a merged tree, `none` where it is in conflict.
abbrev pub MergedTreeValue : Type 0
MergedTreeValue = Option (Option TreeValue)

pub record Values : Type 0 where
  pub before : MergedTreeValue
  pub after : MergedTreeValue

pub record Entry : Type 0 where
  pub path : String
  pub values : Result String Values

unfoldable pub resolved_value : MergedTreeValue → Result String (Option TreeValue)
resolved_value (some value) = ok value
resolved_value none = err "conflicted tree value cannot be projected in schema v0"

abbrev pub same_bool : Bool → Bool → Bool
same_bool true b = b
same_bool false b = not b

unfoldable pub classify : Option TreeValue → Option TreeValue → ChangeKind
classify none (some after) = ChangeKind.added
classify (some before) none = ChangeKind.removed
classify (some (TreeValue.file id executable)) (some (TreeValue.file id' executable')) =
    if str_eq id id' && not (same_bool executable executable')
    then ChangeKind.mode_changed
    else ChangeKind.modified
classify before after = ChangeKind.modified

unfoldable pub blob_id : Option TreeValue → Option String
blob_id (some (TreeValue.file id executable)) = some (text_append "b:" id)
blob_id (some (TreeValue.symlink id)) = some (text_append "b:" id)
blob_id value = none

-- An entry whose two values are resolved.
pub record Resolved : Type 0 where
  pub path : String
  pub before : Option TreeValue
  pub after : Option TreeValue

unfoldable pub resolve : Entry → Result String Resolved
unfolding resolved_value
resolve entry = and_then entry.values λ values. and_then (resolved_value values.before) λ before.
    and_then (resolved_value values.after)
      λ after. ok (record { path = entry.path; before = before; after = after })

-- `after_value.and_then(|_| fs::metadata(…).ok())`
abbrev pub bytes_of : (String → Option ℕ) → String → Option TreeValue → Option ℕ
bytes_of metadata path none = none
bytes_of metadata path (some value) = metadata path

unfoldable pub change_of : (String → Option ℕ) → Resolved → Change
unfolding classify blob_id
change_of metadata r = record {
  path = r.path;
  kind = classify r.before r.after;
  blob = blob_id r.after;
  prev_blob = blob_id r.before;
  from = none;
  bytes = bytes_of metadata r.path r.after;
}

-- What the loop has collected: the changes, the statistics and the number of entries.
pub record Collected : Type 0 where
  pub changes : List Change
  pub stats : ChangeStats
  pub total : ℕ

abbrev pub nothing_collected : Collected
nothing_collected = record { changes = []; stats = no_changes; total = 0 }

unfoldable pub add_change : ℕ → Change → List Change → List Change
add_change max_changes change changes =
    if ltb (length changes) max_changes then changes ++ change ∷ [] else changes

unfoldable pub collect_one : (String → Option ℕ) → ℕ → Resolved → Collected → Collected
unfolding add_change change_of
collect_one metadata max_changes r c = record {
  changes = add_change max_changes (change_of metadata r) c.changes;
  stats = record_change (classify r.before r.after) c.stats;
  total = wrap64 (c.total + 1);
}

unfoldable pub collect : (String → Option ℕ) → ℕ → List Entry → Collected → Result String Collected
unfolding resolve collect_one
collect metadata max_changes [] c = ok c
collect metadata max_changes (entry ∷ entries) c =
    and_then (resolve entry)
      λ r. collect metadata max_changes entries (collect_one metadata max_changes r c)

pub record Projection : Type 0 where
  pub changes : List Change
  pub stats : ChangeStats
  pub truncated : Bool

abbrev pub diff_of : ℕ → Collected → Projection
diff_of max_changes c = record {
  changes = c.changes;
  stats = c.stats;
  truncated = ltb max_changes c.total;
}

unfoldable pub project_diff : (String → Option ℕ) → ℕ → List Entry → Result String Projection
unfolding collect
project_diff metadata max_changes entries =
    and_then (collect metadata max_changes entries nothing_collected)
      λ c. ok (diff_of max_changes c)
