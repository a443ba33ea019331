-- ===== src/Sinks/Local/Repository.antt =====
-- How crates/rrjj-sinks/src/local.rs copies one file of the shadow repository into a session
-- directory. The set of changed directories is a list in the order of insertion, so that the order in
-- which two directories of one depth are synced is not that of their names.
use rrjj.Prelude.{
  ℕ, ◌+◌, ◌==◌, Bool, true, false, ◌&&◌, not, str_eq, List, [], ◌∷◌, if◌then◌else◌, wrap64,
}
use rrjj.Prelude.Action.{Result, ok, err, Action, and_then, modify, ◌>>=◌, ◌>>◌}
use rrjj.Sinks.Error.{IoError}
use rrjj.Sinks.Local.Immutable.{is_immutable_repository_file}
use rrjj.Sinks.Files.{Location, Files, parent, temporary_path, remove_temporary, copy_file_atomic}

pub record DirectorySyncStats : Type 0 where
  pub files_linked : ℕ
  pub files_copied : ℕ
  pub files_replaced : ℕ
  pub files_reused : ℕ
  pub files_removed : ℕ
  pub bytes_copied : ℕ

abbrev pub no_stats : DirectorySyncStats
no_stats = record {
  files_linked = 0;
  files_copied = 0;
  files_replaced = 0;
  files_reused = 0;
  files_removed = 0;
  bytes_copied = 0;
}

-- The file system, the statistics and the changed directories.
pub record Sync (F : Type 0) : Type 0 where
  pub disk : F
  pub stats : DirectorySyncStats
  pub dirty_directories : List Location

unfoldable pub same_location : Location → Location → Bool
same_location [] [] = true
same_location (m ∷ p) (n ∷ q) = str_eq m n && same_location p q
same_location p q = false

-- `BTreeSet::insert`
unfoldable pub insert_directory : Location → List Location → List Location
unfolding same_location
insert_directory path [] = path ∷ []
insert_directory path (d ∷ set) =
    let rest = insert_directory path set in if same_location d path then d ∷ set else d ∷ rest

-- The loop of `files_equal`, over the reads of the two files.
unfoldable pub same_bytes : List ℕ → List ℕ → Bool
same_bytes [] [] = true
same_bytes (a ∷ left) (b ∷ right) = a == b && same_bytes left right
same_bytes left right = false

unfoldable pub same_chunks : List (List ℕ) → List (List ℕ) → Bool
unfolding same_bytes
same_chunks [] [] = true
same_chunks (l ∷ left) (r ∷ right) = same_bytes l r && same_chunks left right
same_chunks left right = false

module _ {F : Type 0} (files : Files F) where
  unfoldable pub files_equal : Location → Location → F → Result IoError Bool
  unfolding same_chunks
  files_equal left right disk = and_then (files.metadata_len left disk) λ l.
      and_then (files.metadata_len right disk) λ r.
        if not (l == r)
        then ok false
        else and_then (files.chunks left disk)
            λ cl. and_then (files.chunks right disk) λ cr. ok (same_chunks cl cr)

  abbrev pub with_disk : {A : Type 0} → Result IoError A × F → Sync F → Result IoError A × Sync F
  with_disk (r, disk) s = (r, record s { disk = disk })

  abbrev pub on_disk : {A : Type 0} → Action F IoError A → Action (Sync F) IoError A
  on_disk call s = with_disk (call s.disk) s

  abbrev pub count : (DirectorySyncStats → DirectorySyncStats) → Sync F → Sync F
  count f s = record s { stats = f s.stats }

  unfoldable pub linked : Sync F → Sync F
  linked = count (λ t. record t { files_linked = wrap64 (t.files_linked + 1) })

  unfoldable pub copied : Sync F → Sync F
  copied = count (λ t. record t { files_copied = wrap64 (t.files_copied + 1) })

  unfoldable pub replaced : Sync F → Sync F
  replaced = count (λ t. record t { files_replaced = wrap64 (t.files_replaced + 1) })

  unfoldable pub reused : Sync F → Sync F
  reused = count (λ t. record t { files_reused = wrap64 (t.files_reused + 1) })

  unfoldable pub removed : Sync F → Sync F
  removed = count (λ t. record t { files_removed = wrap64 (t.files_removed + 1) })

  unfoldable pub add_bytes : ℕ → Sync F → Sync F
  add_bytes n = count (λ t. record t { bytes_copied = wrap64 (t.bytes_copied + n) })

  -- `dirty_directories.insert(path)` and `mark_directory_changed`
  unfoldable pub mark : Location → Sync F → Sync F
  unfolding insert_directory
  mark path s = record s { dirty_directories = insert_directory path s.dirty_directories }

  unfoldable pub mark_directory_changed : Location → Sync F → Sync F
  unfolding mark
  mark_directory_changed [] s = mark [] s
  mark_directory_changed (name ∷ path) s = mark path (mark (name ∷ path) s)

  -- what follows a hard link that ended with this result
  unfoldable pub after_link :
      Location → Location → Result IoError Unit → Action (Sync F) IoError Unit
  unfolding linked copied add_bytes
  after_link source temporary (ok _) = modify linked
  after_link source temporary (err _) = do
    bytes ← on_disk (files.copy source temporary)
    modify (add_bytes bytes)
    on_disk (files.sync_all temporary)
    modify copied

  unfoldable pub link_or_copy : Location → Location → Action (Sync F) IoError Unit
  unfolding after_link
  link_or_copy source temporary s =
      let (r, disk) = files.hard_link source temporary s.disk in
      after_link source temporary r (record s { disk = disk })

  unfoldable pub link_new : Location → Location → Action (Sync F) IoError Unit
  unfolding link_or_copy mark
  link_new source destination = do
    on_disk (remove_temporary files (temporary_path destination))
    link_or_copy source (temporary_path destination)
    on_disk (files.rename (temporary_path destination) destination)
    modify (mark (parent destination))

  unfoldable pub copy_new : Location → Location → Action (Sync F) IoError Unit
  unfolding copied replaced add_bytes mark
  copy_new source destination s =
      let replacing = files.exists destination s.disk in
      (do
        bytes ← on_disk (copy_file_atomic files source destination)
        modify (add_bytes bytes)
        modify (if replacing then replaced else copied)
        modify (mark (parent destination)))
        s

  unfoldable pub copy_unless : Location → Location → Bool → Action (Sync F) IoError Unit
  unfolding reused copy_new
  copy_unless source destination true = modify reused
  copy_unless source destination false = copy_new source destination

  -- `destination.exists() && files_equal(source, destination)?`
  unfoldable pub is_same : Location → Location → F → Result IoError Bool
  unfolding files_equal
  is_same source destination disk =
      if files.exists destination disk then files_equal source destination disk else ok false

  unfoldable pub sync_repository_file :
      Location → Location → Location → Action (Sync F) IoError Unit
  unfolding is_immutable_repository_file reused link_new is_same copy_unless
  sync_repository_file source destination relative s =
      if is_immutable_repository_file relative
      then if files.exists destination s.disk
        then (ok tt, reused s)
        else link_new source destination s
      else ((λ t. (is_same source destination t.disk, t)) >>= copy_unless source destination) s
