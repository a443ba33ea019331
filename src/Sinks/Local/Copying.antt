-- ===== src/Sinks/Local/Copying.antt =====
-- How crates/rrjj-sinks/src/local.rs copies the shadow repository. The source is the tree that
-- `read_dir` lists, which nothing changes meanwhile; the destination is read from the file system.
use rrjj.Prelude.{◌||◌, String, List, [], ◌∷◌, if◌then◌else◌, length, leb}
use rrjj.Prelude.Action.{ok, Action, pure, fail, modify, ◌>>=◌, ◌>>◌}
use rrjj.Sinks.Error.{IoError, other}
use rrjj.Sinks.Local.Immutable.{is_one_of, is_immutable_repository_file}
use rrjj.Sinks.Local.Repository.{
  Sync, on_disk, mark, mark_directory_changed, removed, sync_repository_file,
}
use rrjj.Sinks.Files.{Location, Files, FileType, join, sync_directory}

-- What `read_dir` lists of the source, below and below again.
mutual
  pub data Tree : Type 0 where
    unreadable : IoError → Tree
    listed : Entries → Tree

  pub data Entries : Type 0 where
    end : Entries
    broken : IoError → Entries
    directory : String → Tree → Entries → Entries
    file symlink special : String → Entries → Entries

-- `source_names`, when all entries were read
abbrev pub source_names : Entries → List String
source_names end = []
source_names (broken e) = []
source_names (directory name tree entries) = name ∷ source_names entries
source_names (file name entries) = name ∷ source_names entries
source_names (symlink name entries) = name ∷ source_names entries
source_names (special name entries) = name ∷ source_names entries

module _ {F : Type 0} (files : Files F) where
  unfoldable pub ensure_directory : Location → Action (Sync F) IoError Unit
  unfolding mark_directory_changed
  ensure_directory destination s =
      if files.exists destination s.disk
      then (ok tt, s)
      else (on_disk files (files.create_dir_all destination)
            >> modify (mark_directory_changed files destination))
          s

  -- The second loop, on what `read_dir` lists of the destination.
  unfoldable pub remove_stale :
      List String → Location → Location → List (String × FileType) → Action (Sync F) IoError Unit
  unfolding removed mark is_immutable_repository_file
  remove_stale names destination relative [] = pure tt
  remove_stale names destination relative ((name, FileType.file) ∷ entries) =
      let rest = remove_stale names destination relative entries in
      if is_one_of names name || is_immutable_repository_file (join relative name)
      then rest
      else (do
        on_disk files (files.remove_file (join destination name))
        modify (removed files)
        modify (mark files destination)
        rest)
  remove_stale names destination relative ((name, kind) ∷ entries) =
      remove_stale names destination relative entries

  unfoldable pub remove_missing : List String → Location → Location → Action (Sync F) IoError Unit
  unfolding remove_stale
  remove_missing names destination relative =
      (λ s. (files.read_dir destination s.disk, s)) >>= remove_stale names destination relative

  unfoldable mutual
    unfolding ensure_directory sync_repository_file remove_missing

    pub sync_repository_tree : Tree → Location → Location → Location → Action (Sync F) IoError Unit
    sync_repository_tree (unreadable e) source destination relative =
        ensure_directory destination >> fail e
    sync_repository_tree (listed entries) source destination relative = do
      ensure_directory destination
      sync_entries entries source destination relative
      remove_missing (source_names entries) destination relative

    pub sync_entries : Entries → Location → Location → Location → Action (Sync F) IoError Unit
    sync_entries end source destination relative = pure tt
    sync_entries (broken e) source destination relative = fail e
    sync_entries (directory name tree entries) source destination relative = do
      sync_repository_tree tree (join source name) (join destination name) (join relative name)
      sync_entries entries source destination relative
    sync_entries (file name entries) source destination relative = do
      sync_repository_file files (join source name) (join destination name) (join relative name)
      sync_entries entries source destination relative
    sync_entries (symlink name entries) source destination relative =
        fail (other "refusing symlink in repository state")
    sync_entries (special name entries) source destination relative =
        sync_entries entries source destination relative

-- `sort_by_key(Reverse(components().count()))`, which is stable
unfoldable pub insert_deep : Location → List Location → List Location
insert_deep path [] = path ∷ []
insert_deep path (d ∷ sorted) =
    let rest = insert_deep path sorted in
    if leb (length d) (length path) then path ∷ d ∷ sorted else d ∷ rest

unfoldable pub deepest_first : List Location → List Location
unfolding insert_deep
deepest_first [] = []
deepest_first (d ∷ directories) = insert_deep d (deepest_first directories)

unfoldable pub sync_each : {F : Type 0} → Files F → List Location → Action F IoError Unit
sync_each files [] = pure tt
sync_each files (d ∷ directories) = sync_directory files d >> sync_each files directories

unfoldable pub sync_directories : {F : Type 0} → Files F → List Location → Action F IoError Unit
unfolding deepest_first sync_each
sync_directories files directories = sync_each files (deepest_first directories)
