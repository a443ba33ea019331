-- ===== src/Sinks/Files.antt =====
-- The file system that crates/rrjj-sinks reaches through `std::fs`, and the atomic writes of util.rs
-- over it. A path is its components, the last one first.
use Prim.Native.String.{◌++◌ as text_append}
use rrjj.Prelude.{ℕ, Bool, String, List, [], ◌∷◌}
use rrjj.Prelude.Action.{Result, ok, err, Action, pure, fail, ◌>>=◌, ◌>>◌}
use rrjj.Sinks.Error.{IoError, not_found}

abbrev pub Location : Type 0
Location = List String

-- `Path::join` with one name, and `Path::parent`
abbrev pub join : Location → String → Location
join path name = name ∷ path

abbrev pub parent : Location → Location
parent [] = []
parent (name ∷ path) = path

pub data FileType : Type 0 where
  directory file symlink other : FileType

pub record Files (F : Type 0) : Type 0 where
  pub create_dir_all : Location → Action F IoError Unit
  pub exists : Location → F → Bool
  pub read : Location → F → Result IoError (List ℕ)
  -- the length that `metadata` gives, and what successive reads of the open file give
  pub metadata_len : Location → F → Result IoError ℕ
  pub chunks : Location → F → Result IoError (List (List ℕ))
  pub write : Location → List ℕ → Action F IoError Unit
  -- `File::open(path)?.sync_all()`
  pub sync_all : Location → Action F IoError Unit
  pub rename : Location → Location → Action F IoError Unit
  pub remove_file : Location → Action F IoError Unit
  pub copy : Location → Location → Action F IoError ℕ
  pub hard_link : Location → Location → Action F IoError Unit
  pub read_dir : Location → F → Result IoError (List (String × FileType))

-- The temporary name of a file.
unfoldable pub temporary_path : Location → Location
temporary_path [] = ".rrjj-sync-tmp" ∷ []
temporary_path (name ∷ path) = text_append name ".rrjj-sync-tmp" ∷ path

module _ {F : Type 0} (files : Files F) where
  abbrev pub unless_missing : Result IoError Unit × F → Result IoError Unit × F
  unless_missing (err not_found, s) = (ok tt, s)
  unless_missing answer = answer

  unfoldable pub remove_temporary : Location → Action F IoError Unit
  remove_temporary path s = unless_missing (files.remove_file path s)

  unfoldable pub sync_directory : Location → Action F IoError Unit
  sync_directory path = files.sync_all path

  -- The temporary file, synced, takes the name; `bytes` is what serde made of the value.
  unfoldable pub write_atomic : Location → List ℕ → Action F IoError Unit
  unfolding sync_directory temporary_path
  write_atomic path bytes = do
    files.write (temporary_path path) bytes
    files.sync_all (temporary_path path)
    files.rename (temporary_path path) path
    sync_directory (parent path)

  unfoldable pub write_json_atomic : Location → Result IoError (List ℕ) → Action F IoError Unit
  unfolding write_atomic
  write_json_atomic path (ok bytes) = write_atomic path bytes
  write_json_atomic path (err e) = fail e

  unfoldable pub copy_file_atomic : Location → Location → Action F IoError ℕ
  unfolding remove_temporary temporary_path
  copy_file_atomic source destination = do
    remove_temporary (temporary_path destination)
    bytes ← files.copy source (temporary_path destination)
    files.sync_all (temporary_path destination)
    files.rename (temporary_path destination) destination
    pure bytes
