-- ===== src/Sinks/Local/Immutable.antt =====
-- Which files of the shadow repository crates/rrjj-sinks/src/local.rs takes to be immutable, by their
-- names.
use Prim.Native.Char.{Char, char}
use Prim.Native.String.{len}
use rrjj.Prelude.{
  ◌==◌, Bool, false, ◌&&◌, ◌||◌, not, String, str_eq, Option, none, some, List, [], ◌∷◌,
}
use rrjj.Prelude.Texts.{is_empty_text, strip_text, rsplit_once}
use rrjj.Sinks.Util.Oid.{all_hex}
use rrjj.Sinks.Files.{Location}

abbrev dot : Char
dot = char 46 tt

unfoldable pub is_hex : String → Bool
is_hex value = not (is_empty_text value) && all_hex value

abbrev pub is_one_of : List String → String → Bool
is_one_of [] name = false
is_one_of (n ∷ names) name = str_eq name n || is_one_of names name

abbrev pub is_pack_hash : Option String → String → Bool
is_pack_hash none extension = false
is_pack_hash (some hash) extension =
    (len hash == 40 || len hash == 64)
    && is_hex hash
    && is_one_of ("pack" ∷ "idx" ∷ "rev" ∷ "bitmap" ∷ "promisor" ∷ "mtimes" ∷ []) extension

abbrev pub is_pack_name : Option (String × String) → Bool
is_pack_name none = false
is_pack_name (some (stem, extension)) = is_pack_hash (strip_text "pack-" stem) extension

unfoldable pub is_immutable_git_pack_file : String → Bool
unfolding is_hex
is_immutable_git_pack_file name = is_pack_name (rsplit_once dot name)

-- The arms on three and on five components, here with the last one first.
unfoldable pub is_immutable_repository_file : Location → Bool
unfolding is_hex is_immutable_git_pack_file
is_immutable_repository_file (name ∷ kind ∷ a ∷ []) =
    str_eq a "op_store" && is_one_of ("operations" ∷ "views" ∷ []) kind && is_hex name
    || str_eq a "index" && is_one_of ("segments" ∷ "changed_paths" ∷ []) kind && is_hex name
is_immutable_repository_file (name ∷ fanout ∷ c ∷ b ∷ a ∷ []) =
    str_eq a "store"
    && str_eq b "git"
    && str_eq c "objects"
    && (len fanout == 2 && (len name == 38 || len name == 62) && is_hex fanout && is_hex name
        || str_eq fanout "pack" && is_immutable_git_pack_file name)
is_immutable_repository_file path = false
