-- ===== src/Sinks/Util/Oid.antt =====
-- `normalize_commit_oid` of crates/rrjj-sinks/src/util.rs.
use Prim.Native.Char.{Char, char, code}
use Prim.Native.String.{len, slice, begins, [], ◌∷◌}
use rrjj.Prelude.{ℕ, Bool, true, ◌&&◌, ◌||◌, not, String, leb, ◌==◌, if◌then◌else◌}
use rrjj.Prelude.Action.{Result, ok, err}
use rrjj.Sinks.Error.{SinkError, invalid_flush}

-- `u8::is_ascii_hexdigit`; a byte of a character that is not ASCII is none either.
unfoldable pub is_hexdigit : ℕ → Bool
is_hexdigit c = (leb 48 c && leb c 57) || (leb 65 c && leb c 70) || (leb 97 c && leb c 102)

unfoldable pub all_hex : String → Bool
unfolding is_hexdigit
all_hex [] = true
all_hex (c ∷ s) = is_hexdigit (code c) && all_hex s

-- `to_ascii_lowercase`, on a hex digit
unfoldable pub lower : Char → Char
lower c =
    if code c == 65
    then char 97 tt
    else if code c == 66
    then char 98 tt
    else if code c == 67
    then char 99 tt
    else if code c == 68
    then char 100 tt
    else if code c == 69
    then char 101 tt
    else if code c == 70
    then char 102 tt
    else c

unfoldable pub lowercase : String → String
unfolding lower
lowercase [] = []
lowercase (c ∷ s) = lower c ∷ lowercase s

-- `strip_prefix("c:").unwrap_or(commit)`
unfoldable pub bare_oid : String → String
bare_oid commit = if begins commit "c:" 1 0 == 1 then slice commit 2 (len commit) else commit

unfoldable pub normalize_commit_oid : String → Result SinkError String
unfolding all_hex lowercase bare_oid
normalize_commit_oid commit =
    let hex = bare_oid commit in
    if not (len hex == 40) && not (len hex == 64)
    then err (invalid_flush "checkpoint commit OID must be 40 or 64 hex digits")
    else if not (all_hex hex)
    then err (invalid_flush "checkpoint commit OID is not hex")
    else ok (lowercase hex)
