-- ===== src/Reader/ObjectId.antt =====
-- `decode_id` of crates/rrjj-reader/src/lib.rs. A text is its UTF-8 bytes, as numbers; `none` is the
-- panic of a slice that does not end between two characters.
pub mod Hex
use rrjj.Prelude.{
  ℕ, suc, Bool, true, false, not, ◌+◌, ◌-◌, ◌*◌, ◌/◌, ◌%◌, ◌<◌, ◌≡◌, refl, ◌&&◌, ◌||◌, Option, none,
  some, List, [], ◌∷◌, ◌++◌, String, ltb, leb, ◌==◌, if◌then◌else◌, length, All, arith,
}
use rrjj.Prelude.Action.{Result, ok, err}
use rrjj.Reader.Errors.{ReadError, invalid_object_id}

-- Whether a text may be cut before these bytes.
unfoldable pub starts_char : List ℕ → Bool
starts_char [] = true
starts_char (b ∷ rest) = ltb b 128 || leb 192 b

-- `char::to_digit(16)`
unfoldable pub digit : ℕ → Option ℕ
digit c =
    if leb 48 c && leb c 57
    then some (c - 48)
    else if leb 65 c && leb c 70
    then some (c - 55)
    else if leb 97 c && leb c 102
    then some (c - 87)
    else none

-- The value of two digits
abbrev pub join_digits : Option ℕ → Option ℕ → Option ℕ
join_digits (some high) (some low) = some (high * 16 + low)
join_digits (some high) none = none
join_digits none low = none

-- `u8::from_str_radix(_, 16)` of two bytes, which takes a plus for a sign
unfoldable pub from_hex : ℕ → ℕ → Option ℕ
unfolding digit
from_hex a b = if a == 43 then digit b else join_digits (digit a) (digit b)

-- The bytes after the first colon, or all of them.
unfoldable pub after_colon : (value : List ℕ) → List ℕ → List ℕ
after_colon value [] = value
after_colon value (b ∷ rest) = if b == 58 then rest else after_colon value rest

-- One more byte before what the rest decodes to: the first failure ends the collection.
abbrev pub collect_byte :
    ReadError → Option ℕ → Option (Result ReadError (List ℕ)) → Option (Result ReadError (List ℕ))
collect_byte e none rest = some (err e)
collect_byte e (some b) none = none
collect_byte e (some b) (some (err f)) = some (err f)
collect_byte e (some b) (some (ok bs)) = some (ok (b ∷ bs))

unfoldable pub decode_pairs : ReadError → List ℕ → Option (Result ReadError (List ℕ))
unfolding starts_char from_hex
decode_pairs e [] = some (ok [])
decode_pairs e (a ∷ []) = none
decode_pairs e (a ∷ b ∷ rest) =
    let bytes = decode_pairs e rest in
    if starts_char (a ∷ b ∷ rest) && starts_char rest
    then collect_byte e (from_hex a b) bytes
    else none

-- `text` makes the error's text of the bytes.
unfoldable pub decode_id :
    (text : List ℕ → String) (value : List ℕ) → Option (Result ReadError (List ℕ))
unfolding after_colon decode_pairs
decode_id text value =
    let hex = after_colon value value in
    if not (length hex % 2 == 0)
    then some (err (invalid_object_id (text value)))
    else decode_pairs (invalid_object_id (text value)) hex
