-- ===== src/Reader/ObjectId/Hex.antt =====
-- The hexadecimal form of an id and `decode_id` of crates/rrjj-reader/src/lib.rs.
use rrjj.Prelude.{
  ℕ, Bool, true, false, ◌+◌, ◌/◌, ◌%◌, ◌<◌, ◌≡◌, refl, ap, ◌||◌, some, List, String, [], ◌∷◌, ◌++◌,
  ltb, ◌==◌, if◌then◌else◌, length, All, arith, either_false,
}
use rrjj.Prelude.Action.{ok}
use rrjj.Reader.Errors.{ReadError, invalid_object_id}
use rrjj.Reader.ObjectId.{digit, from_hex, decode_pairs, after_colon, starts_char, decode_id}

unfoldable hex_digit : ℕ → ℕ
hex_digit n = if ltb n 10 then 48 + n else 87 + n

-- The lower-case hexadecimal form of bytes
unfoldable pub encode : List ℕ → List ℕ
unfolding hex_digit
encode [] = []
encode (b ∷ bs) = hex_digit (b / 16) ∷ hex_digit (b % 16) ∷ encode bs

unfoldable pub has_colon : List ℕ → Bool
has_colon [] = false
has_colon (b ∷ rest) = (b == 58) || has_colon rest

digit-hex_digit : (n : ℕ) → n < 16 → digit (hex_digit n) ≡ some n
unfolding digit hex_digit
digit-hex_digit n h = ground arith

hex_digit_range : (n : ℕ) → n < 16 → 47 < hex_digit n × hex_digit n < 128
unfolding hex_digit
hex_digit_range n h = ground arith

hex_digit_colon : (n : ℕ) → n < 16 → hex_digit n == 58 ≡ false
unfolding hex_digit
hex_digit_colon n h = ground arith

hex_digit_plus : (n : ℕ) → n < 16 → hex_digit n == 43 ≡ false
unfolding hex_digit
hex_digit_plus n h = ground arith

starts_char-hex_digit : (n : ℕ) (rest : List ℕ) → n < 16 → starts_char (hex_digit n ∷ rest) ≡ true
unfolding starts_char hex_digit
starts_char-hex_digit n rest h = ground arith

from_hex-hex_digit : (b : ℕ) → b < 256 → from_hex (hex_digit (b / 16)) (hex_digit (b % 16)) ≡ some b
unfolding from_hex
from_hex-hex_digit b h = rw (hex_digit_plus (b / 16) (omega arith)) (
    rw (digit-hex_digit (b / 16) (omega arith))
      (rw (digit-hex_digit (b % 16) (omega arith)) (ap (λ n. some n) (omega arith))))

starts_char-encode : (bs : List ℕ) → All (λ b. b < 256) bs → starts_char (encode bs) ≡ true
unfolding encode starts_char
starts_char-encode [] h = refl
starts_char-encode (b ∷ bs) (h, _) =
    starts_char-hex_digit (b / 16) (hex_digit (b % 16) ∷ encode bs) (omega arith)

decode_pairs-encode :
    (e : ReadError) (bs : List ℕ)
    → All (λ b. b < 256) bs
    → decode_pairs e (encode bs) ≡ some (ok bs)
unfolding decode_pairs encode
decode_pairs-encode e [] h = refl
decode_pairs-encode e (b ∷ bs) (h, hs) =
    rw (starts_char-hex_digit (b / 16) (hex_digit (b % 16) ∷ encode bs) (omega arith)) (
      rw (starts_char-encode bs hs)
        (rw (from_hex-hex_digit b h) (rw (decode_pairs-encode e bs hs) refl)))

after_colon-encode :
    (value bs : List ℕ) → All (λ b. b < 256) bs → after_colon value (encode bs) ≡ value
unfolding after_colon encode
after_colon-encode value [] h = refl
after_colon-encode value (b ∷ bs) (h, hs) =
    rw (hex_digit_colon (b / 16) (omega arith))
      (rw (hex_digit_colon (b % 16) (omega arith)) (after_colon-encode value bs hs))

after_colon-tag :
    (value tag hex : List ℕ) → has_colon tag ≡ false → after_colon value (tag ++ 58 ∷ hex) ≡ hex
unfolding after_colon has_colon
after_colon-tag value [] hex h = refl
after_colon-tag value (b ∷ tag) hex h =
    let (other, rest) = either_false (b == 58) (has_colon tag) h in
    rw other (after_colon-tag value tag hex rest)

length-encode : (bs : List ℕ) → length (encode bs) % 2 ≡ 0
unfolding encode
length-encode [] = refl
length-encode (b ∷ bs) = omega (arith, length-encode bs)

-- When an id's bytes stand alone in the value's hexadecimal part, decoding gives them.
decode_id-part :
    (text : List ℕ → String) (value bs : List ℕ)
    → All (λ b. b < 256) bs
    → after_colon value value ≡ encode bs
    → decode_id text value ≡ some (ok bs)
unfolding decode_id
decode_id-part text value bs h part =
    rw part (rw (length-encode bs) (decode_pairs-encode (invalid_object_id (text value)) bs h))

-- Decoding an id that is written in lower-case hexadecimal digits gives its bytes, and so does
-- decoding it after a tag without a colon and a colon.
pub decode_id-encode :
    (text : List ℕ → String) (tag bs : List ℕ)
    → has_colon tag ≡ false
    → All (λ b. b < 256) bs
    → (decode_id text (encode bs) ≡ some (ok bs))
      × (decode_id text (tag ++ 58 ∷ encode bs) ≡ some (ok bs))
decode_id-encode text tag bs plain h = (
  decode_id-part text (encode bs) bs h (after_colon-encode (encode bs) bs h),
  decode_id-part text (tag ++ 58 ∷ encode bs) bs h
      (after_colon-tag (tag ++ 58 ∷ encode bs) tag (encode bs) plain),
)
