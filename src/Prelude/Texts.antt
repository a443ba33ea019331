-- ===== src/Prelude/Texts.antt =====
-- Searching and trimming of texts, as `str` does it for a character or a text.
use Prim.Native.Char.{Char, code}
use Prim.Native.String.{String, [], ◌∷◌, ◌++◌}
use Prim.Native.String.append
use mathlib.Core.Path.{◌≡◌, refl, ap, sym, subst, ◌∙◌}
use native.Mathlib.Omega.{arith}
use mathlib.Core.Bool.{Bool, true, false, ◌&&◌, ◌||◌}
use text.Mathlib.TextEquality.{codes_equal}
use mathlib.Core.Logic.{inl, inr}
use mathlib.Core.Option.{Option, none, some}
use rrjj.Prelude.Tests.{both_true, true_both, either_false, Bool-cases, ◌==◌, if◌then◌else◌}

unfoldable pub same_char : Char → Char → Bool
same_char c d = code c == code d

-- `str::is_empty`
abbrev pub is_empty_text : String → Bool
is_empty_text [] = true
is_empty_text (c ∷ s) = false

-- `str::trim_start_matches(char)`
unfoldable pub trim_start : Char → String → String
unfolding same_char
trim_start c [] = []
trim_start c (d ∷ s) = if same_char c d then trim_start c s else d ∷ s

-- What `trim_end` leaves of a text whose first character and trimmed rest these are.
abbrev pub keep_front : Bool → Char → String → String
keep_front true d [] = []
keep_front drop d s = d ∷ s

-- `str::trim_end_matches(char)`
unfoldable pub trim_end : Char → String → String
unfolding same_char
trim_end c [] = []
trim_end c (d ∷ s) = keep_front (same_char c d) d (trim_end c s)

-- `str::trim_matches(char)`
unfoldable pub trim : Char → String → String
unfolding trim_start trim_end
trim c s = trim_end c (trim_start c s)

-- `text.starts_with(prefix)`, the prefix first
unfoldable pub starts_with : String → String → Bool
unfolding same_char
starts_with [] text = true
starts_with (c ∷ prefix) [] = false
starts_with (c ∷ prefix) (d ∷ text) = same_char c d && starts_with prefix text

-- `text.contains(part)`
unfoldable pub contains : String → String → Bool
unfolding starts_with
contains part [] = is_empty_text part
contains part (d ∷ text) = starts_with part (d ∷ text) || contains part text

-- `text.contains(char)`
unfoldable pub contains_char : Char → String → Bool
unfolding same_char
contains_char c [] = false
contains_char c (d ∷ text) = same_char c d || contains_char c text

-- `text.ends_with(char)`
unfoldable pub ends_with_char : Char → String → Bool
unfolding same_char
ends_with_char c [] = false
ends_with_char c (d ∷ []) = same_char c d
ends_with_char c (d ∷ e ∷ text) = ends_with_char c (e ∷ text)

-- `text.replace(char, char)`
unfoldable pub replace_char : Char → Char → String → String
unfolding same_char
replace_char c by [] = []
replace_char c by (d ∷ text) = (if same_char c d then by else d) ∷ replace_char c by text

-- `text.strip_prefix(prefix)`, the prefix first
unfoldable pub strip_text : String → String → Option String
unfolding same_char
strip_text [] text = some text
strip_text (c ∷ prefix) [] = none
strip_text (c ∷ prefix) (d ∷ text) = if same_char c d then strip_text prefix text else none

-- What `rsplit_once` gives for a text that begins with `d`, by what it gives for the rest.
abbrev pub split_before : Bool → Char → String → Option (String × String) → Option (String × String)
split_before here d text (some (left, right)) = some (d ∷ left, right)
split_before true d text none = some ([], text)
split_before false d text none = none

-- `text.rsplit_once(char)`
unfoldable pub rsplit_once : Char → String → Option (String × String)
unfolding same_char
rsplit_once c [] = none
rsplit_once c (d ∷ text) = split_before (same_char c d) d text (rsplit_once c text)

keep_front-longer : (drop : Bool) (d e : Char) (s : String) → keep_front drop d (e ∷ s) ≡ d ∷ e ∷ s
keep_front-longer true d e s = refl
keep_front-longer false d e s = refl

-- A text that does not end in `c` has nothing to trim at its end.
pub trim_end-clean : (c : Char) (s : String) → ends_with_char c s ≡ false → trim_end c s ≡ s
unfolding trim_end ends_with_char
trim_end-clean c [] h = refl
trim_end-clean c (d ∷ []) h = rw h refl
trim_end-clean c (d ∷ e ∷ s) h =
    ap (keep_front (same_char c d) d) (trim_end-clean c (e ∷ s) h)
    ∙ keep_front-longer (same_char c d) d e s

-- A prefix of a text is a prefix of what the text is continued to.
pub starts_with-append : (p s t : String) → starts_with p s ≡ true → starts_with p (s ++ t) ≡ true
unfolding starts_with
starts_with-append [] s t h = refl
starts_with-append (c ∷ p) [] t h = ground arith
starts_with-append (c ∷ p) (d ∷ s) t h =
    let (same, rest) = both_true (same_char c d) (starts_with p s) h in
    subst (λ u. starts_with (c ∷ p) u ≡ true) (sym (append.cons d s t))
      (true_both (same_char c d) (starts_with p (s ++ t)) same (starts_with-append p s t rest))

same_char-eq : (c d : Char) → same_char c d ≡ true → c ≡ d
unfolding same_char
same_char-eq c d h = codes_equal c d (ground arith)

-- A text that starts with `p` is `p` and the rest.
pub starts_with-split :
    (p text : String) → starts_with p text ≡ true → (rest : String) × (text ≡ p ++ rest)
unfolding starts_with
starts_with-split [] text h = (text, sym (append.nil text))
starts_with-split (c ∷ p) [] h = ground arith
starts_with-split (c ∷ p) (d ∷ text) h =
    let (same, more) = both_true (same_char c d) (starts_with p text) h in
    let (rest, q) = starts_with-split p text more in
    (
      rest,
      ap (λ e. e ∷ text) (sym (same_char-eq c d same))
          ∙ ap (λ t. c ∷ t) q
          ∙ sym (append.cons c p rest),
    )

same_char_refl : (c : Char) → same_char c c ≡ true
unfolding same_char
same_char_refl c = ground arith

same_char_comm : (c d : Char) → same_char c d ≡ same_char d c
unfolding same_char
same_char_comm c d = ground arith

and_false : (a b : Bool) → a ≡ false → (a && b) ≡ false
and_false true b h = ground arith
and_false false b h = refl

true_and : (a b : Bool) → a ≡ true → b ≡ false → (a && b) ≡ false
true_and true b h k = k
true_and false b h k = refl

rest_false : (a b : Bool) → a ≡ true → (a && b) ≡ false → b ≡ false
rest_false true b h k = k
rest_false false b h k = ground arith

-- What two texts begin with alike may be left out.
pub starts_with-same : (p q text : String) → starts_with (p ++ q) (p ++ text) ≡ starts_with q text
unfolding starts_with
starts_with-same [] q text = rw (append.nil q, append.nil text) refl
starts_with-same (c ∷ p) q text =
    rw (append.cons c p q, append.cons c p text, same_char_refl c) (starts_with-same p q text)

-- A name that goes on with a separator, inside of which there is none, is not begun by less.
pub starts_with-separated :
    (c : Char) (name text rest : String)
    → contains_char c name ≡ false
    → starts_with name text ≡ false
    → starts_with (name ++ c ∷ []) (text ++ c ∷ rest) ≡ false
unfolding starts_with contains_char
starts_with-separated c [] text rest clean h = ground arith
starts_with-separated c (d ∷ name) [] rest clean h =
    let (other, more) = either_false (same_char c d) (contains_char c name) clean in
    rw (append.cons d name (c ∷ []), append.nil (c ∷ rest))
      (and_false (same_char d c) (starts_with (name ++ c ∷ []) rest) (same_char_comm d c ∙ other))
starts_with-separated c (d ∷ name) (e ∷ text) rest clean h =
    let (other, more) = either_false (same_char c d) (contains_char c name) clean in
    rw (append.cons d name (c ∷ []), append.cons e text (c ∷ rest))
      (elim (Bool-cases (same_char d e)) [
        | inl same ↦ true_and (same_char d e) _ same (
            starts_with-separated c name text rest more
              (rest_false (same_char d e) (starts_with name text) same h))
        | inr differ ↦ and_false (same_char d e) _ differ
      ])
