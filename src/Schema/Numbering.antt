-- ===== src/Schema/Numbering.antt =====
-- The order that every reader of a timeline checks: the events count up from a number, in one
-- session and one schema version.
use rrjj.Prelude.{
  u64_modulus, zero, length, All, ◌∙◌, ℕ, suc, ◌+◌, ◌≤◌, ◌≡◌, String, some, List, [], ◌∷◌, ◌++◌,
  arith, length, last, wrap64, get_elem?,
}
use rrjj.Schema.{Event}

-- `seq` is a `u64`, so the numbers are those of the positions modulo 2 ^ 64.
abbrev pub NumberedFrom : ℕ → List Event → Type 0
NumberedFrom n [] = Unit
NumberedFrom n (e ∷ es) = (e.seq ≡ wrap64 n) × NumberedFrom (suc n) es

abbrev pub OfSession : String → ℕ → Event → Type 0
OfSession session version e = (e.session_id ≡ session) × (e.v ≡ version)

pub NumberedFrom-append :
    (n : ℕ) (es : List Event) (e : Event)
    → NumberedFrom n es
    → e.seq ≡ wrap64 (n + length es)
    → NumberedFrom n (es ++ e ∷ [])
NumberedFrom-append n [] e h p = (omega (arith, p), tt)
NumberedFrom-append n (x ∷ es) e h p =
    (h.0, NumberedFrom-append (suc n) es e h.1 (omega (arith, p)))

pub All-append {ℓ} :
    {A : Type 0} (P : A → Type ℓ) (xs : List A) (a : A) → All P xs → P a → All P (xs ++ a ∷ [])
All-append P [] a h p = (p, tt)
All-append P (x ∷ xs) a h p = (h.0, All-append P xs a h.1 p)

-- The event at a position has that position for its number.
pub get_elem?-NumberedFrom :
    (n i : ℕ) (es : List Event) {e : Event}
    → NumberedFrom n es
    → get_elem? es i ≡ some e
    → e.seq ≡ wrap64 (n + i)
get_elem?-NumberedFrom n i [] h p = cc
get_elem?-NumberedFrom n zero (x ∷ es) h p = ground (arith, h.0)
get_elem?-NumberedFrom n (suc i) (x ∷ es) h p =
    get_elem?-NumberedFrom (suc n) i es h.1 p ∙ omega arith

-- The same with no wrap-around: what the readers of a file compare with a line count.
abbrev pub CountsFrom : ℕ → List Event → Type 0
CountsFrom n [] = Unit
CountsFrom n (e ∷ es) = (e.seq ≡ n) × CountsFrom (suc n) es

pub CountsFrom-append :
    (n : ℕ) (es : List Event) (e : Event)
    → CountsFrom n es
    → e.seq ≡ n + length es
    → CountsFrom n (es ++ e ∷ [])
CountsFrom-append n [] e h p = (omega (arith, p), tt)
CountsFrom-append n (x ∷ es) e h p = (h.0, CountsFrom-append (suc n) es e h.1 (omega (arith, p)))

pub get_elem?-CountsFrom :
    (n i : ℕ) (es : List Event) {e : Event}
    → CountsFrom n es
    → get_elem? es i ≡ some e
    → e.seq ≡ n + i
get_elem?-CountsFrom n i [] h p = cc
get_elem?-CountsFrom n zero (x ∷ es) h p = ground (arith, h.0)
get_elem?-CountsFrom n (suc i) (x ∷ es) h p = get_elem?-CountsFrom (suc n) i es h.1 p ∙ omega arith

-- The last event has the length, less one, for its number.
pub last-CountsFrom :
    (n : ℕ) (es : List Event) {e : Event}
    → CountsFrom n es
    → last es ≡ some e
    → suc e.seq ≡ n + length es
last-CountsFrom n [] h p = cc
last-CountsFrom n (x ∷ []) h p = ground (arith, h.0)
last-CountsFrom n (x ∷ y ∷ es) h p = last-CountsFrom (suc n) (y ∷ es) h.1 p ∙ omega arith

-- Below 2 ^ 64 the two agree.
pub NumberedFrom-CountsFrom :
    (n : ℕ) (es : List Event) → n + length es ≤ u64_modulus → NumberedFrom n es → CountsFrom n es
NumberedFrom-CountsFrom n [] small h = tt
NumberedFrom-CountsFrom n (e ∷ es) small h =
    (omega (arith, h.0), NumberedFrom-CountsFrom (suc n) es (omega arith) h.1)
