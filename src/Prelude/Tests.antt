-- ===== src/Prelude/Tests.antt =====
-- Boolean tests on the native numbers, the conditional, and the arithmetic of Rust's `u64`.
use Prim.Native.Nat.{ℕ, ◌+◌, ◌-◌, ◌%◌, ◌^◌, compare, Ordering, min}
use mathlib.Core.Path.{◌≡◌, refl}
use mathlib.Core.Logic.{◌≢◌, ◌⊎◌, inl, inr}
use mathlib.Core.Bool.{Bool, true, false, ◌&&◌, ◌||◌}
use native.Mathlib.Omega.{arith}
use mathlib.Core.Option.{Option, none, some}

abbrev pub ltb : ℕ → ℕ → Bool
ltb a b = elim (compare a b) [ Ordering.lt ↦ true | _ ↦ false ]

abbrev pub leb : ℕ → ℕ → Bool
leb a b = elim (compare a b) [ Ordering.gt ↦ false | _ ↦ true ]

infix 50 ◌==◌
abbrev pub ◌==◌ : ℕ → ℕ → Bool
a == b = elim (compare a b) [ Ordering.eq ↦ true | _ ↦ false ]

infix 1 if◌then◌else◌
abbrev pub if◌then◌else◌ {ℓ} : {A : Type ℓ} → Bool → A → A → A
if true then x else y = x
if false then x else y = y

pub Bool-cases : (b : Bool) → (b ≡ true) ⊎ (b ≡ false)
Bool-cases true = inl refl
Bool-cases false = inr refl

pub both_true : (a b : Bool) → (a && b) ≡ true → (a ≡ true) × (b ≡ true)
both_true true b h = (refl, h)
both_true false b h = ground arith

pub true_both : (a b : Bool) → a ≡ true → b ≡ true → (a && b) ≡ true
true_both true b h k = k
true_both false b h k = h

pub either_true : (a b : Bool) → (a || b) ≡ true → (a ≡ true) ⊎ (b ≡ true)
either_true true b h = inl h
either_true false b h = inr h

pub either_false : (a b : Bool) → (a || b) ≡ false → (a ≡ false) × (b ≡ false)
either_false true b h = ground arith
either_false false b h = (refl, h)

pub false_either : (a b : Bool) → a ≡ false → b ≡ false → (a || b) ≡ false
false_either true b h k = h
false_either false b h k = k

pub Option-cases {ℓ} : {A : Type ℓ} (o : Option A) → (o ≡ none) ⊎ ((a : A) × (o ≡ some a))
Option-cases none = inl refl
Option-cases (some a) = inr (a, refl)

abbrev pub u64_modulus : ℕ
u64_modulus = 2 ^ 64

-- `+` on `u64`, as a release build computes it.
abbrev pub wrap64 : ℕ → ℕ
wrap64 n = n % u64_modulus

-- `u64::saturating_add`
abbrev pub saturating_add : ℕ → ℕ → ℕ
saturating_add a b = min (a + b) (u64_modulus - 1)

-- `u64::saturating_sub`
abbrev pub saturating_sub : ℕ → ℕ → ℕ
saturating_sub a b = a - b

pub none-≢-some {ℓ} : {A : Type ℓ} {a : A} → none ≢ some a
none-≢-some h = cc

-- What follows from a guarded value.
pub guarded_some {ℓ} :
    {A : Type ℓ} (b : Bool) (o : Option A) {a : A}
    → (if b then o else none) ≡ some a
    → (b ≡ true) × (o ≡ some a)
guarded_some true o h = (refl, h)
guarded_some false o h = cc

pub barred_some {ℓ} :
    {A : Type ℓ} (b : Bool) (o : Option A) {a : A}
    → (if b then none else o) ≡ some a
    → (b ≡ false) × (o ≡ some a)
barred_some true o h = cc
barred_some false o h = (refl, h)
