-- ===== src/Core/Recorder/Diff/Reference.antt =====
-- `project_diff` of Core/Recorder/Diff without its loop.
use rrjj.Prelude.{
  ℕ, zero, suc, ◌+◌, ◌-◌, ◌≤◌, ◌<◌, ◌≡◌, refl, sym, ap, ◌∙◌, Bool, String, Option, List, [], ◌∷◌,
  ◌++◌, map, arith, ltb, length, length-append, take, u64_modulus, append_assoc, append-nil,
  Bool-cases, inl, inr,
}
use rrjj.Prelude.Action.{Result, ok, err, and_then, and_then-eq-ok, ok-injective}
use rrjj.Schema.{Change, ChangeStats, record_change, no_changes}
use rrjj.Core.Recorder.Diff.{
  Entry, Resolved, Collected, Projection, resolve, classify, change_of, add_change, collect_one,
  collect, nothing_collected, diff_of, project_diff,
}

pub resolve_all : List Entry → Result String (List Resolved)
resolve_all [] = ok []
resolve_all (entry ∷ entries) =
    and_then (resolve entry) λ r. and_then (resolve_all entries) λ rs. ok (r ∷ rs)

-- The statistics of a list of changes, counted from the first.
pub tally : ChangeStats → List Resolved → ChangeStats
tally stats [] = stats
tally stats (r ∷ rs) = tally (record_change (classify r.before r.after) stats) rs

collected : (String → Option ℕ) → ℕ → List Resolved → Collected → Collected
collected metadata max_changes [] c = c
collected metadata max_changes (r ∷ rs) c =
    collected metadata max_changes rs (collect_one metadata max_changes r c)

and_then_assoc :
    {E A B C : Type 0} (r : Result E A) (f : A → Result E B) (g : B → Result E C)
    → and_then (and_then r f) g ≡ and_then r (λ a. and_then (f a) g)
and_then_assoc (ok a) f g = refl
and_then_assoc (err e) f g = refl

and_then-ap :
    {E A B : Type 0} (r : Result E A) (f g : A → Result E B)
    → ((a : A) → f a ≡ g a)
    → and_then r f ≡ and_then r g
and_then-ap (ok a) f g h = h a
and_then-ap (err e) f g h = refl

collect-collected :
    (metadata : String → Option ℕ) (max_changes : ℕ) (es : List Entry) (c : Collected)
    → collect metadata max_changes es c
      ≡ and_then (resolve_all es) (λ rs. ok (collected metadata max_changes rs c))
unfolding collect resolve_all collected
collect-collected metadata max_changes [] c = refl
collect-collected metadata max_changes (e ∷ es) c =
    and_then-ap (resolve e) _ _ (λ r.
      collect-collected metadata max_changes es (collect_one metadata max_changes r c)
      ∙ sym (and_then_assoc (resolve_all es) _ _))
    ∙ sym (and_then_assoc (resolve e) _ _)

-- The changes that the loop keeps of a list of them.
fill : ℕ → List Change → List Change → List Change
fill max_changes changes [] = changes
fill max_changes changes (x ∷ xs) = fill max_changes (add_change max_changes x changes) xs

take-nil : {A : Type 0} (n : ℕ) → take {A = A} n [] ≡ []
take-nil zero = refl
take-nil (suc n) = refl

fill-take :
    (max_changes : ℕ) (cs xs : List Change)
    → length cs ≤ max_changes
    → fill max_changes cs xs ≡ cs ++ take (max_changes - length cs) xs
unfolding fill add_change
fill-take max_changes cs [] h =
    sym (append-nil cs) ∙ ap (λ t. cs ++ t) (sym (take-nil (max_changes - length cs)))
fill-take max_changes cs (x ∷ xs) h = elim (Bool-cases (ltb (length cs) max_changes)) [
  | inl room ↦
      let longer = length-append cs (x ∷ []) in
      let next = fill-take max_changes (cs ++ x ∷ []) xs (ground (arith, longer, room)) in
      let count : suc (max_changes - length (cs ++ x ∷ [])) ≡ max_changes - length cs =
        ground (arith, longer, room) in
      rw room (next ∙ append_assoc cs (x ∷ []) _ ∙ ap (λ n. cs ++ take n (x ∷ xs)) count)
  | inr full ↦
      let none_left : max_changes - length cs ≡ 0 = ground (arith, full) in
      rw full (
        fill-take max_changes cs xs h
        ∙ ap (λ n. cs ++ take n xs) none_left
        ∙ sym (ap (λ n. cs ++ take n (x ∷ xs)) none_left))
]

collected-changes :
    (metadata : String → Option ℕ) (max_changes : ℕ) (rs : List Resolved) (c : Collected)
    → (collected metadata max_changes rs c).changes
      ≡ fill max_changes c.changes (map (change_of metadata) rs)
unfolding collected collect_one fill
collected-changes metadata max_changes [] c = refl
collected-changes metadata max_changes (r ∷ rs) c =
    collected-changes metadata max_changes rs (collect_one metadata max_changes r c)

collected-stats :
    (metadata : String → Option ℕ) (max_changes : ℕ) (rs : List Resolved) (c : Collected)
    → (collected metadata max_changes rs c).stats ≡ tally c.stats rs
unfolding collected tally collect_one
collected-stats metadata max_changes [] c = refl
collected-stats metadata max_changes (r ∷ rs) c = collected-stats metadata max_changes rs _

collected-total :
    (metadata : String → Option ℕ) (max_changes : ℕ) (rs : List Resolved) (c : Collected)
    → c.total + length rs < u64_modulus
    → (collected metadata max_changes rs c).total ≡ c.total + length rs
unfolding collected collect_one
collected-total metadata max_changes [] c h = omega arith
collected-total metadata max_changes (r ∷ rs) c h = omega (
  arith,
  h,
  collected-total metadata max_changes rs (collect_one metadata max_changes r c) (omega (arith, h)),
)

-- What is reported of entries that are all resolved.
pub reported : (String → Option ℕ) → ℕ → List Resolved → Projection
reported metadata max_changes rs = record {
  changes = take max_changes (map (change_of metadata) rs);
  stats = tally no_changes rs;
  truncated = ltb max_changes (length rs);
}

length-resolve_all :
    (es : List Entry) (rs : List Resolved) → resolve_all es ≡ ok rs → length rs ≡ length es
unfolding resolve_all
length-resolve_all [] rs h = ap length (sym (ok-injective h))
length-resolve_all (e ∷ es) rs h =
    let (r, first, h1) = and_then-eq-ok (resolve e) _ h in
    let (rest, later, h2) = and_then-eq-ok (resolve_all es) _ h1 in
    ap length (sym (ok-injective h2)) ∙ ap suc (length-resolve_all es rest later)

Projection-eq :
    {cs ds : List Change} {s t : ChangeStats} {b d : Bool}
    → cs ≡ ds
    → s ≡ t
    → b ≡ d
    → Path Projection
        (record { changes = cs; stats = s; truncated = b })
        (record { changes = ds; stats = t; truncated = d })
Projection-eq p q r = λ i. record { changes = p i; stats = q i; truncated = r i }

collected-reported :
    (metadata : String → Option ℕ) (max_changes : ℕ) (rs : List Resolved)
    → length rs < u64_modulus
    → diff_of max_changes (collected metadata max_changes rs nothing_collected)
      ≡ reported metadata max_changes rs
unfolding reported
collected-reported metadata max_changes rs h =
    let xs = map (change_of metadata) rs in
    let total : (collected metadata max_changes rs nothing_collected).total ≡ length rs =
      omega (arith, collected-total metadata max_changes rs nothing_collected (omega (arith, h))) in
    let all : max_changes - 0 ≡ max_changes = omega arith in
    Projection-eq
      (collected-changes metadata max_changes rs nothing_collected
        ∙ fill-take max_changes [] xs (omega arith)
        ∙ ap (λ n. take n xs) all)
      (collected-stats metadata max_changes rs nothing_collected) (ap (ltb max_changes) total)

all_reported :
    (metadata : String → Option ℕ) (max_changes : ℕ) (r : Result String (List Resolved))
    → ((rs : List Resolved) → r ≡ ok rs → length rs < u64_modulus)
    → and_then r
        (λ rs. ok (diff_of max_changes (collected metadata max_changes rs nothing_collected)))
      ≡ and_then r (λ rs. ok (reported metadata max_changes rs))
all_reported metadata max_changes (ok rs) h =
    ap ok (collected-reported metadata max_changes rs (h rs refl))
all_reported metadata max_changes (err e) h = refl

-- The diff of fewer than 2 ^ 64 entries reports exactly the first `max_changes` of them as changes,
-- counts all of them by their kinds, and says that it is truncated exactly when there are more; it
-- fails exactly when an entry cannot be read or is in conflict.
pub project_diff-reported :
    (metadata : String → Option ℕ) (max_changes : ℕ) (es : List Entry)
    → length es < u64_modulus
    → project_diff metadata max_changes es
      ≡ and_then (resolve_all es) (λ rs. ok (reported metadata max_changes rs))
unfolding project_diff
project_diff-reported metadata max_changes es h =
    ap (λ q. and_then q (λ c. ok (diff_of max_changes c)))
      (collect-collected metadata max_changes es nothing_collected)
    ∙ and_then_assoc (resolve_all es) _ _
    ∙ all_reported metadata max_changes (resolve_all es)
        (λ rs e. omega (arith, h, length-resolve_all es rs e))
