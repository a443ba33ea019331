-- ===== src/Core/PathMap.antt =====
-- `BTreeMap<String, BTreeSet<TouchOperation>>` of crates/rrjj-core/src/lib.rs, as an association list
-- in the order of its keys, and a set as a list in the order of the constructors.
pub mod Covers
use Prim.Native.Nat.{Ordering}
use Prim.Native.String.{compare}
use rrjj.Prelude.{
  ℕ, ◌≡◌, Bool, true, false, String, str_eq, Option, none, some, List, [], ◌∷◌, ltb, ◌==◌,
  if◌then◌else◌,
}
use rrjj.Schema.{TouchOperation, create, modify, remove, rename, other}

abbrev pub OperationSet : Type 0
OperationSet = List TouchOperation

abbrev pub PathMap : Type 0
PathMap = List (String × OperationSet)

-- The derived order of `TouchOperation`.
abbrev pub rank : TouchOperation → ℕ
rank create = 0
rank modify = 1
rank remove = 2
rank rename = 3
rank other = 4

abbrev pub comes_before : String → String → Bool
comes_before s t = elim (compare s t) [ Ordering.lt ↦ true | _ ↦ false ]

-- `BTreeSet::insert`
unfoldable pub insert_operation : TouchOperation → OperationSet → OperationSet
insert_operation o [] = o ∷ []
insert_operation o (p ∷ ps) =
    if rank o == rank p
    then p ∷ ps
    else if ltb (rank o) (rank p)
    then o ∷ p ∷ ps
    else p ∷ insert_operation o ps

-- `BTreeSet::extend`; `collect` extends the empty set.
unfoldable pub extend : OperationSet → List TouchOperation → OperationSet
extend set [] = set
extend set (o ∷ os) = extend (insert_operation o set) os

-- `BTreeMap::get`
unfoldable pub lookup : String → PathMap → Option OperationSet
lookup k [] = none
lookup k ((j, v) ∷ m) = if str_eq j k then some v else lookup k m

-- `BTreeMap::insert`
unfoldable pub insert : String → OperationSet → PathMap → PathMap
insert k v [] = (k, v) ∷ []
insert k v ((j, w) ∷ m) =
    if str_eq j k
    then (k, v) ∷ m
    else if comes_before k j
    then (k, v) ∷ (j, w) ∷ m
    else (j, w) ∷ insert k v m

-- `if let Some(existing) = map.get_mut(path) { existing.extend(operations) }`
unfoldable pub extend_at : String → List TouchOperation → PathMap → PathMap
extend_at k os [] = []
extend_at k os ((j, w) ∷ m) = if str_eq j k then (j, extend w os) ∷ m else (j, w) ∷ extend_at k os m
