-- ===== src/Core/PathMap/Covers.antt =====
-- What a map of touched paths holds, before and after the updates of Core/PathMap.
use rrjj.Prelude.{
  ◌≢◌, suc, ◌≡◌, refl, Bool, false, ◌||◌, ◌&&◌, String, str_eq, eq_iff, none, List, [], ◌∷◌, arith,
  ◌==◌, length,
}
use rrjj.Schema.{TouchOperation}
use rrjj.Core.PathMap.{
  OperationSet, PathMap, rank, insert_operation, extend, lookup, insert, extend_at,
}

abbrev pub has : TouchOperation → OperationSet → Bool
has o [] = false
has o (p ∷ ps) = rank p == rank o || has o ps

pub has-insert_operation :
    (o p : TouchOperation) (set : OperationSet)
    → has o (insert_operation p set) ≡ (rank p == rank o || has o set)
unfolding insert_operation
has-insert_operation o p [] = refl
has-insert_operation o p (q ∷ set) = ground (arith, has-insert_operation o p set)

pub has-extend :
    (o : TouchOperation) (os : List TouchOperation) (set : OperationSet)
    → has o (extend set os) ≡ (has o os || has o set)
unfolding extend
has-extend o [] set = refl
has-extend o (p ∷ os) set =
    ground (arith, has-extend o os (insert_operation p set), has-insert_operation o p set)

-- An entry of the map records that `path` saw the operation `o`.
abbrev pub saw : PathMap → String → TouchOperation → Bool
saw [] path o = false
saw ((k, set) ∷ m) path o = (str_eq k path && has o set) || saw m path o

-- A new key brings its operations, and changes no other key.
pub saw-insert :
    (k path : String) (set : OperationSet) (m : PathMap) (o : TouchOperation)
    → lookup k m ≡ none
    → saw (insert k set m) path o ≡ (saw m path o || (str_eq k path && has o set))
unfolding lookup insert
saw-insert k path set [] o absent = ground arith
saw-insert k path set ((j, w) ∷ m) o absent = ground (arith, saw-insert k path set m o)

-- A known key gains the operations, and keeps those that it had.
pub saw-extend_at :
    (k path : String) (os : List TouchOperation) (m : PathMap) (o : TouchOperation)
    → lookup k m ≢ none
    → saw (extend_at k os m) path o ≡ (saw m path o || (str_eq k path && has o os))
unfolding lookup extend_at
saw-extend_at k path os [] o known = absurd (known refl)
saw-extend_at k path os ((j, w) ∷ m) o known = ground (
  arith,
  eq_iff j k,
  eq_iff j path,
  eq_iff k path,
  has-extend o os w,
  saw-extend_at k path os m o,
)

pub length-extend_at :
    (k : String) (os : List TouchOperation) (m : PathMap) → length (extend_at k os m) ≡ length m
unfolding extend_at
length-extend_at k os [] = refl
length-extend_at k os ((j, w) ∷ m) = ground (arith, length-extend_at k os m)

pub length-insert :
    (k : String) (v : OperationSet) (m : PathMap)
    → lookup k m ≡ none
    → length (insert k v m) ≡ suc (length m)
unfolding lookup insert
length-insert k v [] absent = refl
length-insert k v ((j, w) ∷ m) absent = ground (arith, length-insert k v m)
