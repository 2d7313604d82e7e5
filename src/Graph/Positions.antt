-- ===== src/Graph/Positions.antt =====
-- `validate_checkpoint_graph`: the execution order against the checkpoints and their dependencies.
use ownframework_loop.Prelude.{
  ℕ, suc, String, leb, same, mem, Bool, false, not, Option, none, some, List, [], ◌∷◌, ◌++◌, any,
  if◌then◌else◌, report, each, Result, ok, err, ◌>>=◌,
}
use ownframework_loop.Packet.{Checkpoint}
use ownframework_loop.Graph.{
  GraphError, is_cp_id, order_id_invalid, order_unknown, order_duplicate, order_omits,
  order_before_dependency,
}

-- The loop over `order`; a duplicate is reported and recorded all the same.
unfoldable pub order_errors : List String → List String → List String → List GraphError
order_errors known seen [] = report (any (λ c. not (mem c seen)) known) order_omits
order_errors known seen (cid ∷ order) =
    let skipped = order_errors known seen order in
    let taken = order_errors known (cid ∷ seen) order in
    if not (is_cp_id cid)
    then order_id_invalid ∷ skipped
    else if not (mem cid known)
    then order_unknown ∷ skipped
    else report (mem cid seen) order_duplicate ++ taken

-- `position.get(cid)`: the index of the last entry, as in a dict comprehension.
unfoldable pub position : String → List String → Option ℕ
position cid [] = none
position cid (x ∷ order) = elim (position cid order) [
  | some i ↦ some (suc i)
  | none ↦ if same cid x then some 0 else none
]

-- `by_id[cid]`: a lookup that fails is Python's KeyError.
unfoldable pub find_checkpoint : String → List Checkpoint → Option Checkpoint
find_checkpoint cid [] = none
find_checkpoint cid (cp ∷ cps) =
    let rest = find_checkpoint cid cps in if same cid cp.id then some cp else rest

-- `d in position and position[d] >= idx`
unfoldable pub late_dependency : List String → Option ℕ → String → Bool
unfolding position
late_dependency order none d = false
late_dependency order (some idx) d = elim (position d order) [ none ↦ false | some i ↦ leb idx i ]

unfoldable pub position_of_errors : List String → String → Checkpoint → List GraphError
unfolding late_dependency
position_of_errors order cid cp =
    each (λ d. report (late_dependency order (position cid order) d) order_before_dependency)
      cp.depends_on

-- The loop over `position.items()`: each id once, in the order of first appearance.
pub data KeyError : Type 0 where
  key_error : KeyError

unfoldable pub position_step :
    List String
    → String
    → Option Checkpoint
    → Result KeyError (List GraphError)
    → Result KeyError (List GraphError)
unfolding position_of_errors
position_step order cid none rest = err key_error
position_step order cid (some cp) rest = do
  errors ← rest
  ok (position_of_errors order cid cp ++ errors)

unfoldable pub position_errors :
    List Checkpoint → List String → List String → List String → Result KeyError (List GraphError)
unfolding find_checkpoint position_step
position_errors by_id order seen [] = ok []
position_errors by_id order seen (cid ∷ todo) =
    let again = position_errors by_id order seen todo in
    let first = position_errors by_id order (cid ∷ seen) todo in
    if mem cid seen then again else position_step order cid (find_checkpoint cid by_id) first
