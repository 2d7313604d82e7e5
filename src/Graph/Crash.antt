-- ===== src/Graph/Crash.antt =====
-- Where `validate_checkpoint_graph` raises instead of returning diagnostics.
use ownframework_loop.Prelude.{
  ◌≡◌, refl, ◌↔◌, String, same→eq, mem, true, false, ◌||◌, none, some, List, [], ◌∷◌, all, is_ok,
  arith, ◌∙◌, ◌≢◌, sym,
}
use ownframework_loop.Packet.{Checkpoint, Packet}
use ownframework_loop.Graph.{GraphError, ids, collect}
use ownframework_loop.Graph.Positions.{find_checkpoint, position_step, position_errors}
use ownframework_loop.Graph.Validate.{validate_checkpoint_graph, graph_errors, admit}

mem-find :
    (c : String) (cps : List Checkpoint)
    → mem c (ids cps) ≡ elim (find_checkpoint c cps) [ none ↦ false | some cp ↦ true ]
unfolding find_checkpoint
mem-find c [] = refl
mem-find c (cp ∷ cps) = ground (arith, mem-find c cps)

all_drop :
    (c : String) (seen known todo : List String)
    → mem c known ≡ true
    → all (λ x. mem x (c ∷ seen) || mem x known) todo ≡ all (λ x. mem x seen || mem x known) todo
all_drop c seen known [] h = refl
all_drop c seen known (x ∷ todo) h = ground (arith, same→eq x c, all_drop c seen known todo h)

position_errors-is_ok :
    (by_id : List Checkpoint) (order seen todo : List String)
    → is_ok (position_errors by_id order seen todo)
      ≡ all (λ x. mem x seen || mem x (ids by_id)) todo
unfolding position_errors position_step
position_errors-is_ok by_id order seen [] = refl
position_errors-is_ok by_id order seen (c ∷ todo) = ground (
  arith,
  position_errors-is_ok by_id order seen todo,
  position_errors-is_ok by_id order (c ∷ seen) todo,
  mem-find c by_id,
  all_drop c seen (ids by_id) todo,
)

graph_errors-is_ok :
    (p : Packet) (by_id : List Checkpoint) (first : List GraphError)
    → is_ok (graph_errors p by_id first) ≡ all (λ x. mem x (ids by_id)) p.execution_order
unfolding graph_errors
graph_errors-is_ok p by_id first =
    ground (arith, position_errors-is_ok by_id p.execution_order [] p.execution_order)

admit-is_ok :
    (order : List String) (cps : List Checkpoint) (p : Packet)
    → (is_ok (admit order cps p) ≡ false) ↔ (
        (order ≢ [])
        × (cps ≢ [])
        × (all (λ x. mem x (ids (collect [] cps).0)) p.execution_order ≡ false))
unfolding admit
admit-is_ok [] cps p = ((λ h. cc), λ h. absurd (h.0 refl))
admit-is_ok (c ∷ order) [] p = ((λ h. cc), λ h. absurd (h.1 refl))
admit-is_ok (c ∷ order) (cp ∷ cps) p =
    let e = graph_errors-is_ok p (collect [] (cp ∷ cps)).0 (collect [] (cp ∷ cps)).1 in
    ((λ h. ((λ q. cc), (λ q. cc), sym e ∙ h)), λ h. e ∙ h.2)

-- Validation raises KeyError, and so reports nothing, exactly when both lists are present and the
-- execution order names a checkpoint that the first loop did not keep.
pub validate_checkpoint_graph-raises :
    (p : Packet)
    → (is_ok (validate_checkpoint_graph p) ≡ false) ↔ (
        (p.execution_order ≢ [])
        × (p.checkpoints ≢ [])
        × (all (λ x. mem x (ids (collect [] p.checkpoints).0)) p.execution_order ≡ false))
unfolding validate_checkpoint_graph
validate_checkpoint_graph-raises p = admit-is_ok p.execution_order p.checkpoints p
