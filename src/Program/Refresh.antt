-- ===== src/Program/Refresh.antt =====
-- program.py, `_refresh_current_checkpoints`, `advance_to_next` and `select_next_checkpoint`: the next
-- checkpoint is the first of the execution order that is not finalized and whose dependencies are all
-- approved.
use ownframework_loop.Prelude.{
  String, same, Bool, false, Option, none, some, List, [], ◌∷◌, all, if◌then◌else◌, Result, ok, err,
  ◌>>=◌,
}
use ownframework_loop.Packet.{Checkpoint, Packet}
use ownframework_loop.Transitions.{State, is_approved}
use ownframework_loop.Graph.Positions.{find_checkpoint}
use ownframework_loop.Program.{Finalized, ProgramState, ProgramError, key_error}

-- `finalized_ids.get(cid)`: in a dict comprehension the last entry counts.
unfoldable pub finalized_state : String → List Finalized → Option State
finalized_state cid [] = none
finalized_state cid (fc ∷ fcs) = elim (finalized_state cid fcs) [
  | some s ↦ some s
  | none ↦ if same cid fc.id then some fc.terminal_state else none
]

abbrev pub is_approved_opt : Option State → Bool
is_approved_opt none = false
is_approved_opt (some s) = is_approved s

unfoldable pub deps_ok : List Finalized → List String → Bool
unfolding finalized_state
deps_ok finalized deps = all (λ d. is_approved_opt (finalized_state d finalized)) deps

unfoldable pub pick_step :
    String
    → Option State
    → Option Checkpoint
    → List Finalized
    → Result ProgramError (List String)
    → Result ProgramError (List String)
unfolding deps_ok
pick_step cid (some s) cp finalized rest = rest
pick_step cid none none finalized rest = err key_error
pick_step cid none (some cp) finalized rest =
    if deps_ok finalized cp.depends_on then ok (cid ∷ []) else rest

-- The loop over the execution order.
unfoldable pub pick :
    List Checkpoint → List Finalized → List String → Result ProgramError (List String)
unfolding finalized_state find_checkpoint pick_step
pick cps finalized [] = ok []
pick cps finalized (cid ∷ order) =
    let rest = pick cps finalized order in
    pick_step cid (finalized_state cid finalized) (find_checkpoint cid cps) finalized rest

unfoldable pub refresh_current_checkpoints :
    Packet → ProgramState → Result ProgramError ProgramState
unfolding pick
refresh_current_checkpoints packet program = do
  current ← pick packet.checkpoints program.finalized_checkpoints packet.execution_order
  ok (record program { current_checkpoints = current })

unfoldable pub advance_to_next : ProgramState → Packet → Result ProgramError ProgramState
unfolding refresh_current_checkpoints
advance_to_next program packet = refresh_current_checkpoints packet program

abbrev pub select_next_checkpoint : ProgramState → Option String
select_next_checkpoint program = elim program.current_checkpoints [ [] ↦ none | c ∷ cs ↦ some c ]
