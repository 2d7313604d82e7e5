-- ===== src/Owners/Review.antt =====
-- program.py, `advance_after_review_approval` and `terminalize_program_after_final_review`: what an
-- approving review does to a PROGRAM run. The guards and the new block come from the snapshot that the
-- caller read without the lock, and the transition works on the document that it reads under it: the
-- two are separate arguments. The evidence manifest appears as its digest.
use ownframework_loop.Prelude.{
  String, same, mem, Bool, true, ◌&&◌, Option, none, some, List, all, map, Result, ok, ◌>>=◌, ◌>>◌,
  require, expect, is_ok,
}
use ownframework_loop.Packet.{Checkpoint, Packet}
use ownframework_loop.Transitions.{State, approved, ready_to_build, ready_for_review, reviewing}
use ownframework_loop.Run.{RunState, Reason, given}
use ownframework_loop.Program.{
  Finalized, checkpoint, program_final, ProgramState, ProgramError, not_program, not_reviewing,
  graph_drift, candidate_mismatch, no_current_checkpoint, unfinished_checkpoints, scope_not_final,
  unknown_checkpoint, Digests, find_cp, update_cp,
}
use ownframework_loop.Program.Refresh.{advance_to_next, select_next_checkpoint}
use ownframework_loop.Program.Finalize.{finalize_checkpoint}
use ownframework_loop.Budget.Frozen.{verify_frozen_graph}
use ownframework_loop.Claims.{same_state, is_final_scope}
use ownframework_loop.Owners.{OwnerError, program_refused, lift, present}
use ownframework_loop.Owners.Fsm.{finalized_in, program_transition}

-- `expected_cp_ids == finalized_cp_ids`, as sets.
unfoldable pub all_finalized : List Checkpoint → List Finalized → Bool
unfolding finalized_in
all_finalized cps fcs =
    all (λ cp. finalized_in cp.id fcs) cps && all (λ fc. mem fc.id (map (λ cp. cp.id) cps)) fcs

-- The next checkpoint is bound to the candidate that just passed review.
unfoldable pub bind_entry : String → String → ProgramState → ProgramState
bind_entry cid sha program = record program {
  checkpoints =
      update_cp cid (λ cp. record cp { checkpoint_entry_candidate_sha = sha }) program.checkpoints;
  review_scope = some checkpoint;
}

-- The block that the advancement leaves, and the state it goes to.
unfoldable pub route :
    Packet → String → Option String → ProgramState → Result ProgramError (ProgramState × State)
unfolding bind_entry
route packet sha (some next) program = do
  cp ← expect (find_cp next program.checkpoints) unknown_checkpoint
  ok (bind_entry next sha program, ready_to_build)
route packet sha none program = do
  require (all_finalized packet.checkpoints program.finalized_checkpoints) unfinished_checkpoints
  ok (record program { review_scope = some program_final }, ready_for_review)

-- The guards that both owners share, with the block they give.
unfoldable pub reviewed_block : RunState → Result ProgramError ProgramState
reviewed_block snapshot = do
  program ← expect snapshot.program not_program
  require (same_state snapshot.state reviewing) not_reviewing
  ok program

unfoldable pub check_bound : String → RunState → Result ProgramError (Unit {0})
check_bound sha snapshot =
    require (present snapshot.last_candidate_sha && same snapshot.last_candidate_sha sha)
      candidate_mismatch

-- The advancement of the block, before the transition.
unfoldable pub advanced_block :
    Digests
    → Packet
    → String
    → String
    → String
    → RunState
    → Result ProgramError (ProgramState × State)
unfolding reviewed_block check_bound route
advanced_block d packet sha now evidence_sha256 snapshot = do
  program ← reviewed_block snapshot
  require (is_ok (verify_frozen_graph d packet program)) graph_drift
  check_bound sha snapshot
  cid ← expect (select_next_checkpoint program) no_current_checkpoint
  closed ← finalize_checkpoint packet program cid approved now evidence_sha256
  next ← advance_to_next closed packet
  route packet sha (select_next_checkpoint next) next

unfoldable pub advance_after_review_approval :
    Digests
    → Packet
    → String
    → String
    → Reason
    → String
    → String
    → RunState
    → RunState
    → Result OwnerError RunState
advance_after_review_approval d packet sha actor reason now evidence_sha256 snapshot cur = do
  next ← lift program_refused (advanced_block d packet sha now evidence_sha256 snapshot)
  program_transition packet.execution_order next.1 actor reason sha (some next.0) true (some 0)
      (some "") now cur

-- The guards of the last approval.
unfoldable pub final_block : Digests → Packet → String → RunState → Result ProgramError ProgramState
unfolding reviewed_block check_bound
final_block d packet sha snapshot = do
  program ← reviewed_block snapshot
  require (is_final_scope program.review_scope) scope_not_final
  check_bound sha snapshot
  require (is_ok (verify_frozen_graph d packet program)) graph_drift
  ok program

unfoldable pub terminalize_program_after_final_review :
    Digests → Packet → String → String → String → RunState → RunState → Result OwnerError RunState
terminalize_program_after_final_review d packet sha actor now snapshot cur = do
  program ← lift program_refused (final_block d packet sha snapshot)
  program_transition packet.execution_order approved actor
      (given "final_whole_product_review_approved") sha (some program) true (some 0) (some "") now
      cur
