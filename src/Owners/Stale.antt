-- ===== src/Owners/Stale.antt =====
-- An approving review whose caller read the document before another writer blocked the run: program.py,
-- `advance_after_review_approval`, between the caller's read and the lock.
use ownframework_loop.Prelude.{◌≡◌, refl, String, same_refl, true, some, ok, arith}
use ownframework_loop.Packet.{Packet}
use ownframework_loop.Transitions.{ready_to_build, blocked, assert_valid_program, is_terminal}
use ownframework_loop.Run.{RunState, Reason, no_reason}
use ownframework_loop.Program.{ProgramState, Digests}
use ownframework_loop.Owners.{moved}
use ownframework_loop.Owners.Fsm.{has_more_checkpoints, transition_document, program_transition}
use ownframework_loop.Owners.Review.{advanced_block, advance_after_review_approval}

-- Let the snapshot of the caller allow an advancement to the next checkpoint, with checkpoints left, and
-- let the run since be BLOCKED with the same candidate, whatever its block. The advancement succeeds all
-- the same: it takes the run from BLOCKED to READY_TO_BUILD, clears the reason for the block, and writes
-- the block that the snapshot gave over the one in the document.
pub stale_advance-resumes :
    (d : Digests) (p : Packet) (sha actor : String) (reason : Reason) (now evidence : String)
    (snapshot cur : RunState) (new : ProgramState)
    → advanced_block d p sha now evidence snapshot ≡ ok (new, ready_to_build)
    → has_more_checkpoints p.execution_order (some new) ≡ true
    → cur.state ≡ blocked
    → cur.last_candidate_sha ≡ sha
    → (after : RunState) × (advance_after_review_approval d p sha actor reason now evidence snapshot
          cur
        ≡ ok after)
      × (after.state ≡ ready_to_build)
      × (after.terminal_reason ≡ no_reason)
      × (after.program ≡ some new)
unfolding advance_after_review_approval program_transition transition_document moved
    assert_valid_program is_terminal
stale_advance-resumes d p sha actor reason now evidence snapshot cur new allowed more shut bound = (
  transition_document ready_to_build actor reason sha (some new) true (some 0) (some "") now cur,
  ground (arith, allowed, more, shut, bound, same_refl sha),
  refl,
  rw shut refl,
  refl,
)
