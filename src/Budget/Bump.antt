-- ===== src/Budget/Bump.antt =====
-- program.py, `_bump_counter_one`: one more claim, counted on the checkpoint and on the whole PROGRAM.
use ownframework_loop.Prelude.{
  ℕ, ◌+◌, String, leb, Option, none, some, if◌then◌else◌, Result, ok, err, ◌>>=◌, ◌>>◌, refuse,
  expect,
}
use ownframework_loop.Packet.{Checkpoint, Packet, CounterKind, cap_of}
use ownframework_loop.Run.{RunState}
use ownframework_loop.Program.{
  tally_of, bump_tally, ProgramState, ProgramError, key_error, unknown_checkpoint,
  checkpoint_cap_reached, cumulative_cap_reached, Digests, find_cp, update_cp,
}
use ownframework_loop.Budget.{allocations_of, borrowed_by}
use ownframework_loop.Budget.Plan.{PlanRefusal, semantic_budget_allocation_plan}

-- `packet_cp["risk_budget"][cap_key]`
unfoldable pub required_cap : CounterKind → Checkpoint → Option ℕ
required_cap k cp = elim cp.risk_budget [ none ↦ none | some b ↦ cap_of k b ]

unfoldable pub count_claim : String → CounterKind → ProgramState → ProgramState
unfolding update_cp
count_claim cid k program = record program {
  checkpoints =
      update_cp cid (λ cp. record cp { counts = bump_tally k cp.counts }) program.checkpoints;
  counters = bump_tally k program.counters;
}

unfoldable pub plan_or_cap : Result PlanRefusal ProgramState → Result ProgramError ProgramState
plan_or_cap (ok program) = ok program
plan_or_cap (err e) = err checkpoint_cap_reached

-- Beyond its cap a checkpoint needs a borrowed claim; without a packet there is none.
unfoldable pub borrow_claim :
    Digests
    → ProgramState
    → String
    → CounterKind
    → Option Packet
    → Option RunState
    → String
    → String
    → Result ProgramError ProgramState
unfolding plan_or_cap
borrow_claim d program cid k none state_doc run_id now = err checkpoint_cap_reached
borrow_claim d program cid k (some p) state_doc run_id now =
    plan_or_cap (semantic_budget_allocation_plan d program p cid k state_doc run_id now)

unfoldable pub bump_counter_one :
    Digests
    → ProgramState
    → String
    → CounterKind
    → Checkpoint
    → Option Packet
    → Option RunState
    → String
    → String
    → Result ProgramError ProgramState
unfolding required_cap
bump_counter_one d program cid k packet_cp packet state_doc run_id now = do
  cp_cap ← expect (required_cap k packet_cp) key_error
  cp ← expect (find_cp cid program.checkpoints) unknown_checkpoint
  new ←
      (if leb (cp_cap + borrowed_by cid k (allocations_of program)) (tally_of k cp.counts)
        then borrow_claim d program cid k packet state_doc run_id now
        else ok program)
  refuse (leb (tally_of k program.ceilings) (tally_of k new.counters)) cumulative_cap_reached
  ok (count_claim cid k new)
