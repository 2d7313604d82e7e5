-- ===== src/Budget/Entitlements.antt =====
-- program.py: the read-only preflights of a build and of a repair, and `increment_cp_counter`.
use ownframework_loop.Prelude.{
  ℕ, ◌+◌, String, ltb, leb, ◌==◌, Bool, false, not, ◌&&◌, Option, none, some, get_or, if◌then◌else◌,
  Result, ok, ◌>>=◌, ◌>>◌, require, refuse, expect, is_ok,
}
use ownframework_loop.Packet.{
  Checkpoint, Packet, CounterKind, build_pass_count, repair_round_count, cap_of,
}
use ownframework_loop.Run.{RunState}
use ownframework_loop.Program.{
  tally_of, ProgramState, ProgramError, key_error, unknown_checkpoint, checkpoint_cap_reached,
  cumulative_cap_reached, Digests, find_cp,
}
use ownframework_loop.Budget.{allocations_of, borrowed_by, declared_cap}
use ownframework_loop.Budget.Plan.{semantic_budget_allocation_plan}
use ownframework_loop.Budget.Bump.{required_cap, count_claim}

-- The evidence that a preflight returns; the source's `reason` says which of the two flags is set.
pub record Entitlement : Type 0 where
  pub eligible : Bool
  pub checkpoint_used : ℕ
  pub checkpoint_cap : ℕ
  pub cumulative_used : ℕ
  pub cumulative_cap : ℕ
  pub checkpoint_exhausted : Bool
  pub cumulative_exhausted : Bool

-- `plan and plan.get("eligible")`; the preflights give no run id of their own.
unfoldable pub plan_eligible :
    Digests → ProgramState → Option Packet → String → CounterKind → Option RunState → String → Bool
plan_eligible d program none cid k state_doc now = false
plan_eligible d program (some p) cid k state_doc now =
    is_ok (semantic_budget_allocation_plan d program p cid k state_doc "" now)

unfoldable pub build_pass_entitlement :
    Digests
    → ProgramState
    → String
    → Checkpoint
    → Option Packet
    → Option RunState
    → String
    → Result ProgramError Entitlement
build_pass_entitlement d program cid packet_cp packet state_doc now = do
  cp ← expect (find_cp cid program.checkpoints) unknown_checkpoint
  let used = tally_of build_pass_count cp.counts
  let cap = declared_cap build_pass_count packet_cp
  let allocated = borrowed_by cid build_pass_count (allocations_of program)
  let exhausted =
      leb cap used
      && not (ltb used (cap + allocated))
      && not (plan_eligible d program packet cid build_pass_count state_doc now)
  let spent =
      leb (tally_of build_pass_count program.ceilings) (tally_of build_pass_count program.counters)
  ok (record {
    eligible = not exhausted && not spent;
    checkpoint_used = used;
    checkpoint_cap = cap;
    cumulative_used = tally_of build_pass_count program.counters;
    cumulative_cap = tally_of build_pass_count program.ceilings;
    checkpoint_exhausted = exhausted;
    cumulative_exhausted = spent;
  })

unfoldable pub repair_entitlement :
    Digests
    → ProgramState
    → String
    → Checkpoint
    → Option Packet
    → Option RunState
    → String
    → Result ProgramError Entitlement
unfolding required_cap
repair_entitlement d program cid packet_cp packet state_doc now = do
  cap ← expect (required_cap repair_round_count packet_cp) key_error
  cp ← expect (find_cp cid program.checkpoints) unknown_checkpoint
  let used = tally_of repair_round_count cp.counts
  let full = leb (cap + borrowed_by cid repair_round_count (allocations_of program)) used
  let spent =
      leb (tally_of repair_round_count program.ceilings)
        (tally_of repair_round_count program.counters)
  let refused = full && not (plan_eligible d program packet cid repair_round_count state_doc now)
  ok (record {
    eligible = not refused && not (not full && spent);
    checkpoint_used = used;
    checkpoint_cap = cap;
    cumulative_used = tally_of repair_round_count program.counters;
    cumulative_cap = tally_of repair_round_count program.ceilings;
    checkpoint_exhausted = refused;
    cumulative_exhausted = not full && spent;
  })

-- The whole-product repair has only the PROGRAM-wide cap, or the packet's where the block has none.
unfoldable pub program_final_repair_entitlement : ProgramState → Packet → Entitlement
program_final_repair_entitlement program p =
    let used = tally_of repair_round_count program.counters in
    let durable = tally_of repair_round_count program.ceilings in
    let cap =
      if durable == 0 then get_or (cap_of repair_round_count p.risk_budget) 0 else durable in
    record {
      eligible = ltb used cap;
      checkpoint_used = used;
      checkpoint_cap = cap;
      cumulative_used = used;
      cumulative_cap = cap;
      checkpoint_exhausted = false;
      cumulative_exhausted = not (ltb used cap);
    }

-- Before the count, a build needs the entitlement too, with no packet at hand.
check_build :
    Digests
    → ProgramState
    → String
    → CounterKind
    → Checkpoint
    → String
    → Result ProgramError (Unit {0})
unfolding build_pass_entitlement
check_build d program cid build_pass_count packet_cp now = do
  e ← build_pass_entitlement d program cid packet_cp none none now
  require e.eligible checkpoint_cap_reached
check_build d program cid k packet_cp now = ok tt

unfoldable pub increment_cp_counter :
    Digests
    → ProgramState
    → String
    → CounterKind
    → Checkpoint
    → String
    → Result ProgramError ProgramState
unfolding check_build required_cap count_claim
increment_cp_counter d program cid k packet_cp now = do
  cp ← expect (find_cp cid program.checkpoints) unknown_checkpoint
  cap ← expect (required_cap k packet_cp) key_error
  check_build d program cid k packet_cp now
  refuse (leb cap (tally_of k cp.counts)) checkpoint_cap_reached
  refuse (leb (tally_of k program.ceilings) (tally_of k program.counters)) cumulative_cap_reached
  ok (count_claim cid k program)
