-- ===== src/Budget/Plan.antt =====
-- `semantic_budget_allocation_plan`: one borrowed claim, or the reason why there is none.
use ownframework_loop.Prelude.{
  ℕ, ◌-◌, ◌+◌, String, ltb, leb, ◌==◌, same, mem, Bool, true, false, ◌&&◌, ◌||◌, Option, none, some,
  List, [], ◌∷◌, ◌++◌, all, max, get_or, if◌then◌else◌, Result, ok, ◌>>=◌, ◌>>◌, require, refuse,
  expect,
}
use ownframework_loop.Packet.{Packet, CounterKind, SemanticBudgetPolicy}
use ownframework_loop.Transitions.{
  State, ready_to_build, building, changes_requested, ready_for_review, reviewing, is_approved,
  is_blocked, is_stopped,
}
use ownframework_loop.Graph.{ids}
use ownframework_loop.Run.{RunState}
use ownframework_loop.Program.{
  tally_of, Allocation, AllocationBody, approved_checkpoint_capacity, mission_cumulative_slack,
  ProgramState, Digests, find_cp,
}
use ownframework_loop.Program.Finalize.{is_some}
use ownframework_loop.Budget.{
  minimum_one_repair_final_acceptance_reserve, same_counter, allocations_of, borrowed_by,
  packet_cap,
}
use ownframework_loop.Budget.Pools.{
  approved_ids, donor_pool, source_donor, slack_pool, future_reserve,
}

pub data PlanRefusal : Type 0 where
  adaptive_policy_not_sealed run_state_not_claimable terminal_state_refuses_allocation
        checkpoint_not_active checkpoint_authority_missing declared_local_authority_remains
        mission_cumulative_authority_exhausted no_progress_fuse_reached
        identical_finding_fuse_reached adaptive_policy_identity_mismatch
        allocation_ledger_identity_invalid no_reclaimable_mission_authority
        future_checkpoint_state_missing would_consume_reserve :
      PlanRefusal

abbrev is_claimable : State → Bool
is_claimable ready_to_build = true
is_claimable building = true
is_claimable changes_requested = true
is_claimable ready_for_review = true
is_claimable reviewing = true
is_claimable _ = false

-- `budget.get(key) or 8`
abbrev fuse : Option ℕ → ℕ
fuse none = 8
fuse (some n) = if n == 0 then 8 else n

-- `program.get("semantic_budget_policy_sha256") == policy_sha`
abbrev pub is_text : Option String → String → Bool
is_text none t = false
is_text (some s) t = same s t

-- What the plan measures before it allocates.
pub record Measure : Type 0 where
  pub local_cap : ℕ
  pub current_local : ℕ
  pub cumulative_used : ℕ
  pub cumulative_cap : ℕ
  pub from_donors : ℕ
  pub from_slack : ℕ
  pub reserved : ℕ

-- The pools, where the policy opens them, and the reserve that must be left.
unfoldable pub measure_pools :
    Packet
    → SemanticBudgetPolicy
    → ProgramState
    → String
    → CounterKind
    → ℕ
    → ℕ
    → Result PlanRefusal (Option Measure)
unfolding donor_pool slack_pool future_reserve minimum_one_repair_final_acceptance_reserve
measure_pools p policy program cid k local_cap current_local = do
  let ledger = allocations_of program
  let used = tally_of k program.counters
  let cap = tally_of k program.ceilings
  let donors =
      if policy.reclaim_approved_checkpoint_capacity then donor_pool k p program ledger else 0
  let slack = if policy.use_cumulative_slack then slack_pool k p cap ledger else 0
  refuse (ltb (donors + slack) 1) no_reclaimable_mission_authority
  future ←
      expect
        (future_reserve k p.checkpoints program.checkpoints
          (approved_ids program.finalized_checkpoints) cid p.execution_order)
        future_checkpoint_state_missing
  let reserved = future + minimum_one_repair_final_acceptance_reserve k
  refuse (ltb (cap - used - 1) reserved) would_consume_reserve
  ok (
      some (record {
        local_cap = local_cap;
        current_local = current_local;
        cumulative_used = used;
        cumulative_cap = cap;
        from_donors = donors;
        from_slack = slack;
        reserved = reserved;
      }))

abbrev valid_row : String → Allocation → Bool
valid_row policy_sha a = a.amount_borrowed == 1 && same a.source_authority_sha256 policy_sha

-- Every test of the plan, in order; `none` is a claim that was borrowed before and not used.
unfoldable pub plan_measure :
    Digests
    → ProgramState
    → Packet
    → String
    → CounterKind
    → Option RunState
    → Result PlanRefusal (Option Measure)
plan_measure d program p cid k state_doc = do
  policy ← expect p.semantic_budget_policy adaptive_policy_not_sealed
  doc ← expect state_doc run_state_not_claimable
  require (is_claimable doc.state) run_state_not_claimable
  refuse (is_blocked doc.state || is_stopped doc.state || is_approved doc.state)
      terminal_state_refuses_allocation
  cp ← expect (find_cp cid program.checkpoints) checkpoint_not_active
  refuse (is_some cp.terminal) checkpoint_not_active
  require (mem cid (ids p.checkpoints)) checkpoint_authority_missing
  let local_cap = packet_cap k cid p.checkpoints
  let current_local = tally_of k cp.counts
  refuse (ltb current_local local_cap) declared_local_authority_remains
  refuse (leb (tally_of k program.ceilings) (tally_of k program.counters))
      mission_cumulative_authority_exhausted
  refuse
      (leb (fuse p.risk_budget.max_consecutive_no_progress_passes)
        (max doc.no_progress_streak cp.no_progress_streak))
      no_progress_fuse_reached
  refuse (leb (fuse p.risk_budget.max_identical_finding_repeats) doc.identical_finding_streak)
      identical_finding_fuse_reached
  require (is_text program.semantic_budget_policy_sha256 (d.policy p))
      adaptive_policy_identity_mismatch
  require (all (valid_row (d.policy p)) (allocations_of program)) allocation_ledger_identity_invalid
  if ltb current_local (local_cap + borrowed_by cid k (allocations_of program))
      then ok none
      else measure_pools p policy program cid k local_cap current_local

-- `1 + (rows of the ledger for this checkpoint and counter)`
unfoldable pub rows_of : String → CounterKind → List Allocation → ℕ
rows_of cid k [] = 0
rows_of cid k (a ∷ ledger) =
    let rest = rows_of cid k ledger in
    if same a.checkpoint_id cid && same_counter a.counter_kind k then rest + 1 else rest

abbrev allocation_body :
    Digests
    → ProgramState
    → Packet
    → String
    → CounterKind
    → String
    → String
    → Measure
    → AllocationBody
allocation_body d program p cid k run_id now m = record {
  mission_id = get_or program.mission_id "";
  run_id = run_id;
  checkpoint_id = cid;
  counter_kind = k;
  declared_local_cap = m.local_cap;
  local_used_before = m.current_local;
  cumulative_used_before = m.cumulative_used;
  cumulative_cap = m.cumulative_cap;
  reserved_remaining_authority = m.reserved;
  final_acceptance_reserve = some (minimum_one_repair_final_acceptance_reserve k);
  reclaimable_pool_before = m.from_donors + m.from_slack;
  amount_borrowed = 1;
  reclaimable_pool_after = m.from_donors + m.from_slack - 1;
  source_kind =
      if ltb 0 m.from_donors then approved_checkpoint_capacity else mission_cumulative_slack;
  source_checkpoint_id =
      if ltb 0 m.from_donors then source_donor k p program (allocations_of program) else none;
  source_authority_sha256 = d.policy p;
  source_event_sha256 = none;
  allocation_number = rows_of cid k (allocations_of program) + 1;
  created_at = now;
}

unfoldable pub make_allocation :
    Digests → ProgramState → Packet → String → CounterKind → String → String → Measure → Allocation
unfolding rows_of
make_allocation d program p cid k run_id now m =
    let body = allocation_body d program p cid k run_id now m in
    record { body = body; allocation_id = d.allocation body }

unfoldable pub extend_ledger :
    Digests
    → ProgramState
    → Packet
    → String
    → CounterKind
    → String
    → String
    → Option Measure
    → ProgramState
unfolding make_allocation
extend_ledger d program p cid k run_id now none = program
extend_ledger d program p cid k run_id now (some m) = record program {
  semantic_budget_allocations =
      some (allocations_of program ++ make_allocation d program p cid k run_id now m ∷ []);
}

-- The block after the plan, with one more row unless an earlier claim remains.
unfoldable pub semantic_budget_allocation_plan :
    Digests
    → ProgramState
    → Packet
    → String
    → CounterKind
    → Option RunState
    → String
    → String
    → Result PlanRefusal ProgramState
unfolding extend_ledger
semantic_budget_allocation_plan d program p cid k state_doc run_id now = do
  measure ← plan_measure d program p cid k state_doc
  ok (extend_ledger d program p cid k run_id now measure)
