-- ===== src/Tests/Budget.antt =====
-- A checkpoint that borrows a build from an approved one, and the preflights of the first claims.
use ownframework_loop.Prelude.{
  ◌≡◌, ◌⊎◌, refl, Text-discrete, true, false, some, none, [], ◌∷◌, ok, is_ok,
}
use ownframework_loop.Packet.{Packet, build_pass_count, repair_round_count, CounterKind-discrete}
use ownframework_loop.Transitions.{changes_requested, approved}
use ownframework_loop.Program.{Allocation, ProgramState, find_cp, approved_checkpoint_capacity}
use ownframework_loop.Budget.{borrowed_by, minimum_one_repair_final_acceptance_reserve, packet_cap}
use ownframework_loop.Budget.Pools.{
  approved_ids, donated_by, slack_borrowed, donor_room, donor_pool, first_donor, source_donor,
  slack_pool, add_reserved, future_room, future_reserve,
}
use ownframework_loop.Budget.Plan.{
  semantic_budget_allocation_plan, plan_measure, measure_pools, make_allocation, extend_ledger,
  rows_of,
}
use ownframework_loop.Budget.Bump.{bump_counter_one, required_cap}
use ownframework_loop.Budget.Entitlements.{
  Entitlement, plan_eligible, build_pass_entitlement, repair_entitlement,
}
use ownframework_loop.Budget.Agreement.{repair_entitlement-agrees, build_pass_entitlement-agrees}
use ownframework_loop.Budget.Borrowing.{IsGranted, semantic_budget_allocation_plan-IsGranted}
use ownframework_loop.Tests.Programs.{two_steps, first_cp}
use ownframework_loop.Tests.Opened.{digests, opened, opened_cp, run_at, no_passes}

abbrev lending : Packet
lending = record two_steps {
  semantic_budget_policy =
      some (record { reclaim_approved_checkpoint_capacity = true; use_cumulative_slack = false });
}

-- The first checkpoint is approved after one of its four builds; the second has used all of its own.
abbrev exhausted : ProgramState
exhausted = record opened {
  current_checkpoints = "CP-2" ∷ [];
  finalized_checkpoints =
      record { id = "CP-1"; terminal_state = approved; finalized_at = "t3"; evidence_sha256 = "e" }
      ∷ [];
  counters = record no_passes { builds = 5; reviews = 4 };
  checkpoints =
      record (opened_cp "CP-1") {
        counts = record no_passes { builds = 1; reviews = 1 };
        terminal = some approved;
      }
      ∷ record (opened_cp "CP-2") { counts = record no_passes { builds = 4; reviews = 3 } }
      ∷ [];
  semantic_budget_policy_sha256 = some "policy";
  semantic_budget_allocations = some [];
}

abbrev lent : Allocation
lent = record {
  body = record {
    mission_id = "";
    run_id = "run";
    checkpoint_id = "CP-2";
    counter_kind = build_pass_count;
    declared_local_cap = 4;
    local_used_before = 4;
    cumulative_used_before = 5;
    cumulative_cap = 8;
    reserved_remaining_authority = 1;
    final_acceptance_reserve = some 1;
    reclaimable_pool_before = 3;
    amount_borrowed = 1;
    reclaimable_pool_after = 2;
    source_kind = approved_checkpoint_capacity;
    source_checkpoint_id = some "CP-1";
    source_authority_sha256 = "policy";
    source_event_sha256 = none;
    allocation_number = 1;
    created_at = "t7";
  };
  allocation_id = "row";
}

abbrev borrowed : ProgramState
borrowed = record exhausted { semantic_budget_allocations = some (lent ∷ []) }

borrowed_ok :
    semantic_budget_allocation_plan digests exhausted lending "CP-2" build_pass_count
      (some (run_at changes_requested exhausted))
      "run"
      "t7"
    ≡ ok borrowed
unfolding semantic_budget_allocation_plan plan_measure measure_pools make_allocation extend_ledger
    rows_of borrowed_by minimum_one_repair_final_acceptance_reserve packet_cap approved_ids
    donated_by slack_borrowed donor_room donor_pool first_donor source_donor slack_pool add_reserved
    future_room future_reserve find_cp Text-discrete CounterKind-discrete
borrowed_ok = refl

semantic_budget_allocation_plan-IsGranted_example :
    (borrowed ≡ exhausted) ⊎ IsGranted lending exhausted "CP-2" build_pass_count borrowed
semantic_budget_allocation_plan-IsGranted_example =
    semantic_budget_allocation_plan-IsGranted digests lending exhausted "CP-2" build_pass_count
      (some (run_at changes_requested exhausted)) "run" "t7" borrowed_ok

abbrev may_repair : Entitlement
may_repair = record {
  eligible = true;
  checkpoint_used = 0;
  checkpoint_cap = 2;
  cumulative_used = 0;
  cumulative_cap = 4;
  checkpoint_exhausted = false;
  cumulative_exhausted = false;
}

may_repair_ok :
    repair_entitlement digests opened "CP-1" first_cp
      (some two_steps)
      (some (run_at changes_requested opened))
      "t1"
    ≡ ok may_repair
unfolding repair_entitlement required_cap find_cp borrowed_by plan_eligible
    semantic_budget_allocation_plan plan_measure Text-discrete
may_repair_ok = refl

repair_entitlement-agrees_example :
    is_ok (
      bump_counter_one digests opened "CP-1" repair_round_count first_cp
        (some two_steps)
        (some (run_at changes_requested opened))
        "run"
        "t2")
    ≡ may_repair.eligible
repair_entitlement-agrees_example =
    repair_entitlement-agrees digests opened "CP-1" first_cp (some two_steps)
      (some (run_at changes_requested opened)) "run" "t2" "t1" may_repair_ok

-- The second checkpoint may have the build that it can borrow.
abbrev may_build : Entitlement
may_build = record {
  eligible = true;
  checkpoint_used = 4;
  checkpoint_cap = 4;
  cumulative_used = 5;
  cumulative_cap = 8;
  checkpoint_exhausted = false;
  cumulative_exhausted = false;
}

four : required_cap build_pass_count first_cp ≡ some 4
unfolding required_cap
four = refl

may_build_ok :
    build_pass_entitlement digests exhausted "CP-2" first_cp
      (some lending)
      (some (run_at changes_requested exhausted))
      "t1"
    ≡ ok may_build
unfolding build_pass_entitlement plan_eligible semantic_budget_allocation_plan plan_measure
    measure_pools make_allocation extend_ledger rows_of borrowed_by
    minimum_one_repair_final_acceptance_reserve packet_cap approved_ids donated_by slack_borrowed
    donor_room donor_pool first_donor source_donor slack_pool add_reserved future_room
    future_reserve find_cp Text-discrete CounterKind-discrete
may_build_ok = refl

build_pass_entitlement-agrees_example :
    is_ok (
      bump_counter_one digests exhausted "CP-2" build_pass_count first_cp
        (some lending)
        (some (run_at changes_requested exhausted))
        "run"
        "t2")
    ≡ may_build.eligible
build_pass_entitlement-agrees_example =
    build_pass_entitlement-agrees digests exhausted "CP-2" first_cp (some lending)
      (some (run_at changes_requested exhausted)) "run" "t2" "t1" 4 four may_build_ok
