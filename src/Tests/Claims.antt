-- ===== src/Tests/Claims.antt =====
-- Claims of the run of `two_steps`, its repairs and its continuation.
use ownframework_loop.Prelude.{
  ◌≡◌, ◌≢◌, refl, Text-discrete, true, false, some, none, [], ok, is_ok,
}
use ownframework_loop.Packet.{build_pass_count, repair_round_count}
use ownframework_loop.Transitions.{State-discrete, ready_to_build, building, changes_requested}
use ownframework_loop.Graph.Positions.{find_checkpoint}
use ownframework_loop.Run.{RunState, top_counter}
use ownframework_loop.Program.{ProgramState, program_final, find_cp, update_cp, tally_of}
use ownframework_loop.Budget.{borrowed_by}
use ownframework_loop.Budget.Bump.{bump_counter_one, count_claim, required_cap}
use ownframework_loop.Budget.Frozen.{
  verify_frozen_graph, check_policy, check_unsealed, is_absent, has_rows,
}
use ownframework_loop.Claims.{
  Claim, claimed_document, claim_checkpoint, claim_new, claim_final, record_evidence,
  unified_claim_pass, is_replay, in_flight, local_pass, local_evidence, current_cp,
}
use ownframework_loop.Claims.Mirror.{ClaimEffect, unified_claim_pass-effect}
use ownframework_loop.Claims.Replay.{
  claim_in_flight-counts_once, checkpoint_claim-retry_granted, final_build-retry_refused,
}
use ownframework_loop.Prelude.{err, ◌∷◌}
use ownframework_loop.Program.{claim_cap_exhausted}
use ownframework_loop.Budget.Bump.{borrow_claim, plan_or_cap}
use ownframework_loop.Budget.Plan.{semantic_budget_allocation_plan, plan_measure}
use ownframework_loop.Owners.Refusal.{IsSealed, claim_repair_round, claim_repair_round-IsSealed}
use ownframework_loop.Tests.Programs.{two_steps}
use ownframework_loop.Tests.Opened.{opened_cp, digests, opened, built, run_at}

abbrev pub ready : RunState
ready = run_at ready_to_build opened

abbrev pub in_build : RunState
in_build = record (run_at building built) { updated_at = "t1"; last_actor = "of-loop-claim" }

abbrev pub first_claim : Claim
first_claim = record {
  cp_id = some "CP-1";
  claimed_pass_number = 1;
  cumulative = 1;
  replayed = false;
}

abbrev second_claim : Claim
second_claim = record first_claim { replayed = true }

pub first_claim_ok :
    unified_claim_pass digests two_steps build_pass_count none "t1" ready
    ≡ ok (in_build, first_claim)
unfolding unified_claim_pass is_replay claim_new claim_checkpoint claimed_document record_evidence
    bump_counter_one count_claim required_cap borrowed_by find_cp update_cp find_checkpoint
    current_cp in_flight local_pass local_evidence verify_frozen_graph check_policy check_unsealed
    is_absent has_rows Text-discrete State-discrete
first_claim_ok = refl

second_claim_ok :
    unified_claim_pass digests two_steps build_pass_count none "t2" in_build
    ≡ ok (in_build, second_claim)
unfolding unified_claim_pass is_replay find_cp current_cp in_flight local_pass verify_frozen_graph
    check_policy check_unsealed is_absent has_rows borrowed_by Text-discrete State-discrete
second_claim_ok = refl

build_no_repair : build_pass_count ≢ repair_round_count
build_no_repair h = cc

unified_claim_pass-effect_example :
    (program : ProgramState) × (ready.program ≡ some program)
    × (top_counter build_pass_count ready ≡ tally_of build_pass_count program.counters)
    × ClaimEffect build_pass_count ready in_build program first_claim
unified_claim_pass-effect_example =
    unified_claim_pass-effect digests two_steps build_pass_count none "t1" ready in_build
      first_claim first_claim_ok

claim_in_flight-counts_once_example : (in_build ≡ in_build) × (second_claim.replayed ≡ true)
claim_in_flight-counts_once_example =
    claim_in_flight-counts_once digests two_steps build_pass_count none "t2" in_build in_build
      second_claim build_no_repair refl second_claim_ok

checkpoint_claim_ok :
    claim_checkpoint digests two_steps build_pass_count none opened ready "t1"
    ≡ ok (in_build, first_claim)
unfolding claim_checkpoint claimed_document record_evidence bump_counter_one count_claim
    required_cap borrowed_by find_cp update_cp find_checkpoint Text-discrete
checkpoint_claim_ok = refl

built_intact : is_ok (verify_frozen_graph digests two_steps built) ≡ true
unfolding verify_frozen_graph check_policy check_unsealed is_absent has_rows Text-discrete
built_intact = refl

checkpoint_claim-retry_granted_example :
    (again : Claim) × (unified_claim_pass digests two_steps build_pass_count none "t2" in_build
      ≡ ok (in_build, again))
    × (again.replayed ≡ true)
    × (again.cp_id ≡ first_claim.cp_id)
    × (again.claimed_pass_number ≡ first_claim.claimed_pass_number)
checkpoint_claim-retry_granted_example =
    checkpoint_claim-retry_granted digests two_steps build_pass_count "t1" "t2" opened built ready
      in_build first_claim build_no_repair refl refl checkpoint_claim_ok refl built_intact

-- A whole-product review that asked for changes.
abbrev pub whole : ProgramState
whole = record opened {
  current_checkpoints = [];
  review_scope = some program_final;
  counters = record { builds = 2; reviews = 3; repairs = 1 };
}

abbrev pub rejected : RunState
rejected = run_at changes_requested whole

abbrev whole_claimed : RunState
whole_claimed = record rejected {
  build_pass_count = 3;
  updated_at = "t1";
  last_actor = "of-loop-claim";
  state = building;
  program = some (record whole { counters = record { builds = 3; reviews = 3; repairs = 1 } });
}

abbrev whole_claim : Claim
whole_claim = record { cp_id = none; claimed_pass_number = 3; cumulative = 3; replayed = false }

whole_claim_ok :
    claim_new digests two_steps build_pass_count none whole rejected "t1"
    ≡ ok (whole_claimed, whole_claim)
unfolding claim_new claim_final claimed_document State-discrete
whole_claim_ok = refl

final_build-retry_refused_example :
    is_ok (unified_claim_pass digests two_steps build_pass_count none "t2" whole_claimed) ≡ false
final_build-retry_refused_example =
    final_build-retry_refused digests two_steps "t1" "t2" whole rejected whole_claimed whole_claim
      refl refl refl whole_claim_ok

-- The first checkpoint has used both of its repairs.
abbrev spent : ProgramState
spent = record opened {
  counters = record { builds = 3; reviews = 3; repairs = 2 };
  checkpoints =
      record (opened_cp "CP-1") { counts = record { builds = 3; reviews = 3; repairs = 2 } }
      ∷ opened_cp "CP-2"
      ∷ [];
}

spent_refused :
    unified_claim_pass digests two_steps repair_round_count
      (some "c1")
      "t1"
      (run_at changes_requested spent)
    ≡ err claim_cap_exhausted
unfolding unified_claim_pass is_replay claim_new claim_checkpoint bump_counter_one borrow_claim
    plan_or_cap semantic_budget_allocation_plan plan_measure required_cap borrowed_by find_cp
    find_checkpoint current_cp local_pass local_evidence verify_frozen_graph check_policy
    check_unsealed is_absent has_rows Text-discrete State-discrete
spent_refused = refl

claim_repair_round-IsSealed_example :
    IsSealed
      (run_at changes_requested spent)
      (claim_repair_round digests two_steps
        (some "c1")
        "t1"
        (run_at changes_requested spent)
        (run_at changes_requested spent)).0
claim_repair_round-IsSealed_example =
    claim_repair_round-IsSealed digests two_steps (some "c1") "t1" (run_at changes_requested spent)
      (run_at changes_requested spent) claim_cap_exhausted refl refl spent_refused
