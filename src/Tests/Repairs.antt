-- ===== src/Tests/Repairs.antt =====
-- Repairs, continuations and steps of the run of `two_steps`.
use ownframework_loop.Prelude.{
  ◌≡◌, ◌≤◌, refl, Text-discrete, true, some, none, [], ◌∷◌, ok, String, arith,
}
use ownframework_loop.Packet.{build_pass_count, review_pass_count, repair_round_count, CounterKind}
use ownframework_loop.Transitions.{
  State-discrete, ready_to_build, building, ready_for_review, is_terminal, changes_requested,
  reviewing, blocked, assert_valid, is_valid, allowed,
}
use ownframework_loop.Graph.Positions.{find_checkpoint}
use ownframework_loop.Run.{RunState, given, top_counter}
use ownframework_loop.Program.{ProgramState, find_cp, update_cp, tally_of}
use ownframework_loop.Budget.{borrowed_by}
use ownframework_loop.Budget.Bump.{bump_counter_one, count_claim, required_cap}
use ownframework_loop.Budget.Frozen.{
  verify_frozen_graph, check_policy, check_unsealed, is_absent, has_rows,
}
use ownframework_loop.Owners.{moved}
use ownframework_loop.Owners.Fsm.{OwnerFields, no_fields, transition}
use ownframework_loop.Owners.Repair.{
  RepairRequest, transition_funded_repair, fund_repair, fund_program, fund_checkpoint, fund_final,
  with_evidence, settle_repair, merge_funded_repair_program_block,
}
use ownframework_loop.Owners.Continue.{
  ContinueRequest, continue_blocked_program, fund_continuation, continued_document, is_hex,
  is_hex_text,
}
use ownframework_loop.Graph.WorkUnits.{is_blank}
use ownframework_loop.Owners.Counting.{ContinuationOutcome, continue_blocked_program-outcome}
use ownframework_loop.Owners.Funding.{RepairOutcome, transition_funded_repair-outcome}
use ownframework_loop.Owners.Invariant.{IsSound, measured, start, then, claims, transitions}
use ownframework_loop.Owners.Runs.{Steps-IsSound}
use ownframework_loop.Tests.Programs.{two_steps}
use ownframework_loop.Tests.Opened.{digests, opened, opened_cp, run_at, no_passes, built}
use ownframework_loop.Tests.Claims.{ready, in_build, first_claim, first_claim_ok}

-- The first checkpoint was built, reviewed and rejected.
abbrev rejected_block : ProgramState
rejected_block = record opened {
  counters = record no_passes { builds = 1; reviews = 1 };
  checkpoints =
      record (opened_cp "CP-1") { counts = record no_passes { builds = 1; reviews = 1 } }
      ∷ opened_cp "CP-2"
      ∷ [];
}

abbrev rejected_run : RunState
rejected_run = record (run_at reviewing rejected_block) { last_candidate_sha = "c1" }

abbrev request : RepairRequest
request = record {
  actor = "reviewer";
  commit_sha = "c1";
  no_progress_streak = none;
  snapshot = none;
  identical_finding_streak = some 1;
  last_must_fix_fingerprint = some "f";
  allowed_sources = reviewing ∷ [];
  claimed_reason = given "repair";
}

abbrev repaired_block : ProgramState
repaired_block = record rejected_block {
  counters = record { builds = 1; reviews = 1; repairs = 1 };
  checkpoints =
      record (opened_cp "CP-1") {
        counts = record { builds = 1; reviews = 1; repairs = 1 };
        last_evidence = record { build_sha = none; review_sha = none; repair_sha = some "c1" };
      }
      ∷ opened_cp "CP-2"
      ∷ [];
}

abbrev repaired_run : RunState
repaired_run = record (run_at changes_requested repaired_block) {
  last_candidate_sha = "c1";
  transitions_count = 1;
  updated_at = "t3";
  last_actor = "reviewer";
  identical_finding_streak = 1;
  last_must_fix_fingerprint = "f";
  state_history =
      record {
        from = reviewing;
        to = changes_requested;
        at = "t3";
        actor = "reviewer";
        reason = given "repair";
      }
      ∷ [];
}

repaired_ok : transition_funded_repair digests two_steps request "t3" rejected_run ≡ ok repaired_run
unfolding transition_funded_repair fund_repair fund_program fund_checkpoint fund_final with_evidence
    settle_repair merge_funded_repair_program_block bump_counter_one count_claim required_cap
    borrowed_by find_cp update_cp find_checkpoint moved assert_valid is_valid allowed
    verify_frozen_graph check_policy check_unsealed is_absent has_rows Text-discrete State-discrete
repaired_ok = refl

transition_funded_repair-outcome_example : RepairOutcome rejected_block rejected_run repaired_run
transition_funded_repair-outcome_example =
    transition_funded_repair-outcome digests two_steps request "t3" rejected_run repaired_run
      rejected_block refl repaired_ok

-- The run is BLOCKED, and the operator continues it.
abbrev sha : String
sha = "0123456789012345678901234567890123456789"

abbrev blocked_run : RunState
blocked_run = record (run_at blocked rejected_block) { last_candidate_sha = sha }

abbrev wish : ContinueRequest
wish = record {
  actor = "operator";
  reason = "fixed";
  commit_sha = sha;
  continuation_id = sha;
  expected_previous_candidate_sha = "";
}

abbrev resumed_block : ProgramState
resumed_block = record rejected_block {
  counters = record { builds = 1; reviews = 1; repairs = 1 };
  checkpoints =
      record (opened_cp "CP-1") { counts = record { builds = 1; reviews = 1; repairs = 1 } }
      ∷ opened_cp "CP-2"
      ∷ [];
}

abbrev resumed_run : RunState
resumed_run = record (run_at ready_to_build resumed_block) {
  last_candidate_sha = sha;
  updated_at = "t5";
  last_actor = "operator";
  state_history =
      record {
        from = blocked;
        to = ready_to_build;
        at = "t5";
        actor = "operator";
        reason = given "fixed";
      }
      ∷ [];
}

resumed_ok :
    continue_blocked_program digests two_steps wish "t5" blocked_run ≡ ok (resumed_run, true)
unfolding continue_blocked_program fund_continuation continued_document is_blank is_hex_text is_hex
    bump_counter_one count_claim required_cap borrowed_by find_cp update_cp find_checkpoint
    verify_frozen_graph check_policy check_unsealed is_absent has_rows Text-discrete State-discrete
resumed_ok = refl

continue_blocked_program-outcome_example :
    (program : ProgramState) × (blocked_run.program ≡ some program)
    × ContinuationOutcome program blocked_run resumed_run true
continue_blocked_program-outcome_example =
    continue_blocked_program-outcome digests two_steps wish "t5" blocked_run resumed_run true
      resumed_ok

-- The first claim, as a step of a sound run.
ready_mirrored : (k : CounterKind) → top_counter k ready ≡ tally_of k opened.counters
ready_mirrored build_pass_count = refl
ready_mirrored review_pass_count = refl
ready_mirrored repair_round_count = refl

ready_within : (k : CounterKind) → tally_of k opened.counters ≤ tally_of k opened.ceilings
ready_within build_pass_count = ground arith
ready_within review_pass_count = ground arith
ready_within repair_round_count = ground arith

pub ready-IsSound : IsSound two_steps ready
ready-IsSound = (
  opened,
  record {
    document = refl;
    mirrored = ready_mirrored;
    within = ready_within;
    final_covers = λ f. absurd (ground arith);
  },
)

-- The end of the first build: the block of the caller is that of the document, with the sizes measured.
abbrev measured_block : ProgramState
measured_block = record built { files_changed_unique = 4; diff_lines_total = 120 }

abbrev build_fields : OwnerFields
build_fields = record no_fields {
  no_progress_streak = some 0;
  build_pass_count = some 1;
  program_block = some measured_block;
}

abbrev build_done : RunState
build_done = record in_build {
  state = ready_for_review;
  state_history =
      record {
        from = building;
        to = ready_for_review;
        at = "t2";
        actor = "finalizer";
        reason = given "built";
      }
      ∷ [];
  transitions_count = 1;
  updated_at = "t2";
  last_actor = "finalizer";
  last_candidate_sha = "c1";
  program = some measured_block;
}

build_done_ok :
    transition ready_for_review "finalizer" (given "built") "c1" build_fields "t2" in_build
    ≡ ok build_done
unfolding transition moved assert_valid is_valid allowed is_terminal State-discrete Text-discrete
build_done_ok = refl

Steps-IsSound_example : IsSound two_steps build_done
Steps-IsSound_example = Steps-IsSound digests two_steps ready build_done ready-IsSound (
    then (then start (claims build_pass_count none "t1" first_claim first_claim_ok)) (
      transitions ready_for_review "finalizer" (given "built") "c1" build_fields "t2"
        (measured built 4 120 refl) refl build_done_ok))
