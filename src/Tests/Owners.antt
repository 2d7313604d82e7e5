-- ===== src/Tests/Owners.antt =====
-- Reviews, repairs and continuations of the run of `two_steps`, and whole runs.
use ownframework_loop.Prelude.{
  ◌≡◌, ◌≤◌, refl, Text-discrete, true, false, ◌⊎◌, some, [], ◌∷◌, ok, String, arith,
}
use ownframework_loop.Packet.{build_pass_count, review_pass_count, repair_round_count, CounterKind}
use ownframework_loop.Transitions.{
  State-discrete, ready_to_build, reviewing, approved, blocked, is_valid, allowed,
  assert_valid_program, program_allowed, is_terminal,
}
use ownframework_loop.Graph.Positions.{find_checkpoint}
use ownframework_loop.Run.{RunState, given, no_reason, cap_exhausted, top_counter}
use ownframework_loop.Program.{
  Finalized, ProgramState, CheckpointState, checkpoint, program_final, find_cp, update_cp, tally_of,
}
use ownframework_loop.Program.Refresh.{
  refresh_current_checkpoints, advance_to_next, pick, pick_step, finalized_state, deps_ok,
}
use ownframework_loop.Program.Finalize.{
  finalize_checkpoint, close_checkpoint, check_approval, remove_id,
}
use ownframework_loop.Budget.Frozen.{
  verify_frozen_graph, check_policy, check_unsealed, is_absent, has_rows,
}
use ownframework_loop.Claims.{is_final_scope}
use ownframework_loop.Owners.{moved, present}
use ownframework_loop.Owners.Fsm.{
  program_transition, transition_document, has_more_checkpoints, finalized_in,
}
use ownframework_loop.Owners.Review.{
  all_finalized, bind_entry, route, reviewed_block, check_bound, advanced_block,
  advance_after_review_approval, final_block, terminalize_program_after_final_review,
}
use ownframework_loop.Owners.Approval.{IsMoved, terminalize-approved}
use ownframework_loop.Owners.Whole.{IsWholeGraph, all_finalized-IsWholeGraph}
use ownframework_loop.Owners.Stale.{stale_advance-resumes}
use ownframework_loop.Owners.Invariant.{IsSound, start}
use ownframework_loop.Owners.Runs.{final_approval-covers_graph}
use ownframework_loop.Tests.Programs.{two_steps}
use ownframework_loop.Tests.Opened.{digests, opened, opened_cp, run_at, no_passes}

-- The first checkpoint was built and is in review.
abbrev reviewed_cp : CheckpointState
reviewed_cp = record (opened_cp "CP-1") { counts = record no_passes { builds = 1; reviews = 1 } }

abbrev in_review : ProgramState
in_review = record opened {
  counters = record no_passes { builds = 1; reviews = 1 };
  checkpoints = reviewed_cp ∷ opened_cp "CP-2" ∷ [];
}

abbrev reviewing_run : RunState
reviewing_run = record (run_at reviewing in_review) { last_candidate_sha = "c1" }

abbrev finalized : String → Finalized
finalized cid = record {
  id = cid;
  terminal_state = approved;
  finalized_at = "t3";
  evidence_sha256 = "e";
}

abbrev advanced : ProgramState
advanced = record in_review {
  review_scope = some checkpoint;
  current_checkpoints = "CP-2" ∷ [];
  finalized_checkpoints = finalized "CP-1" ∷ [];
  checkpoints =
      record reviewed_cp { terminal = some approved }
      ∷ record (opened_cp "CP-2") { checkpoint_entry_candidate_sha = "c1" }
      ∷ [];
}

abbrev advanced_run : RunState
advanced_run = record reviewing_run {
  state = ready_to_build;
  transitions_count = 1;
  updated_at = "t3";
  last_actor = "reviewer";
  state_history =
      record {
        from = reviewing;
        to = ready_to_build;
        at = "t3";
        actor = "reviewer";
        reason = given "next";
      }
      ∷ [];
  program = some advanced;
}

-- Another writer blocked the run after the reviewer had read it.
abbrev blocked_meanwhile : RunState
blocked_meanwhile = record reviewing_run { state = blocked; terminal_reason = cap_exhausted }

advanced_block_ok :
    advanced_block digests two_steps "c1" "t3" "e" reviewing_run ≡ ok (advanced, ready_to_build)
unfolding advanced_block reviewed_block check_bound finalize_checkpoint close_checkpoint
    check_approval remove_id find_cp update_cp advance_to_next refresh_current_checkpoints pick
    pick_step finalized_state deps_ok find_checkpoint route bind_entry verify_frozen_graph
    check_policy check_unsealed is_absent has_rows Text-discrete State-discrete
advanced_block_ok = refl

more_left : has_more_checkpoints two_steps.execution_order (some advanced) ≡ true
unfolding has_more_checkpoints finalized_in Text-discrete
more_left = refl

stale_advance-resumes_example :
    (after : RunState) × (advance_after_review_approval digests two_steps "c1" "reviewer"
        (given "next")
        "t3"
        "e"
        reviewing_run
        blocked_meanwhile
      ≡ ok after)
    × (after.state ≡ ready_to_build)
    × (after.terminal_reason ≡ no_reason)
    × (after.program ≡ some advanced)
stale_advance-resumes_example =
    stale_advance-resumes digests two_steps "c1" "reviewer" (given "next") "t3" "e" reviewing_run
      blocked_meanwhile advanced advanced_block_ok more_left refl refl

-- The whole product is in its last review.
abbrev whole_block : ProgramState
whole_block = record opened {
  review_scope = some program_final;
  current_checkpoints = [];
  finalized_checkpoints = finalized "CP-1" ∷ finalized "CP-2" ∷ [];
  counters = record no_passes { builds = 2; reviews = 3 };
}

abbrev whole_run : RunState
whole_run = record (run_at reviewing whole_block) { last_candidate_sha = "c1" }

abbrev approved_run : RunState
approved_run = record whole_run {
  state = approved;
  transitions_count = 1;
  updated_at = "t9";
  last_actor = "reviewer";
  terminal_reason = given "final_whole_product_review_approved";
  state_history =
      record {
        from = reviewing;
        to = approved;
        at = "t9";
        actor = "reviewer";
        reason = given "final_whole_product_review_approved";
      }
      ∷ [];
}

approved_ok :
    terminalize_program_after_final_review digests two_steps "c1" "reviewer" "t9" whole_run
      whole_run
    ≡ ok approved_run
unfolding terminalize_program_after_final_review final_block reviewed_block check_bound
    program_transition transition_document has_more_checkpoints finalized_in moved
    assert_valid_program is_valid allowed program_allowed is_terminal verify_frozen_graph
    check_policy check_unsealed is_absent has_rows Text-discrete State-discrete
approved_ok = refl

terminalize-approved_example :
    (program : ProgramState) × (whole_run.program ≡ some program)
    × (whole_run.state ≡ reviewing)
    × (is_final_scope program.review_scope ≡ true)
    × (whole_run.last_candidate_sha ≡ "c1")
    × (whole_run.state ≡ reviewing)
    × ((present whole_run.last_candidate_sha ≡ false) ⊎ (whole_run.last_candidate_sha ≡ "c1"))
    × (approved_run.last_candidate_sha ≡ "c1")
    × IsMoved approved "c1" program whole_run approved_run
terminalize-approved_example =
    terminalize-approved digests two_steps "c1" "reviewer" "t9" whole_run whole_run approved_run
      approved_ok

whole_mirrored : (k : CounterKind) → top_counter k whole_run ≡ tally_of k whole_block.counters
whole_mirrored build_pass_count = refl
whole_mirrored review_pass_count = refl
whole_mirrored repair_round_count = refl

whole_within : (k : CounterKind) → tally_of k whole_block.counters ≤ tally_of k whole_block.ceilings
whole_within build_pass_count = ground arith
whole_within review_pass_count = ground arith
whole_within repair_round_count = ground arith

whole_covers : all_finalized two_steps.checkpoints whole_block.finalized_checkpoints ≡ true
unfolding all_finalized finalized_in Text-discrete
whole_covers = refl

whole-IsSound : IsSound two_steps whole_run
whole-IsSound = (
  whole_block,
  record {
    document = refl;
    mirrored = whole_mirrored;
    within = whole_within;
    final_covers = λ f.
        all_finalized-IsWholeGraph two_steps.checkpoints whole_block.finalized_checkpoints
          whole_covers;
  },
)

final_approval-covers_graph_example :
    (program : ProgramState) × (approved_run.program ≡ some program)
    × (approved_run.state ≡ approved)
    × (approved_run.last_candidate_sha ≡ "c1")
    × (whole_run.last_candidate_sha ≡ "c1")
    × (whole_run.state ≡ reviewing)
    × IsWholeGraph two_steps.checkpoints program.finalized_checkpoints
final_approval-covers_graph_example =
    final_approval-covers_graph digests two_steps whole_run whole_run approved_run "c1" "reviewer"
      "t9" whole_run whole-IsSound start refl approved_ok
