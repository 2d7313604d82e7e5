-- ===== src/Tests/Opened.antt =====
-- The first documents of a run of the packet `two_steps`.
use ownframework_loop.Prelude.{
  ◌≡◌, refl, Text-discrete, each, true, some, none, [], ◌∷◌, ok, String,
}
use ownframework_loop.Packet.{build_pass_count}
use ownframework_loop.Transitions.{State, ready_to_build}
use ownframework_loop.Graph.{collect, is_cp_id, checkpoint_errors}
use ownframework_loop.Graph.Scoping.{scoping_errors}
use ownframework_loop.Graph.Positions.{find_checkpoint, order_errors, position_errors}
use ownframework_loop.Graph.WorkUnits.{resolve_checkpoint_work_unit_id}
use ownframework_loop.Graph.Validate.{validate_checkpoint_graph}
use ownframework_loop.Run.{RunState, no_reason}
use ownframework_loop.Program.{Tally, CheckpointState, ProgramState, Digests, find_cp, update_cp}
use ownframework_loop.Program.Initial.{
  initial_block, initial_current, first_free, has_no_deps, ceiling_for, short_of,
  materialise_initial_program_state,
}
use ownframework_loop.Program.Start.{materialise-IsStart}
use ownframework_loop.Program.Engine.{IsStart}
use ownframework_loop.Graph.Admission.{IsWellFormed}
use ownframework_loop.Budget.Bump.{bump_counter_one, count_claim, required_cap}
use ownframework_loop.Budget.{borrowed_by}
use ownframework_loop.Budget.Effect.{IsCounted, bump_counter_one-IsCounted}
use ownframework_loop.Tests.Programs.{two_steps, first_cp}

abbrev pub digests : Digests
digests = record { graph = λ p. "graph"; policy = λ p. "policy"; allocation = λ a. "row" }

abbrev pub no_passes : Tally
no_passes = record { builds = 0; reviews = 0; repairs = 0 }

abbrev pub opened_cp : String → CheckpointState
opened_cp cid = record {
  id = cid;
  counts = no_passes;
  no_progress_streak = 0;
  terminal = none;
  checkpoint_entry_candidate_sha = "base";
  last_evidence = record { build_sha = none; review_sha = none; repair_sha = none };
}

abbrev pub opened : ProgramState
opened = record {
  checkpoint_graph_sha256 = "graph";
  mission_id = none;
  review_scope = none;
  current_checkpoints = "CP-1" ∷ [];
  finalized_checkpoints = [];
  counters = no_passes;
  files_changed_unique = 0;
  diff_lines_total = 0;
  ceilings = record { builds = 8; reviews = 8; repairs = 4 };
  max_unique_changed_files = 500;
  max_baseline_to_final_diff_lines = 30000;
  checkpoints = opened_cp "CP-1" ∷ opened_cp "CP-2" ∷ [];
  semantic_budget_policy_sha256 = none;
  semantic_budget_allocations = none;
}

opened_block : initial_block digests two_steps "base" none ≡ opened
unfolding initial_block initial_current first_free has_no_deps ceiling_for find_checkpoint
    Text-discrete
opened_block = refl

pub opened_ok : materialise_initial_program_state digests two_steps "base" none ≡ ok opened
unfolding materialise_initial_program_state short_of initial_block initial_current first_free
    has_no_deps ceiling_for find_checkpoint Text-discrete validate_checkpoint_graph position_errors
    collect is_cp_id each checkpoint_errors scoping_errors order_errors
    resolve_checkpoint_work_unit_id
opened_ok = refl

materialise-IsStart_example : IsWellFormed two_steps × IsStart two_steps opened
materialise-IsStart_example = materialise-IsStart digests two_steps "base" none opened opened_ok

-- A run that is in a state with a block; each top counter as in the block.
abbrev pub run_at : State → ProgramState → RunState
run_at state block = record {
  is_program_schema = true;
  run_id = "run";
  state = state;
  state_history = [];
  transitions_count = 0;
  build_pass_count = block.counters.builds;
  review_pass_count = block.counters.reviews;
  repair_round = block.counters.repairs;
  no_progress_streak = 0;
  identical_finding_streak = 0;
  last_must_fix_fingerprint = "";
  updated_at = "t0";
  last_actor = "spec";
  terminal_reason = no_reason;
  last_candidate_sha = "";
  program = some block;
}

-- The block after the first build.
abbrev pub built : ProgramState
built = record opened {
  counters = record no_passes { builds = 1 };
  checkpoints =
      record (opened_cp "CP-1") { counts = record no_passes { builds = 1 } }
      ∷ opened_cp "CP-2"
      ∷ [];
}

built_ok :
    bump_counter_one digests opened "CP-1" build_pass_count first_cp
      (some two_steps)
      (some (run_at ready_to_build opened))
      "run"
      "t1"
    ≡ ok built
unfolding bump_counter_one count_claim required_cap borrowed_by find_cp update_cp Text-discrete
built_ok = refl

bump_counter_one-IsCounted_example : IsCounted "CP-1" build_pass_count opened built
bump_counter_one-IsCounted_example =
    bump_counter_one-IsCounted digests opened "CP-1" build_pass_count first_cp (some two_steps)
      (some (run_at ready_to_build opened)) "run" "t1" built built_ok
