-- ===== src/Tests/Engine.antt =====
-- A run of `two_steps` from its first checkpoint to its last.
use ownframework_loop.Prelude.{
  ◌≡◌, refl, Text-discrete, true, some, [], ◌∷◌, ok, String, rev_append, All, List,
}
use ownframework_loop.Transitions.{approved, is_approved}
use ownframework_loop.Graph.Positions.{find_checkpoint}
use ownframework_loop.Graph.Admission.{IsWellFormed, validate_checkpoint_graph-IsWellFormed}
use ownframework_loop.Program.{Tally, Finalized, CheckpointState, ProgramState, find_cp, update_cp}
use ownframework_loop.Program.Refresh.{
  refresh_current_checkpoints, pick, pick_step, finalized_state, deps_ok, select_next_checkpoint,
}
use ownframework_loop.Program.Finalize.{
  finalize_checkpoint, close_checkpoint, check_approval, remove_id,
}
use ownframework_loop.Program.Terminal.{is_program_terminal}
use ownframework_loop.Program.Walk.{finalized_ids}
use ownframework_loop.Program.Engine.{
  IsStart, Approvals, begin, work, approve, Approvals-prefix, Approvals-complete,
}
use ownframework_loop.Tests.Programs.{two_steps, two_steps_admitted}
use ownframework_loop.Tests.Opened.{opened, opened_cp, no_passes}

opened-IsStart : IsStart two_steps opened
opened-IsStart = record { nothing_finalized = refl; first_current = refl }

abbrev one_pass : Tally
one_pass = record no_passes { builds = 1; reviews = 1 }

abbrev first_reviewed : ProgramState
first_reviewed = record opened {
  checkpoints = record (opened_cp "CP-1") { counts = one_pass } ∷ opened_cp "CP-2" ∷ [];
}

abbrev finalized : String → Finalized
finalized cid = record {
  id = cid;
  terminal_state = approved;
  finalized_at = "t3";
  evidence_sha256 = "e";
}

abbrev done_cp : String → CheckpointState
done_cp cid = record (opened_cp cid) { counts = one_pass; terminal = some approved }

abbrev first_done : ProgramState
first_done = record opened {
  current_checkpoints = "CP-2" ∷ [];
  finalized_checkpoints = finalized "CP-1" ∷ [];
  checkpoints = done_cp "CP-1" ∷ opened_cp "CP-2" ∷ [];
}

first_done_ok :
    finalize_checkpoint two_steps first_reviewed "CP-1" approved "t3" "e" ≡ ok first_done
unfolding finalize_checkpoint close_checkpoint check_approval remove_id find_cp update_cp
    refresh_current_checkpoints pick pick_step finalized_state deps_ok find_checkpoint Text-discrete
first_done_ok = refl

abbrev second_reviewed : ProgramState
second_reviewed = record first_done {
  checkpoints = done_cp "CP-1" ∷ record (opened_cp "CP-2") { counts = one_pass } ∷ [];
}

abbrev both_done : ProgramState
both_done = record opened {
  current_checkpoints = [];
  finalized_checkpoints = finalized "CP-1" ∷ finalized "CP-2" ∷ [];
  checkpoints = done_cp "CP-1" ∷ done_cp "CP-2" ∷ [];
}

both_done_ok : finalize_checkpoint two_steps second_reviewed "CP-2" approved "t3" "e" ≡ ok both_done
unfolding finalize_checkpoint close_checkpoint check_approval remove_id find_cp update_cp
    refresh_current_checkpoints pick pick_step finalized_state deps_ok find_checkpoint Text-discrete
both_done_ok = refl

first_path : Approvals two_steps opened ("CP-1" ∷ []) first_done
first_path =
    approve "CP-1" "t3" "e" (work begin (record { same_current = refl; same_finalized = refl }))
      refl first_done_ok

whole_path : Approvals two_steps opened ("CP-2" ∷ "CP-1" ∷ []) both_done
whole_path =
    approve "CP-2" "t3" "e"
      (work first_path (record { same_current = refl; same_finalized = refl })) refl both_done_ok

well_formed : IsWellFormed two_steps
well_formed = validate_checkpoint_graph-IsWellFormed two_steps two_steps_admitted

Approvals-prefix_example :
    (rest : List String) × (two_steps.execution_order ≡ rev_append ("CP-1" ∷ []) rest)
    × (finalized_ids first_done.finalized_checkpoints ≡ rev_append ("CP-1" ∷ []) [])
    × (select_next_checkpoint first_done
        ≡ select_next_checkpoint (record first_done { current_checkpoints = rest }))
    × All (λ fc. is_approved fc.terminal_state ≡ true) first_done.finalized_checkpoints
Approvals-prefix_example = Approvals-prefix well_formed opened-IsStart first_path

Approvals-complete_example :
    (finalized_ids both_done.finalized_checkpoints ≡ two_steps.execution_order)
    × (is_program_terminal both_done ≡ some approved)
Approvals-complete_example = Approvals-complete well_formed opened-IsStart whole_path refl
