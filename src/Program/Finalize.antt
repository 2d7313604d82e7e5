-- ===== src/Program/Finalize.antt =====
-- program.py, `finalize_checkpoint`.
use ownframework_loop.Prelude.{
  String, ltb, same, Bool, true, false, ◌||◌, Option, none, some, List, [], ◌∷◌, ◌++◌, any,
  if◌then◌else◌, Result, ok, ◌>>=◌, ◌>>◌, require, refuse, expect,
}
use ownframework_loop.Packet.{Packet}
use ownframework_loop.Transitions.{State, approved, blocked, stopped, is_approved}
use ownframework_loop.Program.{
  CheckpointState, ProgramState, ProgramError, invalid_terminal_state, unknown_checkpoint,
  already_terminal, already_finalized, approval_without_passes, file_cap, diff_cap, find_cp,
  update_cp,
}
use ownframework_loop.Program.Refresh.{refresh_current_checkpoints}

abbrev is_final : State → Bool
is_final approved = true
is_final blocked = true
is_final stopped = true
is_final _ = false

abbrev pub is_some {ℓ} : {A : Type ℓ} → Option A → Bool
is_some none = false
is_some (some a) = true

-- The guards of an approval.
unfoldable pub check_approval : CheckpointState → ProgramState → Result ProgramError (Unit {0})
check_approval cp program = do
  refuse (ltb cp.counts.builds 1 || ltb cp.counts.reviews 1) approval_without_passes
  refuse (ltb program.max_unique_changed_files program.files_changed_unique) file_cap
  refuse (ltb program.max_baseline_to_final_diff_lines program.diff_lines_total) diff_cap

unfoldable pub remove_id : String → List String → List String
remove_id cid [] = []
remove_id cid (c ∷ cs) = let rest = remove_id cid cs in if same c cid then rest else c ∷ rest

-- The new block before the current checkpoints are chosen again.
unfoldable pub close_checkpoint : String → State → String → String → ProgramState → ProgramState
unfolding remove_id update_cp
close_checkpoint cid terminal_state now evidence_sha256 program = record program {
  checkpoints =
      update_cp cid (λ cp. record cp { terminal = some terminal_state }) program.checkpoints;
  finalized_checkpoints =
      program.finalized_checkpoints
      ++ record {
        id = cid;
        terminal_state = terminal_state;
        finalized_at = now;
        evidence_sha256 = evidence_sha256;
      }
        ∷ [];
  current_checkpoints = remove_id cid program.current_checkpoints;
}

-- `evidence_sha256` is the digest of the evidence manifest, which holds `packet`.
unfoldable pub finalize_checkpoint :
    Packet → ProgramState → String → State → String → String → Result ProgramError ProgramState
unfolding check_approval close_checkpoint find_cp refresh_current_checkpoints
finalize_checkpoint packet program cid terminal_state now evidence_sha256 = do
  require (is_final terminal_state) invalid_terminal_state
  cp ← expect (find_cp cid program.checkpoints) unknown_checkpoint
  refuse (is_some cp.terminal) already_terminal
  refuse (any (λ fc. same fc.id cid) program.finalized_checkpoints) already_finalized
  (if is_approved terminal_state then check_approval cp program else ok tt)
  refresh_current_checkpoints packet
      (close_checkpoint cid terminal_state now evidence_sha256 program)
