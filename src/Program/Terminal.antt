-- ===== src/Program/Terminal.antt =====
-- program.py, `is_program_terminal` and `record_source_accounting`.
use ownframework_loop.Prelude.{
  ℕ, String, ltb, ◌||◌, Option, none, some, List, [], ◌∷◌, any, all, if◌then◌else◌, Result, ok,
  ◌>>◌, refuse,
}
use ownframework_loop.Transitions.{
  State, approved, blocked, stopped, is_approved, is_blocked, is_stopped,
}
use ownframework_loop.Program.{Finalized, ProgramState, ProgramError, source_breach}

terminal_of : List String → List Finalized → Option State
terminal_of (c ∷ cs) finalized = none
terminal_of [] [] = none
terminal_of [] (f ∷ fs) =
    if any (λ fc. is_blocked fc.terminal_state) (f ∷ fs)
    then some blocked
    else if any (λ fc. is_stopped fc.terminal_state) (f ∷ fs)
    then some stopped
    else if all (λ fc. is_approved fc.terminal_state) (f ∷ fs)
    then some approved
    else none

-- `(False, "")` is `none`.
unfoldable pub is_program_terminal : ProgramState → Option State
unfolding terminal_of
is_program_terminal program = terminal_of program.current_checkpoints program.finalized_checkpoints

-- Absolute counts replace the old ones, unless one breaches its ceiling.
unfoldable pub record_source_accounting : ProgramState → ℕ → ℕ → Result ProgramError ProgramState
record_source_accounting program files lines = do
  refuse
      (ltb program.max_unique_changed_files files
        || ltb program.max_baseline_to_final_diff_lines lines)
      source_breach
  ok (record program { files_changed_unique = files; diff_lines_total = lines })
