-- ===== src/Owners/Fsm.antt =====
-- state.py, `transition` and `program_transition`.
use ownframework_loop.Prelude.{
  ℕ, String, same, Bool, true, false, not, ◌&&◌, ◌||◌, Option, none, some, List, any, if◌then◌else◌,
  Result, ok, ◌>>◌, refuse, get_or,
}
use ownframework_loop.Transitions.{
  State, segment_boundary, is_terminal, assert_valid, assert_valid_program,
}
use ownframework_loop.Run.{RunState, Reason, no_reason}
use ownframework_loop.Program.{ProgramState, Finalized}
use ownframework_loop.Owners.{
  OwnerError, fsm, boundary_reserved, bound_candidate, not_program_run, lift, present, moved,
  bind_candidate, set_streak, set_fingerprint, set_program, prospective,
}

abbrev pub is_boundary : State → Bool
is_boundary segment_boundary = true
is_boundary _ = false

-- `if to_state in (APPROVED, BLOCKED, STOPPED, SEGMENT_BOUNDARY)`
abbrev close_reason : State → Reason → RunState → RunState
close_reason to reason s = record s {
  terminal_reason = if is_terminal to then reason else s.terminal_reason;
}

abbrev set_no_progress : Option ℕ → RunState → RunState
set_no_progress n s = record s { no_progress_streak = get_or n s.no_progress_streak }

abbrev set_build_count : Option ℕ → RunState → RunState
set_build_count n s = record s { build_pass_count = get_or n s.build_pass_count }

-- The typed owner fields of `transition`.
pub record OwnerFields : Type 0 where
  pub no_progress_streak : Option ℕ
  pub build_pass_count : Option ℕ
  pub identical_finding_streak : Option ℕ
  pub last_must_fix_fingerprint : Option String
  pub program_block : Option ProgramState

abbrev pub no_fields : OwnerFields
no_fields = record {
  no_progress_streak = none;
  build_pass_count = none;
  identical_finding_streak = none;
  last_must_fix_fingerprint = none;
  program_block = none;
}

abbrev has_block : Option ProgramState → Bool
has_block none = false
has_block (some block) = true

-- The body of `transition` for a target other than SEGMENT_BOUNDARY, which it hands to the mission
-- owner's recomputation; that target is refused here.
unfoldable pub transition :
    State → String → Reason → String → OwnerFields → String → RunState → Result OwnerError RunState
unfolding moved
transition to actor reason commit_sha fields now cur = do
  refuse (is_boundary to) boundary_reserved
  lift fsm (assert_valid cur.state to)
  refuse (has_block fields.program_block && not (has_block cur.program)) not_program_run
  ok (
      set_program fields.program_block (
        set_fingerprint fields.last_must_fix_fingerprint (
          set_streak fields.identical_finding_streak (
            set_build_count fields.build_pass_count (
              set_no_progress fields.no_progress_streak (
                close_reason to reason
                  (bind_candidate commit_sha (moved to actor reason now cur))))))))

unfoldable pub finalized_in : String → List Finalized → Bool
finalized_in c fcs = any (λ fc. same fc.id c) fcs

-- Whether the block that the transition leaves behind has a checkpoint to run.
unfoldable pub has_more_checkpoints : List String → Option ProgramState → Bool
unfolding finalized_in
has_more_checkpoints order none = false
has_more_checkpoints order (some program) =
    any (λ c. not (finalized_in c program.finalized_checkpoints)) order

-- On a terminal target the reason is kept; on leaving APPROVED, BLOCKED or STOPPED it is cleared.
abbrev program_reason : State → State → Reason → RunState → RunState
program_reason from to reason s = record s {
  terminal_reason =
      if is_terminal to
      then reason
      else if is_terminal from && not (is_boundary from)
      then no_reason
      else s.terminal_reason;
}

-- The document of a PROGRAM transition.
unfoldable pub transition_document :
    State
    → String
    → Reason
    → String
    → Option ProgramState
    → Bool
    → Option ℕ
    → Option String
    → String
    → RunState
    → RunState
unfolding moved
transition_document to actor reason commit_sha block as_program_schema streak fingerprint now cur =
    let placed = set_program block (
      program_reason cur.state to reason
        (bind_candidate commit_sha (moved to actor reason now cur))) in
    set_fingerprint fingerprint (
      set_streak streak
        (record placed { is_program_schema = as_program_schema || placed.is_program_schema }))

-- `order` is the execution order of the run's packet, empty if the run has none.
unfoldable pub program_transition :
    List String
    → State
    → String
    → Reason
    → String
    → Option ProgramState
    → Bool
    → Option ℕ
    → Option String
    → String
    → RunState
    → Result OwnerError RunState
program_transition order to actor reason commit_sha block as_program_schema streak fingerprint now
      cur =
    do
      refuse (is_boundary to) boundary_reserved
      refuse
          (present commit_sha
            && present cur.last_candidate_sha
            && not (same commit_sha cur.last_candidate_sha))
          bound_candidate
      lift fsm (
          assert_valid_program cur.state to
            (has_more_checkpoints order (prospective block cur.program)))
      ok (
          transition_document to actor reason commit_sha block as_program_schema streak fingerprint
            now cur)
