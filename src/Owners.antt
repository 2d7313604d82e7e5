-- ===== src/Owners.antt =====
-- lib/ownframework_loop/state.py and program.py: the owners of the transitions of a run document. Each
-- reads the document under the run's lock and writes it before it lets the lock go, so it is a function
-- of that document; what a caller read earlier, without the lock, is an argument of its own. How the
-- document is read and committed, with the write-ahead record and the event log, stands in Journal. A
-- text that may be None or "" is "" here: the source treats both alike.
pub mod Fsm
pub mod Repair
pub mod Continue
pub mod Single
pub mod Passes
pub mod Retry
pub mod Review
pub mod Whole
pub mod Refusal
pub mod Invariant
pub mod Runs
pub mod Stale
pub mod Approval
pub mod Advance
pub mod Counting
pub mod Funding
use ownframework_loop.Prelude.{
  ℕ, ◌+◌, String, same, not, Bool, true, false, Option, none, some, List, [], ◌∷◌, ◌++◌,
  if◌then◌else◌, Result, ok, err, get_or,
}
use ownframework_loop.Transitions.{
  State, InvalidTransition, approved, blocked, stopped, segment_boundary, is_terminal,
}
use ownframework_loop.Limits.{RepairLimitExceeded}
use ownframework_loop.Run.{RunState, HistoryEntry, Reason}
use ownframework_loop.Program.{ProgramState, ProgramError}

pub data OwnerError : Type 0 where
  fsm : InvalidTransition → OwnerError
  program_refused : ProgramError → OwnerError
  limit : RepairLimitExceeded → OwnerError
  boundary_reserved bound_candidate wrong_source not_program_run is_program_run counter_drift
        drifted no_checkpoint snapshot_changed history_drift bad_argument :
      OwnerError

abbrev pub lift {ℓ} : {E F : Type 0} {A : Type ℓ} → (E → F) → Result E A → Result F A
lift f (ok a) = ok a
lift f (err e) = err (f e)

-- `if text`
abbrev pub present : String → Bool
present s = not (same s "")

-- `program_block if program_block is not None else cur.get("program")`
abbrev pub prospective : Option ProgramState → Option ProgramState → Option ProgramState
prospective (some block) current = some block
prospective none current = current

-- The fields that every transition writes.
unfoldable pub moved : State → String → Reason → String → RunState → RunState
moved to actor reason now cur = record cur {
  state = to;
  transitions_count = cur.transitions_count + 1;
  updated_at = now;
  last_actor = actor;
  state_history =
      cur.state_history
      ++ record { from = cur.state; to = to; at = now; actor = actor; reason = reason } ∷ [];
}

-- `if commit_sha: new["last_candidate_sha"] = commit_sha`
abbrev pub bind_candidate : String → RunState → RunState
bind_candidate sha s = record s {
  last_candidate_sha = if present sha then sha else s.last_candidate_sha;
}

-- The optional typed owner fields.
abbrev pub set_streak : Option ℕ → RunState → RunState
set_streak n s = record s { identical_finding_streak = get_or n s.identical_finding_streak }

abbrev pub set_fingerprint : Option String → RunState → RunState
set_fingerprint f s = record s { last_must_fix_fingerprint = get_or f s.last_must_fix_fingerprint }

abbrev pub set_program : Option ProgramState → RunState → RunState
set_program block s = record s { program = prospective block s.program }
