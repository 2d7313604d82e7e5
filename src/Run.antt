-- ===== src/Run.antt =====
-- The run document STATE.json (lib/ownframework_loop/state.py, `initial_state`), which every owner
-- of a transition reads and writes whole under the run's lock.
use ownframework_loop.Prelude.{ℕ, ◌+◌, String, Bool, false, Option, none, List, [], ◌∷◌}
use ownframework_loop.Packet.{CounterKind}
use ownframework_loop.Transitions.{State, awaiting_approval, unlisted}
use ownframework_loop.Program.{ProgramState}

-- A reason is the caller's text, or one that an owner composes.
pub data Reason : Type 0 where
  given : String → Reason
  no_reason cap_exhausted claim_pass repair_refused : Reason

pub record HistoryEntry : Type 0 where
  pub from : State
  pub to : State
  pub at : String
  pub actor : String
  pub reason : Reason

pub record RunState : Type 0 where
  pub is_program_schema : Bool
  pub run_id : String
  pub state : State
  pub state_history : List HistoryEntry
  pub transitions_count : ℕ
  pub build_pass_count : ℕ
  pub review_pass_count : ℕ
  pub repair_round : ℕ
  pub no_progress_streak : ℕ
  pub identical_finding_streak : ℕ
  pub last_must_fix_fingerprint : String
  pub updated_at : String
  pub last_actor : String
  pub terminal_reason : Reason
  pub last_candidate_sha : String
  pub program : Option ProgramState

unfoldable pub initial_state : String → String → RunState
initial_state run_id now = record {
  is_program_schema = false;
  run_id = run_id;
  state = awaiting_approval;
  state_history =
      record {
        from = unlisted;
        to = awaiting_approval;
        at = now;
        actor = "spec";
        reason = given "run created";
      }
      ∷ [];
  transitions_count = 0;
  build_pass_count = 0;
  review_pass_count = 0;
  repair_round = 0;
  no_progress_streak = 0;
  identical_finding_streak = 0;
  last_must_fix_fingerprint = "";
  updated_at = now;
  last_actor = "spec";
  terminal_reason = no_reason;
  last_candidate_sha = "";
  program = none;
}

-- The top-level mirror of a PROGRAM counter.
abbrev pub top_counter : CounterKind → RunState → ℕ
top_counter CounterKind.build_pass_count s = s.build_pass_count
top_counter CounterKind.review_pass_count s = s.review_pass_count
top_counter CounterKind.repair_round_count s = s.repair_round

abbrev pub bump_top : CounterKind → RunState → RunState
bump_top CounterKind.build_pass_count s = record s { build_pass_count = s.build_pass_count + 1 }
bump_top CounterKind.review_pass_count s = record s { review_pass_count = s.review_pass_count + 1 }
bump_top CounterKind.repair_round_count s = record s { repair_round = s.repair_round + 1 }
