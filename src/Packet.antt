-- ===== src/Packet.antt =====
-- The sealed work packet, as far as the PROGRAM engine reads it (lib/ownframework_loop/program.py,
-- limits.py and state.py read these keys; schemas/work-packet-v3.schema.json and -v4 give their shape).
-- An entry that the packet leaves out, or that is no integer, is `none`; the schema admits no
-- negative number. A list or an object has the shape that the schema asks for.
use ownframework_loop.Prelude.{ℕ, String, Bool, List, Option, none}

pub record RiskBudget : Type 0 where
  pub max_build_passes : Option ℕ
  pub max_review_passes : Option ℕ
  pub max_repair_rounds : Option ℕ
  pub max_consecutive_no_progress_passes : Option ℕ
  pub max_identical_finding_repeats : Option ℕ

-- `{}`
abbrev pub empty_budget : RiskBudget
empty_budget = record {
  max_build_passes = none;
  max_review_passes = none;
  max_repair_rounds = none;
  max_consecutive_no_progress_passes = none;
  max_identical_finding_repeats = none;
}

pub record Checkpoint : Type 0 where
  pub id : String
  pub title : String
  pub scope : String
  pub has_acceptance_criteria : Bool
  pub risk_budget : Option RiskBudget
  pub depends_on : List String
  pub acceptance_criterion_ids : Option (List String)
  pub work_units : Option (List String)

pub record WorkUnit : Type 0 where
  pub id : String
  pub acceptance : List String

-- `mission_budget.semantic_budget_policy`
pub record SemanticBudgetPolicy : Type 0 where
  pub reclaim_approved_checkpoint_capacity : Bool
  pub use_cumulative_slack : Bool

pub record Packet : Type 0 where
  pub is_mission_schema : Bool
  pub is_program_mode : Bool
  pub risk_budget : RiskBudget
  pub acceptance_criteria : List (Option String)
  pub work_units : List WorkUnit
  pub execution_order : List String
  pub checkpoints : List Checkpoint
  pub max_unique_changed_files : Option ℕ
  pub max_baseline_to_final_diff_lines : Option ℕ
  pub semantic_budget_policy : Option SemanticBudgetPolicy

-- The three counters of a PROGRAM claim.
pub data CounterKind : Type 0 where
  build_pass_count review_pass_count repair_round_count : CounterKind

unfoldable pub CounterKind-discrete : Discrete CounterKind
CounterKind-discrete = hlevel

-- `budget.get(cap_key)`, with the `cap_key` of a counter.
abbrev pub cap_of : CounterKind → RiskBudget → Option ℕ
cap_of build_pass_count b = b.max_build_passes
cap_of review_pass_count b = b.max_review_passes
cap_of repair_round_count b = b.max_repair_rounds
