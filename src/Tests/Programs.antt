-- ===== src/Tests/Programs.antt =====
-- A packet of two checkpoints, and runs of it.
use ownframework_loop.Prelude.{
  ◌≡◌, refl, ◌≢◌, ◌↔◌, mem, all, Text-discrete, each, true, false, some, none, [], ◌∷◌, ok, is_ok,
}
use ownframework_loop.Packet.{RiskBudget, Checkpoint, Packet, empty_budget}
use ownframework_loop.Graph.{ids, collect, is_cp_id, checkpoint_errors}
use ownframework_loop.Graph.Scoping.{scoping_errors}
use ownframework_loop.Graph.Positions.{order_errors, position_errors}
use ownframework_loop.Graph.WorkUnits.{resolve_checkpoint_work_unit_id}
use ownframework_loop.Graph.Validate.{validate_checkpoint_graph}
use ownframework_loop.Graph.Admission.{IsWellFormed, validate_checkpoint_graph-IsWellFormed}
use ownframework_loop.Graph.Crash.{validate_checkpoint_graph-raises}

abbrev pub cp_budget : RiskBudget
cp_budget = record empty_budget {
  max_build_passes = some 4;
  max_review_passes = some 4;
  max_repair_rounds = some 2;
}

abbrev pub first_cp : Checkpoint
first_cp = record {
  id = "CP-1";
  title = "store";
  scope = "lib";
  has_acceptance_criteria = false;
  risk_budget = some cp_budget;
  depends_on = [];
  acceptance_criterion_ids = none;
  work_units = none;
}

abbrev pub second_cp : Checkpoint
second_cp = record first_cp { id = "CP-2"; title = "client"; depends_on = "CP-1" ∷ [] }

abbrev pub two_steps : Packet
two_steps = record {
  is_mission_schema = false;
  is_program_mode = true;
  risk_budget = record empty_budget {
    max_build_passes = some 8;
    max_review_passes = some 8;
    max_repair_rounds = some 4;
  };
  acceptance_criteria = [];
  work_units = record { id = "WU-1"; acceptance = [] } ∷ [];
  execution_order = "CP-1" ∷ "CP-2" ∷ [];
  checkpoints = first_cp ∷ second_cp ∷ [];
  max_unique_changed_files = none;
  max_baseline_to_final_diff_lines = none;
  semantic_budget_policy = none;
}

pub two_steps_admitted : validate_checkpoint_graph two_steps ≡ ok []
unfolding validate_checkpoint_graph Text-discrete position_errors collect is_cp_id each
    checkpoint_errors scoping_errors order_errors resolve_checkpoint_work_unit_id
two_steps_admitted = refl

validate_checkpoint_graph-IsWellFormed_example : IsWellFormed two_steps
validate_checkpoint_graph-IsWellFormed_example =
    validate_checkpoint_graph-IsWellFormed two_steps two_steps_admitted

-- An order that names a checkpoint of no graph.
abbrev unknown_order : Packet
unknown_order = record two_steps { execution_order = "CP-1" ∷ "CP-2" ∷ "CP-9" ∷ [] }

validate_checkpoint_graph-raises_example :
    (is_ok (validate_checkpoint_graph unknown_order) ≡ false) ↔ (
      (unknown_order.execution_order ≢ [])
      × (unknown_order.checkpoints ≢ [])
      × (all
            (λ x. mem x (ids (collect [] unknown_order.checkpoints).0))
            unknown_order.execution_order
          ≡ false))
validate_checkpoint_graph-raises_example = validate_checkpoint_graph-raises unknown_order

unknown_order_raises : is_ok (validate_checkpoint_graph unknown_order) ≡ false
unfolding validate_checkpoint_graph Text-discrete position_errors collect is_cp_id
unknown_order_raises = refl
