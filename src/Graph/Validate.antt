-- ===== src/Graph/Validate.antt =====
-- `validate_checkpoint_graph`, the whole function.
use ownframework_loop.Prelude.{
  ℕ, ◌+◌, String, ltb, length, Option, none, some, List, [], ◌∷◌, ◌++◌, if◌then◌else◌, report, each,
  Result, ok, err, ◌>>=◌,
}
use ownframework_loop.Packet.{Checkpoint, Packet}
use ownframework_loop.Graph.{
  GraphError, execution_order_missing, checkpoints_missing, files_ceiling_range, diff_ceiling_range,
  global_caps_omitted, global_build_below_checkpoints, global_review_below_checkpoints,
  global_build_cannot_realize, global_review_cannot_realize, global_review_cannot_fund_final, ids,
  collect, out_of_range, checkpoint_errors,
}
use ownframework_loop.Graph.Scoping.{scoping_errors}
use ownframework_loop.Graph.Positions.{KeyError, order_errors, position_errors}
use ownframework_loop.Graph.WorkUnits.{resolve_checkpoint_work_unit_id}

abbrev pub global_max_unique_changed_files : ℕ
global_max_unique_changed_files = 500

abbrev pub global_max_baseline_to_final_diff_lines : ℕ
global_max_baseline_to_final_diff_lines = 30000

-- packet.MAX_V4_MISSION_DIFF_LINES
abbrev pub max_v4_mission_diff_lines : ℕ
max_v4_mission_diff_lines = 480000

unfoldable pub work_unit_errors : Packet → Checkpoint → List GraphError
work_unit_errors p cp = elim (resolve_checkpoint_work_unit_id p cp) [ ok u ↦ [] | err e ↦ e ∷ [] ]

ceiling_error : Option ℕ → ℕ → GraphError → List GraphError
unfolding out_of_range
ceiling_error none mx e = []
ceiling_error (some v) mx e = report (out_of_range (some v) mx) e

unfoldable pub ceiling_errors : Packet → List GraphError
unfolding ceiling_error
ceiling_errors p =
    ceiling_error p.max_unique_changed_files global_max_unique_changed_files files_ceiling_range
    ++ ceiling_error p.max_baseline_to_final_diff_lines
        (if p.is_mission_schema
          then max_v4_mission_diff_lines
          else global_max_baseline_to_final_diff_lines)
        diff_ceiling_range

declared_cap_errors : ℕ → ℕ → ℕ → ℕ → List GraphError
declared_cap_errors n_cps gb gr gp =
    report (ltb gb n_cps) global_build_below_checkpoints
    ++ (report (ltb gr n_cps) global_review_below_checkpoints
        ++ (report (ltb gb (n_cps + gp)) global_build_cannot_realize
            ++ (report (ltb gr (n_cps + gp)) global_review_cannot_realize
                ++ report (ltb gr (n_cps + gp + 1)) global_review_cannot_fund_final)))

unfoldable pub global_cap_errors : ℕ → Option ℕ → Option ℕ → Option ℕ → List GraphError
unfolding declared_cap_errors
global_cap_errors n_cps (some gb) (some gr) (some gp) = declared_cap_errors n_cps gb gr gp
global_cap_errors n_cps _ _ _ = global_caps_omitted ∷ []

-- The diagnostics after the two emptiness tests.
unfoldable pub graph_errors :
    Packet → List Checkpoint → List GraphError → Result KeyError (List GraphError)
unfolding ceiling_errors work_unit_errors global_cap_errors
graph_errors p by_id first = do
  late ← position_errors by_id p.execution_order [] p.execution_order
  ok (
      first
      ++ (each (checkpoint_errors (ids by_id)) by_id
          ++ (scoping_errors p by_id
              ++ (order_errors (ids by_id) [] p.execution_order
                  ++ ((if p.is_program_mode then each (work_unit_errors p) by_id else [])
                      ++ (late
                          ++ (ceiling_errors p
                              ++ global_cap_errors (length by_id) p.risk_budget.max_build_passes
                                  p.risk_budget.max_review_passes
                                  p.risk_budget.max_repair_rounds)))))))

unfoldable pub admit : List String → List Checkpoint → Packet → Result KeyError (List GraphError)
unfolding graph_errors
admit [] checkpoints p = ok (execution_order_missing ∷ [])
admit (c ∷ order) [] p = ok (checkpoints_missing ∷ [])
admit (c ∷ order) (cp ∷ cps) p =
    let (by_id, first) = collect [] (cp ∷ cps) in graph_errors p by_id first

unfoldable pub validate_checkpoint_graph : Packet → Result KeyError (List GraphError)
unfolding admit
validate_checkpoint_graph p = admit p.execution_order p.checkpoints p
