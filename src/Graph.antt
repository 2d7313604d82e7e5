-- ===== src/Graph.antt =====
-- lib/ownframework_loop/program.py, `validate_checkpoint_graph`: admission of a checkpoint graph.
-- A diagnostic is a constructor where the source has a message.
pub mod Scoping
pub mod Positions
pub mod Order
pub mod Dependencies
pub mod Admission
pub mod Crash
pub mod WorkUnits
pub mod Validate
use ownframework_loop.Prelude.{
  ℕ, zero, suc, ◌+◌, String, ltb, leb, ◌==◌, same, mem, codes, length, Bool, true, false, not, ◌&&◌,
  ◌||◌, Option, none, some, List, [], ◌∷◌, ◌++◌, map, all, get_or, if◌then◌else◌, report, each,
}
use ownframework_loop.Packet.{RiskBudget, Checkpoint, Packet, empty_budget}

pub data GraphError : Type 0 where
  execution_order_missing checkpoints_missing id_invalid duplicate_id title_missing scope_missing
        acceptance_criteria_not_executable risk_budget_missing build_range review_range repair_range
        build_cannot_realize_repairs review_cannot_realize_repairs dependency_id_invalid
        depends_on_itself depends_on_unknown criterion_without_id criterion_ids_not_unique
        scoping_not_total criterion_ids_empty criterion_ids_blank criterion_ids_duplicated
        criterion_ids_unknown criteria_not_covered order_id_invalid order_unknown order_duplicate
        order_omits work_unit_unresolved work_unit_ambiguous order_before_dependency
        files_ceiling_range diff_ceiling_range global_caps_omitted global_build_below_checkpoints
        global_review_below_checkpoints global_build_cannot_realize global_review_cannot_realize
        global_review_cannot_fund_final :
      GraphError

is_digit : ℕ → Bool
is_digit c = leb b'0' c && leb c b'9'

is_cp_code : List ℕ → Bool
unfolding is_digit
is_cp_code (a ∷ b ∷ c ∷ d ∷ rest) =
    a == b'C' && b == b'P' && c == b'-' && is_digit d && all is_digit rest
is_cp_code _ = false

-- `_cp_id`: the whole text matches CP-[0-9]+.
unfoldable pub is_cp_id : String → Bool
unfolding is_cp_code
is_cp_id s = is_cp_code (codes s)

abbrev pub ids : List Checkpoint → List String
ids = map λ cp. cp.id

abbrev is_none {ℓ} : {A : Type ℓ} → Option A → Bool
is_none none = true
is_none (some a) = false

field_errors : Checkpoint → List GraphError
field_errors cp =
    report (same cp.title "") title_missing
    ++ (report (same cp.scope "") scope_missing
        ++ (report cp.has_acceptance_criteria acceptance_criteria_not_executable
            ++ report (is_none cp.risk_budget) risk_budget_missing))

-- The first loop: the checkpoints that `by_id` holds, in order, and the diagnostics. `seen` are the
-- ids that `by_id` holds already.
unfoldable pub collect : List String → List Checkpoint → List Checkpoint × List GraphError
unfolding field_errors
collect seen [] = ([], [])
collect seen (cp ∷ cps) =
    let (kept, errors) = collect (cp.id ∷ seen) cps in
    let (others, further) = collect seen cps in
    if not (is_cp_id cp.id)
    then (others, id_invalid ∷ further)
    else if mem cp.id seen
    then (others, duplicate_id ∷ further)
    else (cp ∷ kept, field_errors cp ++ errors)

-- `not isinstance(v, int) or v < 1 or v > mx`
unfoldable pub out_of_range : Option ℕ → ℕ → Bool
out_of_range none mx = true
out_of_range (some v) mx = ltb v 1 || ltb mx v

-- `isinstance(cap, int) and isinstance(repair_cap, int) and cap < 1 + repair_cap`
unfoldable pub cannot_realize : Option ℕ → Option ℕ → Bool
cannot_realize (some cap) (some repair_cap) = ltb cap (1 + repair_cap)
cannot_realize _ _ = false

unfoldable pub dependency_errors : List String → String → String → List GraphError
dependency_errors known cid d =
    if not (is_cp_id d)
    then dependency_id_invalid ∷ []
    else if same d cid
    then depends_on_itself ∷ []
    else report (not (mem d known)) depends_on_unknown

unfoldable pub budget_errors : RiskBudget → List GraphError
unfolding out_of_range cannot_realize
budget_errors rb =
    report (out_of_range rb.max_build_passes 32) build_range
    ++ (report (out_of_range rb.max_review_passes 32) review_range
        ++ (report (out_of_range rb.max_repair_rounds 32) repair_range
            ++ (report (cannot_realize rb.max_build_passes rb.max_repair_rounds)
                  build_cannot_realize_repairs
                ++ report (cannot_realize rb.max_review_passes rb.max_repair_rounds)
                    review_cannot_realize_repairs)))

-- The second loop's body: the ranges of a checkpoint's caps, and its dependencies.
unfoldable pub checkpoint_errors : List String → Checkpoint → List GraphError
unfolding budget_errors dependency_errors
checkpoint_errors known cp =
    budget_errors (get_or cp.risk_budget empty_budget)
    ++ each (dependency_errors known cp.id) cp.depends_on
