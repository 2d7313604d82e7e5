-- ===== src/Program/Initial.antt =====
-- program.py, `materialise_initial_program_state`.
use ownframework_loop.Prelude.{
  ℕ, String, ltb, ◌==◌, Bool, true, false, ◌&&◌, Option, none, some, List, [], ◌∷◌, map, length,
  sum_of, get_or, if◌then◌else◌, Result, ok, err, ◌>>◌, require, refuse,
}
use ownframework_loop.Packet.{
  Checkpoint, Packet, CounterKind, build_pass_count, review_pass_count, repair_round_count, cap_of,
  empty_budget,
}
use ownframework_loop.Graph.Positions.{find_checkpoint}
use ownframework_loop.Graph.Validate.{
  validate_checkpoint_graph, global_max_unique_changed_files,
  global_max_baseline_to_final_diff_lines,
}
use ownframework_loop.Program.{
  Tally, CheckpointState, ProgramState, ProgramError, graph_invalid, key_error, Digests,
}

abbrev pub no_counts : Tally
no_counts = record { builds = 0; reviews = 0; repairs = 0 }

abbrev initial_cp : String → Checkpoint → CheckpointState
initial_cp baseline_sha cp = record {
  id = cp.id;
  counts = no_counts;
  no_progress_streak = 0;
  terminal = none;
  checkpoint_entry_candidate_sha = baseline_sha;
  last_evidence = record { build_sha = none; review_sha = none; repair_sha = none };
}

-- `global_cap if global_cap else sum_of_caps`
unfoldable pub ceiling_for : CounterKind → Packet → ℕ
ceiling_for k p =
    let global = get_or (cap_of k p.risk_budget) 0 in
    let local =
      sum_of (λ cp. get_or (cap_of k (get_or cp.risk_budget empty_budget)) 0) p.checkpoints in
    if global == 0 then local else global

unfoldable pub has_no_deps : String → List Checkpoint → Bool
has_no_deps cid cps = elim (find_checkpoint cid cps) [
  | none ↦ true
  | some cp ↦ elim cp.depends_on [ [] ↦ true | d ∷ ds ↦ false ]
]

-- The first checkpoint of the order with no dependency.
unfoldable pub first_free : List Checkpoint → List String → List String
unfolding has_no_deps
first_free cps [] = []
first_free cps (c ∷ order) =
    let rest = first_free cps order in if has_no_deps c cps then c ∷ [] else rest

-- If there is none, the first of the order.
unfoldable pub initial_current : List Checkpoint → List String → List String
unfolding first_free
initial_current cps [] = []
initial_current cps (c ∷ order) = elim (first_free cps (c ∷ order)) [
  | [] ↦ c ∷ []
  | x ∷ xs ↦ x ∷ []
]

abbrev no_diagnostic {ℓ} : {A : Type ℓ} → List A → Bool
no_diagnostic [] = true
no_diagnostic (x ∷ xs) = false

-- `global_cap and global_cap < n_cps`
unfoldable pub short_of : Option ℕ → ℕ → Bool
short_of cap n = ltb 0 (get_or cap 0) && ltb (get_or cap 0) n

unfoldable pub initial_block : Digests → Packet → String → Option String → ProgramState
unfolding ceiling_for initial_current
initial_block digests p baseline_sha mission_id = record {
  checkpoint_graph_sha256 = digests.graph p;
  mission_id = mission_id;
  review_scope = none;
  current_checkpoints = initial_current p.checkpoints p.execution_order;
  finalized_checkpoints = [];
  counters = no_counts;
  files_changed_unique = 0;
  diff_lines_total = 0;
  ceilings = record {
    builds = ceiling_for build_pass_count p;
    reviews = ceiling_for review_pass_count p;
    repairs = ceiling_for repair_round_count p;
  };
  max_unique_changed_files = get_or p.max_unique_changed_files global_max_unique_changed_files;
  max_baseline_to_final_diff_lines =
      get_or p.max_baseline_to_final_diff_lines global_max_baseline_to_final_diff_lines;
  checkpoints = map (initial_cp baseline_sha) p.checkpoints;
  semantic_budget_policy_sha256 = elim p.semantic_budget_policy [
    | none ↦ none
    | some policy ↦ some (digests.policy p)
  ];
  semantic_budget_allocations = elim p.semantic_budget_policy [
    | none ↦ none
    | some policy ↦ some []
  ];
}

-- The provenance record, which nothing reads, is left out; `mission_id` is what the mission owner
-- binds to the new block.
unfoldable pub materialise_initial_program_state :
    Digests → Packet → String → Option String → Result ProgramError ProgramState
unfolding short_of initial_block
materialise_initial_program_state digests p baseline_sha mission_id =
    elim (validate_checkpoint_graph p) [
      | err e ↦ err key_error
      | ok errors ↦ do
        require (no_diagnostic errors) graph_invalid
        refuse (short_of p.risk_budget.max_build_passes (length p.checkpoints)) graph_invalid
        refuse (short_of p.risk_budget.max_review_passes (length p.checkpoints)) graph_invalid
        ok (initial_block digests p baseline_sha mission_id)
    ]
