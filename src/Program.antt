-- ===== src/Program.antt =====
-- lib/ownframework_loop/program.py: the durable PROGRAM block of STATE.json.
-- Times and digests are texts: the clock (`utc_now_iso`) and SHA-256 (util.py over hashlib) are not
-- part of the model, so an operation takes the time as an argument and a digest from `Digests`.
pub mod Refresh
pub mod Finalize
pub mod Initial
pub mod Terminal
pub mod Walk
pub mod Engine
pub mod Start
use ownframework_loop.Prelude.{
  ℕ, ◌+◌, String, Option, none, some, List, [], ◌∷◌, same, if◌then◌else◌,
}
use ownframework_loop.Packet.{
  Packet, CounterKind, build_pass_count, review_pass_count, repair_round_count,
}
use ownframework_loop.Transitions.{State}

-- One number for each claim counter.
pub record Tally : Type 0 where
  pub builds : ℕ
  pub reviews : ℕ
  pub repairs : ℕ

abbrev pub tally_of : CounterKind → Tally → ℕ
tally_of build_pass_count t = t.builds
tally_of review_pass_count t = t.reviews
tally_of repair_round_count t = t.repairs

-- `counters[counter] += 1`
abbrev pub bump_tally : CounterKind → Tally → Tally
bump_tally build_pass_count t = record t { builds = t.builds + 1 }
bump_tally review_pass_count t = record t { reviews = t.reviews + 1 }
bump_tally repair_round_count t = record t { repairs = t.repairs + 1 }

-- `last_evidence_sha_by_counter`
pub record Evidence : Type 0 where
  pub build_sha : Option String
  pub review_sha : Option String
  pub repair_sha : Option String

-- An entry of `checkpoints`; a terminal that is "" is `none`.
pub record CheckpointState : Type 0 where
  pub id : String
  pub counts : Tally
  pub no_progress_streak : ℕ
  pub terminal : Option State
  pub checkpoint_entry_candidate_sha : String
  pub last_evidence : Evidence

pub record Finalized : Type 0 where
  pub id : String
  pub terminal_state : State
  pub finalized_at : String
  pub evidence_sha256 : String

pub data SourceKind : Type 0 where
  approved_checkpoint_capacity mission_cumulative_slack unlisted_source : SourceKind

-- One row of `semantic_budget_allocations`, less its `allocation_id` and constant texts.
pub record AllocationBody : Type 0 where
  pub mission_id : String
  pub run_id : String
  pub checkpoint_id : String
  pub counter_kind : CounterKind
  pub declared_local_cap : ℕ
  pub local_used_before : ℕ
  pub cumulative_used_before : ℕ
  pub cumulative_cap : ℕ
  pub reserved_remaining_authority : ℕ
  pub final_acceptance_reserve : Option ℕ
  pub reclaimable_pool_before : ℕ
  pub amount_borrowed : ℕ
  pub reclaimable_pool_after : ℕ
  pub source_kind : SourceKind
  pub source_checkpoint_id : Option String
  pub source_authority_sha256 : String
  pub source_event_sha256 : Option String
  pub allocation_number : ℕ
  pub created_at : String

pub record Allocation : Type 0 where
  pub body : AllocationBody
  pub open body use *
  pub allocation_id : String

pub data ReviewScope : Type 0 where
  checkpoint program_final : ReviewScope

pub record ProgramState : Type 0 where
  pub checkpoint_graph_sha256 : String
  pub mission_id : Option String
  pub review_scope : Option ReviewScope
  pub current_checkpoints : List String
  pub finalized_checkpoints : List Finalized
  pub counters : Tally
  pub files_changed_unique : ℕ
  pub diff_lines_total : ℕ
  pub ceilings : Tally
  pub max_unique_changed_files : ℕ
  pub max_baseline_to_final_diff_lines : ℕ
  pub checkpoints : List CheckpointState
  pub semantic_budget_policy_sha256 : Option String
  pub semantic_budget_allocations : Option (List Allocation)

-- SHA-256 over canonical JSON, of the graph, of the sealed policy with its graph, of an allocation.
pub record Digests : Type 0 where
  pub graph : Packet → String
  pub policy : Packet → String
  pub allocation : AllocationBody → String

-- `ProgramStateError` and its subclasses, and the errors of Python itself.
pub data ProgramError : Type 0 where
  graph_invalid unknown_checkpoint not_in_packet key_error invalid_terminal_state already_terminal
        already_finalized approval_without_passes file_cap diff_cap checkpoint_cap_reached
        cumulative_cap_reached graph_drift policy_drift claim_phase mirror_drift
        replay_without_claim no_claimable_checkpoint claim_cap_exhausted not_program not_reviewing
        scope_not_final candidate_mismatch no_current_checkpoint unfinished_checkpoints
        transition_refused not_blocked source_breach :
      ProgramError

-- `_find_cp`: the first entry with the id.
unfoldable pub find_cp : String → List CheckpointState → Option CheckpointState
find_cp cid [] = none
find_cp cid (cp ∷ cps) = let rest = find_cp cid cps in if same cp.id cid then some cp else rest

-- An update of that entry in place.
unfoldable pub update_cp :
    String → (CheckpointState → CheckpointState) → List CheckpointState → List CheckpointState
update_cp cid f [] = []
update_cp cid f (cp ∷ cps) =
    let rest = update_cp cid f cps in if same cp.id cid then f cp ∷ cps else cp ∷ rest
