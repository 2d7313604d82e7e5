-- ===== src/Journal/Access.antt =====
-- lib/ownframework_loop/state.py: the reads and writes of a run's files, each under the run's lock.
use ownframework_loop.Prelude.{
  String, same, not, ◌==◌, Bool, true, false, ◌&&◌, Option, none, some, List, [], ◌∷◌, map, Result,
  ok, err, ◌>>=◌, ◌>>◌, require, refuse, if◌then◌else◌,
}
use ownframework_loop.Transitions.{State, awaiting_approval, unlisted}
use ownframework_loop.Program.{ProgramState}
use ownframework_loop.Run.{RunState, Reason, given, no_reason, HistoryEntry}
use ownframework_loop.Integrity.{
  Intent, Event, Hashes, IntegrityError, StateFile, absent, read_event_chain, read_state,
  get_event_chain_hash, compute_event_chain_hash, same_optional, verify_state_sha, chain_mismatch,
  state_mismatch, state_torn, creation_only, state_missing,
}
use ownframework_loop.Journal.{Disk, DiskOutcome, and_then, validate_event_extras}
use ownframework_loop.Journal.Append.{append_event_locked}
use ownframework_loop.Journal.Recover.{recover_pending_state_txn}
use ownframework_loop.Journal.Commit.{commit_state_event}
use ownframework_loop.Journal.Bindings.{verify_allocation_bindings}

abbrev pub intents : {D : Type 0} → List (Event D) → List Intent
intents events = map (λ e. e.body.intent) events

abbrev is_awaiting : State → Bool
is_awaiting awaiting_approval = true
is_awaiting _ = false

abbrev is_unlisted : State → Bool
is_unlisted unlisted = true
is_unlisted _ = false

abbrev is_given : String → Reason → Bool
is_given s (given t) = same s t
is_given s _ = false

abbrev is_no_reason : Reason → Bool
is_no_reason no_reason = true
is_no_reason _ = false

abbrev lacks_program : Option ProgramState → Bool
lacks_program none = true
lacks_program (some program) = false

abbrev exists_file : {D : Type 0} → StateFile D → Bool
exists_file absent = false
exists_file _ = true

module _ {D : Type 0} (h : Hashes D) where
  -- A history with a row has a recorded digest, which is that of the chain.
  unfoldable pub verify_chain : List (Event D) → Result IntegrityError (Unit {0})
  unfolding get_event_chain_hash compute_event_chain_hash same_optional
  verify_chain [] = ok tt
  verify_chain (e ∷ es) = elim (get_event_chain_hash (e ∷ es)) [
    | none ↦ err chain_mismatch
    | some recorded ↦
        require (same_optional h (some recorded) (compute_event_chain_hash h (e ∷ es)))
          chain_mismatch
  ]

  -- The history with its chain verified, and whether the state file matches it.
  unfoldable pub checked_files : Disk D → Result IntegrityError (List (Event D) × Bool)
  unfolding verify_chain verify_state_sha
  checked_files d = do
    events ← read_event_chain d.events
    tt ← verify_chain events
    good ← verify_state_sha h d.state_file d.events
    ok (events, good)

  unfoldable pub verify_mutation_integrity : String → String → Disk D → DiskOutcome D (Unit {0})
  unfolding recover_pending_state_txn checked_files
  verify_mutation_integrity run_id now d =
      and_then (recover_pending_state_txn h run_id now d)
        λ d _. (d, checked_files d >>= λ checked. require checked.1 state_mismatch)

  -- `{}` for a state that is absent is `none`.
  unfoldable pub load_verified_locked : String → String → Disk D → DiskOutcome D (Option RunState)
  unfolding recover_pending_state_txn checked_files verify_allocation_bindings
  load_verified_locked run_id now d = and_then (recover_pending_state_txn h run_id now d) λ d _.
      and_then (d, checked_files d)
        λ d checked.
          if checked.1
          then (
            d,
            verify_allocation_bindings h (read_state d.state_file) (intents checked.0)
                >> ok (read_state d.state_file),
          )
          else elim (read_state d.state_file) [
            | some current ↦ (d, err state_mismatch)
            | none ↦ and_then (recover_pending_state_txn h run_id now d) λ d _.
                elim (read_state d.state_file) [
                  | none ↦ (d, err state_torn)
                  | some recovered ↦ (
                    d,
                    do
                      events ← read_event_chain d.events
                      tt ← verify_allocation_bindings h (some recovered) (intents events)
                      ok (some recovered),
                  )
                ]
          ]

  -- A run without a directory is not made by a read.
  unfoldable pub load_verified :
      String → String → Option (Disk D) → Option (Disk D) × Result IntegrityError (Option RunState)
  unfolding load_verified_locked
  load_verified run_id now none = (none, ok none)
  load_verified run_id now (some d) =
      let (after, answer) = load_verified_locked run_id now d in (some after, answer)

  unfoldable pub append_event : String → String → Intent → Disk D → DiskOutcome D (Unit {0})
  unfolding validate_event_extras verify_mutation_integrity append_event_locked
  append_event run_id now intent d =
      and_then (d, validate_event_extras false intent.extras)
        λ d _.
          and_then (verify_mutation_integrity run_id now d)
            λ d _. append_event_locked h run_id now intent d

  -- A commit under `_locked_state`, or in an owner: the history is verified, `owner` answers for the
  -- document that is read, and the answer is committed with its intent.
  unfoldable pub locked_update :
      (RunState → Result IntegrityError (Intent × RunState))
      → String
      → String
      → String
      → Disk D
      → DiskOutcome D (RunState)
  unfolding verify_mutation_integrity commit_state_event
  locked_update owner run_id txn_id now d = and_then (verify_mutation_integrity run_id now d) λ d _.
      elim (read_state d.state_file) [
        | none ↦ (d, err state_missing)
        | some current ↦
            and_then (d, owner current)
              λ d answer.
                and_then (commit_state_event h run_id txn_id now answer.0 answer.1 d)
                  λ d _. (d, ok answer.1)
      ]

-- The one entry of the history of a new run.
abbrev is_creation_entry : String → List HistoryEntry → Bool
is_creation_entry started_at (e ∷ []) =
    is_unlisted e.from
    && is_awaiting e.to
    && same e.at started_at
    && same e.actor "spec"
    && is_given "run created" e.reason
is_creation_entry started_at _ = false

-- The document of a new run: `started_at` is its `updated_at`, and fields that a new document may not
-- have are at their defaults here.
unfoldable pub is_initial_payload : String → RunState → Bool
is_initial_payload run_id s =
    not s.is_program_schema
    && same s.run_id run_id
    && is_awaiting s.state
    && (s.transitions_count == 0)
    && (s.build_pass_count == 0)
    && (s.review_pass_count == 0)
    && (s.repair_round == 0)
    && (s.no_progress_streak == 0)
    && (s.identical_finding_streak == 0)
    && same s.last_must_fix_fingerprint ""
    && same s.last_actor "spec"
    && is_no_reason s.terminal_reason
    && same s.last_candidate_sha ""
    && lacks_program s.program
    && not (same s.updated_at "")
    && is_creation_entry s.updated_at s.state_history

abbrev pub creation : RunState → Intent
creation s = record {
  event_type = "state_saved";
  old_state = none;
  new_state = some s.state;
  actor = s.last_actor;
  commit_sha = s.last_candidate_sha;
  reason = given "initial state creation";
  extras = [];
}

module _ {D : Type 0} (h : Hashes D) where
  unfoldable pub save : String → String → String → RunState → Disk D → DiskOutcome D (Unit {0})
  unfolding is_initial_payload verify_mutation_integrity commit_state_event
  save run_id txn_id now payload d =
      and_then (d, require (is_initial_payload run_id payload) creation_only)
        λ d _. and_then (verify_mutation_integrity h run_id now d) λ d _.
          and_then (d, refuse (exists_file d.state_file) creation_only)
            λ d _. commit_state_event h run_id txn_id now (creation payload) payload d
