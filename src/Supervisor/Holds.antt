-- ===== src/Supervisor/Holds.antt =====
-- lib/ownframework_loop/supervisor_holds.py and dispatch_hold.py: an operator's hold on the dispatch of a
-- run at a boundary between two checkpoints of its PROGRAM.
use ownframework_loop.Prelude.{
  ℕ, ◌==◌, String, same, not, Bool, true, false, ◌&&◌, ◌||◌, Option, none, some, List, [], ◌∷◌,
  if◌then◌else◌, Result, ok, err, require, refuse,
}
use ownframework_loop.Transitions.{State, approved, ready_to_build}
use ownframework_loop.Run.{RunState}
use ownframework_loop.Program.{Tally, CheckpointState, Finalized, ProgramState}
use ownframework_loop.Integrity.{IntegrityError}
use ownframework_loop.Supervisor.{
  armed, held, released, cancelled, unlisted_hold, HoldKind, program_checkpoint_boundary,
  unsupported_kind, Hold, Job, Ledger,
}

pub data Decision : Type 0 where
  no_active_hold invalid_hold_state is_held matched unsupported_hold_kind
        engineering_state_unavailable checkpoint_identity_not_found previous_checkpoint_not_approved
        next_checkpoint_not_current top_level_state_not_ready_to_build
        next_checkpoint_already_progressed :
      Decision

abbrev is_approved_state : Option State → Bool
is_approved_state (some approved) = true
is_approved_state _ = false

abbrev is_ready_to_build : State → Bool
is_ready_to_build ready_to_build = true
is_ready_to_build _ = false

-- The last entry with the id: a dictionary keeps it.
abbrev finalized_terminal : String → List Finalized → Option State
finalized_terminal id [] = none
finalized_terminal id (f ∷ fs) =
    let rest = finalized_terminal id fs in
    elim rest [ some s ↦ some s | none ↦ if same f.id id then some f.terminal_state else none ]

abbrev checkpoint_in : String → List CheckpointState → Option CheckpointState
checkpoint_in id [] = none
checkpoint_in id (cp ∷ cps) =
    let rest = checkpoint_in id cps in
    elim rest [ some c ↦ some c | none ↦ if same cp.id id then some cp else none ]

-- `current == [following]`
abbrev is_only : String → List String → Bool
is_only id (x ∷ []) = same x id
is_only id _ = false

abbrev is_untouched : Tally → Bool
is_untouched t = (t.builds == 0) && (t.reviews == 0) && (t.repairs == 0)

-- The tests of the boundary over a block; `top` is the state of the run.
abbrev pub boundary_decision : Hold → State → ProgramState → Decision
boundary_decision hold top program =
    elim (checkpoint_in hold.previous_checkpoint_id program.checkpoints) [
      | none ↦ checkpoint_identity_not_found
      | some previous ↦ elim (checkpoint_in hold.next_checkpoint_id program.checkpoints) [
        | none ↦ checkpoint_identity_not_found
        | some following ↦
            if not (
              is_approved_state
                (finalized_terminal hold.previous_checkpoint_id program.finalized_checkpoints)
              && is_approved_state previous.terminal)
            then previous_checkpoint_not_approved
            else if not (is_only hold.next_checkpoint_id program.current_checkpoints)
            then next_checkpoint_not_current
            else if not (is_ready_to_build top)
            then top_level_state_not_ready_to_build
            else if not (is_untouched following.counts)
            then next_checkpoint_already_progressed
            else matched
      ]
    ]

-- `engineering_boundary_matches`, over the answer of `load_verified`.
unfoldable pub engineering_boundary_matches :
    Hold → Result IntegrityError (Option RunState) → Decision
engineering_boundary_matches hold snapshot = elim hold.kind [
  | unsupported_kind ↦ unsupported_hold_kind
  | program_checkpoint_boundary ↦ elim snapshot [
    | err e ↦ engineering_state_unavailable
    | ok none ↦ checkpoint_identity_not_found
    | ok (some s) ↦ elim s.program [
      | none ↦ checkpoint_identity_not_found
      | some program ↦ boundary_decision hold s.state program
    ]
  ]
]

abbrev pub hold_row : ℕ → List Hold → Option Hold
hold_row job [] = none
hold_row job (x ∷ xs) = let rest = hold_row job xs in if x.job_id == job then some x else rest

-- `load` answers for the run of the job.
unfoldable pub hold_matches_before_claim :
    (Job → Result IntegrityError (Option RunState)) → Job → Ledger → Decision
unfolding engineering_boundary_matches
hold_matches_before_claim load job l = elim (hold_row job.id l.holds) [
  | none ↦ no_active_hold
  | some hold ↦ elim hold.state [
    | released ↦ no_active_hold
    | cancelled ↦ no_active_hold
    | unlisted_hold ↦ invalid_hold_state
    | held ↦ is_held
    | armed ↦ engineering_boundary_matches hold (load job)
  ]
]

unfoldable pub hold_decision_blocks_claim : Decision → Bool
hold_decision_blocks_claim is_held = true
hold_decision_blocks_claim matched = true
hold_decision_blocks_claim invalid_hold_state = true
hold_decision_blocks_claim unsupported_hold_kind = true
hold_decision_blocks_claim engineering_state_unavailable = true
hold_decision_blocks_claim _ = false

pub data HoldRequestError : Type 0 where
  unsupported_request missing_checkpoints : HoldRequestError

abbrev is_given : Option String → Bool
is_given none = false
is_given (some s) = true

abbrev is_present : Option String → Bool
is_present none = false
is_present (some s) = not (same s "")

unfoldable pub validate_dispatch_hold_request :
    Option HoldKind → Option String → Option String → Result HoldRequestError (Unit {0})
validate_dispatch_hold_request none previous next =
    refuse (is_given previous || is_given next) unsupported_request
validate_dispatch_hold_request (some unsupported_kind) previous next = err unsupported_request
validate_dispatch_hold_request (some program_checkpoint_boundary) previous next =
    require (is_present previous && is_present next) missing_checkpoints

pub data HoldAnswer : Type 0 where
  not_found release_requires_held cancel_refuses_released lost_race : HoldAnswer
  changed unchanged : Hold → HoldAnswer

-- `UPDATE dispatch_holds … WHERE hold_id=? AND job_id=?`
abbrev pub update_hold : String → ℕ → (Hold → Hold) → List Hold → List Hold
update_hold id job f [] = []
update_hold id job f (x ∷ xs) =
    let rest = update_hold id job f xs in
    if same x.hold_id id && (x.job_id == job) then f x ∷ xs else x ∷ rest

-- The row with `hold_id` and `job_id`.
abbrev pub find_hold : String → ℕ → List Hold → Option Hold
find_hold id job [] = none
find_hold id job (x ∷ xs) =
    let rest = find_hold id job xs in
    if same x.hold_id id && (x.job_id == job) then some x else rest

abbrev pub release_row : ℕ → Hold → Hold
release_row now x = record x { state = released; released_at = some now; updated_at = now }

abbrev pub cancel_row : ℕ → Hold → Hold
cancel_row now x = record x { state = cancelled; cancelled_at = some now; updated_at = now }

-- The transactions after the job of the run is found.
unfoldable pub release_dispatch_hold : String → ℕ → ℕ → Ledger → Ledger × HoldAnswer
release_dispatch_hold id job now l = elim (find_hold id job l.holds) [
  | none ↦ (l, not_found)
  | some row ↦ elim row.state [
    | released ↦ (l, unchanged row)
    | held ↦ (
      record l { holds = update_hold id job (release_row now) l.holds },
      changed (release_row now row),
    )
    | _ ↦ (l, release_requires_held)
  ]
]

-- A row in a state outside the table is not updated, and the transaction answers as for a lost race.
unfoldable pub cancel_dispatch_hold : String → ℕ → ℕ → Ledger → Ledger × HoldAnswer
cancel_dispatch_hold id job now l = elim (find_hold id job l.holds) [
  | none ↦ (l, not_found)
  | some row ↦ elim row.state [
    | cancelled ↦ (l, unchanged row)
    | released ↦ (l, cancel_refuses_released)
    | unlisted_hold ↦ (l, lost_race)
    | _ ↦ (
      record l { holds = update_hold id job (cancel_row now) l.holds },
      changed (cancel_row now row),
    )
  ]
]
