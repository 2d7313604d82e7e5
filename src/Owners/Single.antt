-- ===== src/Owners/Single.antt =====
-- state.py, `claim_single_pass`: the owner of build and review claims of a run without a PROGRAM.
use ownframework_loop.Prelude.{
  ℕ, ◌+◌, String, ltb, leb, ◌==◌, Bool, true, false, ◌&&◌, Option, none, some, List, [], ◌∷◌,
  if◌then◌else◌, Result, ok, err, ◌>>=◌, ◌>>◌, require, refuse,
}
use ownframework_loop.Packet.{RiskBudget}
use ownframework_loop.Transitions.{
  State, ready_to_build, building, ready_for_review, reviewing, changes_requested, blocked,
  assert_valid,
}
use ownframework_loop.Limits.{Counter, effective_cap}
use ownframework_loop.Run.{RunState, HistoryEntry, cap_exhausted, claim_pass}
use ownframework_loop.Program.{ProgramState}
use ownframework_loop.Claims.{same_state}
use ownframework_loop.Owners.{
  OwnerError, fsm, limit, wrong_source, is_program_run, history_drift, lift, moved,
}

pub data PassKind : Type 0 where
  build review : PassKind

abbrev pub pass_target : PassKind → State
pass_target build = building
pass_target review = reviewing

abbrev pub pass_count : PassKind → RunState → ℕ
pass_count build s = s.build_pass_count
pass_count review s = s.review_pass_count

abbrev pub pass_counter : PassKind → Counter
pass_counter build = Counter.build_pass_count
pass_counter review = Counter.review_pass_count

abbrev pub set_count : PassKind → ℕ → RunState → RunState
set_count build n s = record s { build_pass_count = n }
set_count review n s = record s { review_pass_count = n }

-- `cur_state in allowed_sources`
abbrev pub pass_source : PassKind → State → Bool
pass_source build ready_to_build = true
pass_source build changes_requested = true
pass_source review ready_for_review = true
pass_source _ _ = false

-- The claims that the history shows.
unfoldable pub history_claims : State → List HistoryEntry → ℕ
history_claims target [] = 0
history_claims target (e ∷ history) =
    let rest = history_claims target history in if same_state e.to target then rest + 1 else rest

-- `sealed` is the BLOCKED write after which `RepairLimitExceeded` is raised.
pub data Outcome : Type 0 where
  funded replayed recovered sealed : Outcome

abbrev pub reached : Option ℕ → ℕ → Bool
reached none count = false
reached (some cap) count = leb cap count

unfoldable pub seal_blocked : String → String → RunState → Result OwnerError (RunState × Outcome)
unfolding moved
seal_blocked actor now cur = do
  lift fsm (assert_valid cur.state blocked)
  ok (
    record (moved blocked actor cap_exhausted now cur) { terminal_reason = cap_exhausted },
    sealed,
  )

-- A claim that is in flight: replayed, or funded late if only its transition was written.
unfoldable pub resume :
    PassKind → String → String → Option ℕ → RunState → Result OwnerError (RunState × Outcome)
unfolding history_claims seal_blocked
resume kind actor now cap cur =
    let count = pass_count kind cur in
    let claims = history_claims (pass_target kind) cur.state_history in
    if claims == count && ltb 0 count
    then ok (cur, replayed)
    else if claims == count + 1
    then (if reached cap count
        then seal_blocked actor now cur
        else ok (
          record (set_count kind (count + 1) cur) { updated_at = now; last_actor = actor },
          recovered,
        ))
    else err history_drift

-- CHANGES_REQUESTED to BUILDING is the claim owner's own edge.
abbrev pub own_edge : PassKind → State → Bool
own_edge build changes_requested = true
own_edge _ _ = false

unfoldable pub start_pass :
    PassKind → String → String → RunState → Result OwnerError (RunState × Outcome)
unfolding moved
start_pass kind actor now cur = do
  (if own_edge kind cur.state then ok tt else lift fsm (assert_valid cur.state (pass_target kind)))
  ok (
    set_count kind (pass_count kind cur + 1) (moved (pass_target kind) actor claim_pass now cur),
    funded,
  )

abbrev pub is_program_document : Option ProgramState → Bool
is_program_document none = false
is_program_document (some program) = true

unfoldable pub claim_single_pass :
    PassKind
    → String
    → Option RiskBudget
    → String
    → RunState
    → Result OwnerError (RunState × Outcome)
unfolding resume start_pass seal_blocked
claim_single_pass kind actor budget now cur = do
  refuse (is_program_document cur.program) is_program_run
  cap ← lift limit (effective_cap (pass_counter kind) budget)
  if same_state cur.state (pass_target kind) then resume kind actor now cap cur else do
    require (pass_source kind cur.state) wrong_source
    if reached cap (pass_count kind cur)
        then seal_blocked actor now cur
        else start_pass kind actor now cur
