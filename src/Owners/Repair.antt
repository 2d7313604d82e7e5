-- ===== src/Owners/Repair.antt =====
-- state.py, `transition_funded_repair` and `_merge_funded_repair_program_block`: a rejected candidate
-- gets its repair funded and CHANGES_REQUESTED, or BLOCKED, in one write.
use ownframework_loop.Prelude.{
  ℕ, ◌+◌, String, leb, ◌==◌, Bool, false, Option, none, some, List, any, if◌then◌else◌, Result, ok,
  err, ◌>>=◌, ◌>>◌, require, expect, is_ok, get_or,
}
use ownframework_loop.Packet.{Packet, RiskBudget, repair_round_count}
use ownframework_loop.Transitions.{State, changes_requested, blocked, assert_valid}
use ownframework_loop.Limits.{Counter, effective_cap}
use ownframework_loop.Graph.Positions.{find_checkpoint}
use ownframework_loop.Run.{RunState, Reason, cap_exhausted}
use ownframework_loop.Program.{
  tally_of, bump_tally, ProgramState, ProgramError, key_error, unknown_checkpoint, Digests,
  update_cp,
}
use ownframework_loop.Program.Refresh.{select_next_checkpoint}
use ownframework_loop.Budget.Bump.{bump_counter_one}
use ownframework_loop.Budget.Frozen.{verify_frozen_graph}
use ownframework_loop.Claims.{same_state, is_final_scope}
use ownframework_loop.Owners.{
  OwnerError, fsm, program_refused, limit, wrong_source, not_program_run, counter_drift, drifted,
  no_checkpoint, snapshot_changed, lift, moved, bind_candidate, set_streak, set_fingerprint,
}

-- The funded document, or none where the repair envelope is exhausted.
abbrev pub Funding : Type 0
Funding = Result OwnerError (Option RunState)

-- The whole-product repair has the PROGRAM-wide ceiling alone.
unfoldable pub fund_final : ProgramState → RunState → Funding
fund_final program cur =
    if leb (tally_of repair_round_count program.ceilings)
      (tally_of repair_round_count program.counters)
    then ok none
    else ok (
        some (record cur {
          program =
              some (record program { counters = bump_tally repair_round_count program.counters });
          repair_round = cur.repair_round + 1;
        }))

-- `except ProgramStateError`: the refusal seals BLOCKED; a KeyError passes through.
abbrev pub funding_of : Result ProgramError ProgramState → Result OwnerError (Option ProgramState)
funding_of (ok program) = ok (some program)
funding_of (err key_error) = err (program_refused key_error)
funding_of (err e) = ok none

unfoldable pub with_evidence : String → String → ProgramState → ProgramState
with_evidence cid sha program = record program {
  checkpoints =
      update_cp cid
        (λ cp. record cp { last_evidence = record cp.last_evidence { repair_sha = some sha } })
        program.checkpoints;
}

unfoldable pub fund_checkpoint :
    Digests → Packet → String → String → ProgramState → RunState → Funding
unfolding with_evidence
fund_checkpoint d p sha now program cur = do
  cid ← expect (select_next_checkpoint program) no_checkpoint
  packet_cp ← expect (find_checkpoint cid p.checkpoints) (program_refused unknown_checkpoint)
  funded ← funding_of (
      bump_counter_one d program cid repair_round_count packet_cp (some p) (some cur) cur.run_id
        now)
  ok (elim funded [
    | none ↦ none
    | some new ↦ some (record cur {
      program = some (with_evidence cid sha new);
      repair_round = cur.repair_round + 1;
    })
  ])

unfoldable pub fund_program : Digests → Packet → String → String → ProgramState → RunState → Funding
unfolding fund_final fund_checkpoint
fund_program d p sha now program cur = do
  require (is_ok (verify_frozen_graph d p program)) drifted
  require (cur.repair_round == tally_of repair_round_count program.counters) counter_drift
  if is_final_scope program.review_scope
      then fund_final program cur
      else fund_checkpoint d p sha now program cur

abbrev over : Option ℕ → ℕ → Bool
over none n = false
over (some cap) n = leb cap n

fund_single : RiskBudget → RunState → Funding
fund_single budget cur = do
  cap ← lift limit (effective_cap Counter.repair_round (some budget))
  if over cap cur.repair_round
      then ok none
      else ok (some (record cur { repair_round = cur.repair_round + 1 }))

unfoldable pub fund_repair : Digests → Packet → String → String → RunState → Funding
unfolding fund_program fund_single
fund_repair d p sha now cur = elim cur.program [
  | some program ↦ fund_program d p sha now program cur
  | none ↦ fund_single p.risk_budget cur
]

-- Only the two source counts of the caller's snapshot are taken over; `unchanged` is the comparison of
-- the snapshot with the current block without these counts.
pub record Snapshot : Type 0 where
  pub files_changed_unique : ℕ
  pub diff_lines_total : ℕ
  pub unchanged : Bool

unfoldable pub merge_counts :
    Snapshot → Option ProgramState → Result OwnerError (Option ProgramState)
merge_counts s none = err not_program_run
merge_counts s (some program) = do
  require s.unchanged snapshot_changed
  ok (
      some (record program {
        files_changed_unique = s.files_changed_unique;
        diff_lines_total = s.diff_lines_total;
      }))

unfoldable pub merge_funded_repair_program_block :
    Option Snapshot → RunState → Result OwnerError RunState
unfolding merge_counts
merge_funded_repair_program_block none s = ok s
merge_funded_repair_program_block (some snap) s = do
  program ← merge_counts snap s.program
  ok (record s { program = program })

-- The fields of the write; a missing streak falls back to 0.
unfoldable pub settle_repair :
    State
    → String
    → Reason
    → String
    → Option ℕ
    → Option ℕ
    → Option String
    → String
    → RunState
    → RunState
unfolding moved
settle_repair to actor reason sha no_progress streak fingerprint now s =
    set_fingerprint fingerprint (
      set_streak streak (
        let written = bind_candidate sha (moved to actor reason now s) in
        record written {
          no_progress_streak = get_or no_progress 0;
          terminal_reason = if same_state to blocked then reason else written.terminal_reason;
        }))

abbrev pub target_of : Option RunState → State
target_of none = blocked
target_of (some s) = changes_requested

-- The arguments that the caller has computed before.
pub record RepairRequest : Type 0 where
  pub actor : String
  pub commit_sha : String
  pub no_progress_streak : Option ℕ
  pub snapshot : Option Snapshot
  pub identical_finding_streak : Option ℕ
  pub last_must_fix_fingerprint : Option String
  pub allowed_sources : List State
  pub claimed_reason : Reason

unfoldable pub transition_funded_repair :
    Digests → Packet → RepairRequest → String → RunState → Result OwnerError RunState
transition_funded_repair d p r now cur = do
  require (any (λ s. same_state s cur.state) r.allowed_sources) wrong_source
  funded ← fund_repair d p r.commit_sha now cur
  lift fsm (assert_valid cur.state (target_of funded))
  merge_funded_repair_program_block r.snapshot (
      settle_repair (target_of funded) r.actor
        (elim funded [ none ↦ cap_exhausted | some s ↦ r.claimed_reason ]) r.commit_sha
        r.no_progress_streak r.identical_finding_streak r.last_must_fix_fingerprint now
        (get_or funded cur))
