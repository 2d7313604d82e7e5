-- ===== src/Budget/Agreement.antt =====
-- The preflights agree with the claim that they foresee.
use ownframework_loop.Prelude.{
  ℕ, ◌+◌, ◌≡◌, refl, inl, inr, String, leb, Option-cases, Result-cases, true, false, not, ◌&&◌,
  ◌||◌, Option, none, some, ok, is_ok, arith, ◌∙◌,
}
use ownframework_loop.Packet.{Checkpoint, Packet, CounterKind, build_pass_count, repair_round_count}
use ownframework_loop.Run.{RunState}
use ownframework_loop.Program.{tally_of, CheckpointState, ProgramState, Digests, find_cp}
use ownframework_loop.Budget.{allocations_of, borrowed_by, declared_cap}
use ownframework_loop.Budget.Plan.{semantic_budget_allocation_plan, plan_measure, extend_ledger}
use ownframework_loop.Budget.Bump.{bump_counter_one, required_cap, borrow_claim}
use ownframework_loop.Budget.Entitlements.{
  Entitlement, plan_eligible, repair_entitlement, build_pass_entitlement,
}

module _ (d : Digests) (program : ProgramState) (cid : String) (k : CounterKind)
    (state_doc : Option RunState) (run_id now now' : String) where
  -- The answer of the plan does not depend on the run id or on the time.
  borrow-is_ok :
      (packet : Option Packet)
      → is_ok (borrow_claim d program cid k packet state_doc run_id now)
        ≡ plan_eligible d program packet cid k state_doc now'
  unfolding borrow_claim plan_eligible semantic_budget_allocation_plan
  borrow-is_ok none = refl
  borrow-is_ok (some p) = ground arith

-- Borrowing changes only the ledger.
pub borrow_claim-counters :
    (d : Digests) (program : ProgramState) (cid : String) (k : CounterKind) (packet : Option Packet)
    (state_doc : Option RunState) (run_id now : String) {new : ProgramState}
    → borrow_claim d program cid k packet state_doc run_id now ≡ ok new
    → (new.counters ≡ program.counters)
      × (new.checkpoints ≡ program.checkpoints)
      × (new.ceilings ≡ program.ceilings)
      × (new.current_checkpoints ≡ program.current_checkpoints)
      × (new.finalized_checkpoints ≡ program.finalized_checkpoints)
      × (new.review_scope ≡ program.review_scope)
unfolding borrow_claim semantic_budget_allocation_plan extend_ledger
borrow_claim-counters d program cid k packet state_doc run_id now h = ground arith

-- A claim can be borrowed only while the PROGRAM-wide ceiling is not reached.
plan_eligible-room :
    (d : Digests) (program : ProgramState) (packet : Option Packet) (cid : String) (k : CounterKind)
    (state_doc : Option RunState) (now : String)
    → plan_eligible d program packet cid k state_doc now ≡ true
    → leb (tally_of k program.ceilings) (tally_of k program.counters) ≡ false
unfolding plan_eligible semantic_budget_allocation_plan plan_measure
plan_eligible-room d program none cid k state_doc now h = cc
plan_eligible-room d program (some p) cid k state_doc now h = ground arith

-- The claim in terms of the preflight's parts: it is granted when the checkpoint has room or can
-- borrow, and the PROGRAM has room.
bump-granted :
    (d : Digests) (program : ProgramState) (cid : String) (k : CounterKind) (packet_cp : Checkpoint)
    (packet : Option Packet) (state_doc : Option RunState) (run_id now now' : String) (cap : ℕ)
    (cp : CheckpointState)
    → required_cap k packet_cp ≡ some cap
    → find_cp cid program.checkpoints ≡ some cp
    → is_ok (bump_counter_one d program cid k packet_cp packet state_doc run_id now) ≡ (
        (not (leb (cap + borrowed_by cid k (allocations_of program)) (tally_of k cp.counts))
          || plan_eligible d program packet cid k state_doc now')
        && not (leb (tally_of k program.ceilings) (tally_of k program.counters)))
unfolding bump_counter_one
bump-granted d program cid k packet_cp packet state_doc run_id now now' cap cp capped found =
    elim (Result-cases (borrow_claim d program cid k packet state_doc run_id now)) [
      | inl (new, e) ↦ ground (
        arith,
        borrow-is_ok d program cid k state_doc run_id now now' packet,
        borrow_claim-counters d program cid k packet state_doc run_id now e,
      )
      | inr (x, e) ↦ ground (arith, borrow-is_ok d program cid k state_doc run_id now now' packet)
    ]

required-declared :
    (k : CounterKind) (cp : Checkpoint) (cap : ℕ)
    → required_cap k cp ≡ some cap
    → declared_cap k cp ≡ cap
unfolding required_cap
required-declared k cp cap h = ground arith

-- The repair preflight grants exactly what the claim grants: with the same block, checkpoint, packet
-- and run document, whatever the run id and the times, a repair that is found eligible can be
-- claimed, and one that can be claimed is found eligible.
pub repair_entitlement-agrees :
    (d : Digests) (program : ProgramState) (cid : String) (packet_cp : Checkpoint)
    (packet : Option Packet) (state_doc : Option RunState) (run_id now now' : String)
    {e : Entitlement}
    → repair_entitlement d program cid packet_cp packet state_doc now' ≡ ok e
    → is_ok
        (bump_counter_one d program cid repair_round_count packet_cp packet state_doc run_id now)
      ≡ e.eligible
unfolding repair_entitlement
repair_entitlement-agrees d program cid packet_cp packet state_doc run_id now now' {e} h =
    elim (Option-cases (required_cap repair_round_count packet_cp)) [
      | inl no_cap ↦ ground arith
      | inr (cap, capped) ↦ elim (Option-cases (find_cp cid program.checkpoints)) [
        | inl unknown ↦ ground arith
        | inr (cp, found) ↦
            bump-granted d program cid repair_round_count packet_cp packet state_doc run_id now now'
              cap cp capped found
            ∙ ground
                (arith, plan_eligible-room d program packet cid repair_round_count state_doc now')
      ]
    ]

-- Where the checkpoint's build cap is declared, the build preflight grants exactly what the claim
-- grants: with the same block, checkpoint, packet and run document, whatever the run id and the times,
-- a build is found eligible exactly when it can be claimed.
pub build_pass_entitlement-agrees :
    (d : Digests) (program : ProgramState) (cid : String) (packet_cp : Checkpoint)
    (packet : Option Packet) (state_doc : Option RunState) (run_id now now' : String) (cap : ℕ)
    {e : Entitlement}
    → required_cap build_pass_count packet_cp ≡ some cap
    → build_pass_entitlement d program cid packet_cp packet state_doc now' ≡ ok e
    → is_ok (bump_counter_one d program cid build_pass_count packet_cp packet state_doc run_id now)
      ≡ e.eligible
unfolding build_pass_entitlement
build_pass_entitlement-agrees d program cid packet_cp packet state_doc run_id now now' cap {e}
      capped h =
    elim (Option-cases (find_cp cid program.checkpoints)) [
      | inl unknown ↦ ground arith
      | inr (cp, found) ↦
          bump-granted d program cid build_pass_count packet_cp packet state_doc run_id now now' cap
            cp capped found
          ∙ ground (arith, required-declared build_pass_count packet_cp cap capped)
    ]
