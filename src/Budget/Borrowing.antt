-- ===== src/Budget/Borrowing.antt =====
-- A borrowed claim as the ledger records it.
use ownframework_loop.Prelude.{
  ℕ, zero, suc, ◌+◌, ◌≤◌, ◌<◌, ◌≡◌, refl, ◌⊎◌, inl, inr, String, Option, none, some, [], ◌∷◌, ◌++◌,
  sum_of, ok, arith, Result-cases, subst,
}
use ownframework_loop.Packet.{Packet, CounterKind}
use ownframework_loop.Run.{RunState}
use ownframework_loop.Program.{tally_of, Allocation, ProgramState, Digests}
use ownframework_loop.Budget.{allocations_of}
use ownframework_loop.Budget.Promises.{promised, final_lane}
use ownframework_loop.Budget.Plan.{
  Measure, plan_measure, make_allocation, extend_ledger, semantic_budget_allocation_plan,
}
use ownframework_loop.Budget.Reserve.{
  IsCovered, BackedByDonor, BackedBySlack, plan_measure-IsCovered, donor_backs, slack_backs,
  new_row,
}

-- One row is added, for this checkpoint and counter and for one claim; after that claim the ceiling
-- still holds the unused declared cap of every other checkpoint of the order that is not approved, and
-- one build, one repair or two reviews for the last review; and the
-- row is backed by a donor's own cap or by the slack under the ceiling.
pub record IsGranted (p : Packet) (program : ProgramState) (cid : String) (k : CounterKind)
    (new : ProgramState) : Type 0 where
  pub row : Allocation
  pub appended : allocations_of new ≡ allocations_of program ++ row ∷ []
  pub whose : row.checkpoint_id ≡ cid
  pub which : row.counter_kind ≡ k
  pub single : row.amount_borrowed ≡ 1
  pub lane_left :
      tally_of k program.counters
        + 1
        + sum_of (promised k p program cid) p.execution_order
        + final_lane k
      ≤ tally_of k program.ceilings
  pub backed :
      BackedByDonor p program k (allocations_of new) row
      ⊎ BackedBySlack p program k (allocations_of new) row

is_zero_cases : (n : ℕ) → (n ≡ 0) ⊎ (0 < n)
is_zero_cases zero = inl refl
is_zero_cases (suc n) = inr (omega arith)

extended-IsGranted :
    (d : Digests) (p : Packet) (program : ProgramState) (cid : String) (k : CounterKind)
    (run_id now : String) (m : Measure)
    → IsCovered p program cid k m
    → IsGranted p program cid k (extend_ledger d program p cid k run_id now (some m))
unfolding extend_ledger make_allocation
extended-IsGranted d p program cid k run_id now m covered = record {
  row = new_row d program p cid k run_id now m;
  appended = refl;
  whose = refl;
  which = refl;
  single = refl;
  lane_left = omega (arith, covered.reserved_eq, covered.room_left);
  backed = elim (is_zero_cases m.from_donors) [
    | inl closed ↦ inr (slack_backs d p program cid k run_id now m covered closed)
    | inr has ↦ inl (donor_backs d p program cid k run_id now m covered has)
  ];
}

IsGranted-by :
    (d : Digests) (p : Packet) (program : ProgramState) (cid : String) (k : CounterKind)
    (state_doc : Option RunState) (run_id now : String) (measure : Option Measure)
    → plan_measure d program p cid k state_doc ≡ ok measure
    → (extend_ledger d program p cid k run_id now measure ≡ program)
      ⊎ IsGranted p program cid k (extend_ledger d program p cid k run_id now measure)
unfolding extend_ledger
IsGranted-by d p program cid k state_doc run_id now none h = inl refl
IsGranted-by d p program cid k state_doc run_id now (some m) h = inr (
    extended-IsGranted d p program cid k run_id now m
      (plan_measure-IsCovered d p program cid k state_doc m h))

-- An allocation that is not refused either finds an earlier borrowed claim unused and changes
-- nothing, or is granted: it adds one backed row, and leaves under the ceiling the unused declared caps
-- of the other checkpoints that are not approved and the claims kept for the last review.
pub semantic_budget_allocation_plan-IsGranted :
    (d : Digests) (p : Packet) (program : ProgramState) (cid : String) (k : CounterKind)
    (state_doc : Option RunState) (run_id now : String) {new : ProgramState}
    → semantic_budget_allocation_plan d program p cid k state_doc run_id now ≡ ok new
    → (new ≡ program) ⊎ IsGranted p program cid k new
unfolding semantic_budget_allocation_plan
semantic_budget_allocation_plan-IsGranted d p program cid k state_doc run_id now {new} h =
    elim (Result-cases (plan_measure d program p cid k state_doc)) [
      | inl (measure, e) ↦
          subst (λ n. (n ≡ program) ⊎ IsGranted p program cid k n) (ground arith)
            (IsGranted-by d p program cid k state_doc run_id now measure e)
      | inr (refusal, e) ↦ ground arith
    ]
