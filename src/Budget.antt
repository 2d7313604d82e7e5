-- ===== src/Budget.antt =====
-- lib/ownframework_loop/program.py: who may claim one more pass. The sealed semantic budget lets a
-- checkpoint borrow single claims (`semantic_budget_allocation_plan`), and `_bump_counter_one` counts.
pub mod Pools
pub mod Plan
pub mod Bump
pub mod Entitlements
pub mod Promises
pub mod Reserve
pub mod Agreement
pub mod Borrowing
pub mod Effect
pub mod Frozen
use ownframework_loop.Prelude.{
  ℕ, ◌-◌, ◌+◌, String, same, mem, Bool, true, false, ◌&&◌, Option, none, some, List, [], ◌∷◌,
  sum_of, get_or, if◌then◌else◌,
}
use ownframework_loop.Packet.{
  RiskBudget, Checkpoint, Packet, CounterKind, CounterKind-discrete, build_pass_count,
  review_pass_count, repair_round_count, cap_of, empty_budget,
}
use ownframework_loop.Transitions.{State, is_approved}
use ownframework_loop.Program.{
  Tally, tally_of, CheckpointState, Finalized, Allocation, ProgramState, find_cp,
}

unfoldable pub minimum_one_repair_final_acceptance_reserve : CounterKind → ℕ
minimum_one_repair_final_acceptance_reserve build_pass_count = 1
minimum_one_repair_final_acceptance_reserve repair_round_count = 1
minimum_one_repair_final_acceptance_reserve review_pass_count = 2

abbrev pub same_counter : CounterKind → CounterKind → Bool
same_counter a b = elim (CounterKind-discrete a b) [ yes p ↦ true | no p ↦ false ]

-- `program_state.get("semantic_budget_allocations") or []`
abbrev pub allocations_of : ProgramState → List Allocation
allocations_of program = get_or program.semantic_budget_allocations []

-- What a checkpoint has borrowed so far.
unfoldable pub borrowed_by : String → CounterKind → List Allocation → ℕ
borrowed_by cid k [] = 0
borrowed_by cid k (a ∷ ledger) =
    let rest = borrowed_by cid k ledger in
    if same a.checkpoint_id cid && same_counter a.counter_kind k
    then a.amount_borrowed + rest
    else rest

-- `(cp.get("risk_budget") or {}).get(cap_key) or 0`
abbrev pub declared_cap : CounterKind → Checkpoint → ℕ
declared_cap k cp = get_or (cap_of k (get_or cp.risk_budget empty_budget)) 0

-- The cap at `packet_cps[cid]`. Admission makes the ids distinct and all known, so that the first match
-- is the only one, and the last clause is not reached.
unfoldable pub packet_cap : CounterKind → String → List Checkpoint → ℕ
packet_cap k cid [] = 0
packet_cap k cid (cp ∷ cps) =
    let rest = packet_cap k cid cps in if same cp.id cid then declared_cap k cp else rest
