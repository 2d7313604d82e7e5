-- ===== src/Budget/Reserve.antt =====
-- What a borrowed claim leaves for the others, and what stands behind it.
use ownframework_loop.Prelude.{
  ℕ, ◌+◌, ◌≤◌, ◌<◌, ◌≡◌, refl, inl, inr, String, ltb, lt→ltb, same_refl, mem, Bool-cases,
  Option-cases, true, ◌&&◌, ap, ◌∙◌, Option, some, List, [], ◌∷◌, ◌++◌, sum_of, ok, arith,
  if◌then◌else◌,
}
use ownframework_loop.Packet.{Packet, CounterKind, CounterKind-discrete, SemanticBudgetPolicy}
use ownframework_loop.Run.{RunState}
use ownframework_loop.Program.{
  tally_of, CheckpointState, Allocation, mission_cumulative_slack, ProgramState, Digests, find_cp,
}
use ownframework_loop.Budget.{
  minimum_one_repair_final_acceptance_reserve, same_counter, allocations_of, declared_cap,
  packet_cap,
}
use ownframework_loop.Budget.Pools.{
  approved_ids, donated_by, is_source, is_slack, slack_borrowed, donor_room, room, donor_pool,
  first_donor, source_donor, slack_pool, future_reserve,
}
use ownframework_loop.Budget.Promises.{promised, final_lane, final_lane-eq, future_reserve-sum}
use ownframework_loop.Budget.Plan.{Measure, measure_pools, plan_measure, make_allocation}

donated_by-snoc :
    (c : String) (k : CounterKind) (ledger : List Allocation) (a : Allocation)
    → donated_by c k (ledger ++ a ∷ [])
      ≡ donated_by c k ledger
        + (if same_counter a.counter_kind k && is_source c a.source_checkpoint_id
            then a.amount_borrowed
            else 0)
unfolding donated_by
donated_by-snoc c k [] a = ground arith
donated_by-snoc c k (b ∷ ledger) a = ground (arith, donated_by-snoc c k ledger a)

slack_borrowed-snoc :
    (k : CounterKind) (ledger : List Allocation) (a : Allocation)
    → slack_borrowed k (ledger ++ a ∷ [])
      ≡ slack_borrowed k ledger
        + (if same_counter a.counter_kind k && is_slack a.source_kind then a.amount_borrowed else 0)
unfolding slack_borrowed
slack_borrowed-snoc k [] a = ground arith
slack_borrowed-snoc k (b ∷ ledger) a = ground (arith, slack_borrowed-snoc k ledger a)

module _ (k : CounterKind) (p : Packet) (program : ProgramState) (ledger : List Allocation) where
  -- A pool that is not empty has a first donor.
  first_donor-room :
      (order : List String)
      → 0 < sum_of (room k p program ledger) order
      → (c : String) × (first_donor k p program ledger order ≡ some c)
        × (0 < room k p program ledger c)
  unfolding first_donor
  first_donor-room [] h = absurd (omega arith)
  first_donor-room (c ∷ order) h = elim (Bool-cases (ltb 0 (room k p program ledger c))) [
    | inl full ↦ (c, rw full refl, ground arith)
    | inr empty ↦
        let (x, found, has) = first_donor-room order (ground arith) in (x, rw empty found, has)
  ]

  -- A donor with room is approved, has a state, and has not given all it saved.
  donor-spare :
      (c : String)
      → 0 < room k p program ledger c
      → (mem c (approved_ids program.finalized_checkpoints) ≡ true)
        × (cp : CheckpointState) × (find_cp c program.checkpoints ≡ some cp)
        × (tally_of k cp.counts + donated_by c k ledger + 1 ≤ packet_cap k c p.checkpoints)
  unfolding donor_room
  donor-spare c h = elim (Option-cases (find_cp c program.checkpoints)) [
    | inl none_there ↦ ground arith
    | inr (cp, found) ↦ (ground arith, cp, found, ground arith)
  ]

-- What the tests of the plan establish for a new claim.
pub record IsCovered (p : Packet) (program : ProgramState) (cid : String) (k : CounterKind)
    (m : Measure) : Type 0 where
  pub reserved_eq : m.reserved ≡ sum_of (promised k p program cid) p.execution_order + final_lane k
  pub room_left : tally_of k program.counters + 1 + m.reserved ≤ tally_of k program.ceilings
  pub pool_open : 0 < m.from_donors + m.from_slack
  pub donors_le : m.from_donors ≤ donor_pool k p program (allocations_of program)
  pub slack_le :
      m.from_slack ≤ slack_pool k p (tally_of k program.ceilings) (allocations_of program)

measure_pools-IsCovered :
    (p : Packet) (policy : SemanticBudgetPolicy) (program : ProgramState) (cid : String)
    (k : CounterKind) (local_cap current_local : ℕ) (m : Measure)
    → tally_of k program.counters < tally_of k program.ceilings
    → measure_pools p policy program cid k local_cap current_local ≡ ok (some m)
    → IsCovered p program cid k m
unfolding measure_pools
measure_pools-IsCovered p policy program cid k local_cap current_local m spare h =
    elim (Option-cases (
      future_reserve k p.checkpoints program.checkpoints
        (approved_ids program.finalized_checkpoints) cid p.execution_order)) [
          | inl lost ↦ ground arith
          | inr (future, kept) ↦ record {
            reserved_eq =
                let counted : m.reserved ≡ future + minimum_one_repair_final_acceptance_reserve k =
                  ground arith in
                counted
                ∙ ap (λ n. n + minimum_one_repair_final_acceptance_reserve k)
                    (future_reserve-sum k p program cid p.execution_order future kept)
                ∙ ap (λ n. sum_of (promised k p program cid) p.execution_order + n)
                    (final_lane-eq k);
            room_left = ground arith;
            pool_open = ground arith;
            donors_le = ground arith;
            slack_le = ground arith;
          }
        ]

pub plan_measure-IsCovered :
    (d : Digests) (p : Packet) (program : ProgramState) (cid : String) (k : CounterKind)
    (state_doc : Option RunState) (m : Measure)
    → plan_measure d program p cid k state_doc ≡ ok (some m)
    → IsCovered p program cid k m
unfolding plan_measure
plan_measure-IsCovered d p program cid k state_doc m h =
    elim (Option-cases p.semantic_budget_policy) [
      | inl unsealed ↦ ground arith
      | inr (policy, sealed) ↦ elim (Option-cases (find_cp cid program.checkpoints)) [
        | inl unknown ↦ ground arith
        | inr (cp, found) ↦
            measure_pools-IsCovered p policy program cid k (packet_cap k cid p.checkpoints)
              (tally_of k cp.counts) m (ground arith) (ground arith)
      ]
    ]

-- The row of the ledger that the plan adds.
abbrev pub new_row :
    Digests → ProgramState → Packet → String → CounterKind → String → String → Measure → Allocation
new_row d program p cid k run_id now m = make_allocation d program p cid k run_id now m

-- A donor backs the row: it is approved, and what it used and gave stays within its own cap.
pub record BackedByDonor (p : Packet) (program : ProgramState) (k : CounterKind)
    (ledger : List Allocation) (row : Allocation) : Type 0 where
  pub donor : String
  pub source : row.source_checkpoint_id ≡ some donor
  pub is_approved : mem donor (approved_ids program.finalized_checkpoints) ≡ true
  pub state : CheckpointState
  pub found : find_cp donor program.checkpoints ≡ some state
  pub within :
      tally_of k state.counts + donated_by donor k ledger ≤ packet_cap k donor p.checkpoints

-- The slack backs it: all declared caps and all claims from the slack stay within the ceiling.
pub record BackedBySlack (p : Packet) (program : ProgramState) (k : CounterKind)
    (ledger : List Allocation) (row : Allocation) : Type 0 where
  pub from_slack : row.source_kind ≡ mission_cumulative_slack
  pub within :
      sum_of (declared_cap k) p.checkpoints + slack_borrowed k ledger ≤ tally_of k program.ceilings

same_counter_refl : (k : CounterKind) → same_counter k k ≡ true
same_counter_refl k = ground (arith, CounterKind-discrete k k)

module _ (d : Digests) (p : Packet) (program : ProgramState) (cid : String) (k : CounterKind)
    (run_id now : String) (m : Measure) (covered : IsCovered p program cid k m) where
  pub donor_backs :
      0 < m.from_donors
      → BackedByDonor p program k
          (allocations_of program ++ new_row d program p cid k run_id now m ∷ [])
          (new_row d program p cid k run_id now m)
  unfolding donor_pool source_donor make_allocation
  donor_backs h =
      let (c, first, has) =
        first_donor-room k p program (allocations_of program) p.execution_order
          (omega (arith, covered.donors_le)) in
      let (approved, state, found, spare) =
        donor-spare k p program (allocations_of program) c has in
      record {
        donor = c;
        source = rw (lt→ltb 0 m.from_donors h) first;
        is_approved = approved;
        state = state;
        found = found;
        within = ground (
          arith,
          donated_by-snoc c k (allocations_of program) (new_row d program p cid k run_id now m),
          same_refl c,
          same_counter_refl k,
        );
      }

  pub slack_backs :
      m.from_donors ≡ 0
      → BackedBySlack p program k
          (allocations_of program ++ new_row d program p cid k run_id now m ∷ [])
          (new_row d program p cid k run_id now m)
  unfolding slack_pool make_allocation
  slack_backs h = record {
    from_slack = ground arith;
    within = ground (
      arith,
      slack_borrowed-snoc k (allocations_of program) (new_row d program p cid k run_id now m),
      same_counter_refl k,
      covered.slack_le,
      covered.pool_open,
    );
  }
