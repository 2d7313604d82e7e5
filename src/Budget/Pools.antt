-- ===== src/Budget/Pools.antt =====
-- `semantic_budget_allocation_plan`: the pools that a checkpoint can borrow from, and what must stay.
use ownframework_loop.Prelude.{
  ℕ, ◌-◌, ◌+◌, String, ltb, same, mem, Bool, true, false, ◌&&◌, Option, none, some, List, [], ◌∷◌,
  sum_of, if◌then◌else◌,
}
use ownframework_loop.Packet.{Checkpoint, Packet, CounterKind}
use ownframework_loop.Transitions.{is_approved}
use ownframework_loop.Program.{
  tally_of, CheckpointState, Finalized, Allocation, SourceKind, mission_cumulative_slack,
  ProgramState, find_cp,
}
use ownframework_loop.Budget.{same_counter, declared_cap, packet_cap}

-- The ids of the checkpoints finalized as APPROVED.
unfoldable pub approved_ids : List Finalized → List String
approved_ids [] = []
approved_ids (fc ∷ fcs) =
    let rest = approved_ids fcs in if is_approved fc.terminal_state then fc.id ∷ rest else rest

abbrev pub is_source : String → Option String → Bool
is_source donor none = false
is_source donor (some s) = same s donor

-- What a checkpoint has given away already.
unfoldable pub donated_by : String → CounterKind → List Allocation → ℕ
donated_by donor k [] = 0
donated_by donor k (a ∷ ledger) =
    let rest = donated_by donor k ledger in
    if same_counter a.counter_kind k && is_source donor a.source_checkpoint_id
    then a.amount_borrowed + rest
    else rest

abbrev pub is_slack : SourceKind → Bool
is_slack mission_cumulative_slack = true
is_slack _ = false

unfoldable pub slack_borrowed : CounterKind → List Allocation → ℕ
slack_borrowed k [] = 0
slack_borrowed k (a ∷ ledger) =
    let rest = slack_borrowed k ledger in
    if same_counter a.counter_kind k && is_slack a.source_kind
    then a.amount_borrowed + rest
    else rest

-- What a finalized checkpoint has left to give.
unfoldable pub donor_room :
    CounterKind → List Checkpoint → List Allocation → String → Option CheckpointState → ℕ
unfolding packet_cap donated_by
donor_room k cps ledger donor none = 0
donor_room k cps ledger donor (some cp) =
    packet_cap k donor cps - tally_of k cp.counts - donated_by donor k ledger

module _ (k : CounterKind) (p : Packet) (program : ProgramState) (ledger : List Allocation) where
  abbrev pub room : String → ℕ
  room donor =
      if mem donor (approved_ids program.finalized_checkpoints)
      then donor_room k p.checkpoints ledger donor (find_cp donor program.checkpoints)
      else 0

  unfoldable pub donor_pool : ℕ
  unfolding approved_ids donor_room find_cp
  donor_pool = sum_of room p.execution_order

  -- The first donor of the order with something left.
  unfoldable pub first_donor : List String → Option String
  unfolding approved_ids donor_room find_cp
  first_donor [] = none
  first_donor (c ∷ order) = let rest = first_donor order in if ltb 0 (room c) then some c else rest

  unfoldable pub source_donor : Option String
  unfolding first_donor
  source_donor = first_donor p.execution_order

unfoldable pub slack_pool : CounterKind → Packet → ℕ → List Allocation → ℕ
unfolding slack_borrowed
slack_pool k p cumulative_cap ledger =
    cumulative_cap - sum_of (declared_cap k) p.checkpoints - slack_borrowed k ledger

unfoldable pub add_reserved : ℕ → Option ℕ → Option ℕ
add_reserved n none = none
add_reserved n (some m) = some (n + m)

unfoldable pub future_room :
    CounterKind → List Checkpoint → String → Option CheckpointState → Option ℕ → Option ℕ
unfolding add_reserved packet_cap
future_room k cps cid none rest = none
future_room k cps cid (some cp) rest =
    add_reserved (packet_cap k cid cps - tally_of k cp.counts) rest

-- The claims that the other unfinished checkpoints of the order were promised; `none` if one of them
-- has no state.
unfoldable pub future_reserve :
    CounterKind
    → List Checkpoint
    → List CheckpointState
    → List String
    → String
    → List String
    → Option ℕ
unfolding future_room find_cp
future_reserve k cps states finalized cid [] = some 0
future_reserve k cps states finalized cid (c ∷ order) =
    let rest = future_reserve k cps states finalized cid order in
    if same c cid
    then rest
    else if mem c finalized
    then rest
    else future_room k cps c (find_cp c states) rest
