-- ===== src/Budget/Frozen.antt =====
-- program.py, `verify_frozen_graph`: the durable block against the sealed packet, and every row of the
-- allocation ledger against what the packet allows.
use ownframework_loop.Prelude.{
  ℕ, ◌+◌, ◌-◌, String, ltb, leb, ◌==◌, same, mem, codes, Bool, true, false, not, ◌&&◌, ◌||◌, Option,
  none, some, List, [], ◌∷◌, all, length, sum_of, get_or, if◌then◌else◌, Result, ok, err, ◌>>=◌,
  ◌>>◌, require, expect,
}
use ownframework_loop.Packet.{
  Packet, CounterKind, build_pass_count, review_pass_count, repair_round_count, cap_of,
  SemanticBudgetPolicy,
}
use ownframework_loop.Graph.{ids}
use ownframework_loop.Program.{
  tally_of, CheckpointState, Allocation, approved_checkpoint_capacity, mission_cumulative_slack,
  unlisted_source, ProgramState, Digests, find_cp,
}
use ownframework_loop.Budget.{
  minimum_one_repair_final_acceptance_reserve, same_counter, allocations_of, declared_cap,
  packet_cap,
}
use ownframework_loop.Budget.Pools.{approved_ids}
use ownframework_loop.Budget.Plan.{is_text}

pub data Drift : Type 0 where
  graph_sha policy_sha allocation_digest allocation_checkpoint claim_sequence local_authority
        cumulative_authority source_proof bad_reserve bad_donor bad_slack bad_source
        checkpoint_exceeded donor_exceeded slack_exceeded ceiling_exceeded unsealed_state :
      Drift

is_hex : ℕ → Bool
is_hex c = (leb b'0' c && leb c b'9') || (leb b'a' c && leb c b'f')

-- The text matches [0-9a-f]{64}.
unfoldable pub is_full_sha256 : String → Bool
unfolding is_hex
is_full_sha256 s = length (codes s) == 64 && all is_hex (codes s)

-- What the loop over the ledger has counted so far.
record Scan : Type 0 where
  seen_ids : List String
  per_checkpoint : List (String × CounterKind)
  donor_use : List (String × CounterKind)
  slack_use : List CounterKind

uses : String → CounterKind → List (String × CounterKind) → ℕ
uses c k [] = 0
uses c k ((x, j) ∷ rest) =
    let n = uses c k rest in if same x c && same_counter j k then n + 1 else n

slack_uses : CounterKind → List CounterKind → ℕ
slack_uses k [] = 0
slack_uses k (j ∷ rest) = let n = slack_uses k rest in if same_counter j k then n + 1 else n

check_local : ProgramState → Packet → Allocation → ℕ → Result Drift (Unit {0})
check_local program p a number = do
  require (mem a.checkpoint_id (ids p.checkpoints)) allocation_checkpoint
  require (a.amount_borrowed == 1 && a.allocation_number == number) claim_sequence
  let cap = packet_cap a.counter_kind a.checkpoint_id p.checkpoints
  require
      (is_text program.mission_id a.mission_id
        && a.declared_local_cap == cap
        && a.local_used_before + 1 == cap + number)
      local_authority

check_cumulative : Packet → Allocation → Result Drift (Unit {0})
check_cumulative p a = do
  let cap = get_or (cap_of a.counter_kind p.risk_budget) 0
  require
      (a.cumulative_cap == cap
        && ltb a.cumulative_used_before cap
        && leb a.reserved_remaining_authority (cap - a.cumulative_used_before - 1))
      cumulative_authority

event_sha_ok : Option String → Bool
unfolding is_full_sha256
event_sha_ok none = true
event_sha_ok (some s) = is_full_sha256 s

reserve_ok : Allocation → Option ℕ → Bool
reserve_ok a none = true
reserve_ok a (some n) =
    n == minimum_one_repair_final_acceptance_reserve a.counter_kind
    && leb n a.reserved_remaining_authority

check_proof : Digests → Packet → Allocation → Result Drift (Unit {0})
unfolding event_sha_ok reserve_ok
check_proof d p a = do
  require
      (same a.source_authority_sha256 (d.policy p)
        && is_full_sha256 a.source_authority_sha256
        && event_sha_ok a.source_event_sha256)
      source_proof
  require
      (reserve_ok a a.final_acceptance_reserve
        && leb 1 a.reclaimable_pool_before
        && a.reclaimable_pool_after + 1 == a.reclaimable_pool_before
        && not (same a.created_at ""))
      bad_reserve

donor_ok : ProgramState → Packet → Allocation → Option String → Bool
donor_ok program p a none = false
donor_ok program p a (some donor) =
    not (same donor a.checkpoint_id)
    && mem donor (approved_ids program.finalized_checkpoints)
    && mem donor (ids p.checkpoints)

unfoldable pub is_absent : Option String → Bool
is_absent none = true
is_absent (some s) = false

-- The row's source, and the scan with its use counted.
check_source : SemanticBudgetPolicy → ProgramState → Packet → Allocation → Scan → Result Drift Scan
unfolding donor_ok is_absent
check_source policy program p a scan = elim a.source_kind [
  | approved_checkpoint_capacity ↦ do
    require
        (policy.reclaim_approved_checkpoint_capacity && donor_ok program p a a.source_checkpoint_id)
        bad_donor
    ok (record scan {
      donor_use = (get_or a.source_checkpoint_id "", a.counter_kind) ∷ scan.donor_use;
    })
  | mission_cumulative_slack ↦ do
    require (policy.use_cumulative_slack && is_absent a.source_checkpoint_id) bad_slack
    ok (record scan { slack_use = a.counter_kind ∷ scan.slack_use })
  | unlisted_source ↦ err bad_source
]

check_row :
    Digests → SemanticBudgetPolicy → ProgramState → Packet → Scan → Allocation → Result Drift Scan
unfolding check_local check_cumulative check_proof check_source uses
check_row d policy program p scan a = do
  require
      (is_full_sha256 a.allocation_id
        && same a.allocation_id (d.allocation a.body)
        && not (mem a.allocation_id scan.seen_ids))
      allocation_digest
  check_local program p a (uses a.checkpoint_id a.counter_kind scan.per_checkpoint + 1)
  check_cumulative p a
  check_proof d p a
  scanned ← check_source policy program p a scan
  ok (record scanned {
    seen_ids = a.allocation_id ∷ scan.seen_ids;
    per_checkpoint = (a.checkpoint_id, a.counter_kind) ∷ scan.per_checkpoint;
  })

check_rows :
    Digests
    → SemanticBudgetPolicy
    → ProgramState
    → Packet
    → Scan
    → List Allocation
    → Result Drift Scan
unfolding check_row
check_rows d policy program p scan [] = ok scan
check_rows d policy program p scan (a ∷ ledger) = do
  scanned ← check_row d policy program p scan a
  check_rows d policy program p scanned ledger

used_within : CounterKind → ℕ → Option CheckpointState → Bool
used_within k bound none = false
used_within k bound (some cp) = leb (tally_of k cp.counts) bound

-- The totals, after the loop.
check_totals : ProgramState → Packet → Scan → Result Drift (Unit {0})
unfolding uses slack_uses used_within
check_totals program p scan = do
  require
      (all
        (λ (c, k).
          used_within k (packet_cap k c p.checkpoints + uses c k scan.per_checkpoint)
            (find_cp c program.checkpoints))
        scan.per_checkpoint)
      checkpoint_exceeded
  require
      (all
        (λ (c, k).
          used_within k (packet_cap k c p.checkpoints - uses c k scan.donor_use)
            (find_cp c program.checkpoints)
          && leb (uses c k scan.donor_use) (packet_cap k c p.checkpoints))
        scan.donor_use)
      donor_exceeded
  require
      (all
        (λ k.
          leb (slack_uses k scan.slack_use)
            (get_or (cap_of k p.risk_budget) 0 - sum_of (declared_cap k) p.checkpoints))
        scan.slack_use)
      slack_exceeded
  require
      (all (λ k. leb (tally_of k program.counters) (tally_of k program.ceilings))
        (build_pass_count ∷ review_pass_count ∷ repair_round_count ∷ []))
      ceiling_exceeded

abbrev empty_scan : Scan
empty_scan = record { seen_ids = []; per_checkpoint = []; donor_use = []; slack_use = [] }

unfoldable pub has_rows : List Allocation → Bool
has_rows [] = false
has_rows (a ∷ ledger) = true

unfoldable pub check_unsealed : ProgramState → Result Drift (Unit {0})
unfolding is_absent has_rows
check_unsealed program = do
  require
      (is_absent program.semantic_budget_policy_sha256 && not (has_rows (allocations_of program)))
      unsealed_state

unfoldable pub check_policy :
    Digests → Packet → ProgramState → Option SemanticBudgetPolicy → Result Drift (Unit {0})
unfolding check_rows check_totals check_unsealed
check_policy d p program none = check_unsealed program
check_policy d p program (some policy) = do
  require (is_text program.semantic_budget_policy_sha256 (d.policy p)) policy_sha
  ledger ← expect program.semantic_budget_allocations policy_sha
  scan ← check_rows d policy program p empty_scan ledger
  check_totals program p scan

unfoldable pub verify_frozen_graph : Digests → Packet → ProgramState → Result Drift (Unit {0})
unfolding check_policy
verify_frozen_graph d p program = do
  require (same program.checkpoint_graph_sha256 (d.graph p)) graph_sha
  check_policy d p program p.semantic_budget_policy
