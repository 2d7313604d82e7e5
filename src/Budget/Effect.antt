-- ===== src/Budget/Effect.antt =====
-- What a counted claim changes.
use ownframework_loop.Prelude.{
  ◌+◌, ◌<◌, ◌≡◌, refl, inl, inr, String, same, same_refl, same→eq, leb, Bool-cases, false, Option,
  none, some, List, [], ◌∷◌, ok, arith, Result-cases, Option-cases, ap, sym, subst, ◌∙◌,
  if◌then◌else◌,
}
use ownframework_loop.Packet.{Packet, Checkpoint, CounterKind}
use ownframework_loop.Run.{RunState}
use ownframework_loop.Program.{
  tally_of, bump_tally, CheckpointState, ProgramState, Digests, find_cp, update_cp,
}
use ownframework_loop.Program.Engine.{SameGraph}
use ownframework_loop.Budget.{allocations_of, borrowed_by}
use ownframework_loop.Budget.Bump.{required_cap, bump_counter_one, borrow_claim, count_claim}
use ownframework_loop.Budget.Agreement.{borrow_claim-counters}

-- The update reaches the entry that `find_cp` reads, and no other.
pub find_cp-update_cp :
    (c x : String) (f : CheckpointState → CheckpointState) (cps : List CheckpointState)
    → ((cp : CheckpointState) → (f cp).id ≡ cp.id)
    → find_cp x (update_cp c f cps) ≡ (
        if same c x
        then elim (find_cp x cps) [ none ↦ none | some cp ↦ some (f cp) ]
        else find_cp x cps)
unfolding find_cp update_cp
find_cp-update_cp c x f [] keeps = ground arith
find_cp-update_cp c x f (cp ∷ cps) keeps =
    ground (arith, find_cp-update_cp c x f cps keeps, keeps cp, same→eq c x)

-- The claim counts one on the PROGRAM, below its ceiling, and one on the checkpoint; nothing else
-- changes but the ledger.
pub record IsCounted (cid : String) (k : CounterKind) (before after : ProgramState) : Type 0 where
  pub counted : after.counters ≡ bump_tally k before.counters
  pub below : tally_of k before.counters < tally_of k before.ceilings
  pub ceilings_kept : after.ceilings ≡ before.ceilings
  pub graph_kept : SameGraph before after
  pub scope_kept : after.review_scope ≡ before.review_scope
  pub state : CheckpointState
  pub found : find_cp cid before.checkpoints ≡ some state
  pub local_counted :
      find_cp cid after.checkpoints ≡ some (record state { counts = bump_tally k state.counts })
  pub others_kept :
      (x : String) → same cid x ≡ false → find_cp x after.checkpoints ≡ find_cp x before.checkpoints

-- The same graph fields, counters and ceilings: what borrowing leaves alone.
record SameCounts (before after : ProgramState) : Type 0 where
  counters_same : after.counters ≡ before.counters
  checkpoints_same : after.checkpoints ≡ before.checkpoints
  ceilings_same : after.ceilings ≡ before.ceilings
  graph_same : SameGraph before after
  scope_same : after.review_scope ≡ before.review_scope

count_claim-IsCounted :
    (cid : String) (k : CounterKind) (program new : ProgramState) (cp : CheckpointState)
    → SameCounts program new
    → find_cp cid program.checkpoints ≡ some cp
    → tally_of k program.counters < tally_of k program.ceilings
    → IsCounted cid k program (count_claim cid k new)
unfolding count_claim
count_claim-IsCounted cid k program new cp s found below = record {
  counted = ap (bump_tally k) s.counters_same;
  below = below;
  ceilings_kept = s.ceilings_same;
  graph_kept = record {
    same_current = s.graph_same.same_current;
    same_finalized = s.graph_same.same_finalized;
  };
  scope_kept = s.scope_same;
  state = cp;
  found = found;
  local_counted =
      find_cp-update_cp cid cid (λ c. record c { counts = bump_tally k c.counts }) new.checkpoints
        (λ c. refl)
      ∙ ground (arith, same_refl cid, ap (find_cp cid) s.checkpoints_same);
  others_kept = λ x other.
      find_cp-update_cp cid x (λ c. record c { counts = bump_tally k c.counts }) new.checkpoints
        (λ c. refl)
      ∙ ground (arith, other, ap (find_cp x) s.checkpoints_same);
}

borrow-SameCounts :
    (d : Digests) (program : ProgramState) (cid : String) (k : CounterKind) (packet : Option Packet)
    (state_doc : Option RunState) (run_id now : String) (new : ProgramState)
    → borrow_claim d program cid k packet state_doc run_id now ≡ ok new
    → SameCounts program new
borrow-SameCounts d program cid k packet state_doc run_id now new e =
    let (counters, checkpoints, ceilings, current, finalized, scope) =
      borrow_claim-counters d program cid k packet state_doc run_id now e in
    record {
      counters_same = counters;
      checkpoints_same = checkpoints;
      ceilings_same = ceilings;
      graph_same = record { same_current = current; same_finalized = finalized };
      scope_same = scope;
    }

SameCounts-refl : (program : ProgramState) → SameCounts program program
SameCounts-refl program = record {
  counters_same = refl;
  checkpoints_same = refl;
  ceilings_same = refl;
  graph_same = record { same_current = refl; same_finalized = refl };
  scope_same = refl;
}

-- The block behind a successful claim before the count.
bump_inversion :
    (d : Digests) (program : ProgramState) (cid : String) (k : CounterKind) (packet_cp : Checkpoint)
    (packet : Option Packet) (state_doc : Option RunState) (run_id now : String)
    (new : ProgramState)
    → bump_counter_one d program cid k packet_cp packet state_doc run_id now ≡ ok new
    → (mid : ProgramState) × (cp : CheckpointState) × SameCounts program mid
      × (find_cp cid program.checkpoints ≡ some cp)
      × (tally_of k program.counters < tally_of k program.ceilings)
      × (new ≡ count_claim cid k mid)
unfolding bump_counter_one
bump_inversion d program cid k packet_cp packet state_doc run_id now new h =
    elim (Option-cases (required_cap k packet_cp)) [
      | inl undeclared ↦ ground arith
      | inr (cap, declared) ↦ elim (Option-cases (find_cp cid program.checkpoints)) [
        | inl unknown ↦ ground arith
        | inr (cp, found) ↦
            elim (Bool-cases
              (leb (cap + borrowed_by cid k (allocations_of program)) (tally_of k cp.counts))) [
                | inr room ↦
                    (program, cp, SameCounts-refl program, found, ground arith, ground arith)
                | inl full ↦
                    elim (Result-cases (borrow_claim d program cid k packet state_doc run_id now)) [
                      | inr (x, e) ↦ ground arith
                      | inl (mid, e) ↦
                          let s =
                            borrow-SameCounts d program cid k packet state_doc run_id now mid e in
                          (
                            mid,
                            cp,
                            s,
                            found,
                            ground (arith, s.counters_same, s.ceilings_same),
                            ground arith,
                          )
                    ]
              ]
      ]
    ]

-- A claim that is granted is counted once on its checkpoint and once on the PROGRAM, below the ceiling
-- of its counter; every other checkpoint, the ceilings, the review scope and the graph's progress
-- stay as they were.
pub bump_counter_one-IsCounted :
    (d : Digests) (program : ProgramState) (cid : String) (k : CounterKind) (packet_cp : Checkpoint)
    (packet : Option Packet) (state_doc : Option RunState) (run_id now : String)
    (new : ProgramState)
    → bump_counter_one d program cid k packet_cp packet state_doc run_id now ≡ ok new
    → IsCounted cid k program new
bump_counter_one-IsCounted d program cid k packet_cp packet state_doc run_id now new h =
    let (mid, cp, s, found, below, e) =
      bump_inversion d program cid k packet_cp packet state_doc run_id now new h in
    subst (IsCounted cid k program) (sym e)
      (count_claim-IsCounted cid k program mid cp s found below)
