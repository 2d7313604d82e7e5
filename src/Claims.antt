-- ===== src/Claims.antt =====
-- program.py, `_unified_claim_pass`: the one owner of PROGRAM pass claims. The run document is read
-- and written under the run's lock, so a claim is a function of the document that the lock shows; a
-- refusal writes nothing. The event that the write appends is not part of the model.
pub mod Mirror
pub mod Replay
use ownframework_loop.Prelude.{
  ℕ, ◌+◌, String, ltb, leb, ◌==◌, same, Bool, true, false, not, ◌&&◌, ◌||◌, Option, none, some,
  List, [], ◌∷◌, if◌then◌else◌, Result, ok, err, ◌>>=◌, ◌>>◌, require, refuse, expect, is_ok,
}
use ownframework_loop.Packet.{
  Packet, CounterKind, build_pass_count, review_pass_count, repair_round_count,
}
use ownframework_loop.Transitions.{
  State, State-discrete, ready_to_build, building, ready_for_review, reviewing, changes_requested,
}
use ownframework_loop.Graph.Positions.{find_checkpoint}
use ownframework_loop.Run.{RunState, top_counter, bump_top}
use ownframework_loop.Program.{
  tally_of, bump_tally, Evidence, CheckpointState, ReviewScope, checkpoint, program_final,
  ProgramState, ProgramError, key_error, not_program, graph_drift, mirror_drift,
  replay_without_claim, claim_phase, claim_cap_exhausted, no_claimable_checkpoint,
  unknown_checkpoint, not_in_packet, already_terminal, Digests, find_cp, update_cp,
}
use ownframework_loop.Program.Refresh.{select_next_checkpoint}
use ownframework_loop.Program.Finalize.{is_some}
use ownframework_loop.Budget.Bump.{bump_counter_one}
use ownframework_loop.Budget.Frozen.{verify_frozen_graph}

abbrev pub same_state : State → State → Bool
same_state a b = elim (State-discrete a b) [ yes p ↦ true | no p ↦ false ]

-- The state in which a claim of this kind is in flight.
abbrev pub replay_state : CounterKind → State
replay_state build_pass_count = building
replay_state review_pass_count = reviewing
replay_state repair_round_count = changes_requested

-- `cur_state in allowed_new_states[counter]`
abbrev pub claimable_from : CounterKind → State → Bool
claimable_from build_pass_count ready_to_build = true
claimable_from build_pass_count changes_requested = true
claimable_from review_pass_count ready_for_review = true
claimable_from repair_round_count changes_requested = true
claimable_from _ _ = false

-- `(cur_state, replay_states[counter]) in _CLAIM_OWNER_EDGES`
abbrev owner_edge : State → State → Bool
owner_edge ready_to_build building = true
owner_edge changes_requested building = true
owner_edge ready_for_review reviewing = true
owner_edge changes_requested changes_requested = true
owner_edge _ _ = false

abbrev pub is_final_scope : Option ReviewScope → Bool
is_final_scope (some program_final) = true
is_final_scope _ = false

abbrev pub evidence_of : CounterKind → Evidence → Option String
evidence_of build_pass_count e = e.build_sha
evidence_of review_pass_count e = e.review_sha
evidence_of repair_round_count e = e.repair_sha

abbrev set_evidence : CounterKind → String → Evidence → Evidence
set_evidence build_pass_count sha e = record e { build_sha = some sha }
set_evidence review_pass_count sha e = record e { review_sha = some sha }
set_evidence repair_round_count sha e = record e { repair_sha = some sha }

-- `a is not None and a == b`
abbrev same_evidence : Option String → Option String → Bool
same_evidence (some a) (some b) = same a b
same_evidence _ _ = false

abbrev pub is_review : CounterKind → Bool
is_review review_pass_count = true
is_review _ = false

abbrev pub is_build : CounterKind → Bool
is_build build_pass_count = true
is_build _ = false

unfoldable pub local_pass : CounterKind → Option CheckpointState → ℕ
local_pass k none = 0
local_pass k (some cp) = tally_of k cp.counts

unfoldable pub local_evidence : CounterKind → Option CheckpointState → Option String
local_evidence k none = none
local_evidence k (some cp) = evidence_of k cp.last_evidence

-- A pass that is in flight already: replayed, or refused if nothing shows its claim.
unfoldable pub in_flight :
    CounterKind → ProgramState → Option CheckpointState → Result ProgramError Bool
unfolding local_pass
in_flight k program cp =
    if is_review k && is_final_scope program.review_scope && leb 1 (tally_of k program.counters)
    then ok true
    else do
      refuse (ltb (local_pass k cp) 1) replay_without_claim
      refuse (ltb (tally_of k program.counters) 1) replay_without_claim
      ok true

unfoldable pub is_replay :
    CounterKind
    → State
    → ProgramState
    → Option CheckpointState
    → Option String
    → Result ProgramError Bool
unfolding in_flight local_evidence local_pass
is_replay repair_round_count state program cp sha = ok (
    ltb 0 (local_pass repair_round_count cp)
    && same_evidence sha (local_evidence repair_round_count cp))
is_replay k state program cp sha =
    if same_state state (replay_state k) then in_flight k program cp else ok false

unfoldable pub current_cp : ProgramState → Option String → Option CheckpointState
current_cp program none = none
current_cp program (some c) = find_cp c program.checkpoints

-- The answer of a claim: the checkpoint (none for the whole product), and whether it was a replay.
pub record Claim : Type 0 where
  pub cp_id : Option String
  pub claimed_pass_number : ℕ
  pub cumulative : ℕ
  pub replayed : Bool

-- The document that a claim writes.
unfoldable pub claimed_document : CounterKind → String → ProgramState → RunState → RunState
claimed_document k now program cur = record (bump_top k cur) {
  program = some program;
  updated_at = now;
  last_actor = "of-loop-claim";
  state = replay_state k;
}

-- A whole-product pass: counted on the PROGRAM alone.
unfoldable pub claim_final :
    CounterKind → ProgramState → RunState → String → Result ProgramError (RunState × Claim)
unfolding claimed_document
claim_final k program cur now = do
  refuse (leb (tally_of k program.ceilings) (tally_of k program.counters)) claim_cap_exhausted
  ok (
    claimed_document k now (record program { counters = bump_tally k program.counters }) cur,
    record {
      cp_id = none;
      claimed_pass_number = top_counter k cur + 1;
      cumulative = tally_of k program.counters + 1;
      replayed = false;
    },
  )

-- `except ProgramStateError`: a KeyError passes through.
abbrev as_cap : Result ProgramError ProgramState → Result ProgramError ProgramState
as_cap (ok program) = ok program
as_cap (err key_error) = err key_error
as_cap (err e) = err claim_cap_exhausted

unfoldable pub record_evidence : CounterKind → String → Option String → ProgramState → ProgramState
record_evidence k cid none program = program
record_evidence k cid (some sha) program = record program {
  checkpoints =
      update_cp cid (λ cp. record cp { last_evidence = set_evidence k sha cp.last_evidence })
        program.checkpoints;
}

-- A pass of the current checkpoint.
unfoldable pub claim_checkpoint :
    Digests
    → Packet
    → CounterKind
    → Option String
    → ProgramState
    → RunState
    → String
    → Result ProgramError (RunState × Claim)
unfolding claimed_document record_evidence
claim_checkpoint d p k sha program cur now = do
  cid ← expect (select_next_checkpoint program) no_claimable_checkpoint
  packet_cp ← expect (find_checkpoint cid p.checkpoints) not_in_packet
  cp ← expect (find_cp cid program.checkpoints) unknown_checkpoint
  refuse (is_some cp.terminal) already_terminal
  new ← as_cap (bump_counter_one d program cid k packet_cp (some p) (some cur) cur.run_id now)
  ok (
    claimed_document k now (record_evidence k cid sha new) cur,
    record {
      cp_id = some cid;
      claimed_pass_number = top_counter k cur + 1;
      cumulative = tally_of k new.counters;
      replayed = false;
    },
  )

-- A new claim, in a state that allows it.
unfoldable pub claim_new :
    Digests
    → Packet
    → CounterKind
    → Option String
    → ProgramState
    → RunState
    → String
    → Result ProgramError (RunState × Claim)
claim_new d p k sha program cur now = do
  require (claimable_from k cur.state) claim_phase
  require
      (owner_edge cur.state (replay_state k)
        || (is_review k && is_final_scope program.review_scope))
      claim_phase
  if is_final_scope program.review_scope
        && (is_review k || (is_build k && same_state cur.state changes_requested))
      then claim_final k program cur now
      else claim_checkpoint d p k sha program cur now

unfoldable pub unified_claim_pass :
    Digests
    → Packet
    → CounterKind
    → Option String
    → String
    → RunState
    → Result ProgramError (RunState × Claim)
unfolding current_cp
unified_claim_pass d p k sha now cur = do
  require cur.is_program_schema not_program
  program ← expect cur.program not_program
  require (is_ok (verify_frozen_graph d p program)) graph_drift
  require (top_counter k cur == tally_of k program.counters) mirror_drift
  replay ← is_replay k cur.state program (current_cp program (select_next_checkpoint program)) sha
  if replay
      then ok (
        cur,
        record {
          cp_id = select_next_checkpoint program;
          claimed_pass_number = top_counter k cur;
          cumulative = tally_of k program.counters;
          replayed = true;
        },
      )
      else claim_new d p k sha program cur now

unfoldable pub claim_build_pass :
    Digests → Packet → String → RunState → Result ProgramError (RunState × Claim)
unfolding unified_claim_pass
claim_build_pass d p now cur = unified_claim_pass d p build_pass_count none now cur

unfoldable pub claim_review_pass :
    Digests → Packet → String → RunState → Result ProgramError (RunState × Claim)
unfolding unified_claim_pass
claim_review_pass d p now cur = unified_claim_pass d p review_pass_count none now cur
