-- ===== src/Claims/Replay.antt =====
-- Claiming again while a pass is in flight: the retry of a caller that lost the first answer.
use ownframework_loop.Prelude.{
  ◌+◌, ◌≤◌, ◌≡◌, ◌≢◌, refl, String, true, false, Option, none, some, [], ok, arith, ap, sym, subst,
  ◌∙◌, is_ok,
}
use ownframework_loop.Packet.{
  Packet, CounterKind, build_pass_count, review_pass_count, repair_round_count,
}
use ownframework_loop.Transitions.{building, changes_requested}
use ownframework_loop.Run.{RunState, top_counter}
use ownframework_loop.Program.{
  tally_of, bump_tally, CheckpointState, ProgramState, Digests, find_cp,
}
use ownframework_loop.Program.Refresh.{select_next_checkpoint}
use ownframework_loop.Budget.Frozen.{verify_frozen_graph}
use ownframework_loop.Budget.Effect.{bump_counter_one-IsCounted}
use ownframework_loop.Claims.{
  replay_state, claimable_from, is_final_scope, is_replay, current_cp, in_flight, local_pass, Claim,
  claimed_document, claim_new, claim_final, claim_checkpoint, unified_claim_pass, record_evidence,
}
use ownframework_loop.Claims.Mirror.{
  replay, fresh, unified_claim_pass-effect, claim_checkpoint-inversion,
}

-- A pass in flight is not a phase that claims start from.
in_flight-not_claimable :
    (k : CounterKind) → k ≢ repair_round_count → claimable_from k (replay_state k) ≡ false
in_flight-not_claimable build_pass_count h = refl
in_flight-not_claimable review_pass_count h = refl
in_flight-not_claimable repair_round_count h = absurd (h refl)

-- While a build or a review is in flight, no claim of it counts a second pass: a claim that succeeds
-- returns the document unchanged, as a replay.
pub claim_in_flight-counts_once :
    (d : Digests) (p : Packet) (k : CounterKind) (sha : Option String) (now : String)
    (cur after : RunState) (c : Claim)
    → k ≢ repair_round_count
    → cur.state ≡ replay_state k
    → unified_claim_pass d p k sha now cur ≡ ok (after, c)
    → (after ≡ cur) × (c.replayed ≡ true)
claim_in_flight-counts_once d p k sha now cur after c pass in_state h =
    let (program, e, mirror, effect) = unified_claim_pass-effect d p k sha now cur after c h in
    elim effect [
      | replay flag same ↦ (same, flag)
      | fresh flag from i ↦
          let closed = in_flight-not_claimable k pass in
          absurd (ground (arith, subst (λ s. claimable_from k s ≡ true) in_state from))
    ]

-- The retry of a build in flight whose checkpoint shows no claim.
retry_refused :
    (d : Digests) (p : Packet) (now : String) (cur : RunState) (program : ProgramState)
    → cur.program ≡ some program
    → cur.state ≡ building
    → program.current_checkpoints ≡ []
    → is_ok (unified_claim_pass d p build_pass_count none now cur) ≡ false
unfolding unified_claim_pass is_replay in_flight local_pass current_cp
retry_refused d p now cur program e in_state current = ground arith

-- The build that the whole-product review asked for cannot be retried: once its claim is written, no
-- claim of it succeeds, since the replay asks for a checkpoint that owns the pass and the
-- whole-product scope has none.
pub final_build-retry_refused :
    (d : Digests) (p : Packet) (now later : String) (program : ProgramState) (cur after : RunState)
    (c : Claim)
    → cur.state ≡ changes_requested
    → is_final_scope program.review_scope ≡ true
    → program.current_checkpoints ≡ []
    → claim_new d p build_pass_count none program cur now ≡ ok (after, c)
    → is_ok (unified_claim_pass d p build_pass_count none later after) ≡ false
unfolding claim_new claim_final claimed_document
final_build-retry_refused d p now later program cur after c from final current h =
    retry_refused d p later after
      (record program { counters = bump_tally build_pass_count program.counters }) (ground arith)
      (ground arith) current

-- A pass in flight that its checkpoint and the PROGRAM both count.
replay_granted :
    (d : Digests) (p : Packet) (k : CounterKind) (now : String) (cur : RunState)
    (program : ProgramState) (cid : String) (cp : CheckpointState)
    → k ≢ repair_round_count
    → cur.is_program_schema ≡ true
    → cur.program ≡ some program
    → cur.state ≡ replay_state k
    → is_ok (verify_frozen_graph d p program) ≡ true
    → top_counter k cur ≡ tally_of k program.counters
    → select_next_checkpoint program ≡ some cid
    → find_cp cid program.checkpoints ≡ some cp
    → 1 ≤ tally_of k cp.counts
    → 1 ≤ tally_of k program.counters
    → unified_claim_pass d p k none now cur
      ≡ ok (
        cur,
        record {
          cp_id = some cid;
          claimed_pass_number = top_counter k cur;
          cumulative = tally_of k program.counters;
          replayed = true;
        },
      )
unfolding unified_claim_pass is_replay in_flight local_pass current_cp
replay_granted d p build_pass_count now cur program cid cp h s e i v m n f l t = ground arith
replay_granted d p review_pass_count now cur program cid cp h s e i v m n f l t = ground arith
replay_granted d p repair_round_count now cur program cid cp h s e i v m n f l t = absurd (h refl)

-- A build or review of a checkpoint whose claim was written is granted again, without counting it
-- again, for as long as the block that the claim left still agrees with the packet: the retry gets the
-- same checkpoint and the same pass number.
pub checkpoint_claim-retry_granted :
    (d : Digests) (p : Packet) (k : CounterKind) (now later : String) (program new : ProgramState)
    (cur after : RunState) (c : Claim)
    → k ≢ repair_round_count
    → cur.is_program_schema ≡ true
    → top_counter k cur ≡ tally_of k program.counters
    → claim_checkpoint d p k none program cur now ≡ ok (after, c)
    → after.program ≡ some new
    → is_ok (verify_frozen_graph d p new) ≡ true
    → (again : Claim) × (unified_claim_pass d p k none later after ≡ ok (after, again))
      × (again.replayed ≡ true)
      × (again.cp_id ≡ c.cp_id)
      × (again.claimed_pass_number ≡ c.claimed_pass_number)
unfolding claimed_document record_evidence
checkpoint_claim-retry_granted d p k now later program new cur after c pass schema mirror h doc
      intact =
    let (cid, counted, (packet_cp, bumped), written, not_replayed, current, named, numbered) =
      claim_checkpoint-inversion d p k none program cur after now c h in
    let i =
      bump_counter_one-IsCounted d program cid k packet_cp (some p) (some cur) cur.run_id now
        counted bumped in
    let block : new ≡ counted = ground (arith, doc, written) in
    let tops : top_counter k after ≡ top_counter k cur + 1 = ground (arith, written) in
    let total : tally_of k new.counters ≡ tally_of k program.counters + 1 =
      ground (arith, block, i.counted) in
    (
      record {
        cp_id = some cid;
        claimed_pass_number = top_counter k after;
        cumulative = tally_of k new.counters;
        replayed = true;
      },
      replay_granted d p k later after new cid
          (record i.state { counts = bump_tally k i.state.counts }) pass
          (ground (arith, written, schema)) doc (ground (arith, written)) intact
          (tops ∙ ap (λ n. n + 1) mirror ∙ sym total)
          (ap select_next_checkpoint block ∙ ground (arith, i.graph_kept.same_current, current))
          (ap (λ s. find_cp cid s.checkpoints) block ∙ i.local_counted) (ground arith)
          (ground arith),
      refl,
      sym named,
      tops ∙ sym numbered,
    )
