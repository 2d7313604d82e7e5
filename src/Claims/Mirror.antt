-- ===== src/Claims/Mirror.antt =====
-- What a PROGRAM claim does to the counters: the one of the PROGRAM block and its top-level mirror.
use ownframework_loop.Prelude.{
  ◌+◌, ◌<◌, ◌≡◌, refl, inl, inr, String, Bool-cases, true, false, Option, none, some, Result, ok,
  err, arith, Result-cases, Option-cases, sym, subst, ◌∙◌, ◌||◌, ◌&&◌,
}
use ownframework_loop.Packet.{Checkpoint, Packet, CounterKind}
use ownframework_loop.Transitions.{changes_requested}
use ownframework_loop.Graph.Positions.{find_checkpoint}
use ownframework_loop.Run.{RunState, top_counter, bump_top}
use ownframework_loop.Program.{tally_of, bump_tally, ProgramState, ProgramError, Digests, find_cp}
use ownframework_loop.Program.Refresh.{select_next_checkpoint}
use ownframework_loop.Budget.Bump.{bump_counter_one}
use ownframework_loop.Budget.Effect.{bump_counter_one-IsCounted}
use ownframework_loop.Claims.{
  same_state, replay_state, claimable_from, is_final_scope, is_review, is_build, is_replay,
  current_cp, Claim, as_cap, record_evidence, claimed_document, claim_final, claim_checkpoint,
  claim_new, unified_claim_pass,
}

-- A pass that is counted once on the block and once on its mirror, below the ceiling.
pub record IsClaimed (k : CounterKind) (before after : RunState) (program : ProgramState)
    : Type 0 where
  pub new : ProgramState
  pub document : after.program ≡ some new
  pub counted : new.counters ≡ bump_tally k program.counters
  pub below : tally_of k program.counters < tally_of k program.ceilings
  pub ceilings_kept : new.ceilings ≡ program.ceilings
  pub mirrored : (j : CounterKind) → top_counter j after ≡ top_counter j (bump_top k before)
  pub in_flight : after.state ≡ replay_state k
  pub finalized_kept : new.finalized_checkpoints ≡ program.finalized_checkpoints
  pub scope_kept : new.review_scope ≡ program.review_scope

claimed_document-top :
    (k j : CounterKind) (now : String) (new : ProgramState) (cur : RunState)
    → top_counter j (claimed_document k now new cur) ≡ top_counter j (bump_top k cur)
unfolding claimed_document
claimed_document-top k j now new cur = ground arith

claimed_document-program :
    (k : CounterKind) (now : String) (new : ProgramState) (cur : RunState)
    → (claimed_document k now new cur).program ≡ some new
unfolding claimed_document
claimed_document-program k now new cur = refl

claimed_document-state :
    (k : CounterKind) (now : String) (new : ProgramState) (cur : RunState)
    → (claimed_document k now new cur).state ≡ replay_state k
unfolding claimed_document
claimed_document-state k now new cur = refl

claimed_document-IsClaimed :
    (k : CounterKind) (now : String) (program new : ProgramState) (cur : RunState)
    → new.counters ≡ bump_tally k program.counters
    → tally_of k program.counters < tally_of k program.ceilings
    → new.ceilings ≡ program.ceilings
    → new.finalized_checkpoints ≡ program.finalized_checkpoints
    → new.review_scope ≡ program.review_scope
    → IsClaimed k cur (claimed_document k now new cur) program
claimed_document-IsClaimed k now program new cur counted below ceilings finalized scope = record {
  new = new;
  document = claimed_document-program k now new cur;
  counted = counted;
  below = below;
  ceilings_kept = ceilings;
  mirrored = λ j. claimed_document-top k j now new cur;
  in_flight = claimed_document-state k now new cur;
  finalized_kept = finalized;
  scope_kept = scope;
}

claim_final-IsClaimed :
    (k : CounterKind) (program : ProgramState) (cur after : RunState) (now : String) (c : Claim)
    → claim_final k program cur now ≡ ok (after, c)
    → IsClaimed k cur after program × (c.replayed ≡ false)
unfolding claim_final
claim_final-IsClaimed k program cur after now c h =
    let below : tally_of k program.counters < tally_of k program.ceilings = ground arith in
    let new = record program { counters = bump_tally k program.counters } in
    let written : claimed_document k now new cur ≡ after = ground arith in
    (
      subst (λ s. IsClaimed k cur s program) written
          (claimed_document-IsClaimed k now program new cur refl below refl refl refl),
      ground arith,
    )

as_cap-ok :
    (r : Result ProgramError ProgramState) (new : ProgramState) → as_cap r ≡ ok new → r ≡ ok new
as_cap-ok (ok program) new h = h
as_cap-ok (err e) new h = ground arith

record_evidence-keeps :
    (k : CounterKind) (cid : String) (sha : Option String) (program : ProgramState)
    → ((record_evidence k cid sha program).counters ≡ program.counters)
      × ((record_evidence k cid sha program).ceilings ≡ program.ceilings)
      × ((record_evidence k cid sha program).finalized_checkpoints ≡ program.finalized_checkpoints)
      × ((record_evidence k cid sha program).review_scope ≡ program.review_scope)
unfolding record_evidence
record_evidence-keeps k cid none program = (refl, refl, refl, refl)
record_evidence-keeps k cid (some s) program = (refl, refl, refl, refl)

-- A claim of a checkpoint comes from a counted one.
pub claim_checkpoint-inversion :
    (d : Digests) (p : Packet) (k : CounterKind) (sha : Option String) (program : ProgramState)
    (cur after : RunState) (now : String) (c : Claim)
    → claim_checkpoint d p k sha program cur now ≡ ok (after, c)
    → (cid : String) × (new : ProgramState) × ((packet_cp : Checkpoint) × (bump_counter_one d
            program cid k packet_cp
            (some p)
            (some cur)
            cur.run_id
            now
          ≡ ok new))
      × (after ≡ claimed_document k now (record_evidence k cid sha new) cur)
      × (c.replayed ≡ false)
      × (select_next_checkpoint program ≡ some cid)
      × (c.cp_id ≡ some cid)
      × (c.claimed_pass_number ≡ top_counter k cur + 1)
unfolding claim_checkpoint
claim_checkpoint-inversion d p k sha program cur after now c h =
    elim (Option-cases (select_next_checkpoint program)) [
      | inl e ↦ ground arith
      | inr (cid, e) ↦ elim (Option-cases (find_checkpoint cid p.checkpoints)) [
        | inl f ↦ ground arith
        | inr (packet_cp, f) ↦ elim (Option-cases (find_cp cid program.checkpoints)) [
          | inl g ↦ ground arith
          | inr (cp, g) ↦
              elim (Result-cases (
                as_cap (
                  bump_counter_one d program cid k packet_cp (some p) (some cur) cur.run_id now))) [
                    | inr (x, u) ↦ ground arith
                    | inl (new, u) ↦ (
                      cid,
                      new,
                      (packet_cp, as_cap-ok _ new u),
                      ground arith,
                      ground arith,
                      e,
                      ground arith,
                      ground arith,
                    )
                  ]
        ]
      ]
    ]

claim_checkpoint-IsClaimed :
    (d : Digests) (p : Packet) (k : CounterKind) (sha : Option String) (program : ProgramState)
    (cur after : RunState) (now : String) (c : Claim)
    → claim_checkpoint d p k sha program cur now ≡ ok (after, c)
    → IsClaimed k cur after program × (c.replayed ≡ false)
claim_checkpoint-IsClaimed d p k sha program cur after now c h =
    let (cid, new, (packet_cp, bumped), written, not_replayed, current, named, numbered) =
      claim_checkpoint-inversion d p k sha program cur after now c h in
    let i =
      bump_counter_one-IsCounted d program cid k packet_cp (some p) (some cur) cur.run_id now new
        bumped in
    let (counters, ceilings, finalized, scope) = record_evidence-keeps k cid sha new in
    (
      subst (λ s. IsClaimed k cur s program) (sym written)
          (claimed_document-IsClaimed k now program (record_evidence k cid sha new) cur
            (counters ∙ i.counted) i.below (ceilings ∙ i.ceilings_kept)
            (finalized ∙ i.graph_kept.same_finalized) (scope ∙ i.scope_kept)),
      not_replayed,
    )

claim_new-IsClaimed :
    (d : Digests) (p : Packet) (k : CounterKind) (sha : Option String) (program : ProgramState)
    (cur after : RunState) (now : String) (c : Claim)
    → claim_new d p k sha program cur now ≡ ok (after, c)
    → IsClaimed k cur after program × (c.replayed ≡ false) × (claimable_from k cur.state ≡ true)
unfolding claim_new
claim_new-IsClaimed d p k sha program cur after now c h =
    let from : claimable_from k cur.state ≡ true = ground arith in
    elim (Bool-cases (
      is_final_scope program.review_scope
      && (is_review k || (is_build k && same_state cur.state changes_requested)))) [
        | inl e ↦
            let (i, fresh) = claim_final-IsClaimed k program cur after now c (ground arith) in
            (i, fresh, from)
        | inr e ↦
            let (i, fresh) =
              claim_checkpoint-IsClaimed d p k sha program cur after now c (ground arith) in
            (i, fresh, from)
      ]

-- What a successful claim did: it replayed a pass in flight, or it counted a new one.
pub data ClaimEffect (k : CounterKind) (before after : RunState) (program : ProgramState)
    (c : Claim) : Type 0 where
  replay : c.replayed ≡ true → after ≡ before → ClaimEffect k before after program c
  fresh :
      c.replayed ≡ false
      → claimable_from k before.state ≡ true
      → IsClaimed k before after program
      → ClaimEffect k before after program c

-- A successful claim either replays a pass in flight and writes nothing, or starts from a phase that
-- allows it, counts one pass below its ceiling on the block and on the top-level mirror alike, and
-- leaves every other counter, the ceilings and the graph's progress as they were. In both cases the
-- mirror of its counter agreed with the block before.
pub unified_claim_pass-effect :
    (d : Digests) (p : Packet) (k : CounterKind) (sha : Option String) (now : String)
    (cur after : RunState) (c : Claim)
    → unified_claim_pass d p k sha now cur ≡ ok (after, c)
    → (program : ProgramState) × (cur.program ≡ some program)
      × (top_counter k cur ≡ tally_of k program.counters)
      × ClaimEffect k cur after program c
unfolding unified_claim_pass
unified_claim_pass-effect d p k sha now cur after c h = elim (Option-cases cur.program) [
  | inl e ↦ ground arith
  | inr (program, e) ↦
      let mirror : top_counter k cur ≡ tally_of k program.counters = ground arith in
      elim (Result-cases
        (is_replay k cur.state program (current_cp program (select_next_checkpoint program)) sha)) [
          | inr (x, r) ↦ ground arith
          | inl (true, r) ↦ (program, e, mirror, replay (ground arith) (ground arith))
          | inl (false, r) ↦
              let (i, new, from) =
                claim_new-IsClaimed d p k sha program cur after now c (ground arith) in
              (program, e, mirror, fresh new from i)
        ]
]
