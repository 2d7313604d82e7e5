-- ===== src/Owners/Counting.antt =====
-- What a funded repair and an operator's continuation do to the counters of a PROGRAM run.
use ownframework_loop.Prelude.{
  ◌+◌, ◌<◌, ◌≡◌, refl, inl, inr, String, Bool, Bool-cases, true, false, none, some, Result, ok, err,
  arith, Result-cases, Option-cases, subst,
}
use ownframework_loop.Packet.{Packet, CounterKind, repair_round_count}
use ownframework_loop.Transitions.{blocked, ready_to_build}
use ownframework_loop.Graph.Positions.{find_checkpoint}
use ownframework_loop.Run.{RunState, top_counter, bump_top}
use ownframework_loop.Program.{tally_of, bump_tally, ProgramState, ProgramError, Digests}
use ownframework_loop.Program.Refresh.{select_next_checkpoint}
use ownframework_loop.Budget.Bump.{bump_counter_one}
use ownframework_loop.Budget.Effect.{bump_counter_one-IsCounted}
use ownframework_loop.Claims.{same_state}
use ownframework_loop.Owners.Repair.{fund_final, fund_checkpoint, funding_of, with_evidence}
use ownframework_loop.Owners.Continue.{
  ContinueRequest, continued_document, fund_continuation, continue_blocked_program,
}

-- One repair counted on the block and on its mirror, below the ceiling.
pub record IsRepaired (program : ProgramState) (before after : RunState) : Type 0 where
  pub new : ProgramState
  pub document : after.program ≡ some new
  pub counted : new.counters ≡ bump_tally repair_round_count program.counters
  pub below :
      tally_of repair_round_count program.counters < tally_of repair_round_count program.ceilings
  pub ceilings_kept : new.ceilings ≡ program.ceilings
  pub mirrored :
      (j : CounterKind) → top_counter j after ≡ top_counter j (bump_top repair_round_count before)
  pub finalized_kept : new.finalized_checkpoints ≡ program.finalized_checkpoints
  pub scope_kept : new.review_scope ≡ program.review_scope

pub fund_final-IsRepaired :
    (program : ProgramState) (cur s : RunState)
    → fund_final program cur ≡ ok (some s)
    → IsRepaired program cur s
unfolding fund_final
fund_final-IsRepaired program cur s h =
    let below : tally_of repair_round_count program.counters
        < tally_of repair_round_count program.ceilings =
      ground arith in
    subst (IsRepaired program cur)
      {x = record cur {
        program =
            some (record program { counters = bump_tally repair_round_count program.counters });
        repair_round = cur.repair_round + 1;
      }}
      (ground arith)
      (record {
        new = _;
        document = refl;
        counted = refl;
        below = below;
        ceilings_kept = refl;
        mirrored = λ j. ground arith;
        finalized_kept = refl;
        scope_kept = refl;
      })

funding_of-some :
    (r : Result ProgramError ProgramState) (new : ProgramState)
    → funding_of r ≡ ok (some new)
    → r ≡ ok new
funding_of-some (ok program) new h = ground arith
funding_of-some (err e) new h = ground arith

pub fund_checkpoint-IsRepaired :
    (d : Digests) (p : Packet) (sha now : String) (program : ProgramState) (cur s : RunState)
    → fund_checkpoint d p sha now program cur ≡ ok (some s)
    → IsRepaired program cur s
unfolding fund_checkpoint with_evidence
fund_checkpoint-IsRepaired d p sha now program cur s h =
    elim (Option-cases (select_next_checkpoint program)) [
      | inl e ↦ ground arith
      | inr (cid, e) ↦ elim (Option-cases (find_checkpoint cid p.checkpoints)) [
        | inl f ↦ ground arith
        | inr (packet_cp, f) ↦
            elim (Result-cases (
              funding_of (
                bump_counter_one d program cid repair_round_count packet_cp (some p) (some cur)
                  cur.run_id now))) [
                    | inr (x, u) ↦ ground arith
                    | inl (none, u) ↦ ground arith
                    | inl (some new, u) ↦
                        let i =
                          bump_counter_one-IsCounted d program cid repair_round_count packet_cp
                            (some p) (some cur) cur.run_id now new (funding_of-some _ new u) in
                        subst (IsRepaired program cur)
                          {x = record cur {
                            program = some (with_evidence cid sha new);
                            repair_round = cur.repair_round + 1;
                          }}
                          (ground arith)
                          (record {
                            new = with_evidence cid sha new;
                            document = refl;
                            counted = i.counted;
                            below = i.below;
                            ceilings_kept = i.ceilings_kept;
                            mirrored = λ j. ground arith;
                            finalized_kept = i.graph_kept.same_finalized;
                            scope_kept = i.scope_kept;
                          })
                  ]
      ]
    ]

pub data ContinuationOutcome (program : ProgramState) (before after : RunState) (continued : Bool)
    : Type 0 where
  found_continued :
      continued ≡ false
      → before.state ≡ ready_to_build
      → after ≡ before
      → ContinuationOutcome program before after continued
  resumed :
      continued ≡ true
      → before.state ≡ blocked
      → after.state ≡ ready_to_build
      → after.last_candidate_sha ≡ before.last_candidate_sha
      → IsRepaired program before after
      → ContinuationOutcome program before after continued

fund_continuation-resumed :
    (d : Digests) (p : Packet) (r : ContinueRequest) (now cid : String) (program : ProgramState)
    (cur after : RunState) (continued : Bool)
    → fund_continuation d p r now cid program cur ≡ ok (after, continued)
    → ContinuationOutcome program cur after continued
unfolding fund_continuation continued_document
fund_continuation-resumed d p r now cid program cur after continued h =
    elim (Option-cases (find_checkpoint cid p.checkpoints)) [
      | inl f ↦ ground arith
      | inr (packet_cp, f) ↦
          elim (Result-cases
            (bump_counter_one d program cid repair_round_count packet_cp none none "" now)) [
              | inr (x, u) ↦ ground arith
              | inl (new, u) ↦
                  let i =
                    bump_counter_one-IsCounted d program cid repair_round_count packet_cp none none
                      "" now new u in
                  let written : continued_document r new now cur ≡ after = ground arith in
                  resumed (ground arith) (ground arith) (ground (arith, written))
                    (ground (arith, written))
                    (subst (IsRepaired program cur) written (record {
                      new = new;
                      document = refl;
                      counted = i.counted;
                      below = i.below;
                      ceilings_kept = i.ceilings_kept;
                      mirrored = λ j. ground arith;
                      finalized_kept = i.graph_kept.same_finalized;
                      scope_kept = i.scope_kept;
                    }))
            ]
    ]

-- A continuation that succeeds found the run READY_TO_BUILD already and left it alone, or took it from
-- BLOCKED to READY_TO_BUILD with the candidate kept and exactly one repair counted, below the ceiling,
-- on the block and on its mirror.
pub continue_blocked_program-outcome :
    (d : Digests) (p : Packet) (r : ContinueRequest) (now : String) (cur after : RunState)
    (continued : Bool)
    → continue_blocked_program d p r now cur ≡ ok (after, continued)
    → (program : ProgramState) × (cur.program ≡ some program)
      × ContinuationOutcome program cur after continued
unfolding continue_blocked_program
continue_blocked_program-outcome d p r now cur after continued h = elim (Option-cases cur.program) [
  | inl e ↦ ground arith
  | inr (program, e) ↦ elim (Option-cases (select_next_checkpoint program)) [
    | inl f ↦ ground arith
    | inr (cid, f) ↦ elim (Bool-cases (same_state cur.state ready_to_build)) [
      | inl s ↦ (program, e, found_continued (ground arith) (ground arith) (ground arith))
      | inr s ↦ (
        program,
        e,
        fund_continuation-resumed d p r now cid program cur after continued (ground arith),
      )
    ]
  ]
]
