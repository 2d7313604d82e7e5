-- ===== src/Owners/Runs.antt =====
-- The invariant of a PROGRAM run along the steps of Owners/Invariant, and what it gives the last approval.
use ownframework_loop.Prelude.{
  ◌≡◌, refl, String, Bool, true, Option, some, ok, arith, ap, sym, subst, ◌∙◌, get_or,
}
use ownframework_loop.Packet.{Packet, CounterKind, repair_round_count}
use ownframework_loop.Transitions.{State, approved, reviewing}
use ownframework_loop.Run.{RunState, Reason}
use ownframework_loop.Program.{ProgramState, Digests}
use ownframework_loop.Claims.{is_final_scope, Claim, unified_claim_pass}
use ownframework_loop.Claims.Mirror.{unified_claim_pass-effect, replay, fresh}
use ownframework_loop.Owners.Repair.{RepairRequest, transition_funded_repair}
use ownframework_loop.Owners.Continue.{ContinueRequest, continue_blocked_program}
use ownframework_loop.Owners.Review.{
  advance_after_review_approval, terminalize_program_after_final_review,
}
use ownframework_loop.Owners.{prospective}
use ownframework_loop.Owners.Fsm.{OwnerFields, transition}
use ownframework_loop.Owners.Refusal.{seal_refused, seal_refused-kept}
use ownframework_loop.Owners.Whole.{IsWholeGraph}
use ownframework_loop.Owners.Approval.{
  terminalize-approved, program_transition-kept, transition-kept,
}
use ownframework_loop.Owners.Advance.{Routed, to_next, to_final, advance-routed}
use ownframework_loop.Owners.Counting.{found_continued, resumed, continue_blocked_program-outcome}
use ownframework_loop.Owners.Funding.{granted, exhausted, transition_funded_repair-outcome}
use ownframework_loop.Owners.Invariant.{
  IsSoundBlock, IsSound, IsRemeasured, unmeasured, measured, Step, claims, seals, advances,
  terminalizes, transitions, repairs, continues, moves, Steps, start, then, counted-IsSound,
  kept-IsSound,
}

-- The invariant, for the block that a step finds.
at_block :
    (p : Packet) (a : RunState) (program : ProgramState)
    → IsSound p a
    → a.program ≡ some program
    → IsSoundBlock p a program
at_block p a program (old, s) e = subst (IsSoundBlock p a) (ground (arith, s.document, e)) s

claim-IsSound :
    (d : Digests) (p : Packet) (a b : RunState) (k : CounterKind) (sha : Option String)
    (now : String) (c : Claim)
    → IsSound p a
    → unified_claim_pass d p k sha now a ≡ ok (b, c)
    → IsSound p b
claim-IsSound d p a b k sha now c s h =
    let (program, e, mirror, effect) = unified_claim_pass-effect d p k sha now a b c h in
    elim effect [
      | replay flag same ↦ subst (IsSound p) (sym same) s
      | fresh flag from i ↦
          counted-IsSound p k a b program i.new (at_block p a program s e) i.document i.counted
            i.below i.ceilings_kept i.mirrored i.finalized_kept i.scope_kept
    ]

-- The whole-product scope is stamped only with the whole graph finalized.
Routed-covers :
    (p : Packet) (sha : String) (new : ProgramState) (to : State)
    → Routed p sha new to
    → is_final_scope new.review_scope ≡ true
    → IsWholeGraph p.checkpoints new.finalized_checkpoints
Routed-covers p sha new _ (to_next next cp e scope f bound) final = absurd (ground (arith, scope))
Routed-covers p sha new _ (to_final e scope covers) final = covers

seal-IsSound :
    (p : Packet) (a b : RunState) (now : String)
    → IsSound p a
    → b ≡ seal_refused now a
    → IsSound p b
seal-IsSound p a b now (program, s) h =
    let (doc, tops) = seal_refused-kept now a in
    subst (IsSound p) (sym h) (
      kept-IsSound p a (seal_refused now a) program program s (doc ∙ s.document) refl refl tops
        s.final_covers)

advance-IsSound :
    (d : Digests) (p : Packet) (a b : RunState) (sha actor : String) (reason : Reason)
    (now evidence : String) (snapshot : RunState)
    → IsSound p a
    → a.program ≡ snapshot.program
    → advance_after_review_approval d p sha actor reason now evidence snapshot a ≡ ok b
    → IsSound p b
advance-IsSound d p a b sha actor why now evidence snapshot s same h =
    let (program, new, doc, reviewed, bound, i, k, m) =
      advance-routed d p sha actor why now evidence snapshot a b h in
    kept-IsSound p a b program new (at_block p a program s (same ∙ doc)) m.program_written
      i.counters_kept i.ceilings_kept m.tops_kept (Routed-covers p sha new b.state i.routed)

terminalize-IsSound :
    (d : Digests) (p : Packet) (a b : RunState) (sha actor now : String) (snapshot : RunState)
    → IsSound p a
    → a.program ≡ snapshot.program
    → terminalize_program_after_final_review d p sha actor now snapshot a ≡ ok b
    → IsSound p b
terminalize-IsSound d p a b sha actor now snapshot s same h =
    let (program, doc, reviewed, scope, bound, here, accepted, kept, m) =
      terminalize-approved d p sha actor now snapshot a b h in
    let at = at_block p a program s (same ∙ doc) in
    kept-IsSound p a b program program at m.program_written refl refl m.tops_kept at.final_covers

transition-IsSound :
    (p : Packet) (a b : RunState) (to : State) (actor : String) (reason : Reason) (sha : String)
    (fields : OwnerFields) (now : String) (block : Option ProgramState)
    → fields.program_block ≡ block
    → IsSound p a
    → IsRemeasured a block
    → get_or fields.build_pass_count a.build_pass_count ≡ a.build_pass_count
    → transition to actor reason sha fields now a ≡ ok b
    → IsSound p b
transition-IsSound p a b to actor why sha fields now _ at (program, s) unmeasured count h =
    let (doc, tops) = transition-kept to actor why sha fields now a b count h in
    kept-IsSound p a b program program s (doc ∙ ap (λ x. prospective x a.program) at ∙ s.document)
      refl refl tops s.final_covers
transition-IsSound p a b to actor why sha fields now _ at s (measured old files lines found) count
      h =
    let (doc, tops) = transition-kept to actor why sha fields now a b count h in
    let before = at_block p a old s found in
    kept-IsSound p a b old (record old { files_changed_unique = files; diff_lines_total = lines })
      before (doc ∙ ap (λ x. prospective x a.program) at) refl refl tops before.final_covers

repair-IsSound :
    (d : Digests) (p : Packet) (a b : RunState) (r : RepairRequest) (now : String)
    → IsSound p a
    → transition_funded_repair d p r now a ≡ ok b
    → IsSound p b
repair-IsSound d p a b r now (program, s) h =
    elim (transition_funded_repair-outcome d p r now a b program s.document h) [
      | granted state i ↦
          counted-IsSound p repair_round_count a b program i.new s i.document i.counted i.below
            i.ceilings_kept i.mirrored i.finalized_kept i.scope_kept
      | exhausted state cause new doc counters ceilings finalized scope tops ↦
          kept-IsSound p a b program new s doc counters ceilings tops (λ f.
            subst (λ fs. IsWholeGraph p.checkpoints fs) (sym finalized)
              (s.final_covers (sym (ap is_final_scope scope) ∙ f)))
    ]

continue-IsSound :
    (d : Digests) (p : Packet) (a b : RunState) (r : ContinueRequest) (now : String)
    (continued : Bool)
    → IsSound p a
    → continue_blocked_program d p r now a ≡ ok (b, continued)
    → IsSound p b
continue-IsSound d p a b r now continued s h =
    let (program, e, outcome) = continue_blocked_program-outcome d p r now a b continued h in
    elim outcome [
      | found_continued flag state same ↦ subst (IsSound p) (sym same) s
      | resumed flag from to kept i ↦
          counted-IsSound p repair_round_count a b program i.new (at_block p a program s e)
            i.document i.counted i.below i.ceilings_kept i.mirrored i.finalized_kept i.scope_kept
    ]

pub Step-IsSound :
    (d : Digests) (p : Packet) (a b : RunState) → IsSound p a → Step d p a b → IsSound p b
Step-IsSound d p a b s (claims k sha now c h) = claim-IsSound d p a b k sha now c s h
Step-IsSound d p a b s (seals now h) = seal-IsSound p a b now s h
Step-IsSound d p a b s (advances sha actor why now evidence snapshot same h) =
    advance-IsSound d p a b sha actor why now evidence snapshot s same h
Step-IsSound d p a b s (terminalizes sha actor now snapshot same h) =
    terminalize-IsSound d p a b sha actor now snapshot s same h
Step-IsSound d p a b s (transitions to actor why sha fields now block count h) =
    transition-IsSound p a b to actor why sha fields now fields.program_block refl s block count h
Step-IsSound d p a b s (repairs r now h) = repair-IsSound d p a b r now s h
Step-IsSound d p a b s (continues r now continued h) = continue-IsSound d p a b r now continued s h
Step-IsSound d p a b (program, s) (moves to actor why sha schema streak fingerprint now h) =
    let (doc, tops) =
      program_transition-kept p.execution_order to actor why sha schema streak fingerprint now a b
        h in
    kept-IsSound p a b program program s (doc ∙ s.document) refl refl tops s.final_covers

-- Along every sequence of claims, seals after a refused repair, advancements, last approvals, builds'
-- and other transitions, funded repairs and continuations, each of which finds the block that its
-- caller read, a PROGRAM run keeps its block; each top-level counter stays equal to the block's and
-- each counter within its ceiling; and under the whole-product review scope every checkpoint of the
-- packet has a finalized entry and every entry is that of a checkpoint of the packet.
pub Steps-IsSound :
    (d : Digests) (p : Packet) (a b : RunState) → IsSound p a → Steps d p a b → IsSound p b
Steps-IsSound d p a _ s start = s
Steps-IsSound d p a c s (then {b} path step) =
    Step-IsSound d p b c (Steps-IsSound d p a b s path) step

-- If a sound PROGRAM run got to its last approval by such steps, and the approval finds the block that
-- its caller read, the approval covers the whole graph: the run is APPROVED for the candidate of the
-- review; every checkpoint of the packet has a finalized entry, and every entry is that of a
-- checkpoint of the packet.
pub final_approval-covers_graph :
    (d : Digests) (p : Packet) (a b after : RunState) (sha actor now : String) (snapshot : RunState)
    → IsSound p a
    → Steps d p a b
    → b.program ≡ snapshot.program
    → terminalize_program_after_final_review d p sha actor now snapshot b ≡ ok after
    → (program : ProgramState) × (after.program ≡ some program)
      × (after.state ≡ approved)
      × (after.last_candidate_sha ≡ sha)
      × (snapshot.last_candidate_sha ≡ sha)
      × (b.state ≡ reviewing)
      × IsWholeGraph p.checkpoints program.finalized_checkpoints
final_approval-covers_graph d p a b after sha actor now snapshot s path same h =
    let (program, doc, reviewed, scope, bound, here, accepted, kept, m) =
      terminalize-approved d p sha actor now snapshot b after h in
    let at = at_block p b program (Steps-IsSound d p a b s path) (same ∙ doc) in
    (program, m.program_written, m.arrived, kept, bound, here, at.final_covers scope)
