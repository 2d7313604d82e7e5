-- ===== src/Owners/Advance.antt =====
-- What the approving review of a checkpoint does to a PROGRAM run.
use ownframework_loop.Prelude.{
  ◌≡◌, refl, inl, inr, String, same_refl, true, none, some, ok, arith, Result-cases, Option-cases,
  sym, subst, ◌∙◌,
}
use ownframework_loop.Packet.{Packet}
use ownframework_loop.Transitions.{State, approved, ready_to_build, ready_for_review, reviewing}
use ownframework_loop.Run.{RunState, Reason}
use ownframework_loop.Program.{
  ProgramState, CheckpointState, Digests, checkpoint, program_final, find_cp,
}
use ownframework_loop.Program.Refresh.{
  refresh_current_checkpoints, advance_to_next, select_next_checkpoint, pick,
}
use ownframework_loop.Program.Finalize.{finalize_checkpoint, close_checkpoint}
use ownframework_loop.Budget.Effect.{find_cp-update_cp}
use ownframework_loop.Owners.Review.{
  all_finalized, bind_entry, route, reviewed_block, advanced_block, advance_after_review_approval,
}
use ownframework_loop.Owners.{present}
use ownframework_loop.Owners.Fsm.{program_transition}
use ownframework_loop.Owners.Whole.{IsWholeGraph, all_finalized-IsWholeGraph}
use ownframework_loop.Owners.Approval.{
  IsMoved, IsAccepted, check_bound-same, program_transition-IsMoved, program_transition-IsAccepted,
}

-- Where an approved checkpoint sends the run.
pub data Routed (p : Packet) (sha : String) (program : ProgramState) : State → Type 0 where
  to_next :
      (next : String) (cp : CheckpointState)
      → select_next_checkpoint program ≡ some next
      → program.review_scope ≡ some checkpoint
      → find_cp next program.checkpoints ≡ some cp
      → cp.checkpoint_entry_candidate_sha ≡ sha
      → Routed p sha program ready_to_build
  to_final :
      select_next_checkpoint program ≡ none
      → program.review_scope ≡ some program_final
      → IsWholeGraph p.checkpoints program.finalized_checkpoints
      → Routed p sha program ready_for_review

-- The route, and what it leaves alone.
pub IsRouted : Packet → String → ProgramState → ProgramState × State → Type 0
IsRouted p sha program (new, to) =
    Routed p sha new to
    × (new.counters ≡ program.counters)
    × (new.ceilings ≡ program.ceilings)
    × (new.finalized_checkpoints ≡ program.finalized_checkpoints)

bind_entry-IsRouted :
    (p : Packet) (sha next : String) (program : ProgramState) (cp : CheckpointState)
    → select_next_checkpoint program ≡ some next
    → find_cp next program.checkpoints ≡ some cp
    → IsRouted p sha program (bind_entry next sha program, ready_to_build)
unfolding IsRouted bind_entry
bind_entry-IsRouted p sha next program cp e found = (
  to_next next (record cp { checkpoint_entry_candidate_sha = sha }) e refl
      (find_cp-update_cp next next (λ c. record c { checkpoint_entry_candidate_sha = sha })
          program.checkpoints (λ c. refl)
        ∙ ground (arith, same_refl next, found))
      refl,
  refl,
  refl,
  refl,
)

route-IsRouted :
    (p : Packet) (sha : String) (program new : ProgramState) (to : State)
    → route p sha (select_next_checkpoint program) program ≡ ok (new, to)
    → IsRouted p sha program (new, to)
unfolding route IsRouted
route-IsRouted p sha program new to h = elim (Option-cases (select_next_checkpoint program)) [
  | inl e ↦
      let done : all_finalized p.checkpoints program.finalized_checkpoints ≡ true = ground arith in
      let final : ProgramState = record program { review_scope = some program_final } in
      subst (IsRouted p sha program) {x = (final, ready_for_review)} (ground arith) (
        to_final e refl
            (all_finalized-IsWholeGraph p.checkpoints program.finalized_checkpoints done),
        refl,
        refl,
        refl,
      )
  | inr (next, e) ↦ elim (Option-cases (find_cp next program.checkpoints)) [
    | inl f ↦ ground arith
    | inr (cp, f) ↦
        subst (IsRouted p sha program) (ground arith)
          (bind_entry-IsRouted p sha next program cp e f)
  ]
]

-- A refresh of the current checkpoints changes nothing else that the counters depend on.
refresh-keeps :
    (p : Packet) (a b : ProgramState)
    → refresh_current_checkpoints p a ≡ ok b
    → (b.counters ≡ a.counters) × (b.ceilings ≡ a.ceilings)
unfolding refresh_current_checkpoints
refresh-keeps p a b h =
    elim (Result-cases (pick p.checkpoints a.finalized_checkpoints p.execution_order)) [
      | inl (current, e) ↦ (ground arith, ground arith)
      | inr (x, e) ↦ ground arith
    ]

pub finalize_checkpoint-keeps :
    (p : Packet) (a b : ProgramState) (cid : String) (terminal_state : State) (now sha : String)
    → finalize_checkpoint p a cid terminal_state now sha ≡ ok b
    → (b.counters ≡ a.counters) × (b.ceilings ≡ a.ceilings)
unfolding finalize_checkpoint close_checkpoint
finalize_checkpoint-keeps p a b cid terminal_state now sha h =
    refresh-keeps p (close_checkpoint cid terminal_state now sha a) b (ground arith)

-- What an advancement does to the block.
pub record IsAdvanced (p : Packet) (sha : String) (program new : ProgramState) (to : State)
    : Type 0 where
  pub approved_one : String
  pub was_current : select_next_checkpoint program ≡ some approved_one
  pub routed : Routed p sha new to
  pub counters_kept : new.counters ≡ program.counters
  pub ceilings_kept : new.ceilings ≡ program.ceilings

close_and_route :
    (p : Packet) (sha now evidence : String) (program closed next new : ProgramState) (to : State)
    (cid : String)
    → select_next_checkpoint program ≡ some cid
    → finalize_checkpoint p program cid approved now evidence ≡ ok closed
    → advance_to_next closed p ≡ ok next
    → route p sha (select_next_checkpoint next) next ≡ ok (new, to)
    → IsAdvanced p sha program new to
unfolding IsRouted advance_to_next
close_and_route p sha now evidence program closed next new to cid current finalized advanced
      routed =
    let (counters, ceilings) =
      finalize_checkpoint-keeps p program closed cid approved now evidence finalized in
    let (counters', ceilings') = refresh-keeps p closed next advanced in
    let (r, counters'', ceilings'', finalized') = route-IsRouted p sha next new to routed in
    record {
      approved_one = cid;
      was_current = current;
      routed = r;
      counters_kept = counters'' ∙ counters' ∙ counters;
      ceilings_kept = ceilings'' ∙ ceilings' ∙ ceilings;
    }

advanced_block-IsAdvanced :
    (d : Digests) (p : Packet) (sha now evidence : String) (snapshot : RunState)
    (new : ProgramState) (to : State)
    → advanced_block d p sha now evidence snapshot ≡ ok (new, to)
    → (program : ProgramState) × (snapshot.program ≡ some program)
      × (snapshot.state ≡ reviewing)
      × (present sha ≡ true)
      × (snapshot.last_candidate_sha ≡ sha)
      × IsAdvanced p sha program new to
unfolding advanced_block reviewed_block
advanced_block-IsAdvanced d p sha now evidence snapshot new to h =
    elim (Option-cases snapshot.program) [
      | inl e ↦ ground arith
      | inr (program, e) ↦ elim (Option-cases (select_next_checkpoint program)) [
        | inl c ↦ ground arith
        | inr (cid, c) ↦
            elim (Result-cases (finalize_checkpoint p program cid approved now evidence)) [
              | inr (x, f) ↦ ground arith
              | inl (closed, f) ↦ elim (Result-cases (advance_to_next closed p)) [
                | inr (x, n) ↦ ground arith
                | inl (next, n) ↦
                    let (bound, same_sha) = check_bound-same sha snapshot (ground arith) in
                    (
                      program,
                      e,
                      ground arith,
                      bound,
                      same_sha,
                      close_and_route p sha now evidence program closed next new to cid c f n
                          (ground arith),
                    )
              ]
            ]
      ]
    ]

pub advance-routed :
    (d : Digests) (p : Packet) (sha actor : String) (reason : Reason) (now evidence : String)
    (snapshot cur after : RunState)
    → advance_after_review_approval d p sha actor reason now evidence snapshot cur ≡ ok after
    → (program new : ProgramState) × (snapshot.program ≡ some program)
      × (snapshot.state ≡ reviewing)
      × (snapshot.last_candidate_sha ≡ sha)
      × IsAdvanced p sha program new after.state
      × IsAccepted after.state sha cur
      × IsMoved after.state sha new cur after
unfolding advance_after_review_approval
advance-routed d p sha actor reason now evidence snapshot cur after h =
    elim (Result-cases (advanced_block d p sha now evidence snapshot)) [
      | inr (x, e) ↦ ground arith
      | inl ((new, to), e) ↦
          let (program, doc, reviewed, bound, same_sha, i) =
            advanced_block-IsAdvanced d p sha now evidence snapshot new to e in
          let done : program_transition p.execution_order to actor reason sha (some new) true
                (some 0) (some "") now cur
              ≡ ok after =
            ground arith in
          let m =
            program_transition-IsMoved p.execution_order to actor reason sha new true (some 0)
              (some "") now cur after done in
          let k =
            program_transition-IsAccepted p.execution_order to actor reason sha (some new) true
              (some 0) (some "") now cur after bound done in
          (
            program,
            new,
            doc,
            reviewed,
            same_sha,
            subst (IsAdvanced p sha program new) (sym m.arrived) i,
            subst (λ s. IsAccepted s sha cur) (sym m.arrived) k,
            subst (λ s. IsMoved s sha new cur after) (sym m.arrived) m,
          )
    ]
