-- ===== src/Owners/Invariant.antt =====
-- A PROGRAM run as a sequence of the owners' writes. An owner that takes its block from a document read
-- before the lock is a step here only where no other write changed the block in between: an advancement
-- and a last approval take the block of the document that they find, and a transition after a build
-- hands over that block with the measured sizes of the change replaced, and the build count of the
-- document. Owners/Stale has what happens otherwise.
use ownframework_loop.Prelude.{
  ℕ, ◌+◌, ◌≤◌, ◌<◌, ◌≡◌, String, Bool, true, Option, none, some, ok, arith, ap, sym, subst, ◌∙◌,
  get_or,
}
use ownframework_loop.Packet.{
  Packet, CounterKind, build_pass_count, review_pass_count, repair_round_count,
}
use ownframework_loop.Transitions.{State}
use ownframework_loop.Run.{RunState, Reason, top_counter, bump_top}
use ownframework_loop.Program.{Tally, tally_of, bump_tally, ProgramState, Digests}
use ownframework_loop.Claims.{is_final_scope, Claim, unified_claim_pass}
use ownframework_loop.Owners.Fsm.{OwnerFields, transition, program_transition}
use ownframework_loop.Owners.Refusal.{seal_refused}
use ownframework_loop.Owners.Whole.{IsWholeGraph}
use ownframework_loop.Owners.Repair.{RepairRequest, transition_funded_repair}
use ownframework_loop.Owners.Continue.{ContinueRequest, continue_blocked_program}
use ownframework_loop.Owners.Review.{
  advance_after_review_approval, terminalize_program_after_final_review,
}

-- The counters of the block are those of the document and within the ceilings, and the whole-product
-- review is asked for only when the finalized checkpoints are those of the packet.
pub record IsSoundBlock (p : Packet) (s : RunState) (program : ProgramState) : Type 0 where
  pub document : s.program ≡ some program
  pub mirrored : (k : CounterKind) → top_counter k s ≡ tally_of k program.counters
  pub within : (k : CounterKind) → tally_of k program.counters ≤ tally_of k program.ceilings
  pub final_covers :
      is_final_scope program.review_scope ≡ true
      → IsWholeGraph p.checkpoints program.finalized_checkpoints

abbrev pub IsSound : Packet → RunState → Type 0
IsSound p s = (program : ProgramState) × IsSoundBlock p s program

-- The block that a build hands to `transition`: none, or the block of the document with the two measured
-- sizes of the change replaced.
pub data IsRemeasured (a : RunState) : Option ProgramState → Type 0 where
  unmeasured : IsRemeasured a none
  measured :
      (old : ProgramState) (files lines : ℕ)
      → a.program ≡ some old
      → IsRemeasured a
          (some (record old { files_changed_unique = files; diff_lines_total = lines }))

-- One write of one owner.
pub data Step (d : Digests) (p : Packet) (a b : RunState) : Type 0 where
  claims :
      (k : CounterKind) (sha : Option String) (now : String) (c : Claim)
      → unified_claim_pass d p k sha now a ≡ ok (b, c)
      → Step d p a b
  seals : (now : String) → b ≡ seal_refused now a → Step d p a b
  advances :
      (sha actor : String) (reason : Reason) (now evidence : String) (snapshot : RunState)
      → a.program ≡ snapshot.program
      → advance_after_review_approval d p sha actor reason now evidence snapshot a ≡ ok b
      → Step d p a b
  terminalizes :
      (sha actor now : String) (snapshot : RunState)
      → a.program ≡ snapshot.program
      → terminalize_program_after_final_review d p sha actor now snapshot a ≡ ok b
      → Step d p a b
  transitions :
      (to : State) (actor : String) (reason : Reason) (sha : String) (fields : OwnerFields)
      (now : String)
      → IsRemeasured a fields.program_block
      → get_or fields.build_pass_count a.build_pass_count ≡ a.build_pass_count
      → transition to actor reason sha fields now a ≡ ok b
      → Step d p a b
  repairs :
      (r : RepairRequest) (now : String)
      → transition_funded_repair d p r now a ≡ ok b
      → Step d p a b
  continues :
      (r : ContinueRequest) (now : String) (continued : Bool)
      → continue_blocked_program d p r now a ≡ ok (b, continued)
      → Step d p a b
  moves :
      (to : State) (actor : String) (reason : Reason) (sha : String) (schema : Bool)
      (streak : Option ℕ) (fingerprint : Option String) (now : String)
      → program_transition p.execution_order to actor reason sha none schema streak fingerprint now
          a
        ≡ ok b
      → Step d p a b

pub data Steps (d : Digests) (p : Packet) (a : RunState) : RunState → Type 0 where
  start : Steps d p a a
  then : {b c : RunState} → Steps d p a b → Step d p b c → Steps d p a c

-- One count on the block and on its mirror.
counted-mirrored :
    (j k : CounterKind) (a b : RunState) (old new : ProgramState)
    → top_counter j a ≡ tally_of j old.counters
    → top_counter j b ≡ top_counter j (bump_top k a)
    → new.counters ≡ bump_tally k old.counters
    → top_counter j b ≡ tally_of j new.counters
counted-mirrored j k a b old new before step counted =
    step ∙ bumped j k before ∙ sym (ap (tally_of j) counted)
  where
    bumped :
        (j k : CounterKind)
        → top_counter j a ≡ tally_of j old.counters
        → top_counter j (bump_top k a) ≡ tally_of j (bump_tally k old.counters)
    bumped build_pass_count build_pass_count h = ap (λ n. n + 1) h
    bumped build_pass_count review_pass_count h = h
    bumped build_pass_count repair_round_count h = h
    bumped review_pass_count build_pass_count h = h
    bumped review_pass_count review_pass_count h = ap (λ n. n + 1) h
    bumped review_pass_count repair_round_count h = h
    bumped repair_round_count build_pass_count h = h
    bumped repair_round_count review_pass_count h = h
    bumped repair_round_count repair_round_count h = ap (λ n. n + 1) h

bumped-within :
    (j k : CounterKind) (t c : Tally)
    → tally_of j t ≤ tally_of j c
    → tally_of k t < tally_of k c
    → tally_of j (bump_tally k t) ≤ tally_of j c
bumped-within build_pass_count build_pass_count t c h below = ground arith
bumped-within build_pass_count review_pass_count t c h below = h
bumped-within build_pass_count repair_round_count t c h below = h
bumped-within review_pass_count build_pass_count t c h below = h
bumped-within review_pass_count review_pass_count t c h below = ground arith
bumped-within review_pass_count repair_round_count t c h below = h
bumped-within repair_round_count build_pass_count t c h below = h
bumped-within repair_round_count review_pass_count t c h below = h
bumped-within repair_round_count repair_round_count t c h below = ground arith

-- A step that counts one, below the ceiling, keeps the invariant.
pub counted-IsSound :
    (p : Packet) (k : CounterKind) (a b : RunState) (old new : ProgramState)
    → IsSoundBlock p a old
    → b.program ≡ some new
    → new.counters ≡ bump_tally k old.counters
    → tally_of k old.counters < tally_of k old.ceilings
    → new.ceilings ≡ old.ceilings
    → ((j : CounterKind) → top_counter j b ≡ top_counter j (bump_top k a))
    → new.finalized_checkpoints ≡ old.finalized_checkpoints
    → new.review_scope ≡ old.review_scope
    → IsSound p b
counted-IsSound p k a b old new s doc counted below ceilings tops finalized scope = (
  new,
  record {
    document = doc;
    mirrored = λ j. counted-mirrored j k a b old new (s.mirrored j) (tops j) counted;
    within = λ j.
        subst (λ t. tally_of j t ≤ tally_of j new.ceilings) (sym counted)
          (subst (λ t. tally_of j (bump_tally k old.counters) ≤ tally_of j t) (sym ceilings)
            (bumped-within j k old.counters old.ceilings (s.within j) below));
    final_covers = λ f.
        subst (λ fs. IsWholeGraph p.checkpoints fs) (sym finalized)
          (s.final_covers (sym (ap is_final_scope scope) ∙ f));
  },
)

-- A step that counts nothing keeps it if the whole-product scope is earned.
pub kept-IsSound :
    (p : Packet) (a b : RunState) (old new : ProgramState)
    → IsSoundBlock p a old
    → b.program ≡ some new
    → new.counters ≡ old.counters
    → new.ceilings ≡ old.ceilings
    → ((j : CounterKind) → top_counter j b ≡ top_counter j a)
    → (is_final_scope new.review_scope ≡ true
        → IsWholeGraph p.checkpoints new.finalized_checkpoints)
    → IsSound p b
kept-IsSound p a b old new s doc counters ceilings tops covers = (
  new,
  record {
    document = doc;
    mirrored = λ j. tops j ∙ s.mirrored j ∙ sym (ap (tally_of j) counters);
    within = λ j.
        subst (λ t. tally_of j t ≤ tally_of j new.ceilings) (sym counters)
          (subst (λ t. tally_of j old.counters ≤ tally_of j t) (sym ceilings) (s.within j));
    final_covers = covers;
  },
)
