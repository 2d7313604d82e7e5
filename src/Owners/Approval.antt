-- ===== src/Owners/Approval.antt =====
-- What a transition of a PROGRAM run writes, and the last approval of the whole product.
use ownframework_loop.Prelude.{
  ℕ, ◌≡◌, refl, inl, inr, String, same→eq, Bool, true, Option, none, some, List, [], ◌∷◌, ◌++◌, ok,
  arith, Option-cases, ap, subst, sym, false, ◌⊎◌, Bool-cases, get_or, if◌then◌else◌,
}
use ownframework_loop.Packet.{Packet, CounterKind}
use ownframework_loop.Transitions.{State, approved, reviewing, assert_valid_program}
use ownframework_loop.Run.{RunState, Reason, HistoryEntry, given, top_counter}
use ownframework_loop.Program.{ProgramState, Digests}
use ownframework_loop.Claims.{is_final_scope}
use ownframework_loop.Owners.{moved, present, prospective}
use ownframework_loop.Owners.Fsm.{
  OwnerFields, transition, transition_document, program_transition, has_more_checkpoints,
}
use ownframework_loop.Owners.Review.{
  reviewed_block, check_bound, final_block, terminalize_program_after_final_review,
}

-- What a transition of a PROGRAM run writes, whatever its target.
pub record IsMoved (to : State) (sha : String) (block : ProgramState) (before after : RunState)
    : Type 0 where
  pub arrived : after.state ≡ to
  pub program_written : after.program ≡ some block
  pub candidate_bound : present sha ≡ true → after.last_candidate_sha ≡ sha
  pub logged :
      (entry : HistoryEntry) × (after.state_history ≡ before.state_history ++ entry ∷ [])
      × (entry.from ≡ before.state)
      × (entry.to ≡ to)
  pub tops_kept : (j : CounterKind) → top_counter j after ≡ top_counter j before

transition_document-IsMoved :
    (to : State) (actor : String) (reason : Reason) (sha : String) (block : ProgramState)
    (schema : Bool) (streak : Option ℕ) (fingerprint : Option String) (now : String)
    (cur : RunState)
    → IsMoved to sha block cur
        (transition_document to actor reason sha (some block) schema streak fingerprint now cur)
unfolding transition_document moved
transition_document-IsMoved to actor reason sha block schema streak fingerprint now cur = record {
  arrived = refl;
  program_written = refl;
  candidate_bound = λ b. ap (λ t. if t then sha else cur.last_candidate_sha) b;
  logged = (
    record { from = cur.state; to = to; at = now; actor = actor; reason = reason },
    refl,
    refl,
    refl,
  );
  tops_kept = λ j. ground arith;
}

pub program_transition-IsMoved :
    (order : List String) (to : State) (actor : String) (reason : Reason) (sha : String)
    (block : ProgramState) (schema : Bool) (streak : Option ℕ) (fingerprint : Option String)
    (now : String) (cur after : RunState)
    → program_transition order to actor reason sha (some block) schema streak fingerprint now cur
      ≡ ok after
    → IsMoved to sha block cur after
unfolding program_transition
program_transition-IsMoved order to actor reason sha block schema streak fingerprint now cur after
      h =
    subst (IsMoved to sha block cur) (ground arith)
      (transition_document-IsMoved to actor reason sha block schema streak fingerprint now cur)

pub check_bound-same :
    (sha : String) (cur : RunState)
    → check_bound sha cur ≡ ok tt
    → (present sha ≡ true) × (cur.last_candidate_sha ≡ sha)
unfolding check_bound
check_bound-same sha cur h = ground (arith, same→eq cur.last_candidate_sha sha)

-- What the transition checks on the document that it reads under the lock.
pub record IsAccepted (to : State) (sha : String) (cur : RunState) : Type 0 where
  pub more : Bool
  pub valid_edge : assert_valid_program cur.state to more ≡ ok tt
  pub same_candidate : (present cur.last_candidate_sha ≡ false) ⊎ (cur.last_candidate_sha ≡ sha)

pub program_transition-IsAccepted :
    (order : List String) (to : State) (actor : String) (reason : Reason) (sha : String)
    (block : Option ProgramState) (schema : Bool) (streak : Option ℕ) (fingerprint : Option String)
    (now : String) (cur after : RunState)
    → present sha ≡ true
    → program_transition order to actor reason sha block schema streak fingerprint now cur
      ≡ ok after
    → IsAccepted to sha cur
unfolding program_transition
program_transition-IsAccepted order to actor why sha block schema streak fingerprint now cur after
      bound h =
    record {
      more = has_more_checkpoints order (prospective block cur.program);
      valid_edge = ground arith;
      same_candidate = elim (Bool-cases (present cur.last_candidate_sha)) [
        | inr absent ↦ inl absent
        | inl there ↦
            inr (sym (same→eq sha cur.last_candidate_sha (ground (arith, there, bound, h))))
      ];
    }

approved-reviewing :
    (from : State) (more : Bool)
    → assert_valid_program from approved more ≡ ok tt
    → from ≡ reviewing
unfolding assert_valid_program
approved-reviewing from more h = ground arith

-- The last approval needs a snapshot in REVIEWING, under the whole-product scope and bound to the
-- candidate. The document read under the lock is then in REVIEWING too, and bound to that candidate or
-- to none. The run becomes APPROVED for the candidate, with the block of the snapshot in place of its
-- own and its top-level counters unchanged, and its history shows the step.
pub terminalize-approved :
    (d : Digests) (p : Packet) (sha actor now : String) (snapshot cur after : RunState)
    → terminalize_program_after_final_review d p sha actor now snapshot cur ≡ ok after
    → (program : ProgramState) × (snapshot.program ≡ some program)
      × (snapshot.state ≡ reviewing)
      × (is_final_scope program.review_scope ≡ true)
      × (snapshot.last_candidate_sha ≡ sha)
      × (cur.state ≡ reviewing)
      × ((present cur.last_candidate_sha ≡ false) ⊎ (cur.last_candidate_sha ≡ sha))
      × (after.last_candidate_sha ≡ sha)
      × IsMoved approved sha program cur after
unfolding terminalize_program_after_final_review final_block reviewed_block
terminalize-approved d p sha actor now snapshot cur after h = elim (Option-cases snapshot.program) [
  | inl e ↦ ground arith
  | inr (program, e) ↦
      let (bound, same_sha) = check_bound-same sha snapshot (ground arith) in
      let done : program_transition p.execution_order approved actor
            (given "final_whole_product_review_approved") sha (some program) true (some 0) (some "")
            now cur
          ≡ ok after =
        ground arith in
      let i =
        program_transition-IsMoved p.execution_order approved actor
          (given "final_whole_product_review_approved") sha program true (some 0) (some "") now cur
          after done in
      let k =
        program_transition-IsAccepted p.execution_order approved actor
          (given "final_whole_product_review_approved") sha (some program) true (some 0) (some "")
          now cur after bound done in
      (
        program,
        e,
        ground arith,
        ground arith,
        same_sha,
        approved-reviewing cur.state k.more k.valid_edge,
        k.same_candidate,
        i.candidate_bound bound,
        i,
      )
]

-- Without a block of its own a transition keeps the block and the counters.
transition_document-kept :
    (to : State) (actor : String) (reason : Reason) (sha : String) (schema : Bool)
    (streak : Option ℕ) (fingerprint : Option String) (now : String) (cur : RunState)
    → ((transition_document to actor reason sha none schema streak fingerprint now cur).program
        ≡ cur.program)
      × ((j : CounterKind)
          → top_counter j
              (transition_document to actor reason sha none schema streak fingerprint now cur)
            ≡ top_counter j cur)
unfolding transition_document moved
transition_document-kept to actor why sha schema streak fingerprint now cur =
    (refl, λ j. ground arith)

pub program_transition-kept :
    (order : List String) (to : State) (actor : String) (reason : Reason) (sha : String)
    (schema : Bool) (streak : Option ℕ) (fingerprint : Option String) (now : String)
    (cur after : RunState)
    → program_transition order to actor reason sha none schema streak fingerprint now cur ≡ ok after
    → (after.program ≡ cur.program) × ((j : CounterKind) → top_counter j after ≡ top_counter j cur)
unfolding program_transition
program_transition-kept order to actor why sha schema streak fingerprint now cur after h =
    subst
      (λ s. (s.program ≡ cur.program) × ((j : CounterKind) → top_counter j s ≡ top_counter j cur))
      {x = transition_document to actor why sha none schema streak fingerprint now cur}
      (ground arith) (transition_document-kept to actor why sha schema streak fingerprint now cur)

-- A transition of `transition` writes the caller's block if there is one, and the caller's build count.
pub transition-kept :
    (to : State) (actor : String) (reason : Reason) (sha : String) (fields : OwnerFields)
    (now : String) (cur after : RunState)
    → get_or fields.build_pass_count cur.build_pass_count ≡ cur.build_pass_count
    → transition to actor reason sha fields now cur ≡ ok after
    → (after.program ≡ prospective fields.program_block cur.program)
      × ((j : CounterKind) → top_counter j after ≡ top_counter j cur)
unfolding transition moved
transition-kept to actor why sha fields now cur after count h =
    (ground (arith, count), λ j. ground (arith, count))
