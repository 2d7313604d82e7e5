-- ===== src/Transitions/Reach.antt =====
-- What the tables of transitions.py allow, for one transition and along whole paths.
use ownframework_loop.Prelude.{
  ◌≡◌, refl, ◌≢◌, ◌↔◌, ◌⊎◌, inl, inr, Bool, true, false, ok, arith, subst,
}
use ownframework_loop.Transitions.{
  State, ready_to_build, reviewing, approved, blocked, stopped, segment_boundary, is_state,
  is_terminal, assert_valid, assert_valid_program,
}

-- Blocking is open from every state that is not terminal, and from no terminal one.
blocked_exit :
    (s : State) → is_state s ≡ true → is_terminal s ≡ false → assert_valid s blocked ≡ ok tt
unfolding is_terminal assert_valid
blocked_exit s h n = ground arith

terminal_closed : (s t : State) → is_terminal s ≡ true → assert_valid s t ≢ ok tt
unfolding is_terminal assert_valid
terminal_closed s t h e = ground arith

-- A state of the table is terminal exactly when no valid single-mode transition leaves it.
is_terminal-no_exit :
    (s : State)
    → is_state s ≡ true
    → (is_terminal s ≡ true) ↔ ((t : State) → assert_valid s t ≢ ok tt)
is_terminal-no_exit s h = (
  λ e t. terminal_closed s t e,
  λ none_leaves. by_exit (is_terminal s) refl (none_leaves blocked),
)
  where
    by_exit : (b : Bool) → is_terminal s ≡ b → assert_valid s blocked ≢ ok tt → is_terminal s ≡ true
    by_exit true e _ = e
    by_exit false e shut = absurd (shut (blocked_exit s h e))

-- The three transitions that PROGRAM mode adds.
pub data ProgramEdge : State → State → Type 0 where
  review_advances : ProgramEdge reviewing ready_to_build
  approval_advances : ProgramEdge approved ready_to_build
  block_resumes : ProgramEdge blocked ready_to_build

plain_iff : (f t : State) → (assert_valid_program f t false ≡ ok tt) ↔ (assert_valid f t ≡ ok tt)
unfolding assert_valid assert_valid_program
plain_iff f t = ground arith

plain_kept : (f t : State) → assert_valid f t ≡ ok tt → assert_valid_program f t true ≡ ok tt
unfolding assert_valid assert_valid_program
plain_kept f t h = ground arith

edge_kept : (f t : State) → ProgramEdge f t → assert_valid_program f t true ≡ ok tt
unfolding assert_valid_program
edge_kept _ _ review_advances = refl
edge_kept _ _ approval_advances = refl
edge_kept _ _ block_resumes = refl

with_edges :
    (f t : State)
    → assert_valid_program f t true ≡ ok tt
    → (assert_valid f t ≡ ok tt) ⊎ ProgramEdge f t
unfolding assert_valid assert_valid_program
with_edges reviewing ready_to_build h = inr review_advances
with_edges approved ready_to_build h = inr approval_advances
with_edges blocked ready_to_build h = inr block_resumes
with_edges f t h = ground arith

-- With no further checkpoint PROGRAM mode accepts exactly the single-mode transitions, and with one
-- it accepts exactly these and the three advances; its early refusals take nothing more away.
pub assert_valid_program_iff :
    (from to : State)
    → ((assert_valid_program from to false ≡ ok tt) ↔ (assert_valid from to ≡ ok tt))
      × ((assert_valid_program from to true ≡ ok tt)
          ↔ ((assert_valid from to ≡ ok tt) ⊎ ProgramEdge from to))
assert_valid_program_iff from to = (plain_iff from to, (with_edges from to, kept))
  where
    kept :
        (assert_valid from to ≡ ok tt) ⊎ ProgramEdge from to
        → assert_valid_program from to true ≡ ok tt
    kept (inl h) = plain_kept from to h
    kept (inr e) = edge_kept from to e

-- A path of PROGRAM-mode transitions, each with its own answer on further checkpoints.
infix 40 ◌⟶*◌
pub data ◌⟶*◌ (s : State) : State → Type 0 where
  here : s ⟶* s
  next :
      {t u : State} (has_more_checkpoints : Bool)
      → s ⟶* t
      → assert_valid_program t u has_more_checkpoints ≡ ok tt
      → s ⟶* u

-- One step out of STOPPED or SEGMENT_BOUNDARY is refused, whatever work is left.
final_step :
    (s t : State) (more : Bool)
    → (s ≡ stopped) ⊎ (s ≡ segment_boundary)
    → assert_valid_program s t more ≢ ok tt
unfolding assert_valid_program
final_step s t more h e = ground arith

-- A run that is STOPPED, or at its SEGMENT_BOUNDARY, stays there along every PROGRAM-mode path.
stopped_absorbs : (s : State) {t : State} → (s ≡ stopped) ⊎ (s ≡ segment_boundary) → s ⟶* t → t ≡ s
stopped_absorbs s h here = refl
stopped_absorbs s h (next {t} {u} more path step) =
    let same : t ≡ s = stopped_absorbs s h path in
    absurd (final_step s u more h (subst (λ x. assert_valid_program x u more ≡ ok tt) same step))

approved_step :
    (s : State) (more : Bool) → assert_valid_program s approved more ≡ ok tt → s ≡ reviewing
unfolding assert_valid_program
approved_step s more h = ground arith

-- The state from which a path makes its last step; a path without a step has only its start.
abbrev pub before_last : {s t : State} → s ⟶* t → State
before_last {s} here = s
before_last (next {t} more path step) = t

-- A path that ends in APPROVED and started elsewhere makes its last step from REVIEWING.
pub approved_after_review :
    (s : State) {t : State}
    → s ≢ approved
    → (path : s ⟶* t) → t ≡ approved
    → before_last path ≡ reviewing
approved_after_review s h here e = absurd (h e)
approved_after_review s h (next {t} {u} more path step) e =
    approved_step t more (subst (λ x. assert_valid_program t x more ≡ ok tt) e step)
