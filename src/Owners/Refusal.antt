-- ===== src/Owners/Refusal.antt =====
-- program.py, `claim_repair_round`: a repair claim that is refused seals the run BLOCKED. The claim and
-- the seal hold the lock one after the other, so the document that the seal finds is an argument of its
-- own. The first component of the answer is the document afterwards, the second what the caller gets.
use ownframework_loop.Prelude.{
  ◌≡◌, refl, String, Bool, true, false, Option, Result, ok, err, if◌then◌else◌, arith, subst,
  Bool-cases, inl, inr,
}
use ownframework_loop.Packet.{Packet, CounterKind, repair_round_count}
use ownframework_loop.Transitions.{
  State-discrete, changes_requested, blocked, assert_valid, is_valid, allowed, is_terminal,
}
use ownframework_loop.Run.{RunState, repair_refused, top_counter}
use ownframework_loop.Program.{ProgramError, key_error, unknown_checkpoint, Digests}
use ownframework_loop.Claims.{Claim, same_state, unified_claim_pass}
use ownframework_loop.Owners.{OwnerError, moved}
use ownframework_loop.Owners.Fsm.{no_fields, transition}

-- `except ClaimRefused`: a KeyError and a checkpoint without a state in the block pass
-- through; one that the packet does not have is a refusal.
abbrev pub is_refusal : ProgramError → Bool
is_refusal key_error = false
is_refusal unknown_checkpoint = false
is_refusal _ = true

-- The transition to BLOCKED; where it fails the document stays and the refusal is raised all the same.
abbrev sealed_document : Result OwnerError RunState → RunState → RunState
sealed_document (ok s) cur = s
sealed_document (err e) cur = cur

unfoldable pub seal_refused : String → RunState → RunState
seal_refused now cur =
    if same_state cur.state changes_requested
    then sealed_document
        (transition blocked "of-loop-repair-gate" repair_refused cur.last_candidate_sha no_fields
          now cur)
        cur
    else cur

unfoldable pub claim_repair_round :
    Digests
    → Packet
    → Option String
    → String
    → RunState
    → RunState
    → RunState × Result ProgramError Claim
unfolding seal_refused
claim_repair_round d p sha now cur reloaded =
    elim (unified_claim_pass d p repair_round_count sha now cur) [
      | ok (after, c) ↦ (after, ok c)
      | err e ↦ (if is_refusal e then seal_refused now reloaded else reloaded, err e)
    ]

-- What a refused repair leaves: BLOCKED from CHANGES_REQUESTED, and nothing counted.
pub record IsSealed (before after : RunState) : Type 0 where
  pub shut : after.state ≡ blocked
  pub cause : after.terminal_reason ≡ repair_refused
  pub block_kept : after.program ≡ before.program
  pub tops_kept : (j : CounterKind) → top_counter j after ≡ top_counter j before

seal_refused-IsSealed :
    (now : String) (cur : RunState)
    → cur.state ≡ changes_requested
    → IsSealed cur (seal_refused now cur)
unfolding seal_refused transition moved assert_valid is_valid allowed is_terminal State-discrete
seal_refused-IsSealed now cur at = record {
  shut = rw at refl;
  cause = rw at refl;
  block_kept = rw at refl;
  tops_kept = λ j. ground arith;
}

-- In any state the seal keeps the block and the top-level counters.
pub seal_refused-kept :
    (now : String) (cur : RunState)
    → ((seal_refused now cur).program ≡ cur.program)
      × ((j : CounterKind) → top_counter j (seal_refused now cur) ≡ top_counter j cur)
unfolding seal_refused State-discrete
seal_refused-kept now cur = elim (Bool-cases (same_state cur.state changes_requested)) [
  | inl at ↦
      let i = seal_refused-IsSealed now cur (ground (arith, at)) in (i.block_kept, i.tops_kept)
  | inr elsewhere ↦ (ground (arith, elsewhere), λ j. ground (arith, elsewhere))
]

-- A repair claim that is refused leaves a run that is then in CHANGES_REQUESTED BLOCKED for that
-- refusal, with its block and every top-level counter as the seal found them.
pub claim_repair_round-IsSealed :
    (d : Digests) (p : Packet) (sha : Option String) (now : String) (cur reloaded : RunState)
    (e : ProgramError)
    → reloaded.state ≡ changes_requested
    → is_refusal e ≡ true
    → unified_claim_pass d p repair_round_count sha now cur ≡ err e
    → IsSealed reloaded (claim_repair_round d p sha now cur reloaded).0
unfolding claim_repair_round
claim_repair_round-IsSealed d p sha now cur reloaded e at refusal h =
    subst (IsSealed reloaded) (ground arith) (seal_refused-IsSealed now reloaded at)
