-- ===== src/Owners/Retry.antt =====
-- The retry of a single pass that was started.
use ownframework_loop.Prelude.{
  ℕ, ◌+◌, ◌≤◌, ◌≡◌, ◌≢◌, String, Bool-cases, inl, inr, false, Option, ok, arith, ap, sym, ◌∙◌,
}
use ownframework_loop.Packet.{RiskBudget}
use ownframework_loop.Transitions.{State-discrete}
use ownframework_loop.Limits.{effective_cap}
use ownframework_loop.Run.{RunState}
use ownframework_loop.Claims.{same_state}
use ownframework_loop.Owners.{moved}
use ownframework_loop.Owners.Single.{
  PassKind, build, review, pass_target, pass_count, pass_counter, history_claims, funded, replayed,
  reached, seal_blocked, resume, start_pass, is_program_document, claim_single_pass,
}
use ownframework_loop.Owners.Passes.{IsLogged, PassEffect, was_funded, claim_single_pass-effect}

-- The run is one without a PROGRAM, and no outcome but a start says so.
started_program :
    (kind : PassKind) (actor now : String) (cur after : RunState)
    → start_pass kind actor now cur ≡ ok (after, funded)
    → after.program ≡ cur.program
unfolding start_pass moved
started_program kind actor now cur after h = ground arith

resume-not_funded :
    (kind : PassKind) (actor now : String) (cap : Option ℕ) (cur after : RunState)
    → resume kind actor now cap cur ≢ ok (after, funded)
unfolding resume seal_blocked
resume-not_funded kind actor now cap cur after h = ground arith

funded_program :
    (kind : PassKind) (actor now : String) (budget : Option RiskBudget) (cap : Option ℕ)
    (cur after : RunState)
    → effective_cap (pass_counter kind) budget ≡ ok cap
    → claim_single_pass kind actor budget now cur ≡ ok (after, funded)
    → is_program_document after.program ≡ false
unfolding claim_single_pass seal_blocked
funded_program kind actor now budget cap cur after e h =
    elim (Bool-cases (same_state cur.state (pass_target kind))) [
      | inl at ↦ absurd (resume-not_funded kind actor now cap cur after (ground arith))
      | inr elsewhere ↦ elim (Bool-cases (reached cap (pass_count kind cur))) [
        | inl full ↦ ground arith
        | inr room ↦
            let kept = started_program kind actor now cur after (ground arith) in
            ap is_program_document kept ∙ ground arith
      ]
    ]

replays :
    (kind : PassKind) (actor now : String) (budget : Option RiskBudget) (cap : Option ℕ)
    (cur : RunState)
    → effective_cap (pass_counter kind) budget ≡ ok cap
    → is_program_document cur.program ≡ false
    → cur.state ≡ pass_target kind
    → 1 ≤ pass_count kind cur
    → IsLogged kind cur
    → claim_single_pass kind actor budget now cur ≡ ok (cur, replayed)
unfolding claim_single_pass resume State-discrete
replays build actor now budget cap cur e single at some_pass logged = ground arith
replays review actor now budget cap cur e single at some_pass logged = ground arith

was_funded-facts :
    {kind : PassKind} {cap : Option ℕ} {before after : RunState}
    → PassEffect kind cap before after funded
    → (after.state ≡ pass_target kind)
      × (pass_count kind after ≡ pass_count kind before + 1)
      × (history_claims (pass_target kind) after.state_history
          ≡ history_claims (pass_target kind) before.state_history + 1)
was_funded-facts (was_funded from room to counted logged) = (to, counted, logged)

-- A pass that was started once is not started, nor counted, again: a retry on the document it left,
-- by whoever and whenever, is answered as a replay and changes nothing.
pub claim_single_pass-retry :
    (kind : PassKind) (actor now retrier later : String) (budget : Option RiskBudget)
    (cap : Option ℕ) (cur after : RunState)
    → effective_cap (pass_counter kind) budget ≡ ok cap
    → IsLogged kind cur
    → claim_single_pass kind actor budget now cur ≡ ok (after, funded)
    → claim_single_pass kind retrier budget later after ≡ ok (after, replayed)
claim_single_pass-retry kind actor now retrier later budget cap cur after e logged h =
    let (to, counted, claims) =
      was_funded-facts (claim_single_pass-effect kind actor now budget cap cur after funded e h) in
    replays kind retrier later budget cap after e
      (funded_program kind actor now budget cap cur after e h) to (ground arith)
      (claims ∙ ap (λ n. n + 1) logged ∙ sym counted)
