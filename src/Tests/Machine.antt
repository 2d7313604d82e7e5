-- ===== src/Tests/Machine.antt =====
-- Transitions, caps and lanes at concrete states.
use ownframework_loop.Prelude.{ℕ, ◌≡◌, refl, ◌↔◌, ◌⊎◌, ◌≤◌, some, ok, true, false}
use ownframework_loop.Packet.{RiskBudget, empty_budget}
use ownframework_loop.Transitions.{
  ready_to_build, ready_for_review, reviewing, approved, blocked, assert_valid,
  assert_valid_program,
}
use ownframework_loop.Transitions.Reach.{
  assert_valid_program_iff, ProgramEdge, approved_after_review, before_last, ◌⟶*◌, here, next,
}
use ownframework_loop.Limits.{repair_round, effective_cap}
use ownframework_loop.Limits.Caps.{effective_cap-le}

assert_valid_program_iff_example :
    ((assert_valid_program blocked ready_to_build false ≡ ok tt)
      ↔ (assert_valid blocked ready_to_build ≡ ok tt))
    × ((assert_valid_program blocked ready_to_build true ≡ ok tt)
        ↔ ((assert_valid blocked ready_to_build ≡ ok tt) ⊎ ProgramEdge blocked ready_to_build))
assert_valid_program_iff_example = assert_valid_program_iff blocked ready_to_build

reviewed_path : ready_for_review ⟶* approved
unfolding assert_valid_program
reviewed_path = next {t = reviewing} false (next {t = ready_for_review} true here refl) refl

approved_after_review_example : before_last reviewed_path ≡ reviewing
approved_after_review_example = approved_after_review ready_for_review (λ e. cc) reviewed_path refl

abbrev small_budget : RiskBudget
small_budget = record empty_budget { max_repair_rounds = some 40; max_build_passes = some 200 }

effective_cap-le_example : (k : ℕ) × (some 40 ≡ some k) × (k ≤ 128)
unfolding effective_cap
effective_cap-le_example = effective_cap-le repair_round (some small_budget) (λ e. cc) refl
