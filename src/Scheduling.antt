-- ===== src/Scheduling.antt =====
-- lib/ownframework_loop/scheduling.py: what a builder or reviewer lane does after a pass.
use ownframework_loop.Prelude.{ℕ, ◌≤◌, ◌≡◌, ◌↔◌, true, ok, arith, Option, none, some}
use ownframework_loop.Transitions.{
  State, awaiting_approval, ready_to_build, building, ready_for_review, reviewing,
  changes_requested, approved, blocked, stopped, segment_boundary, is_state, is_terminal,
  assert_valid,
}

pub data Action : Type 0 where
  reschedule stop : Action

-- `unlisted_role` is any text but the two roles.
pub data Role : Type 0 where
  builder reviewer unlisted_role : Role

builder_decision : State → Action × ℕ
builder_decision ready_to_build = (reschedule, 0)
builder_decision building = (reschedule, 0)
builder_decision changes_requested = (reschedule, 0)
builder_decision awaiting_approval = (reschedule, 0)
builder_decision ready_for_review = (reschedule, 0)
builder_decision reviewing = (reschedule, 5)
builder_decision _ = (stop, 0)

reviewer_decision : State → Action × ℕ
reviewer_decision ready_for_review = (reschedule, 0)
reviewer_decision ready_to_build = (reschedule, 0)
reviewer_decision changes_requested = (reschedule, 0)
reviewer_decision awaiting_approval = (reschedule, 5)
reviewer_decision building = (reschedule, 5)
reviewer_decision reviewing = (reschedule, 5)
reviewer_decision _ = (stop, 0)

-- `none` is the `ValueError` of an unknown role.
unfoldable pub recommend_next_delay_minutes : Role → State → Option (Action × ℕ)
unfolding builder_decision reviewer_decision
recommend_next_delay_minutes builder s = some (builder_decision s)
recommend_next_delay_minutes reviewer s = some (reviewer_decision s)
recommend_next_delay_minutes unlisted_role s = none

pub decide_action_after_pass : State → Action
decide_action_after_pass approved = stop
decide_action_after_pass blocked = stop
decide_action_after_pass stopped = stop
decide_action_after_pass segment_boundary = stop
decide_action_after_pass _ = reschedule

-- In every state of the table both lanes stop exactly when the state is terminal, which is also what
-- `decide_action_after_pass` says; a lane that goes on waits at most five minutes.
lanes_stop_at_terminal :
    (s : State) (r : Role) (a : Action) (delay : ℕ)
    → is_state s ≡ true
    → recommend_next_delay_minutes r s ≡ some (a, delay)
    → ((a ≡ stop) ↔ (is_terminal s ≡ true)) × (decide_action_after_pass s ≡ a) × (delay ≤ 5)
unfolding recommend_next_delay_minutes decide_action_after_pass is_terminal
lanes_stop_at_terminal s r a delay listed h = ground arith

-- The builder lane never waits in a state in which a build can be claimed or was claimed, nor the
-- reviewer lane where a review can be claimed: the lane whose turn it is polls with no delay.
owner_polls_at_once :
    (s : State)
    → (assert_valid s building ≡ ok tt
        → recommend_next_delay_minutes builder s ≡ some (reschedule, 0))
      × (assert_valid s reviewing ≡ ok tt
          → recommend_next_delay_minutes reviewer s ≡ some (reschedule, 0))
unfolding recommend_next_delay_minutes assert_valid
owner_polls_at_once s = ground arith
