-- ===== src/Transitions.antt =====
-- lib/ownframework_loop/transitions.py: the table of run states, in single mode and in PROGRAM mode.
-- The source's state names are texts; every text outside its `STATES` is one constructor here.
pub mod Reach
use ownframework_loop.Prelude.{
  Bool, true, false, ◌&&◌, ◌||◌, Result, ok, err, ◌>>◌, require, refuse, if◌then◌else◌,
}

pub data State : Type 0 where
  awaiting_approval ready_to_build building ready_for_review reviewing changes_requested approved
        blocked stopped segment_boundary unlisted :
      State

unfoldable pub State-discrete : Discrete State
State-discrete = hlevel

-- `s in STATES`
abbrev pub is_state : State → Bool
is_state unlisted = false
is_state _ = true

-- `to_state in ALLOWED.get(from_state, frozenset())`
unfoldable pub allowed : State → State → Bool
allowed awaiting_approval ready_to_build = true
allowed awaiting_approval blocked = true
allowed awaiting_approval stopped = true
allowed ready_to_build building = true
allowed ready_to_build blocked = true
allowed ready_to_build stopped = true
allowed building ready_for_review = true
allowed building changes_requested = true
allowed building blocked = true
allowed building stopped = true
allowed building segment_boundary = true
allowed ready_for_review reviewing = true
allowed ready_for_review blocked = true
allowed ready_for_review stopped = true
allowed reviewing approved = true
allowed reviewing changes_requested = true
allowed reviewing blocked = true
allowed reviewing stopped = true
allowed reviewing ready_for_review = true
allowed changes_requested ready_to_build = true
allowed changes_requested blocked = true
allowed changes_requested stopped = true
allowed _ _ = false

-- `state in TERMINAL_STATES`
unfoldable pub is_terminal : State → Bool
is_terminal approved = true
is_terminal blocked = true
is_terminal stopped = true
is_terminal segment_boundary = true
is_terminal _ = false

unfoldable pub is_valid : State → State → Bool
unfolding allowed
is_valid from to = if is_state from then allowed from to else false

pub data InvalidTransition : Type 0 where
  unknown_source unknown_target not_allowed stopped_is_absorbing blocked_cannot_become_approved :
      InvalidTransition

unfoldable pub assert_valid : State → State → Result InvalidTransition (Unit {0})
unfolding is_valid
assert_valid from to = do
  require (is_state from) unknown_source
  require (is_state to) unknown_target
  require (is_valid from to) not_allowed

-- `to_state in PROGRAM_ALLOWED.get(from_state, frozenset())`
unfoldable pub program_allowed : State → State → Bool
program_allowed reviewing ready_to_build = true
program_allowed approved ready_to_build = true
program_allowed blocked ready_to_build = true
program_allowed _ _ = false

abbrev pub is_stopped : State → Bool
is_stopped stopped = true
is_stopped _ = false

abbrev pub is_blocked : State → Bool
is_blocked blocked = true
is_blocked _ = false

abbrev pub is_approved : State → Bool
is_approved approved = true
is_approved _ = false

unfoldable pub assert_valid_program : State → State → Bool → Result InvalidTransition (Unit {0})
unfolding is_valid program_allowed
assert_valid_program from to has_more_checkpoints = do
  require (is_state from) unknown_source
  require (is_state to) unknown_target
  refuse (is_stopped from) stopped_is_absorbing
  refuse (is_blocked from && is_approved to) blocked_cannot_become_approved
  require (is_valid from to || (has_more_checkpoints && program_allowed from to)) not_allowed
