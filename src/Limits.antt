-- ===== src/Limits.antt =====
-- lib/ownframework_loop/limits.py: the cap of a pass counter, from the packet, the emergency fuse and
-- the absolute envelope of util.py, and its enforcement.
pub mod Caps
use ownframework_loop.Prelude.{
  ℕ, suc, ltb, leb, Bool, true, false, ◌&&◌, Option, none, some, Result, ok, err, ◌>>=◌, ◌>>◌,
  refuse, if◌then◌else◌,
}
use ownframework_loop.Packet.{RiskBudget}

-- The counters of STATE.json that have a cap, and any other name.
pub data Counter : Type 0 where
  build_pass_count review_pass_count repair_round no_progress_streak unlisted : Counter

abbrev pub max_build_passes : ℕ
max_build_passes = 32

abbrev pub max_review_passes : ℕ
max_review_passes = 32

abbrev pub max_repair_rounds : ℕ
max_repair_rounds = 32

abbrev pub max_consecutive_no_progress_passes : ℕ
max_consecutive_no_progress_passes = 8

abbrev pub max_identical_finding_repeats : ℕ
max_identical_finding_repeats = 8

-- `RepairLimitExceeded`
pub data RepairLimitExceeded : Type 0 where
  above_absolute_ceiling cap_reached : RepairLimitExceeded

unfoldable pub cap_for : Counter → Option ℕ
cap_for build_pass_count = some max_build_passes
cap_for review_pass_count = some max_review_passes
cap_for repair_round = some max_repair_rounds
cap_for no_progress_streak = some max_consecutive_no_progress_passes
cap_for unlisted = none

-- `util.ABSOLUTE_BUDGET_CEILING` at the counter's key.
unfoldable pub absolute_cap : Counter → Option ℕ
absolute_cap build_pass_count = some 128
absolute_cap review_pass_count = some 128
absolute_cap repair_round = some 128
absolute_cap no_progress_streak = some 8
absolute_cap unlisted = none

-- `risk_budget.get(keymap.get(counter, ""))`
unfoldable pub packet_override : Counter → RiskBudget → Option ℕ
packet_override build_pass_count b = b.max_build_passes
packet_override review_pass_count b = b.max_review_passes
packet_override repair_round b = b.max_repair_rounds
packet_override no_progress_streak b = b.max_consecutive_no_progress_passes
packet_override unlisted b = none

unfoldable pub check_override : Option ℕ → Option ℕ → Result RepairLimitExceeded (Option ℕ)
check_override none absolute = ok none
check_override (some override) none = ok (some override)
check_override (some override) (some absolute) = do
  refuse (ltb absolute override) above_absolute_ceiling
  ok (some override)

-- The packet is `none` where the caller has none.
unfoldable pub packet_lowers_cap :
    Counter → Option RiskBudget → Result RepairLimitExceeded (Option ℕ)
unfolding absolute_cap packet_override check_override
packet_lowers_cap counter none = ok none
packet_lowers_cap counter (some b) =
    check_override (packet_override counter b) (absolute_cap counter)

unfoldable pub first_some : Option ℕ → Option ℕ → Option ℕ → Option ℕ
first_some (some cap) _ _ = some cap
first_some none (some cap) _ = some cap
first_some none none absolute = absolute

unfoldable pub effective_cap : Counter → Option RiskBudget → Result RepairLimitExceeded (Option ℕ)
unfolding packet_lowers_cap cap_for first_some
effective_cap counter packet = do
  packet_cap ← packet_lowers_cap counter packet
  ok (first_some packet_cap (cap_for counter) (absolute_cap counter))

positive_or : Option ℕ → ℕ → ℕ
positive_or none default = default
positive_or (some override) default = if ltb 0 override then override else default

unfoldable pub identical_finding_repeat_cap : Option RiskBudget → ℕ
unfolding positive_or
identical_finding_repeat_cap none = max_identical_finding_repeats
identical_finding_repeat_cap (some b) =
    positive_or b.max_identical_finding_repeats max_identical_finding_repeats

enforce_cap : Option ℕ → ℕ → Result RepairLimitExceeded ℕ
enforce_cap none current_value = ok current_value
enforce_cap (some cap) current_value = do refuse (leb cap current_value) cap_reached; ok cap

unfoldable pub enforce : Counter → ℕ → Option RiskBudget → Result RepairLimitExceeded ℕ
unfolding effective_cap enforce_cap
enforce counter current_value packet = do
  cap ← effective_cap counter packet
  enforce_cap cap current_value
