-- ===== src/Tests/Retry.antt =====
-- A stalled job whose attempts go on failing.
use ownframework_loop.Prelude.{◌≡◌, refl, Text-discrete, true, some, [], ◌∷◌, ok, arith}
use ownframework_loop.Supervisor.{backoff, quarantined}
use ownframework_loop.Supervisor.Retry.{
  configuration, transient, progress_stalled, FailureRow, compute_transient_retry_state,
  class_policy, apply_failure_policy, is_stalled,
}
use ownframework_loop.Supervisor.Bounded.{
  fail_again, fail_again-quarantines, apply_failure_policy-sticky,
}

abbrev stalled_row : FailureRow
stalled_row = record {
  status = backoff;
  infra_failures = 0;
  max_infra_failures = 3;
  transient_failures = 1;
  max_transient_failures = 2;
  transient_recovery_cycles = 0;
  max_transient_recovery_cycles = 1;
  last_failure_class = some progress_stalled;
  last_failure_reason = "no progress";
  next_attempt_at = 0;
}

fail_again-quarantines_example :
    (after : FailureRow) × (fail_again
        (transient ∷ configuration ∷ transient ∷ [])
        "exit 1"
        7
        stalled_row
      ≡ ok after)
    × (after.status ≡ quarantined)
fail_again-quarantines_example =
    fail_again-quarantines 2 (transient ∷ configuration ∷ transient ∷ []) "exit 1" 7 stalled_row
      refl refl (ground arith) (ground arith) (ground arith)

-- The circuit opens although the attempt failed for its configuration.
abbrev opened_row : FailureRow
opened_row = record stalled_row {
  transient_failures = 0;
  transient_recovery_cycles = 1;
  next_attempt_at = 607;
}

stalled_ok : apply_failure_policy configuration "bad key" 7 stalled_row ≡ ok opened_row
unfolding apply_failure_policy class_policy compute_transient_retry_state Text-discrete
stalled_ok = refl

apply_failure_policy-sticky_example :
    (apply_failure_policy progress_stalled "bad key" 7 stalled_row ≡ ok opened_row)
    × (is_stalled opened_row.last_failure_class ≡ true)
apply_failure_policy-sticky_example =
    apply_failure_policy-sticky configuration "bad key" 7 stalled_row opened_row refl stalled_ok
