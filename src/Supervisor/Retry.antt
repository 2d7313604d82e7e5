-- ===== src/Supervisor/Retry.antt =====
-- lib/ownframework_loop/supervisor_recovery.py: what becomes of a job whose attempt failed. Counters and
-- seconds are natural numbers; a cost and the texts of an error are left out.
use ownframework_loop.Prelude.{
  ℕ, zero, suc, ◌+◌, ◌-◌, ◌*◌, ltb, leb, String, same, Bool, true, false, ◌&&◌, not, Option, none,
  some, if◌then◌else◌, Result, ok, err, ◌>>=◌,
}
use ownframework_loop.Supervisor.{JobStatus, backoff, quarantined}

pub data FailureClass : Type 0 where
  transient progress_stalled configuration invariant usage_unknown timeout_usage_unknown
        usage_ceiling other_failure :
      FailureClass

-- The fields of a job's row that the policy reads and writes.
pub record FailureRow : Type 0 where
  pub status : JobStatus
  pub infra_failures : ℕ
  pub max_infra_failures : ℕ
  pub transient_failures : ℕ
  pub max_transient_failures : ℕ
  pub transient_recovery_cycles : ℕ
  pub max_transient_recovery_cycles : ℕ
  pub last_failure_class : Option FailureClass
  pub last_failure_reason : String
  pub next_attempt_at : ℕ

-- `float(5 * 2 ** n)` raises OverflowError from n = 1022 on.
pub data PolicyError : Type 0 where
  overflow_error : PolicyError

abbrev pub power_of_two : ℕ → ℕ
power_of_two zero = 1
power_of_two (suc n) = 2 * power_of_two n

abbrev pub at_most : ℕ → ℕ → ℕ
at_most a b = if leb a b then a else b

-- `min(300.0, float(5 * (2 ** max(0, streak - 1))))`
unfoldable pub backoff_seconds : ℕ → Result PolicyError ℕ
backoff_seconds streak =
    if ltb 1021 (streak - 1)
    then err overflow_error
    else ok (at_most 300 (5 * power_of_two (streak - 1)))

pub record RetryState : Type 0 where
  pub failures : ℕ
  pub cycles : ℕ
  pub is_quarantined : Bool
  pub circuit_opened : Bool
  pub seconds : ℕ

abbrev pub default_max_transient_failures : ℕ
default_max_transient_failures = 8

-- The configured ceiling, or the emergency one.
abbrev pub ceiling_of : ℕ → Option ℕ → Option ℕ
ceiling_of configured emergency = if ltb 0 configured then some configured else emergency

abbrev pub is_reached : Option ℕ → ℕ → Bool
is_reached none failures = false
is_reached (some ceiling) failures = ltb 0 ceiling && leb ceiling failures

unfoldable pub compute_transient_retry_state :
    ℕ → ℕ → ℕ → ℕ → Option ℕ → Result PolicyError RetryState
unfolding backoff_seconds
compute_transient_retry_state failures cycles max_failures max_cycles emergency =
    if is_reached (ceiling_of max_failures emergency) (failures + 1)
    then (if ltb 0 max_cycles && ltb cycles max_cycles
        then ok (record {
          failures = 0;
          cycles = cycles + 1;
          is_quarantined = false;
          circuit_opened = true;
          seconds = 600;
        })
        else ok (record {
          failures = failures + 1;
          cycles = cycles;
          is_quarantined = true;
          circuit_opened = false;
          seconds = 0;
        }))
    else (backoff_seconds (failures + 1) >>= λ seconds. ok (record {
      failures = failures + 1;
      cycles = cycles;
      is_quarantined = false;
      circuit_opened = false;
      seconds = seconds;
    }))

abbrev pub is_stalled : Option FailureClass → Bool
is_stalled (some progress_stalled) = true
is_stalled _ = false

-- `"QUARANTINED" if quarantined else "BACKOFF"`, with the next attempt.
abbrev pub settled_row : Bool → ℕ → ℕ → FailureRow → FailureRow
settled_row is_quarantined now seconds row = record row {
  status = if is_quarantined then quarantined else backoff;
  next_attempt_at = if is_quarantined then 0 else now + seconds;
}

abbrev pub transient_policy : Option ℕ → ℕ → FailureRow → Result PolicyError FailureRow
unfolding compute_transient_retry_state
transient_policy emergency now row =
    compute_transient_retry_state row.transient_failures row.transient_recovery_cycles
      row.max_transient_failures row.max_transient_recovery_cycles emergency
    >>= λ next. ok (
        settled_row next.is_quarantined now next.seconds (record row {
          transient_failures = next.failures;
          transient_recovery_cycles = next.cycles;
        }))

abbrev immediate_policy : ℕ → FailureRow → Result PolicyError FailureRow
immediate_policy now row = ok (settled_row true now 0 (record row { transient_failures = 0 }))

abbrev pub infra_policy : ℕ → FailureRow → Result PolicyError FailureRow
unfolding backoff_seconds
infra_policy now row =
    let failures = row.infra_failures + 1 in
    backoff_seconds failures >>= λ seconds. ok (
      settled_row (ltb 0 row.max_infra_failures && leb row.max_infra_failures failures) now seconds
        (record row { infra_failures = failures }))

-- The policy of a class, over a row that has the class and its reason already.
unfoldable pub class_policy : FailureClass → ℕ → FailureRow → Result PolicyError FailureRow
unfolding transient_policy infra_policy
class_policy transient now row = transient_policy none now row
class_policy progress_stalled now row =
    transient_policy (some default_max_transient_failures) now row
class_policy configuration now row = immediate_policy now row
class_policy invariant now row = immediate_policy now row
class_policy usage_unknown now row = immediate_policy now row
class_policy timeout_usage_unknown now row = immediate_policy now row
class_policy usage_ceiling now row = immediate_policy now row
class_policy other_failure now row = infra_policy now row

-- The row of a missing job is an error of the caller and not part of the model.
unfoldable pub apply_failure_policy :
    FailureClass → String → ℕ → FailureRow → Result PolicyError FailureRow
unfolding class_policy
apply_failure_policy class reason now row =
    let marked = is_stalled row.last_failure_class in
    let kept = if marked then progress_stalled else class in
    let why =
      if marked && not (same row.last_failure_reason "") then row.last_failure_reason else reason in
    class_policy kept now (record row { last_failure_class = some kept; last_failure_reason = why })
