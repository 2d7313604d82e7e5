-- ===== src/Supervisor/Bounded.antt =====
-- How long a job that the watchdog marked as stalled can go on failing, under a ceiling of at most 1022.
-- A job without the mark can have no ceiling at all.
use ownframework_loop.Prelude.{
  ℕ, zero, suc, List, [], ◌∷◌, length, ◌+◌, ◌-◌, ◌≤◌, ◌<◌, ◌≡◌, refl, sym, ap, subst, ◌∙◌, String,
  Bool, true, false, ◌&&◌, Option, some, Result, ok, ◌>>=◌, arith, if◌then◌else◌, Result-cases, ◌⊎◌,
  inl, inr, not, same,
}
use ownframework_loop.Supervisor.{JobStatus, backoff, quarantined}
use ownframework_loop.Supervisor.Retry.{
  FailureClass, progress_stalled, FailureRow, PolicyError, RetryState, ceiling_of,
  default_max_transient_failures, compute_transient_retry_state, is_stalled, class_policy,
  settled_row, apply_failure_policy,
}
use ownframework_loop.Supervisor.Streak.{Next, goes_on, opens, gives_up, compute-Next}

-- The failures that a funded streak of `ceiling` and `slots` more circuits leave.
abbrev rounds_left : ℕ → ℕ → ℕ
rounds_left ceiling zero = 0
rounds_left ceiling (suc slots) = ceiling + rounds_left ceiling slots

-- The policy of a stall keeps the mark of its row.
class_policy-marks :
    (now : ℕ) (row after : FailureRow)
    → is_stalled row.last_failure_class ≡ true
    → class_policy progress_stalled now row ≡ ok after
    → is_stalled after.last_failure_class ≡ true
unfolding class_policy
class_policy-marks now row after marked e =
    elim (Result-cases (
      compute_transient_retry_state row.transient_failures row.transient_recovery_cycles
        row.max_transient_failures row.max_transient_recovery_cycles
        (some default_max_transient_failures))) [
          | inl next ↦ ground (arith, next.1, e, marked)
          | inr refused ↦ absurd (ground (arith, refused.1, e))
        ]

-- The row with the mark of a stall renewed; it keeps the reason of the first one.
unfoldable marked_row : String → FailureRow → FailureRow
marked_row why row = record row {
  last_failure_class = some progress_stalled;
  last_failure_reason =
      if not (same row.last_failure_reason "") then row.last_failure_reason else why;
}

stalled-policy :
    (class : FailureClass) (why : String) (now : ℕ) (row : FailureRow)
    → is_stalled row.last_failure_class ≡ true
    → apply_failure_policy class why now row
      ≡ class_policy progress_stalled now (marked_row why row)
unfolding apply_failure_policy marked_row
stalled-policy class why now row stalled =
    ap
      (λ (b : Bool). class_policy (if b then progress_stalled else class) now (record row {
        last_failure_class = some (if b then progress_stalled else class);
        last_failure_reason =
            if b && not (same row.last_failure_reason "") then row.last_failure_reason else why;
      }))
      stalled

-- The classification of a stall outlasts it: whatever a later attempt fails for, while the row is
-- marked as stalled, the policy decides as for another stall and marks the row as stalled again.
pub apply_failure_policy-sticky :
    (class : FailureClass) (why : String) (now : ℕ) (row after : FailureRow)
    → is_stalled row.last_failure_class ≡ true
    → apply_failure_policy class why now row ≡ ok after
    → (apply_failure_policy progress_stalled why now row ≡ ok after)
      × (is_stalled after.last_failure_class ≡ true)
unfolding marked_row
apply_failure_policy-sticky class why now row after stalled e =
    let decided = sym (stalled-policy class why now row stalled) ∙ e in
    (
      stalled-policy progress_stalled why now row stalled ∙ decided,
      class_policy-marks now (marked_row why row) after refl decided,
    )

abbrev pub effective_ceiling : FailureRow → Option ℕ
effective_ceiling row = ceiling_of row.max_transient_failures (some default_max_transient_failures)

-- The failures after which a marked row is given up at the latest.
abbrev pub failures_left : ℕ → FailureRow → ℕ
failures_left ceiling row =
    (ceiling - row.transient_failures)
    + rounds_left ceiling (row.max_transient_recovery_cycles - row.transient_recovery_cycles)

-- A failure of a marked row: given up, or one fewer left.
pub record IsCounted (ceiling : ℕ) (row after : FailureRow) : Type 0 where
  pub waits : after.status ≡ backoff
  pub stalled : is_stalled after.last_failure_class ≡ true
  pub same_ceiling : effective_ceiling after ≡ effective_ceiling row
  pub below : after.transient_failures < ceiling
  pub fewer : failures_left ceiling after < failures_left ceiling row

abbrev after_failure : ℕ → FailureRow → RetryState → FailureRow
after_failure now row next =
    settled_row next.is_quarantined now next.seconds
      (record row { transient_failures = next.failures; transient_recovery_cycles = next.cycles })

policy-after :
    (now : ℕ) (row : FailureRow) (next : RetryState)
    → compute_transient_retry_state row.transient_failures row.transient_recovery_cycles
        row.max_transient_failures row.max_transient_recovery_cycles
        (some default_max_transient_failures)
      ≡ ok next
    → class_policy progress_stalled now row ≡ ok (after_failure now row next)
unfolding class_policy
policy-after now row next e = ground (arith, e)

slot_used :
    (ceiling cycles max_cycles : ℕ)
    → cycles < max_cycles
    → rounds_left ceiling (max_cycles - cycles)
      ≡ ceiling + rounds_left ceiling (max_cycles - (cycles + 1))
slot_used ceiling cycles max_cycles e =
    let one_more : max_cycles - cycles ≡ suc (max_cycles - (cycles + 1)) = omega (arith, e) in
    ap (rounds_left ceiling) one_more

Next-IsCounted :
    (ceiling now : ℕ) (row : FailureRow) (next : RetryState)
    → is_stalled row.last_failure_class ≡ true
    → Next ceiling row.transient_failures row.transient_recovery_cycles
        row.max_transient_recovery_cycles next
    → ((after_failure now row next).status ≡ quarantined)
      ⊎ IsCounted ceiling row (after_failure now row next)
Next-IsCounted ceiling now row next stalled (gives_up q) = inl (ground (arith, q))
Next-IsCounted ceiling now row next stalled (goes_on q failures below cycles) = inr (record {
  waits = ground (arith, q);
  stalled = stalled;
  same_ceiling = refl;
  below = ground (arith, failures, below);
  fewer =
      subst
        (λ c.
          (ceiling - next.failures) + rounds_left ceiling (row.max_transient_recovery_cycles - c)
          < failures_left ceiling row)
        (sym cycles) (ground (arith, failures, below));
})
Next-IsCounted ceiling now row next stalled (opens q failures reached cycles room) = inr (record {
  waits = ground (arith, q);
  stalled = stalled;
  same_ceiling = refl;
  below = ground (arith, failures, reached);
  fewer =
      subst
        (λ c.
          (ceiling - next.failures) + rounds_left ceiling (row.max_transient_recovery_cycles - c)
          < failures_left ceiling row)
        (sym cycles)
        (ground (
          arith,
          failures,
          reached,
          slot_used ceiling row.transient_recovery_cycles row.max_transient_recovery_cycles room,
        ));
})

policy-Next :
    (ceiling now : ℕ) (row : FailureRow)
    → is_stalled row.last_failure_class ≡ true
    → effective_ceiling row ≡ some ceiling
    → row.transient_failures < ceiling
    → ceiling ≤ 1022
    → (after : FailureRow) × (class_policy progress_stalled now row ≡ ok after)
      × ((after.status ≡ quarantined) ⊎ IsCounted ceiling row after)
policy-Next ceiling now row stalled c below small =
    let (next, e, outcome) =
      compute-Next ceiling row.transient_failures row.transient_recovery_cycles
        row.max_transient_failures row.max_transient_recovery_cycles
        (some default_max_transient_failures) c below small in
    (
      after_failure now row next,
      policy-after now row next e,
      Next-IsCounted ceiling now row next stalled outcome,
    )

abbrev is_backoff : JobStatus → Bool
is_backoff backoff = true
is_backoff _ = false

-- One failed attempt after another, until the job is no longer in BACKOFF.
unfoldable pub fail_again :
    List FailureClass → String → ℕ → FailureRow → Result PolicyError FailureRow
unfolding apply_failure_policy
fail_again [] why now row = ok row
fail_again (class ∷ classes) why now row = apply_failure_policy class why now row >>= λ next.
    if is_backoff next.status then fail_again classes why now next else ok next

-- A job that the watchdog marked as stalled, with its streak below the ceiling in force (the
-- configured one, or eight, and at most 1022), cannot be retried for ever: whatever its attempts fail
-- for, after the rest of the streak and a whole streak for each recovery cycle left it is QUARANTINED.
pub fail_again-quarantines :
    (ceiling : ℕ) (classes : List FailureClass) (why : String) (now : ℕ) (row : FailureRow)
    → is_stalled row.last_failure_class ≡ true
    → effective_ceiling row ≡ some ceiling
    → row.transient_failures < ceiling
    → ceiling ≤ 1022
    → failures_left ceiling row ≤ length classes
    → (after : FailureRow) × (fail_again classes why now row ≡ ok after)
      × (after.status ≡ quarantined)
unfolding fail_again marked_row
fail_again-quarantines ceiling [] why now row stalled c below small enough =
    absurd (ground (arith, below, enough))
fail_again-quarantines ceiling (class ∷ classes) why now row stalled c below small enough =
    let (next, decided, outcome) =
      policy-Next ceiling now (marked_row why row) refl c below small in
    let applied = stalled-policy class why now row stalled ∙ decided in
    elim outcome [
      | inl q ↦ (next, ground (arith, applied, q), q)
      | inr i ↦
          let (after, rest, q) =
            fail_again-quarantines ceiling classes why now next i.stalled (i.same_ceiling ∙ c)
              i.below small (shorter next i.fewer) in
          (after, ground (arith, applied, i.waits, rest), q)
    ]
  where
    shorter :
        (next : FailureRow)
        → failures_left ceiling next < failures_left ceiling (marked_row why row)
        → failures_left ceiling next ≤ length classes
    shorter next fewer = ground (arith, fewer, enough)
