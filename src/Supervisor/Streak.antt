-- ===== src/Supervisor/Streak.antt =====
-- One transient failure in the streak of a job.
use ownframework_loop.Prelude.{
  ℕ, ◌+◌, ◌-◌, ◌≤◌, ◌<◌, ◌≡◌, refl, true, false, Option, some, ok, arith, ltb, leb, Bool-cases, inl,
  inr, ◌*◌,
}
use ownframework_loop.Supervisor.Retry.{
  backoff_seconds, RetryState, ceiling_of, at_most, power_of_two, compute_transient_retry_state,
}

backoff-within : (n : ℕ) → n ≤ 1022 → (s : ℕ) × (backoff_seconds n ≡ ok s)
unfolding backoff_seconds
backoff-within n e = elim (Bool-cases (ltb 1021 (n - 1))) [
  | inl over ↦ absurd (ground arith)
  | inr fits ↦ (at_most 300 (5 * power_of_two (n - 1)), ground (arith, fits))
]

-- One more failure of a streak below its ceiling.
pub data Next (ceiling failures cycles max_cycles : ℕ) (s : RetryState) : Type 0 where
  goes_on :
      s.is_quarantined ≡ false
      → s.failures ≡ failures + 1
      → failures + 1 < ceiling
      → s.cycles ≡ cycles
      → Next ceiling failures cycles max_cycles s
  opens :
      s.is_quarantined ≡ false
      → s.failures ≡ 0
      → failures + 1 ≡ ceiling
      → s.cycles ≡ cycles + 1
      → cycles < max_cycles
      → Next ceiling failures cycles max_cycles s
  gives_up : s.is_quarantined ≡ true → Next ceiling failures cycles max_cycles s

pub compute-Next :
    (ceiling failures cycles max_failures max_cycles : ℕ) (emergency : Option ℕ)
    → ceiling_of max_failures emergency ≡ some ceiling
    → failures < ceiling
    → ceiling ≤ 1022
    → (s : RetryState) × (compute_transient_retry_state failures cycles max_failures max_cycles
          emergency
        ≡ ok s)
      × Next ceiling failures cycles max_cycles s
unfolding compute_transient_retry_state
compute-Next ceiling failures cycles max_failures max_cycles emergency c below small =
    elim (Bool-cases (leb ceiling (failures + 1))) [
      | inr early ↦
          let (s, e) = backoff-within (failures + 1) (ground arith) in
          (
            record {
              failures = failures + 1;
              cycles = cycles;
              is_quarantined = false;
              circuit_opened = false;
              seconds = s;
            },
            ground (arith, c, early, e),
            goes_on refl refl (ground arith) refl,
          )
      | inl reached ↦ elim (Bool-cases (ltb cycles max_cycles)) [
        | inl open_slot ↦ (
          record {
            failures = 0;
            cycles = cycles + 1;
            is_quarantined = false;
            circuit_opened = true;
            seconds = 600;
          },
          ground (arith, c, reached, open_slot),
          opens refl refl (ground arith) refl (ground arith),
        )
        | inr spent ↦ (
          record {
            failures = failures + 1;
            cycles = cycles;
            is_quarantined = true;
            circuit_opened = false;
            seconds = 0;
          },
          ground (arith, c, reached, spent),
          gives_up refl,
        )
      ]
    ]
