-- ===== src/Supervisor/Taking.antt =====
-- What a lane's answer shows of the job that it took.
use ownframework_loop.Prelude.{
  ℕ, ◌≡◌, refl, false, Option, some, inl, inr, ◌⊎◌, Result, ◌≢◌, ◌≤◌, ◌<◌, true, length, mem,
}
use ownframework_loop.Run.{RunState}
use ownframework_loop.Integrity.{IntegrityError}
use ownframework_loop.Supervisor.{queued, backoff, Job, Meta, Ledger, find_job, running_keys}
use ownframework_loop.Supervisor.Holds.{
  Decision, matched, is_held, invalid_hold_state, unsupported_hold_kind,
  engineering_state_unavailable, hold_matches_before_claim,
}
use ownframework_loop.Supervisor.Claims.{Attempt, claimed, skipped, retried}
use ownframework_loop.Supervisor.Lanes.{IsClaimed}

unfoldable Attempt-cases :
    (a : Attempt) → (a ≡ skipped) ⊎ (a ≡ retried) ⊎ ((l : Ledger) × (j : Job) × (a ≡ claimed l j))
Attempt-cases skipped = inl refl
Attempt-cases retried = inr (inl refl)
Attempt-cases (claimed l j) = inr (inr (l, j, refl))

-- What lets a row run: it waits, its time has come, both identities are proven, there is a place, and
-- no running job has the workspace.
pub record IsRunnable (now : ℕ) (candidate : Job) (l : Ledger) (row : Job) : Type 0 where
  pub waits : (row.status ≡ queued) ⊎ (row.status ≡ backoff)
  pub is_time : row.next_attempt_at ≤ now
  pub repository_proven : row.repository_identity_proven ≡ true
  pub workspace_proven : row.workspace_identity_proven ≡ true
  pub has_place : length (running_keys l.jobs) < l.max_concurrency
  pub is_free : mem candidate.workspace_scheduling_key (running_keys l.jobs) ≡ false

-- The decisions on a hold under which no claim is made: it holds the run, it matches now, or it cannot
-- be read for certain.
pub record IsUnbarred (decision : Decision) : Type 0 where
  pub not_held : decision ≢ is_held
  pub not_matched : decision ≢ matched
  pub valid_state : decision ≢ invalid_hold_state
  pub supported : decision ≢ unsupported_hold_kind
  pub available : decision ≢ engineering_state_unavailable

module _ (load : Job → Result IntegrityError (Option RunState)) (pid now : ℕ) where
  -- A job taken from the candidate `from`, in a ledger `at` with the jobs of the first one.
  pub record IsTaken (observed : Meta) (l after : Ledger) (job : Job) : Type 0 where
    pub from : Job
    pub at : Ledger
    pub same_jobs : at.jobs ≡ l.jobs
    pub unbarred : IsUnbarred (hold_matches_before_claim load from at)
    pub found : Job
    pub is_found : find_job from.id at.jobs ≡ some found
    pub runnable : IsRunnable now from at found
    pub claim : IsClaimed observed pid now now from found at after job
