-- ===== src/Supervisor.antt =====
-- lib/ownframework_loop/supervisor_db.py: the rows of the supervisor's queue that its lanes read and write
-- to schedule runs. Times are numbers of a clock's ticks. `id` is the primary key of `jobs`, and
-- `job_id` is unique in `dispatch_holds`, so that a lookup or an update means the first row.
pub mod Holds
pub mod Claims
pub mod Exclusive
pub mod Lanes
pub mod Service
pub mod Fairness
pub mod Taking
pub mod Settled
pub mod Retry
pub mod Streak
pub mod Bounded
use ownframework_loop.Prelude.{
  ℕ, ◌+◌, ◌==◌, String, same, Bool, true, false, ◌&&◌, ◌||◌, Option, none, some, List, [], ◌∷◌,
  if◌then◌else◌, length,
}

pub data JobStatus : Type 0 where
  queued backoff running done quarantined blocked retired : JobStatus

-- A mode that is missing or "" is SINGLE.
pub data Mode : Type 0 where
  single_mode program_mode unlisted_mode : Mode

pub data HoldState : Type 0 where
  armed held released cancelled unlisted_hold : HoldState

pub data HoldKind : Type 0 where
  program_checkpoint_boundary unsupported_kind : HoldKind

pub record Job : Type 0 where
  pub id : ℕ
  pub run_id : String
  pub status : JobStatus
  pub next_attempt_at : ℕ
  pub created_at : ℕ
  pub updated_at : ℕ
  pub execution_mode : Mode
  pub dispatch_count : ℕ
  pub last_dispatch_sequence : ℕ
  pub workspace_scheduling_key : String
  pub repository_identity_proven : Bool
  pub workspace_identity_proven : Bool
  pub worker_pid : Option ℕ
  pub worker_started_at : Option ℕ
  pub worker_role : String

pub record Hold : Type 0 where
  pub hold_id : String
  pub job_id : ℕ
  pub kind : HoldKind
  pub previous_checkpoint_id : String
  pub next_checkpoint_id : String
  pub state : HoldState
  pub held_at : Option ℕ
  pub released_at : Option ℕ
  pub cancelled_at : Option ℕ
  pub updated_at : ℕ

-- The row of `scheduler_meta`.
pub record Meta : Type 0 where
  pub dispatch_sequence : ℕ
  pub single_since_program : ℕ

-- `max_concurrency` is the configured number, validated.
pub record Ledger : Type 0 where
  pub jobs : List Job
  pub holds : List Hold
  pub scheduler_meta : Option Meta
  pub max_concurrency : ℕ

abbrev pub is_running : JobStatus → Bool
is_running running = true
is_running _ = false

-- `status IN ('QUEUED','BACKOFF')`
abbrev pub is_waiting : JobStatus → Bool
is_waiting queued = true
is_waiting backoff = true
is_waiting _ = false

abbrev pub find_job : ℕ → List Job → Option Job
find_job n [] = none
find_job n (j ∷ js) = let rest = find_job n js in if j.id == n then some j else rest

abbrev pub update_job : ℕ → (Job → Job) → List Job → List Job
update_job n f [] = []
update_job n f (j ∷ js) = let rest = update_job n f js in if j.id == n then f j ∷ js else j ∷ rest

-- The workspaces of the jobs with status RUNNING.
abbrev pub running_keys : List Job → List String
running_keys [] = []
running_keys (j ∷ js) =
    let rest = running_keys js in
    if is_running j.status then j.workspace_scheduling_key ∷ rest else rest
