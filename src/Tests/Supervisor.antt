-- ===== src/Tests/Supervisor.antt =====
-- A queue of a PROGRAM and two SINGLE runs.
use ownframework_loop.Prelude.{
  ℕ, ◌≡◌, refl, String, Text-discrete, distinct, true, false, Option, some, none, [], ◌∷◌, Result,
  err, arith, inl,
}
use ownframework_loop.Run.{RunState}
use ownframework_loop.Integrity.{IntegrityError, chain_unreadable}
use ownframework_loop.Supervisor.{
  queued, Mode, single_mode, program_mode, held, program_checkpoint_boundary, Job, Hold, Meta,
  Ledger, is_running, running_keys,
}
use ownframework_loop.Supervisor.Holds.{
  hold_matches_before_claim, hold_decision_blocks_claim, release_dispatch_hold,
  cancel_dispatch_hold, find_hold, changed, unchanged, release_row, cancel_refuses_released,
}
use ownframework_loop.Supervisor.Claims.{
  may_run, claim_transaction, claimed, claimed_job, next_meta, take_next_job, took,
}
use ownframework_loop.Supervisor.Lanes.{
  IsExclusive, quiet, next, claims, LaneSteps-IsExclusive, stale_claim-shares_workspace,
}
use ownframework_loop.Supervisor.Service.{here, there, IsDueProgram, IsLeastServed}
use ownframework_loop.Supervisor.Fairness.{IsEligible, take_next_job-two_to_one}
use ownframework_loop.Supervisor.Settled.{release_dispatch_hold-final}

abbrev job : ℕ → Mode → String → Job
job n mode key = record {
  id = n;
  run_id = "run";
  status = queued;
  next_attempt_at = 0;
  created_at = n;
  updated_at = 0;
  execution_mode = mode;
  dispatch_count = 0;
  last_dispatch_sequence = 0;
  workspace_scheduling_key = key;
  repository_identity_proven = true;
  workspace_identity_proven = true;
  worker_pid = none;
  worker_started_at = none;
  worker_role = "";
}

abbrev served : Meta
served = record { dispatch_sequence = 5; single_since_program = 2 }

abbrev queue : Ledger
queue = record {
  jobs = job 1 single_mode "a" ∷ job 2 single_mode "b" ∷ job 3 program_mode "c" ∷ [];
  holds = [];
  scheduler_meta = some served;
  max_concurrency = 2;
}

abbrev unread : Job → Result IntegrityError (Option RunState)
unread j = err chain_unreadable

third-IsEligible : IsEligible unread 7 10 queue (job 3 program_mode "c")
unfolding hold_matches_before_claim hold_decision_blocks_claim may_run Text-discrete
third-IsEligible = record { unbarred = refl; present = refl; guarded = refl }

third-IsDueProgram : IsDueProgram 10 (job 3 program_mode "c")
third-IsDueProgram = record { mode = refl; waits = inl refl; is_time = ground arith }

third-IsLeastServed : IsLeastServed 10 (job 3 program_mode "c") queue.jobs
unfolding IsLeastServed
third-IsLeastServed = (
  λ d. absurd (ground (arith, d.mode)),
  (λ d. absurd (ground (arith, d.mode)), (λ d. inl refl, tt)),
)

take_next_job-two_to_one_example :
    (after : Ledger) × (job : Job) × (row : Meta) × (take_next_job unread 7 10 queue
      ≡ took after job)
    × (job.id ≡ 3)
    × (is_running job.status ≡ true)
    × (after.scheduler_meta ≡ some row)
    × (row.single_since_program ≡ 0)
    × (row.dispatch_sequence ≡ 6)
    × (job.last_dispatch_sequence ≡ row.dispatch_sequence)
take_next_job-two_to_one_example =
    take_next_job-two_to_one unread 7 10 queue served (job 3 program_mode "c") refl (ground arith)
      (there (there here)) third-IsDueProgram third-IsLeastServed third-IsEligible

abbrev third_runs : Job
unfolding claimed_job
third_runs = claimed_job 7 10 10 6 (job 3 program_mode "c")

abbrev taken : Ledger
unfolding claimed_job
taken = record queue {
  jobs = job 1 single_mode "a" ∷ job 2 single_mode "b" ∷ third_runs ∷ [];
  scheduler_meta = some (record { dispatch_sequence = 6; single_since_program = 0 });
}

third_claimed :
    claim_transaction served 7 10 10 (job 3 program_mode "c") queue ≡ claimed taken third_runs
unfolding claim_transaction may_run claimed_job next_meta third_runs taken Text-discrete
third_claimed = refl

queue-IsExclusive : IsExclusive queue
queue-IsExclusive = record { apart = refl; within = ground arith }

LaneSteps-IsExclusive_example : IsExclusive taken
LaneSteps-IsExclusive_example = LaneSteps-IsExclusive queue taken queue-IsExclusive (
    next quiet (
      claims served 7 10 10 (job 3 program_mode "c") (job 3 program_mode "c") third_runs taken refl
        refl third_claimed))

-- Job 2 was read in workspace "b" and enrolled again in "c", where job 3 runs.
abbrev moved : Ledger
unfolding claimed_job taken third_runs
moved = record taken { jobs = job 1 single_mode "a" ∷ job 2 single_mode "c" ∷ third_runs ∷ [] }

abbrev now_served : Meta
now_served = record { dispatch_sequence = 6; single_since_program = 0 }

abbrev second_runs : Job
unfolding claimed_job
second_runs = claimed_job 8 11 12 7 (job 2 single_mode "c")

abbrev shared : Ledger
unfolding claimed_job third_runs second_runs
shared = record queue {
  jobs = job 1 single_mode "a" ∷ second_runs ∷ third_runs ∷ [];
  scheduler_meta = some (record { dispatch_sequence = 7; single_since_program = 1 });
}

stale_claimed :
    claim_transaction now_served 8 11 12 (job 2 single_mode "b") moved ≡ claimed shared second_runs
unfolding claim_transaction may_run claimed_job next_meta third_runs second_runs taken moved shared
    Text-discrete
stale_claimed = refl

shared_key : running_keys moved.jobs ≡ "c" ∷ []
unfolding moved taken third_runs claimed_job
shared_key = refl

stale_claim-shares_workspace_example : distinct (running_keys shared.jobs) ≡ false
unfolding moved taken third_runs claimed_job Text-discrete
stale_claim-shares_workspace_example =
    stale_claim-shares_workspace now_served 8 11 12 (job 2 single_mode "b") (job 2 single_mode "c")
      second_runs moved shared refl refl stale_claimed

abbrev waiting_hold : Hold
waiting_hold = record {
  hold_id = "hold";
  job_id = 1;
  kind = program_checkpoint_boundary;
  previous_checkpoint_id = "CP-1";
  next_checkpoint_id = "CP-2";
  state = held;
  held_at = some 4;
  released_at = none;
  cancelled_at = none;
  updated_at = 4;
}

abbrev barred : Ledger
barred = record queue { holds = waiting_hold ∷ [] }

found_hold : find_hold "hold" 1 barred.holds ≡ some waiting_hold
unfolding Text-discrete
found_hold = refl

release_dispatch_hold-final_example :
    let after = (release_dispatch_hold "hold" 1 5 barred).0 in
    ((release_dispatch_hold "hold" 1 5 barred).1 ≡ changed (release_row 5 waiting_hold))
    × (release_dispatch_hold "hold" 1 6 after ≡ (after, unchanged (release_row 5 waiting_hold)))
    × (cancel_dispatch_hold "hold" 1 6 after ≡ (after, cancel_refuses_released))
release_dispatch_hold-final_example =
    release_dispatch_hold-final "hold" 1 5 6 barred waiting_hold found_hold refl
