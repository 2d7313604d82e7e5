-- ===== src/Lib.antt =====
-- OwnFramework Loop runs long software missions with coding agents. The deterministic core decides what an
-- agent may do next. A mission packet is admitted once and sealed. Its run is one document, STATE.json,
-- which the owners of transitions read and write whole under the lock of the run. Each owner is a function
-- from the document that it finds there, and from what its caller read before, to a document or a refusal.
--
-- How the parts interact: the packet's checkpoint graph is validated (Graph) and the PROGRAM block of the
-- run is made from it (Program). A lane that wants to work claims a pass (Claims for a PROGRAM, Owners.Single
-- for a run without one); the claim is counted on the checkpoint, on the PROGRAM and on the document's
-- mirror (Budget), within the caps (Limits). After the work an owner moves the run (Owners) along the
-- tables (Transitions), and Scheduling tells the lanes when to look again. A document is read and committed
-- through the journal (Journal), whose events chain the digests of all that was published (Integrity). The
-- supervisor's lanes take the runs from a queue (Supervisor), and a hold can stop them at a checkpoint.
--
-- Files and what they model:
--   Transitions, Transitions/Reach: lib/ownframework_loop/transitions.py; ALLOWED and PROGRAM_ALLOWED are
--     `allowed` and `program_allowed`, the names of the tests are those of the source.
--   Limits, Limits/Caps: lib/ownframework_loop/limits.py.
--   Scheduling: lib/ownframework_loop/scheduling.py, without the log markers.
--   Packet: the packet fields that the rest reads.
--   Graph and its files: `validate_checkpoint_graph` of lib/ownframework_loop/program.py. Scoping, Positions,
--     WorkUnits and Validate hold its loops; Order, Dependencies and Admission their soundness; Crash
--     its exception.
--   Program and its files: the durable block of program.py; Refresh, Finalize, Initial and Terminal hold
--     `_refresh_current_checkpoints`, `finalize_checkpoint`, `materialise_initial_program_state` and
--     `is_program_terminal`; Walk, Engine and Start follow a run through its approvals.
--   Run: the document of state.py (`initial_state`).
--   Budget and its files: `semantic_budget_allocation_plan` (Pools, Plan), `_bump_counter_one` (Bump), the
--     preflights (Entitlements), `verify_frozen_graph` (Frozen); Promises, Reserve, Borrowing, Effect and
--     Agreement prove what they promise.
--   Claims and its files: `_unified_claim_pass`, with its effect (Mirror) and its retries (Replay).
--   Owners and its files: lib/ownframework_loop/state.py, `transition` and `program_transition` (Fsm),
--     `transition_funded_repair` (Repair), `claim_single_pass` (Single), `continue_blocked_program`
--     (Continue), and of program.py the two owners of an approving review (Review) and
--     `claim_repair_round` (Refusal). The two owners of a review take the snapshot of
--     their caller and the document under the lock as two arguments, and so does `claim_repair_round`, whose
--     claim and seal hold the lock one after the other. Approval, Advance, Counting, Funding, Passes and
--     Retry state what one owner does, Stale what a review does to a run that was blocked since its caller
--     read it. Whole says what a finalized graph is; Invariant and Runs what a sequence of owners keeps if
--     each finds the block that its caller read.
--   Integrity and its files: lib/ownframework_loop/integrity.py, the event chain and the digests that bind the
--     state and the artifacts (Artifacts); Chain shows what equal digests mean.
--   Journal and its files: state.py, the write-ahead record: `_append_event_locked` (Append),
--     `_recover_pending_state_txn_locked` (Recover), `_commit_state_event_locked` (Commit),
--     `_verify_semantic_budget_allocation_bindings` (Bindings), and the reads and writes under the lock
--     (Access: `load_verified`, `append_event`, `save`, `_locked_state`). Crash has the disks that a commit
--     leaves when it stops between two writes. Intact, Appending, Healing, Monotone, History, Durable and
--     Runs follow a run through commits and crashes; Tamper, Refusal and Published state what the
--     digests protect.
--   Supervisor and its files: the queue of supervisor_db.py; supervisor_holds.py and dispatch_hold.py (Holds);
--     `_take_next_job` of supervisor_claims.py (Claims); the failure policy of supervisor_recovery.py
--     (Retry). Exclusive, Lanes, Service, Fairness, Taking and Settled hold the theorems of the queue, Streak and
--     Bounded those of the policy.
--   Prelude: tests on numbers, lists, texts and results. Tests: concrete runs.
--
-- Conventions: a raise is an `err` with a constructor for the exception, less its text. JSON values of
-- a wrong type and negative numbers are excluded by the schema of the document, and are not modelled.
-- A text that may be missing or empty is "" where the source treats both alike. SHA-256 over canonical
-- JSON is a parameter (`Digests`, `Hashes`), the clock an argument. A write of the journal is atomic or
-- leaves other bytes. An operation of the journal answers with the disk also where it raises. Reasons and history entries are kept.
--
-- Bounds: all loops are over lists, so there is no fuel, except in `guarded_rounds`, a loop of a caller
-- of `enforce`, whose theorem holds for every fuel that reaches the cap. A number of the supervisor's
-- ledger is natural; the one float that can overflow, a backoff before it is bounded, is an error.
--
-- Not modelled: file locks, file modes and links of the state file; the SEGMENT_BOUNDARY branch of
-- `transition`, which is refused here, and the owners of mission segments; the
-- promotion_policy check of the initial block, which the schema makes; of the supervisor the enrolment of runs,
-- attempts, costs, recovery of stale jobs and processes; dispatch, build, review and validation
-- phases, which are file, git and process work around these owners; and the adapters, guards and command
-- line.
pub mod Budget
pub mod Claims
pub mod Graph
pub mod Integrity
pub mod Journal
pub mod Limits
pub mod Owners
pub mod Packet
pub mod Prelude
pub mod Program
pub mod Run
pub mod Scheduling
pub mod Supervisor
pub mod Tests
pub mod Transitions
