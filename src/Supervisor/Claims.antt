-- ===== src/Supervisor/Claims.antt =====
-- lib/ownframework_loop/supervisor_claims.py, `_take_next_job`: how a lane chooses and claims a run. Each
-- transaction is a function of the ledger that it finds; what a lane observed before is an argument.
use ownframework_loop.Prelude.{
  ℕ, ◌+◌, ◌==◌, ltb, leb, mem, not, Bool, true, false, ◌&&◌, ◌||◌, Option, none, some, List, [],
  ◌∷◌, ◌++◌, length, if◌then◌else◌, Result,
}
use ownframework_loop.Run.{RunState}
use ownframework_loop.Integrity.{IntegrityError}
use ownframework_loop.Supervisor.{
  running, single_mode, program_mode, armed, held, Job, Hold, Meta, Ledger, is_waiting, find_job,
  update_job, running_keys,
}
use ownframework_loop.Supervisor.Holds.{
  Decision, matched, hold_row, update_hold, hold_matches_before_claim, hold_decision_blocks_claim,
}

-- `key=(last_dispatch_sequence, created_at, id)`: is the first key less?
abbrev pub fair_before : Job → Job → Bool
fair_before a b =
    ltb a.last_dispatch_sequence b.last_dispatch_sequence
    || (a.last_dispatch_sequence == b.last_dispatch_sequence)
      && (ltb a.created_at b.created_at || (a.created_at == b.created_at) && ltb a.id b.id)

-- A stable sort by that key.
abbrev pub insert_fair : Job → List Job → List Job
insert_fair a [] = a ∷ []
insert_fair a (b ∷ bs) =
    let rest = insert_fair a bs in if fair_before b a then b ∷ rest else a ∷ b ∷ bs

abbrev pub fair_order : List Job → List Job
fair_order [] = []
fair_order (a ∷ others) = insert_fair a (fair_order others)

abbrev pub is_single : Job → Bool
is_single j = elim j.execution_mode [ single_mode ↦ true | _ ↦ false ]

abbrev pub is_program : Job → Bool
is_program j = elim j.execution_mode [ program_mode ↦ true | _ ↦ false ]

abbrev pub filter : (Job → Bool) → List Job → List Job
filter p [] = []
filter p (j ∷ js) = let rest = filter p js in if p j then j ∷ rest else rest

abbrev pub is_due : ℕ → Job → Bool
is_due now j = is_waiting j.status && leb j.next_attempt_at now

abbrev is_empty : List Job → Bool
is_empty [] = true
is_empty (j ∷ js) = false

-- The two classes, the preferred one first.
unfoldable pub preferred_order : ℕ → List Job → List Job → List Job
preferred_order single_since_program singles programs =
    if not (is_empty singles) && not (is_empty programs)
    then (if ltb single_since_program 2 then singles ++ programs else programs ++ singles)
    else if is_empty singles
    then programs
    else singles

-- The observed scheduling row; a missing one reads as zeros.
abbrev pub observed_meta : Option Meta → Meta
observed_meta none = record { dispatch_sequence = 0; single_since_program = 0 }
observed_meta (some m) = m

unfoldable pub candidate_order : ℕ → Ledger → List Job
unfolding preferred_order
candidate_order now l =
    let due = filter (is_due now) l.jobs in
    preferred_order (observed_meta l.scheduler_meta).single_since_program
      (fair_order (filter is_single due)) (fair_order (filter is_program due))

-- The guards of both transactions on the row that they find; the workspace is the observed one.
unfoldable pub may_run : ℕ → Job → Ledger → Job → Bool
may_run now candidate l current =
    is_due now current
    && ltb (length (running_keys l.jobs)) l.max_concurrency
    && not (mem candidate.workspace_scheduling_key (running_keys l.jobs))
    && current.repository_identity_proven
    && current.workspace_identity_proven

abbrev pub is_armed : Hold → Bool
is_armed x = elim x.state [ armed ↦ true | _ ↦ false ]

abbrev hold_now : ℕ → Hold → Hold
hold_now now x = record x { state = held; held_at = some now; updated_at = now }

-- The ARMED → HELD transaction of a boundary that matches.
unfoldable pub hold_transaction : ℕ → Job → Ledger → Ledger
unfolding may_run
hold_transaction now candidate l = elim (find_job candidate.id l.jobs) [
  | none ↦ l
  | some current ↦ elim (hold_row candidate.id l.holds) [
    | none ↦ l
    | some row ↦
        if is_armed row && may_run now candidate l current
        then record l { holds = update_hold row.hold_id candidate.id (hold_now now) l.holds }
        else l
  ]
]

abbrev pub same_meta : Meta → Option Meta → Bool
same_meta observed none = false
same_meta observed (some m) =
    (m.dispatch_sequence == observed.dispatch_sequence)
    && (m.single_since_program == observed.single_since_program)

unfoldable pub claimed_job : ℕ → ℕ → ℕ → ℕ → Job → Job
claimed_job pid observed_at now sequence j = record j {
  status = running;
  worker_pid = some pid;
  worker_started_at = some observed_at;
  worker_role = "dispatching";
  dispatch_count = j.dispatch_count + 1;
  last_dispatch_sequence = sequence;
  updated_at = now;
}

unfoldable pub next_meta : Meta → Job → Meta
next_meta observed current = record {
  dispatch_sequence = observed.dispatch_sequence + 1;
  single_since_program = if is_program current then 0 else observed.single_since_program + 1;
}

pub data Attempt : Type 0 where
  skipped retried : Attempt
  claimed : Ledger → Job → Attempt

-- The claiming transaction, over a scheduling row and a candidate observed earlier.
unfoldable pub claim_transaction : Meta → ℕ → ℕ → ℕ → Job → Ledger → Attempt
unfolding may_run claimed_job next_meta
claim_transaction observed pid observed_at now candidate l =
    if not (same_meta observed l.scheduler_meta)
    then retried
    else elim (find_job candidate.id l.jobs) [
      | none ↦ skipped
      | some current ↦
          let sequence = observed.dispatch_sequence + 1 in
          if may_run now candidate l current
          then claimed
              (record l {
                jobs = update_job candidate.id (claimed_job pid observed_at now sequence) l.jobs;
                scheduler_meta = some (next_meta observed current);
              })
              (claimed_job pid observed_at now sequence current)
          else skipped
    ]

abbrev pub is_matched : Decision → Bool
is_matched matched = true
is_matched _ = false

pub data Taken : Type 0 where
  nothing_taken retry_scan : Ledger → Taken
  took : Ledger → Job → Taken

-- The loop over the candidates, in a ledger that no other lane writes meanwhile.
unfoldable pub scan_candidates :
    (Job → Result IntegrityError (Option RunState)) → Meta → ℕ → ℕ → Ledger → List Job → Taken
unfolding hold_matches_before_claim hold_decision_blocks_claim hold_transaction claim_transaction
scan_candidates load observed pid now l [] = nothing_taken l
scan_candidates load observed pid now l (c ∷ cs) =
    let decision = hold_matches_before_claim load c l in
    let after_hold = scan_candidates load observed pid now (hold_transaction now c l) cs in
    let rest = scan_candidates load observed pid now l cs in
    if is_matched decision
    then after_hold
    else if hold_decision_blocks_claim decision
    then rest
    else elim (claim_transaction observed pid now now c l) [
      | skipped ↦ rest
      | retried ↦ retry_scan l
      | claimed after job ↦ took after job
    ]

-- One round of `_take_next_job` after the recovery of stale jobs.
unfoldable pub take_next_job :
    (Job → Result IntegrityError (Option RunState)) → ℕ → ℕ → Ledger → Taken
unfolding candidate_order scan_candidates
take_next_job load pid now l =
    scan_candidates load (observed_meta l.scheduler_meta) pid now l (candidate_order now l)
