-- ===== src/Supervisor/Lanes.antt =====
-- Several lanes over one queue: their transactions in any order, each with what its lane observed before.
use ownframework_loop.Prelude.{
  ℕ, ◌+◌, ◌≤◌, ◌<◌, ◌≡◌, refl, sym, subst, String, mem, distinct, true, false, some, ◌∷◌, length,
  arith,
}
use ownframework_loop.Supervisor.{
  JobStatus, Job, Meta, Ledger, is_running, is_waiting, find_job, update_job, running_keys,
}
use ownframework_loop.Supervisor.Holds.{release_dispatch_hold, cancel_dispatch_hold}
use ownframework_loop.Supervisor.Claims.{
  may_run, same_meta, claimed_job, next_meta, claim_transaction, claimed, hold_transaction,
}
use ownframework_loop.Supervisor.Exclusive.{
  Inserted-length, Inserted-distinct, Inserted-repeated, Inserted-rest_distinct, started-Inserted,
  stopped-Inserted, idle-kept,
}

-- No two running jobs share a workspace, and no more run than are configured.
pub record IsExclusive (l : Ledger) : Type 0 where
  pub apart : distinct (running_keys l.jobs) ≡ true
  pub within : length (running_keys l.jobs) ≤ l.max_concurrency

-- One committed transaction. A lane claims with a candidate that it read earlier, whose row has the same
-- workspace still.
pub data LaneStep (l : Ledger) : Ledger → Type 0 where
  claims :
      (observed : Meta) (pid observed_at now : ℕ) (candidate current job : Job) (after : Ledger)
      → find_job candidate.id l.jobs ≡ some current
      → candidate.workspace_scheduling_key ≡ current.workspace_scheduling_key
      → claim_transaction observed pid observed_at now candidate l ≡ claimed after job
      → LaneStep l after
  holds : (now : ℕ) (candidate : Job) → LaneStep l (hold_transaction now candidate l)
  releases : (id : String) (job now : ℕ) → LaneStep l (release_dispatch_hold id job now l).0
  cancels : (id : String) (job now : ℕ) → LaneStep l (cancel_dispatch_hold id job now l).0
  stops :
      (n : ℕ) (current : Job) (f : Job → Job)
      → find_job n l.jobs ≡ some current
      → is_running current.status ≡ true
      → is_running (f current).status ≡ false
      → LaneStep l (record l { jobs = update_job n f l.jobs })
  edits :
      (n : ℕ) (current : Job) (f : Job → Job)
      → find_job n l.jobs ≡ some current
      → is_running current.status ≡ false
      → is_running (f current).status ≡ false
      → LaneStep l (record l { jobs = update_job n f l.jobs })
  enrols :
      (job : Job) → is_running job.status ≡ false → LaneStep l (record l { jobs = job ∷ l.jobs })

pub data LaneSteps (l : Ledger) : Ledger → Type 0 where
  quiet : LaneSteps l l
  next : {b c : Ledger} → LaneSteps l b → LaneStep b c → LaneSteps l c

-- What a claim that succeeds found and wrote.
pub record IsClaimed (observed : Meta) (pid observed_at now : ℕ) (candidate current : Job)
    (l after : Ledger) (job : Job) : Type 0 where
  pub fresh_meta : same_meta observed l.scheduler_meta ≡ true
  pub guarded : may_run now candidate l current ≡ true
  pub wrote : after ≡ record l {
    jobs =
        update_job candidate.id
          (claimed_job pid observed_at now (observed.dispatch_sequence + 1))
          l.jobs;
    scheduler_meta = some (next_meta observed current);
  }
  pub answer : job ≡ claimed_job pid observed_at now (observed.dispatch_sequence + 1) current

pub claim_transaction-IsClaimed :
    (observed : Meta) (pid observed_at now : ℕ) (candidate current : Job) (l after : Ledger)
    (job : Job)
    → find_job candidate.id l.jobs ≡ some current
    → claim_transaction observed pid observed_at now candidate l ≡ claimed after job
    → IsClaimed observed pid observed_at now candidate current l after job
unfolding claim_transaction
claim_transaction-IsClaimed observed pid observed_at now candidate current l after job found e =
    record {
      fresh_meta = ground (arith, found, e);
      guarded = ground (arith, found, e);
      wrote = ground (arith, found, e);
      answer = ground (arith, found, e);
    }

may_run-free :
    (now : ℕ) (candidate current : Job) (l : Ledger)
    → may_run now candidate l current ≡ true
    → (is_waiting current.status ≡ true)
      × (length (running_keys l.jobs) < l.max_concurrency)
      × (mem candidate.workspace_scheduling_key (running_keys l.jobs) ≡ false)
unfolding may_run
may_run-free now candidate current l e = (ground arith, ground arith, ground arith)

waiting-idle : (s : JobStatus) → is_waiting s ≡ true → is_running s ≡ false
waiting-idle s e = ground arith

-- The claimed row in a ledger.
claim-IsExclusive :
    (observed : Meta) (pid observed_at now : ℕ) (candidate current job : Job) (l after : Ledger)
    → IsExclusive l
    → find_job candidate.id l.jobs ≡ some current
    → candidate.workspace_scheduling_key ≡ current.workspace_scheduling_key
    → claim_transaction observed pid observed_at now candidate l ≡ claimed after job
    → IsExclusive after
unfolding claimed_job
claim-IsExclusive observed pid observed_at now candidate current job l after x found key e =
    let c =
      claim_transaction-IsClaimed observed pid observed_at now candidate current l after job found
        e in
    let (waits, room, free) = may_run-free now candidate current l c.guarded in
    let f = claimed_job pid observed_at now (observed.dispatch_sequence + 1) in
    let i =
      started-Inserted candidate.id f current l.jobs (waiting-idle current.status waits) refl
        found in
    let k = current.workspace_scheduling_key in
    let free_now = subst (λ s. mem s (running_keys l.jobs) ≡ false) key free in
    subst IsExclusive (sym c.wrote) (record {
      apart = Inserted-distinct k (running_keys l.jobs) _ i free_now x.apart;
      within = ground (arith, room, Inserted-length k (running_keys l.jobs) _ i);
    })

-- The transactions on holds leave the jobs alone.
pub holds-keep :
    (now : ℕ) (candidate : Job) (l : Ledger)
    → ((hold_transaction now candidate l).jobs ≡ l.jobs)
      × ((hold_transaction now candidate l).max_concurrency ≡ l.max_concurrency)
unfolding hold_transaction
holds-keep now candidate l = (ground arith, ground arith)

releases-keep :
    (id : String) (job now : ℕ) (l : Ledger)
    → ((release_dispatch_hold id job now l).0.jobs ≡ l.jobs)
      × ((release_dispatch_hold id job now l).0.max_concurrency ≡ l.max_concurrency)
unfolding release_dispatch_hold
releases-keep id job now l = (ground arith, ground arith)

cancels-keep :
    (id : String) (job now : ℕ) (l : Ledger)
    → ((cancel_dispatch_hold id job now l).0.jobs ≡ l.jobs)
      × ((cancel_dispatch_hold id job now l).0.max_concurrency ≡ l.max_concurrency)
unfolding cancel_dispatch_hold
cancels-keep id job now l = (ground arith, ground arith)

kept-IsExclusive :
    (l after : Ledger)
    → IsExclusive l
    → (after.jobs ≡ l.jobs) × (after.max_concurrency ≡ l.max_concurrency)
    → IsExclusive after
kept-IsExclusive l after x (jobs, most) = record {
  apart = subst (λ js. distinct (running_keys js) ≡ true) (sym jobs) x.apart;
  within =
      subst (λ js. length (running_keys js) ≤ after.max_concurrency) (sym jobs)
        (subst (λ m. length (running_keys l.jobs) ≤ m) (sym most) x.within);
}

LaneStep-IsExclusive : (l after : Ledger) → IsExclusive l → LaneStep l after → IsExclusive after
LaneStep-IsExclusive l after x
      (claims observed pid observed_at now candidate current job _ found key e) =
    claim-IsExclusive observed pid observed_at now candidate current job l after x found key e
LaneStep-IsExclusive l _ x (holds now candidate) =
    kept-IsExclusive l _ x (holds-keep now candidate l)
LaneStep-IsExclusive l _ x (releases id job now) =
    kept-IsExclusive l _ x (releases-keep id job now l)
LaneStep-IsExclusive l _ x (cancels id job now) = kept-IsExclusive l _ x (cancels-keep id job now l)
LaneStep-IsExclusive l _ x (stops n current f found runs stays) =
    let i = stopped-Inserted n f current l.jobs runs stays found in
    let k = current.workspace_scheduling_key in
    let rest = running_keys (update_job n f l.jobs) in
    record {
      apart = Inserted-rest_distinct k rest (running_keys l.jobs) i x.apart;
      within = ground (arith, x.within, Inserted-length k rest (running_keys l.jobs) i);
    }
LaneStep-IsExclusive l _ x (edits n current f found idle stays) =
    let same_keys = idle-kept n f current l.jobs idle stays found in
    record {
      apart = subst (λ ks. distinct ks ≡ true) (sym same_keys) x.apart;
      within = subst (λ ks. length ks ≤ l.max_concurrency) (sym same_keys) x.within;
    }
LaneStep-IsExclusive l _ x (enrols job idle) = record {
  apart = ground (arith, idle, x.apart);
  within = ground (arith, idle, x.within);
}

-- However the transactions of the lanes interleave with holds, releases, cancellations, enrolments,
-- changes of waiting rows and jobs that stop, no two running jobs share a workspace and no more jobs
-- run than are configured, as long as a claimed row has the workspace that its lane observed.
pub LaneSteps-IsExclusive :
    (l after : Ledger) → IsExclusive l → LaneSteps l after → IsExclusive after
LaneSteps-IsExclusive l _ x quiet = x
LaneSteps-IsExclusive l after x (next {b} path step) =
    LaneStep-IsExclusive b after (LaneSteps-IsExclusive l b x path) step

-- The workspace guard reads the observed row: a claim that succeeds for a row which was re-enrolled
-- meanwhile, from a free workspace into one that a running job has, leaves two jobs running in it.
pub stale_claim-shares_workspace :
    (observed : Meta) (pid observed_at now : ℕ) (candidate current job : Job) (l after : Ledger)
    → find_job candidate.id l.jobs ≡ some current
    → mem current.workspace_scheduling_key (running_keys l.jobs) ≡ true
    → claim_transaction observed pid observed_at now candidate l ≡ claimed after job
    → distinct (running_keys after.jobs) ≡ false
unfolding claimed_job
stale_claim-shares_workspace observed pid observed_at now candidate current job l after found taken
      e =
    let c =
      claim_transaction-IsClaimed observed pid observed_at now candidate current l after job found
        e in
    let (waits, room, free) = may_run-free now candidate current l c.guarded in
    let f = claimed_job pid observed_at now (observed.dispatch_sequence + 1) in
    let i =
      started-Inserted candidate.id f current l.jobs (waiting-idle current.status waits) refl
        found in
    subst (λ x. distinct (running_keys x.jobs) ≡ false) (sym c.wrote)
      (Inserted-repeated current.workspace_scheduling_key (running_keys l.jobs) _ i taken)
