-- ===== src/Supervisor/Fairness.antt =====
-- Which job a lane takes when no other lane writes meanwhile.
use ownframework_loop.Prelude.{
  ℕ, ◌+◌, ◌≤◌, ◌≡◌, refl, ap, ◌∙◌, true, false, Option, some, List, [], ◌∷◌, ◌++◌, arith, Result,
  ==_iff,
}
use ownframework_loop.Run.{RunState}
use ownframework_loop.Integrity.{IntegrityError}
use ownframework_loop.Supervisor.{Job, Meta, Ledger, is_running, find_job, update_job}
use ownframework_loop.Supervisor.Service.{IsAmong, IsDueProgram, IsLeastServed, fair_order-due_rows}
use ownframework_loop.Supervisor.Holds.{hold_matches_before_claim, hold_decision_blocks_claim}
use ownframework_loop.Supervisor.Claims.{
  is_due, is_single, is_program, filter, fair_order, preferred_order, observed_meta,
  candidate_order, may_run, claimed_job, next_meta, claim_transaction, claimed, is_matched, took,
  scan_candidates, take_next_job,
}

-- The programs and singles that are due, in the order of the code's sort.
abbrev pub due_programs : ℕ → Ledger → List Job
due_programs now l = fair_order (filter is_program (filter (is_due now) l.jobs))

abbrev pub due_singles : ℕ → Ledger → List Job
due_singles now l = fair_order (filter is_single (filter (is_due now) l.jobs))

module _ (load : Job → Result IntegrityError (Option RunState)) (pid now : ℕ) where
  -- A job that a claim may take: no hold bars it and the guards of the claim pass.
  pub record IsEligible (l : Ledger) (c : Job) : Type 0 where
    pub unbarred : hold_decision_blocks_claim (hold_matches_before_claim load c l) ≡ false
    pub present : find_job c.id l.jobs ≡ some c
    pub guarded : may_run now c l c ≡ true

  unbarred-unmatched :
      (l : Ledger) (c : Job)
      → hold_decision_blocks_claim (hold_matches_before_claim load c l) ≡ false
      → is_matched (hold_matches_before_claim load c l) ≡ false
  unfolding hold_decision_blocks_claim
  unbarred-unmatched l c e = ground (arith, e)

  claim-took :
      (l : Ledger) (m : Meta) (c : Job)
      → l.scheduler_meta ≡ some m
      → IsEligible l c
      → claim_transaction m pid now now c l
        ≡ claimed
            (record l {
              jobs = update_job c.id (claimed_job pid now now (m.dispatch_sequence + 1)) l.jobs;
              scheduler_meta = some (next_meta m c);
            })
            (claimed_job pid now now (m.dispatch_sequence + 1) c)
  unfolding claim_transaction
  claim-took l m c row e = ground (
    arith,
    row,
    e.present,
    e.guarded,
    (==_iff m.dispatch_sequence m.dispatch_sequence).1 refl,
    (==_iff m.single_since_program m.single_since_program).1 refl,
  )

  first-took :
      (l : Ledger) (m : Meta) (c : Job) (cs : List Job)
      → l.scheduler_meta ≡ some m
      → IsEligible l c
      → scan_candidates load m pid now l (c ∷ cs)
        ≡ took
            (record l {
              jobs = update_job c.id (claimed_job pid now now (m.dispatch_sequence + 1)) l.jobs;
              scheduler_meta = some (next_meta m c);
            })
            (claimed_job pid now now (m.dispatch_sequence + 1) c)
  unfolding scan_candidates
  first-took l m c cs row e =
      ground (arith, e.unbarred, unbarred-unmatched l c e.unbarred, claim-took l m c row e)

  -- The order from the second SINGLE on begins with the programs.
  program_turn :
      (since : ℕ) (singles : List Job) (p : Job) (ps : List Job)
      → 2 ≤ since
      → (rest : List Job) × (preferred_order since singles (p ∷ ps) ≡ p ∷ rest)
  unfolding preferred_order
  program_turn since [] p ps e = (ps, ground arith)
  program_turn since (s ∷ ss) p ps e = (ps ++ (s ∷ ss), ground arith)

  scan-first :
      (l : Ledger) (m : Meta) (p : Job) (ps rest : List Job)
      → l.scheduler_meta ≡ some m
      → due_programs now l ≡ p ∷ ps
      → preferred_order m.single_since_program (due_singles now l) (p ∷ ps) ≡ p ∷ rest
      → take_next_job load pid now l ≡ scan_candidates load m pid now l (p ∷ rest)
  unfolding take_next_job candidate_order
  scan-first l m p ps rest row due order =
      ap
        (λ x. scan_candidates load (observed_meta x) pid now l (
          preferred_order (observed_meta x).single_since_program (due_singles now l)
            (due_programs now l)))
        row
      ∙ ap
          (λ x.
            scan_candidates load m pid now l
              (preferred_order m.single_since_program (due_singles now l) x))
          due
      ∙ ap (scan_candidates load m pid now l) order

  -- After two SINGLE dispatches since the last PROGRAM, let `p` be a PROGRAM that is due and, of all the
  -- PROGRAMs that are due, the one with the smallest dispatch number, then the earliest creation, then
  -- the smallest id. If no hold bars it and capacity, workspace and identity allow it, it is the job
  -- that is taken, whatever SINGLE jobs wait: it is RUNNING in the ledger's answer, and the count of
  -- SINGLEs starts again.
  pub take_next_job-two_to_one :
      (l : Ledger) (m : Meta) (p : Job)
      → l.scheduler_meta ≡ some m
      → 2 ≤ m.single_since_program
      → IsAmong p l.jobs
      → IsDueProgram now p
      → IsLeastServed now p l.jobs
      → IsEligible l p
      → (after : Ledger) × (job : Job) × (served : Meta) × (take_next_job load pid now l
          ≡ took after job)
        × (job.id ≡ p.id)
        × (is_running job.status ≡ true)
        × (after.scheduler_meta ≡ some served)
        × (served.single_since_program ≡ 0)
        × (served.dispatch_sequence ≡ m.dispatch_sequence + 1)
        × (job.last_dispatch_sequence ≡ served.dispatch_sequence)
  unfolding take_next_job candidate_order claimed_job next_meta
  take_next_job-two_to_one l m p row turn among program least e =
      let (ps, due) = fair_order-due_rows now p l.jobs among program least in
      let (rest, order) = program_turn m.single_since_program (due_singles now l) p ps turn in
      let first = first-took l m p rest row e in
      (
        _,
        _,
        next_meta m p,
        scan-first l m p ps rest row due order ∙ first,
        refl,
        refl,
        refl,
        ground (arith, program.mode),
        refl,
        refl,
      )
