-- ===== src/Owners/Funding.antt =====
-- The outcomes of `transition_funded_repair` on a PROGRAM run.
use ownframework_loop.Prelude.{
  ℕ, ◌≡◌, refl, inl, inr, String, Bool-cases, Option, none, some, ok, arith, Result-cases, subst,
  ◌∙◌,
}
use ownframework_loop.Packet.{Packet, CounterKind}
use ownframework_loop.Transitions.{State, State-discrete, blocked, changes_requested}
use ownframework_loop.Run.{RunState, Reason, top_counter, cap_exhausted}
use ownframework_loop.Program.{ProgramState, Digests}
use ownframework_loop.Claims.{is_final_scope}
use ownframework_loop.Owners.{moved}
use ownframework_loop.Owners.Repair.{
  fund_program, fund_repair, merge_counts, Snapshot, merge_funded_repair_program_block,
  settle_repair, RepairRequest, transition_funded_repair,
}
use ownframework_loop.Owners.Counting.{
  IsRepaired, fund_final-IsRepaired, fund_checkpoint-IsRepaired,
}

-- Two documents with the same counters, ceilings, scope and finalized checkpoints.
pub record SameBudget (program : ProgramState) (before after : RunState) : Type 0 where
  pub new : ProgramState
  pub document : after.program ≡ some new
  pub counters_kept : new.counters ≡ program.counters
  pub ceilings_kept : new.ceilings ≡ program.ceilings
  pub mirrored : (j : CounterKind) → top_counter j after ≡ top_counter j before
  pub finalized_kept : new.finalized_checkpoints ≡ program.finalized_checkpoints
  pub scope_kept : new.review_scope ≡ program.review_scope
  pub state_kept : after.state ≡ before.state
  pub reason_kept : after.terminal_reason ≡ before.terminal_reason

merge-SameBudget :
    (snapshot : Option Snapshot) (s after : RunState) (program : ProgramState)
    → s.program ≡ some program
    → merge_funded_repair_program_block snapshot s ≡ ok after
    → SameBudget program s after
unfolding merge_funded_repair_program_block merge_counts
merge-SameBudget none s after program e h =
    subst (SameBudget program s) {x = s} (ground arith) (record {
      new = program;
      document = e;
      counters_kept = refl;
      ceilings_kept = refl;
      mirrored = λ j. refl;
      finalized_kept = refl;
      scope_kept = refl;
      state_kept = refl;
      reason_kept = refl;
    })
merge-SameBudget (some snap) s after program e h =
    let new : ProgramState = record program {
      files_changed_unique = snap.files_changed_unique;
      diff_lines_total = snap.diff_lines_total;
    } in
    subst (SameBudget program s) {x = record s { program = some new }} (ground arith) (record {
      new = new;
      document = refl;
      counters_kept = refl;
      ceilings_kept = refl;
      mirrored = λ j. ground arith;
      finalized_kept = refl;
      scope_kept = refl;
      state_kept = refl;
      reason_kept = refl;
    })

-- A refused repair leaves the counters; the write of the transition does too.
settle-SameBudget :
    (to : State) (actor : String) (reason : Reason) (sha : String) (no_progress streak : Option ℕ)
    (fingerprint : Option String) (now : String) (s : RunState) (program : ProgramState)
    → s.program ≡ some program
    → ((settle_repair to actor reason sha no_progress streak fingerprint now s).program
        ≡ some program)
      × ((j : CounterKind)
          → top_counter j (settle_repair to actor reason sha no_progress streak fingerprint now s)
            ≡ top_counter j s)
      × ((settle_repair to actor reason sha no_progress streak fingerprint now s).state ≡ to)
unfolding settle_repair moved
settle-SameBudget to actor why sha no_progress streak fingerprint now s program e =
    (e, λ j. ground arith, refl)

settle-blocked_reason :
    (actor : String) (reason : Reason) (sha : String) (no_progress streak : Option ℕ)
    (fingerprint : Option String) (now : String) (s : RunState)
    → (settle_repair blocked actor reason sha no_progress streak fingerprint now s).terminal_reason
      ≡ reason
unfolding settle_repair moved State-discrete
settle-blocked_reason actor why sha no_progress streak fingerprint now s = refl

fund_repair-IsRepaired :
    (d : Digests) (p : Packet) (sha now : String) (program : ProgramState) (cur s : RunState)
    → cur.program ≡ some program
    → fund_repair d p sha now cur ≡ ok (some s)
    → IsRepaired program cur s
unfolding fund_repair fund_program
fund_repair-IsRepaired d p sha now program cur s e h =
    elim (Bool-cases (is_final_scope program.review_scope)) [
      | inl b ↦ fund_final-IsRepaired program cur s (ground arith)
      | inr b ↦ fund_checkpoint-IsRepaired d p sha now program cur s (ground arith)
    ]

-- The two outcomes.
pub data RepairOutcome (program : ProgramState) (before after : RunState) : Type 0 where
  granted :
      after.state ≡ changes_requested
      → IsRepaired program before after
      → RepairOutcome program before after
  exhausted :
      after.state ≡ blocked
      → after.terminal_reason ≡ cap_exhausted
      → (new : ProgramState) → after.program ≡ some new
      → new.counters ≡ program.counters
      → new.ceilings ≡ program.ceilings
      → new.finalized_checkpoints ≡ program.finalized_checkpoints
      → new.review_scope ≡ program.review_scope
      → ((j : CounterKind) → top_counter j after ≡ top_counter j before)
      → RepairOutcome program before after

repair_granted :
    (program : ProgramState) (cur funded settled after : RunState)
    → (i : IsRepaired program cur funded) → settled.state ≡ changes_requested
    → settled.program ≡ some i.new
    → ((j : CounterKind) → top_counter j settled ≡ top_counter j funded)
    → SameBudget i.new settled after
    → RepairOutcome program cur after
repair_granted program cur funded settled after i state doc tops m =
    granted (m.state_kept ∙ state) (record {
      new = m.new;
      document = m.document;
      counted = m.counters_kept ∙ i.counted;
      below = i.below;
      ceilings_kept = m.ceilings_kept ∙ i.ceilings_kept;
      mirrored = λ j. m.mirrored j ∙ tops j ∙ i.mirrored j;
      finalized_kept = m.finalized_kept ∙ i.finalized_kept;
      scope_kept = m.scope_kept ∙ i.scope_kept;
    })

-- A rejected candidate of a PROGRAM run gets its repair counted once, on the block and its mirror and
-- below the ceiling, with the run in CHANGES_REQUESTED; or the run is BLOCKED for the exhausted cap and
-- no counter moved. There is no third outcome of the write.
pub transition_funded_repair-outcome :
    (d : Digests) (p : Packet) (r : RepairRequest) (now : String) (cur after : RunState)
    (program : ProgramState)
    → cur.program ≡ some program
    → transition_funded_repair d p r now cur ≡ ok after
    → RepairOutcome program cur after
unfolding transition_funded_repair
transition_funded_repair-outcome d p r now cur after program e h =
    elim (Result-cases (fund_repair d p r.commit_sha now cur)) [
      | inr (x, f) ↦ ground arith
      | inl (none, f) ↦
          let (doc, tops, state) =
            settle-SameBudget blocked r.actor cap_exhausted r.commit_sha r.no_progress_streak
              r.identical_finding_streak r.last_must_fix_fingerprint now cur program e in
          let m =
            merge-SameBudget r.snapshot
              (settle_repair blocked r.actor cap_exhausted r.commit_sha r.no_progress_streak
                r.identical_finding_streak r.last_must_fix_fingerprint now cur)
              after program doc (ground arith) in
          exhausted (m.state_kept ∙ state)
            (m.reason_kept
              ∙ settle-blocked_reason r.actor cap_exhausted r.commit_sha r.no_progress_streak
                  r.identical_finding_streak r.last_must_fix_fingerprint now cur)
            m.new m.document m.counters_kept m.ceilings_kept m.finalized_kept m.scope_kept
            (λ j. m.mirrored j ∙ tops j)
      | inl (some funded, f) ↦
          let i = fund_repair-IsRepaired d p r.commit_sha now program cur funded e f in
          let (doc, tops, state) =
            settle-SameBudget changes_requested r.actor r.claimed_reason r.commit_sha
              r.no_progress_streak r.identical_finding_streak r.last_must_fix_fingerprint now funded
              i.new i.document in
          repair_granted program cur funded _ after i state doc tops
            (merge-SameBudget r.snapshot _ after i.new doc (ground arith))
    ]
