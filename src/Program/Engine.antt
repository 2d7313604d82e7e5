-- ===== src/Program/Engine.antt =====
-- A whole PROGRAM run as a sequence of approvals, from the initial block on.
use ownframework_loop.Prelude.{
  ◌≡◌, refl, ◌≢◌, String, same, same_sym, rev_append, take, true, false, none, some, List, [], ◌∷◌,
  ◌++◌, any, all, All, ok, arith, ap, ◌∙◌, sym, subst,
}
use ownframework_loop.Packet.{Packet}
use ownframework_loop.Transitions.{approved, is_approved, is_blocked, is_stopped}
use ownframework_loop.Graph.Order.{DepsFirst}
use ownframework_loop.Graph.Admission.{IsWellFormed}
use ownframework_loop.Program.{Finalized, CheckpointState, ProgramState, find_cp}
use ownframework_loop.Program.Refresh.{
  finalized_state, refresh_current_checkpoints, select_next_checkpoint,
}
use ownframework_loop.Program.Finalize.{finalize_checkpoint, close_checkpoint, check_approval}
use ownframework_loop.Program.Terminal.{is_program_terminal}
use ownframework_loop.Program.Walk.{finalized_ids, ApprovedExactly, ApprovedExactly-snoc, pick-next}

-- `done` (last first) is approved and `rest` is still to be executed.
pub record AtStage (p : Packet) (prog : ProgramState) (done rest : List String) : Type 0 where
  pub deps : DepsFirst p.checkpoints done rest
  pub whole : p.execution_order ≡ rev_append done rest
  pub exactly : ApprovedExactly done prog.finalized_checkpoints
  pub listed : finalized_ids prog.finalized_checkpoints ≡ rev_append done []
  pub all_approved : All (λ fc. is_approved fc.terminal_state ≡ true) prog.finalized_checkpoints
  pub current : prog.current_checkpoints ≡ take 1 rest

-- The block after the approval of `c`, with `rest` still to be executed.
abbrev approved_block : String → String → String → List String → ProgramState → ProgramState
approved_block c now sha rest prog = record (close_checkpoint c approved now sha prog) {
  current_checkpoints = take 1 rest;
}

ids-snoc :
    (fs : List Finalized) (f : Finalized) (done : List String)
    → finalized_ids fs ≡ rev_append done []
    → finalized_ids (fs ++ f ∷ []) ≡ rev_append done (f.id ∷ [])
ids-snoc fs f done h = ids-append fs f ∙ ap (λ l. l ++ f.id ∷ []) h ∙ rev_append-snoc done [] f.id
  where
    ids-append :
        (fs : List Finalized) (f : Finalized)
        → finalized_ids (fs ++ f ∷ []) ≡ finalized_ids fs ++ f.id ∷ []
    ids-append [] f = refl
    ids-append (g ∷ fs) f = ap (λ l. g.id ∷ l) (ids-append fs f)

    rev_append-snoc :
        (xs ys : List String) (c : String)
        → rev_append xs ys ++ c ∷ [] ≡ rev_append xs (ys ++ c ∷ [])
    rev_append-snoc [] ys c = refl
    rev_append-snoc (x ∷ xs) ys c = rev_append-snoc xs (x ∷ ys) c

All-snoc :
    (fs : List Finalized) (f : Finalized)
    → All (λ fc. is_approved fc.terminal_state ≡ true) fs
    → is_approved f.terminal_state ≡ true
    → All (λ fc. is_approved fc.terminal_state ≡ true) (fs ++ f ∷ [])
All-snoc [] f h a = (a, tt)
All-snoc (g ∷ fs) f h a = (h.0, All-snoc fs f h.1 a)

any-finalized :
    (c : String) (fs : List Finalized)
    → finalized_state c fs ≡ none
    → any (λ fc. same fc.id c) fs ≡ false
unfolding finalized_state
any-finalized c [] h = refl
any-finalized c (f ∷ fs) h = ground (arith, same_sym f.id c, any-finalized c fs)

module _ {p : Packet} {prog : ProgramState} {c : String} {done rest : List String}
    (now sha : String) (at : AtStage p prog done (c ∷ rest)) where
  refresh_closed :
      refresh_current_checkpoints p (close_checkpoint c approved now sha prog)
      ≡ ok (approved_block c now sha rest prog)
  unfolding refresh_current_checkpoints close_checkpoint
  refresh_closed =
      let next =
        pick-next p.checkpoints (close_checkpoint c approved now sha prog).finalized_checkpoints
          (c ∷ done) rest at.deps.2
          (ApprovedExactly-snoc done prog.finalized_checkpoints
            (record {
              id = c;
              terminal_state = approved;
              finalized_at = now;
              evidence_sha256 = sha;
            })
            refl at.exactly) in
      rw (at.whole, next) refl

  pub AtStage-next : AtStage p (approved_block c now sha rest prog) (c ∷ done) rest
  unfolding close_checkpoint
  AtStage-next = record {
    deps = at.deps.2;
    whole = at.whole;
    exactly = ApprovedExactly-snoc done prog.finalized_checkpoints _ refl at.exactly;
    listed = ids-snoc prog.finalized_checkpoints _ done at.listed;
    all_approved = All-snoc prog.finalized_checkpoints _ at.all_approved refl;
    current = refl;
  }

  finalize_checkpoint-eq :
      {next : ProgramState}
      → finalize_checkpoint p prog c approved now sha ≡ ok next
      → next ≡ approved_block c now sha rest prog
  unfolding finalize_checkpoint
  finalize_checkpoint-eq h = ground (arith, refresh_closed)

  is_finalized : any (λ fc. same fc.id c) prog.finalized_checkpoints ≡ false
  is_finalized =
      any-finalized c prog.finalized_checkpoints (ground (arith, at.exactly c, at.deps.0))

  -- The current checkpoint can be approved as soon as it is open, had a build and a review, and the
  -- source stays within the ceilings.
  pub finalize_checkpoint-ok :
      {cp : CheckpointState}
      → find_cp c prog.checkpoints ≡ some cp
      → cp.terminal ≡ none
      → check_approval cp prog ≡ ok tt
      → finalize_checkpoint p prog c approved now sha ≡ ok (approved_block c now sha rest prog)
  unfolding finalize_checkpoint
  finalize_checkpoint-ok found unfinished fits =
      rw (found, is_finalized) (ground (arith, refresh_closed))

-- What lies between two approvals (claims, accounting, evidence) leaves these two fields alone.
pub record SameGraph (a b : ProgramState) : Type 0 where
  pub same_current : b.current_checkpoints ≡ a.current_checkpoints
  pub same_finalized : b.finalized_checkpoints ≡ a.finalized_checkpoints

-- The blocks that a run can reach by approving its current checkpoint, with other work in between.
pub data Approvals (p : Packet) (start : ProgramState) : List String → ProgramState → Type 0 where
  begin : Approvals p start [] start
  work :
      {done : List String} {a b : ProgramState}
      → Approvals p start done a
      → SameGraph a b
      → Approvals p start done b
  approve :
      {done : List String} {a b : ProgramState} (c now sha : String)
      → Approvals p start done a
      → select_next_checkpoint a ≡ some c
      → finalize_checkpoint p a c approved now sha ≡ ok b
      → Approvals p start (c ∷ done) b

-- The stage that `done` stands for, with what is left of the order.
abbrev pub Stage : Packet → ProgramState → List String → Type 0
Stage p prog done = (rest : List String) × AtStage p prog done rest

SameGraph-AtStage :
    {p : Packet} {a b : ProgramState} {done rest : List String}
    → SameGraph a b
    → AtStage p a done rest
    → AtStage p b done rest
SameGraph-AtStage {p} {a} {b} {done} {rest} s at = record {
  deps = at.deps;
  whole = at.whole;
  exactly = subst (ApprovedExactly done) (sym s.same_finalized) at.exactly;
  listed = ap finalized_ids s.same_finalized ∙ at.listed;
  all_approved =
      subst (All (λ fc. is_approved fc.terminal_state ≡ true)) (sym s.same_finalized)
        at.all_approved;
  current = s.same_current ∙ at.current;
}

approve-Stage :
    (p : Packet) (a b : ProgramState) (done rest : List String) (c now sha : String)
    → AtStage p a done rest
    → select_next_checkpoint a ≡ some c
    → finalize_checkpoint p a c approved now sha ≡ ok b
    → Stage p b (c ∷ done)
approve-Stage p a b done [] c now sha at next h = ground (arith, at.current)
approve-Stage p a b done (d ∷ rest) c now sha at next h =
    let here : d ≡ c = ground (arith, at.current) in
    let at' : AtStage p a done (c ∷ rest) = subst (λ x. AtStage p a done (x ∷ rest)) here at in
    (
      rest,
      subst (λ x. AtStage p x (c ∷ done) rest) (sym (finalize_checkpoint-eq now sha at' h))
          (AtStage-next now sha at'),
    )

Approvals-Stage :
    {p : Packet} {start prog : ProgramState} {done : List String}
    → AtStage p start [] p.execution_order
    → Approvals p start done prog
    → Stage p prog done
Approvals-Stage {p} s begin = (p.execution_order, s)
Approvals-Stage s (work path same_graph) =
    let (rest, at) = Approvals-Stage s path in (rest, SameGraph-AtStage same_graph at)
Approvals-Stage {p} s (approve {done} {a} {b} c now sha path next h) =
    let (rest, at) = Approvals-Stage s path in approve-Stage p a b done rest c now sha at next h

-- A block that a packet starts from: nothing is finalized and the first of the order is current.
pub record IsStart (p : Packet) (start : ProgramState) : Type 0 where
  pub nothing_finalized : start.finalized_checkpoints ≡ []
  pub first_current : start.current_checkpoints ≡ take 1 p.execution_order

IsStart-AtStage :
    {p : Packet} {start : ProgramState}
    → IsWellFormed p
    → IsStart p start
    → AtStage p start [] p.execution_order
unfolding finalized_state
IsStart-AtStage {p} {start} w s = record {
  deps = w.deps_first;
  whole = refl;
  exactly = λ x. ap (finalized_state x) s.nothing_finalized;
  listed = ap finalized_ids s.nothing_finalized;
  all_approved =
      subst (All (λ fc. is_approved fc.terminal_state ≡ true)) (sym s.nothing_finalized) tt;
  current = s.first_current;
}

-- However a run of a well-formed packet proceeds, the checkpoints approved so far are the first ones
-- of the execution order, in that order, all as APPROVED, and the next one is current: so the run is
-- never stuck before the end of the order.
pub Approvals-prefix :
    {p : Packet} {start prog : ProgramState} {done : List String}
    → IsWellFormed p
    → IsStart p start
    → Approvals p start done prog
    → (rest : List String) × (p.execution_order ≡ rev_append done rest)
      × (finalized_ids prog.finalized_checkpoints ≡ rev_append done [])
      × (select_next_checkpoint prog
          ≡ select_next_checkpoint (record prog { current_checkpoints = rest }))
      × All (λ fc. is_approved fc.terminal_state ≡ true) prog.finalized_checkpoints
Approvals-prefix w s path =
    let (rest, at) = Approvals-Stage (IsStart-AtStage w s) path in
    (rest, at.whole, at.listed, ground (arith, at.current), at.all_approved)

approved_only :
    (fs : List Finalized)
    → All (λ fc. is_approved fc.terminal_state ≡ true) fs
    → (any (λ fc. is_blocked fc.terminal_state) fs ≡ false)
      × (any (λ fc. is_stopped fc.terminal_state) fs ≡ false)
      × (all (λ fc. is_approved fc.terminal_state) fs ≡ true)
approved_only [] h = (refl, refl, refl)
approved_only (f ∷ fs) h = ground (arith, approved_only fs h.1)

terminal_approved :
    (fs : List Finalized) (prog : ProgramState)
    → prog.current_checkpoints ≡ []
    → prog.finalized_checkpoints ≡ fs
    → fs ≢ []
    → All (λ fc. is_approved fc.terminal_state ≡ true) fs
    → is_program_terminal prog ≡ some approved
unfolding is_program_terminal
terminal_approved [] prog c f some_done a = absurd (some_done refl)
terminal_approved (g ∷ fs) prog c f some_done a =
    rw (c, f) (ground (arith, approved_only (g ∷ fs) a))

-- A run of a well-formed packet has no current checkpoint only when every checkpoint of the order has
-- been approved, in that order; the program is then terminal as APPROVED.
pub Approvals-complete :
    {p : Packet} {start prog : ProgramState} {done : List String}
    → IsWellFormed p
    → IsStart p start
    → Approvals p start done prog
    → select_next_checkpoint prog ≡ none
    → (finalized_ids prog.finalized_checkpoints ≡ p.execution_order)
      × (is_program_terminal prog ≡ some approved)
Approvals-complete {p} {start} {prog} {done} w s path finished =
    let (rest, at) = Approvals-Stage (IsStart-AtStage w s) path in
    let over : rest ≡ [] = ground (arith, at.current) in
    let all_listed : finalized_ids prog.finalized_checkpoints ≡ p.execution_order =
      at.listed ∙ sym (at.whole ∙ ap (rev_append done) over) in
    (
      all_listed,
      terminal_approved prog.finalized_checkpoints prog (ground (arith, at.current)) refl
          (λ e. w.nonempty (sym (sym (ap finalized_ids e) ∙ all_listed))) at.all_approved,
    )
