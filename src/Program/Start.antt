-- ===== src/Program/Start.antt =====
-- The block that `materialise_initial_program_state` makes is one that a run can start from.
use ownframework_loop.Prelude.{
  Option, ◌≡◌, refl, String, mem, take, true, List, [], ◌∷◌, All, ok, arith, sym, subst,
}
use ownframework_loop.Packet.{Checkpoint, Packet}
use ownframework_loop.Graph.Order.{DepsFirst}
use ownframework_loop.Graph.Validate.{validate_checkpoint_graph}
use ownframework_loop.Graph.Admission.{IsWellFormed, validate_checkpoint_graph-IsWellFormed}
use ownframework_loop.Program.{ProgramState, Digests}
use ownframework_loop.Program.Initial.{
  materialise_initial_program_state, initial_block, initial_current,
}
use ownframework_loop.Program.Engine.{IsStart}

none_before : (deps : List String) → All (λ d. mem d [] ≡ true) deps → deps ≡ []
none_before [] h = refl
none_before (d ∷ deps) h = cc

initial_current-first :
    (cps : List Checkpoint) (order : List String)
    → DepsFirst cps [] order
    → initial_current cps order ≡ take 1 order
unfolding initial_current
initial_current-first cps [] h = refl
initial_current-first cps (c ∷ order) h =
    let (_, (cp, found, before), _) = h in ground (arith, none_before cp.depends_on before)

initial_block-IsStart :
    (d : Digests) (p : Packet) (sha : String) (mission : Option String)
    → IsWellFormed p
    → IsStart p (initial_block d p sha mission)
unfolding initial_block
initial_block-IsStart d p sha mission w = record {
  nothing_finalized = refl;
  first_current = initial_current-first p.checkpoints p.execution_order w.deps_first;
}

pub materialise_inversion :
    (d : Digests) (p : Packet) (sha : String) (mission : Option String) (start : ProgramState)
    → materialise_initial_program_state d p sha mission ≡ ok start
    → (validate_checkpoint_graph p ≡ ok []) × (start ≡ initial_block d p sha mission)
unfolding materialise_initial_program_state
materialise_inversion d p sha mission start h = ground arith

-- A packet that a PROGRAM block can be made from is well formed, and the block has nothing finalized
-- and the first checkpoint of the execution order as its current one.
pub materialise-IsStart :
    (d : Digests) (p : Packet) (sha : String) (mission : Option String) (start : ProgramState)
    → materialise_initial_program_state d p sha mission ≡ ok start
    → IsWellFormed p × IsStart p start
materialise-IsStart d p sha mission start h =
    let (admitted, e) = materialise_inversion d p sha mission start h in
    let w = validate_checkpoint_graph-IsWellFormed p admitted in
    (w, subst (IsStart p) (sym e) (initial_block-IsStart d p sha mission w))
