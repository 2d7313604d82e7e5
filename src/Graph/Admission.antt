-- ===== src/Graph/Admission.antt =====
-- What an empty list of diagnostics from `validate_checkpoint_graph` means.
use ownframework_loop.Prelude.{
  ℕ, ◌+◌, ◌≤◌, ◌≡◌, ◌≢◌, String, mem, distinct, rev_append, mem-rev_append, All-imp, length, true,
  some, List, [], ◌∷◌, ◌++◌, All, each-eq_nil, append-eq_nil, Result, ok, err, ◌>>=◌, arith, get_or,
  ap, subst,
}
use ownframework_loop.Packet.{RiskBudget, Checkpoint, Packet, empty_budget}
use ownframework_loop.Graph.{
  GraphError, ids, collect, checkpoint_errors, budget_errors, dependency_errors,
}
use ownframework_loop.Graph.Positions.{order_errors, position_errors}
use ownframework_loop.Graph.Validate.{
  validate_checkpoint_graph, graph_errors, admit, global_cap_errors,
}
use ownframework_loop.Graph.Order.{DepsFirst, collect-eq, order-total}
use ownframework_loop.Graph.Dependencies.{DepsFirst-of_errors}

-- The caps of a checkpoint are declared, positive and at most 32, and its builds and its reviews can
-- realize all its repairs.
pub record IsFunded (b : RiskBudget) : Type 0 where
  pub builds : ℕ
  pub reviews : ℕ
  pub repairs : ℕ
  pub declares_builds : b.max_build_passes ≡ some builds
  pub declares_reviews : b.max_review_passes ≡ some reviews
  pub declares_repairs : b.max_repair_rounds ≡ some repairs
  pub build_room : 1 + repairs ≤ builds
  pub review_room : 1 + repairs ≤ reviews
  pub repair_low : 1 ≤ repairs
  pub build_high : builds ≤ 32
  pub review_high : reviews ≤ 32

-- The packet's own caps pay for every checkpoint, every repair, and the final review.
pub record FundsProgram (n : ℕ) (b : RiskBudget) : Type 0 where
  pub builds : ℕ
  pub reviews : ℕ
  pub repairs : ℕ
  pub declares_builds : b.max_build_passes ≡ some builds
  pub declares_reviews : b.max_review_passes ≡ some reviews
  pub declares_repairs : b.max_repair_rounds ≡ some repairs
  pub build_room : n + repairs ≤ builds
  pub review_room : n + repairs + 1 ≤ reviews

pub record IsWellFormed (p : Packet) : Type 0 where
  pub distinct_ids : distinct (ids p.checkpoints) ≡ true
  pub deps_first : DepsFirst p.checkpoints [] p.execution_order
  pub total : All (λ c. mem c p.execution_order ≡ true) (ids p.checkpoints)
  pub nonempty : p.execution_order ≢ []
  pub funded : All (λ cp. IsFunded (get_or cp.risk_budget empty_budget)) p.checkpoints
  pub global : FundsProgram (length p.checkpoints) p.risk_budget

budget_errors-IsFunded : (b : RiskBudget) → budget_errors b ≡ [] → IsFunded b
unfolding budget_errors
budget_errors-IsFunded b h = record {
  builds = get_or b.max_build_passes 0;
  reviews = get_or b.max_review_passes 0;
  repairs = get_or b.max_repair_rounds 0;
  declares_builds = ground arith;
  declares_reviews = ground arith;
  declares_repairs = ground arith;
  build_room = ground arith;
  review_room = ground arith;
  repair_low = ground arith;
  build_high = ground arith;
  review_high = ground arith;
}

global_cap_errors-FundsProgram :
    (n : ℕ) (b : RiskBudget)
    → global_cap_errors n b.max_build_passes b.max_review_passes b.max_repair_rounds ≡ []
    → FundsProgram n b
unfolding global_cap_errors
global_cap_errors-FundsProgram n b h = record {
  builds = get_or b.max_build_passes 0;
  reviews = get_or b.max_review_passes 0;
  repairs = get_or b.max_repair_rounds 0;
  declares_builds = ground arith;
  declares_reviews = ground arith;
  declares_repairs = ground arith;
  build_room = ground arith;
  review_room = ground arith;
}

known_deps :
    (known : List String) (cid : String) (deps : List String)
    → All (λ d. dependency_errors known cid d ≡ []) deps
    → All (λ d. mem d known ≡ true) deps
unfolding dependency_errors
known_deps known cid [] h = tt
known_deps known cid (d ∷ deps) h = let this = h.0 in (ground arith, known_deps known cid deps h.1)

checkpoints_sound :
    (known : List String) (cps : List Checkpoint)
    → All (λ cp. checkpoint_errors known cp ≡ []) cps
    → All (λ cp. IsFunded (get_or cp.risk_budget empty_budget)) cps
      × All (λ cp. All (λ d. mem d known ≡ true) cp.depends_on) cps
unfolding checkpoint_errors
checkpoints_sound known [] h = (tt, tt)
checkpoints_sound known (cp ∷ cps) h =
    let (caps, deps) = append-eq_nil (budget_errors (get_or cp.risk_budget empty_budget)) _ h.0 in
    let (funded, known_all) = checkpoints_sound known cps h.1 in
    (
      (budget_errors-IsFunded _ caps, funded),
      (known_deps known cp.id cp.depends_on (each-eq_nil _ cp.depends_on deps), known_all),
    )

-- The parts of the whole list.
parts_empty {ℓ} :
    {E : Type 0} {D : Type ℓ} (r : Result E (List D)) (a b c d e f g : List D)
    → (r >>= λ late. ok (a ++ (b ++ (c ++ (d ++ (e ++ (late ++ (f ++ g)))))))) ≡ ok []
    → (r ≡ ok []) × (a ≡ []) × (b ≡ []) × (d ≡ []) × (g ≡ [])
parts_empty (err x) a b c d e f g h = cc
parts_empty (ok late) a b c d e f g h =
    let (a0, r1) = append-eq_nil a _ (ground arith) in
    let (b0, r2) = append-eq_nil b _ r1 in
    let (c0, r3) = append-eq_nil c _ r2 in
    let (d0, r4) = append-eq_nil d _ r3 in
    let (e0, r5) = append-eq_nil e _ r4 in
    let (l0, r6) = append-eq_nil late _ r5 in
    let (f0, g0) = append-eq_nil f g r6 in (ap ok l0, a0, b0, d0, g0)

graph_errors_sound :
    (p : Packet) (by_id : List Checkpoint) (first : List GraphError)
    → graph_errors p by_id first ≡ ok []
    → (first ≡ [])
      × (order_errors (ids by_id) [] p.execution_order ≡ [])
      × (position_errors by_id p.execution_order [] p.execution_order ≡ ok [])
      × All (λ cp. checkpoint_errors (ids by_id) cp ≡ []) by_id
      × FundsProgram (length by_id) p.risk_budget
unfolding graph_errors
graph_errors_sound p by_id first h =
    let (late, a, b, d, g) =
      parts_empty (position_errors by_id p.execution_order [] p.execution_order) first _ _ _ _ _ _
        h in
    (a, d, late, each-eq_nil _ by_id b, global_cap_errors-FundsProgram _ p.risk_budget g)

nonempty_admit :
    (order : List String) (cps : List Checkpoint) (p : Packet)
    → admit order cps p ≡ ok []
    → (order ≢ []) × (graph_errors p (collect [] cps).0 (collect [] cps).1 ≡ ok [])
unfolding admit
nonempty_admit [] cps p h = cc
nonempty_admit (c ∷ order) [] p h = cc
nonempty_admit (c ∷ order) (cp ∷ cps) p h = ((λ e. cc), h)

sound_parts :
    (p : Packet) (by_id : List Checkpoint) (first : List GraphError)
    → by_id ≡ p.checkpoints
    → p.execution_order ≢ []
    → distinct (ids p.checkpoints) ≡ true
    → graph_errors p by_id first ≡ ok []
    → IsWellFormed p
sound_parts p by_id first whole nonempty apart h =
    let (_, once, late, per_checkpoint, global) =
      graph_errors_sound p p.checkpoints first
        (subst (λ l. graph_errors p l first ≡ ok []) whole h) in
    let (funded, known) = checkpoints_sound (ids p.checkpoints) p.checkpoints per_checkpoint in
    let total = order-total (ids p.checkpoints) [] p.execution_order once in
    let total' =
      All-imp (ids p.checkpoints) (λ k. mem k (rev_append p.execution_order []) ≡ true)
        (λ k. mem k p.execution_order ≡ true)
        (λ k m. ground (arith, mem-rev_append k p.execution_order [])) total in
    record {
      distinct_ids = apart;
      deps_first =
          DepsFirst-of_errors p.checkpoints (ids p.checkpoints) [] p.execution_order known total'
            once late;
      total = total';
      nonempty = nonempty;
      funded = funded;
      global = global;
    }

-- A packet whose graph is admitted with no diagnostic is well formed: its checkpoints have different
-- ids, its execution order is a non-empty list of checkpoints of the graph with no repetition in
-- which each stands after all its dependencies and none is left out, each checkpoint's caps and the
-- packet's own caps can pay for what they promise.
pub validate_checkpoint_graph-IsWellFormed :
    (p : Packet) → validate_checkpoint_graph p ≡ ok [] → IsWellFormed p
unfolding validate_checkpoint_graph
validate_checkpoint_graph-IsWellFormed p h =
    let (nonempty, admitted) = nonempty_admit p.execution_order p.checkpoints p h in
    let (first, _, _, _, _) =
      graph_errors_sound p (collect [] p.checkpoints).0 (collect [] p.checkpoints).1 admitted in
    let (whole, apart, _) = collect-eq [] p.checkpoints first in
    sound_parts p (collect [] p.checkpoints).0 (collect [] p.checkpoints).1 whole nonempty apart
      admitted
