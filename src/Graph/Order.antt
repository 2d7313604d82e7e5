-- ===== src/Graph/Order.antt =====
-- An admitted graph is executed in dependency order: what no diagnostic means for the order.
use ownframework_loop.Prelude.{
  ◌≡◌, refl, String, same_sym, mem, distinct, rev_append, true, false, not, some, List, [], ◌∷◌,
  any, All, report, append-eq_nil, report-eq_nil, arith, ◌∙◌, ap,
}
use ownframework_loop.Packet.{Checkpoint}
use ownframework_loop.Graph.{ids, collect, field_errors, order_duplicate, order_omits}
use ownframework_loop.Graph.Positions.{order_errors, find_checkpoint}

-- From `done` on, each checkpoint of the order is new, is in the graph, and has its dependencies
-- among those before it.
abbrev pub DepsFirst : List Checkpoint → List String → List String → Type 0
DepsFirst cps done [] = Unit {0}
DepsFirst cps done (cid ∷ order) =
    (mem cid done ≡ false)
    × ((cp : Checkpoint) × (find_checkpoint cid cps ≡ some cp)
        × All (λ d. mem d done ≡ true) cp.depends_on)
    × DepsFirst cps (cid ∷ done) order

collect_step :
    (seen : List String) (cp : Checkpoint) (cps : List Checkpoint)
    → (collect seen (cp ∷ cps)).1 ≡ []
    → (mem cp.id seen ≡ false)
      × ((collect seen (cp ∷ cps)).0 ≡ cp ∷ (collect (cp.id ∷ seen) cps).0)
      × ((collect (cp.id ∷ seen) cps).1 ≡ [])
unfolding collect
collect_step seen cp cps h =
    ground (arith, append-eq_nil (field_errors cp) (collect (cp.id ∷ seen) cps).1)

-- A list none of whose ids is among those seen.
abbrev Fresh : List String → List Checkpoint → Type 0
Fresh seen = All (λ cp. mem cp.id seen ≡ false)

Fresh-weaken :
    (x : String) (seen : List String) (cps : List Checkpoint)
    → Fresh (x ∷ seen) cps
    → Fresh seen cps
Fresh-weaken x seen [] h = tt
Fresh-weaken x seen (cp ∷ cps) h = (ground arith, Fresh-weaken x seen cps h.1)

Fresh-not_mem :
    (x : String) (seen : List String) (cps : List Checkpoint)
    → Fresh (x ∷ seen) cps
    → mem x (ids cps) ≡ false
Fresh-not_mem x seen [] h = refl
Fresh-not_mem x seen (cp ∷ cps) h = ground (arith, same_sym x cp.id, Fresh-not_mem x seen cps h.1)

pub collect-eq :
    (seen : List String) (cps : List Checkpoint)
    → (collect seen cps).1 ≡ []
    → ((collect seen cps).0 ≡ cps) × (distinct (ids cps) ≡ true) × Fresh seen cps
unfolding collect
collect-eq seen [] h = (refl, refl, tt)
collect-eq seen (cp ∷ cps) h =
    let (new, here, rest) = collect_step seen cp cps h in
    let (same_list, apart, fresh) = collect-eq (cp.id ∷ seen) cps rest in
    (
      here ∙ ap (λ r. cp ∷ r) same_list,
      ground (arith, Fresh-not_mem cp.id seen cps fresh),
      (new, Fresh-weaken cp.id seen cps fresh),
    )

pub order_step :
    (known seen : List String) (cid : String) (order : List String)
    → order_errors known seen (cid ∷ order) ≡ []
    → (mem cid known ≡ true) × (mem cid seen ≡ false) × (order_errors known (cid ∷ seen) order ≡ [])
unfolding order_errors
order_step known seen cid order h = ground (
  arith,
  append-eq_nil (report (mem cid seen) order_duplicate) (order_errors known (cid ∷ seen) order),
)

any-false :
    (seen known : List String)
    → any (λ c. not (mem c seen)) known ≡ false
    → All (λ c. mem c seen ≡ true) known
any-false seen [] h = tt
any-false seen (k ∷ known) h = (ground arith, any-false seen known (ground arith))

-- Every id that is known stands in the order or was seen before it.
pub order-total :
    (known seen order : List String)
    → order_errors known seen order ≡ []
    → All (λ k. mem k (rev_append order seen) ≡ true) known
unfolding order_errors
order-total known seen [] h = any-false seen known (report-eq_nil _ order_omits h)
order-total known seen (cid ∷ order) h =
    order-total known (cid ∷ seen) order (order_step known seen cid order h).2
