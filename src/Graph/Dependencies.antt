-- ===== src/Graph/Dependencies.antt =====
-- The positions that the validator compares put every dependency before its checkpoint.
use ownframework_loop.Prelude.{
  ℕ, suc, ◌+◌, ◌≡◌, refl, ◌≢◌, inl, inr, String, same, same_refl, same→eq, mem, rev_append,
  mem-rev_append, length, Bool-cases, Option-cases, true, false, Option, none, some, List, [], ◌∷◌,
  All, report, each-eq_nil, append-eq_nil, report-eq_nil, Result, ok, err, arith, subst, ap, ◌∙◌,
  sym,
}
use ownframework_loop.Packet.{Checkpoint}
use ownframework_loop.Graph.{GraphError, order_before_dependency}
use ownframework_loop.Graph.Positions.{
  KeyError, order_errors, position, find_checkpoint, late_dependency, position_of_errors,
  position_errors, position_step,
}
use ownframework_loop.Graph.Order.{order_step, DepsFirst}

position-none : (d : String) (ys : List String) → mem d ys ≡ false → position d ys ≡ none
unfolding position
position-none d [] h = refl
position-none d (y ∷ ys) h = ground (arith, position-none d ys)

position-some : (d : String) (ys : List String) → mem d ys ≡ true → position d ys ≢ none
unfolding position
position-some d [] h = cc
position-some d (y ∷ ys) h = ground (arith, position-some d ys)

position-shift :
    (d : String) (done ys : List String) (i : ℕ)
    → position d ys ≡ some i
    → position d (rev_append done ys) ≡ some (i + length done)
unfolding position
position-shift d [] ys i h = ground arith
position-shift d (x ∷ done) ys i h =
    position-shift d done (x ∷ ys) (suc i) (ground arith) ∙ ap some (omega arith)

-- The position of the checkpoint that stands right after `done`.
position_self :
    (c : String) (done rest : List String)
    → mem c rest ≡ false
    → position c (rev_append done (c ∷ rest)) ≡ some (length done)
unfolding position
position_self c done rest h =
    position-shift c done (c ∷ rest) 0 (ground (arith, position-none c rest h, same_refl c))
    ∙ ap some (omega arith)

-- A dependency that is in the order, and not late, stands in `done`.
dependency-done :
    (d c : String) (done rest : List String)
    → mem c rest ≡ false
    → mem d (rev_append done (c ∷ rest)) ≡ true
    → late_dependency (rev_append done (c ∷ rest)) (position c (rev_append done (c ∷ rest))) d
      ≡ false
    → mem d done ≡ true
unfolding late_dependency
dependency-done d c done rest fresh listed late = elim (Bool-cases (mem d done)) [
  | inl there ↦ there
  | inr missing ↦ elim (Option-cases (position d (c ∷ rest))) [
    | inl nowhere ↦ ground (arith, mem-rev_append d done (c ∷ rest), position-some d (c ∷ rest))
    | inr (i, at) ↦
        ground (arith, position-shift d done (c ∷ rest) i at, position_self c done rest fresh)
  ]
]

-- What is seen already does not come again.
order-fresh :
    (known seen order : List String) (c : String)
    → order_errors known seen order ≡ []
    → mem c seen ≡ true
    → mem c order ≡ false
order-fresh known seen [] c h m = refl
order-fresh known seen (x ∷ order) c h m =
    let (_, new, rest) = order_step known seen x order h in
    ground (arith, same→eq c x, order-fresh known (x ∷ seen) order c rest)

not_late :
    (order : List String) (at : Option ℕ) (deps : List String)
    → All (λ d. report (late_dependency order at d) order_before_dependency ≡ []) deps
    → All (λ d. late_dependency order at d ≡ false) deps
not_late order at [] h = tt
not_late order at (d ∷ deps) h =
    (report-eq_nil _ order_before_dependency h.0, not_late order at deps h.1)

position_split :
    (order : List String) (cid : String) (found : Option Checkpoint)
    (rest : Result KeyError (List GraphError))
    → position_step order cid found rest ≡ ok []
    → (cp : Checkpoint) × (found ≡ some cp)
      × All (λ d. late_dependency order (position cid order) d ≡ false) cp.depends_on
      × (rest ≡ ok [])
unfolding position_step position_of_errors
position_split order cid none rest h = cc
position_split order cid (some cp) (err e) h = cc
position_split order cid (some cp) (ok more) h =
    let (here, after) = append-eq_nil (position_of_errors order cid cp) more (ground arith) in
    (
      cp,
      refl,
      not_late order (position cid order) cp.depends_on (each-eq_nil _ cp.depends_on here),
      ap ok after,
    )

position_errors_step :
    (by_id : List Checkpoint) (order seen : List String) (cid : String) (todo : List String)
    → mem cid seen ≡ false
    → position_errors by_id order seen (cid ∷ todo) ≡ ok []
    → position_step order cid
        (find_checkpoint cid by_id)
        (position_errors by_id order (cid ∷ seen) todo)
      ≡ ok []
unfolding position_errors
position_errors_step by_id order seen cid todo new h = ground arith

pub All-find {ℓ} :
    (P : Checkpoint → Type ℓ) (cid : String) (cps : List Checkpoint) (cp : Checkpoint)
    → All P cps
    → find_checkpoint cid cps ≡ some cp
    → P cp
unfolding find_checkpoint
All-find P cid [] cp h e = cc
All-find P cid (x ∷ cps) cp h e = elim (Bool-cases (same cid x.id)) [
  | inl hit ↦ subst P (ground arith) h.0
  | inr miss ↦ All-find P cid cps cp h.1 (ground arith)
]

All-mem : (P : String → Type 0) (xs : List String) (x : String) → All P xs → mem x xs ≡ true → P x
All-mem P [] x h m = cc
All-mem P (y ∷ xs) x h m = elim (Bool-cases (same x y)) [
  | inl hit ↦ subst P (sym (same→eq x y hit)) h.0
  | inr miss ↦ All-mem P xs x h.1 (ground arith)
]

done_deps :
    (c : String) (known done rest deps : List String)
    → mem c rest ≡ false
    → All (λ k. mem k (rev_append done (c ∷ rest)) ≡ true) known
    → All (λ d. mem d known ≡ true) deps
    → All
        (λ d.
          late_dependency (rev_append done (c ∷ rest)) (position c (rev_append done (c ∷ rest))) d
          ≡ false)
        deps
    → All (λ d. mem d done ≡ true) deps
done_deps c known done rest [] fresh total in_graph late = tt
done_deps c known done rest (d ∷ deps) fresh total in_graph late = (
  dependency-done d c done rest fresh (All-mem _ known d total in_graph.0) late.0,
  done_deps c known done rest deps fresh total in_graph.1 late.1,
)

-- No diagnostic on the order and on the positions puts every checkpoint after its dependencies.
pub DepsFirst-of_errors :
    (by_id : List Checkpoint) (known done order : List String)
    → All (λ cp. All (λ d. mem d known ≡ true) cp.depends_on) by_id
    → All (λ k. mem k (rev_append done order) ≡ true) known
    → order_errors known done order ≡ []
    → position_errors by_id (rev_append done order) done order ≡ ok []
    → DepsFirst by_id done order
DepsFirst-of_errors by_id known done [] in_graph total once late = tt
DepsFirst-of_errors by_id known done (c ∷ rest) in_graph total once late =
    let (_, new, once') = order_step known done c rest once in
    let fresh = order-fresh known (c ∷ done) rest c once' (ground (arith, same_refl c)) in
    let (cp, found, not_after, late') =
      position_split (rev_append done (c ∷ rest)) c (find_checkpoint c by_id)
        (position_errors by_id (rev_append done (c ∷ rest)) (c ∷ done) rest)
        (position_errors_step by_id (rev_append done (c ∷ rest)) done c rest new late) in
    (
      new,
      (
        cp,
        found,
        done_deps c known done rest cp.depends_on fresh total
            (All-find (λ k. All (λ d. mem d known ≡ true) k.depends_on) c by_id cp in_graph found)
            not_after,
      ),
      DepsFirst-of_errors by_id known (c ∷ done) rest in_graph total once' late',
    )
