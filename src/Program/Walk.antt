-- ===== src/Program/Walk.antt =====
-- The engine approves the checkpoints of a well-formed packet one after the other, in the order of
-- the packet: `pick` refines "the next entry of the execution order".
use ownframework_loop.Prelude.{
  ◌≡◌, refl, String, same, same_refl, mem, rev_append, take, true, none, some, List, [], ◌∷◌, ◌++◌,
  map, All, All-imp, if◌then◌else◌, ok, arith, ◌∙◌,
}
use ownframework_loop.Packet.{Checkpoint}
use ownframework_loop.Transitions.{approved}
use ownframework_loop.Graph.Order.{DepsFirst}
use ownframework_loop.Program.{Finalized}
use ownframework_loop.Program.Refresh.{finalized_state, deps_ok, pick_step, pick}

abbrev pub finalized_ids : List Finalized → List String
finalized_ids = map λ fc. fc.id

finalized_state-snoc :
    (x : String) (fs : List Finalized) (f : Finalized)
    → finalized_state x (fs ++ f ∷ [])
      ≡ (if same x f.id then some f.terminal_state else finalized_state x fs)
unfolding finalized_state
finalized_state-snoc x [] f = refl
finalized_state-snoc x (g ∷ fs) f = ground (arith, finalized_state-snoc x fs f)

-- The checkpoints of `done`, and no others, are finalized, all as APPROVED.
abbrev pub ApprovedExactly : List String → List Finalized → Type 0
ApprovedExactly done fs =
    (x : String) → finalized_state x fs ≡ (if mem x done then some approved else none)

pub ApprovedExactly-snoc :
    (done : List String) (fs : List Finalized) (f : Finalized)
    → f.terminal_state ≡ approved
    → ApprovedExactly done fs
    → ApprovedExactly (f.id ∷ done) (fs ++ f ∷ [])
ApprovedExactly-snoc done fs f a h x = ground (arith, finalized_state-snoc x fs f, h x)

pick-done :
    (cps : List Checkpoint) (fs : List Finalized) (done rest : List String)
    → All (λ d. finalized_state d fs ≡ some approved) done
    → pick cps fs (rev_append done rest) ≡ pick cps fs rest
unfolding pick pick_step
pick-done cps fs [] rest h = refl
pick-done cps fs (d ∷ done) rest h = pick-done cps fs done (d ∷ rest) h.1 ∙ rw (h.0, pick_step) refl

done_finalized :
    (done within : List String) (fs : List Finalized)
    → ApprovedExactly within fs
    → All (λ d. mem d within ≡ true) done
    → All (λ d. finalized_state d fs ≡ some approved) done
done_finalized [] within fs h m = tt
done_finalized (d ∷ done) within fs h m =
    (ground (arith, h d, m.0), done_finalized done within fs h m.1)

deps_ok-done :
    (deps done : List String) (fs : List Finalized)
    → ApprovedExactly done fs
    → All (λ d. mem d done ≡ true) deps
    → deps_ok fs deps ≡ true
unfolding deps_ok
deps_ok-done [] done fs h m = refl
deps_ok-done (d ∷ deps) done fs h m = ground (arith, h d, m.0, deps_ok-done deps done fs h m.1)

mem-All : (done : List String) → All (λ d. mem d done ≡ true) done
mem-All [] = tt
mem-All (d ∷ done) =
    (ground (arith, same_refl d), All-imp done _ _ (λ x m. ground (arith, m)) (mem-All done))

-- With exactly `done` approved, the loop over the whole order stops at the first entry after it.
pub pick-next :
    (cps : List Checkpoint) (fs : List Finalized) (done rest : List String)
    → DepsFirst cps done rest
    → ApprovedExactly done fs
    → pick cps fs (rev_append done rest) ≡ ok (take 1 rest)
unfolding pick pick_step
pick-next cps fs done [] deps h =
    pick-done cps fs done [] (done_finalized done done fs h (mem-All done))
pick-next cps fs done (c ∷ rest) deps h =
    let (new, (cp, found, before), later) = deps in
    pick-done cps fs done (c ∷ rest) (done_finalized done done fs h (mem-All done))
    ∙ ground (arith, h c, deps_ok-done cp.depends_on done fs h before)
