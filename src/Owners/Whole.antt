-- ===== src/Owners/Whole.antt =====
-- The whole graph finalized, said with membership instead of the test of program.py.
use ownframework_loop.Prelude.{
  ◌≡◌, subst, inl, inr, String, same, same→eq, mem, Bool-cases, true, List, [], ◌∷◌, all, map, All,
  arith,
}
use mathlib.Core.List.{Mem, mem-cons_self, mem-cons_of_mem}
use ownframework_loop.Packet.{Checkpoint}
use ownframework_loop.Program.{Finalized}
use ownframework_loop.Owners.Fsm.{finalized_in}
use ownframework_loop.Owners.Review.{all_finalized}

-- Every checkpoint of the packet has an entry, and every entry is that of a checkpoint of the packet.
pub record IsWholeGraph (cps : List Checkpoint) (fcs : List Finalized) : Type 0 where
  pub each_done : All (λ cp. Mem cp.id (map (λ fc. fc.id) fcs)) cps
  pub none_else : All (λ fc. Mem fc.id (map (λ cp. cp.id) cps)) fcs

mem-Mem : (a : String) (xs : List String) → mem a xs ≡ true → Mem a xs
mem-Mem a [] h = absurd (ground (arith, h))
mem-Mem a (x ∷ xs) h = elim (Bool-cases (same a x)) [
  | inl e ↦ subst (λ y. Mem a (y ∷ xs)) (same→eq a x e) mem-cons_self
  | inr e ↦ mem-cons_of_mem x (mem-Mem a xs (ground (arith, h, e)))
]

finalized_in-Mem :
    (c : String) (fcs : List Finalized) → finalized_in c fcs ≡ true → Mem c (map (λ fc. fc.id) fcs)
unfolding finalized_in
finalized_in-Mem c [] h = absurd (ground (arith, h))
finalized_in-Mem c (f ∷ fcs) h = elim (Bool-cases (same f.id c)) [
  | inl e ↦ subst (λ y. Mem y (f.id ∷ map (λ fc. fc.id) fcs)) (same→eq f.id c e) mem-cons_self
  | inr e ↦ mem-cons_of_mem f.id (finalized_in-Mem c fcs (ground (arith, h, e)))
]

each_listed :
    (fcs : List Finalized) (cps : List Checkpoint)
    → all (λ cp. finalized_in cp.id fcs) cps ≡ true
    → All (λ cp. Mem cp.id (map (λ fc. fc.id) fcs)) cps
each_listed fcs [] h = tt
each_listed fcs (cp ∷ cps) h =
    (finalized_in-Mem cp.id fcs (ground (arith, h)), each_listed fcs cps (ground (arith, h)))

none_beyond :
    (ids : List String) (fcs : List Finalized)
    → all (λ fc. mem fc.id ids) fcs ≡ true
    → All (λ fc. Mem fc.id ids) fcs
none_beyond ids [] h = tt
none_beyond ids (fc ∷ fcs) h =
    (mem-Mem fc.id ids (ground (arith, h)), none_beyond ids fcs (ground (arith, h)))

-- The test that an advancement makes before the whole-product review establishes it.
pub all_finalized-IsWholeGraph :
    (cps : List Checkpoint) (fcs : List Finalized)
    → all_finalized cps fcs ≡ true
    → IsWholeGraph cps fcs
unfolding all_finalized
all_finalized-IsWholeGraph cps fcs h = record {
  each_done = each_listed fcs cps (ground (arith, h));
  none_else = none_beyond (map (λ cp. cp.id) cps) fcs (ground (arith, h));
}
