-- ===== src/Journal/Monotone.antt =====
-- More events never unbind an allocation.
use ownframework_loop.Prelude.{
  ◌≡◌, refl, ℕ, ◌+◌, Bool, true, ◌||◌, none, some, Option, List, [], ◌∷◌, ◌++◌, any, ok,
  Option-cases, inl, inr, arith,
}
use ownframework_loop.Program.{Allocation}
use ownframework_loop.Budget.{allocations_of}
use ownframework_loop.Run.{RunState}
use ownframework_loop.Integrity.{Intent, Hashes}
use ownframework_loop.Journal.Bindings.{
  names_allocation, imports, verify_rows, verify_allocation_bindings,
}

any-append {ℓ} :
    {A : Type ℓ} (p : A → Bool) (xs ys : List A) → any p xs ≡ true → any p (xs ++ ys) ≡ true
any-append p [] ys e = ground arith
any-append p (x ∷ xs) ys e = ground (arith, any-append p xs ys)

bound_more :
    (a b c d : Bool)
    → (a ≡ true → c ≡ true)
    → (b ≡ true → d ≡ true)
    → (a || b) ≡ true
    → (c || d) ≡ true
bound_more a b c d f g e = ground arith

module _ {D : Type 0} (h : Hashes D) where
  verify_rows-append :
      (ledger rows : List Allocation) (events more : List Intent) (index : ℕ)
      → verify_rows h ledger events index rows ≡ ok tt
      → verify_rows h ledger (events ++ more) index rows ≡ ok tt
  verify_rows-append ledger [] events more index e = refl
  verify_rows-append ledger (row ∷ rows) events more index e =
      let named =
        any-append (names_allocation row.allocation_id (h.allocation_row row)) events more in
      let imported = any-append (imports h ledger index) events more in
      let rest = verify_rows-append ledger rows events more (index + 1) in
      ground (arith, named, imported, rest)

  pub bindings-append :
      (o : Option RunState) (events more : List Intent)
      → verify_allocation_bindings h o events ≡ ok tt
      → verify_allocation_bindings h o (events ++ more) ≡ ok tt
  unfolding verify_allocation_bindings
  bindings-append none events more e = refl
  bindings-append (some s) events more e = elim (Option-cases s.program) [
    | inl absent_block ↦ ground (arith, absent_block)
    | inr found ↦
        let kept =
          verify_rows-append (allocations_of found.0) (allocations_of found.0) events more 0 in
        ground (arith, found.1, kept)
  ]
