-- ===== src/Supervisor/Settled.antt =====
-- The end of a hold: its release and its cancellation.
use ownframework_loop.Prelude.{
  ℕ, ◌==◌, ◌≡◌, refl, sym, ap, subst, ◌∙◌, String, same, true, ◌&&◌, some, List, [], ◌∷◌, arith,
  Bool-cases, ◌⊎◌, inl, inr,
}
use ownframework_loop.Supervisor.{Hold, armed, held, Ledger}
use ownframework_loop.Supervisor.Holds.{
  find_hold, update_hold, release_row, cancel_row, release_dispatch_hold, cancel_dispatch_hold,
  changed, unchanged, release_requires_held, cancel_refuses_released,
}

updated_first :
    (id : String) (job : ℕ) (f : Hold → Hold) (x : Hold) (xs : List Hold)
    → (same x.hold_id id && (x.job_id == job)) ≡ true
    → update_hold id job f (x ∷ xs) ≡ f x ∷ xs
updated_first id job f x xs e = ground (arith, e)

found_first :
    (id : String) (job : ℕ) (x : Hold) (xs : List Hold)
    → (same x.hold_id id && (x.job_id == job)) ≡ true
    → find_hold id job (x ∷ xs) ≡ some x
found_first id job x xs e = ground (arith, e)

first_row :
    (id : String) (job : ℕ) (x row : Hold) (xs : List Hold)
    → (same x.hold_id id && (x.job_id == job)) ≡ true
    → find_hold id job (x ∷ xs) ≡ some row
    → x ≡ row
first_row id job x row xs e found = ground (arith, e, found)

-- An update that keeps the keys is found again.
find-updated :
    (id : String) (job : ℕ) (f : Hold → Hold) (xs : List Hold) (row : Hold)
    → ((x : Hold) → ((f x).hold_id ≡ x.hold_id) × ((f x).job_id ≡ x.job_id))
    → find_hold id job xs ≡ some row
    → find_hold id job (update_hold id job f xs) ≡ some (f row)
find-updated id job f [] row kept found = absurd (ground (arith, found))
find-updated id job f (x ∷ xs) row kept found =
    let ih = find-updated id job f xs row kept in
    elim (Bool-cases (same x.hold_id id && (x.job_id == job))) [
      | inl here ↦
          ap (find_hold id job) (updated_first id job f x xs here)
          ∙ found_first id job (f x) xs (
              subst (λ h. (same h id && ((f x).job_id == job)) ≡ true) (sym (kept x).0)
                (subst (λ n. (same x.hold_id id && (n == job)) ≡ true) (sym (kept x).1) here))
          ∙ ap (λ r. some (f r)) (first_row id job x row xs here found)
      | inr there ↦ ground (arith, there, ih, found)
    ]

-- A release of a held hold is final: the row is RELEASED, a second release changes nothing and answers
-- with the row, and a cancellation is refused and changes nothing.
pub release_dispatch_hold-final :
    (id : String) (job now later : ℕ) (l : Ledger) (row : Hold)
    → find_hold id job l.holds ≡ some row
    → row.state ≡ held
    → let after = (release_dispatch_hold id job now l).0 in
      ((release_dispatch_hold id job now l).1 ≡ changed (release_row now row))
      × (release_dispatch_hold id job later after ≡ (after, unchanged (release_row now row)))
      × (cancel_dispatch_hold id job later after ≡ (after, cancel_refuses_released))
unfolding release_dispatch_hold cancel_dispatch_hold
release_dispatch_hold-final id job now later l row found is_held =
    let again = find-updated id job (release_row now) l.holds row (λ x. (refl, refl)) found in
    (
      ground (arith, found, is_held),
      ground (arith, found, is_held, again),
      ground (arith, found, is_held, again),
    )

-- A cancellation of a hold that is armed or held is final: the row is CANCELLED, a second cancellation
-- changes nothing and answers with the row, and a release is refused and changes nothing.
cancel_dispatch_hold-final :
    (id : String) (job now later : ℕ) (l : Ledger) (row : Hold)
    → find_hold id job l.holds ≡ some row
    → (row.state ≡ held) ⊎ (row.state ≡ armed)
    → let after = (cancel_dispatch_hold id job now l).0 in
      ((cancel_dispatch_hold id job now l).1 ≡ changed (cancel_row now row))
      × (cancel_dispatch_hold id job later after ≡ (after, unchanged (cancel_row now row)))
      × (release_dispatch_hold id job later after ≡ (after, release_requires_held))
unfolding release_dispatch_hold cancel_dispatch_hold
cancel_dispatch_hold-final id job now later l row found (inl is_held) =
    let again = find-updated id job (cancel_row now) l.holds row (λ x. (refl, refl)) found in
    (
      ground (arith, found, is_held),
      ground (arith, found, is_held, again),
      ground (arith, found, is_held, again),
    )
cancel_dispatch_hold-final id job now later l row found (inr is_armed) =
    let again = find-updated id job (cancel_row now) l.holds row (λ x. (refl, refl)) found in
    (
      ground (arith, found, is_armed),
      ground (arith, found, is_armed, again),
      ground (arith, found, is_armed, again),
    )
