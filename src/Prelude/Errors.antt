-- ===== src/Prelude/Errors.antt =====
-- Lists of diagnostics: a validator appends one for each rule that fails.
use mathlib.Core.Path.{◌≡◌, refl}
use mathlib.Core.Bool.{Bool, true, false}
use mathlib.Core.List.{List, [], ◌∷◌, ◌++◌}
use ownframework_loop.Prelude.Lists.{All}

module _ {ℓ} {E : Type ℓ} where
  -- `if broken: errors.append(e)`
  abbrev pub report : Bool → E → List E
  report true e = e ∷ []
  report false e = []

  pub append-eq_nil : (xs ys : List E) → xs ++ ys ≡ [] → (xs ≡ []) × (ys ≡ [])
  append-eq_nil [] ys h = (refl, h)
  append-eq_nil (x ∷ xs) ys h = cc

  pub report-eq_nil : (b : Bool) (e : E) → report b e ≡ [] → b ≡ false
  report-eq_nil true e h = cc
  report-eq_nil false e h = refl

-- The diagnostics of a loop, in order.
module _ {ℓ κ} {A : Type ℓ} {E : Type κ} (f : A → List E) where
  unfoldable pub each : List A → List E
  each [] = []
  each (x ∷ xs) = f x ++ each xs

  pub each-eq_nil : (xs : List A) → each xs ≡ [] → All (λ x. f x ≡ []) xs
  unfolding each
  each-eq_nil [] h = tt
  each-eq_nil (x ∷ xs) h =
      let (first, rest) = append-eq_nil (f x) (each xs) h in (first, each-eq_nil xs rest)
