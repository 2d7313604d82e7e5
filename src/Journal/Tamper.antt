-- ===== src/Journal/Tamper.antt =====
-- What the digest of a verified event log says of its rows.
use ownframework_loop.Prelude.{◌≡◌, refl, sym, ◌∙◌, List, [], ◌∷◌, ok, arith, ◌⊎◌}
use ownframework_loop.Integrity.{
  Event, Hashes, get_event_chain_hash, compute_event_chain_hash, same_optional→eq,
  last_recorded_for,
}
use ownframework_loop.Integrity.Chain.{rows, Collision, chain_back-binds_history}
use ownframework_loop.Journal.Access.{verify_chain}

module _ {D : Type 0} (h : Hashes D) where
  pub verify_chain-recorded :
      (es : List (Event D))
      → verify_chain h es ≡ ok tt
      → get_event_chain_hash es ≡ compute_event_chain_hash h es
  unfolding verify_chain get_event_chain_hash compute_event_chain_hash last_recorded_for
  verify_chain-recorded [] e = refl
  verify_chain-recorded (e ∷ es) ok_chain = ground (
    arith,
    same_optional→eq h (get_event_chain_hash (e ∷ es)) (compute_event_chain_hash h (e ∷ es)),
  )

  -- Two verified event logs that record the same chain digest have as many rows, and row by row the same
  -- text of all but the chain digest recorded in the row itself, which this does not compare; or a collision of the digest is at hand: two different inputs of the chain with one digest.
  pub verified_histories-agree :
      (xs ys : List (Event D))
      → verify_chain h xs ≡ ok tt
      → verify_chain h ys ≡ ok tt
      → get_event_chain_hash xs ≡ get_event_chain_hash ys
      → (rows h xs ≡ rows h ys) ⊎ Collision h
  verified_histories-agree xs ys verified_xs verified_ys e =
      chain_back-binds_history h xs ys
        (sym (verify_chain-recorded xs verified_xs) ∙ e ∙ verify_chain-recorded ys verified_ys)
