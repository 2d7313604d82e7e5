-- ===== src/Integrity/Chain.antt =====
-- lib/ownframework_loop/integrity.py: what the chain of digests shows of the rows under it.
use ownframework_loop.Prelude.{
  ◌≡◌, refl, sym, ap, ◌∙◌, subst, String, Text-discrete, Option, none, some, List, [], ◌∷◌, ◌++◌,
  rev_append, arith, ◌⊎◌, inl, inr, false, Bool-cases,
}
use ownframework_loop.Integrity.{
  Event, Hashes, compute_event_chain_hash, chain_from, same_optional, same_optional_refl,
  same_optional→eq,
}

module _ {ℓ} {A : Type ℓ} where
  pub rev_append-snoc :
      (xs : List A) (a : A) (ys : List A) → rev_append (xs ++ (a ∷ [])) ys ≡ a ∷ rev_append xs ys
  rev_append-snoc [] a ys = refl
  rev_append-snoc (x ∷ xs) a ys = rev_append-snoc xs a (x ∷ ys)

  rev_append-rev_append :
      (xs ys zs : List A) → rev_append (rev_append xs ys) zs ≡ rev_append ys (xs ++ zs)
  rev_append-rev_append [] ys zs = refl
  rev_append-rev_append (x ∷ xs) ys zs = rev_append-rev_append xs (x ∷ ys) zs

  rev_twice : (xs : List A) → rev_append (rev_append xs []) [] ≡ xs ++ []
  rev_twice xs = rev_append-rev_append xs [] []

  append_nil : (xs : List A) → xs ++ [] ≡ xs
  append_nil [] = refl
  append_nil (x ∷ xs) = ap (λ r. x ∷ r) (append_nil xs)

  rev-injective : (xs ys : List A) → rev_append xs [] ≡ rev_append ys [] → xs ≡ ys
  rev-injective xs ys e =
      sym (rev_twice xs ∙ append_nil xs)
      ∙ ap (λ r. rev_append r []) e
      ∙ (rev_twice ys ∙ append_nil ys)

module _ {D : Type 0} (h : Hashes D) where
  -- The texts that the chain digests.
  abbrev pub rows : List (Event D) → List String
  rows [] = []
  rows (e ∷ es) = h.canonical e.body ∷ rows es

  -- Two different inputs of the chain with one digest.
  pub record Collision : Type 0 where
    pub tail : Option D
    pub other_tail : Option D
    pub row : String
    pub other_row : String
    pub same_digest : h.chain tail row ≡ h.chain other_tail other_row
    pub differ : ¬ ((tail ≡ other_tail) × (row ≡ other_row))

  -- The digest of a list of rows, last first.
  chain_back : List String → Option D
  chain_back [] = none
  chain_back (r ∷ rs) = some (h.chain (chain_back rs) r)

  chain_from-back :
      (es : List (Event D)) (rs : List String)
      → chain_from h (chain_back rs) es ≡ chain_back (rev_append (rows es) rs)
  unfolding chain_back
  chain_from-back [] rs = refl
  chain_from-back (e ∷ es) rs = chain_from-back es (h.canonical e.body ∷ rs)

  compute-back :
      (es : List (Event D)) → compute_event_chain_hash h es ≡ chain_back (rev_append (rows es) [])
  unfolding compute_event_chain_hash chain_back
  compute-back es = chain_from-back es []

  digests_or_not : (p q : Option D) → (p ≡ q) ⊎ (¬ (p ≡ q))
  digests_or_not p q = elim (Bool-cases (same_optional h p q)) [
    | inl e ↦ inl (same_optional→eq h p q e)
    | inr e ↦ inr (λ r.
        ground (arith, subst (λ x. same_optional h p x ≡ false) (sym r) e, same_optional_refl h p))
  ]

  -- One step back: the inputs agree, or they collide.
  step_back :
      (p q : Option D) (a b : String) → h.chain p a ≡ h.chain q b → ((p ≡ q) × (a ≡ b)) ⊎ Collision
  step_back p q a b e = elim (digests_or_not p q) [
    | inr differ ↦ inr (record {
      tail = p;
      other_tail = q;
      row = a;
      other_row = b;
      same_digest = e;
      differ = λ s. differ s.0;
    })
    | inl tails ↦ elim (Text-discrete a b) [
      | yes texts ↦ inl (tails, texts)
      | no differ ↦ inr (record {
        tail = p;
        other_tail = q;
        row = a;
        other_row = b;
        same_digest = e;
        differ = λ s. differ s.1;
      })
    ]
  ]

  some-injective : (a b : D) → some a ≡ some b → a ≡ b
  some-injective a b e = cc

  chain_back-binds : (rs ss : List String) → chain_back rs ≡ chain_back ss → (rs ≡ ss) ⊎ Collision
  unfolding chain_back
  chain_back-binds [] [] e = inl refl
  chain_back-binds [] (s ∷ ss) e = absurd (ground arith)
  chain_back-binds (r ∷ rs) [] e = absurd (ground arith)
  chain_back-binds (r ∷ rs) (s ∷ ss) e =
      elim (step_back (chain_back rs) (chain_back ss) r s (some-injective _ _ e)) [
        | inr collision ↦ inr collision
        | inl agreed ↦ elim (chain_back-binds rs ss agreed.0) [
          | inr collision ↦ inr collision
          | inl rest ↦ inl (cc (agreed.1, rest))
        ]
      ]

  pub chain_back-binds_history :
      (xs ys : List (Event D))
      → compute_event_chain_hash h xs ≡ compute_event_chain_hash h ys
      → (rows xs ≡ rows ys) ⊎ Collision
  chain_back-binds_history xs ys e =
      elim (chain_back-binds (rev_append (rows xs) []) (rev_append (rows ys) [])
        (sym (compute-back xs) ∙ e ∙ compute-back ys)) [
          | inl same ↦ inl (rev-injective (rows xs) (rows ys) same)
          | inr collision ↦ inr collision
        ]
