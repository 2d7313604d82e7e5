-- ===== src/Journal/Published.antt =====
-- An appended event binds every artifact that is published when it is written.
use ownframework_loop.Prelude.{
  ◌≡◌, ◌↔◌, refl, sym, ap, ◌∙◌, subst, String, Bool, true, false, ◌||◌, Option, some, List, [], ◌∷◌,
  ◌++◌, ok, arith, Bool-cases, Result-cases, inl, inr,
}
use ownframework_loop.Integrity.{
  Artifact, work_packet, approval, build_agent_result, build_receipt, review_agent_assessment,
  review_verdict, Intent, Event, Hashes, log, ArtifactFile, not_published, redirected, published,
  file_sha, read_event_chain, same_optional_refl, same_optional→eq,
}
use ownframework_loop.Integrity.Artifacts.{
  Artifact-discrete, same_artifact, artifact_names, hash_artifacts, artifact_event_hashes,
  artifact_entry, last_recorded_artifact_sha, matches_record, verify_artifact_sha,
}
use ownframework_loop.Journal.{Disk, validate_event_extras}
use ownframework_loop.Journal.Append.{new_body, new_event, append_event_locked}
use ownframework_loop.Journal.Intact.{recorded-append}
use ownframework_loop.Journal.Appending.{appended, appended_rows, append-appended}

same_artifact→eq : (a b : Artifact) → same_artifact a b ≡ true → a ≡ b
unfolding same_artifact
same_artifact→eq a b e = ground (arith, Artifact-discrete a b)

same_artifact_refl : (a : Artifact) → same_artifact a a ≡ true
unfolding same_artifact
same_artifact_refl a = ground (arith, Artifact-discrete a a)

is_listed : Artifact → List Artifact → Bool
unfolding same_artifact
is_listed a [] = false
is_listed a (n ∷ ns) = same_artifact a n || is_listed a ns

all-is_listed : (a : Artifact) → is_listed a artifact_names ≡ true
unfolding is_listed same_artifact Artifact-discrete
all-is_listed work_packet = refl
all-is_listed approval = refl
all-is_listed build_agent_result = refl
all-is_listed build_receipt = refl
all-is_listed review_agent_assessment = refl
all-is_listed review_verdict = refl

module _ {D : Type 0} where
  hash_artifacts-entry :
      (files : Artifact → ArtifactFile D) (a : Artifact) (sha : D) (names : List Artifact)
      (out : List (Artifact × D))
      → files a ≡ published sha
      → is_listed a names ≡ true
      → hash_artifacts files names ≡ ok out
      → artifact_entry a out ≡ some sha
  unfolding is_listed artifact_entry
  hash_artifacts-entry files a sha [] out p e q = ground (arith, e)
  hash_artifacts-entry files a sha (n ∷ ns) out p e q = elim (Bool-cases (same_artifact a n)) [
    | inl here ↦
        let found = subst (λ x. files x ≡ published sha) (same_artifact→eq a n here) p in
        elim (Result-cases (hash_artifacts files ns)) [
          | inl rest ↦ ground (arith, found, rest.1, here)
          | inr refused ↦ ground (arith, found, refused.1)
        ]
    | inr there ↦ elim (Result-cases (hash_artifacts files ns)) [
      | inl rest ↦
          let ih = hash_artifacts-entry files a sha ns rest.0 p in ground (arith, rest.1, there, ih)
      | inr refused ↦ ground (arith, refused.1)
    ]
  ]

  new_event-artifact :
      (h : Hashes D) (run_id now : String) (intent : Intent) (a : Artifact) (sha : D)
      (files : Artifact → ArtifactFile D) (hashes : List (Artifact × D)) (state_sha : Option D)
      (es : List (Event D))
      → files a ≡ published sha
      → artifact_event_hashes files ≡ ok hashes
      → last_recorded_artifact_sha a
          (es ++ (new_event h (new_body run_id now intent hashes state_sha) es ∷ []))
        ≡ some sha
  unfolding artifact_event_hashes last_recorded_artifact_sha new_event new_body
  new_event-artifact h run_id now intent a sha files hashes state_sha es p q =
      recorded-append h (λ e. artifact_entry a e.body.artifacts) es
        (new_event h (new_body run_id now intent hashes state_sha) es) sha
        (hash_artifacts-entry files a sha artifact_names hashes p (all-is_listed a) q)

some-injective : {D : Type 0} (a b : D) → some a ≡ some b → a ≡ b
some-injective a b e = cc

module _ {D : Type 0} (h : Hashes D) where
  bound_iff :
      (f : ArtifactFile D) (a : Artifact) (sha : D) (es : List (Event D))
      → last_recorded_artifact_sha a es ≡ some sha
      → (verify_artifact_sha h f (log es) a ≡ ok true) ↔ (f ≡ published sha)
  unfolding verify_artifact_sha matches_record
  bound_iff not_published a sha es e = ground (arith, e)
  bound_iff redirected a sha es e = ground (arith, e)
  bound_iff (published other) a sha es e = (
    λ p.
        ap published (
          some-injective other sha
            (same_optional→eq h (some other) (some sha) (ground (arith, e)))),
    λ p.
        subst (λ x. verify_artifact_sha h x (log es) a ≡ ok true) (sym p)
          (ground (arith, e, same_optional_refl h (some sha))),
  )

  appended-binds :
      (run_id now : String) (intent : Intent) (d : Disk D) (es : List (Event D)) (a : Artifact)
      (sha : D) (f : ArtifactFile D) (hashes : List (Artifact × D))
      → d.artifacts a ≡ published sha
      → artifact_event_hashes d.artifacts ≡ ok hashes
      → (verify_artifact_sha h f (appended h run_id now intent hashes es d).events a ≡ ok true)
        ↔ (f ≡ published sha)
  unfolding appended appended_rows
  appended-binds run_id now intent d es a sha f hashes p q = bound_iff f a sha _ (
      new_event-artifact h run_id now intent a sha d.artifacts hashes (file_sha d.state_file) es p
        q)

  -- After an event is appended, an artifact that was published when it was written verifies exactly
  -- with the bytes that it had then: not after a change, a deletion or a redirection.
  pub append_event_locked-binds_artifacts :
      (run_id now : String) (intent : Intent) (d after : Disk D) (es : List (Event D))
      (a : Artifact) (sha : D) (f : ArtifactFile D)
      → read_event_chain d.events ≡ ok es
      → d.artifacts a ≡ published sha
      → append_event_locked h run_id now intent d ≡ (after, ok tt)
      → (verify_artifact_sha h f after.events a ≡ ok true) ↔ (f ≡ published sha)
  unfolding append_event_locked
  append_event_locked-binds_artifacts run_id now intent d after es a sha f logged p e =
      elim (Result-cases (validate_event_extras true intent.extras)) [
        | inr refused ↦ absurd (ground (arith, refused.1, e))
        | inl valid ↦ elim (Result-cases (artifact_event_hashes d.artifacts)) [
          | inr refused ↦ absurd (ground (arith, valid.1, refused.1, e))
          | inl hashed ↦
              let append =
                append-appended h run_id now intent hashed.0 es d valid.1 hashed.1 logged in
              let written = ap (λ x. x.0.events) (sym append ∙ e) in
              subst (λ x. (verify_artifact_sha h f x a ≡ ok true) ↔ (f ≡ published sha)) written
                (appended-binds run_id now intent d es a sha f hashed.0 p hashed.1)
        ]
      ]
