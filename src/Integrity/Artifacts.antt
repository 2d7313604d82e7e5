-- ===== src/Integrity/Artifacts.antt =====
-- lib/ownframework_loop/integrity.py: the published artifacts of a run against their recorded digests.
use ownframework_loop.Prelude.{
  Bool, true, false, not, Option, none, some, List, [], ◌∷◌, ◌++◌, Result, ok, err, if◌then◌else◌,
  ◌>>=◌, report,
}
use ownframework_loop.Integrity.{
  Artifact, work_packet, approval, build_agent_result, build_receipt, review_agent_assessment,
  review_verdict, Event, EventLog, no_log, garbled, log, StateFile, ArtifactFile, not_published,
  redirected, published, Hashes, IntegrityError, artifact_refused, chain_unreadable,
  last_recorded_for, get_event_chain_hash, compute_event_chain_hash, same_optional,
  verify_state_sha,
}

unfoldable pub Artifact-discrete : Discrete Artifact
Artifact-discrete = hlevel

unfoldable pub same_artifact : Artifact → Artifact → Bool
unfolding Artifact-discrete
same_artifact a b = elim (Artifact-discrete a b) [ yes p ↦ true | no p ↦ false ]

abbrev pub artifact_names : List Artifact
artifact_names =
    work_packet ∷ approval ∷ build_agent_result ∷ build_receipt ∷ review_agent_assessment
    ∷ review_verdict ∷ []

module _ {D : Type 0} where
  -- The loop of `artifact_event_hashes` over ARTIFACT_EVENT_KEYS.
  abbrev pub hash_artifacts :
      (Artifact → ArtifactFile D) → List Artifact → Result IntegrityError (List (Artifact × D))
  hash_artifacts files [] = ok []
  hash_artifacts files (a ∷ names) =
      let rest = hash_artifacts files names in
      elim (files a) [
        | not_published ↦ rest
        | redirected ↦ err (artifact_refused a)
        | published sha ↦ elim rest [ ok out ↦ ok ((a, sha) ∷ out) | err e ↦ err e ]
      ]

  unfoldable pub artifact_event_hashes :
      (Artifact → ArtifactFile D) → Result IntegrityError (List (Artifact × D))
  artifact_event_hashes files = hash_artifacts files artifact_names

  -- `ev.get(key)` for the key of an artifact.
  unfoldable pub artifact_entry : Artifact → List (Artifact × D) → Option D
  unfolding same_artifact
  artifact_entry a [] = none
  artifact_entry a (entry ∷ rest) =
      if same_artifact a entry.0 then some entry.1 else artifact_entry a rest

  unfoldable pub last_recorded_artifact_sha : Artifact → List (Event D) → Option D
  unfolding last_recorded_for artifact_entry
  last_recorded_artifact_sha a events =
      last_recorded_for (λ e. artifact_entry a e.body.artifacts) events

module _ {D : Type 0} (h : Hashes D) where
  -- The comparison with the recorded digest; a symbolic link is refused before it.
  unfoldable pub matches_record : ArtifactFile D → Option D → Bool
  unfolding same_optional
  matches_record redirected expected = false
  matches_record file none = true
  matches_record not_published (some expected) = false
  matches_record (published sha) (some expected) = same_optional h (some sha) (some expected)

  unfoldable pub verify_artifact_sha :
      ArtifactFile D → EventLog D → Artifact → Result IntegrityError Bool
  unfolding last_recorded_artifact_sha matches_record
  verify_artifact_sha redirected no_log a = ok false
  verify_artifact_sha not_published no_log a = ok true
  verify_artifact_sha (published sha) no_log a = ok true
  verify_artifact_sha redirected garbled a = ok false
  verify_artifact_sha not_published garbled a = err chain_unreadable
  verify_artifact_sha (published sha) garbled a = err chain_unreadable
  verify_artifact_sha file (log events) a =
      ok (matches_record file (last_recorded_artifact_sha a events))

-- What `verify_all_artifacts` reports.
pub data Failure : Type 0 where
  artifact_failed : Artifact → Failure
  state_failed chain_failed : Failure

module _ {D : Type 0} (h : Hashes D) where
  -- The loop over AUTHORITATIVE_ARTIFACTS, from an artifact on.
  abbrev pub artifact_failures :
      (Artifact → ArtifactFile D)
      → EventLog D
      → List Artifact
      → Result IntegrityError (List Failure)
  artifact_failures files events [] = ok []
  artifact_failures files events (a ∷ names) = do
    good ← verify_artifact_sha h (files a) events a
    rest ← artifact_failures files events names
    ok (report (not good) (artifact_failed a) ++ rest)

  unfoldable pub chain_failures : EventLog D → Result IntegrityError (List Failure)
  unfolding get_event_chain_hash compute_event_chain_hash same_optional
  chain_failures no_log = ok []
  chain_failures garbled = err chain_unreadable
  chain_failures (log events) = elim (get_event_chain_hash events) [
    | none ↦ ok []
    | some recorded ↦ ok (
        report (not (same_optional h (some recorded) (compute_event_chain_hash h events)))
          chain_failed)
  ]

  unfoldable pub verify_all_artifacts :
      StateFile D → (Artifact → ArtifactFile D) → EventLog D → Result IntegrityError (List Failure)
  unfolding verify_artifact_sha verify_state_sha chain_failures
  verify_all_artifacts state files events = do
    sealed ← artifact_failures files events (work_packet ∷ approval ∷ [])
    good ← verify_state_sha h state events
    phases ←
        artifact_failures files events
          (build_agent_result ∷ build_receipt ∷ review_agent_assessment ∷ review_verdict ∷ [])
    chained ← chain_failures events
    ok (sealed ++ report (not good) state_failed ++ phases ++ chained)
