-- ===== src/Journal/Append.antt =====
-- lib/ownframework_loop/state.py, `_append_event_locked`.
use ownframework_loop.Prelude.{String, true, false, Option, some, List, [], ◌∷◌, ◌++◌, ok, ◌>>◌}
use ownframework_loop.Integrity.{
  Artifact, Intent, Body, Event, Hashes, log, read_event_chain, file_sha, get_event_chain_hash,
}
use ownframework_loop.Integrity.Artifacts.{artifact_event_hashes}
use ownframework_loop.Journal.{Disk, DiskOutcome, and_then, validate_event_extras}

module _ {D : Type 0} where
  unfoldable pub new_body : String → String → Intent → List (Artifact × D) → Option D → Body D
  new_body run_id now intent hashes state_sha = record {
    ts = now;
    run_id = run_id;
    intent = intent;
    state_sha256 = state_sha;
    artifacts = hashes;
  }

module _ {D : Type 0} (h : Hashes D) where
  -- The row of a body, chained to the digest of the rows before it.
  unfoldable pub new_event : Body D → List (Event D) → Event D
  unfolding get_event_chain_hash
  new_event body events = record {
    body = body;
    event_chain_sha256 = some (h.chain (get_event_chain_hash events) (h.canonical body));
  }

  unfoldable pub append_event_locked : String → String → Intent → Disk D → DiskOutcome D (Unit {0})
  unfolding validate_event_extras artifact_event_hashes new_event new_body
  append_event_locked run_id now intent d =
      and_then (d, validate_event_extras true intent.extras >> artifact_event_hashes d.artifacts)
        λ d hashes.
          and_then (d, read_event_chain d.events)
            λ d events.
              let body = new_body run_id now intent hashes (file_sha d.state_file) in
              (
                record d {
                  events = log (events ++ (new_event body events ∷ []));
                  append_tmp = false;
                },
                ok tt,
              )
