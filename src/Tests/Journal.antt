-- ===== src/Tests/Journal.antt =====
-- The files of the run of `two_steps`, and a claim that crashes.
use ownframework_loop.Prelude.{
  ◌≡◌, ◌↔◌, ◌⊎◌, refl, sym, subst, get_or, String, Text-discrete, same, true, false, some, none,
  List, [], ◌∷◌, ok, Result, ap, arith,
}
use ownframework_loop.Packet.{build_pass_count}
use ownframework_loop.Transitions.{building}
use ownframework_loop.Run.{RunState, given}
use ownframework_loop.Owners.Invariant.{IsSound, claims}
use ownframework_loop.Integrity.{
  Artifact, work_packet, Intent, Event, Hashes, IntegrityError, log, readable, ArtifactFile,
  published, not_published, same_digest, same_optional, last_recorded_for, last_recorded_state_sha,
  get_event_chain_hash, compute_event_chain_hash, verify_state_sha,
}
use ownframework_loop.Integrity.Chain.{rows, Collision}
use ownframework_loop.Integrity.Artifacts.{artifact_event_hashes, verify_artifact_sha}
use ownframework_loop.Journal.{
  Disk, no_journal, validate_event_extras, with_txn, recorded_intent, last_event,
  cleanup_stale_event_append_tmp,
}
use ownframework_loop.Journal.Append.{new_body, new_event, append_event_locked}
use ownframework_loop.Journal.Recover.{recover_pending_state_txn, resume_txn}
use ownframework_loop.Journal.Commit.{commit_state_event, journaled}
use ownframework_loop.Journal.Bindings.{verify_allocation_bindings}
use ownframework_loop.Journal.Access.{
  verify_chain, checked_files, verify_mutation_integrity, load_verified_locked, append_event,
  locked_update, save,
}
use ownframework_loop.Journal.Intact.{IsIntact}
use ownframework_loop.Journal.Crash.{IsAdmissible, declared, after_record}
use ownframework_loop.Journal.History.{History, begun, crashes}
use ownframework_loop.Journal.Durable.{
  load_verified-refines, commit_state_event-load_verified, Crashed-load_verified,
}
use ownframework_loop.Journal.Runs.{ByOwner, journaled_run-IsSound}
use ownframework_loop.Journal.Tamper.{verified_histories-agree}
use ownframework_loop.Journal.Refusal.{IsTampered, other_state, IsRefused, tampering-IsRefused}
use ownframework_loop.Journal.Published.{append_event_locked-binds_artifacts}
use ownframework_loop.Tests.Opened.{digests}
use ownframework_loop.Tests.Programs.{two_steps}
use ownframework_loop.Tests.Claims.{ready, in_build, first_claim, first_claim_ok}
use ownframework_loop.Tests.Repairs.{ready-IsSound}

-- A digest that keeps the time of the last write.
abbrev hashes : Hashes String
unfolding Text-discrete
hashes = record {
  discrete = Text-discrete;
  state = λ s. s.updated_at;
  chain = λ tail row. row;
  canonical = λ body. body.ts;
  allocation = λ body. "id";
  allocation_row = λ row. "row";
  allocations = λ rows. "rows";
}

abbrev created : Event String
created = record {
  body = record {
    ts = "t0";
    run_id = "run";
    intent = record {
      event_type = "state_saved";
      old_state = none;
      new_state = none;
      actor = "spec";
      commit_sha = "";
      reason = given "initial state creation";
      extras = [];
    };
    state_sha256 = some "t0";
    artifacts = [];
  };
  event_chain_sha256 = some "t0";
}

abbrev at_rest : Disk String
at_rest = record {
  state_file = readable "t0" ready;
  events = log (created ∷ []);
  pending = no_journal;
  append_tmp = false;
  artifacts = λ a. not_published;
}

at_rest-IsIntact : IsIntact hashes at_rest (created ∷ []) (some ready)
unfolding hashes get_event_chain_hash last_recorded_for compute_event_chain_hash
    last_recorded_state_sha artifact_event_hashes verify_allocation_bindings
at_rest-IsIntact = record {
  logged = refl;
  chained = refl;
  bound = refl;
  on_file = refl;
  settled = refl;
  hashes = [];
  hashed = refl;
  funded = refl;
}

abbrev claimed : Intent
claimed = record {
  event_type = "state_saved";
  old_state = some building;
  new_state = some building;
  actor = "of-loop-claim";
  commit_sha = "";
  reason = given "program_claim_unified_save";
  extras = [];
}

claimed-IsAdmissible : IsAdmissible hashes "run" "t-1" claimed in_build (created ∷ [])
unfolding hashes validate_event_extras with_txn recorded_intent verify_allocation_bindings
    Text-discrete last_event
claimed-IsAdmissible = record {
  valid = refl;
  named = refl;
  truthy = refl;
  unused = λ t e. subst (λ x. same "" x ≡ false) (sym e) refl;
  funded = refl;
}

commit_state_event-load_verified_example :
    (after : Disk String) × (rest : Disk String) × (commit_state_event hashes "run" "t-1" "t1"
        claimed in_build at_rest
      ≡ (after, ok tt))
    × (load_verified_locked hashes "run" "t2" after ≡ (rest, ok (some in_build)))
commit_state_event-load_verified_example =
    commit_state_event-load_verified hashes "run" "t-1" "t1" "t2" claimed in_build at_rest
      (created ∷ []) (some ready) at_rest-IsIntact claimed-IsAdmissible

abbrev crashed : Disk String
crashed = journaled (declared hashes "run" "t-1" claimed in_build (created ∷ []) at_rest) at_rest

Crashed-load_verified_example :
    (rest : Disk String) × (rows : List (Event String)) × (load_verified_locked hashes "run" "t2"
        crashed
      ≡ (rest, ok (some in_build)))
    × IsIntact hashes rest rows (some in_build)
Crashed-load_verified_example =
    Crashed-load_verified hashes "run" "t-1" "t2" claimed in_build at_rest crashed (created ∷ [])
      (some ready) at_rest-IsIntact claimed-IsAdmissible after_record

verified_at_rest : verify_mutation_integrity hashes "run" "t1" at_rest ≡ (at_rest, ok tt)
unfolding verify_mutation_integrity recover_pending_state_txn resume_txn checked_files verify_chain
    verify_state_sha get_event_chain_hash last_recorded_state_sha last_recorded_for
    compute_event_chain_hash same_optional same_digest cleanup_stale_event_append_tmp hashes
    Text-discrete
verified_at_rest = refl

unpublished : artifact_event_hashes at_rest.artifacts ≡ ok []
unfolding artifact_event_hashes
unpublished = refl

crashed-History :
    History hashes "run" (ByOwner digests two_steps) at_rest (some ready) crashed (some in_build)
crashed-History =
    crashes "t-1" "t1" claimed in_build (created ∷ []) [] begun verified_at_rest refl unpublished
      (ready, refl, claims build_pass_count none "t1" first_claim first_claim_ok)
      claimed-IsAdmissible after_record

load_verified-refines_example :
    (rest : Disk String) × (rows : List (Event String)) × (load_verified_locked hashes "run" "t2"
        crashed
      ≡ (rest, ok (some in_build)))
    × IsIntact hashes rest rows (some in_build)
load_verified-refines_example =
    load_verified-refines hashes "run" (ByOwner digests two_steps) at_rest (some ready)
      (created ∷ []) crashed (some in_build) "t2" at_rest-IsIntact crashed-History

journaled_run-IsSound_example :
    (rest : Disk String) × (s : RunState) × (load_verified_locked hashes "run" "t2" crashed
      ≡ (rest, ok (some s)))
    × IsSound two_steps s
journaled_run-IsSound_example =
    journaled_run-IsSound hashes "run" digests two_steps at_rest ready (created ∷ []) crashed
      (some in_build) "t2" at_rest-IsIntact ready-IsSound crashed-History

verified_created : verify_chain hashes (created ∷ []) ≡ ok tt
unfolding verify_chain get_event_chain_hash last_recorded_for compute_event_chain_hash same_optional
    same_digest hashes Text-discrete
verified_created = refl

verified_histories-agree_example :
    (rows hashes (created ∷ []) ≡ rows hashes (created ∷ [])) ⊎ Collision hashes
verified_histories-agree_example =
    verified_histories-agree hashes (created ∷ []) (created ∷ []) verified_created verified_created
      refl

-- The state file of another time.
abbrev tampered : Disk String
tampered = record at_rest { state_file = readable "t9" in_build }

tampered-IsTampered : IsTampered hashes tampered
unfolding last_recorded_state_sha last_recorded_for Text-discrete
tampered-IsTampered =
    other_state (created ∷ []) "t0" refl refl
      (λ e. ground (arith, ap (λ x. same (get_or x "") "t9") e))

abbrev no_change : RunState → Result IntegrityError (Intent × RunState)
no_change s = ok (claimed, s)

tampering-IsRefused_example :
    IsRefused hashes tampered (load_verified_locked hashes "run" "t2" tampered)
    × IsRefused hashes tampered (save hashes "run" "t-1" "t2" ready tampered)
    × IsRefused hashes tampered (locked_update hashes no_change "run" "t-1" "t2" tampered)
    × IsRefused hashes tampered (append_event hashes "run" "t2" claimed tampered)
tampering-IsRefused_example =
    tampering-IsRefused hashes no_change "run" "t-1" "t2" claimed ready tampered refl
      tampered-IsTampered

-- A sealed packet.
abbrev sealed_files : Artifact → ArtifactFile String
sealed_files work_packet = published "packet"
sealed_files _ = not_published

abbrev sealed : Disk String
sealed = record at_rest { artifacts = sealed_files }

abbrev bound : Event String
bound = record {
  body = record {
    ts = "t1";
    run_id = "run";
    intent = claimed;
    state_sha256 = some "t0";
    artifacts = (work_packet, "packet") ∷ [];
  };
  event_chain_sha256 = some "t1";
}

abbrev sealed_bound : Disk String
sealed_bound = record sealed { events = log (created ∷ bound ∷ []) }

sealed_ok : append_event_locked hashes "run" "t1" claimed sealed ≡ (sealed_bound, ok tt)
unfolding append_event_locked validate_event_extras artifact_event_hashes new_event new_body
    get_event_chain_hash last_recorded_for hashes
sealed_ok = refl

abbrev packet_file : ArtifactFile String
packet_file = published "packet"

append_event_locked-binds_artifacts_example :
    (verify_artifact_sha hashes packet_file sealed_bound.events work_packet ≡ ok true)
    ↔ (packet_file ≡ packet_file)
append_event_locked-binds_artifacts_example =
    append_event_locked-binds_artifacts hashes "run" "t1" claimed sealed sealed_bound (created ∷ [])
      work_packet "packet" packet_file refl refl sealed_ok
