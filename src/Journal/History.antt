-- ===== src/Journal/History.antt =====
-- A run's files under any sequence of commits, crashes, recoveries and appended events.
use ownframework_loop.Prelude.{◌≡◌, String, Option, some, List, ok, arith}
use ownframework_loop.Run.{RunState}
use ownframework_loop.Integrity.{
  Artifact, Intent, Event, Hashes, read_event_chain, same_optional_refl,
}
use ownframework_loop.Integrity.Artifacts.{artifact_event_hashes}
use ownframework_loop.Journal.{Disk, with_txn, clear_state_txn}
use ownframework_loop.Journal.Commit.{new_txn, journaled, stated, write_txn, commit_state_event}
use ownframework_loop.Journal.Access.{load_verified_locked, verify_mutation_integrity, append_event}
use ownframework_loop.Journal.Intact.{IsIntact}
use ownframework_loop.Journal.Appending.{appended, append-appended, with_txn-valid}
use ownframework_loop.Journal.Crash.{IsAdmissible, declared, Crashed}

module _ {D : Type 0} (h : Hashes D) (run_id : String) where
  write_txn-written :
      (txn_id now : String) (intent : Intent) (s : RunState) (d : Disk D) (es : List (Event D))
      (hashes : List (Artifact × D))
      → IsAdmissible h run_id txn_id intent s es
      → artifact_event_hashes d.artifacts ≡ ok hashes
      → read_event_chain d.events ≡ ok es
      → write_txn h (declared h run_id txn_id intent s es d) now intent s d ≡ (
        clear_state_txn (
            appended h run_id now
              (with_txn txn_id intent)
              hashes
              es
              (stated h s (journaled (declared h run_id txn_id intent s es d) d))),
        ok tt,
      )
  unfolding write_txn declared new_txn stated journaled
  write_txn-written txn_id now intent s d es hashes a hashed logged =
      let t = declared h run_id txn_id intent s es d in
      let append =
        append-appended h run_id now (with_txn txn_id intent) hashes es (stated h s (journaled t d))
          (with_txn-valid txn_id intent a.valid) hashed logged in
      ground (arith, append, same_optional_refl h (some (h.state s)))

  -- A commit over files at rest makes all its writes.
  pub commit-committed :
      (txn_id now : String) (intent : Intent) (s : RunState) (d : Disk D) (es : List (Event D))
      (o : Option RunState)
      → (i : IsIntact h d es o) → IsAdmissible h run_id txn_id intent s es
      → commit_state_event h run_id txn_id now intent s d ≡ (
        clear_state_txn (
            appended h run_id now
              (with_txn txn_id intent)
              i.hashes
              es
              (stated h s (journaled (declared h run_id txn_id intent s es d) d))),
        ok tt,
      )
  unfolding commit_state_event declared new_txn
  commit-committed txn_id now intent s d es o i a =
      let written = write_txn-written txn_id now intent s d es i.hashes a i.hashed i.logged in
      ground (arith, i.settled, i.logged, a.valid, written)

  -- A run's files over time, with the document that they stand for. `allowed` says which documents
  -- the owners may commit. A crash before a commit's first write leaves what a read leaves.
  pub data History (allowed : Option RunState → RunState → Type 0) (start : Disk D)
      (first : Option RunState) : Disk D → Option RunState → Type 0 where
    begun : History allowed start first start first
    reads :
        {d rest : Disk D} {o : Option RunState} (now : String) (answer : Option RunState)
        → History allowed start first d o
        → load_verified_locked h run_id now d ≡ (rest, ok answer)
        → History allowed start first rest o
    notes :
        {d rest : Disk D} {o : Option RunState} (now : String) (intent : Intent)
        → History allowed start first d o
        → append_event h run_id now intent d ≡ (rest, ok tt)
        → History allowed start first rest o
    commits :
        {d rest after : Disk D} {o : Option RunState} (txn_id now : String) (intent : Intent)
        (s : RunState) (es : List (Event D))
        → History allowed start first d o
        → verify_mutation_integrity h run_id now d ≡ (rest, ok tt)
        → read_event_chain rest.events ≡ ok es
        → allowed o s
        → IsAdmissible h run_id txn_id intent s es
        → commit_state_event h run_id txn_id now intent s rest ≡ (after, ok tt)
        → History allowed start first after (some s)
    crashes :
        {d rest after : Disk D} {o : Option RunState} (txn_id now : String) (intent : Intent)
        (s : RunState) (es : List (Event D)) (hashes : List (Artifact × D))
        → History allowed start first d o
        → verify_mutation_integrity h run_id now d ≡ (rest, ok tt)
        → read_event_chain rest.events ≡ ok es
        → artifact_event_hashes rest.artifacts ≡ ok hashes
        → allowed o s
        → IsAdmissible h run_id txn_id intent s es
        → Crashed h run_id txn_id intent s es hashes rest after
        → History allowed start first after (some s)
