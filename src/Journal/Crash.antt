-- ===== src/Journal/Crash.antt =====
-- A commit that stops between two of its writes, and the recovery after it.
use ownframework_loop.Prelude.{
  ◌≡◌, refl, String, same, same_refl, true, false, some, List, [], ◌∷◌, ◌++◌, ok, arith,
}
use ownframework_loop.Run.{RunState}
use ownframework_loop.Integrity.{
  Artifact, Intent, Event, Hashes, unreadable, EventLog, read_event_chain, get_event_chain_hash,
  compute_event_chain_hash, same_digest, same_optional_refl,
}
use ownframework_loop.Integrity.Artifacts.{artifact_event_hashes}
use ownframework_loop.Journal.{
  Txn, journal, Disk, recovered_pending, validate_event_extras, with_txn, recorded_intent,
  clear_state_txn, last_event, is_completed,
}
use ownframework_loop.Journal.Recover.{
  resume_txn, examine_txn, verified_history, restore_state, finish_txn,
}
use ownframework_loop.Journal.Commit.{new_txn, journaled, stated}
use ownframework_loop.Journal.Bindings.{verify_allocation_bindings}
use ownframework_loop.Journal.Access.{intents}
use ownframework_loop.Journal.Appending.{appended, append-appended, with_txn-valid}

module _ {D : Type 0} (h : Hashes D) (run_id txn_id : String) (intent : Intent) (s : RunState) where
  -- What a commit asks of its caller: an admissible event with a name and an actor, a new transaction
  -- id, and allocations of the new document that events bind.
  pub record IsAdmissible (es : List (Event D)) : Type 0 where
    pub valid : validate_event_extras false intent.extras ≡ ok tt
    pub named : recorded_intent intent ≡ intent
    pub truthy : same txn_id "" ≡ false
    pub unused : (t : Txn D) → t.txn_id ≡ txn_id → is_completed t (last_event es) ≡ false
    pub funded :
        verify_allocation_bindings h (some s) (intents es ++ (with_txn txn_id intent ∷ [])) ≡ ok tt

  -- The record of the commit, over the disk that it finds.
  unfoldable pub declared : List (Event D) → Disk D → Txn D
  unfolding new_txn
  declared es d = new_txn h run_id txn_id intent s (get_event_chain_hash es) d

  -- The disks that a commit leaves when it stops after one of its writes; a state file that was not
  -- written whole has other bytes than the document's.
  pub data Crashed (es : List (Event D)) (hashes : List (Artifact × D)) (d : Disk D)
      : Disk D → Type 0 where
    after_record : Crashed es hashes d (journaled (declared es d) d)
    torn_state :
        (bytes : D)
        → same_digest h bytes (h.state s) ≡ false
        → Crashed es hashes d
            (record (journaled (declared es d) d) { state_file = unreadable bytes })
    after_state : Crashed es hashes d (stated h s (journaled (declared es d) d))
    torn_append :
        Crashed es hashes d
          (record (stated h s (journaled (declared es d) d)) { append_tmp = true })
    after_append :
        (now : String)
        → Crashed es hashes d (
            appended h run_id now
              (with_txn txn_id intent)
              hashes
              es
              (stated h s (journaled (declared es d) d)))

  pub examined :
      (es : List (Event D)) (d : Disk D)
      → IsAdmissible es
      → examine_txn h run_id (declared es d) ≡ ok tt
  unfolding examine_txn new_txn declared
  examined es d a =
      ground (arith, a.truthy, same_refl run_id, same_optional_refl h (some (h.state s)))

  pub intact-history :
      (es : List (Event D)) (file : EventLog D)
      → read_event_chain file ≡ ok es
      → get_event_chain_hash es ≡ compute_event_chain_hash h es
      → verified_history h file ≡ ok es
  unfolding verified_history
  intact-history es file logged chained =
      ground (arith, logged, chained, same_optional_refl h (compute_event_chain_hash h es))

  -- Recovery over a disk whose event log is the one that the commit found.
  finished :
      (now : String) (es : List (Event D)) (d q : Disk D) (hashes : List (Artifact × D))
      → IsAdmissible es
      → read_event_chain q.events ≡ ok es
      → artifact_event_hashes q.artifacts ≡ ok hashes
      → restore_state h (declared es d) q ≡ (stated h s q, ok tt)
      → finish_txn h run_id now (declared es d) es q ≡ (
        clear_state_txn (appended h run_id now (with_txn txn_id intent) hashes es (stated h s q)),
        ok recovered_pending,
      )
  unfolding finish_txn new_txn stated declared
  finished now es d q hashes a logged hashed restored =
      let valid = with_txn-valid txn_id intent a.valid in
      let append =
        append-appended h run_id now (with_txn txn_id intent) hashes es (stated h s q) valid hashed
          logged in
      ground (
        arith,
        restored,
        append,
        a.named,
        same_optional_refl h (get_event_chain_hash es),
        same_optional_refl h (some (h.state s)),
      )

  pub resumed :
      (now : String) (es : List (Event D)) (d q : Disk D) (hashes : List (Artifact × D))
      → IsAdmissible es
      → get_event_chain_hash es ≡ compute_event_chain_hash h es
      → read_event_chain q.events ≡ ok es
      → artifact_event_hashes q.artifacts ≡ ok hashes
      → restore_state h (declared es d) q ≡ (stated h s q, ok tt)
      → resume_txn h run_id now (journal (declared es d)) q ≡ (
        clear_state_txn (appended h run_id now (with_txn txn_id intent) hashes es (stated h s q)),
        ok recovered_pending,
      )
  unfolding resume_txn declared
  resumed now es d q hashes a chained logged hashed restored =
      let fresh_id = a.unused (declared es d) refl in
      ground (
        arith,
        finished now es d q hashes a logged hashed restored,
        examined es d a,
        intact-history es q.events logged chained,
        fresh_id,
      )
