-- ===== src/Journal/Healing.antt =====
-- Recovery after a commit that stopped between two of its writes.
use ownframework_loop.Prelude.{
  ◌≡◌, refl, sym, ap, ◌∙◌, subst, String, same_refl, true, false, Option, some, List, ok, arith,
}
use ownframework_loop.Run.{RunState}
use ownframework_loop.Integrity.{
  Artifact, Intent, Event, Hashes, unreadable, log, read_event_chain, file_sha, same_digest,
  same_optional, same_optional_refl,
}
use ownframework_loop.Integrity.Artifacts.{artifact_event_hashes}
use ownframework_loop.Journal.{
  journal, Disk, cleared_completed, recovered_pending, with_txn, cleanup_stale_event_append_tmp,
  clear_state_txn, last_event, is_completed, written,
}
use ownframework_loop.Journal.Append.{new_body, new_event}
use ownframework_loop.Journal.Recover.{
  recover_pending_state_txn, resume_txn, verified_history, restore_state, clear_completed,
}
use ownframework_loop.Journal.Commit.{new_txn, journaled, stated}
use ownframework_loop.Journal.Intact.{IsIntact, IsRecovered, last_event-append}
use ownframework_loop.Journal.Appending.{appended, appended_rows, appended-IsIntact, with_txn-names}
use ownframework_loop.Journal.Crash.{
  IsAdmissible, declared, Crashed, after_record, torn_state, after_state, torn_append, after_append,
  resumed, examined, intact-history,
}

module _ {D : Type 0} (h : Hashes D) (run_id txn_id : String) (intent : Intent) (s : RunState) where
  -- The prior state file, one with other bytes, and the new one are all replaced by the new one.
  restored_prior :
      (es : List (Event D)) (d q : Disk D)
      → q.state_file ≡ d.state_file
      → restore_state h (declared h run_id txn_id intent s es d) q ≡ (stated h s q, ok tt)
  unfolding restore_state declared new_txn stated
  restored_prior es d q e = ground (arith, e, same_optional_refl h (file_sha d.state_file))

  restored_torn :
      (es : List (Event D)) (d q : Disk D) (bytes : D)
      → q.state_file ≡ unreadable bytes
      → same_digest h bytes (h.state s) ≡ false
      → restore_state h (declared h run_id txn_id intent s es d) q ≡ (stated h s q, ok tt)
  unfolding restore_state declared new_txn stated same_optional
  restored_torn es d q bytes e differ = ground (arith, e)

  restored_new :
      (es : List (Event D)) (d q : Disk D)
      → restore_state h (declared h run_id txn_id intent s es d) (stated h s q)
        ≡ (stated h s q, ok tt)
  unfolding restore_state declared new_txn stated
  restored_new es d q = ground (arith, same_optional_refl h (some (h.state s)))

  pending-IsRecovered :
      (now : String) (es : List (Event D)) (o : Option RunState) (d p : Disk D)
      (hashes : List (Artifact × D))
      → IsIntact h d es o
      → IsAdmissible h run_id txn_id intent s es
      → p.pending ≡ journal (declared h run_id txn_id intent s es d)
      → p.events ≡ d.events
      → artifact_event_hashes p.artifacts ≡ ok hashes
      → restore_state h (declared h run_id txn_id intent s es d) (cleanup_stale_event_append_tmp p)
        ≡ (stated h s (cleanup_stale_event_append_tmp p), ok tt)
      → IsRecovered h run_id now p (some s)
  unfolding recover_pending_state_txn cleanup_stale_event_append_tmp stated
  pending-IsRecovered now es o d p hashes i a pending events hashed restored =
      let q = cleanup_stale_event_append_tmp p in
      let step =
        resumed h run_id txn_id intent s now es d q hashes a i.chained
          (ap read_event_chain events ∙ i.logged) hashed restored in
      let intact =
        appended-IsIntact h run_id now (with_txn txn_id intent) d es o s (stated h s q) hashes i
          refl hashed a.funded in
      let rest =
        clear_state_txn (appended h run_id now (with_txn txn_id intent) hashes es (stated h s q)) in
      record {
        rest = rest;
        after = appended_rows h run_id now (with_txn txn_id intent) hashes es (stated h s q);
        outcome = recovered_pending;
        recovers =
            subst (λ j. resume_txn h run_id now j q ≡ (rest, ok recovered_pending)) (sym pending)
              step;
        intact = intact;
      }

  -- The row that the transaction appends, and the record over a history that ends with it.
  txn_event : String → List (Artifact × D) → List (Event D) → Event D
  unfolding new_event
  txn_event at hashes es =
      new_event h (new_body run_id at (with_txn txn_id intent) hashes (some (h.state s))) es

  completes :
      (at : String) (es : List (Event D)) (d : Disk D) (hashes : List (Artifact × D))
      → is_completed (declared h run_id txn_id intent s es d) (some (txn_event at hashes es)) ≡ true
  unfolding declared new_txn txn_event new_event new_body
  completes at es d hashes = ground (arith, with_txn-names txn_id intent, same_refl txn_id)

  cleared :
      (at : String) (es rows : List (Event D)) (d q : Disk D) (hashes : List (Artifact × D))
      → q.state_file ≡ written h s
      → last_event rows ≡ some (txn_event at hashes es)
      → clear_completed h (declared h run_id txn_id intent s es d) rows q
        ≡ (clear_state_txn q, ok cleared_completed)
  unfolding clear_completed declared new_txn txn_event new_event new_body
  cleared at es rows d q hashes state_file last =
      ground (arith, state_file, last, same_optional_refl h (some (h.state s)))

  completed :
      (now at : String) (es rows : List (Event D)) (d q : Disk D) (hashes : List (Artifact × D))
      → IsAdmissible h run_id txn_id intent s es
      → q.state_file ≡ written h s
      → verified_history h q.events ≡ ok rows
      → last_event rows ≡ some (txn_event at hashes es)
      → resume_txn h run_id now (journal (declared h run_id txn_id intent s es d)) q
        ≡ (clear_state_txn q, ok cleared_completed)
  unfolding resume_txn
  completed now at es rows d q hashes a state_file verified last =
      let t = declared h run_id txn_id intent s es d in
      let done = subst (λ e. is_completed t e ≡ true) (sym last) (completes at es d hashes) in
      ground (
        arith,
        examined h run_id txn_id intent s es d a,
        verified,
        done,
        cleared at es rows d q hashes state_file last,
      )

  -- After the append only the record is left, and the last event completes it.
  completed-IsRecovered :
      (now at : String) (es : List (Event D)) (o : Option RunState) (d : Disk D)
      (hashes : List (Artifact × D))
      → IsIntact h d es o
      → IsAdmissible h run_id txn_id intent s es
      → artifact_event_hashes d.artifacts ≡ ok hashes
      → IsRecovered h run_id now
          (appended h run_id at
            (with_txn txn_id intent)
            hashes
            es
            (stated h s (journaled (declared h run_id txn_id intent s es d) d)))
          (some s)
  unfolding recover_pending_state_txn cleanup_stale_event_append_tmp stated appended journaled
      clear_state_txn txn_event appended_rows
  completed-IsRecovered now at es o d hashes i a hashed =
      let t = declared h run_id txn_id intent s es d in
      let q = stated h s (journaled t d) in
      let intact =
        appended-IsIntact h run_id at (with_txn txn_id intent) d es o s q hashes i refl hashed
          a.funded in
      let rows = appended_rows h run_id at (with_txn txn_id intent) hashes es q in
      record {
        rest = clear_state_txn (appended h run_id at (with_txn txn_id intent) hashes es q);
        after = rows;
        outcome = cleared_completed;
        recovers =
            completed now at es rows d (appended h run_id at (with_txn txn_id intent) hashes es q)
              hashes a refl
              (intact-history h run_id txn_id intent s rows (log rows) intact.logged intact.chained)
              (last_event-append h es (txn_event at hashes es));
        intact = intact;
      }

  -- Whichever write a commit stopped after, the next recovery finishes it.
  pub Crashed-IsRecovered :
      (now : String) (es : List (Event D)) (o : Option RunState) (d : Disk D)
      (hashes : List (Artifact × D)) (p : Disk D)
      → IsIntact h d es o
      → IsAdmissible h run_id txn_id intent s es
      → artifact_event_hashes d.artifacts ≡ ok hashes
      → Crashed h run_id txn_id intent s es hashes d p
      → IsRecovered h run_id now p (some s)
  unfolding journaled stated cleanup_stale_event_append_tmp
  Crashed-IsRecovered now es o d hashes p i a hashed after_record =
      pending-IsRecovered now es o d _ hashes i a refl refl hashed (restored_prior es d _ refl)
  Crashed-IsRecovered now es o d hashes p i a hashed (torn_state bytes differ) =
      pending-IsRecovered now es o d _ hashes i a refl refl hashed
        (restored_torn es d _ bytes refl differ)
  Crashed-IsRecovered now es o d hashes p i a hashed after_state =
      pending-IsRecovered now es o d _ hashes i a refl refl hashed (
        restored_new es d
          (cleanup_stale_event_append_tmp (journaled (declared h run_id txn_id intent s es d) d)))
  Crashed-IsRecovered now es o d hashes p i a hashed torn_append =
      pending-IsRecovered now es o d _ hashes i a refl refl hashed (
        restored_new es d
          (cleanup_stale_event_append_tmp (journaled (declared h run_id txn_id intent s es d) d)))
  Crashed-IsRecovered now es o d hashes p i a hashed (after_append at) =
      completed-IsRecovered now at es o d hashes i a hashed
