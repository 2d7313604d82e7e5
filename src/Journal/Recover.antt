-- ===== src/Journal/Recover.antt =====
-- lib/ownframework_loop/state.py, `_recover_pending_state_txn_locked`.
use ownframework_loop.Prelude.{
  String, same, ◌&&◌, none, some, List, Result, ok, err, ◌>>=◌, ◌>>◌, require, refuse,
  if◌then◌else◌,
}
use ownframework_loop.Integrity.{
  Event, Hashes, IntegrityError, EventLog, read_event_chain, file_sha, read_state,
  get_event_chain_hash, compute_event_chain_hash, same_optional, chain_mismatch, journal_refused,
  journal_run_mismatch, journal_shape, journal_payload_mismatch, completed_mismatch,
  prior_chain_mismatch, prior_state_mismatch, not_reproduced,
}
use ownframework_loop.Journal.{
  Txn, Journal, no_journal, refused, journal, Disk, DiskOutcome, and_then, Recovery,
  nothing_pending, cleared_completed, recovered_pending, with_txn, recorded_intent,
  cleanup_stale_event_append_tmp, clear_state_txn, last_event, is_completed, event_state_sha,
  written,
}
use ownframework_loop.Journal.Append.{append_event_locked}

module _ {D : Type 0} (h : Hashes D) where
  -- The checks of the record before the event log is read.
  unfoldable pub examine_txn : String → Txn D → Result IntegrityError (Unit {0})
  unfolding same_optional
  examine_txn run_id t =
      require (same t.txn_run_id run_id) journal_run_mismatch
      >> refuse (same t.txn_id "") journal_shape
      >> require (same_optional h (some (h.state t.new_document)) t.new_state_sha256)
          journal_payload_mismatch

  -- The event log with its chain verified; an empty log has the digest "".
  unfoldable pub verified_history : EventLog D → Result IntegrityError (List (Event D))
  unfolding get_event_chain_hash compute_event_chain_hash same_optional
  verified_history events = do
    rows ← read_event_chain events
    tt ←
        require (same_optional h (get_event_chain_hash rows) (compute_event_chain_hash h rows))
          chain_mismatch
    ok rows

  -- The state file is the prior one, or the new one, or no document at all.
  unfoldable pub restore_state : Txn D → Disk D → DiskOutcome D (Unit {0})
  unfolding same_optional
  restore_state t d =
      let rewritten = record d { state_file = written h t.new_document } in
      if same_optional h (file_sha d.state_file) t.prior_state_sha256
      then (rewritten, ok tt)
      else if same_optional h (file_sha d.state_file) t.new_state_sha256
      then (d, ok tt)
      else elim (read_state d.state_file) [
        | none ↦ (rewritten, ok tt)
        | some current ↦ (d, err prior_state_mismatch)
      ]

  unfoldable pub finish_txn :
      String → String → Txn D → List (Event D) → Disk D → DiskOutcome D Recovery
  unfolding restore_state append_event_locked same_optional with_txn recorded_intent clear_state_txn
      get_event_chain_hash
  finish_txn run_id now t events d =
      and_then
        (
          d,
          require (same_optional h (get_event_chain_hash events) t.prior_event_chain_sha256)
              prior_chain_mismatch,
        )
        λ d _. and_then (restore_state t d) λ d _.
          and_then
            (d, require (same_optional h (file_sha d.state_file) t.new_state_sha256) not_reproduced)
            λ d _.
              and_then
                (append_event_locked h run_id now (with_txn t.txn_id (recorded_intent t.event)) d)
                λ d _. (clear_state_txn d, ok recovered_pending)

  unfoldable pub clear_completed : Txn D → List (Event D) → Disk D → DiskOutcome D Recovery
  unfolding same_optional clear_state_txn last_event
  clear_completed t events d =
      if same_optional h (file_sha d.state_file) t.new_state_sha256
        && same_optional h (event_state_sha (last_event events)) t.new_state_sha256
      then (clear_state_txn d, ok cleared_completed)
      else (d, err completed_mismatch)

  unfoldable pub resume_txn : String → String → Journal D → Disk D → DiskOutcome D Recovery
  unfolding examine_txn verified_history finish_txn clear_completed last_event
  resume_txn run_id now no_journal d = (d, ok nothing_pending)
  resume_txn run_id now refused d = (d, err journal_refused)
  resume_txn run_id now (journal t) d =
      and_then (d, examine_txn run_id t >> verified_history d.events)
        λ d events.
          if is_completed t (last_event events)
          then clear_completed t events d
          else finish_txn run_id now t events d

  unfoldable pub recover_pending_state_txn : String → String → Disk D → DiskOutcome D Recovery
  unfolding cleanup_stale_event_append_tmp resume_txn
  recover_pending_state_txn run_id now d =
      resume_txn run_id now d.pending (cleanup_stale_event_append_tmp d)
