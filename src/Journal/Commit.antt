-- ===== src/Journal/Commit.antt =====
-- lib/ownframework_loop/state.py, `_commit_state_event_locked`.
use ownframework_loop.Prelude.{String, Bool, true, false, Option, some, ok, ◌>>=◌, require, refuse}
use ownframework_loop.Run.{RunState}
use ownframework_loop.Integrity.{
  Intent, Hashes, read_event_chain, file_sha, get_event_chain_hash, same_optional, pending_journal,
  bytes_mismatch,
}
use ownframework_loop.Journal.{
  Txn, Journal, no_journal, journal, Disk, DiskOutcome, and_then, validate_event_extras, with_txn,
  clear_state_txn, written,
}
use ownframework_loop.Journal.Append.{append_event_locked}

module _ {D : Type 0} where
  abbrev is_pending : Journal D → Bool
  is_pending no_journal = false
  is_pending _ = true

  -- The writes of a commit, in their order.
  unfoldable pub journaled : Txn D → Disk D → Disk D
  journaled t d = record d { pending = journal t }

module _ {D : Type 0} (h : Hashes D) where
  -- The record of a commit of `payload`.
  unfoldable pub new_txn : String → String → Intent → RunState → Option D → Disk D → Txn D
  new_txn run_id txn_id intent payload prior_chain d = record {
    txn_run_id = run_id;
    txn_id = txn_id;
    prior_state_sha256 = file_sha d.state_file;
    prior_event_chain_sha256 = prior_chain;
    new_state_sha256 = some (h.state payload);
    new_document = payload;
    event = intent;
  }

  unfoldable pub stated : RunState → Disk D → Disk D
  stated payload d = record d { state_file = written h payload }

  unfoldable pub write_txn : Txn D → String → Intent → RunState → Disk D → DiskOutcome D (Unit {0})
  unfolding journaled stated append_event_locked with_txn clear_state_txn same_optional
  write_txn t now intent payload d =
      and_then
        (let d = stated payload (journaled t d) in
          (d, require (same_optional h (file_sha d.state_file) t.new_state_sha256) bytes_mismatch))
        λ d _.
          and_then (append_event_locked h t.txn_run_id now (with_txn t.txn_id intent) d)
            λ d _. (clear_state_txn d, ok tt)

  unfoldable pub commit_state_event :
      String → String → String → Intent → RunState → Disk D → DiskOutcome D (Unit {0})
  unfolding validate_event_extras new_txn write_txn get_event_chain_hash
  commit_state_event run_id txn_id now intent payload d =
      and_then
        (
          d,
          do
            tt ← validate_event_extras false intent.extras
            tt ← refuse (is_pending d.pending) pending_journal
            read_event_chain d.events,
        )
        λ d events.
          write_txn (new_txn run_id txn_id intent payload (get_event_chain_hash events) d) now
            intent payload d
