-- ===== src/Journal.antt =====
-- lib/ownframework_loop/state.py: how a document reaches the disk. Under the run's lock a commit writes
-- the record STATE_TXN.json first, then STATE.json, then its event, and clears the record; recovery
-- finishes or clears a record that a crash left. An operation is a function of the disk of a run; its
-- answer has the disk even where it raises.
pub mod Append
pub mod Recover
pub mod Commit
pub mod Bindings
pub mod Access
pub mod Tamper
pub mod Refusal
pub mod Intact
pub mod Appending
pub mod Crash
pub mod Healing
pub mod Monotone
pub mod History
pub mod Durable
pub mod Runs
pub mod Published
use ownframework_loop.Prelude.{
  ◌≡◌, refl, String, same, mem, not, Bool, true, false, ◌||◌, ◌&&◌, Option, none, some, List, [],
  ◌∷◌, ◌++◌, any, Result, ok, err, ◌>>=◌, ◌>>◌, require, refuse, rev_append, if◌then◌else◌, arith,
}
use ownframework_loop.Transitions.{State}
use ownframework_loop.Run.{RunState, Reason}
use ownframework_loop.Integrity.{
  Artifact, Value, text, count, Extras, Intent, Body, Event, Hashes, IntegrityError, EventLog,
  no_log, garbled, log, StateFile, absent, unreadable, readable, ArtifactFile, read_event_chain,
  file_sha, read_state, get_event_chain_hash, compute_event_chain_hash, same_optional,
  chain_mismatch, journal_refused, journal_run_mismatch, journal_shape, journal_payload_mismatch,
  completed_mismatch, prior_chain_mismatch, prior_state_mismatch, not_reproduced, pending_journal,
  bytes_mismatch, reserved_extras,
}
use ownframework_loop.Integrity.Artifacts.{artifact_event_hashes}

-- STATE_TXN.json
pub record Txn (D : Type 0) : Type 0 where
  pub txn_run_id : String
  pub txn_id : String
  pub prior_state_sha256 : Option D
  pub prior_event_chain_sha256 : Option D
  pub new_state_sha256 : Option D
  pub new_document : RunState
  pub event : Intent

-- `refused`: a link, no regular file, another owner, not private, unreadable, or of another schema.
pub data Journal (D : Type 0) : Type 0 where
  no_journal : Journal D
  refused : Journal D
  journal : Txn D → Journal D

pub record Disk (D : Type 0) : Type 0 where
  pub state_file : StateFile D
  pub events : EventLog D
  pub pending : Journal D
  pub append_tmp : Bool
  pub artifacts : Artifact → ArtifactFile D

-- The disk after an operation, and what it returns or raises.
abbrev pub DiskOutcome {ℓ} : Type 0 → Type ℓ → Type ℓ
DiskOutcome D A = Disk D × Result IntegrityError A

abbrev pub and_then {ℓ κ} :
    {D : Type 0} {A : Type ℓ} {B : Type κ}
    → DiskOutcome D A
    → (Disk D → A → DiskOutcome D B)
    → DiskOutcome D B
and_then (d, ok a) f = f d a
and_then (d, err e) f = (d, err e)

pub data Recovery : Type 0 where
  nothing_pending cleared_completed recovered_pending : Recovery

-- _EVENT_AUTHORITATIVE_FIELDS
abbrev pub authoritative_fields : List String
authoritative_fields =
    "ts" ∷ "run_id" ∷ "event_type" ∷ "old_state" ∷ "new_state" ∷ "actor" ∷ "commit_sha" ∷ "reason"
    ∷ "state_sha256" ∷ "event_chain_sha256" ∷ "packet_sha256" ∷ "approval_sha256"
    ∷ "build_agent_result_sha256" ∷ "build_receipt_sha256" ∷ "review_agent_assessment_sha256"
    ∷ "review_verdict_sha256" ∷ []

abbrev pub overlaps : List String → Extras → Bool
overlaps names [] = false
overlaps names (x ∷ xs) = mem x.0 names || overlaps names xs

unfoldable pub validate_event_extras : Bool → Extras → Result IntegrityError (Unit {0})
validate_event_extras allow_state_txn_id extras =
    if allow_state_txn_id
    then refuse (overlaps authoritative_fields extras) reserved_extras
    else refuse (overlaps ("state_txn_id" ∷ authoritative_fields) extras) reserved_extras

-- `extras.get(key)`
abbrev pub extra : String → Extras → Option Value
extra key [] = none
extra key (x ∷ xs) = if same x.0 key then some x.1 else extra key xs

-- `str(value or "")`
abbrev pub text_of : Option Value → String
text_of (some (text s)) = s
text_of _ = ""

abbrev pub without : String → Extras → Extras
without key [] = []
without key (x ∷ xs) = if same x.0 key then without key xs else x ∷ without key xs

-- `extras["state_txn_id"] = txn_id`
unfoldable pub with_txn : String → Intent → Intent
with_txn txn_id i = record i {
  extras = ("state_txn_id", text txn_id) ∷ without "state_txn_id" i.extras;
}

-- `text or default`
abbrev or_default : String → String → String
or_default s default = if same s "" then default else s

-- The intent as recovery reads it from the record.
unfoldable pub recorded_intent : Intent → Intent
recorded_intent i = record i {
  event_type = or_default i.event_type "state_saved";
  actor = or_default i.actor "unknown";
}

module _ {D : Type 0} where
  unfoldable pub cleanup_stale_event_append_tmp : Disk D → Disk D
  cleanup_stale_event_append_tmp d = record d { append_tmp = false }

  unfoldable pub clear_state_txn : Disk D → Disk D
  clear_state_txn d = record d { pending = no_journal }

  -- `events[-1]`
  unfoldable pub last_event : List (Event D) → Option (Event D)
  last_event events = elim (rev_append events []) [ [] ↦ none | e ∷ es ↦ some e ]

  -- The event of the transaction is the last one.
  abbrev pub is_completed : Txn D → Option (Event D) → Bool
  is_completed t none = false
  is_completed t (some e) = same (text_of (extra "state_txn_id" e.body.intent.extras)) t.txn_id

  abbrev pub event_state_sha : Option (Event D) → Option D
  event_state_sha none = none
  event_state_sha (some e) = e.body.state_sha256

module _ {D : Type 0} (h : Hashes D) where
  -- `atomic_write_json(sp, payload)`
  abbrev pub written : RunState → StateFile D
  written s = readable (h.state s) s
