-- ===== src/Integrity.antt =====
-- lib/ownframework_loop/integrity.py: the digests that bind the files of a run to EVENTS.log, and the
-- files themselves. A digest has type D; "" and None are `none`. SHA-256 over a file's bytes, over a
-- chain digest followed by a row, and canonical JSON are the fields of `Hashes`.
pub mod Artifacts
pub mod Chain
use ownframework_loop.Prelude.{
  ◌+◌, ◌≡◌, refl, String, same, Bool, true, false, Option, none, some, List, [], ◌∷◌, Result, ok,
  err, rev_append, ◌>>=◌, arith, ℕ,
}
use ownframework_loop.Transitions.{State}
use ownframework_loop.Run.{RunState, Reason}
use ownframework_loop.Program.{AllocationBody, Allocation}

-- The keys of ARTIFACT_EVENT_KEYS.
pub data Artifact : Type 0 where
  work_packet approval build_agent_result build_receipt review_agent_assessment review_verdict :
      Artifact

-- A value of the diagnostic fields that an event carries.
pub data Value : Type 0 where
  text : String → Value
  count : ℕ → Value

abbrev pub Extras : Type 0
Extras = List (String × Value)

-- What a writer says of its event.
pub record Intent : Type 0 where
  pub event_type : String
  pub old_state : Option State
  pub new_state : Option State
  pub actor : String
  pub commit_sha : String
  pub reason : Reason
  pub extras : Extras

-- A row of EVENTS.log less its `event_chain_sha256`.
pub record Body (D : Type 0) : Type 0 where
  pub ts : String
  pub run_id : String
  pub intent : Intent
  pub state_sha256 : Option D
  pub artifacts : List (Artifact × D)

pub record Event (D : Type 0) : Type 0 where
  pub body : Body D
  pub event_chain_sha256 : Option D

pub record Hashes (D : Type 0) : Type 0 where
  pub discrete : Discrete D
  pub state : RunState → D
  pub chain : Option D → String → D
  pub canonical : Body D → String
  pub allocation : AllocationBody → String
  pub allocation_row : Allocation → String
  pub allocations : List Allocation → String

pub data IntegrityError : Type 0 where
  chain_unreadable chain_mismatch state_mismatch state_torn journal_refused journal_run_mismatch
        journal_shape journal_payload_mismatch completed_mismatch prior_chain_mismatch
        prior_state_mismatch not_reproduced pending_journal bytes_mismatch reserved_extras
        allocation_digest_mismatch allocation_unbound creation_only state_missing :
      IntegrityError
  artifact_refused : Artifact → IntegrityError

-- `EVENTS.log`: absent; redirected or with a malformed row; or its rows.
pub data EventLog (D : Type 0) : Type 0 where
  no_log : EventLog D
  garbled : EventLog D
  log : List (Event D) → EventLog D

-- `STATE.json`: absent; bytes that do not parse; or bytes that parse to a document.
pub data StateFile (D : Type 0) : Type 0 where
  absent : StateFile D
  unreadable : D → StateFile D
  readable : D → RunState → StateFile D

-- A published artifact: absent, a symbolic link, or its bytes.
pub data ArtifactFile (D : Type 0) : Type 0 where
  not_published : ArtifactFile D
  redirected : ArtifactFile D
  published : D → ArtifactFile D

module _ {D : Type 0} where
  abbrev pub read_event_chain : EventLog D → Result IntegrityError (List (Event D))
  read_event_chain no_log = ok []
  read_event_chain garbled = err chain_unreadable
  read_event_chain (log events) = ok events

  -- `sha256_file(sp) if sp.exists() else ""`
  abbrev pub file_sha : StateFile D → Option D
  file_sha absent = none
  file_sha (unreadable sha) = some sha
  file_sha (readable sha s) = some sha

  -- `read_json(sp, default=None)`
  abbrev pub read_state : StateFile D → Option RunState
  read_state absent = none
  read_state (unreadable sha) = none
  read_state (readable sha s) = some s

  -- The first entry of `reversed(events)` with a value.
  abbrev pub first_value : (Event D → Option D) → List (Event D) → Option D
  first_value f [] = none
  first_value f (e ∷ es) = elim (f e) [ some sha ↦ some sha | none ↦ first_value f es ]

  unfoldable pub last_recorded_for : (Event D → Option D) → List (Event D) → Option D
  last_recorded_for f events = first_value f (rev_append events [])

  unfoldable pub last_recorded_state_sha : List (Event D) → Option D
  last_recorded_state_sha events = last_recorded_for (λ e. e.body.state_sha256) events

  unfoldable pub get_event_chain_hash : List (Event D) → Option D
  get_event_chain_hash events = last_recorded_for (λ e. e.event_chain_sha256) events

module _ {D : Type 0} (h : Hashes D) where
  unfoldable pub same_digest : D → D → Bool
  same_digest a b = elim (h.discrete a b) [ yes p ↦ true | no p ↦ false ]

  -- Equality of digests, where "" stands for none.
  unfoldable pub same_optional : Option D → Option D → Bool
  same_optional none none = true
  same_optional none (some b) = false
  same_optional (some a) none = false
  same_optional (some a) (some b) = same_digest a b

  -- The loop of `compute_event_chain_hash` from the digest `chain`.
  abbrev pub chain_from : Option D → List (Event D) → Option D
  chain_from chain [] = chain
  chain_from chain (e ∷ es) = chain_from (some (h.chain chain (h.canonical e.body))) es

  unfoldable pub compute_event_chain_hash : List (Event D) → Option D
  compute_event_chain_hash events = chain_from none events

  -- The answer True or False of `verify_state_sha`, less its text.
  unfoldable pub verify_state_sha : StateFile D → EventLog D → Result IntegrityError Bool
  unfolding last_recorded_state_sha same_optional
  verify_state_sha file no_log = ok true
  verify_state_sha file garbled = err chain_unreadable
  verify_state_sha file (log events) = elim (last_recorded_state_sha events) [
    | none ↦ ok true
    | some expected ↦ ok (same_optional (file_sha file) (some expected))
  ]

  same_digest_refl : (a : D) → same_digest a a ≡ true
  unfolding same_digest
  same_digest_refl a = ground (arith, h.discrete a a)

  same_digest→eq : (a b : D) → same_digest a b ≡ true → a ≡ b
  unfolding same_digest
  same_digest→eq a b e = ground (arith, h.discrete a b)

  pub same_optional_refl : (a : Option D) → same_optional a a ≡ true
  unfolding same_optional
  same_optional_refl none = refl
  same_optional_refl (some a) = same_digest_refl a

  pub same_optional→eq : (a b : Option D) → same_optional a b ≡ true → a ≡ b
  unfolding same_optional
  same_optional→eq none none e = refl
  same_optional→eq none (some b) e = ground arith
  same_optional→eq (some a) none e = ground arith
  same_optional→eq (some a) (some b) e = ground (arith, same_digest→eq a b)
