-- ===== src/Journal/Refusal.antt =====
-- Files that do not match their history are neither read nor written over.
use ownframework_loop.Prelude.{
  ◌≡◌, ap, String, false, some, List, Result, err, is_ok, require, ◌>>=◌, arith, Result-cases,
  Option-cases, Bool-cases, inl, inr,
}
use ownframework_loop.Run.{RunState}
use ownframework_loop.Integrity.{
  Intent, Event, Hashes, IntegrityError, garbled, log, file_sha, read_state,
  last_recorded_state_sha, get_event_chain_hash, compute_event_chain_hash, same_optional,
  same_optional→eq, verify_state_sha, state_mismatch, state_torn, creation_only,
}
use ownframework_loop.Journal.{
  no_journal, Disk, DiskOutcome, validate_event_extras, cleanup_stale_event_append_tmp,
}
use ownframework_loop.Journal.Access.{
  verify_chain, checked_files, verify_mutation_integrity, load_verified_locked, append_event,
  locked_update, save, is_initial_payload,
}
use ownframework_loop.Journal.Intact.{recover-settled}
use ownframework_loop.Journal.Tamper.{verify_chain-recorded}

module _ {D : Type 0} (h : Hashes D) where
  -- The ways in which files at rest can differ from their history.
  pub data IsTampered (d : Disk D) : Type 0 where
    other_state :
        (es : List (Event D)) (sha : D)
        → d.events ≡ log es
        → last_recorded_state_sha es ≡ some sha
        → ¬ (file_sha d.state_file ≡ some sha)
        → IsTampered d
    other_rows :
        (es : List (Event D))
        → d.events ≡ log es
        → ¬ (get_event_chain_hash es ≡ compute_event_chain_hash h es)
        → IsTampered d
    malformed_rows : d.events ≡ garbled → IsTampered d

  -- An operation that raises and leaves the state file and the event log as they are.
  pub record IsRefused {ℓ} {A : Type ℓ} (d : Disk D) (o : DiskOutcome D A) : Type ℓ where
    pub raised : is_ok o.1 ≡ false
    pub file_kept : o.0.state_file ≡ d.state_file
    pub log_kept : o.0.events ≡ d.events

  verdict : Disk D → Result IntegrityError (Unit {0})
  unfolding checked_files
  verdict d = checked_files h d >>= λ checked. require checked.1 state_mismatch

  tampered-verdict : (d : Disk D) → IsTampered d → is_ok (verdict d) ≡ false
  unfolding verdict checked_files verify_state_sha
  tampered-verdict d (other_state es sha logged bound differ) =
      let other : same_optional h (file_sha d.state_file) (some sha) ≡ false =
        elim (Bool-cases (same_optional h (file_sha d.state_file) (some sha))) [
          | inl e ↦ absurd (differ (same_optional→eq h (file_sha d.state_file) (some sha) e))
          | inr e ↦ e
        ] in
      elim (Result-cases (verify_chain h es)) [
        | inl chained ↦ ground (arith, logged, bound, other, chained.1)
        | inr broken ↦ ground (arith, logged, broken.1)
      ]
  tampered-verdict d (other_rows es logged differ) = elim (Result-cases (verify_chain h es)) [
    | inl chained ↦ absurd (differ (verify_chain-recorded h es chained.1))
    | inr broken ↦ ground (arith, logged, broken.1)
  ]
  tampered-verdict d (malformed_rows logged) = ground (arith, logged)

  verdict-err : (d : Disk D) → IsTampered d → (e : IntegrityError) × (verdict d ≡ err e)
  verdict-err d t = elim (Result-cases (verdict d)) [
    | inl accepted ↦ absurd (ground (arith, accepted.1, tampered-verdict d t))
    | inr refused ↦ refused
  ]

  mutation-tampered :
      (run_id now : String) (d : Disk D)
      → d.pending ≡ no_journal
      → IsTampered d
      → (e : IntegrityError) × (verify_mutation_integrity h run_id now d
          ≡ (cleanup_stale_event_append_tmp d, err e))
  unfolding verify_mutation_integrity verdict checked_files cleanup_stale_event_append_tmp
  mutation-tampered run_id now d settled t =
      let (e, broken) = verdict-err d t in
      (e, ground (arith, recover-settled h run_id now d settled, broken))

  module _ {ℓ} {A : Type ℓ} where
    IsRefused-at :
        (d : Disk D) (o : DiskOutcome D A) (e : IntegrityError) → o ≡ (d, err e) → IsRefused d o
    IsRefused-at d o e p = record {
      raised = ap (λ x. is_ok x.1) p;
      file_kept = ap (λ x. x.0.state_file) p;
      log_kept = ap (λ x. x.0.events) p;
    }

    IsRefused-clean :
        (d : Disk D) (o : DiskOutcome D A) (e : IntegrityError)
        → o ≡ (cleanup_stale_event_append_tmp d, err e)
        → IsRefused d o
    unfolding cleanup_stale_event_append_tmp
    IsRefused-clean d o e p = record {
      raised = ap (λ x. is_ok x.1) p;
      file_kept = ap (λ x. x.0.state_file) p;
      log_kept = ap (λ x. x.0.events) p;
    }

  append-IsRefused :
      (run_id now : String) (intent : Intent) (d : Disk D)
      → d.pending ≡ no_journal
      → IsTampered d
      → IsRefused d (append_event h run_id now intent d)
  unfolding append_event
  append-IsRefused run_id now intent d settled t =
      let (e, broken) = mutation-tampered run_id now d settled t in
      elim (Result-cases (validate_event_extras false intent.extras)) [
        | inl valid ↦ IsRefused-clean d _ e (ground (arith, valid.1, broken))
        | inr refused ↦ IsRefused-at d _ refused.0 (ground (arith, refused.1))
      ]

  save-IsRefused :
      (run_id txn_id now : String) (payload : RunState) (d : Disk D)
      → d.pending ≡ no_journal
      → IsTampered d
      → IsRefused d (save h run_id txn_id now payload d)
  unfolding save
  save-IsRefused run_id txn_id now payload d settled t =
      let (e, broken) = mutation-tampered run_id now d settled t in
      elim (Bool-cases (is_initial_payload run_id payload)) [
        | inl valid ↦ IsRefused-clean d _ e (ground (arith, valid, broken))
        | inr refused ↦ IsRefused-at d _ creation_only (ground (arith, refused))
      ]

  update-IsRefused :
      (owner : RunState → Result IntegrityError (Intent × RunState)) (run_id txn_id now : String)
      (d : Disk D)
      → d.pending ≡ no_journal
      → IsTampered d
      → IsRefused d (locked_update h owner run_id txn_id now d)
  unfolding locked_update
  update-IsRefused owner run_id txn_id now d settled t =
      let (e, broken) = mutation-tampered run_id now d settled t in
      IsRefused-clean d _ e (ground (arith, broken))

  load-IsRefused :
      (run_id now : String) (d : Disk D)
      → d.pending ≡ no_journal
      → IsTampered d
      → IsRefused d (load_verified_locked h run_id now d)
  unfolding load_verified_locked verdict cleanup_stale_event_append_tmp
  load-IsRefused run_id now d settled t =
      let (e, broken) = verdict-err d t in
      let recovered = recover-settled h run_id now d settled in
      let again = recover-settled h run_id now (cleanup_stale_event_append_tmp d) settled in
      elim (Result-cases (checked_files h d)) [
        | inr refused ↦ IsRefused-clean d _ refused.0 (ground (arith, recovered, refused.1))
        | inl checked ↦ elim (Option-cases (read_state d.state_file)) [
          | inl torn ↦
              IsRefused-clean d _ state_torn
                (ground (arith, recovered, again, checked.1, broken, torn))
          | inr current ↦
              IsRefused-clean d _ state_mismatch
                (ground (arith, recovered, checked.1, broken, current.1))
        ]
      ]

  -- Where the files of a run without a pending record differ from their history (a state file whose
  -- digest is not the one recorded last, rows whose chain is not the recorded one, or a malformed
  -- row), no read answers and no creation, owner's update or appended event succeeds, and each leaves
  -- the state file and the event log as they are, so that a later write cannot make them trusted.
  pub tampering-IsRefused :
      (owner : RunState → Result IntegrityError (Intent × RunState)) (run_id txn_id now : String)
      (intent : Intent) (payload : RunState) (d : Disk D)
      → d.pending ≡ no_journal
      → IsTampered d
      → IsRefused d (load_verified_locked h run_id now d)
        × IsRefused d (save h run_id txn_id now payload d)
        × IsRefused d (locked_update h owner run_id txn_id now d)
        × IsRefused d (append_event h run_id now intent d)
  tampering-IsRefused owner run_id txn_id now intent payload d settled t = (
    load-IsRefused run_id now d settled t,
    save-IsRefused run_id txn_id now payload d settled t,
    update-IsRefused owner run_id txn_id now d settled t,
    append-IsRefused run_id now intent d settled t,
  )
