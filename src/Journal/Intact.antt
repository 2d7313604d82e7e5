-- ===== src/Journal/Intact.antt =====
-- The files of a run at rest, and what the operations do to them.
use ownframework_loop.Prelude.{
  ◌≡◌, refl, sym, ap, ◌∙◌, subst, String, true, Option, none, some, List, [], ◌∷◌, ◌++◌, ok,
  rev_append, arith,
}
use ownframework_loop.Run.{RunState}
use ownframework_loop.Integrity.{
  Artifact, Body, Event, Hashes, StateFile, absent, readable, read_event_chain, file_sha,
  first_value, last_recorded_for, last_recorded_state_sha, get_event_chain_hash, chain_from,
  compute_event_chain_hash, same_optional_refl, verify_state_sha,
}
use ownframework_loop.Integrity.Artifacts.{artifact_event_hashes}
use ownframework_loop.Integrity.Chain.{rev_append-snoc}
use ownframework_loop.Journal.{
  no_journal, Disk, nothing_pending, Recovery, cleanup_stale_event_append_tmp, last_event,
}
use ownframework_loop.Journal.Append.{new_event}
use ownframework_loop.Journal.Recover.{recover_pending_state_txn, resume_txn}
use ownframework_loop.Journal.Bindings.{verify_allocation_bindings}
use ownframework_loop.Journal.Access.{
  intents, verify_chain, checked_files, load_verified_locked, verify_mutation_integrity,
}

module _ {D : Type 0} (h : Hashes D) where
  -- The state file of a document, where a new run has none.
  abbrev pub file_of : Option RunState → StateFile D
  file_of none = absent
  file_of (some s) = readable (h.state s) s

  -- The files say that `current` is the document, and bind it in the event log.
  pub record IsIntact (d : Disk D) (events : List (Event D)) (current : Option RunState)
      : Type 0 where
    pub logged : read_event_chain d.events ≡ ok events
    pub chained : get_event_chain_hash events ≡ compute_event_chain_hash h events
    pub bound : last_recorded_state_sha events ≡ file_sha (file_of current)
    pub on_file : d.state_file ≡ file_of current
    pub settled : d.pending ≡ no_journal
    pub hashes : List (Artifact × D)
    pub hashed : artifact_event_hashes d.artifacts ≡ ok hashes
    pub funded : verify_allocation_bindings h current (intents events) ≡ ok tt

  -- What a recovery promises: it succeeds, and the files are at rest with the document.
  pub record IsRecovered (run_id now : String) (p : Disk D) (current : Option RunState)
      : Type 0 where
    pub rest : Disk D
    pub after : List (Event D)
    pub outcome : Recovery
    pub recovers : recover_pending_state_txn h run_id now p ≡ (rest, ok outcome)
    pub intact : IsIntact rest after current

  pub recorded-append :
      (f : Event D → Option D) (es : List (Event D)) (e : Event D) (sha : D)
      → f e ≡ some sha
      → last_recorded_for f (es ++ (e ∷ [])) ≡ some sha
  unfolding last_recorded_for
  recorded-append f es e sha p =
      subst (λ r. first_value f r ≡ some sha) (sym (rev_append-snoc es e [])) (ground arith)

  chain_from-append :
      (c : Option D) (es : List (Event D)) (e : Event D)
      → chain_from h c (es ++ (e ∷ [])) ≡ some (h.chain (chain_from h c es) (h.canonical e.body))
  chain_from-append c [] e = refl
  chain_from-append c (x ∷ es) e = chain_from-append (some (h.chain c (h.canonical x.body))) es e

  pub last_event-append : (es : List (Event D)) (e : Event D) → last_event (es ++ (e ∷ [])) ≡ some e
  unfolding last_event
  last_event-append es e =
      subst (λ (r : List (Event D)). (elim r [ [] ↦ none | x ∷ xs ↦ some x ]) ≡ some e)
        (sym (rev_append-snoc es e [])) refl

  -- The next row records the digest of the longer chain.
  pub new_event-chained :
      (body : Body D) (es : List (Event D))
      → get_event_chain_hash es ≡ compute_event_chain_hash h es
      → get_event_chain_hash (es ++ (new_event h body es ∷ []))
        ≡ compute_event_chain_hash h (es ++ (new_event h body es ∷ []))
  unfolding get_event_chain_hash compute_event_chain_hash new_event
  new_event-chained body es p =
      recorded-append (λ e. e.event_chain_sha256) es (new_event h body es) _ refl
      ∙ ap (λ c. some (h.chain c (h.canonical body))) p
      ∙ sym (chain_from-append none es (new_event h body es))

  pub new_event-bound :
      (body : Body D) (es : List (Event D)) (sha : D)
      → body.state_sha256 ≡ some sha
      → last_recorded_state_sha (es ++ (new_event h body es ∷ [])) ≡ some sha
  unfolding last_recorded_state_sha new_event
  new_event-bound body es sha p =
      recorded-append (λ e. e.body.state_sha256) es (new_event h body es) sha p

  -- A chained history with a row has a recorded digest.
  chain_from-some : (c : D) (es : List (Event D)) → (r : D) × (chain_from h (some c) es ≡ some r)
  chain_from-some c [] = (c, refl)
  chain_from-some c (e ∷ es) = chain_from-some (h.chain (some c) (h.canonical e.body)) es

  chained-verified :
      (es : List (Event D))
      → get_event_chain_hash es ≡ compute_event_chain_hash h es
      → verify_chain h es ≡ ok tt
  unfolding verify_chain compute_event_chain_hash
  chained-verified [] p = refl
  chained-verified (e ∷ es) p =
      let (r, q) = chain_from-some (h.chain none (h.canonical e.body)) es in
      ground (arith, p, q, same_optional_refl h (some r))

  intact-checked :
      (d : Disk D) (es : List (Event D)) (o : Option RunState)
      → IsIntact d es o
      → checked_files h d ≡ ok (es, true)
  unfolding checked_files verify_state_sha
  intact-checked d es o i =
      let chain = chained-verified es i.chained in
      ground
        (arith, i.logged, i.bound, i.on_file, chain, same_optional_refl h (file_sha (file_of o)))

  -- Without a pending record recovery removes the leftover of an append, and nothing else.
  pub recover-settled :
      (run_id now : String) (d : Disk D)
      → d.pending ≡ no_journal
      → recover_pending_state_txn h run_id now d
        ≡ (cleanup_stale_event_append_tmp d, ok nothing_pending)
  unfolding recover_pending_state_txn resume_txn
  recover-settled run_id now d p =
      subst
        (λ j.
          resume_txn h run_id now j (cleanup_stale_event_append_tmp d)
          ≡ (cleanup_stale_event_append_tmp d, ok nothing_pending))
        (sym p) refl

  cleanup-IsIntact :
      (d : Disk D) (es : List (Event D)) (o : Option RunState)
      → IsIntact d es o
      → IsIntact (cleanup_stale_event_append_tmp d) es o
  unfolding cleanup_stale_event_append_tmp
  cleanup-IsIntact d es o i = record {
    logged = i.logged;
    chained = i.chained;
    bound = i.bound;
    on_file = i.on_file;
    settled = i.settled;
    hashes = i.hashes;
    hashed = i.hashed;
    funded = i.funded;
  }

  -- A read of files that recovery brings to rest.
  pub load-intact :
      (run_id now : String) (d rest : Disk D) (r : Recovery) (es : List (Event D))
      (o : Option RunState)
      → recover_pending_state_txn h run_id now d ≡ (rest, ok r)
      → IsIntact rest es o
      → load_verified_locked h run_id now d ≡ (rest, ok o)
  unfolding load_verified_locked
  load-intact run_id now d rest r es none recovered i =
      ground (arith, recovered, intact-checked rest es none i, i.on_file, i.funded)
  load-intact run_id now d rest r es (some s) recovered i =
      ground (arith, recovered, intact-checked rest es (some s) i, i.on_file, i.funded)

  pub mutation-intact :
      (run_id now : String) (d rest : Disk D) (r : Recovery) (es : List (Event D))
      (o : Option RunState)
      → recover_pending_state_txn h run_id now d ≡ (rest, ok r)
      → IsIntact rest es o
      → verify_mutation_integrity h run_id now d ≡ (rest, ok tt)
  unfolding verify_mutation_integrity
  mutation-intact run_id now d rest r es o recovered i =
      ground (arith, recovered, intact-checked rest es o i)

  -- Files at rest stay so.
  pub settled-IsRecovered :
      (run_id now : String) (d : Disk D) (es : List (Event D)) (o : Option RunState)
      → IsIntact d es o
      → IsRecovered run_id now d o
  settled-IsRecovered run_id now d es o i = record {
    rest = cleanup_stale_event_append_tmp d;
    after = es;
    outcome = nothing_pending;
    recovers = recover-settled run_id now d i.settled;
    intact = cleanup-IsIntact d es o i;
  }

  -- An event of a run without a document records no digest of it.
  pub new_event-unbound :
      (body : Body D) (es : List (Event D))
      → body.state_sha256 ≡ none
      → last_recorded_state_sha (es ++ (new_event h body es ∷ [])) ≡ last_recorded_state_sha es
  unfolding last_recorded_state_sha last_recorded_for new_event
  new_event-unbound body es p =
      subst
        (λ r.
          first_value (λ e. e.body.state_sha256) r
          ≡ first_value (λ e. e.body.state_sha256) (rev_append es []))
        (sym (rev_append-snoc es (new_event h body es) [])) (ground (arith, p))
