-- ===== src/Journal/Appending.antt =====
-- The append of an event, with the extras of a transaction.
use ownframework_loop.Prelude.{
  ◌≡◌, refl, sym, ap, ◌∙◌, subst, String, same_refl, true, false, Option, none, some, List, [], ◌∷◌,
  ◌++◌, ok, arith, mem, Text-discrete,
}
use ownframework_loop.Run.{RunState}
use ownframework_loop.Integrity.{
  Artifact, Intent, Extras, Event, Hashes, log, read_event_chain, file_sha, last_recorded_state_sha,
}
use ownframework_loop.Integrity.Artifacts.{artifact_event_hashes}
use ownframework_loop.Journal.{
  Disk, validate_event_extras, overlaps, authoritative_fields, extra, text_of, with_txn, without,
  clear_state_txn, written,
}
use ownframework_loop.Journal.Append.{new_body, new_event, append_event_locked}
use ownframework_loop.Journal.Bindings.{verify_allocation_bindings}
use ownframework_loop.Journal.Access.{intents}
use ownframework_loop.Journal.Monotone.{bindings-append}
use ownframework_loop.Journal.Intact.{
  IsIntact, new_event-chained, new_event-bound, new_event-unbound, file_of,
}

without-overlaps :
    (key : String) (names : List String) (xs : Extras)
    → overlaps names xs ≡ false
    → overlaps names (without key xs) ≡ false
without-overlaps key names [] e = refl
without-overlaps key names (x ∷ xs) e = ground (arith, without-overlaps key names xs)

overlaps-fewer :
    (key : String) (names : List String) (xs : Extras)
    → overlaps (key ∷ names) xs ≡ false
    → overlaps names xs ≡ false
overlaps-fewer key names [] e = refl
overlaps-fewer key names (x ∷ xs) e = ground (arith, overlaps-fewer key names xs)

txn_id-unlisted : mem "state_txn_id" authoritative_fields ≡ false
unfolding Text-discrete
txn_id-unlisted = refl

-- What a caller may say may also be said by the transaction.
pub with_txn-valid :
    (id : String) (i : Intent)
    → validate_event_extras false i.extras ≡ ok tt
    → validate_event_extras true (with_txn id i).extras ≡ ok tt
unfolding validate_event_extras with_txn
with_txn-valid id i e =
    let fewer = overlaps-fewer "state_txn_id" authoritative_fields i.extras (ground arith) in
    let kept = without-overlaps "state_txn_id" authoritative_fields i.extras fewer in
    ground (arith, kept, txn_id-unlisted)

pub with_txn-names :
    (id : String) (i : Intent) → text_of (extra "state_txn_id" (with_txn id i).extras) ≡ id
unfolding with_txn
with_txn-names id i = ground (arith, same_refl "state_txn_id")

intents-append :
    {D : Type 0} (es : List (Event D)) (e : Event D)
    → intents (es ++ (e ∷ [])) ≡ intents es ++ (e.body.intent ∷ [])
intents-append [] e = refl
intents-append (x ∷ es) e = ap (λ r. x.body.intent ∷ r) (intents-append es e)

noted-funded :
    {D : Type 0} (h : Hashes D) (o : Option RunState) (es : List (Event D)) (e : Event D)
    → verify_allocation_bindings h o (intents es) ≡ ok tt
    → verify_allocation_bindings h o (intents (es ++ (e ∷ []))) ≡ ok tt
noted-funded h o es e funded =
    subst (λ is. verify_allocation_bindings h o is ≡ ok tt) (sym (intents-append es e))
      (bindings-append h o (intents es) (e.body.intent ∷ []) funded)

-- What a caller may say at all it may say with the transaction's field allowed.
pub validate_event_extras-weaker :
    (xs : Extras) → validate_event_extras false xs ≡ ok tt → validate_event_extras true xs ≡ ok tt
unfolding validate_event_extras
validate_event_extras-weaker xs e =
    let fewer = overlaps-fewer "state_txn_id" authoritative_fields xs (ground arith) in
    ground (arith, fewer)

module _ {D : Type 0} (h : Hashes D) where
  -- The event log, and the disk, after the append of an event that records the state file.
  unfoldable pub appended_rows :
      String → String → Intent → List (Artifact × D) → List (Event D) → Disk D → List (Event D)
  unfolding new_event
  appended_rows run_id now intent hashes es d =
      es ++ (new_event h (new_body run_id now intent hashes (file_sha d.state_file)) es ∷ [])

  unfoldable pub appended :
      String → String → Intent → List (Artifact × D) → List (Event D) → Disk D → Disk D
  unfolding appended_rows
  appended run_id now intent hashes es d = record d {
    events = log (appended_rows run_id now intent hashes es d);
    append_tmp = false;
  }

  pub append-appended :
      (run_id now : String) (intent : Intent) (hashes : List (Artifact × D)) (es : List (Event D))
      (d : Disk D)
      → validate_event_extras true intent.extras ≡ ok tt
      → artifact_event_hashes d.artifacts ≡ ok hashes
      → read_event_chain d.events ≡ ok es
      → append_event_locked h run_id now intent d ≡ (appended run_id now intent hashes es d, ok tt)
  unfolding append_event_locked appended appended_rows
  append-appended run_id now intent hashes es d valid hashed logged =
      ground (arith, valid, hashed, logged)

  -- The files are at rest once the event of a new document is appended and the record cleared.
  pub appended-IsIntact :
      (run_id now : String) (intent : Intent) (d : Disk D) (es : List (Event D))
      (o : Option RunState) (s : RunState) (q : Disk D) (hashes : List (Artifact × D))
      → IsIntact h d es o
      → q.state_file ≡ written h s
      → artifact_event_hashes q.artifacts ≡ ok hashes
      → verify_allocation_bindings h (some s) (intents es ++ (intent ∷ [])) ≡ ok tt
      → IsIntact h
          (clear_state_txn (appended run_id now intent hashes es q))
          (appended_rows run_id now intent hashes es q)
          (some s)
  unfolding appended appended_rows clear_state_txn new_event new_body
  appended-IsIntact run_id now intent d es o s q hashes i state_file hashed funded =
      let body = new_body run_id now intent hashes (file_sha q.state_file) in
      record {
        logged = refl;
        chained = new_event-chained h body es i.chained;
        bound = new_event-bound h body es (h.state s) (ap file_sha state_file);
        on_file = state_file;
        settled = refl;
        hashes = hashes;
        hashed = hashed;
        funded =
            subst (λ is. verify_allocation_bindings h (some s) is ≡ ok tt)
              (sym (intents-append es (new_event h body es))) funded;
      }

  noted-bound :
      (run_id now : String) (intent : Intent) (d : Disk D) (es : List (Event D))
      (o : Option RunState) (hashes : List (Artifact × D))
      → IsIntact h d es o
      → last_recorded_state_sha (appended_rows run_id now intent hashes es d)
        ≡ file_sha (file_of h o)
  unfolding appended_rows new_body
  noted-bound run_id now intent d es none hashes i =
      new_event-unbound h (new_body run_id now intent hashes (file_sha d.state_file)) es
        (ap file_sha i.on_file)
      ∙ i.bound
  noted-bound run_id now intent d es (some s) hashes i =
      new_event-bound h (new_body run_id now intent hashes (file_sha d.state_file)) es (h.state s)
        (ap file_sha i.on_file)

  -- An event that changes no document leaves the files at rest.
  pub noted-IsIntact :
      (run_id now : String) (intent : Intent) (d : Disk D) (es : List (Event D))
      (o : Option RunState)
      → (i : IsIntact h d es o)
      → IsIntact h
          (appended run_id now intent i.hashes es d)
          (appended_rows run_id now intent i.hashes es d)
          o
  unfolding appended appended_rows
  noted-IsIntact run_id now intent d es o i = record {
    logged = refl;
    chained =
        new_event-chained h (new_body run_id now intent i.hashes (file_sha d.state_file)) es
          i.chained;
    bound = noted-bound run_id now intent d es o i.hashes i;
    on_file = i.on_file;
    settled = i.settled;
    hashes = i.hashes;
    hashed = i.hashed;
    funded =
        noted-funded h o es
          (new_event h (new_body run_id now intent i.hashes (file_sha d.state_file)) es) i.funded;
  }
