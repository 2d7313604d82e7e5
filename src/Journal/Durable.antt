-- ===== src/Journal/Durable.antt =====
-- What a read answers after the run's own commits, appended events, recoveries and reads, and after a crash
-- between any two writes of a commit. Files changed by others are the subject of Journal/Refusal.
use ownframework_loop.Prelude.{
  Result-cases, inl, inr, ◌≡◌, refl, sym, ap, ◌∙◌, subst, String, Option, some, List, ok, arith,
  false,
}
use ownframework_loop.Run.{RunState}
use ownframework_loop.Integrity.{Intent, Event, Hashes, read_event_chain}
use ownframework_loop.Journal.{Disk, with_txn, validate_event_extras}
use ownframework_loop.Journal.Commit.{journaled, stated, commit_state_event}
use ownframework_loop.Journal.Access.{load_verified_locked, verify_mutation_integrity, append_event}
use ownframework_loop.Journal.Intact.{
  IsIntact, IsRecovered, load-intact, mutation-intact, settled-IsRecovered,
}
use ownframework_loop.Journal.Appending.{
  appended, appended_rows, append-appended, appended-IsIntact, noted-IsIntact,
  validate_event_extras-weaker,
}
use ownframework_loop.Journal.Crash.{IsAdmissible, declared, Crashed}
use ownframework_loop.Journal.Healing.{Crashed-IsRecovered}
use ownframework_loop.Journal.History.{
  History, begun, reads, notes, commits, crashes, commit-committed,
}

module _ {D : Type 0} (h : Hashes D) (run_id : String) where
  rows_agree :
      (d : Disk D) (xs ys : List (Event D))
      → read_event_chain d.events ≡ ok xs
      → read_event_chain d.events ≡ ok ys
      → xs ≡ ys
  rows_agree d xs ys e f = cc (sym e ∙ f)

  -- The disk that a verified mutation starts from.
  verified-IsIntact :
      (now : String) (d rest : Disk D) (o : Option RunState) (es : List (Event D))
      → IsRecovered h run_id now d o
      → verify_mutation_integrity h run_id now d ≡ (rest, ok tt)
      → read_event_chain rest.events ≡ ok es
      → IsIntact h rest es o
  verified-IsIntact now d rest o es r e logged =
      let same_rest =
        ap (λ x. x.0)
          (sym (mutation-intact h run_id now d r.rest r.outcome r.after o r.recovers r.intact)
            ∙ e) in
      let i = subst (λ x. IsIntact h x r.after o) same_rest r.intact in
      subst (λ xs. IsIntact h rest xs o) (rows_agree rest r.after es i.logged logged) i

  -- A commit that starts from files at rest ends there.
  committed-IsIntact :
      (txn_id now : String) (intent : Intent) (s : RunState) (d after : Disk D)
      (es : List (Event D)) (o : Option RunState)
      → IsIntact h d es o
      → IsAdmissible h run_id txn_id intent s es
      → commit_state_event h run_id txn_id now intent s d ≡ (after, ok tt)
      → (rows : List (Event D)) × IsIntact h after rows (some s)
  unfolding stated journaled
  committed-IsIntact txn_id now intent s d after es o i a e =
      let q = stated h s (journaled (declared h run_id txn_id intent s es d) d) in
      (
        appended_rows h run_id now (with_txn txn_id intent) i.hashes es q,
        subst
            (λ x.
              IsIntact h x (appended_rows h run_id now (with_txn txn_id intent) i.hashes es q)
                (some s))
            (ap (λ x. x.0) (sym (commit-committed h run_id txn_id now intent s d es o i a) ∙ e))
            (appended-IsIntact h run_id now (with_txn txn_id intent) d es o s q i.hashes i refl
              i.hashed a.funded),
      )

  append_event-valid :
      (now : String) (intent : Intent) (d rest : Disk D)
      → append_event h run_id now intent d ≡ (rest, ok tt)
      → validate_event_extras false intent.extras ≡ ok tt
  unfolding append_event
  append_event-valid now intent d rest e =
      elim (Result-cases (validate_event_extras false intent.extras)) [
        | inl valid ↦ ground (arith, valid.1)
        | inr refused ↦ ground (arith, refused.1)
      ]

  -- An appended event leaves the files at rest.
  noted-rest :
      (now : String) (intent : Intent) (d rest : Disk D) (o : Option RunState)
      → IsRecovered h run_id now d o
      → append_event h run_id now intent d ≡ (rest, ok tt)
      → (rows : List (Event D)) × IsIntact h rest rows o
  unfolding append_event
  noted-rest now intent d rest o r e =
      let i = r.intact in
      let valid = append_event-valid now intent d rest e in
      let weaker = validate_event_extras-weaker intent.extras valid in
      let append =
        append-appended h run_id now intent i.hashes r.after r.rest weaker i.hashed i.logged in
      let verified = mutation-intact h run_id now d r.rest r.outcome r.after o r.recovers i in
      let at = appended h run_id now intent i.hashes r.after r.rest in
      let result : append_event h run_id now intent d ≡ (at, ok tt) =
        ground (arith, valid, verified, append) in
      (
        appended_rows h run_id now intent i.hashes r.after r.rest,
        subst (λ x. IsIntact h x (appended_rows h run_id now intent i.hashes r.after r.rest) o)
            (ap (λ x. x.0) (sym result ∙ e))
            (noted-IsIntact h run_id now intent r.rest r.after o i),
      )

  History-IsRecovered :
      (allowed : Option RunState → RunState → Type 0) (start : Disk D) (first : Option RunState)
      (d : Disk D) (o : Option RunState) (es : List (Event D))
      → IsIntact h start es first
      → History h run_id allowed start first d o
      → (now : String) → IsRecovered h run_id now d o
  History-IsRecovered allowed start first _ _ es i begun now =
      settled-IsRecovered h run_id now start es first i
  History-IsRecovered allowed start first rest o es i (reads {d} at answer path e) now =
      let r = History-IsRecovered allowed start first d o es i path at in
      let same_rest =
        ap (λ x. x.0)
          (sym (load-intact h run_id at d r.rest r.outcome r.after o r.recovers r.intact) ∙ e) in
      settled-IsRecovered h run_id now rest r.after o
        (subst (λ x. IsIntact h x r.after o) same_rest r.intact)
  History-IsRecovered allowed start first rest o es i (notes {d} at intent path e) now =
      let r = History-IsRecovered allowed start first d o es i path at in
      let (rows, intact) = noted-rest at intent d rest o r e in
      settled-IsRecovered h run_id now rest rows o intact
  History-IsRecovered allowed start first after _ es i
        (commits {d} {rest} {o} txn_id at intent s rows path verified logged may a e) now =
      let r = History-IsRecovered allowed start first d o es i path at in
      let at_rest = verified-IsIntact at d rest o rows r verified logged in
      let (new_rows, intact) =
        committed-IsIntact txn_id at intent s rest after rows o at_rest a e in
      settled-IsRecovered h run_id now after new_rows (some s) intact
  History-IsRecovered allowed start first after _ es i
        (crashes {d} {rest} {o} txn_id at intent s rows hashes path verified logged hashed may a
          crash)
        now =
      let r = History-IsRecovered allowed start first d o es i path at in
      let at_rest = verified-IsIntact at d rest o rows r verified logged in
      Crashed-IsRecovered h run_id txn_id intent s now rows o rest hashes after at_rest a hashed
        crash

  -- From files at rest, whatever sequence of commits, crashes after any write of a commit, recoveries,
  -- reads and appended events the run goes through, a read succeeds, answers with the document whose
  -- commit was declared last, and leaves the files at rest.
  pub load_verified-refines :
      (allowed : Option RunState → RunState → Type 0) (start : Disk D) (first : Option RunState)
      (es : List (Event D)) (d : Disk D) (o : Option RunState) (now : String)
      → IsIntact h start es first
      → History h run_id allowed start first d o
      → (rest : Disk D) × (rows : List (Event D)) × (load_verified_locked h run_id now d
          ≡ (rest, ok o))
        × IsIntact h rest rows o
  load_verified-refines allowed start first es d o now i path =
      let r = History-IsRecovered allowed start first d o es i path now in
      (
        r.rest,
        r.after,
        load-intact h run_id now d r.rest r.outcome r.after o r.recovers r.intact,
        r.intact,
      )

  -- What the owners keep, the run keeps.
  pub History-keeps :
      (allowed : Option RunState → RunState → Type 0) (P : Option RunState → Type 0)
      (start : Disk D) (first : Option RunState) (d : Disk D) (o : Option RunState)
      → ((a : Option RunState) (b : RunState) → P a → allowed a b → P (some b))
      → P first
      → History h run_id allowed start first d o
      → P o
  History-keeps allowed P start first _ _ step p begun = p
  History-keeps allowed P start first rest o step p (reads {d} at answer path e) =
      History-keeps allowed P start first d o step p path
  History-keeps allowed P start first rest o step p (notes {d} at intent path e) =
      History-keeps allowed P start first d o step p path
  History-keeps allowed P start first after _ step p
        (commits {d} {rest} {o} txn_id at intent s rows path verified logged may a e) =
      step o s (History-keeps allowed P start first d o step p path) may
  History-keeps allowed P start first after _ step p
        (crashes {d} {rest} {o} txn_id at intent s rows hashes path verified logged hashed may a
          crash) =
      step o s (History-keeps allowed P start first d o step p path) may

  -- A commit over files at rest succeeds, and a read then answers with the committed document.
  pub commit_state_event-load_verified :
      (txn_id now later : String) (intent : Intent) (s : RunState) (d : Disk D)
      (es : List (Event D)) (o : Option RunState)
      → IsIntact h d es o
      → IsAdmissible h run_id txn_id intent s es
      → (after : Disk D) × (rest : Disk D) × (commit_state_event h run_id txn_id now intent s d
          ≡ (after, ok tt))
        × (load_verified_locked h run_id later after ≡ (rest, ok (some s)))
  commit_state_event-load_verified txn_id now later intent s d es o i a =
      let e = commit-committed h run_id txn_id now intent s d es o i a in
      let (rows, at) = committed-IsIntact txn_id now intent s d _ es o i a e in
      let r = settled-IsRecovered h run_id later _ rows (some s) at in
      (
        _,
        r.rest,
        e,
        load-intact h run_id later _ r.rest r.outcome r.after (some s) r.recovers r.intact,
      )

  -- Whichever write a commit over files at rest stops after, a read finishes the commit: it answers
  -- with the new document and leaves files at rest that bind it.
  pub Crashed-load_verified :
      (txn_id now : String) (intent : Intent) (s : RunState) (d p : Disk D) (es : List (Event D))
      (o : Option RunState)
      → (i : IsIntact h d es o) → IsAdmissible h run_id txn_id intent s es
      → Crashed h run_id txn_id intent s es i.hashes d p
      → (rest : Disk D) × (rows : List (Event D)) × (load_verified_locked h run_id now p
          ≡ (rest, ok (some s)))
        × IsIntact h rest rows (some s)
  Crashed-load_verified txn_id now intent s d p es o i a crash =
      let r =
        Crashed-IsRecovered h run_id txn_id intent s now es o d i.hashes p i a i.hashed crash in
      (
        r.rest,
        r.after,
        load-intact h run_id now p r.rest r.outcome r.after (some s) r.recovers r.intact,
        r.intact,
      )
