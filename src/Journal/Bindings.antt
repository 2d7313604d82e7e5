-- ===== src/Journal/Bindings.antt =====
-- lib/ownframework_loop/state.py, `_verify_semantic_budget_allocation_bindings`: every borrowed pass of a
-- document has an event of its claim, or stands in a ledger that a segment imported.
use ownframework_loop.Prelude.{
  ℕ, ◌+◌, ltb, zero, suc, String, same, not, Bool, false, ◌||◌, ◌&&◌, Option, none, some, List, [],
  ◌∷◌, ◌++◌, any, length, take, Result, ok, ◌>>◌, require, if◌then◌else◌,
}
use ownframework_loop.Program.{Allocation}
use ownframework_loop.Budget.{allocations_of}
use ownframework_loop.Run.{RunState}
use ownframework_loop.Integrity.{
  Value, count, Intent, Hashes, IntegrityError, allocation_digest_mismatch, allocation_unbound,
}
use ownframework_loop.Journal.{extra, text_of}

-- 1, …, n
abbrev up_to : ℕ → List ℕ
up_to zero = []
up_to (suc n) = up_to n ++ (suc n ∷ [])

-- The counts that an import event may stand for.
abbrev candidate_counts : Option Value → ℕ → List ℕ
candidate_counts (some (count n)) total = n ∷ []
candidate_counts _ total = up_to total

abbrev pub names_allocation : String → String → Intent → Bool
names_allocation id row i =
    same (text_of (extra "semantic_budget_allocation_id" i.extras)) id
    && same (text_of (extra "semantic_budget_allocation_sha256" i.extras)) row

module _ {D : Type 0} (h : Hashes D) where
  -- The first candidate whose prefix has the imported digest.
  abbrev prefix_of : String → List Allocation → List ℕ → Option ℕ
  prefix_of sha ledger [] = none
  prefix_of sha ledger (n ∷ ns) =
      let rest = prefix_of sha ledger ns in
      if ltb n 1 || ltb (length ledger) n
      then rest
      else if same (h.allocations (take n ledger)) sha
      then some n
      else rest

  -- The prefix that one event imported.
  abbrev imported_prefix : List Allocation → Intent → Option ℕ
  imported_prefix ledger i =
      let sha = text_of (extra "semantic_budget_import_sha256" i.extras) in
      if not (same i.event_type "mission_segment_materialized") || same sha ""
      then none
      else prefix_of sha ledger
          (candidate_counts (extra "semantic_budget_import_count" i.extras) (length ledger))

  -- `any(index < count for count in imported_prefix_lengths)`
  abbrev pub imports : List Allocation → ℕ → Intent → Bool
  imports ledger index i = elim (imported_prefix ledger i) [ none ↦ false | some n ↦ ltb index n ]

  abbrev pub verify_rows :
      List Allocation → List Intent → ℕ → List Allocation → Result IntegrityError (Unit {0})
  verify_rows ledger events index [] = ok tt
  verify_rows ledger events index (row ∷ rows) =
      let rest = verify_rows ledger events (index + 1) rows in
      require (same row.allocation_id (h.allocation row.body)) allocation_digest_mismatch
      >> require
          (any (names_allocation row.allocation_id (h.allocation_row row)) events
            || any (imports ledger index) events)
          allocation_unbound
      >> rest

  unfoldable pub verify_allocation_bindings :
      Option RunState → List Intent → Result IntegrityError (Unit {0})
  verify_allocation_bindings none events = ok tt
  verify_allocation_bindings (some s) events = elim s.program [
    | none ↦ ok tt
    | some program ↦ verify_rows (allocations_of program) events 0 (allocations_of program)
  ]
