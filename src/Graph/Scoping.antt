-- ===== src/Graph/Scoping.antt =====
-- `validate_checkpoint_graph`: checkpoints that claim acceptance criteria must cover them.
use ownframework_loop.Prelude.{
  String, same, mem, distinct, Bool, true, false, not, Option, none, some, List, [], ◌∷◌, ◌++◌, any,
  all, if◌then◌else◌, report, each,
}
use ownframework_loop.Packet.{Checkpoint, Packet}
use ownframework_loop.Graph.{
  GraphError, criterion_without_id, criterion_ids_not_unique, scoping_not_total,
  criterion_ids_empty, criterion_ids_blank, criterion_ids_duplicated, criterion_ids_unknown,
  criteria_not_covered,
}

abbrev is_scoped : Checkpoint → Bool
is_scoped cp = elim cp.acceptance_criterion_ids [ none ↦ false | some xs ↦ true ]

abbrev is_blank_id : Option String → Bool
is_blank_id none = true
is_blank_id (some s) = same s ""

-- The items that carry an id.
explicit_ids : List (Option String) → List String
explicit_ids [] = []
explicit_ids (none ∷ items) = explicit_ids items
explicit_ids (some s ∷ items) =
    let rest = explicit_ids items in if same s "" then rest else s ∷ rest

-- `acceptance_criterion_ids`, with the absent and the empty list refused alike.
listed : Option (List String) → List String
listed none = []
listed (some xs) = xs

-- Diagnostics of one checkpoint's list; the first two end its turn.
list_errors : List String → List String → List GraphError
list_errors top [] = criterion_ids_empty ∷ []
list_errors top (x ∷ xs) =
    if any (λ s. same s "") (x ∷ xs)
    then criterion_ids_blank ∷ []
    else report (not (distinct (x ∷ xs))) criterion_ids_duplicated
      ++ report (any (λ s. not (mem s top)) (x ∷ xs)) criterion_ids_unknown

-- What a checkpoint adds to `covered`, before the ids outside the packet are dropped.
covers : List String → List String
covers xs = if any (λ s. same s "") xs then [] else xs

covered : List Checkpoint → List String
unfolding covers listed
covered [] = []
covered (cp ∷ cps) = covers (listed cp.acceptance_criterion_ids) ++ covered cps

unfoldable pub scoping_errors : Packet → List Checkpoint → List GraphError
unfolding explicit_ids listed list_errors covered
scoping_errors p by_id =
    let top = explicit_ids p.acceptance_criteria in
    if not (any is_scoped by_id)
    then []
    else report (any is_blank_id p.acceptance_criteria) criterion_without_id
      ++ (report (not (distinct top)) criterion_ids_not_unique
          ++ (report (not (all is_scoped by_id)) scoping_not_total
              ++ (each (λ cp. list_errors top (listed cp.acceptance_criterion_ids)) by_id
                  ++ report (any (λ s. not (mem s (covered by_id))) top) criteria_not_covered)))
