-- ===== src/Graph/WorkUnits.antt =====
-- program.py, `_resolve_checkpoint_work_unit_id`: the one work unit that owns a checkpoint.
use ownframework_loop.Prelude.{
  ℕ, String, leb, ◌==◌, mem, codes, Bool, ◌&&◌, ◌||◌, Option, none, some, List, [], ◌∷◌, any, all,
  if◌then◌else◌, Result, ok, err,
}
use ownframework_loop.Packet.{Checkpoint, Packet, WorkUnit}
use ownframework_loop.Graph.{GraphError, work_unit_unresolved, work_unit_ambiguous}

-- The characters that `str.strip` removes.
is_space : ℕ → Bool
is_space c =
    (leb 9 c && leb c 13)
    || (leb 28 c && leb c 32)
    || c == 133
    || c == 160
    || c == 5760
    || (leb 8192 c && leb c 8202)
    || c == 8232
    || c == 8233
    || c == 8239
    || c == 8287
    || c == 12288

-- `not s.strip()`
unfoldable pub is_blank : String → Bool
unfolding is_space
is_blank s = all is_space (codes s)

unfoldable pub valid_units : List WorkUnit → List WorkUnit
unfolding is_blank
valid_units [] = []
valid_units (u ∷ us) = let rest = valid_units us in if is_blank u.id then rest else u ∷ rest

-- The units that share an acceptance criterion with the checkpoint.
unfoldable pub matching_units : List String → List WorkUnit → List WorkUnit
matching_units wanted [] = []
matching_units wanted (u ∷ us) =
    let rest = matching_units wanted us in
    if any (λ a. mem a wanted) u.acceptance then u ∷ rest else rest

-- The unit of a list of candidates.
only_unit : List WorkUnit → Result GraphError String
only_unit [] = err work_unit_unresolved
only_unit (u ∷ []) = ok u.id
only_unit (u ∷ v ∷ us) = err work_unit_ambiguous

explicit_unit : List String → Result GraphError String
unfolding is_blank
explicit_unit (u ∷ []) = if is_blank u then err work_unit_unresolved else ok u
explicit_unit _ = err work_unit_ambiguous

inherited_unit : List WorkUnit → List String → Result GraphError String
unfolding matching_units only_unit
inherited_unit (u ∷ []) wanted = ok u.id
inherited_unit units wanted = only_unit (matching_units wanted units)

abbrev criteria_of : Option (List String) → List String
criteria_of none = []
criteria_of (some xs) = xs

unfoldable pub resolve_checkpoint_work_unit_id : Packet → Checkpoint → Result GraphError String
unfolding valid_units explicit_unit inherited_unit
resolve_checkpoint_work_unit_id p cp = elim cp.work_units [
  | some override ↦ explicit_unit override
  | none ↦ inherited_unit (valid_units p.work_units) (criteria_of cp.acceptance_criterion_ids)
]
