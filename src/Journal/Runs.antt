-- ===== src/Journal/Runs.antt =====
-- A PROGRAM run on disk: its owners commit through the journal.
use ownframework_loop.Prelude.{◌≡◌, refl, sym, ap, subst, ◌∙◌, String, Option, some, List, ok}
use ownframework_loop.Packet.{Packet}
use ownframework_loop.Run.{RunState}
use ownframework_loop.Program.{Digests}
use ownframework_loop.Owners.Invariant.{Step, IsSound}
use ownframework_loop.Owners.Runs.{Step-IsSound}
use ownframework_loop.Integrity.{Event, Hashes}
use ownframework_loop.Journal.{Disk}
use ownframework_loop.Journal.Access.{load_verified_locked}
use ownframework_loop.Journal.Intact.{IsIntact}
use ownframework_loop.Journal.History.{History}
use ownframework_loop.Journal.Durable.{load_verified-refines, History-keeps}

-- A write of an owner to a run that has a document.
abbrev pub ByOwner : Digests → Packet → Option RunState → RunState → Type 0
ByOwner dg p o b = (a : RunState) × (o ≡ some a) × Step dg p a b

some-injective : (a b : RunState) → some a ≡ some b → a ≡ b
some-injective a b e = cc

abbrev pub IsSoundRun : Packet → Option RunState → Type 0
IsSoundRun p o = (s : RunState) × (o ≡ some s) × IsSound p s

ByOwner-IsSoundRun :
    (dg : Digests) (p : Packet) (o : Option RunState) (b : RunState)
    → IsSoundRun p o
    → ByOwner dg p o b
    → IsSoundRun p (some b)
ByOwner-IsSoundRun dg p o b (s, found, sound) (a, read, step) = (
  b,
  refl,
  Step-IsSound dg p a b (subst (IsSound p) (some-injective s a (sym found ∙ read)) sound) step,
)

-- A PROGRAM run whose owners commit through the journal stays sound on disk: after any sequence of
-- commits of their steps, each of which finds the block that its caller read, of crashes after any
-- write of a commit, recoveries, reads and appended events, a read succeeds with a document whose
-- counters agree with its block and stay within the ceilings; and if it asks for the whole-product
-- review, the finalized entries are those of the checkpoints of the packet.
pub journaled_run-IsSound :
    {D : Type 0} (h : Hashes D) (run_id : String) (dg : Digests) (p : Packet) (start : Disk D)
    (first : RunState) (es : List (Event D)) (d : Disk D) (o : Option RunState) (now : String)
    → IsIntact h start es (some first)
    → IsSound p first
    → History h run_id (ByOwner dg p) start (some first) d o
    → (rest : Disk D) × (s : RunState) × (load_verified_locked h run_id now d ≡ (rest, ok (some s)))
      × IsSound p s
journaled_run-IsSound h run_id dg p start first es d o now i sound path =
    let (rest, rows, loads, at) =
      load_verified-refines h run_id (ByOwner dg p) start (some first) es d o now i path in
    let (s, is_s, sound_s) =
      History-keeps h run_id (ByOwner dg p) (IsSoundRun p) start (some first) d o
        (ByOwner-IsSoundRun dg p) (first, refl, sound) path in
    (rest, s, loads ∙ ap (λ x. (rest, ok x)) is_s, sound_s)
