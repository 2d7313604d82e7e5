-- ===== src/Budget/Promises.antt =====
-- What a borrowed claim must leave for the other checkpoints and for the last review, said as a sum over
-- the execution order.
use ownframework_loop.Prelude.{
  ℕ, ◌+◌, ◌-◌, ◌≡◌, refl, inl, inr, String, same, mem, Bool-cases, ◌||◌, Option, none, some, List,
  [], ◌∷◌, sum_of, arith, if◌then◌else◌,
}
use ownframework_loop.Packet.{
  Packet, CounterKind, build_pass_count, review_pass_count, repair_round_count,
}
use ownframework_loop.Program.{tally_of, CheckpointState, ProgramState, find_cp}
use ownframework_loop.Budget.{minimum_one_repair_final_acceptance_reserve, packet_cap}
use ownframework_loop.Budget.Pools.{approved_ids, add_reserved, future_room, future_reserve}

-- What is left of the cap that the packet declares for a checkpoint. It is promised to each checkpoint
-- of the order that is neither the claiming one nor approved; the others are promised nothing.
abbrev unused : CounterKind → Packet → String → Option CheckpointState → ℕ
unused k p c none = 0
unused k p c (some cp) = packet_cap k c p.checkpoints - tally_of k cp.counts

abbrev pub promised : CounterKind → Packet → ProgramState → String → String → ℕ
promised k p program cid c =
    if same c cid || mem c (approved_ids program.finalized_checkpoints)
    then 0
    else unused k p c (find_cp c program.checkpoints)

-- The last review may ask for one repair: one build, one repair and two reviews are kept for it.
abbrev pub final_lane : CounterKind → ℕ
final_lane build_pass_count = 1
final_lane repair_round_count = 1
final_lane review_pass_count = 2

pub final_lane-eq : (k : CounterKind) → minimum_one_repair_final_acceptance_reserve k ≡ final_lane k
unfolding minimum_one_repair_final_acceptance_reserve
final_lane-eq build_pass_count = refl
final_lane-eq repair_round_count = refl
final_lane-eq review_pass_count = refl

future_room-eq :
    (k : CounterKind) (p : Packet) (c : String) (found : Option CheckpointState) (rest : Option ℕ)
    (n : ℕ)
    → future_room k p.checkpoints c found rest ≡ some n
    → (m : ℕ) × (rest ≡ some m) × (n ≡ unused k p c found + m)
unfolding future_room add_reserved
future_room-eq k p c none rest n h = absurd (ground (arith, h))
future_room-eq k p c (some cp) none n h = absurd (ground (arith, h))
future_room-eq k p c (some cp) (some m) n h = (m, refl, ground (arith, h))

-- Where every promise can be read, the reserve is their sum.
pub future_reserve-sum :
    (k : CounterKind) (p : Packet) (program : ProgramState) (cid : String) (order : List String)
    (n : ℕ)
    → future_reserve k p.checkpoints program.checkpoints
        (approved_ids program.finalized_checkpoints)
        cid
        order
      ≡ some n
    → n ≡ sum_of (promised k p program cid) order
unfolding future_reserve
future_reserve-sum k p program cid [] n h = ground (arith, h)
future_reserve-sum k p program cid (c ∷ order) n h =
    let approved = approved_ids program.finalized_checkpoints in
    elim (Bool-cases (same c cid || mem c approved)) [
      | inl out ↦
          ground (arith, future_reserve-sum k p program cid order n (ground (arith, out, h)), out)
      | inr waits ↦
          let (m, rest, total) =
            future_room-eq k p c (find_cp c program.checkpoints)
              (future_reserve k p.checkpoints program.checkpoints approved cid order) n
              (ground (arith, waits, h)) in
          ground (arith, future_reserve-sum k p program cid order m rest, total, waits)
    ]
