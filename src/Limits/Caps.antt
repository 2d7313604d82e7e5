-- ===== src/Limits/Caps.antt =====
-- The caps of limits.py lie within the absolute envelope, and bound every guarded loop.
use ownframework_loop.Prelude.{
  ℕ, zero, suc, ◌+◌, ◌≤◌, ◌<◌, ◌≡◌, ◌≢◌, ◌↔◌, Option, some, ok, err, arith, get_or, is_ok, max, ltb,
  if◌then◌else◌,
}
use ownframework_loop.Packet.{RiskBudget}
use ownframework_loop.Limits.{
  Counter, unlisted, absolute_cap, packet_override, effective_cap, enforce, above_absolute_ceiling,
}

-- Whatever the packet declares, the cap in force is never above the absolute envelope, and a counter
-- of the table always has one.
pub effective_cap-le :
    (c : Counter) (packet : Option RiskBudget) {cap : Option ℕ}
    → c ≢ unlisted
    → effective_cap c packet ≡ ok cap
    → (k : ℕ) × (cap ≡ some k) × (k ≤ get_or (absolute_cap c) 0)
unfolding effective_cap
effective_cap-le c packet {cap} listed h = (get_or cap 0, ground arith, ground arith)

-- A packet's own entry is in force exactly when it is within the envelope; a larger one is refused.
effective_cap-override :
    (c : Counter) (b : RiskBudget) (k absolute : ℕ)
    → packet_override c b ≡ some k
    → absolute_cap c ≡ some absolute
    → ((effective_cap c (some b) ≡ ok (some k)) ↔ (k ≤ absolute))
      × ((effective_cap c (some b) ≡ err above_absolute_ceiling) ↔ (absolute < k))
unfolding effective_cap
effective_cap-override c b k absolute h a = ground arith

-- A loop that enforces the counter before each increment, for at most `fuel` rounds; the result is
-- the counter's last value.
pub guarded_rounds : ℕ → Counter → ℕ → Option RiskBudget → ℕ
guarded_rounds zero c n packet = n
guarded_rounds (suc fuel) c n packet =
    let more = guarded_rounds fuel c (n + 1) packet in
    if is_ok (enforce c n packet) then more else n

enforce-ltb :
    (c : Counter) (n k : ℕ) (packet : Option RiskBudget)
    → effective_cap c packet ≡ ok (some k)
    → is_ok (enforce c n packet) ≡ ltb n k
unfolding enforce
enforce-ltb c n k packet h = rw (h, enforce) (ground arith)

-- Enforcing before each increment stops every counter exactly at its cap, however many rounds the
-- caller is ready to make (a counter that starts above the cap is not moved).
guarded_rounds-eq-cap :
    (fuel : ℕ) (c : Counter) (n k : ℕ) (packet : Option RiskBudget)
    → effective_cap c packet ≡ ok (some k)
    → k ≤ n + fuel
    → guarded_rounds fuel c n packet ≡ max n k
unfolding guarded_rounds
guarded_rounds-eq-cap zero c n k packet h enough = omega arith
guarded_rounds-eq-cap (suc fuel) c n k packet h enough =
    rw (enforce-ltb c n k packet h)
      (ground (arith, guarded_rounds-eq-cap fuel c (n + 1) k packet h))
