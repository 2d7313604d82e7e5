-- ===== src/Owners/Passes.antt =====
-- The outcomes of `claim_single_pass`, and the history as the proof of what was claimed.
use ownframework_loop.Prelude.{
  ℕ, ◌+◌, ◌≤◌, ◌<◌, ◌≡◌, none, some, refl, String, ltb, ◌==◌, Bool-cases, inl, inr, true, false,
  ◌&&◌, Option, List, [], ◌∷◌, ◌++◌, ok, arith, subst, if◌then◌else◌,
}
use ownframework_loop.Packet.{RiskBudget}
use ownframework_loop.Transitions.{State, State-discrete, building, reviewing, blocked}
use ownframework_loop.Limits.{effective_cap}
use ownframework_loop.Run.{RunState, HistoryEntry, cap_exhausted, claim_pass}
use ownframework_loop.Claims.{same_state}
use ownframework_loop.Owners.{moved}
use ownframework_loop.Owners.Single.{
  PassKind, build, review, pass_target, pass_count, pass_counter, pass_source, set_count,
  history_claims, Outcome, funded, replayed, recovered, sealed, reached, seal_blocked, resume,
  start_pass, claim_single_pass,
}

-- The history shows as many claims as the counter counts.
abbrev pub IsLogged : PassKind → RunState → Type 0
IsLogged kind s = history_claims (pass_target kind) s.state_history ≡ pass_count kind s

history_claims-snoc :
    (target : State) (history : List HistoryEntry) (e : HistoryEntry)
    → history_claims target (history ++ e ∷ []) ≡ (
        if same_state e.to target
        then history_claims target history + 1
        else history_claims target history)
unfolding history_claims
history_claims-snoc target [] e = ground arith
history_claims-snoc target (f ∷ history) e = ground (arith, history_claims-snoc target history e)

-- A count below the cap, where there is one, and a count that a cap stops.
pub data IsBelowCap : Option ℕ → ℕ → Type 0 where
  uncapped : (n : ℕ) → IsBelowCap none n
  below : (c n : ℕ) → n < c → IsBelowCap (some c) n

pub data IsAtCap : Option ℕ → ℕ → Type 0 where
  at_cap : (c n : ℕ) → c ≤ n → IsAtCap (some c) n

reached-IsBelowCap : (cap : Option ℕ) (n : ℕ) → reached cap n ≡ false → IsBelowCap cap n
reached-IsBelowCap none n h = uncapped n
reached-IsBelowCap (some c) n h = below c n (ground (arith, h))

reached-IsAtCap : (cap : Option ℕ) (n : ℕ) → reached cap n ≡ true → IsAtCap cap n
reached-IsAtCap none n h = absurd (ground (arith, h))
reached-IsAtCap (some c) n h = at_cap c n (ground (arith, h))

-- What a claim that succeeded did, under the cap in force.
pub data PassEffect (kind : PassKind) (cap : Option ℕ) (before after : RunState)
    : Outcome → Type 0 where
  was_funded :
      pass_source kind before.state ≡ true
      → IsBelowCap cap (pass_count kind before)
      → after.state ≡ pass_target kind
      → pass_count kind after ≡ pass_count kind before + 1
      → history_claims (pass_target kind) after.state_history
        ≡ history_claims (pass_target kind) before.state_history + 1
      → PassEffect kind cap before after funded
  was_recovered :
      before.state ≡ pass_target kind
      → IsBelowCap cap (pass_count kind before)
      → after.state ≡ pass_target kind
      → pass_count kind after ≡ pass_count kind before + 1
      → IsLogged kind after
      → PassEffect kind cap before after recovered
  was_replayed :
      before.state ≡ pass_target kind
      → 1 ≤ pass_count kind before
      → IsLogged kind before
      → after ≡ before
      → PassEffect kind cap before after replayed
  was_sealed :
      IsAtCap cap (pass_count kind before)
      → after.state ≡ blocked
      → pass_count kind after ≡ pass_count kind before
      → PassEffect kind cap before after sealed

seal-effect :
    (kind : PassKind) (actor now : String) (cap : Option ℕ) (cur after : RunState) (o : Outcome)
    → reached cap (pass_count kind cur) ≡ true
    → seal_blocked actor now cur ≡ ok (after, o)
    → PassEffect kind cap cur after o
unfolding seal_blocked moved
seal-effect kind actor now cap cur after o full h =
    subst (λ (r : RunState × Outcome). PassEffect kind cap cur r.0 r.1)
      {x = (
        record (moved blocked actor cap_exhausted now cur) { terminal_reason = cap_exhausted },
        sealed,
      )}
      (ground arith)
      (was_sealed (reached-IsAtCap cap (pass_count kind cur) full) refl (ground arith))

resume-effect :
    (kind : PassKind) (actor now : String) (cap : Option ℕ) (cur after : RunState) (o : Outcome)
    → cur.state ≡ pass_target kind
    → resume kind actor now cap cur ≡ ok (after, o)
    → PassEffect kind cap cur after o
unfolding resume
resume-effect kind actor now cap cur after o at h =
    let count = pass_count kind cur in
    let logged = history_claims (pass_target kind) cur.state_history in
    elim (Bool-cases (logged == count && ltb 0 count)) [
      | inl same ↦
          subst (λ (r : RunState × Outcome). PassEffect kind cap cur r.0 r.1) {x = (cur, replayed)}
            (ground arith) (was_replayed at (ground arith) (ground arith) refl)
      | inr differs ↦ elim (Bool-cases (logged == count + 1)) [
        | inr drift ↦ ground arith
        | inl late ↦ elim (Bool-cases (reached cap count)) [
          | inl full ↦ seal-effect kind actor now cap cur after o full (ground arith)
          | inr room ↦
              subst (λ (r : RunState × Outcome). PassEffect kind cap cur r.0 r.1)
                {x = (
                  record (set_count kind (count + 1) cur) { updated_at = now; last_actor = actor },
                  recovered,
                )}
                (ground arith)
                (was_recovered at (reached-IsBelowCap cap count room) (ground arith) (ground arith)
                  (ground arith))
        ]
      ]
    ]

started-logged :
    (kind : PassKind) (actor now : String) (cur : RunState)
    → history_claims
        (pass_target kind)
        (set_count kind
          (pass_count kind cur + 1)
          (moved (pass_target kind) actor claim_pass now cur)).state_history
      ≡ history_claims (pass_target kind) cur.state_history + 1
unfolding moved State-discrete
started-logged build actor now cur =
    history_claims-snoc building cur.state_history
      (record { from = cur.state; to = building; at = now; actor = actor; reason = claim_pass })
started-logged review actor now cur =
    history_claims-snoc reviewing cur.state_history
      (record { from = cur.state; to = reviewing; at = now; actor = actor; reason = claim_pass })

start-effect :
    (kind : PassKind) (actor now : String) (cap : Option ℕ) (cur after : RunState) (o : Outcome)
    → pass_source kind cur.state ≡ true
    → reached cap (pass_count kind cur) ≡ false
    → start_pass kind actor now cur ≡ ok (after, o)
    → PassEffect kind cap cur after o
unfolding start_pass moved
start-effect kind actor now cap cur after o from room h =
    subst (λ (r : RunState × Outcome). PassEffect kind cap cur r.0 r.1)
      {x = (
        set_count kind (pass_count kind cur + 1)
            (moved (pass_target kind) actor claim_pass now cur),
        funded,
      )}
      (ground arith)
      (was_funded from (reached-IsBelowCap cap (pass_count kind cur) room) (ground arith)
        (ground arith) (started-logged kind actor now cur))

-- A claim of one pass that succeeds starts it from an allowed state with the counter and the history
-- both one further and the count below the cap before, if there is a cap; or finds it in flight and counted, and changes
-- nothing; or finds it in flight and written but not counted, and counts it below the cap; or seals
-- the run BLOCKED with the count at the cap or above, without counting.
pub claim_single_pass-effect :
    (kind : PassKind) (actor now : String) (budget : Option RiskBudget) (cap : Option ℕ)
    (cur after : RunState) (o : Outcome)
    → effective_cap (pass_counter kind) budget ≡ ok cap
    → claim_single_pass kind actor budget now cur ≡ ok (after, o)
    → PassEffect kind cap cur after o
unfolding claim_single_pass State-discrete
claim_single_pass-effect kind actor now budget cap cur after o e h =
    elim (Bool-cases (same_state cur.state (pass_target kind))) [
      | inl at ↦ resume-effect kind actor now cap cur after o (ground arith) (ground arith)
      | inr elsewhere ↦ elim (Bool-cases (reached cap (pass_count kind cur))) [
        | inl full ↦ seal-effect kind actor now cap cur after o full (ground arith)
        | inr room ↦ start-effect kind actor now cap cur after o (ground arith) room (ground arith)
      ]
    ]
