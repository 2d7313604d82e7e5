-- ===== src/Owners/Continue.antt =====
-- state.py, `continue_blocked_program`: the operator's one way out of BLOCKED.
use ownframework_loop.Prelude.{
  ℕ, ◌+◌, String, leb, ◌==◌, same, codes, length, all, Bool, true, false, ◌&&◌, ◌||◌, none, some,
  [], ◌∷◌, ◌++◌, if◌then◌else◌, Result, ok, ◌>>=◌, ◌>>◌, require, refuse, expect, is_ok,
}
use ownframework_loop.Packet.{Packet, repair_round_count}
use ownframework_loop.Transitions.{ready_to_build, blocked}
use ownframework_loop.Graph.WorkUnits.{is_blank}
use ownframework_loop.Graph.Positions.{find_checkpoint}
use ownframework_loop.Run.{RunState, given, no_reason}
use ownframework_loop.Program.{tally_of, ProgramState, unknown_checkpoint, Digests}
use ownframework_loop.Program.Refresh.{select_next_checkpoint}
use ownframework_loop.Budget.Bump.{bump_counter_one}
use ownframework_loop.Budget.Frozen.{verify_frozen_graph}
use ownframework_loop.Claims.{same_state}
use ownframework_loop.Owners.{
  OwnerError, program_refused, bound_candidate, wrong_source, not_program_run, counter_drift,
  drifted, no_checkpoint, bad_argument, lift, present,
}

unfoldable pub is_hex : ℕ → Bool
is_hex c = (leb b'0' c && leb c b'9') || (leb b'a' c && leb c b'f')

-- The text matches [0-9a-f]{low,high}.
unfoldable pub is_hex_text : ℕ → ℕ → String → Bool
unfolding is_hex
is_hex_text low high s =
    leb low (length (codes s)) && leb (length (codes s)) high && all is_hex (codes s)

pub record ContinueRequest : Type 0 where
  pub actor : String
  pub reason : String
  pub commit_sha : String
  pub continuation_id : String
  pub expected_previous_candidate_sha : String

-- The writes of a continuation; `transitions_count` is left alone.
unfoldable pub continued_document : ContinueRequest → ProgramState → String → RunState → RunState
continued_document r program now cur = record cur {
  program = some program;
  repair_round = cur.repair_round + 1;
  state = ready_to_build;
  terminal_reason = no_reason;
  updated_at = now;
  last_actor = r.actor;
  state_history =
      cur.state_history
      ++ record {
        from = blocked;
        to = ready_to_build;
        at = now;
        actor = r.actor;
        reason = given r.reason;
      }
        ∷ [];
}

-- The repair is funded without the packet, so that nothing is borrowed for it.
unfoldable pub fund_continuation :
    Digests
    → Packet
    → ContinueRequest
    → String
    → String
    → ProgramState
    → RunState
    → Result OwnerError (RunState × Bool)
unfolding continued_document
fund_continuation d p r now cid program cur = do
  require (same_state cur.state blocked) wrong_source
  require (cur.repair_round == tally_of repair_round_count program.counters) counter_drift
  packet_cp ← expect (find_checkpoint cid p.checkpoints) (program_refused unknown_checkpoint)
  new ←
      lift program_refused
        (bump_counter_one d program cid repair_round_count packet_cp none none "" now)
  ok (continued_document r new now cur, true)

-- The flag says whether the call continued the run, or found it continued already.
unfoldable pub continue_blocked_program :
    Digests → Packet → ContinueRequest → String → RunState → Result OwnerError (RunState × Bool)
unfolding is_hex_text fund_continuation
continue_blocked_program d p r now cur = do
  refuse (is_blank r.reason) bad_argument
  require (is_hex_text 40 40 r.commit_sha) bad_argument
  require (is_hex_text 32 64 r.continuation_id) bad_argument
  require cur.is_program_schema not_program_run
  let previous =
      if present r.expected_previous_candidate_sha
      then r.expected_previous_candidate_sha
      else r.commit_sha
  require (is_hex_text 40 40 previous) bad_argument
  require (same cur.last_candidate_sha previous) bound_candidate
  program ← expect cur.program not_program_run
  require (is_ok (verify_frozen_graph d p program)) drifted
  cid ← expect (select_next_checkpoint program) no_checkpoint
  if same_state cur.state ready_to_build
      then ok (cur, false)
      else fund_continuation d p r now cid program cur
