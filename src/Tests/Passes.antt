-- ===== src/Tests/Passes.antt =====
-- Claims of single passes.
use ownframework_loop.Prelude.{◌≡◌, refl, false, some, none, [], ◌∷◌, ok, Option, ℕ}
use ownframework_loop.Packet.{RiskBudget, empty_budget}
use ownframework_loop.Transitions.{
  State-discrete, ready_to_build, building, assert_valid, is_valid, allowed,
}
use ownframework_loop.Limits.{
  effective_cap, check_override, packet_override, first_some, cap_for, absolute_cap,
  packet_lowers_cap,
}
use ownframework_loop.Run.{RunState, no_reason, claim_pass}
use ownframework_loop.Owners.{moved}
use ownframework_loop.Owners.Single.{
  build, pass_counter, funded, replayed, claim_single_pass, start_pass, history_claims,
}
use ownframework_loop.Owners.Passes.{PassEffect, claim_single_pass-effect}
use ownframework_loop.Owners.Retry.{claim_single_pass-retry}

abbrev waiting : RunState
waiting = record {
  is_program_schema = false;
  run_id = "run";
  state = ready_to_build;
  state_history = [];
  transitions_count = 0;
  build_pass_count = 0;
  review_pass_count = 0;
  repair_round = 0;
  no_progress_streak = 0;
  identical_finding_streak = 0;
  last_must_fix_fingerprint = "";
  updated_at = "t0";
  last_actor = "spec";
  terminal_reason = no_reason;
  last_candidate_sha = "";
  program = none;
}

abbrev started : RunState
started = record waiting {
  state = building;
  state_history =
      record {
        from = ready_to_build;
        to = building;
        at = "t1";
        actor = "builder";
        reason = claim_pass;
      }
      ∷ [];
  transitions_count = 1;
  build_pass_count = 1;
  updated_at = "t1";
  last_actor = "builder";
}

abbrev two_builds : Option RiskBudget
two_builds = some (record empty_budget { max_build_passes = some 2 })

abbrev two : Option ℕ
two = some 2

two_builds_cap : effective_cap (pass_counter build) two_builds ≡ ok two
unfolding effective_cap check_override packet_override first_some cap_for absolute_cap
    packet_lowers_cap
two_builds_cap = refl

started_ok : claim_single_pass build "builder" two_builds "t1" waiting ≡ ok (started, funded)
unfolding claim_single_pass start_pass effective_cap check_override packet_override first_some
    cap_for absolute_cap packet_lowers_cap State-discrete assert_valid is_valid allowed moved
started_ok = refl

not_logged_yet : history_claims building waiting.state_history ≡ 0
unfolding history_claims
not_logged_yet = refl

claim_single_pass-effect_example : PassEffect build two waiting started funded
claim_single_pass-effect_example =
    claim_single_pass-effect build "builder" "t1" two_builds two waiting started funded
      two_builds_cap started_ok

claim_single_pass-retry_example :
    claim_single_pass build "other" two_builds "t2" started ≡ ok (started, replayed)
claim_single_pass-retry_example =
    claim_single_pass-retry build "builder" "t1" "other" "t2" two_builds two waiting started
      two_builds_cap not_logged_yet started_ok
