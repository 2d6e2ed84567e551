-- ===== src/Decisions/Tests.antt =====
-- The responses at concrete changes.
use ttp_protocol.Common.{◌≡◌, refl, ℕ, ◌⊎◌, ◌↔◌, true, false, some, none, [], ◌∷◌, millionths}
use ttp_protocol.Consequence.Scale.{low, medium, critical}
use ttp_protocol.Decisions.{
  Change, Route, Agent, Policy, Answer, keep, reroute, escalate, throttle, revoke, constrain, deny,
  respond_to_change, respond_by_route, respond_on_route, respond_without_route, over_rate,
  must_escalate, requires_approval, propose_constraint, too_many_failures, unchanged, decide,
  no_route, requires_human_approval,
}
use ttp_protocol.Decisions.Safety.{
  IsSound, IsClear, IsAboveAuthority, may_proceed-IsSound, route_stands_iff,
  rate_limit_lifts_escalation,
}

runs : Unit {0}
unfolding requires_human_approval respond_to_change respond_by_route respond_on_route
    respond_without_route over_rate must_escalate requires_approval propose_constraint
    too_many_failures decide
runs = tt

abbrev planner : Agent ℕ
planner = record {
  id = "planner";
  revoked = false;
  credential_revoked = false;
  quarantined = false;
  killed = false;
  trust = some 950_000;
}

abbrev direct : Route ℕ
direct = record { route_id = "direct"; trust_states = [] }

abbrev plain_policy : Policy ℕ
plain_policy = record {
  suspend_after_failures = none;
  max_per_window = λ s. none;
  max_per_window_default = some 3_000_000;
  escalate_at_or_above = some critical;
  escalate_to = none;
  require_approval_at_or_above = none;
  approval_amount = none;
  batch_limit = none;
  constrain_amount_above = none;
}

abbrev write_one : Change ℕ
write_one = record {
  action = "records.write";
  preview =
      some (record {
        severity = medium;
        records_affected = some 1_000_000;
        financial_exposure = none;
      });
  previous_route = some direct;
  current_route = some direct;
  agents = planner ∷ [];
  policy = plain_policy;
  history = record { consecutive_failures = none; in_window = some 1_000_000 };
  at = "2026-01-01T00:00:00Z";
}

abbrev wipe : Change ℕ
wipe = record write_one {
  preview =
      some (record { severity = critical; records_affected = none; financial_exposure = none });
}

abbrev wipe_often : Change ℕ
wipe_often = record wipe {
  history = record { consecutive_failures = none; in_window = some 3_000_000 };
}

responses :
    ((respond_to_change ⦃number = millionths⦄ write_one).response ≡ keep)
    × ((respond_to_change ⦃number = millionths⦄
          (record write_one { current_route = none })).response
        ≡ deny)
    × ((respond_to_change ⦃number = millionths⦄
          (record write_one { agents = record planner { revoked = true } ∷ [] })).response
        ≡ revoke)
    × ((respond_to_change ⦃number = millionths⦄ (record wipe {
      preview = some (record {
        severity = low;
        records_affected = some 26_000_000;
        financial_exposure = none;
      });
    })).response
        ≡ constrain)
unfolding runs
responses = (refl, refl, refl, refl)

may_proceed-IsSound_example : IsSound ⦃number = millionths⦄ write_one
unfolding runs
may_proceed-IsSound_example = may_proceed-IsSound ⦃number = millionths⦄ write_one refl

route_stands_iff_example :
    (((respond_to_change ⦃number = millionths⦄ write_one).response ≡ keep)
      ⊎ ((respond_to_change ⦃number = millionths⦄ write_one).response ≡ reroute))
    ↔ (IsSound ⦃number = millionths⦄ write_one
        × ((r : Route ℕ) × IsClear ⦃number = millionths⦄ write_one r))
route_stands_iff_example = route_stands_iff ⦃number = millionths⦄ write_one

above : IsAboveAuthority ⦃number = millionths⦄ wipe direct
unfolding runs
above = record {
  sound = record { unrevoked = refl; unstopped = refl; few_failures = refl };
  current = refl;
  above = refl;
}

above_often : IsAboveAuthority ⦃number = millionths⦄ wipe_often direct
unfolding runs
above_often = record {
  sound = record { unrevoked = refl; unstopped = refl; few_failures = refl };
  current = refl;
  above = refl;
}

rate_limit_lifts_escalation_example :
    ((respond_to_change ⦃number = millionths⦄ wipe).response ≡ escalate)
    × ((respond_to_change ⦃number = millionths⦄ wipe).may_proceed ≡ false)
    × ((respond_to_change ⦃number = millionths⦄ wipe_often).response ≡ throttle)
    × ((respond_to_change ⦃number = millionths⦄ wipe_often).may_proceed ≡ true)
unfolding runs
rate_limit_lifts_escalation_example =
    rate_limit_lifts_escalation ⦃number = millionths⦄ wipe wipe_often direct direct 3_000_000 above
      above_often refl refl

abbrev denied : Answer ℕ
denied = record {
  response = deny;
  reason = no_route;
  action = "records.write";
  severity = medium;
  at = "2026-01-01T00:00:00Z";
  may_proceed = false;
}

abbrev kept : Answer ℕ
kept = record denied { response = keep; reason = unchanged "direct"; may_proceed = true }
