-- ===== src/Routing/Tests.antt =====
-- A request over two candidates, and the theorems on resolutions at it.
use ttp_protocol.Common.{
  ◌≡◌, ◌≢◌, refl, String, true, false, ℕ, ◌-◌, ◌*◌, none, some, [], ◌∷◌, In, here, millionths,
  millionths-IsOrdered, ◌==◌, eq_iff, arith,
}
use Prim.Native.Nat.{◌/◌}
use Prim.Native.String.{◌++◌}
use ttp_protocol.Json.Tests.{text_length}
use ttp_protocol.Routing.{
  Host, permit, deny, Candidate, Input, Request, Evaluated, default_routing_policy, evaluate,
  compute_binding_hash, is_environment_valid, trust_zone, compute_trust_score_with_decay,
}
use ttp_protocol.Routing.Resolve.{
  is_valid, strongest, choose, needs_step_up, needs_throttle, needs_constrain, decision_of,
  deny_with, permit_with, over_budget, conclude, request_denial, resolve_candidates,
  resolve_trust_route,
}
use ttp_protocol.Routing.Permits.{IsPermitted}
use ttp_protocol.Routing.Outcome.{
  resolve_permits_iff, selected_path-is_valid, selected_is_strongest,
}

-- A SHA-256 that returns its text, a linear exponential, and one date.
abbrev toy_host : Host ℕ
toy_host = record {
  parse_ms = λ t. text_length t * 1_000_000;
  thousandth = λ x. x / 1000;
  exp_minus = λ x. 1_000_000 - x;
  sha256_hex = λ t. t;
}

abbrev candidate : String → ℕ → Candidate ℕ
candidate name score = record {
  issuer_type = "domain";
  issuer_id = name;
  action = "*";
  trust_score = score;
  min_trust_score = 600_000;
  last_verified_at = "2026-01-01T00:00";
  signals = [];
  freshness_seconds = 5_000_000;
  revoked = false;
  delegation_allowed = false;
  max_hops = 1_000_000;
  environment_constraints = [];
  domain_decision = none;
  requires_step_up = false;
  grant_id = "g";
  proof_ref = "p";
}

abbrev request : Request ℕ
request = record {
  subject = "s";
  action = "read";
  resource = "r";
  params_hash = some "sha256:00";
  timestamp = "2026-01-01T00:00";
  binding_hash = "sha256:s|read|r|sha256:00|2026-01-01T00:00";
  context = [];
  proof_required = true;
  delegation_hop_count = none;
  attestation_ref = none;
}

abbrev two_paths : Input ℕ
two_paths = record {
  request = request;
  candidates = candidate "weak" 700_000 ∷ candidate "strong" 900_000 ∷ [];
  policy = default_routing_policy ⦃number = millionths⦄;
  resolver_available = true;
  proof_engine_available = true;
  latency_budget_ms = 50_000_000;
  start_time_ms = 0;
  now_ms = 2_000_000;
}

permitted : (resolve_trust_route ⦃number = millionths⦄ toy_host two_paths).decision ≡ permit
unfolding resolve_trust_route resolve_candidates request_denial conclude permit_with decision_of
    evaluate choose strongest is_valid over_budget compute_binding_hash needs_step_up needs_throttle
    needs_constrain is_environment_valid trust_zone compute_trust_score_with_decay
    default_routing_policy deny_with
permitted = refl

over_strong :
    (resolve_trust_route ⦃number = millionths⦄ toy_host two_paths).selected_path
    ≡ some "domain:strong"
unfolding resolve_trust_route resolve_candidates request_denial conclude permit_with decision_of
    evaluate choose strongest is_valid over_budget compute_binding_hash needs_step_up needs_throttle
    needs_constrain is_environment_valid trust_zone compute_trust_score_with_decay
    default_routing_policy deny_with
over_strong = refl

not_denied : (resolve_trust_route ⦃number = millionths⦄ toy_host two_paths).decision ≢ deny
not_denied d = cc permitted

resolve_permits_iff_example :
    (e : Evaluated ℕ) × IsPermitted ⦃number = millionths⦄ toy_host two_paths e
resolve_permits_iff_example =
    (resolve_permits_iff ⦃number = millionths⦄ toy_host two_paths).0 not_denied

selected_path-is_valid_example :
    (c : Candidate ℕ) × (In c two_paths.candidates
      × ((is_valid ⦃number = millionths⦄ (evaluate ⦃number = millionths⦄ toy_host two_paths c)
            ≡ true)
          × ((resolve_trust_route ⦃number = millionths⦄ toy_host two_paths).selected_path
              ≡ some (c.issuer_type ++ (":" ++ c.issuer_id)))))
selected_path-is_valid_example =
    selected_path-is_valid ⦃number = millionths⦄ toy_host two_paths not_denied

differ : (a b : String) → (a == b) ≡ false → a ≢ b
differ a b h = λ e. absurd (ground (arith, eq_iff a b))

not_freshest : two_paths.policy.strategy ≢ "freshest_path_wins"
unfolding default_routing_policy
not_freshest = differ _ _ refl

not_supervisor : two_paths.policy.strategy ≢ "supervisor_override"
unfolding default_routing_policy
not_supervisor = differ _ _ refl

weak_is_valid :
    is_valid ⦃number = millionths⦄
      (evaluate ⦃number = millionths⦄ toy_host two_paths (candidate "weak" 700_000))
    ≡ true
unfolding evaluate is_valid is_environment_valid trust_zone compute_trust_score_with_decay
    default_routing_policy
weak_is_valid = refl

selected-is_strongest_example :
    millionths.lt
      (resolve_trust_route ⦃number = millionths⦄ toy_host two_paths).trust_score_at_decision
      (evaluate ⦃number = millionths⦄ toy_host two_paths (candidate "weak" 700_000)).evaluated_score
    ≡ false
selected-is_strongest_example =
    selected_is_strongest ⦃number = millionths⦄ millionths-IsOrdered toy_host two_paths not_freshest
      not_supervisor not_denied (candidate "weak" 700_000) (here refl) weak_is_valid
