-- ===== src/Routing/Resolve.antt =====
-- `resolveTrustRoute` of packages/trust-routing-engine/src/resolve.js.
use ttp_protocol.Common.{
  String, Bool, true, false, not, ◌&&◌, ◌||◌, Option, none, some, List, [], ◌∷◌, ◌++◌, map, any,
  keep, find, includes, length, if◌then◌else◌, or_else, ◌==◌, opt_eq, nat_eq, Numbers, first,
  sort_by, fail_if, is_empty,
}
use Prim.Native.String.{◌++◌ as ◌⊕◌}
use text.Mathlib.Text.{starts_with}
use ttp_protocol.Routing.{
  Host, Decision, permit, step_up, throttle, constrain, deny, Zone, degraded, warning, critical,
  Evaluated, Input, Resolution, evaluate, compute_binding_hash, zero_num,
}

-- What the choice among the valid candidates gives.
pub data Choice (Num : Type 0) : Type 0 where
  refused : String → Choice Num
  chosen : Evaluated Num → Choice Num

-- `paramsHash?.startsWith('sha256:')`
abbrev pub is_hash : Option String → Bool
is_hash none = false
is_hash (some h) = starts_with h "sha256:"

abbrev pub is_critical : Zone → Bool
is_critical critical = true
is_critical _ = false

abbrev is_warning : Zone → Bool
is_warning warning = true
is_warning _ = false

abbrev is_degraded : Zone → Bool
is_degraded degraded = true
is_degraded _ = false

abbrev is_permit : Decision → Bool
is_permit permit = true
is_permit _ = false

abbrev is_step_up : Decision → Bool
is_step_up step_up = true
is_step_up _ = false

-- The three assignments to `decision` in turn.
abbrev throttled : Decision → Decision
throttled d = if is_step_up d then step_up else throttle

abbrev constrained : Decision → Decision
constrained d = if is_permit d then constrain else d

abbrev or_valid : List String → List String
or_valid [] = "route_valid" ∷ []
or_valid (c ∷ cs) = c ∷ cs

module _ {Num : Type 0} ⦃number : Numbers Num⦄ where
  -- The filter of `evaluated`.
  unfoldable pub is_valid : Evaluated Num → Bool
  is_valid e =
      e.freshness_valid
      && e.scope_valid
      && e.environment_valid
      && e.delegation_valid
      && e.hops_valid
      && number.le e.candidate.min_trust_score e.evaluated_score

  -- The comparators `(a, b) => b.evaluatedScore - a.evaluatedScore` and on `freshnessSeconds`.
  abbrev pub stronger : Evaluated Num → Evaluated Num → Bool
  stronger a b = number.lt b.evaluated_score a.evaluated_score

  abbrev pub fresher : Evaluated Num → Evaluated Num → Bool
  fresher a b = number.lt a.candidate.freshness_seconds b.candidate.freshness_seconds

  abbrev pub is_supervisor : Evaluated Num → Bool
  is_supervisor e = e.candidate.issuer_type == "supervisor"

  abbrev pub is_hard_deny : Evaluated Num → Bool
  is_hard_deny e =
      e.candidate.issuer_type == "domain" && opt_eq e.candidate.domain_decision (some "DENY")

  -- `valid.sort(…)[0]`; `resolve_trust_route` has denied when nothing is valid.
  abbrev pub choose_first : Option (Evaluated Num) → Choice Num
  choose_first none = refused "no_valid_route_found"
  choose_first (some e) = chosen e

  unfoldable pub strongest : List (Evaluated Num) → Choice Num
  strongest valid = choose_first (first (sort_by stronger valid))

  -- The switch on the strategy.
  unfoldable pub choose : String → List (Evaluated Num) → List (Evaluated Num) → Choice Num
  choose strategy evaluated valid =
      if strategy == "require_all"
      then if nat_eq (length valid) (length evaluated)
        then strongest valid
        else refused "require_all_not_satisfied"
      else if strategy == "freshest_path_wins"
      then choose_first (first (sort_by fresher valid))
      else if strategy == "supervisor_override"
      then elim (find is_supervisor valid) [ some s ↦ chosen s | none ↦ strongest valid ]
      else if strategy == "domain_hard_deny_overrides_all" && any is_hard_deny valid
      then refused "domain_hard_deny"
      else strongest valid

  unfoldable pub needs_step_up : Input Num → Evaluated Num → Bool
  needs_step_up i e =
      is_warning e.zone
      || includes i.policy.step_up_actions i.request.action
      || e.candidate.requires_step_up

  unfoldable pub needs_throttle : Input Num → Evaluated Num → Bool
  needs_throttle i e = includes i.policy.throttle_actions i.request.action || is_degraded e.zone

  unfoldable pub needs_constrain : Input Num → Bool
  needs_constrain i = includes i.policy.constrain_actions i.request.action

  unfoldable pub decision_of : Input Num → Evaluated Num → Decision
  decision_of i e =
      let one = if needs_step_up i e then step_up else permit in
      let two = if needs_throttle i e then throttled one else one in
      if needs_constrain i then constrained two else two

  unfoldable pub reasons_of : Input Num → Evaluated Num → List String
  reasons_of i e = or_valid (
      fail_if (needs_step_up i e) "step_up_required"
      ++ (fail_if (needs_throttle i e) "throttle_required"
          ++ fail_if (needs_constrain i) "constrain_required"))

  abbrev latency : Input Num → Num
  latency i = number.sub i.now_ms i.start_time_ms

  unfoldable pub deny_with : Input Num → String → Resolution Num
  deny_with i code = record {
    decision = deny;
    selected_path = none;
    candidate_paths_evaluated = length i.candidates;
    trust_score_at_decision = zero_num;
    trust_zone = critical;
    authority_grant_ref = "";
    attestation_ref = or_else i.request.attestation_ref "";
    proof_set = [];
    reason_codes = code ∷ [];
    evaluation_tier = "full";
    latency_ms = latency i;
  }

  unfoldable pub permit_with : Input Num → Evaluated Num → Resolution Num
  permit_with i e = record {
    decision = decision_of i e;
    selected_path = some (e.candidate.issuer_type ⊕ (":" ⊕ e.candidate.issuer_id));
    candidate_paths_evaluated = length i.candidates;
    trust_score_at_decision = e.evaluated_score;
    trust_zone = e.zone;
    authority_grant_ref = e.candidate.grant_id;
    attestation_ref = or_else i.request.attestation_ref "";
    proof_set = e.candidate.proof_ref ∷ [];
    reason_codes = reasons_of i e;
    evaluation_tier =
        if number.le (latency i) (number.decimal 1 0)
        then "cache"
        else if number.le (latency i) (number.decimal 10 0)
        then "fast"
        else "full";
    latency_ms = latency i;
  }

  unfoldable pub over_budget : Input Num → Bool
  over_budget i =
      number.lt i.latency_budget_ms (latency i)
      && includes i.policy.high_risk_actions i.request.action

  -- What follows the switch.
  unfoldable pub conclude : Input Num → Choice Num → Resolution Num
  conclude i (refused code) = deny_with i code
  conclude i (chosen e) =
      if is_critical e.zone
      then deny_with i "trust_zone_critical"
      else if over_budget i
      then deny_with i "latency_budget_exceeded"
      else permit_with i e

  -- The checks before any candidate is looked at.
  unfoldable pub request_denial : Host Num → Input Num → Option String
  request_denial host i =
      if not i.resolver_available
      then some "resolver_unavailable"
      else if not i.proof_engine_available && i.request.proof_required
      then some "proof_engine_unavailable"
      else if not (compute_binding_hash host i.request == i.request.binding_hash)
      then some "binding_mismatch"
      else if not (is_hash i.request.params_hash)
      then some "params_hash_mismatch"
      else none

  unfoldable pub resolve_candidates : Host Num → Input Num → Resolution Num
  resolve_candidates host i =
      let evaluated = map (evaluate host i) i.candidates in
      if is_empty evaluated
      then deny_with i "no_valid_route_found"
      else if any (λ e. e.revoked) evaluated
      then deny_with i "revoked_subject"
      else if is_empty (keep is_valid evaluated)
      then deny_with i "no_valid_route_found"
      else conclude i (choose i.policy.strategy evaluated (keep is_valid evaluated))

  unfoldable pub resolve_trust_route : Host Num → Input Num → Resolution Num
  resolve_trust_route host i = elim (request_denial host i) [
    | some code ↦ deny_with i code
    | none ↦ resolve_candidates host i
  ]
