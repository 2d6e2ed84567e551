-- ===== src/Gate/Evaluate.antt =====
-- `evaluateTrust`, `mapToRap` and `trustZone` of
-- reference-implementations/runtime-authority-gate/server.mjs.
use ttp_protocol.Common.{
  String, Bool, true, false, not, ◌&&◌, ◌||◌, ℕ, leb, Option, none, some, List, [], ◌∷◌, find,
  if◌then◌else◌, ◌==◌, includes, Numbers,
}
use Prim.Native.String.{◌++◌}
use ttp_protocol.Json.{str, Fields, Platform}
use ttp_protocol.Json.Values.{get, get?, or_json, truthy, strict_eq}
use ttp_protocol.Gate.{
  Machine, RiskLevel, low, high, is_critical, Budget, over, requires_approval, Risk, Cost,
  Compliance, context, text_or, number_at, compute_risk, compute_cost, compute_compliance,
}

pub data Outcome : Type 0 where
  permit step_up escalate deny : Outcome

pub data Mode : Type 0 where
  full constrained failed_closed requires_human_approval requires_reattestation : Mode

pub record Grant : Type 0 where
  pub grant_id : String
  pub expires_at : String
  pub scope : List String

unfoldable pub seed_grant : Grant
seed_grant = record {
  grant_id = "grant-local-001";
  expires_at = "2030-01-01T00:00:00Z";
  scope =
      "github.workflow.run:org/repo" ∷ "pipeline.deploy:prod"
      ∷ "tool.invoke:delete_production_secret" ∷ [];
}

-- `decisionResult`. Each evaluation has one reason.
pub record Evaluation (Num : Type 0) : Type 0 where
  pub outcome : Outcome
  pub mode : Mode
  pub reason : String
  pub constraints : List String
  pub approvals : List String
  pub trust_score : Num
  pub risk : Risk
  pub cost : Cost Num
  pub compliance : Compliance Num

-- `Date.parse(grant.expiresAt) <= Date.now()`: false with NaN.
abbrev pub has_expired : Option ℕ → ℕ → Bool
has_expired none now = false
has_expired (some t) now = leb t now

abbrev pub is_over : Budget → Bool
is_over over = true
is_over _ = false

abbrev pub wants_approval : Budget → Bool
wants_approval requires_approval = true
wants_approval _ = false

abbrev pub is_high : RiskLevel → Bool
is_high high = true
is_high _ = false

abbrev pub is_low : RiskLevel → Bool
is_low low = true
is_low _ = false

module _ {Num : Type 0} ⦃number : Numbers Num⦄ (p : Platform Num) (m : Machine Num) where
  unfoldable pub base_of : Fields Num → Evaluation Num
  base_of request =
      let risk = compute_risk p m request in
      record {
        outcome = deny;
        mode = failed_closed;
        reason = "failed_closed";
        constraints = [];
        approvals = [];
        trust_score = number_at p m request "trustScore";
        risk = risk;
        cost = compute_cost p m request;
        compliance = compute_compliance p m request risk;
      }

  abbrev pub denied : Evaluation Num → String → Evaluation Num
  denied base reason = record base { reason = reason }

  abbrev pub escalated : Evaluation Num → String → String → Evaluation Num
  escalated base reason approver = record base {
    outcome = escalate;
    mode = requires_human_approval;
    reason = reason;
    approvals = approver ∷ [];
  }

  abbrev pub permitted : Evaluation Num → Mode → String → List String → Evaluation Num
  permitted base mode reason constraints = record base {
    outcome = permit;
    mode = mode;
    reason = reason;
    constraints = constraints;
  }

  -- `agentType` "mythos" in `environment` "prod", in any case of letters.
  unfoldable pub is_mythos_in_prod : Fields Num → Bool
  is_mythos_in_prod request =
      m.to_lower (text_or p m (context p m request "agentType") "") == "mythos"
      && m.to_lower (text_or p m (context p m request "environment") "") == "prod"

  -- `${request.action}:${request.resource?.id ?? 'unknown'}`
  unfoldable pub requested_scope : Fields Num → String
  requested_scope request =
      m.text (or_json (get request "action") (str "undefined"))
      ++ (":" ++ m.text (or_json (get? (get request "resource") "id") (str "unknown")))

  -- What follows the check of the grant's expiry.
  unfoldable pub evaluate_granted : Fields Num → Grant → Evaluation Num
  evaluate_granted request grant =
      let base = base_of request in
      if number.lt base.trust_score (number.decimal 4 1)
      then denied base "trust_below_deny_threshold"
      else if is_critical base.risk.level || is_mythos_in_prod request
      then escalated base "high_or_critical_risk" "security-approver"
      else if is_over base.cost.budget
      then denied base "budget_policy_violation"
      else if number.lt base.trust_score (number.decimal 65 2)
      then record base {
        outcome = step_up;
        mode = requires_reattestation;
        reason = "trust_requires_step_up";
        constraints = "provide-fresh-attestation" ∷ [];
      }
      else if not (includes grant.scope (requested_scope request))
      then permitted base constrained "scope_mismatch_constrained_permit"
          ("limit-to-grant-scope" ∷ [])
      else if number.lt base.trust_score (number.decimal 85 2)
          || (is_high base.risk.level || wants_approval base.cost.budget)
      then permitted base constrained "constrained_by_trust_risk_or_budget"
          ("read-only-or-limited-mutation" ∷ [])
      else permitted base full "trusted_and_authorized" []

  -- `grants.get(request.authorityGrant.grantId)`
  abbrev pub names_grant : Fields Num → Grant → Bool
  names_grant request grant =
      strict_eq (get? (get request "authorityGrant") "grantId") (some (str grant.grant_id))

  unfoldable pub evaluate_trust : List Grant → ℕ → Fields Num → Evaluation Num
  evaluate_trust grants now request =
      let base = base_of request in
      if not (truthy (get request "action")) || not (truthy (get? (get request "resource") "id"))
      then denied base "invalid_request_shape"
      else if not (truthy (get request "authorityGrant"))
      then escalated base "missing_authority_grant" "authority-admin"
      else elim (find (names_grant request) grants) [
        | none ↦ denied base "unknown_authority_grant"
        | some grant ↦
            if has_expired (p.parse_date (some (str grant.expires_at))) now
            then denied base "expired_authority_grant"
            else evaluate_granted request grant
      ]

-- `rapDecision` and `nextStep`.
unfoldable pub map_to_rap : Outcome → Mode → String × String
map_to_rap permit full = ("allow", "execute")
map_to_rap permit constrained = ("throttle", "execute_constrained")
map_to_rap step_up mode = ("step_up", "reauthorize")
map_to_rap escalate mode = ("escalate", "human_approval")
map_to_rap _ _ = ("deny", "block")

unfoldable pub trust_zone : {Num : Type 0} ⦃number : Numbers Num⦄ → Num → String
trust_zone ⦃number = number⦄ score =
    if number.le (number.decimal 8 1) score
    then "active"
    else if number.le (number.decimal 6 1) score
    then "degraded"
    else if number.le (number.decimal 35 2) score
    then "warning"
    else "critical"
