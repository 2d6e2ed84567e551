-- ===== src/Gate.antt =====
-- reference-implementations/runtime-authority-gate/server.mjs: a request is evaluated, and a receipt of the
-- decision is signed and stored. This file has risk, cost and compliance; `Evaluate` the decision,
-- `Receipts` and `Handlers` the receipts and the two handlers; `Outcomes` and `Integrity` hold the proofs.
pub mod Evaluate
pub mod Receipts
pub mod Handlers
pub mod Outcomes
pub mod Integrity
pub mod Tests
use ttp_protocol.Common.{
  String, Bool, true, false, ◌&&◌, ◌||◌, ℕ, ◌+◌, ◌*◌, leb, Option, none, some, List, [], ◌∷◌, ◌++◌,
  length, if◌then◌else◌, ◌==◌, fail_if, includes, contains, is_some, Numbers,
}
use ttp_protocol.Json.{Json, str, num, Fields, Platform}
use ttp_protocol.Json.Values.{get, get?, or_json, truthy, strict_eq}

-- What the server calls on values beside `Platform`.
pub record Machine (Num : Type 0) : Type 0 where
  -- `String(v)`
  pub text : Json Num → String
  pub to_upper : String → String
  pub to_lower : String → String
  -- `a / b`
  pub divide : Num → Num → Num
  -- `Number(x.toFixed(4))`
  pub round4 : Num → Num

pub data RiskLevel : Type 0 where
  low moderate high critical : RiskLevel

pub data Budget : Type 0 where
  within requires_approval over : Budget

-- The score in hundredths: it is 0.2 and 0.18 for each of at most four factors, to two digits.
pub record Risk : Type 0 where
  pub score : ℕ
  pub level : RiskLevel
  pub blast_radius : String
  pub factors : List String

pub record Cost (Num : Type 0) : Type 0 where
  pub estimated_cost : Num
  pub estimated_tokens : Num
  pub estimated_compute_seconds : Num
  pub budget : Budget
  pub quota_impact : String
  pub cost_center : Json Num
  pub owner : Json Num

pub record Compliance (Num : Type 0) : Type 0 where
  pub frameworks : List (String × String)
  pub obligations : List String
  pub approvals : List String
  pub retention_class : String
  pub jurisdictions : List (Json Num)
  pub classification : Json Num

abbrev pub is_critical : RiskLevel → Bool
is_critical critical = true
is_critical _ = false

-- The comparisons with 0.75, 0.55 and 0.35.
unfoldable pub level_of : ℕ → RiskLevel
level_of score =
    if leb 75 score
    then critical
    else if leb 55 score
    then high
    else if leb 35 score
    then moderate
    else low

module _ {Num : Type 0} ⦃number : Numbers Num⦄ (p : Platform Num) (m : Machine Num) where
  -- `request.context?.[key]`
  abbrev pub context : Fields Num → String → Option (Json Num)
  context request key = get? (get request "context") key

  -- `String(value ?? other)`
  abbrev pub text_or : Option (Json Num) → String → String
  text_or v other = m.text (or_json v (str other))

  unfoldable pub risk_factors : Fields Num → List String
  risk_factors request =
      let environment = m.to_upper (text_or (context request "environment") "OTHER") in
      let action = m.to_lower (text_or (get request "action") "") in
      let agent_type = m.to_lower (text_or (context request "agentType") "basic") in
      fail_if (environment == "PROD") "production_environment"
      ++ (fail_if
            (contains action "deploy" || (contains action "terraform" || contains action "delete"))
            "infrastructure_or_mutation_action"
          ++ (fail_if (contains action "secret" || contains action "credential") "secrets_proximity"
              ++ fail_if (agent_type == "mythos") "mythos_high_capability_actor"))

  unfoldable pub compute_risk : Fields Num → Risk
  unfolding risk_factors level_of
  compute_risk request =
      let factors = risk_factors request in
      let score = 20 + 18 * length factors in
      record {
        score = score;
        level = level_of score;
        blast_radius =
            if includes factors "production_environment" then "ENVIRONMENT" else "SINGLE_RESOURCE";
        factors = factors;
      }

  -- `Number(request.context?.[key] ?? 0)`
  abbrev pub number_at : Fields Num → String → Num
  number_at request key =
      p.to_number (some (or_json (context request key) (num (number.decimal 0 0))))

  unfoldable pub budget_of : Bool → Num → Budget
  budget_of unknown_center cost =
      if number.lt (number.decimal 5 0) cost
      then over
      else if unknown_center && number.lt (number.decimal 1 0) cost
      then requires_approval
      else within

  unfoldable pub compute_cost : Fields Num → Cost Num
  unfolding budget_of
  compute_cost request =
      let tokens = number_at request "estimatedTokens" in
      let seconds = number_at request "estimatedComputeSeconds" in
      let cost = m.round4 (
        number.add (m.divide tokens (number.decimal 100_000 0))
          (number.mul seconds (number.decimal 2 3))) in
      let center = or_json (context request "costCenter") (str "unknown") in
      record {
        estimated_cost = cost;
        estimated_tokens = tokens;
        estimated_compute_seconds = seconds;
        budget = budget_of (strict_eq (some center) (some (str "unknown"))) cost;
        quota_impact =
            if number.lt (number.decimal 200_000 0) tokens
            then "HIGH"
            else if number.lt (number.decimal 50_000 0) tokens
            then "MODERATE"
            else "LOW";
        cost_center = center;
        owner = or_json (context request "owner") (
            or_json (get? (get request "principal") "id")
              (or_json (get request "subject") (str "unknown")));
      }

  unfoldable pub compute_compliance : Fields Num → Risk → Compliance Num
  compute_compliance request risk =
      let classification = or_json (context request "dataClassification") (str "internal") in
      let regulated = strict_eq (some classification) (some (str "regulated")) in
      let jurisdiction = context request "jurisdiction" in
      record {
        frameworks =
            ("NIST", "APPLIES")
            ∷ ("SOC2", "APPLIES")
            ∷ (if regulated
                then ("PCI_DSS", "CONDITIONAL") ∷ ("EU_AI_ACT", "CONDITIONAL") ∷ []
                else []);
        obligations = fail_if (is_critical risk.level) "require-human-approval";
        approvals = fail_if (is_critical risk.level) "security-approver";
        retention_class = if regulated then "REGULATED" else "STANDARD";
        jurisdictions = fail_if (truthy jurisdiction) (or_json jurisdiction (str ""));
        classification = classification;
      }
