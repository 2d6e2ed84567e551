-- ===== src/Gate/Receipts.antt =====
-- The receipts of
-- reference-implementations/runtime-authority-gate/server.mjs, with `signHash` and `verifyHash` of its
-- signing.mjs. The file that receipts are saved to is not modelled.
use ttp_protocol.Common.{
  String, Bool, false, ◌&&◌, Option, none, some, List, [], ◌∷◌, map, if◌then◌else◌, ◌==◌, Numbers,
}
use ttp_protocol.Json.{Json, str, num, obj, Fields}
use ttp_protocol.Json.Values.{object, array, texts}
use ttp_protocol.Gate.{
  RiskLevel, low, moderate, high, critical, Budget, within, requires_approval, over, Cost,
  Compliance,
}
use ttp_protocol.Gate.Evaluate.{
  Outcome, permit, step_up, escalate, deny, Mode, full, constrained, failed_closed,
  requires_human_approval, requires_reattestation, Evaluation,
}

-- The keys and the signatures: the private key is `none` where it cannot be read.
pub data Signer : Type 0 where
  hmac : String → Signer
  rs256 : Option String → Signer

pub record SigningMachine : Type 0 where
  -- HMAC-SHA256 of a text under a secret, and an RSA signature, both in base64.
  pub hmac_sha256 : String → String → String
  pub rsa_sign : String → String → String
  pub rsa_verify : String → String → String → Bool

pub record Signed : Type 0 where
  pub status : String
  pub signature : String
  pub alg : String
  pub reference : String
  pub key_reference : String

unfoldable pub sign_hash : SigningMachine → Signer → String → String → Signed
sign_hash s (hmac secret) path hash = record {
  status = "SIGNED";
  signature = s.hmac_sha256 secret hash;
  alg = "HMAC-SHA256";
  reference = "local-hmac";
  key_reference = "RECEIPT_HMAC_SECRET";
}
sign_hash s (rs256 none) path hash = record {
  status = "FAILED_VERIFICATION";
  signature = "";
  alg = "RS256";
  reference = "missing-private-key";
  key_reference = path;
}
sign_hash s (rs256 (some key)) path hash = record {
  status = "SIGNED";
  signature = s.rsa_sign key hash;
  alg = "RS256";
  reference = "local-rs256";
  key_reference = path;
}

abbrev pub rsa_holds : SigningMachine → Option String → String → String → Bool
rsa_holds s none hash signature = false
rsa_holds s (some key) hash signature = s.rsa_verify key hash signature

-- `verifyHash`; `timingSafeEqual` throws on texts of different length, which is false here.
unfoldable pub verify_hash :
    SigningMachine → String → Option String → String → String → String → Bool
verify_hash s secret public_key hash signature alg =
    if alg == "HMAC-SHA256"
    then signature == s.hmac_sha256 secret hash
    else alg == "RS256" && rsa_holds s public_key hash signature

-- `evaluation` holds decision, risk, cost and compliance.
pub record Receipt (Num : Type 0) : Type 0 where
  pub receipt_id : String
  pub issued_at : String
  pub execution : Fields Num
  pub evaluation : Evaluation Num
  pub latency_ms : Num
  pub trust : Fields Num
  pub evidence_refs : Json Num
  pub hash : String
  pub signed : Signed
  pub chain_hash : String

abbrev pub outcome_text : Outcome → String
outcome_text permit = "PERMIT"
outcome_text step_up = "STEP_UP"
outcome_text escalate = "ESCALATE"
outcome_text deny = "DENY"

abbrev pub mode_text : Mode → String
mode_text full = "FULL"
mode_text constrained = "CONSTRAINED"
mode_text failed_closed = "FAILED_CLOSED"
mode_text requires_human_approval = "REQUIRES_HUMAN_APPROVAL"
mode_text requires_reattestation = "REQUIRES_REATTESTATION"

abbrev pub level_text : RiskLevel → String
level_text low = "LOW"
level_text moderate = "MODERATE"
level_text high = "HIGH"
level_text critical = "CRITICAL"

abbrev pub budget_text : Budget → String
budget_text within = "WITHIN_BUDGET"
budget_text requires_approval = "REQUIRES_APPROVAL"
budget_text over = "OVER_BUDGET"

abbrev pub step_up_reasons : Outcome → String → List String
step_up_reasons step_up reason = reason ∷ []
step_up_reasons _ reason = []

abbrev pub unsigned : Signed
unsigned = record {
  status = "UNSIGNED";
  signature = "";
  alg = "";
  reference = "";
  key_reference = "";
}

module _ {Num : Type 0} ⦃number : Numbers Num⦄ where
  abbrev pub framework_json : String × String → Json Num
  framework_json f = object (("framework", str f.0) ∷ ("status", str f.1) ∷ [])

  abbrev pub decision_json : Receipt Num → Json Num
  decision_json r = object (
      ("outcome", str (outcome_text r.evaluation.outcome))
      ∷ ("mode", str (mode_text r.evaluation.mode))
      ∷ ("reasonCodes", texts (r.evaluation.reason ∷ []))
      ∷ ("constraintsApplied", texts r.evaluation.constraints)
      ∷ ("approvalsRequired", texts r.evaluation.approvals)
      ∷ ("approvalsObserved", texts [])
      ∷ ("latencyMs", num r.latency_ms)
      ∷ ("policySetVersion", str "policy-v1")
      ∷ ("evaluatorVersion", str "runtime-authority-gate-v1")
      ∷ [])

  abbrev pub risk_json : Evaluation Num → Json Num
  risk_json e = object (
      ("riskScore", num (number.decimal e.risk.score 2))
      ∷ ("riskLevel", str (level_text e.risk.level))
      ∷ ("blastRadius", str e.risk.blast_radius)
      ∷ ("riskFactors", texts e.risk.factors)
      ∷ ("uncertaintyFlags", texts [])
      ∷ ("sensitiveResourcesTouched", texts [])
      ∷ ("stepUpReasons", texts (step_up_reasons e.outcome e.reason))
      ∷ ("policyConflicts", texts [])
      ∷ [])

  abbrev pub cost_json : Cost Num → Json Num
  cost_json c = object (
      ("estimatedCost", num c.estimated_cost)
      ∷ ("actualCost", num (number.decimal 0 0))
      ∷ ("costUnit", str "USD")
      ∷ ("estimatedTokens", num c.estimated_tokens)
      ∷ ("estimatedComputeSeconds", num c.estimated_compute_seconds)
      ∷ ("budgetPolicyRef", str "default-budget-policy-v1")
      ∷ ("budgetDecision", str (budget_text c.budget))
      ∷ ("quotaImpact", str c.quota_impact)
      ∷ ("rateLimitImpact", str "LOW")
      ∷ ("costCenter", c.cost_center)
      ∷ ("owner", c.owner)
      ∷ [])

  abbrev pub compliance_json : Compliance Num → Json Num
  compliance_json c = object (
      ("policySetVersion", str "policy-v1")
      ∷ ("frameworkApplicability", array (map framework_json c.frameworks))
      ∷ ("frameworkEvaluations", texts [])
      ∷ ("controlResults", texts [])
      ∷ ("obligationsTriggered", texts c.obligations)
      ∷ ("approvalsRequired", texts c.approvals)
      ∷ ("compensatingControls", texts [])
      ∷ ("residualGaps", texts [])
      ∷ ("retentionClass", str c.retention_class)
      ∷ ("jurisdictionConstraints", array c.jurisdictions)
      ∷ ("dataClassification", c.classification)
      ∷ ("exceptionRefs", texts [])
      ∷ ("auditTags", texts ("runtime-authority" ∷ "trust-before-execution" ∷ []))
      ∷ [])

  abbrev pub integrity_json : Receipt Num → Json Num
  integrity_json r = object (
      ("canonicalization", str "OTHER")
      ∷ ("hashAlgorithm", str "SHA-256")
      ∷ ("hash", str r.hash)
      ∷ ("signatureStatus", str r.signed.status)
      ∷ ("signature", str r.signed.signature)
      ∷ ("signatureAlg", str r.signed.alg)
      ∷ ("signatureRef", str r.signed.reference)
      ∷ ("signingKeyRef", str r.signed.key_reference)
      ∷ ("chainHash", str r.chain_hash)
      ∷ [])

  -- The receipt as the object that it is in the source.
  unfoldable pub receipt_json : Receipt Num → Json Num
  receipt_json r = object (
      ("schemaVersion", str "1.0.0")
      ∷ ("receiptId", str r.receipt_id)
      ∷ ("issuedAt", str r.issued_at)
      ∷ ("execution", obj r.execution)
      ∷ ("decision", decision_json r)
      ∷ ("trust", obj r.trust)
      ∷ ("risk", risk_json r.evaluation)
      ∷ ("cost", cost_json r.evaluation.cost)
      ∷ ("compliance", compliance_json r.evaluation.compliance)
      ∷ (
        "evidence",
        object (
            ("evidenceRefs", r.evidence_refs)
            ∷ ("artifacts", texts [])
            ∷ ("approvalTrail", texts [])
            ∷ ("notes", texts [])
            ∷ []),
      )
      ∷ ("integrity", integrity_json r)
      ∷ [])
