-- ===== src/Service/Handlers.antt =====
-- The routes of services/authority/index.ts. The clock, the random id and what the file system does are
-- parameters of a call; `System` is what the calls share.
use Prim.Native.String.{◌++◌, len}
use text.Mathlib.Text.{starts_with}
use ttp_protocol.Common.{
  String, Bool, not, ◌&&◌, ltb, ℕ, Option, none, some, List, [], ◌∷◌, if◌then◌else◌, ◌==◌, or_else,
  last, Numbers,
}
use ttp_protocol.Json.{Json, bool, str, num, Fields, end, field, Platform}
use ttp_protocol.Json.Values.{object, texts, or_json}
use ttp_protocol.Service.{
  Decision, permit, step_up, escalate, deny, Approval, AuthorizeRequest, TrustedGrant, RiskClass,
  low, medium, high, critical, RiskState, ComplianceState, CostState, Host,
}
use ttp_protocol.Service.Formats.{safe_request, split_at_each}
use ttp_protocol.Service.Policy.{load_protected_policy}
use ttp_protocol.Service.Approvals.{Github}
use ttp_protocol.Service.Signer.{finalize_receipt}
use ttp_protocol.Service.Ledger.{Fault, Ledger, Disk, Write, append, get_entry}
use ttp_protocol.Service.Spending.{Directory, Creation}
use ttp_protocol.Service.Decide.{World, Answer, decide}

pub record System (Num : Type 0) : Type 0 where
  pub ledger : Ledger Num
  pub disk : Disk
  pub spent : List String

-- What the service is configured with, and the text of its policy.
pub record Configuration (Num : Type 0) : Type 0 where
  pub token : String
  pub secret : Option String
  pub grants : List (String × TrustedGrant Num)
  pub policy : String
  pub github : Github Num
  pub directory : Directory

pub record Moment : Type 0 where
  pub now : ℕ
  pub uuid : String
  pub creation : Creation
  pub write : Write

pub record Call : Type 0 where
  pub method : String
  pub path : String
  pub authorization : Option String
  pub body : String

pub data Reply (Num : Type 0) : Type 0 where
  healthy unauthorized invalid_json invalid_request ledger_unavailable not_found : Reply Num
  -- The signing of the receipt throws, and the request is not answered.
  unanswered : Reply Num
  attested : String → Reply Num
  decided : Answer Num → Fields Num → Reply Num
  found : Fields Num → Reply Num

abbrev pub decision_text : Decision → String
decision_text permit = "PERMIT"
decision_text step_up = "STEP_UP"
decision_text escalate = "ESCALATE"
decision_text deny = "DENY"

abbrev pub class_text : RiskClass → String
class_text low = "low"
class_text medium = "medium"
class_text high = "high"
class_text critical = "critical"

abbrev pub valid_bearer : String → Option String → Bool
valid_bearer token header = or_else header "" == ("Bearer " ++ token)

module _ {Num : Type 0} ⦃number : Numbers Num⦄ (p : Platform Num) (h : Host Num) where
  -- The properties of a literal that are not undefined.
  abbrev pub defined : List (String × Option (Json Num)) → Fields Num
  defined [] = end
  defined ((key, none) ∷ rest) = defined rest
  defined ((key, some v) ∷ rest) = field key v (defined rest)

  abbrev pub whole : ℕ → Json Num
  whole n = num (number.decimal n 0)

  abbrev pub risk_json : RiskState Num → Json Num
  risk_json r = object (
      ("class", str (class_text r.class))
      ∷ ("blastRadius", num r.blast_radius)
      ∷ ("reversible", bool r.reversible)
      ∷ ("delegationDepth", whole r.delegation_depth)
      ∷ ("protectedPathSensitive", bool r.protected_path_sensitive)
      ∷ [])

  abbrev pub compliance_json : ComplianceState → Json Num
  compliance_json c = object (
      ("frameworks", texts c.frameworks)
      ∷ ("controls", texts c.controls)
      ∷ ("retentionTier", str c.retention_tier)
      ∷ ("evidenceRequired", bool c.evidence_required)
      ∷ ("humanOversight", str c.human_oversight)
      ∷ [])

  abbrev pub cost_json : CostState → Json Num
  cost_json c = object (
      ("executionCost", whole c.execution_cost)
      ∷ ("reviewCost", whole c.review_cost)
      ∷ ("evidenceCost", whole c.evidence_cost)
      ∷ ("avoidedLoss", whole c.avoided_loss)
      ∷ ("overheadClass", str c.overhead_class)
      ∷ [])

  abbrev pub reviewer_json : Option Approval → Option (Json Num)
  reviewer_json none = none
  reviewer_json (some a) = some (str a.approved_by)

  unfoldable pub receipt_base : Moment → AuthorizeRequest Num → Answer Num → Fields Num
  receipt_base now r a = defined (
      ("receiptId", some (str ("er-" ++ now.uuid)))
      ∷ ("subject", some (str r.subject))
      ∷ ("action", some (str r.action))
      ∷ ("resource", some (str r.resource))
      ∷ ("decision", some (str (decision_text a.decision)))
      ∷ ("trustScoreAtDecision", some (num a.context.trust.trust_score))
      ∷ ("authorityGrantRef", some (or_json r.authority_grant_ref (str "")))
      ∷ ("attestationRef", r.attestation_ref)
      ∷ ("risk", some (risk_json a.context.risk))
      ∷ ("compliance", some (compliance_json a.context.compliance))
      ∷ ("cost", some (cost_json a.context.cost))
      ∷ ("repo", some (str r.repo))
      ∷ ("branch", some (str r.branch))
      ∷ ("pathsTouched", some (texts r.paths_touched))
      ∷ ("workflowRunId", some (str r.workflow_run_id))
      ∷ ("commitSha", some (str r.commit_sha))
      ∷ ("invokingActor", some (str r.invoking_actor))
      ∷ ("timestamp", some (str (p.iso_text now.now)))
      ∷ ("reason", some (str a.reason))
      ∷ ("priorReceiptId", r.prior_receipt_id)
      ∷ ("approvalReviewer", reviewer_json r.approval)
      ∷ [])

  abbrev pub world_of : Configuration Num → Moment → System Num → World Num
  world_of c now s = record {
    grants = c.grants;
    patterns = load_protected_policy c.policy;
    now = now.now;
    entries = s.ledger.entries;
    github = c.github;
    directory = c.directory;
    creation = now.creation;
  }

  abbrev pub reply_to : Answer Num → Fields Num → Option Fault → Reply Num
  reply_to a receipt none = decided a receipt
  reply_to a receipt (some _) = ledger_unavailable

  -- The receipt is finalized and written before the decision is told.
  unfoldable pub record_answer :
      Configuration Num
      → Moment
      → AuthorizeRequest Num
      → Answer Num
      → System Num
      → Reply Num × System Num
  record_answer c now r a s =
      elim (finalize_receipt p h c.secret (receipt_base now r a) s.ledger.last) [
        | none ↦ (unanswered, s)
        | some receipt ↦
            let (fault, (ledger, disk)) = append p h c.secret now.write receipt s.ledger s.disk in
            (reply_to a receipt fault, record { ledger = ledger; disk = disk; spent = s.spent })
      ]

  -- The route /re/authorize, with a request that is read.
  unfoldable pub authorize :
      Configuration Num → Moment → AuthorizeRequest Num → System Num → Reply Num × System Num
  authorize c now r s =
      let (a, spent) = decide p h (world_of c now s) r s.spent in
      record_answer c now r a (record s { spent = spent })

  -- `parseBody`: a body of more than a mebibyte is rejected like one that is no JSON.
  abbrev pub parse_body : String → Option (Json Num)
  parse_body body =
      if ltb 1_048_576 (len body) then none else h.parse_json (if body == "" then "{}" else body)

  unfoldable pub authorize_body :
      Configuration Num → Moment → String → System Num → Reply Num × System Num
  authorize_body c now body s = elim (parse_body body) [
    | none ↦ (invalid_json, s)
    | some json ↦ elim (safe_request json) [
      | none ↦ (invalid_request, s)
      | some r ↦ authorize c now r s
    ]
  ]

  -- `path.split("/").pop()`
  abbrev pub last_segment : String → String
  last_segment path = or_else (last (split_at_each b'/' path)) ""

  abbrev pub read_receipt : String → System Num → Reply Num
  read_receipt path s = elim (get_entry (some (str (last_segment path))) s.ledger.entries) [
    | none ↦ not_found
    | some e ↦ found e.contents
  ]

  unfoldable pub handle : Configuration Num → Moment → Call → System Num → Reply Num × System Num
  handle c now call s =
      if call.method == "GET" && call.path == "/healthz"
      then (healthy, s)
      else if not (valid_bearer c.token call.authorization)
      then (unauthorized, s)
      else if call.method == "POST" && call.path == "/trust/attest"
      then (attested ("att-" ++ now.uuid), s)
      else if call.method == "POST" && call.path == "/re/authorize"
      then authorize_body c now call.body s
      else if call.method == "GET" && starts_with call.path "/receipts/"
      then (read_receipt call.path s, s)
      else (not_found, s)
