-- ===== src/Service/Decide.antt =====
-- `decide` of services/authority/index.ts. The clock stands still during a request.
use ttp_protocol.Common.{
  String, Bool, true, false, not, ◌||◌, ℕ, ◌-◌, ltb, Option, none, some, List, if◌then◌else◌, ◌==◌,
  Numbers,
}
use ttp_protocol.Json.{Json, str, Fields, Platform}
use ttp_protocol.Json.Values.{get, strict_eq, truthy, texts}
use ttp_protocol.Service.{
  Decision, permit, step_up, escalate, deny, Approval, AuthorizeRequest, TrustedGrant,
  DecisionContext, Host,
}
use ttp_protocol.Service.Approvals.{ReviewClaim, Github, verify_independent_github_approval}
use ttp_protocol.Service.Ledger.{Entry, get_entry}
use ttp_protocol.Service.Spending.{Directory, Creation, consume_step_up_receipt}
use ttp_protocol.Service.Grants.{verified_grant, context_of, is_critical}

-- What a decision reads beside the request.
pub record World (Num : Type 0) : Type 0 where
  pub grants : List (String × TrustedGrant Num)
  pub patterns : List String
  pub now : ℕ
  pub entries : List (Entry Num)
  pub github : Github Num
  pub directory : Directory
  pub creation : Creation

pub record Answer (Num : Type 0) : Type 0 where
  pub decision : Decision
  pub reason : String
  pub context : DecisionContext Num

-- `!approval?.approved || !approval.approvedBy || approval.environment !== "protected-execution"`
abbrev pub lacks_approval : Option Approval → Bool
lacks_approval none = true
lacks_approval (some a) =
    not a.approved || a.approved_by == "" || not (a.environment == "protected-execution")

abbrev pub reviewer_of : Option Approval → String
reviewer_of none = ""
reviewer_of (some a) = a.approved_by

-- Not a finite time, more than ten minutes ago, or after now.
abbrev pub out_of_window : Option ℕ → ℕ → Bool
out_of_window none now = true
out_of_window (some t) now = ltb 600_000 (now - t) || ltb now t

module _ {Num : Type 0} ⦃number : Numbers Num⦄ (p : Platform Num) (h : Host Num) where
  -- `prior[key] === text`
  abbrev pub says : Fields Num → String → String → Bool
  says prior key text = strict_eq (get prior key) (some (str text))

  -- `JSON.stringify(prior.pathsTouched) === JSON.stringify(req.pathsTouched)`
  abbrev pub same_paths : Option (Json Num) → List String → Bool
  same_paths none paths = false
  same_paths (some listed) paths = p.stringify listed == p.stringify (texts paths)

  unfoldable pub is_mismatch : Fields Num → AuthorizeRequest Num → ℕ → Bool
  is_mismatch prior r now =
      not (says prior "subject" r.subject)
      || not (says prior "repo" r.repo)
      || not (says prior "branch" r.branch)
      || not (says prior "resource" r.resource)
      || not (says prior "workflowRunId" r.workflow_run_id)
      || not (says prior "commitSha" r.commit_sha)
      || not (says prior "action" "pull_request.execute")
      || not (same_paths (get prior "pathsTouched") r.paths_touched)
      || out_of_window (p.parse_date (get prior "timestamp")) now

  abbrev pub claim_of : AuthorizeRequest Num → ReviewClaim
  claim_of r = record {
    repo = r.repo;
    workflow_run_id = r.workflow_run_id;
    commit_sha = r.commit_sha;
    branch = r.branch;
    resource = r.resource;
    invoking_actor = r.invoking_actor;
    reviewer = reviewer_of r.approval;
  }

  abbrev pub answer : DecisionContext Num → Decision → String → Answer Num
  answer context decision reason = record {
    decision = decision;
    reason = reason;
    context = context;
  }

  -- The end of a reauthorization: the prior receipt is spent.
  unfoldable pub redeem :
      World Num → DecisionContext Num → Entry Num → List String → Answer Num × List String
  redeem w context prior names =
      let (spend, names') = consume_step_up_receipt p w.directory w.creation prior.id names in
      if spend.accepted
      then (answer context permit "step_up_approved_reauthorize_permit", names')
      else (answer context deny spend.reason, names')

  -- A reauthorization whose prior receipt is in the ledger.
  unfoldable pub reauthorize_prior :
      World Num
      → AuthorizeRequest Num
      → DecisionContext Num
      → Entry Num
      → List String
      → Answer Num × List String
  reauthorize_prior w r context prior names =
      let proof = verify_independent_github_approval h w.github (claim_of r) in
      if not (says prior.contents "decision" "STEP_UP" || says prior.contents "decision" "ESCALATE")
      then (answer context deny "prior_decision_not_reauthorizable", names)
      else if is_mismatch prior.contents r w.now
      then (answer context deny "prior_receipt_binding_or_freshness_mismatch", names)
      else if lacks_approval r.approval
      then (answer context deny "step_up_approval_missing", names)
      else if not proof.verified
      then (answer context deny proof.reason, names)
      else if not context.trust.attestation_valid
      then (answer context escalate "stale_attestation_after_step_up", names)
      else redeem w context prior names

  unfoldable pub reauthorize :
      World Num
      → AuthorizeRequest Num
      → DecisionContext Num
      → List String
      → Answer Num × List String
  reauthorize w r context names =
      if not (truthy r.prior_receipt_id)
      then (answer context deny "missing_prior_receipt", names)
      else elim (get_entry r.prior_receipt_id w.entries) [
        | none ↦ (answer context deny "prior_receipt_not_found", names)
        | some prior ↦ reauthorize_prior w r context prior names
      ]

  -- The decision on any other action.
  unfoldable pub decide_by_policy : DecisionContext Num → Answer Num
  decide_by_policy context =
      if not context.trust.attestation_valid
      then answer context escalate "stale_attestation"
      else if is_critical context.risk.class
      then answer context step_up "protected_action_requires_human"
      else if number.lt context.trust.trust_score (number.decimal 85 2)
      then answer context escalate "trust_below_threshold"
      else answer context permit "policy_permit"

  unfoldable pub decide : World Num → AuthorizeRequest Num → List String → Answer Num × List String
  decide w r names =
      let context = context_of p h w.patterns w.now r (verified_grant p h w.grants w.now r) in
      if not context.authority.subject_valid
        || not context.authority.action_aligned
        || not context.authority.grant_valid
      then (answer context deny "invalid_authority", names)
      else if r.action == "merge request reauthorize"
      then reauthorize w r context names
      else (decide_by_policy context, names)
