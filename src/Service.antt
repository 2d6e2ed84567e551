-- ===== src/Service.antt =====
-- services/authority: the reference service that decides on requests, keeps a ledger of receipts and
-- spends step-up receipts. This file has the types of schemas.ts; `Formats` the tests on texts,
-- `Policy` policyLoader.ts, `Approvals` approvalVerifier.ts, `Grants` and `Decide` the decision of
-- index.ts, `Signer` and `Ledger` receiptSigner.ts and receiptLedger.ts, `Spending` replayLedger.ts, `Handlers`
-- the routes of index.ts. The other files hold proofs.
pub mod Formats
pub mod Policy
pub mod Approvals
pub mod Signer
pub mod Ledger
pub mod Spending
pub mod Grants
pub mod Decide
pub mod Handlers
pub mod Entitled
pub mod Permits
pub mod Lines
pub mod Sealed
pub mod Stored
pub mod Reopened
pub mod Appends
pub mod Finalized
pub mod Spent
pub mod Protected
pub mod Runs
pub mod Recorded
pub mod Toy
pub mod Tests
use ttp_protocol.Common.{String, Bool, ℕ, Option, List}
use ttp_protocol.Json.{Json}

pub data Decision : Type 0 where
  permit step_up escalate deny : Decision

-- `approval` of a request.
pub record Approval : Type 0 where
  pub environment : String
  pub approved : Bool
  pub approved_by : String

-- A request that `safeRequest` passes. It does not look at the last four fields.
pub record AuthorizeRequest (Num : Type 0) : Type 0 where
  pub subject : String
  pub action : String
  pub resource : String
  pub repo : String
  pub branch : String
  pub paths_touched : List String
  pub commit_sha : String
  pub invoking_actor : String
  pub workflow_run_id : String
  pub approval : Option Approval
  pub attestation_ref : Option (Json Num)
  pub authority_grant_ref : Option (Json Num)
  pub anomaly_score : Option (Json Num)
  pub prior_receipt_id : Option (Json Num)

-- What the operator provisions.
pub record TrustedGrant (Num : Type 0) : Type 0 where
  pub subject : String
  pub repo : String
  pub action : String
  pub branch : Option String
  pub expires_at : String
  pub trust_score : Num
  pub verified_at : String
  pub revoked : Bool

pub data RiskClass : Type 0 where
  low medium high critical : RiskClass

pub record AuthorityState : Type 0 where
  pub subject_valid : Bool
  pub grant_valid : Bool
  pub action_aligned : Bool
  pub path_constraints_ok : Bool
  pub branch_constraints_ok : Bool
  pub environment_constraints_ok : Bool
  pub protected_action : Bool

-- The freshness is in milliseconds.
pub record TrustState (Num : Type 0) : Type 0 where
  pub trust_score : Num
  pub attestation_valid : Bool
  pub freshness_ms : ℕ
  pub anomaly_score : Json Num

pub record RiskState (Num : Type 0) : Type 0 where
  pub class : RiskClass
  pub blast_radius : Num
  pub reversible : Bool
  pub delegation_depth : ℕ
  pub protected_path_sensitive : Bool

pub record ComplianceState : Type 0 where
  pub frameworks : List String
  pub controls : List String
  pub retention_tier : String
  pub evidence_required : Bool
  pub human_oversight : String

pub record CostState : Type 0 where
  pub execution_cost : ℕ
  pub review_cost : ℕ
  pub evidence_cost : ℕ
  pub avoided_loss : ℕ
  pub overhead_class : String

pub record DecisionContext (Num : Type 0) : Type 0 where
  pub authority : AuthorityState
  pub trust : TrustState Num
  pub risk : RiskState Num
  pub compliance : ComplianceState
  pub cost : CostState
  pub constraints : List String

-- What the service calls on values beside `Platform`.
pub record Host (Num : Type 0) : Type 0 where
  -- `String(v)`
  pub text : Json Num → String
  pub to_lower : String → String
  -- `JSON.parse(text)`, `none` where it throws.
  pub parse_json : String → Option (Json Num)
  -- HMAC-SHA256 of a text under a secret, in hexadecimal.
  pub hmac_sha256 : String → String → String
