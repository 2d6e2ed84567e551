-- ===== src/Gate/Handlers.antt =====
-- `buildReceipt`, `buildAuthorizeResponse` and the handlers of /re/authorize and /re/reauthorize in
-- reference-implementations/runtime-authority-gate/server.mjs. The clock and the random ids are parameters
-- of a call (`Moment`).
use ttp_protocol.Common.{
  String, Bool, true, false, ℕ, ◌+◌, Option, none, some, List, [], ◌∷◌, ◌++◌, find, keep,
  if◌then◌else◌, ◌&&◌, Numbers, last,
}
use ttp_protocol.Json.{Json, null, str, num, arr, obj, Fields, Platform}
use ttp_protocol.Json.Values.{
  get, get?, or_json, truthy, strict_eq, fields, object, array, fields_of, items_list, set,
}
use ttp_protocol.Gate.{Machine, context, text_or}
use ttp_protocol.Gate.Evaluate.{
  permit, escalate, constrained, requires_human_approval, Grant, Evaluation, evaluate_trust,
  map_to_rap, trust_zone, is_low,
}
use ttp_protocol.Gate.Receipts.{Signer, SigningMachine, sign_hash, Receipt, unsigned, receipt_json}

-- What a call reads from the environment: two random ids, the time and how long it takes.
pub record Moment (Num : Type 0) : Type 0 where
  pub receipt_id : String
  pub execution_id : String
  pub issued_at : String
  pub now : ℕ
  pub elapsed_ms : Num

-- What the server is configured with.
pub record Server : Type 0 where
  pub grants : List Grant
  pub signer : Signer
  pub key_path : String

pub record Response (Num : Type 0) : Type 0 where
  pub evaluation : Evaluation Num
  pub rap : String × String
  pub trust_zone : String
  pub evaluation_tier : String
  pub receipt : Receipt Num

pub data Reply (Num : Type 0) : Type 0 where
  ok : Response Num → Reply Num
  invalid_request receipt_not_found : Reply Num

abbrev pub chain_of : {Num : Type 0} → Option (Receipt Num) → String
chain_of none = ""
chain_of (some r) = r.hash

module _ {Num : Type 0} ⦃number : Numbers Num⦄ (p : Platform Num) (m : Machine Num)
    (s : SigningMachine) where
  -- `request.principal?.id ?? request.subject ?? 'unknown-subject'`
  abbrev subject_id : Fields Num → Json Num
  subject_id request =
      or_json (get? (get request "principal") "id")
        (or_json (get request "subject") (str "unknown-subject"))

  unfoldable pub execution_of : Fields Num → Moment Num → Fields Num
  execution_of request now =
      let environment = m.to_upper (text_or p m (context p m request "environment") "OTHER") in
      let delegated = or_json (context p m request "delegatedPrincipal") (str "") in
      fields (
        ("executionId", or_json (get request "requestId") (str now.execution_id))
        ∷ ("surface", str (m.to_upper (text_or p m (context p m request "source") "OTHER")))
        ∷ (
          "subject",
          object (
              ("id", subject_id request)
              ∷ (
                "type",
                str (m.to_upper (text_or p m (get? (get request "principal") "type") "SYSTEM")),
              )
              ∷ ("displayName", subject_id request)
              ∷ []),
        )
        ∷ (
          "delegatedPrincipal",
          object (
              ("id", delegated)
              ∷ ("type", or_json (context p m request "delegatedPrincipalType") (str ""))
              ∷ ("displayName", delegated)
              ∷ []),
        )
        ∷ ("authorityGrantRef", or_json (get? (get request "authorityGrant") "grantId") (str ""))
        ∷ ("attestationRef", or_json (get request "attestationRef") (str ""))
        ∷ ("action", or_json (get request "action") (str "unknown-action"))
        ∷ ("resource", or_json (get? (get request "resource") "id") (str "unknown-resource"))
        ∷ ("environment", str environment)
        ∷ ("context", or_json (get request "context") (object []))
        ∷ [])

  abbrev number_or : Fields Num → String → Num → Json Num
  number_or request key other =
      num (p.to_number (some (or_json (context p m request key) (num other))))

  unfoldable pub trust_of : Fields Num → Moment Num → Num → Fields Num
  trust_of request now score = fields (
      ("trustScore", num score)
      ∷ ("baselineScore", number_or request "baselineTrust" score)
      ∷ ("decayRate", number_or request "decayRate" (number.decimal 3 2))
      ∷ ("lastRechargeAt", or_json (context p m request "lastRechargeAt") (str now.issued_at))
      ∷ ("attestationWeightTotal", number_or request "attestationWeightTotal" (number.decimal 0 0))
      ∷ (
        "attestationsConsidered",
        or_json (context p m request "attestationsConsidered") (array []),
      )
      ∷ [])

  -- The text that is hashed: the receipt with an empty hash, before it is signed.
  unfoldable pub canonical_text : Receipt Num → String
  canonical_text r = p.stringify (receipt_json (record r { hash = ""; signed = unsigned }))

  -- Hashes and signs a receipt as it stands.
  unfoldable pub seal : Server → Receipt Num → Receipt Num
  seal server r =
      let hash = p.sha256_hex (canonical_text r) in
      record r { hash = hash; signed = sign_hash s server.signer server.key_path hash }

  unfoldable pub build_receipt :
      Server → Moment Num → List (Receipt Num) → Fields Num → Evaluation Num → Receipt Num
  build_receipt server now receipts request result = seal server (record {
    receipt_id = now.receipt_id;
    issued_at = now.issued_at;
    execution = execution_of request now;
    evaluation = result;
    latency_ms = number.decimal 0 0;
    trust = trust_of request now result.trust_score;
    evidence_refs = or_json (context p m request "evidenceRefs") (array []);
    hash = "";
    signed = unsigned;
    chain_hash = chain_of (last receipts);
  })

  unfoldable pub build_authorize_response : Evaluation Num → Receipt Num → Response Num
  build_authorize_response result receipt = record {
    evaluation = result;
    rap = map_to_rap result.outcome result.mode;
    trust_zone = trust_zone result.trust_score;
    evaluation_tier =
        if number.le (number.decimal 85 2) result.trust_score && is_low result.risk.level
        then "fast"
        else "full";
    receipt = receipt;
  }

  -- The handler of /re/authorize; `none` is a body that is no JSON.
  unfoldable pub authorize :
      Server
      → Moment Num
      → Option (Fields Num)
      → List (Receipt Num)
      → Reply Num × List (Receipt Num)
  authorize server now none receipts = (invalid_request, receipts)
  authorize server now (some request) receipts =
      let result = evaluate_trust p m server.grants now.now request in
      let built = build_receipt server now receipts request result in
      let receipt = record built { latency_ms = now.elapsed_ms } in
      (ok (build_authorize_response result receipt), receipts ++ receipt ∷ [])

  -- `decisionResult` of a reauthorization.
  unfoldable pub reevaluate : Bool → Receipt Num → Evaluation Num
  reevaluate true prior = record prior.evaluation {
    outcome = permit;
    mode = constrained;
    reason = "human_approval_observed";
    constraints = "approval-bound-session" ∷ [];
    approvals = [];
  }
  reevaluate false prior = record prior.evaluation {
    outcome = escalate;
    mode = requires_human_approval;
    reason = "approval_missing_or_invalid";
    constraints = [];
    approvals = "security-approver" ∷ [];
  }

  -- The elements of an array that is given.
  abbrev elements : Option (Json Num) → List (Json Num)
  elements (some (arr xs)) = items_list xs
  elements _ = []

  unfoldable pub synthetic_request : Moment Num → Fields Num → Receipt Num → Fields Num
  synthetic_request now body prior =
      let evidence = or_json (get? (get body "approval") "evidenceRef") null in
      let refs =
        keep (λ v. truthy (some v)) (elements (some prior.evidence_refs) ++ evidence ∷ []) in
      fields (
        ("requestId", or_json (get body "requestId") (str now.execution_id))
        ∷ ("subject", or_json (get? (get prior.execution "subject") "id") null)
        ∷ ("action", or_json (get prior.execution "action") null)
        ∷ ("resource", object (("id", or_json (get prior.execution "resource") null) ∷ []))
        ∷ (
          "context",
          obj (
              set "evidenceRefs" (array refs)
                (set "source" (str "REAUTHORIZE") (fields_of (get prior.execution "context")))),
        )
        ∷ (
          "authorityGrant",
          object (
              ("grantId", or_json (get prior.execution "authorityGrantRef") null)
              ∷ ("expiresAt", str (p.iso_text (now.now + 300_000)))
              ∷ []),
        )
        ∷ [])

  abbrev pub has_id : Option (Json Num) → Receipt Num → Bool
  has_id id r = strict_eq id (some (str r.receipt_id))

  -- The handler of /re/reauthorize.
  unfoldable pub reauthorize :
      Server
      → Moment Num
      → Option (Fields Num)
      → List (Receipt Num)
      → Reply Num × List (Receipt Num)
  reauthorize server now none receipts = (invalid_request, receipts)
  reauthorize server now (some body) receipts =
      elim (find (has_id (get body "priorReceiptId")) receipts) [
        | none ↦ (receipt_not_found, receipts)
        | some prior ↦
            let result = reevaluate (truthy (get? (get body "approval") "approvedBy")) prior in
            let built =
              build_receipt server now receipts (synthetic_request now body prior) result in
            let receipt = record built { chain_hash = prior.hash } in
            (ok (build_authorize_response result receipt), receipts ++ receipt ∷ [])
      ]
