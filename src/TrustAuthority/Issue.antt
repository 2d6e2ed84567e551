-- ===== src/TrustAuthority/Issue.antt =====
-- The route /v1/tokens of reference-implementations/trust-authority/src/routes.ts. Signing the token is left
-- out: the token stands for the claims that are signed.
use ttp_protocol.Common.{
  String, Bool, true, false, not, ◌&&◌, ◌||◌, ℕ, ◌+◌, ltb, Option, none, some, List, [], ◌∷◌,
  if◌then◌else◌, ◌==◌, or_else, Numbers,
}
use Prim.Native.Nat.{◌/◌}
use ttp_protocol.Json.{Fields, Platform}
use ttp_protocol.Json.Values.{get}
use ttp_protocol.TrustAuthority.{
  RegisteredAgent, QuarantineMode, auto, AgentStatus, active, quarantined, TtpStore, Host,
  get_agent, get_agent_status, get_receipts, quarantine_agent, lift_quarantine,
}
use ttp_protocol.TrustAuthority.Aggregate.{AggregationResult, aggregate_trust_score}
use ttp_protocol.TrustAuthority.Submit.{is_peer, issuer_of}

-- Times in seconds.
pub record Token (Num : Type 0) : Type 0 where
  pub subject : String
  pub domain : String
  pub score : Num
  pub issuer_count : ℕ
  pub quarantine_mode : Option QuarantineMode
  pub issued_at : ℕ
  pub expires_at : ℕ

pub data TokenReply (Num : Type 0) : Type 0 where
  issued : Token Num → TokenReply Num
  denied : ℕ → String → TokenReply Num

-- `Math.min(requested_ttl ?? 300, quarantined ? 60 : 600)`
abbrev pub min_nat : ℕ → ℕ → ℕ
min_nat a b = if ltb b a then b else a

abbrev pub longest_ttl : AgentStatus → ℕ
longest_ttl quarantined = 60
longest_ttl _ = 600

abbrev pub ttl_of : Option ℕ → AgentStatus → ℕ
ttl_of requested status = min_nat (or_else requested 300) (longest_ttl status)

abbrev pub is_active : AgentStatus → Bool
is_active active = true
is_active _ = false

abbrev pub is_quarantined : AgentStatus → Bool
is_quarantined quarantined = true
is_quarantined _ = false

abbrev pub is_auto : Option QuarantineMode → Bool
is_auto (some auto) = true
is_auto _ = false

-- `agent.quarantine_mode`, of the agent as it is in the store.
abbrev pub mode_of : Option RegisteredAgent → Option QuarantineMode
mode_of none = none
mode_of (some a) = a.quarantine_mode

-- `quarantine_mode ?? "auto"`, claimed where the agent is quarantined.
abbrev pub claimed_mode : AgentStatus → Option QuarantineMode → Option QuarantineMode
claimed_mode quarantined mode = some (or_else mode auto)
claimed_mode _ mode = none

module _ {Num : Type 0} ⦃number : Numbers Num⦄ (p : Platform Num) (h : Host Num) where
  -- The caps of the issuers of the receipts, beside the one of provisioned trust.
  abbrev pub peer_caps : List (Fields Num) → TtpStore Num → List (String × Num)
  peer_caps [] store = ("ttp-authority-provisioned", number.decimal 3 1) ∷ []
  peer_caps (r ∷ rest) store =
      let caps = peer_caps rest store in
      elim (issuer_of p h (get r "issuer_id") store) [
        | none ↦ caps
        | some issuer ↦
            if is_peer issuer.issuer_type
            then (h.text (get r "issuer_id"), number.decimal 2 1) ∷ caps
            else caps
      ]

  -- Quarantines an active agent whose score is below 0.35, and lifts an automatic quarantine from 0.65 on.
  unfoldable pub adjust : String → Num → ℕ → TtpStore Num → TtpStore Num
  adjust id score now store =
      let (status, store') = get_agent_status id now store in
      if is_active status && number.lt score (number.decimal 35 2)
      then quarantine_agent id auto "score below threshold" now none store'
      else if is_quarantined status
          && is_auto (mode_of (get_agent id store'))
          && number.le (number.decimal 65 2) score
      then lift_quarantine id store'
      else store'

  -- The token, once the score is known.
  unfoldable pub issue :
      String
      → String
      → Option ℕ
      → ℕ
      → AggregationResult Num
      → TtpStore Num
      → TokenReply Num × TtpStore Num
  issue id domain requested now aggregation store =
      let (status, store') = get_agent_status id now (adjust id aggregation.score now store) in
      (
        issued (record {
          subject = id;
          domain = domain;
          score = h.round_3 aggregation.score;
          issuer_count = aggregation.contributing_issuers;
          quarantine_mode = claimed_mode status (mode_of (get_agent id store'));
          issued_at = now / 1_000;
          expires_at = now / 1_000 + ttl_of requested status;
        }),
        store',
      )

  -- `POST /v1/tokens`, with the key of the header; times to live are not negative.
  unfoldable pub request_token :
      String → String → Option ℕ → Option String → ℕ → TtpStore Num → TokenReply Num × TtpStore Num
  request_token id domain requested key now store =
      if id == "" || domain == ""
      then (denied 400 "INVALID_REQUEST", store)
      else elim (get_agent id store) [
        | none ↦ (denied 404 "AGENT_NOT_FOUND", store)
        | some agent ↦
            if agent.blocked
            then (denied 403 "AGENT_BLOCKED", store)
            else if or_else key "" == "" || not (or_else key "" == agent.api_key)
            then (denied 401 "UNAUTHORIZED", store)
            else let receipts = get_receipts id domain store in
              elim (aggregate_trust_score p h receipts (number.decimal now 0)
                (peer_caps receipts store)) [
                  | none ↦ (denied 403 "INSUFFICIENT_TRUST_DATA", store)
                  | some aggregation ↦ issue id domain requested now aggregation store
                ]
      ]
