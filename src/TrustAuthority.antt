-- ===== src/TrustAuthority.antt =====
-- reference-implementations/trust-authority/src: the service that collects receipts of what agents do and
-- issues trust tokens. This file has types.ts and the store of store.ts; `Aggregate` aggregation.ts,
-- `Submit` the routes of routes.ts that take receipts, `Issue` the route that issues tokens, `Admin` the
-- routes of the operator. The proofs are in `Issued`, on tokens, `Outcomes`, `Counts`, `Kept` and
-- `Submitted`, on what is accepted, `Peers`, on receipts of peers, and `Gaps`.
pub mod Aggregate
pub mod Submit
pub mod Issue
pub mod Admin
mod Outcomes
mod Counts
mod Kept
pub mod Submitted
pub mod Peers
pub mod Gaps
pub mod Issued
pub mod Tests
use Prim.Native.String.{◌++◌}
use ttp_protocol.Common.{
  String, Bool, true, false, not, ◌&&◌, ℕ, ◌-◌, ltb, nat_eq, Option, none, some, List, [], ◌∷◌,
  if◌then◌else◌, ◌==◌, any, keep, find, map, Numbers,
}
use ttp_protocol.Common.{◌++◌ as join}
use ttp_protocol.Json.{Json, Fields, Platform}
use ttp_protocol.Json.Values.{get, strict_eq}

pub data IssuerType : Type 0 where
  infrastructure agent_peer : IssuerType

pub record RegisteredIssuer (Num : Type 0) : Type 0 where
  pub issuer_id : String
  pub public_key : String
  pub issuer_type : IssuerType
  pub min_attester_score : Option Num
  pub confirmation_url : Option String

pub data QuarantineMode : Type 0 where
  auto manual supervised : QuarantineMode

pub data AgentStatus : Type 0 where
  active quarantined blocked_status : AgentStatus

-- Times are in milliseconds.
pub record RegisteredAgent : Type 0 where
  pub agent_id : String
  pub api_key : String
  pub blocked : Bool
  pub blocked_reason : Option String
  pub quarantine_mode : Option QuarantineMode
  pub quarantine_reason : Option String
  pub quarantined_at : Option ℕ
  pub quarantine_expires_at : Option ℕ

-- Receipts stand in the order in which they were stored, each under the key of its agent and domain; the
-- ids that were seen have the times at which they were accepted.
pub record TtpStore (Num : Type 0) : Type 0 where
  pub receipts : List (String × Fields Num)
  pub seen : List (Json Num × ℕ)
  pub issuers : List (RegisteredIssuer Num)
  pub agents : List RegisteredAgent

-- What is called on values beside `Platform` and the numbers.
pub record Host (Num : Type 0) : Type 0 where
  -- `String(v)`, as in a template.
  pub text : Option (Json Num) → String
  pub divide : Num → Num → Num
  pub exp : Num → Num
  pub ln_2 : Num
  -- `Math.round(x * 1000) / 1000`
  pub round_3 : Num → Num
  -- The second part of a token, decoded from base64url and parsed; `none` where that throws.
  pub decode_claims : Json Num → Option (Json Num)
  -- Ed25519 on texts in base64url: signature, message and public key; false where it throws.
  pub verify : String → String → String → Bool

abbrev pub is_agent : String → RegisteredAgent → Bool
is_agent id a = a.agent_id == id

abbrev pub quarantine : QuarantineMode → String → ℕ → Option ℕ → RegisteredAgent → RegisteredAgent
quarantine mode reason now expires a = if a.blocked then a else record a {
  quarantine_mode = some mode;
  quarantine_reason = some reason;
  quarantined_at = some now;
  quarantine_expires_at = expires;
}

abbrev pub lift : RegisteredAgent → RegisteredAgent
lift a = if a.blocked then a else record a {
  quarantine_mode = none;
  quarantine_reason = none;
  quarantined_at = none;
  quarantine_expires_at = none;
}

-- `expires_at && expires_at < Date.now()`
abbrev pub has_lapsed : Option ℕ → ℕ → Bool
has_lapsed none now = false
has_lapsed (some t) now = not (nat_eq t 0) && ltb t now

abbrev pub status_of : RegisteredAgent → ℕ → AgentStatus
status_of a now = if a.blocked then blocked_status else elim a.quarantine_mode [
  | none ↦ active
  | some _ ↦ if has_lapsed a.quarantine_expires_at now then active else quarantined
]

abbrev pub settle : ℕ → RegisteredAgent → RegisteredAgent
settle now a = if a.blocked then a else elim a.quarantine_mode [
  | none ↦ a
  | some _ ↦ if has_lapsed a.quarantine_expires_at now then lift a else a
]

-- The key of an agent and a domain.
abbrev pub key_of : String → String → String
key_of agent domain = agent ++ (":" ++ domain)

module _ {Num : Type 0} where
  abbrev is_issuer : String → RegisteredIssuer Num → Bool
  is_issuer id i = i.issuer_id == id

  unfoldable pub get_issuer : String → TtpStore Num → Option (RegisteredIssuer Num)
  get_issuer id store = find (is_issuer id) store.issuers

  -- A map that is set at a key: what it had there is replaced.
  unfoldable pub register_issuer : RegisteredIssuer Num → TtpStore Num → TtpStore Num
  register_issuer issuer store = record store {
    issuers = issuer ∷ keep (λ i. not (is_issuer issuer.issuer_id i)) store.issuers;
  }

  unfoldable pub get_agent : String → TtpStore Num → Option RegisteredAgent
  get_agent id store = find (is_agent id) store.agents

  unfoldable pub register_agent : RegisteredAgent → TtpStore Num → TtpStore Num
  register_agent agent store = record store {
    agents = agent ∷ keep (λ a. not (is_agent agent.agent_id a)) store.agents;
  }

  -- An agent is changed in place.
  unfoldable pub change_agent :
      (RegisteredAgent → RegisteredAgent) → String → TtpStore Num → TtpStore Num
  change_agent f id store = record store {
    agents = map (λ a. if is_agent id a then f a else a) store.agents;
  }

  unfoldable pub block_agent : String → String → TtpStore Num → TtpStore Num
  block_agent id reason store =
      change_agent (λ a. record a { blocked = true; blocked_reason = some reason }) id store

  unfoldable pub quarantine_agent :
      String → QuarantineMode → String → ℕ → Option ℕ → TtpStore Num → TtpStore Num
  quarantine_agent id mode reason now expires store =
      change_agent (quarantine mode reason now expires) id store

  unfoldable pub lift_quarantine : String → TtpStore Num → TtpStore Num
  lift_quarantine id store = change_agent lift id store

  -- `getAgentStatus`, which lifts a quarantine that has lapsed.
  unfoldable pub get_agent_status : String → ℕ → TtpStore Num → AgentStatus × TtpStore Num
  get_agent_status id now store = elim (get_agent id store) [
    | none ↦ (active, store)
    | some a ↦ (status_of a now, change_agent (settle now) id store)
  ]

  unfoldable pub get_receipts : String → String → TtpStore Num → List (Fields Num)
  get_receipts agent domain store =
      map (λ (e : String × Fields Num). e.1)
        (keep (λ (e : String × Fields Num). e.0 == key_of agent domain) store.receipts)

module _ {Num : Type 0} ⦃number : Numbers Num⦄ where
  unfoldable pub is_receipt_duplicate : Option (Json Num) → TtpStore Num → Bool
  is_receipt_duplicate id store = any (λ (e : Json Num × ℕ). strict_eq id (some e.0)) store.seen

  abbrev pub also_seen : Option (Json Num) → ℕ → List (Json Num × ℕ) → List (Json Num × ℕ)
  also_seen none now seen = seen
  also_seen (some v) now seen = (v, now) ∷ seen

  -- `storeReceipt`, of a receipt that is accepted at `now`.
  unfoldable pub store_receipt : Host Num → ℕ → Fields Num → TtpStore Num → TtpStore Num
  store_receipt h now r store = record store {
    seen = also_seen (get r "receipt_id") now store.seen;
    receipts =
        join store.receipts
          ((key_of (h.text (get r "agent_id")) (h.text (get r "domain")), r) ∷ []);
  }

  -- `pruneOldReceipts`
  unfoldable pub prune_old_receipts : Platform Num → ℕ → ℕ → TtpStore Num → TtpStore Num
  prune_old_receipts p max_age now store = record store {
    receipts =
        keep
          (λ (e : String × Fields Num).
            number.le (number.sub (number.decimal now 0) (p.to_number (get e.1 "timestamp")))
              (number.decimal max_age 0))
          store.receipts;
    seen = keep (λ (e : Json Num × ℕ). not (ltb max_age (now - e.1))) store.seen;
  }
