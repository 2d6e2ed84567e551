-- ===== src/TrustAuthority/Admin.antt =====
-- The operator's routes of reference-implementations/trust-authority/src/routes.ts, but for the lists that
-- they answer with. The texts of an agent's description are left out.
use ttp_protocol.Common.{
  String, Bool, false, not, ◌&&◌, ◌||◌, ℕ, ◌+◌, ◌*◌, ltb, leb, nat_eq, Option, none, some, [], ◌∷◌,
  if◌then◌else◌, ◌==◌, or_else, is_some, Numbers,
}
use Prim.Native.Nat.{◌/◌}
use ttp_protocol.Json.{str, num, Fields, Platform}
use ttp_protocol.Json.Values.{object, fields}
use ttp_protocol.TrustAuthority.{
  RegisteredAgent, RegisteredIssuer, QuarantineMode, manual, AgentStatus, TtpStore, Host, get_agent,
  get_agent_status, register_issuer, register_agent, block_agent, quarantine_agent, lift_quarantine,
  store_receipt,
}
use ttp_protocol.TrustAuthority.Submit.{is_peer}
use ttp_protocol.TrustAuthority.Issue.{is_quarantined}

pub data AdminReply : Type 0 where
  done : AdminReply
  status_is : AgentStatus → AdminReply
  failed : ℕ → String → AdminReply

module _ {Num : Type 0} ⦃number : Numbers Num⦄ (p : Platform Num) (h : Host Num)
    (admin_key : String) where
  abbrev pub is_operator : Option String → Bool
  is_operator key = not (or_else key "" == "") && or_else key "" == admin_key

  abbrev pub out_of_unit : Option Num → Bool
  out_of_unit none = false
  out_of_unit (some score) =
      number.lt score (number.decimal 0 0) || number.lt (number.decimal 1 0) score

  -- `POST /v1/admin/issuers`, of an issuer as it was sent; `peer_agent` is its agent.
  unfoldable pub add_issuer :
      Option String
      → RegisteredIssuer Num
      → String
      → String
      → TtpStore Num
      → AdminReply × TtpStore Num
  add_issuer key issuer domain peer_agent store =
      if not (is_operator key)
      then (failed 401 "UNAUTHORIZED", store)
      else if issuer.issuer_id == "" || issuer.public_key == "" || domain == ""
      then (failed 400 "INVALID_REQUEST", store)
      else if is_peer issuer.issuer_type
          && (peer_agent == ""
              || not (is_some (get_agent peer_agent store))
              || out_of_unit issuer.min_attester_score)
      then (
        failed 400 (
            if not (peer_agent == "") && not (is_some (get_agent peer_agent store))
            then "AGENT_NOT_FOUND"
            else "INVALID_REQUEST"),
        store,
      )
      else (
        done,
        register_issuer
            (if is_peer issuer.issuer_type
              then record issuer {
                min_attester_score = some (or_else issuer.min_attester_score (number.decimal 9 1));
              }
              else record issuer { min_attester_score = none; confirmation_url = none })
            store,
      )

  -- `POST /v1/admin/agents`, with the key that is drawn.
  unfoldable pub add_agent :
      Option String → String → String → TtpStore Num → AdminReply × TtpStore Num
  add_agent key id api_key store =
      if not (is_operator key)
      then (failed 401 "UNAUTHORIZED", store)
      else if id == ""
      then (failed 400 "INVALID_REQUEST", store)
      else (
        done,
        register_agent
            (record {
              agent_id = id;
              api_key = api_key;
              blocked = false;
              blocked_reason = none;
              quarantine_mode = none;
              quarantine_reason = none;
              quarantined_at = none;
              quarantine_expires_at = none;
            })
            store,
      )

  -- A route on one agent.
  abbrev pub on_agent :
      Option String
      → String
      → (RegisteredAgent → AdminReply × TtpStore Num)
      → TtpStore Num
      → AdminReply × TtpStore Num
  on_agent key id act store =
      if not (is_operator key)
      then (failed 401 "UNAUTHORIZED", store)
      else elim (get_agent id store) [
        | none ↦ (failed 404 "AGENT_NOT_FOUND", store)
        | some agent ↦ act agent
      ]

  unfoldable pub block :
      Option String → String → Option String → TtpStore Num → AdminReply × TtpStore Num
  block key id reason store =
      on_agent key id
        (λ agent. (done, block_agent id (or_else reason "Administratively blocked") store)) store

  unfoldable pub read_status : Option String → String → ℕ → TtpStore Num → AdminReply × TtpStore Num
  read_status key id now store =
      on_agent key id
        (λ agent.
          let (status, store') = get_agent_status id now store in (status_is status, store'))
        store

  -- `duration_s ? Date.now() + duration_s * 1000 : undefined`
  abbrev pub expiry_of : Option ℕ → ℕ → Option ℕ
  expiry_of none now = none
  expiry_of (some s) now = if nat_eq s 0 then none else some (now + s * 1_000)

  unfoldable pub set_quarantine :
      Option String
      → String
      → Option QuarantineMode
      → Option String
      → Option ℕ
      → ℕ
      → TtpStore Num
      → AdminReply × TtpStore Num
  set_quarantine key id mode reason duration now store =
      on_agent key id
        (λ agent. if agent.blocked then (failed 409 "AGENT_BLOCKED", store) else (
          done,
          quarantine_agent id (or_else mode manual) (or_else reason "Administratively quarantined")
              now (expiry_of duration now) store,
        ))
        store

  unfoldable pub unset_quarantine :
      Option String → String → ℕ → TtpStore Num → AdminReply × TtpStore Num
  unset_quarantine key id now store =
      on_agent key id
        (λ agent.
          let (status, store') = get_agent_status id now store in
          if is_quarantined status
          then (done, lift_quarantine id store')
          else (failed 409 "NOT_QUARANTINED", store'))
        store

  -- One of the three provisioned receipts, with the ids that are drawn.
  abbrev pub provisioned : String → String → String → Num → ℕ → String → ℕ → ℕ → String → Fields Num
  provisioned receipt_id id domain score duration reason now i grant_id = fields (
      ("ttp_version", str "1.0")
      ∷ ("receipt_id", str receipt_id)
      ∷ ("agent_id", str id)
      ∷ ("issuer_id", str "ttp-authority-provisioned")
      ∷ ("event_type", str "authority_provisioned")
      ∷ (
        "event_data",
        object (
            ("grant_id", str grant_id)
            ∷ ("reason", str reason)
            ∷ ("duration_s", num (number.decimal duration 0))
            ∷ []),
      )
      ∷ ("domain", str domain)
      ∷ (
        "timestamp",
        num (number.sub (number.decimal now 0) (number.decimal (duration * 1_000 * i / 6) 0)),
      )
      ∷ ("score", num score)
      ∷ ("signature", str "provisioned")
      ∷ ("accepted_at", num (number.decimal now 0))
      ∷ [])

  -- `POST /v1/admin/agents/:agentId/provision-trust`, of a duration that is a whole number.
  unfoldable pub provision_trust :
      Option String
      → String
      → String
      → Num
      → Option ℕ
      → Option String
      → ℕ
      → (ℕ → String)
      → TtpStore Num
      → AdminReply × TtpStore Num
  provision_trust key id domain score duration reason now drawn store =
      let seconds = or_else duration 3_600 in
      let receipt = λ (i : ℕ).
        provisioned (drawn i) id domain score seconds (or_else reason "Operator provisioned") now i
          (drawn 3) in
      if not (is_operator key)
      then (failed 401 "UNAUTHORIZED", store)
      else if domain == "" || out_of_unit (some score)
      then (failed 400 "INVALID_REQUEST", store)
      else if leb seconds 0 || ltb 604_800 seconds
      then (failed 400 "INVALID_REQUEST", store)
      else on_agent key id
          (λ agent. (
            done,
            store_receipt h now (receipt 2)
                (store_receipt h now (receipt 1) (store_receipt h now (receipt 0) store)),
          ))
          store
