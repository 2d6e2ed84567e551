-- ===== src/TrustAuthority/Kept.antt =====
-- The calls of reference-implementations/trust-authority/src/routes.ts that take no receipts, and the ids that
-- store.ts has seen.
use ttp_protocol.Common.{
  ◌≡◌, ◌∙◌, String, true, ℕ, Option, some, inl, inr, arith, Numbers, Option-cases, or_else,
}
use ttp_protocol.Json.{Platform, str, Fields}
use ttp_protocol.Json.Values.{get}
use ttp_protocol.TrustAuthority.{
  TtpStore, Host, RegisteredIssuer, QuarantineMode, register_issuer, register_agent, change_agent,
  block_agent, quarantine_agent, lift_quarantine, get_agent_status, get_agent, get_receipts,
  is_receipt_duplicate, store_receipt,
}
use ttp_protocol.TrustAuthority.Aggregate.{AggregationResult, aggregate_trust_score}
use ttp_protocol.TrustAuthority.Issue.{adjust, issue, peer_caps, request_token}
use ttp_protocol.TrustAuthority.Admin.{
  add_issuer, add_agent, block, read_status, set_quarantine, unset_quarantine, provision_trust,
  provisioned,
}

module _ {Num : Type 0} ⦃number : Numbers Num⦄ (p : Platform Num) (h : Host Num) where
  status_seen :
      (id : String) (now : ℕ) (store : TtpStore Num)
      → (get_agent_status id now store).1.seen ≡ store.seen
  unfolding get_agent_status change_agent
  status_seen id now store = ground arith

  adjust_seen :
      (id : String) (score : Num) (now : ℕ) (store : TtpStore Num)
      → (adjust p h id score now store).seen ≡ store.seen
  unfolding adjust quarantine_agent lift_quarantine change_agent
  adjust_seen id score now store = let same = status_seen id now store in ground (arith, same)

  issue_seen :
      (id domain : String) (requested : Option ℕ) (now : ℕ) (a : AggregationResult Num)
      (store : TtpStore Num)
      → (issue p h id domain requested now a store).1.seen ≡ store.seen
  unfolding issue
  issue_seen id domain requested now a store =
      status_seen id now (adjust p h id a.score now store) ∙ adjust_seen id a.score now store

  token_seen :
      (id domain : String) (requested : Option ℕ) (key : Option String) (now : ℕ)
      (store : TtpStore Num)
      → (request_token p h id domain requested key now store).1.seen ≡ store.seen
  unfolding request_token
  token_seen id domain requested key now store = elim (Option-cases (get_agent id store)) [
    | inl none' ↦ ground (arith, none')
    | inr (agent, found) ↦
        let receipts = get_receipts id domain store in
        elim (Option-cases (
          aggregate_trust_score p h receipts (number.decimal now 0)
            (peer_caps p h receipts store))) [
              | inl none' ↦ ground (arith, found, none')
              | inr (a, scored) ↦
                  let same = issue_seen id domain requested now a store in
                  ground (arith, found, scored, same)
            ]
  ]

  issuer_seen :
      (admin_key : String) (key : Option String) (issuer : RegisteredIssuer Num)
      (domain agent : String) (store : TtpStore Num)
      → (add_issuer p h admin_key key issuer domain agent store).1.seen ≡ store.seen
  unfolding add_issuer register_issuer
  issuer_seen admin_key key issuer domain agent store = ground arith

  agent_seen :
      (admin_key : String) (key : Option String) (id api_key : String) (store : TtpStore Num)
      → (add_agent p h admin_key key id api_key store).1.seen ≡ store.seen
  unfolding add_agent register_agent
  agent_seen admin_key key id api_key store = ground arith

  block_seen :
      (admin_key : String) (key : Option String) (id : String) (reason : Option String)
      (store : TtpStore Num)
      → (block p h admin_key key id reason store).1.seen ≡ store.seen
  unfolding block block_agent change_agent
  block_seen admin_key key id reason store = ground arith

  quarantine_seen :
      (admin_key : String) (key : Option String) (id : String) (mode : Option QuarantineMode)
      (reason : Option String) (duration : Option ℕ) (now : ℕ) (store : TtpStore Num)
      → (set_quarantine p h admin_key key id mode reason duration now store).1.seen ≡ store.seen
  unfolding set_quarantine quarantine_agent change_agent
  quarantine_seen admin_key key id mode reason duration now store = ground arith

  lifted_seen :
      (admin_key : String) (key : Option String) (id : String) (now : ℕ) (store : TtpStore Num)
      → (unset_quarantine p h admin_key key id now store).1.seen ≡ store.seen
  unfolding unset_quarantine lift_quarantine change_agent
  lifted_seen admin_key key id now store =
      let same = status_seen id now store in ground (arith, same)

  read_seen :
      (admin_key : String) (key : Option String) (id : String) (now : ℕ) (store : TtpStore Num)
      → (read_status p h admin_key key id now store).1.seen ≡ store.seen
  unfolding read_status
  read_seen admin_key key id now store = let same = status_seen id now store in ground (arith, same)

  -- What is stored forgets no id.
  stored_keeps :
      (id : String) (now : ℕ) (r : Fields Num) (store : TtpStore Num)
      → is_receipt_duplicate (some (str id)) store ≡ true
      → is_receipt_duplicate (some (str id)) (store_receipt h now r store) ≡ true
  unfolding is_receipt_duplicate store_receipt
  stored_keeps id now r store e = elim (Option-cases (get r "receipt_id")) [
    | inl none' ↦ rw none' e
    | inr (v, some') ↦ rw some' (ground (arith, e))
  ]

  same_keeps :
      (id : String) (s t : TtpStore Num)
      → t.seen ≡ s.seen
      → is_receipt_duplicate (some (str id)) s ≡ true
      → is_receipt_duplicate (some (str id)) t ≡ true
  unfolding is_receipt_duplicate
  same_keeps id s t same e = rw same e

  provision_keeps :
      (admin_key : String) (key : Option String) (id agent domain : String) (score : Num)
      (duration : Option ℕ) (reason : Option String) (now : ℕ) (drawn : ℕ → String)
      (store : TtpStore Num)
      → is_receipt_duplicate (some (str id)) store ≡ true
      → is_receipt_duplicate
          (some (str id))
          (provision_trust p h admin_key key agent domain score duration reason now drawn store).1
        ≡ true
  unfolding provision_trust
  provision_keeps admin_key key id agent domain score duration reason now drawn store e =
      let receipt : ℕ → Fields Num = λ i.
        provisioned p h admin_key (drawn i) agent domain score (or_else duration 3_600)
          (or_else reason "Operator provisioned") now i (drawn 3) in
      let first = stored_keeps id now (receipt 0) store e in
      let second = stored_keeps id now (receipt 1) _ first in
      let third = stored_keeps id now (receipt 2) _ second in ground (arith, third)

  -- A call that takes no receipts: for a token, or of the operator.
  pub data Other (store : TtpStore Num) : TtpStore Num → Type 0 where
    token :
        (id domain : String) (requested : Option ℕ) (key : Option String) (now : ℕ)
        → Other store (request_token p h id domain requested key now store).1
    new_issuer :
        (admin_key : String) (key : Option String) (issuer : RegisteredIssuer Num)
        (domain agent : String)
        → Other store (add_issuer p h admin_key key issuer domain agent store).1
    new_agent :
        (admin_key : String) (key : Option String) (id api_key : String)
        → Other store (add_agent p h admin_key key id api_key store).1
    blocked :
        (admin_key : String) (key : Option String) (id : String) (reason : Option String)
        → Other store (block p h admin_key key id reason store).1
    status :
        (admin_key : String) (key : Option String) (id : String) (now : ℕ)
        → Other store (read_status p h admin_key key id now store).1
    quarantined :
        (admin_key : String) (key : Option String) (id : String) (mode : Option QuarantineMode)
        (reason : Option String) (duration : Option ℕ) (now : ℕ)
        → Other store (set_quarantine p h admin_key key id mode reason duration now store).1
    lifted :
        (admin_key : String) (key : Option String) (id : String) (now : ℕ)
        → Other store (unset_quarantine p h admin_key key id now store).1
    granted :
        (admin_key : String) (key : Option String) (agent domain : String) (score : Num)
        (duration : Option ℕ) (reason : Option String) (now : ℕ) (drawn : ℕ → String)
        → Other store
            (provision_trust p h admin_key key agent domain score duration reason now drawn store).1

  pub Other-keeps :
      (id : String) (store : TtpStore Num) {t : TtpStore Num}
      → Other store t
      → is_receipt_duplicate (some (str id)) store ≡ true
      → is_receipt_duplicate (some (str id)) t ≡ true
  Other-keeps id store (token agent domain requested key now) e =
      same_keeps id store _ (token_seen agent domain requested key now store) e
  Other-keeps id store (new_issuer admin_key key issuer domain agent) e =
      same_keeps id store _ (issuer_seen admin_key key issuer domain agent store) e
  Other-keeps id store (new_agent admin_key key agent api_key) e =
      same_keeps id store _ (agent_seen admin_key key agent api_key store) e
  Other-keeps id store (blocked admin_key key agent reason) e =
      same_keeps id store _ (block_seen admin_key key agent reason store) e
  Other-keeps id store (status admin_key key agent now) e =
      same_keeps id store _ (read_seen admin_key key agent now store) e
  Other-keeps id store (quarantined admin_key key agent mode reason duration now) e =
      same_keeps id store _ (quarantine_seen admin_key key agent mode reason duration now store) e
  Other-keeps id store (lifted admin_key key agent now) e =
      same_keeps id store _ (lifted_seen admin_key key agent now store) e
  Other-keeps id store (granted admin_key key agent domain score duration reason now drawn) e =
      provision_keeps admin_key key id agent domain score duration reason now drawn store e
