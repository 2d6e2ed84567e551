-- ===== src/TrustAuthority/Issued.antt =====
-- Which tokens reference-implementations/trust-authority/src/routes.ts issues.
use ttp_protocol.Common.{
  subst, ◌≡◌, String, true, false, ℕ, ◌+◌, ◌≤◌, Option, some, inl, inr, arith, Option-cases,
  Numbers, or_else, eq_iff, is_some,
}
use ttp_protocol.Json.{Platform}
use ttp_protocol.TrustAuthority.{
  RegisteredAgent, QuarantineMode, AgentStatus, active, quarantined, blocked_status, TtpStore, Host,
  get_agent, get_agent_status, get_receipts,
}
use ttp_protocol.TrustAuthority.Aggregate.{AggregationResult, aggregate_trust_score}
use ttp_protocol.TrustAuthority.Issue.{
  Token, issued, adjust, issue, request_token, ttl_of, claimed_mode, peer_caps, mode_of,
}

-- What a token shows when it is issued.
pub record IsBounded {Num : Type 0} (id : String) (key : Option String) (store : TtpStore Num)
    (t : Token Num) : Type 0 where
  pub agent : RegisteredAgent
  pub known : get_agent id store ≡ some agent
  pub unblocked : agent.blocked ≡ false
  pub authenticated : or_else key "" ≡ agent.api_key
  pub short : t.expires_at ≤ t.issued_at + 600
  pub shorter : is_some t.quarantine_mode ≡ true → t.expires_at ≤ t.issued_at + 60

ttl_of-bounded :
    (requested : Option ℕ) (status : AgentStatus) (mode : Option QuarantineMode)
    → (ttl_of requested status ≤ 600)
      × (is_some (claimed_mode status mode) ≡ true → ttl_of requested status ≤ 60)
ttl_of-bounded requested active mode = (ground arith, λ e. absurd (ground arith))
ttl_of-bounded requested quarantined mode = (ground arith, λ e. ground arith)
ttl_of-bounded requested blocked_status mode = (ground arith, λ e. absurd (ground arith))

issued-inj : {Num : Type 0} {s t : Token Num} → issued s ≡ issued t → s ≡ t
issued-inj e = cc

abbrev Lives : {Num : Type 0} → Token Num → Type 0
Lives t =
    (t.expires_at ≤ t.issued_at + 600)
    × (is_some t.quarantine_mode ≡ true → t.expires_at ≤ t.issued_at + 60)

module _ {Num : Type 0} ⦃number : Numbers Num⦄ (p : Platform Num) (h : Host Num) where
  issue-bounded :
      (id domain : String) (requested : Option ℕ) (now : ℕ) (aggregation : AggregationResult Num)
      (store : TtpStore Num) {t : Token Num}
      → (issue p h id domain requested now aggregation store).0 ≡ issued t
      → Lives t
  unfolding issue
  issue-bounded id domain requested now aggregation store e =
      let (status, store') = get_agent_status id now (adjust p h id aggregation.score now store) in
      let (short, shorter) = ttl_of-bounded requested status (mode_of (get_agent id store')) in
      subst Lives (issued-inj e) (omega (arith, short), λ q. omega (arith, shorter q))

-- A token is issued only to a known agent that is not blocked and gives its key, and lives at most 600
-- seconds; at most 60 where the agent is quarantined.
pub request_token-IsBounded :
    {Num : Type 0} ⦃number : Numbers Num⦄ (p : Platform Num) (h : Host Num) (id domain : String)
    (requested : Option ℕ) (key : Option String) (now : ℕ) (store : TtpStore Num) (t : Token Num)
    → (request_token p h id domain requested key now store).0 ≡ issued t
    → IsBounded id key store t
unfolding request_token
request_token-IsBounded ⦃number = number⦄ p h id domain requested key now store t e =
    elim (Option-cases (get_agent id store)) [
      | inl none' ↦ absurd (ground (arith, none'))
      | inr (agent, known) ↦
          elim (Option-cases (
            aggregate_trust_score p h (get_receipts id domain store) (number.decimal now 0)
              (peer_caps p h (get_receipts id domain store) store))) [
                | inl empty ↦ absurd (ground (arith, known, empty))
                | inr (aggregation, scored) ↦
                    let told : (issue p h id domain requested now aggregation store).0 ≡ issued t =
                      ground (arith, known, scored) in
                    let (short, shorter) =
                      issue-bounded p h id domain requested now aggregation store told in
                    record {
                      agent = agent;
                      known = known;
                      unblocked = ground (arith, known, scored);
                      authenticated = (eq_iff _ _).0 (ground (arith, known, scored));
                      short = short;
                      shorter = shorter;
                    }
              ]
    ]
