-- ===== src/TrustAuthority/Peers.antt =====
-- What POST /v1/peer-receipts of reference-implementations/trust-authority/src/routes.ts asks of a receipt
-- beyond what POST /v1/receipts asks.
use ttp_protocol.Common.{◌≡◌, ◌≢◌, String, true, false, Option, some, Numbers, or_else}
use ttp_protocol.Json.{Json, str, Fields, Platform}
use ttp_protocol.Json.Values.{get, get?, truthy}
use ttp_protocol.TrustAuthority.{TtpStore, Host, RegisteredIssuer, agent_peer}
use ttp_protocol.TrustAuthority.Submit.{Outside, Claims, issuer_of}

module _ {Num : Type 0} ⦃number : Numbers Num⦄ (p : Platform Num) (h : Host Num) where
  -- What a token decodes to holds the three claims, none of them null, false, zero or empty.
  pub record IsDecoded (payload : Option (Json Num)) (c : Claims p h) : Type 0 where
    pub has_score : get? payload "ttp_score" ≡ some c.score
    pub has_subject : get? payload "sub" ≡ some c.subject
    pub has_expiry : get? payload "exp" ≡ some c.expires
    pub stated :
        (truthy (some c.score) ≡ true)
        × ((truthy (some c.subject) ≡ true) × (truthy (some c.expires) ≡ true))

  -- What the peer route asks of a receipt and its issuer, and of what the attester's token decodes
  -- to: the token is the issuer's own, has not expired, has the score that the issuer must reach,
  -- and the confirmation service agrees where there is one.
  pub record IsAttested (outside : Outside Num) (r : Fields Num) (payload : Option (Json Num))
      (issuer : RegisteredIssuer Num) : Type 0 where
    pub observed : get r "event_type" ≡ some (str "agent_peer_observation")
    pub by_peer : issuer.issuer_type ≡ agent_peer
    pub claims : Claims p h
    pub decoded : IsDecoded payload claims
    pub unexpired :
        number.lt
          (number.mul (p.to_number (some claims.expires)) (number.decimal 1_000 0))
          (number.decimal outside.now 0)
        ≡ false
    pub own_token : get r "issuer_id" ≡ some claims.subject
    pub score_reached :
        number.lt
          (p.to_number (some claims.score))
          (or_else issuer.min_attester_score (number.decimal 9 1))
        ≡ false
    pub confirmed :
        (url : String)
        → issuer.confirmation_url ≡ some url
        → url ≢ ""
        → outside.confirms url r (p.to_number (some claims.score)) ≡ true

  -- The issuer that a receipt names attests it.
  pub record PassesGate (outside : Outside Num) (r : Fields Num) (payload : Option (Json Num))
      (store : TtpStore Num) : Type 0 where
    pub issuer : RegisteredIssuer Num
    pub known : issuer_of p h (get r "issuer_id") store ≡ some issuer
    pub is_attested : IsAttested outside r payload issuer
