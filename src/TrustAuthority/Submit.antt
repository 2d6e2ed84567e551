-- ===== src/TrustAuthority/Submit.antt =====
-- The routes /v1/receipts, /v1/receipts/batch and /v1/peer-receipts of
-- reference-implementations/trust-authority/src/routes.ts, and `verifyReceiptSignature` of crypto.ts.
use ttp_protocol.Common.{
  String, Bool, true, false, not, ◌&&◌, ◌||◌, ℕ, ltb, Option, none, some, List, [], ◌∷◌,
  if◌then◌else◌, ◌==◌, any, or_else, Numbers, is_some,
}
use ttp_protocol.Json.{Json, str, num, arr, obj, Items, nil, cons, Fields, end, field, Platform}
use ttp_protocol.Json.Values.{get, get?, set, strict_eq, truthy}
use ttp_protocol.TrustAuthority.{
  IssuerType, infrastructure, agent_peer, RegisteredIssuer, TtpStore, Host, get_issuer,
  is_receipt_duplicate, store_receipt,
}

pub data Reply (Num : Type 0) : Type 0 where
  accepted duplicate : Option (Json Num) → Reply Num
  refused : ℕ → String → Reply Num

pub record ValidationError : Type 0 where
  pub status : ℕ
  pub code : String

-- What a request reads from outside: the time, and the answer of the confirmation service, false where
-- it fails or does not answer in time.
pub record Outside (Num : Type 0) : Type 0 where
  pub now : ℕ
  pub confirms : String → Fields Num → Num → Bool

abbrev pub is_peer : IssuerType → Bool
is_peer agent_peer = true
is_peer infrastructure = false

abbrev pub required_fields : List String
required_fields =
    "receipt_id" ∷ "agent_id" ∷ "issuer_id" ∷ "event_type" ∷ "domain" ∷ "timestamp" ∷ "score"
    ∷ "signature" ∷ []

module _ {Num : Type 0} ⦃number : Numbers Num⦄ (p : Platform Num) (h : Host Num) where
  abbrev pub without : String → Fields Num → Fields Num
  without key end = end
  without key (field k v fs) = if k == key then without key fs else field k v (without key fs)

  abbrev pub place : String → Json Num → Fields Num → Fields Num
  place key v end = field key v end
  place key v (field k u fs) =
      if p.key_le key k then field key v (field k u fs) else field k u (place key v fs)

  -- `Object.keys(receipt).sort()`
  abbrev pub sorted : Fields Num → Fields Num
  sorted end = end
  sorted (field k v fs) = place k v (sorted fs)

  unfoldable pub receipt_canonical_payload : Fields Num → String
  receipt_canonical_payload r = p.stringify (obj (sorted r))

  unfoldable pub verify_receipt_signature : Fields Num → String → Bool
  verify_receipt_signature r key =
      h.verify (h.text (get r "signature")) (receipt_canonical_payload (without "signature" r)) key

  -- The issuer that a receipt names.
  abbrev pub issuer_of : Option (Json Num) → TtpStore Num → Option (RegisteredIssuer Num)
  issuer_of (some (str id)) store = get_issuer id store
  issuer_of _ store = none

  abbrev pub score_out_of_range : Option (Json Num) → Bool
  score_out_of_range (some (num score)) =
      number.lt score (number.decimal 0 0) || number.lt (number.decimal 1 0) score
  score_out_of_range _ = true

  abbrev pub age_of : Fields Num → ℕ → Num
  age_of r now = number.sub (number.decimal now 0) (p.to_number (get r "timestamp"))

  -- More than 300 seconds in the future.
  abbrev pub future_dated : Num → Bool
  future_dated age =
      number.lt age (number.decimal 0 0)
      && number.lt (number.decimal 300_000 0) (number.sub (number.decimal 0 0) age)

  unfoldable pub validate_fields : Fields Num → ℕ → TtpStore Num → Option ValidationError
  validate_fields r now store =
      if not (strict_eq (get r "ttp_version") (some (str "1.0")))
      then some (record { status = 400; code = "UNSUPPORTED_VERSION" })
      else if any (λ key. not (is_some (get r key))) required_fields
      then some (record { status = 400; code = "INVALID_SCHEMA" })
      else if score_out_of_range (get r "score")
      then some (record { status = 400; code = "SCORE_OUT_OF_RANGE" })
      else if future_dated (age_of r now)
      then some (record { status = 400; code = "RECEIPT_FUTURE_DATED" })
      else if number.lt (number.decimal 86_400_000 0) (age_of r now)
      then some (record { status = 400; code = "RECEIPT_TOO_OLD" })
      else if not (is_some (issuer_of (get r "issuer_id") store))
      then some (record { status = 401; code = "ISSUER_NOT_REGISTERED" })
      else none

  -- Deduplicates and stores a receipt.
  unfoldable pub keep_receipt : ℕ → Fields Num → TtpStore Num → Reply Num × TtpStore Num
  keep_receipt now r store =
      if is_receipt_duplicate (get r "receipt_id") store
      then (duplicate (get r "receipt_id"), store)
      else (
        accepted (get r "receipt_id"),
        store_receipt h now (set "accepted_at" (num (number.decimal now 0)) r) store,
      )

  unfoldable pub submit_valid :
      ℕ → Fields Num → Option (RegisteredIssuer Num) → TtpStore Num → Reply Num × TtpStore Num
  submit_valid now r none store = (refused 401 "ISSUER_NOT_REGISTERED", store)
  submit_valid now r (some issuer) store =
      if not (verify_receipt_signature r issuer.public_key)
      then (refused 400 "INVALID_SIGNATURE", store)
      else keep_receipt now r store

  -- `POST /v1/receipts`
  unfoldable pub submit_receipt : ℕ → Option (Json Num) → TtpStore Num → Reply Num × TtpStore Num
  submit_receipt now (some (obj r)) store = elim (validate_fields r now store) [
    | some error ↦ (refused error.status error.code, store)
    | none ↦ submit_valid now r (issuer_of (get r "issuer_id") store) store
  ]
  submit_receipt now (some (arr _)) store = (refused 400 "UNSUPPORTED_VERSION", store)
  submit_receipt now _ store = (refused 400 "INVALID_SCHEMA", store)

  -- The receipts of a batch, in turn.
  unfoldable pub submit_each : ℕ → Items Num → TtpStore Num → List (Reply Num) × TtpStore Num
  submit_each now nil store = ([], store)
  submit_each now (cons r rest) store =
      let (reply, store') = submit_receipt now (some r) store in
      let (replies, store'') = submit_each now rest store' in (reply ∷ replies, store'')

  abbrev pub count : Items Num → ℕ
  count nil = 0
  count (cons _ rest) = ℕ.suc (count rest)

  -- `POST /v1/receipts/batch`; `none` is a batch that is refused as a whole.
  unfoldable pub submit_batch :
      ℕ → Option (Json Num) → TtpStore Num → Option (List (Reply Num)) × TtpStore Num
  submit_batch now (some (arr (cons r rest))) store =
      let (replies, store') = submit_each now (cons r rest) store in
      if ltb 100 (count (cons r rest)) then (none, store) else (some replies, store')
  submit_batch now _ store = (none, store)

  -- The claims of a token that is decoded, its signature unread: score, subject and expiry in seconds.
  pub record Claims : Type 0 where
    pub score : Json Num
    pub subject : Json Num
    pub expires : Json Num

  abbrev pub claims_of : Option (Json Num) → Option Claims
  claims_of payload = pick (get? payload "ttp_score") (get? payload "sub") (get? payload "exp")
    where
      pick : Option (Json Num) → Option (Json Num) → Option (Json Num) → Option Claims
      pick (some score) (some subject) (some expires) =
          if truthy (some score) && truthy (some subject) && truthy (some expires)
          then some (record { score = score; subject = subject; expires = expires })
          else none
      pick _ _ _ = none

  abbrev pub has_expired : Claims → ℕ → Bool
  has_expired c now =
      number.lt (number.mul (p.to_number (some c.expires)) (number.decimal 1_000 0))
        (number.decimal now 0)

  abbrev pub unconfirmed : Outside Num → RegisteredIssuer Num → Fields Num → Num → Bool
  unconfirmed outside issuer r score = elim issuer.confirmation_url [
    | none ↦ false
    | some url ↦ not (url == "") && not (outside.confirms url r score)
  ]

  -- The tests of a peer receipt that is well-formed; `payload` is what the attester's token decodes to.
  unfoldable pub submit_peer_valid :
      Outside Num
      → Fields Num
      → Option (Json Num)
      → Option (RegisteredIssuer Num)
      → TtpStore Num
      → Reply Num × TtpStore Num
  submit_peer_valid outside r payload none store = (refused 401 "ISSUER_NOT_REGISTERED", store)
  submit_peer_valid outside r payload (some issuer) store =
      if not (strict_eq (get r "event_type") (some (str "agent_peer_observation")))
      then (refused 400 "INVALID_EVENT_TYPE", store)
      else if not (is_peer issuer.issuer_type)
      then (refused 403 "PEER_ATTESTER_INELIGIBLE", store)
      else if not (verify_receipt_signature r issuer.public_key)
      then (refused 400 "INVALID_SIGNATURE", store)
      else elim (claims_of payload) [
        | none ↦ (refused 400 "INVALID_REQUEST", store)
        | some c ↦
            let score = p.to_number (some c.score) in
            if has_expired c outside.now
            then (refused 403 "PEER_ATTESTER_INELIGIBLE", store)
            else if not (strict_eq (some c.subject) (get r "issuer_id"))
            then (refused 403 "PEER_ATTESTER_INELIGIBLE", store)
            else if number.lt score (or_else issuer.min_attester_score (number.decimal 9 1))
            then (refused 403 "PEER_ATTESTER_INELIGIBLE", store)
            else if unconfirmed outside issuer r score
            then (refused 403 "PEER_CONFIRMATION_DENIED", store)
            else keep_receipt outside.now r store
      ]

  unfoldable pub submit_peer_object :
      Outside Num → Json Num → Option (Json Num) → TtpStore Num → Reply Num × TtpStore Num
  submit_peer_object outside (obj r) payload store = elim (validate_fields r outside.now store) [
    | some error ↦ (refused error.status error.code, store)
    | none ↦ submit_peer_valid outside r payload (issuer_of (get r "issuer_id") store) store
  ]
  submit_peer_object outside (arr _) payload store = (refused 400 "UNSUPPORTED_VERSION", store)
  submit_peer_object outside _ payload store = (refused 400 "INVALID_SCHEMA", store)

  -- `POST /v1/peer-receipts`, with a receipt and the attester's token.
  unfoldable pub submit_peer_receipt :
      Outside Num → Option (Json Num) → Option (Json Num) → TtpStore Num → Reply Num × TtpStore Num
  submit_peer_receipt outside (some receipt) (some token) store =
      if not (truthy (some receipt)) || not (truthy (some token))
      then (refused 400 "INVALID_REQUEST", store)
      else submit_peer_object outside receipt (h.decode_claims token) store
  submit_peer_receipt outside _ _ store = (refused 400 "INVALID_REQUEST", store)
