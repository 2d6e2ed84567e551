-- ===== src/TrustAuthority/Tests.antt =====
-- Submissions and tokens on a toy platform, and the theorems at them.
use ttp_protocol.Common.{
  ◌≡◌, refl, String, true, false, ℕ, ◌*◌, ◌≤◌, List, ◌++◌, Option, none, some, [], ◌∷◌, millionths,
}
use Prim.Native.Nat.{◌/◌}
use ttp_protocol.Json.{Json, arr, nil, cons, str, num, obj, Fields, Platform}
use ttp_protocol.Json.Values.{fields}
use ttp_protocol.Json.Tests.{by_code}
use ttp_protocol.TrustAuthority.{
  RegisteredIssuer, agent_peer, RegisteredAgent, TtpStore, Host, get_issuer, get_agent,
  change_agent, get_agent_status, quarantine_agent, lift_quarantine, get_receipts,
  is_receipt_duplicate, store_receipt, prune_old_receipts, auto,
}
use ttp_protocol.TrustAuthority.Aggregate.{
  window_receipts, signal_weight, issuer_sums, score_of_sums, aggregate_trust_score,
}
use ttp_protocol.TrustAuthority.Submit.{
  Reply, Outside, accepted, submit_each, submit_batch, submit_peer_receipt,
  receipt_canonical_payload, verify_receipt_signature, validate_fields, keep_receipt, submit_valid,
  submit_receipt, submit_peer_valid, submit_peer_object,
}
use ttp_protocol.TrustAuthority.Issue.{Token, issued, adjust, issue, request_token}
use ttp_protocol.TrustAuthority.Submitted.{idle, step, single, batch, peer, accepted_once}
use ttp_protocol.TrustAuthority.Counts.{acceptances, replies_of}
use ttp_protocol.TrustAuthority.Gaps.{replay_after_prune}
use ttp_protocol.TrustAuthority.Issued.{IsBounded, request_token-IsBounded}

abbrev number_of : Option (Json ℕ) → ℕ
number_of (some (num n)) = n
number_of _ = 0

abbrev platform : Platform ℕ
platform = record {
  quote = λ s. s;
  number_text = λ n. "";
  key_le = by_code;
  sha256_hex = λ s. s;
  stringify = λ v. "";
  to_number = number_of;
  parse_date = λ v. none;
  iso_text = λ n. "";
}

abbrev text_of : Option (Json ℕ) → String
text_of (some (str s)) = s
text_of _ = ""

-- Receipts do not decay, and every signature holds.
abbrev host : Host ℕ
host = record {
  text = text_of;
  divide = λ a b. a * 1_000_000 / b;
  exp = λ n. 1_000_000;
  ln_2 = 0;
  round_3 = λ n. n;
  decode_claims = λ v. none;
  verify = λ signature message key. true;
}

abbrev attester : RegisteredIssuer ℕ
attester = record {
  issuer_id = "peer";
  public_key = "key";
  issuer_type = agent_peer;
  min_attester_score = some 900_000;
  confirmation_url = none;
}

-- An agent that is quarantined.
abbrev agent : RegisteredAgent
agent = record {
  agent_id = "agent";
  api_key = "secret";
  blocked = false;
  blocked_reason = none;
  quarantine_mode = some auto;
  quarantine_reason = none;
  quarantined_at = some 1;
  quarantine_expires_at = none;
}

abbrev store : TtpStore ℕ
store = record { receipts = []; seen = []; issuers = attester ∷ []; agents = agent ∷ [] }

-- A receipt that is dated at millisecond 100_000 or 200_000.
abbrev receipt : ℕ → Fields ℕ
receipt timestamp = fields (
    ("ttp_version", str "1.0")
    ∷ ("receipt_id", str "r1")
    ∷ ("agent_id", str "agent")
    ∷ ("issuer_id", str "peer")
    ∷ ("event_type", str "agent_peer_observation")
    ∷ ("domain", str "web")
    ∷ ("timestamp", num (timestamp * 1_000_000))
    ∷ ("score", num 500_000)
    ∷ ("signature", str "s")
    ∷ [])

runs : Unit {0}
unfolding get_issuer get_agent change_agent get_agent_status quarantine_agent lift_quarantine
    get_receipts is_receipt_duplicate store_receipt prune_old_receipts window_receipts signal_weight
    issuer_sums score_of_sums aggregate_trust_score receipt_canonical_payload
    verify_receipt_signature validate_fields keep_receipt submit_valid submit_receipt submit_each
    submit_batch submit_peer_receipt submit_peer_valid submit_peer_object adjust issue request_token
runs = tt

accepted_first :
    (submit_receipt ⦃number = millionths⦄ platform host 100_000
      (some (obj (receipt 100_000)))
      store).0
    ≡ accepted (some (str "r1"))
unfolding runs
accepted_first = refl

abbrev outside : Outside ℕ
outside = record { now = 100_001; confirms = λ url r score. true }

-- The receipt, a batch of it and a later copy, and the copy with a token.
abbrev body : ℕ → Option (Json ℕ)
body timestamp = some (obj (receipt timestamp))

abbrev after_first : Reply ℕ × TtpStore ℕ
after_first = submit_receipt ⦃number = millionths⦄ platform host 100_000 (body 100_000) store

abbrev after_batch : Option (List (Reply ℕ)) × TtpStore ℕ
after_batch =
    submit_batch ⦃number = millionths⦄ platform host 100_001
      (some (arr (cons (obj (receipt 100_000)) (cons (obj (receipt 100_001)) nil)))) after_first.1

abbrev after_peer : Reply ℕ × TtpStore ℕ
after_peer =
    submit_peer_receipt ⦃number = millionths⦄ platform host outside (body 100_001)
      (some (str "token")) after_batch.1

accepted_once_example :
    acceptances "r1" ((([] ++ after_first.0 ∷ []) ++ replies_of after_batch.0) ++ after_peer.0 ∷ [])
    ≤ 1
accepted_once_example =
    accepted_once ⦃number = millionths⦄ platform host "r1" store after_peer.1 _ (
      step (step (step idle (single 100_000 (body 100_000))) (batch 100_001 _))
        (peer outside (body 100_001) (some (str "token"))))

-- A token whose claims are those of the issuer.
abbrev claims : Fields ℕ
claims = fields (("ttp_score", num 950_000) ∷ ("sub", str "peer") ∷ ("exp", num 1_000_000_000) ∷ [])

abbrev attesting : Host ℕ
attesting = record host { decode_claims = λ v. some (obj claims) }

abbrev attested_call : Reply ℕ × TtpStore ℕ
attested_call =
    submit_peer_receipt ⦃number = millionths⦄ platform attesting outside (body 100_001)
      (some (str "token")) store

abbrev IsValid : (now timestamp : ℕ) → Type 0
IsValid now timestamp =
    validate_fields ⦃number = millionths⦄ platform host (receipt timestamp) now store ≡ none

dated_well : IsValid 100_000 100_000 × (IsValid 100_000 400_000 × IsValid 86_500_001 400_000)
unfolding runs
dated_well = (refl, (refl, refl))

passes :
    (timestamp : ℕ)
    → verify_receipt_signature ⦃number = millionths⦄ platform host (receipt timestamp) "key" ≡ true
unfolding runs
passes timestamp = refl

fresh : is_receipt_duplicate ⦃number = millionths⦄ (some (str "r1")) store ≡ false
unfolding runs
fresh = refl

known : get_issuer "peer" store ≡ some attester
unfolding runs
known = refl

replay_after_prune_example :
    ((submit_receipt ⦃number = millionths⦄ platform host 100_000
        (some (obj (receipt 400_000)))
        store).0
      ≡ accepted (some (str "r1")))
    × ((submit_receipt ⦃number = millionths⦄ platform host 86_500_001
          (some (obj (receipt 400_000)))
          (prune_old_receipts ⦃number = millionths⦄ platform 86_400_000 86_500_001
            (submit_receipt ⦃number = millionths⦄ platform host 100_000
              (some (obj (receipt 400_000)))
              store).1)).0
        ≡ accepted (some (str "r1")))
replay_after_prune_example =
    replay_after_prune ⦃number = millionths⦄ platform host "r1" 100_000 86_500_001 (receipt 400_000)
      store attester refl fresh dated_well.1.0 dated_well.1.1 known (passes 400_000) refl

abbrev with_receipt : TtpStore ℕ
with_receipt = record store { receipts = ("agent:web", receipt 100_000) ∷ [] }

abbrev token : Token ℕ
token = record {
  subject = "agent";
  domain = "web";
  score = 500_000;
  issuer_count = 1;
  quarantine_mode = some auto;
  issued_at = 100;
  expires_at = 160;
}

token_issued :
    (request_token ⦃number = millionths⦄ platform host "agent" "web"
      (some 500)
      (some "secret")
      100_000
      with_receipt).0
    ≡ issued token
unfolding runs
token_issued = refl

request_token-IsBounded_example : IsBounded "agent" (some "secret") with_receipt token
request_token-IsBounded_example =
    request_token-IsBounded ⦃number = millionths⦄ platform host "agent" "web" (some 500)
      (some "secret") 100_000 with_receipt token token_issued
