-- ===== src/Receipt/Tests.antt =====
-- A chain of three receipts on the toy platform, and the theorems on chains at it.
use ttp_protocol.Common.{
  ◌≡◌, ◌≢◌, ◌↔◌, refl, String, true, false, ℕ, none, some, [], ◌∷◌, millionths, arith, eq_iff, ap,
  ◌==◌,
}
use ttp_protocol.Json.{Json, null, str, num, end, field, obj, hash_obj, join, canonicalize, insert}
use ttp_protocol.Json.Tests.{toy_platform, by_code}
use ttp_protocol.Signing.{sign_hash, verify_hash, key_id_for}
use ttp_protocol.Authority.{identity_matches}
use ttp_protocol.Authority.Tests.{toy_crypto, signer}
use ttp_protocol.Receipt.{
  Receipt, Options, time_invalid, signer_verified, signature_failures, failures_of, verify_receipt,
  chain_failures, chain_valid,
}
use ttp_protocol.Receipt.Chain.{IsChain, chain_valid_iff, dropped_receipt_detected}

abbrev receipt : ℕ → Json ℕ → Receipt ℕ String
receipt n prior =
    let payload = field "n" (num n) (
      field "issuedAt" (str "1")
        (field "keyId" (str "ed25519:7") (field "priorReceiptHash" prior end))) in
    let hash = hash_obj ⦃p = toy_platform⦄ (obj payload) in
    record {
      payload = payload;
      receipt_hash = hash;
      signature = some (sign_hash toy_crypto hash signer);
      signer_public_key = some "7";
    }

abbrev one : Receipt ℕ String
one = receipt 1 null

abbrev two : Receipt ℕ String
two = receipt 2 (str one.receipt_hash)

abbrev three : Receipt ℕ String
three = receipt 3 (str two.receipt_hash)

abbrev options : Options ℕ String
options = record { public_key = some "7"; trusted_key_ids = none; now = str "11" }

whole :
    chain_valid ⦃number = millionths⦄ toy_platform toy_crypto options (one ∷ two ∷ three ∷ [])
    ≡ true
unfolding chain_valid chain_failures verify_receipt failures_of signature_failures signer_verified
    time_invalid hash_obj join canonicalize insert by_code sign_hash verify_hash key_id_for
    identity_matches
whole = refl

text_of : Json ℕ → String
text_of (str s) = s
text_of _ = ""

apart : (a b : String) → (a == b) ≡ false → a ≢ b
apart a b h = λ e. absurd (ground (arith, eq_iff a b))

differs : ◌≢◌ {A = Json ℕ} (str one.receipt_hash) (str two.receipt_hash)
unfolding text_of hash_obj canonicalize join insert by_code
differs e = apart one.receipt_hash two.receipt_hash refl (ap text_of e)

chain_valid_iff_example :
    (chain_valid ⦃number = millionths⦄ toy_platform toy_crypto options (one ∷ two ∷ three ∷ [])
      ≡ true)
    ↔ IsChain ⦃number = millionths⦄ toy_platform toy_crypto options null (one ∷ two ∷ three ∷ [])
chain_valid_iff_example =
    chain_valid_iff ⦃number = millionths⦄ toy_platform toy_crypto options (one ∷ two ∷ three ∷ [])

-- The second of three receipts is dropped.
dropped_receipt_detected_example :
    chain_valid ⦃number = millionths⦄ toy_platform toy_crypto options (one ∷ three ∷ []) ≡ false
dropped_receipt_detected_example =
    dropped_receipt_detected ⦃number = millionths⦄ toy_platform toy_crypto options (one ∷ []) two
      three [] whole differs
