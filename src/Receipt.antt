-- ===== src/Receipt.antt =====
-- packages/pctr/src/receipt.mjs: a receipt of an execution is verified alone, or in a chain in which
-- each names the hash of the one before. `Chain` holds the proofs.
pub mod Chain
pub mod Tests
use ttp_protocol.Common.{
  String, Bool, true, false, not, ◌&&◌, ◌||◌, ℕ, leb, Option, none, some, List, [], ◌∷◌, ◌++◌,
  if◌then◌else◌, is_some, fail_if, is_empty, length, ◌==◌, Numbers,
}
use ttp_protocol.Json.{Json, null, str, Fields, obj, Platform, hash_obj}
use ttp_protocol.Json.Values.{get, get?, strict_eq, truthy}
use ttp_protocol.Signing.{Crypto, Signature, verify_hash}
use ttp_protocol.Authority.{derived_id, identity_matches, signed_key_id, lists, unlisted}

pub data Failure : Type 0 where
  receipt_missing receipt_hash_mismatch signer_key_id_mismatch signature_invalid : Failure
  signer_mismatch untrusted_signer receipt_time_invalid chain_broken : Failure
  executed_without_authority : Failure

pub record Receipt (Num Key : Type 0) : Type 0 where
  pub payload : Fields Num
  pub receipt_hash : String
  pub signature : Option (Signature Num)
  pub signer_public_key : Option Key

-- The options, but for `priorReceiptHash`.
pub record Options (Num Key : Type 0) : Type 0 where
  pub public_key : Option Key
  pub trusted_key_ids : Option (List String)
  pub now : Json Num

pub record Verdict : Type 0 where
  pub valid : Bool
  pub signer_verified : Bool
  pub failures : List Failure
  pub warns_unpinned : Bool

-- `![issuedMs, checkedAtMs].every(Number.isFinite) || issuedMs > checkedAtMs`
unfoldable pub time_invalid : Option ℕ → Option ℕ → Bool
time_invalid (some issued) (some now) = not (leb issued now)
time_invalid _ _ = true

module _ {Num Key : Type 0} ⦃number : Numbers Num⦄ (p : Platform Num) (c : Crypto Key) where
  -- `publicKey ?? signerPublicKey`
  abbrev pub verifying_key : Options Num Key → Receipt Num Key → Option Key
  verifying_key o r = elim o.public_key [ some key ↦ some key | none ↦ r.signer_public_key ]

  unfoldable pub signer_verified : Options Num Key → Receipt Num Key → Bool
  signer_verified o r =
      let key = verifying_key o r in
      identity_matches p c key (get r.payload "keyId")
      && (is_some o.public_key || lists p c o.trusted_key_ids (derived_id p c key))

  unfoldable pub signature_failures : Option Key → Receipt Num Key → List Failure
  signature_failures none r = signature_invalid ∷ []
  signature_failures (some key) r =
      if verify_hash c r.receipt_hash r.signature key
      then fail_if (not (strict_eq (signed_key_id p c r.signature) (get r.payload "keyId")))
          signer_mismatch
      else signature_invalid ∷ []

  abbrev pub breaks_chain : Option (Json Num) → Option (Json Num) → Bool
  breaks_chain none claimed = false
  breaks_chain (some prior) claimed = not (strict_eq claimed (some prior))

  unfoldable pub failures_of : Options Num Key → Option (Json Num) → Receipt Num Key → List Failure
  failures_of o prior r =
      let key = verifying_key o r in
      let claimed = get r.payload "keyId" in
      fail_if (not (hash_obj ⦃p = p⦄ (obj r.payload) == r.receipt_hash)) receipt_hash_mismatch
      ++ (fail_if (is_some key && not (identity_matches p c key claimed)) signer_key_id_mismatch
          ++ (signature_failures key r
              ++ (fail_if (unlisted p c o.trusted_key_ids claimed) untrusted_signer
                  ++ (fail_if
                        (time_invalid (p.parse_date (get r.payload "issuedAt"))
                          (p.parse_date (some o.now)))
                        receipt_time_invalid
                      ++ (fail_if (breaks_chain prior (get r.payload "priorReceiptHash"))
                            chain_broken
                          ++ fail_if
                              (truthy (get r.payload "executed")
                                && not (
                                    strict_eq (get? (get r.payload "verifier") "decision")
                                      (some (str "EXECUTION_ALLOWED"))))
                              executed_without_authority)))))

  unfoldable pub verify_receipt :
      Options Num Key → Option (Json Num) → Option (Receipt Num Key) → Verdict
  verify_receipt o prior none = record {
    valid = false;
    signer_verified = false;
    failures = receipt_missing ∷ [];
    warns_unpinned = false;
  }
  verify_receipt o prior (some r) = record {
    valid = is_empty (failures_of o prior r);
    signer_verified = signer_verified o r;
    failures = failures_of o prior r;
    warns_unpinned = is_empty (failures_of o prior r) && not (signer_verified o r);
  }

  -- The loop of `verifyReceiptChain`: the failures of each receipt that is not valid.
  unfoldable pub chain_failures :
      Options Num Key → Json Num → List (Receipt Num Key) → List (List Failure)
  chain_failures o prior [] = []
  chain_failures o prior (r ∷ rs) =
      let result = verify_receipt o (some prior) (some r) in
      fail_if (not result.valid) result.failures ++ chain_failures o (str r.receipt_hash) rs

  -- `verifyReceiptChain(receipts).valid`
  unfoldable pub chain_valid : Options Num Key → List (Receipt Num Key) → Bool
  unfolding chain_failures
  chain_valid o rs = is_empty (chain_failures o null rs)
