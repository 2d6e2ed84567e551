-- ===== src/Authority.antt =====
-- packages/pctr/src/authority.mjs: what is authorized is bound to one exact execution, and the
-- effect boundary verifies it. `Accepts` says what an accepted authority guarantees, `Replay` that
-- none is accepted twice, `Issue` issues one and `RoundTrip` verifies it.
pub mod Groups
pub mod Parameters
pub mod Accepts
pub mod Replay
pub mod Issue
pub mod RoundTrip
pub mod Tests
use ttp_protocol.Common.{
  String, Bool, true, false, not, ◌&&◌, ◌||◌, ℕ, leb, ltb, Option, none, some, List, [], ◌∷◌, ◌++◌,
  if◌then◌else◌, or_else, is_some, any, all, includes, fail_if, fail_each, is_empty, ◌==◌, opt_eq,
  Numbers,
}
use ttp_protocol.Json.{Json, null, str, arr, Fields, end, field, obj, Platform, hash_obj}
use ttp_protocol.Json.Values.{get, get?, keys, fields_of, items_list, strict_eq, truthy}
use ttp_protocol.Signing.{Crypto, Signature, key_id_for, verify_hash}

-- The `code` of a failure, and the parameter that its message names.
pub data Failure : Type 0 where
  authority_missing binding_hash_mismatch signer_key_id_mismatch signature_invalid : Failure
  signer_mismatch untrusted_signer time_invalid expired not_yet_valid action_mismatch : Failure
  target_mismatch principal_mismatch invalid_constraints approval_missing replayed : Failure
  unbound_parameter parameter_mismatch constraint_exceeded : String → Failure

-- A presented authority: what was signed, as it came in, beside the hash, signature and key.
pub record Authority (Num Key : Type 0) : Type 0 where
  pub envelope : Fields Num
  pub binding_hash : String
  pub signature : Option (Signature Num)
  pub signer_public_key : Option Key

-- What is about to run.
pub record Execution (Num : Type 0) : Type 0 where
  pub action : String
  pub target : String
  pub principal : Option String
  pub params : Fields Num
  pub approval : Option (Json Num)

-- The options of `verifyAuthority`, but for the replay store. A key is no empty string.
pub record Options (Num Key : Type 0) : Type 0 where
  pub now : Json Num
  pub public_key : Option Key
  pub trusted_key_ids : Option (List String)

pub record Verdict : Type 0 where
  pub allowed : Bool
  pub failures : List Failure
  -- Absent where no authority was presented.
  pub signer_verified : Option Bool
  pub warns_unpinned : Bool

-- A replay store: the nonces spent so far, `none` where no store is given.
abbrev pub Store : Type 0 → Type 0
Store Num = Option (List (Option (Json Num)))

module _ {Num Key : Type 0} ⦃number : Numbers Num⦄ (p : Platform Num) (c : Crypto Key) where
  -- `publicKey ?? signerPublicKey`
  abbrev pub verifying_key : Options Num Key → Authority Num Key → Option Key
  verifying_key o a = elim o.public_key [ some key ↦ some key | none ↦ a.signer_public_key ]

  -- `derivedKeyId`, null where there is no key or its id cannot be derived.
  abbrev pub derived_id : Option Key → Option String
  derived_id none = none
  derived_id (some key) = key_id_for p c key

  abbrev pub id_value : Option String → Option (Json Num)
  id_value none = some null
  id_value (some id) = some (str id)

  abbrev pub lists : Option (List String) → Option String → Bool
  lists (some ids) (some id) = includes ids id
  lists _ _ = false

  -- `trustedKeyIds.includes(value)`
  abbrev pub lists_value : List String → Option (Json Num) → Bool
  lists_value ids (some (str id)) = includes ids id
  lists_value ids _ = false

  unfoldable pub pinned_key : Options Num Key → Option Key → Bool
  pinned_key o key = is_some o.public_key || lists o.trusted_key_ids (derived_id key)

  unfoldable pub identity_matches : Option Key → Option (Json Num) → Bool
  identity_matches key claimed = strict_eq (id_value (derived_id key)) claimed

  abbrev pub signed_key_id : Option (Signature Num) → Option (Json Num)
  signed_key_id none = none
  signed_key_id (some s) = s.key_id

  unfoldable pub signature_failures : Option Key → Authority Num Key → List Failure
  signature_failures none a = signature_invalid ∷ []
  signature_failures (some key) a =
      if verify_hash c a.binding_hash a.signature key
      then fail_if (not (strict_eq (signed_key_id a.signature) (get a.envelope "keyId")))
          signer_mismatch
      else signature_invalid ∷ []

  abbrev pub unlisted : Option (List String) → Option (Json Num) → Bool
  unlisted none claimed = false
  unlisted (some ids) claimed = not (lists_value ids claimed)

  unfoldable pub signer_failures : Options Num Key → Authority Num Key → List Failure
  signer_failures o a =
      let key = verifying_key o a in
      let claimed = get a.envelope "keyId" in
      fail_if (is_some key && not (identity_matches key claimed)) signer_key_id_mismatch
      ++ (signature_failures key a
          ++ (fail_if (unlisted o.trusted_key_ids claimed) untrusted_signer
              ++ fail_if (not (pinned_key o key)) untrusted_signer))

-- The window of validity, once the three times are known.
unfoldable pub window_failures : ℕ → ℕ → ℕ → List Failure
window_failures issued expires now =
    if leb expires issued
    then time_invalid ∷ []
    else fail_if (leb expires now) expired ++ fail_if (ltb now issued) not_yet_valid

unfoldable pub time_failures : Option ℕ → Option ℕ → Option ℕ → List Failure
unfolding window_failures
time_failures (some issued) (some expires) (some now) = window_failures issued expires now
time_failures _ _ _ = time_invalid ∷ []

module _ {Num : Type 0} ⦃number : Numbers Num⦄ where
  abbrev pub wrong_principal : Option String → Option (Json Num) → Bool
  wrong_principal none bound = false
  wrong_principal (some who) bound = not (who == "") && not (strict_eq (some (str who)) bound)

  unfoldable pub request_failures : Execution Num → Fields Num → List Failure
  request_failures e envelope =
      fail_if (not (strict_eq (some (str e.action)) (get envelope "action"))) action_mismatch
      ++ (fail_if (not (strict_eq (some (str e.target)) (get envelope "target"))) target_mismatch
          ++ fail_if (wrong_principal e.principal (get envelope "principal")) principal_mismatch)

  abbrev pub is_text : Json Num → Bool
  is_text (str _) = true
  is_text _ = false

  -- `constraints?.nonMaterialParams ?? []`, where an array; `none` otherwise.
  abbrev pub exclusions_of : Option (Json Num) → Option (List (Json Num))
  exclusions_of none = some []
  exclusions_of (some null) = some []
  exclusions_of (some (arr xs)) = some (items_list xs)
  exclusions_of (some _) = none

  -- The exclusions are an array of strings.
  abbrev pub well_formed : Option (List (Json Num)) → Bool
  well_formed none = false
  well_formed (some xs) = all is_text xs

  -- `Array.isArray(signedNonmaterial) && signedNonmaterial.includes(key)`
  abbrev pub excludes : Option (List (Json Num)) → String → Bool
  excludes none key = false
  excludes (some xs) key = any (λ v. strict_eq (some v) (some (str key))) xs

module _ {Num : Type 0} ⦃number : Numbers Num⦄ (p : Platform Num) where
  -- `deepEqual`: equality of the texts; undefined has none.
  abbrev pub text_of : Option (Json Num) → Option String
  text_of none = none
  text_of (some v) = some (p.stringify v)

  unfoldable pub deep_equal : Option (Json Num) → Option (Json Num) → Bool
  deep_equal a b = opt_eq (text_of a) (text_of b)

  unfoldable pub unbound_failures :
      Fields Num → Option (List (Json Num)) → Fields Num → List Failure
  unbound_failures material excluded params =
      fail_each
        (λ key.
          fail_if (not (is_some (get material key)) && not (excludes excluded key))
            (unbound_parameter key))
        (keys params)

  -- `executed[key]` is the parameter itself: `selectMaterial` keeps every key of the material ones.
  unfoldable pub mismatch_failures : Fields Num → Fields Num → List Failure
  mismatch_failures params end = []
  mismatch_failures params (field key value rest) =
      fail_if (not (deep_equal (get params key) (some value))) (parameter_mismatch key)
      ++ mismatch_failures params rest

  unfoldable pub limit_failures : Fields Num → Fields Num → List Failure
  limit_failures params end = []
  limit_failures params (field key limit rest) =
      fail_if (number.lt (p.to_number (some limit)) (p.to_number (get params key)))
        (constraint_exceeded key)
      ++ limit_failures params rest

  unfoldable pub parameter_failures : Execution Num → Fields Num → List Failure
  parameter_failures e envelope =
      let material = fields_of (get envelope "materialParams") in
      let constraints = get envelope "constraints" in
      let excluded = exclusions_of (get? constraints "nonMaterialParams") in
      fail_if (not (well_formed excluded)) invalid_constraints
      ++ (unbound_failures material excluded e.params
          ++ (mismatch_failures e.params material
              ++ (limit_failures e.params (fields_of (get? constraints "max"))
                  ++ fail_if
                      (truthy (get? constraints "requiresApproval") && not (truthy e.approval))
                      approval_missing)))

module _ {Num : Type 0} ⦃number : Numbers Num⦄ where
  abbrev pub spent_nonce : List (Option (Json Num)) → Option (Json Num) → Bool
  spent_nonce spent nonce = any (λ n. strict_eq n nonce) spent

  -- `replayStore?.seen(nonce)` and `replayStore?.spend(nonce)`
  unfoldable pub seen : Store Num → Option (Json Num) → Bool
  seen none _ = false
  seen (some spent) nonce = spent_nonce spent nonce

  unfoldable pub spend : Store Num → Option (Json Num) → Store Num
  spend none _ = none
  spend (some spent) nonce = some (if spent_nonce spent nonce then spent else spent ++ nonce ∷ [])

module _ {Num Key : Type 0} ⦃number : Numbers Num⦄ (p : Platform Num) (c : Crypto Key) where
  unfoldable pub all_failures :
      Options Num Key → Execution Num → Authority Num Key → Store Num → List Failure
  all_failures o e a store =
      fail_if (not (hash_obj ⦃p = p⦄ (obj a.envelope) == a.binding_hash)) binding_hash_mismatch
      ++ (signer_failures p c o a
          ++ (time_failures (p.parse_date (get a.envelope "issuedAt"))
                (p.parse_date (get a.envelope "expiresAt")) (p.parse_date (some o.now))
              ++ (request_failures e a.envelope
                  ++ (parameter_failures p e a.envelope
                      ++ fail_if (seen store (get a.envelope "nonce")) replayed))))

  unfoldable pub signer_verified : Options Num Key → Authority Num Key → Bool
  signer_verified o a =
      identity_matches p c (verifying_key p c o a) (get a.envelope "keyId")
      && pinned_key p c o (verifying_key p c o a)

  unfoldable pub conclude : List Failure → Bool → Verdict
  conclude [] verified = record {
    allowed = true;
    failures = [];
    signer_verified = some verified;
    warns_unpinned = not verified;
  }
  conclude (f ∷ fs) verified = record {
    allowed = false;
    failures = f ∷ fs;
    signer_verified = some verified;
    warns_unpinned = false;
  }

  -- The verdict, and the replay store after it.
  unfoldable pub verify_authority :
      Options Num Key → Execution Num → Option (Authority Num Key) → Store Num → Verdict × Store Num
  unfolding conclude
  verify_authority o e none store = (
    record {
      allowed = false;
      failures = authority_missing ∷ [];
      signer_verified = none;
      warns_unpinned = false;
    },
    store,
  )
  verify_authority o e (some a) store =
      let failures = all_failures o e a store in
      (
        conclude failures (signer_verified o a),
        if is_empty failures then spend store (get a.envelope "nonce") else store,
      )
