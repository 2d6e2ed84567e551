-- ===== src/Authority/Accepts.antt =====
-- When the effect boundary of packages/pctr/src/authority.mjs allows an execution.
use ttp_protocol.Common.{
  ◌≡◌, refl, ◌↔◌, Bool, true, false, not, ◌&&◌, Option, none, some, List, [], ◌∷◌, arith, Numbers,
  fail_if, is_some, append-eq-nil, fail_unless-nil_iff, fail_if-nil_iff, eq_iff,
}
use ttp_protocol.Json.{obj, Platform, hash_obj}
use ttp_protocol.Json.Values.{get, strict_eq}
use ttp_protocol.Signing.{Crypto, verify_hash}
use ttp_protocol.Authority.{
  Authority, Execution, Options, Store, Failure, verifying_key, identity_matches, pinned_key,
  signed_key_id, unlisted, signature_failures, signer_failures, seen, all_failures, signer_verified,
  conclude, verify_authority, signer_key_id_mismatch, untrusted_signer, binding_hash_mismatch,
  replayed,
}
use ttp_protocol.Authority.Groups.{
  IsTimely, IsRequested, time_failures-IsTimely, IsTimely-time_failures, request_failures-nil_iff,
}
use ttp_protocol.Authority.Parameters.{AreAuthorized, parameter_failures-nil_iff}

module _ {Num Key : Type 0} ⦃number : Numbers Num⦄ (p : Platform Num) (c : Crypto Key) where
  -- The signature verifies under a key that the verifier pinned, and whose own id is the signed one.
  pub record IsSigned (o : Options Num Key) (a : Authority Num Key) : Type 0 where
    pub key : Key
    pub used : verifying_key p c o a ≡ some key
    pub identity : identity_matches p c (some key) (get a.envelope "keyId") ≡ true
    pub verified : verify_hash c a.binding_hash a.signature key ≡ true
    pub same_key : strict_eq (signed_key_id p c a.signature) (get a.envelope "keyId") ≡ true
    pub listed : unlisted p c o.trusted_key_ids (get a.envelope "keyId") ≡ false
    pub pinned : pinned_key p c o (some key) ≡ true

  signature_failures-nil_iff :
      (key : Key) (a : Authority Num Key)
      → (signature_failures p c (some key) a ≡ []) ↔ (
          (verify_hash c a.binding_hash a.signature key ≡ true)
          × (strict_eq (signed_key_id p c a.signature) (get a.envelope "keyId") ≡ true))
  unfolding signature_failures
  signature_failures-nil_iff key a = ground arith

  no_signature : (a : Authority Num Key) → signature_failures p c none a ≡ [] → ⊥
  unfolding signature_failures
  no_signature a h = cc

  IsSigned-by :
      (o : Options Num Key) (a : Authority Num Key) (k : Option Key)
      → verifying_key p c o a ≡ k
      → fail_if
          (is_some k && not (identity_matches p c k (get a.envelope "keyId")))
          signer_key_id_mismatch
        ≡ []
      → signature_failures p c k a ≡ []
      → unlisted p c o.trusted_key_ids (get a.envelope "keyId") ≡ false
      → pinned_key p c o k ≡ true
      → IsSigned o a
  IsSigned-by o a none e h f l q = absurd (no_signature a f)
  IsSigned-by o a (some key) e h f l q = record {
    key = key;
    used = e;
    identity = (fail_unless-nil_iff _ signer_key_id_mismatch).0 h;
    verified = ((signature_failures-nil_iff key a).0 f).0;
    same_key = ((signature_failures-nil_iff key a).0 f).1;
    listed = l;
    pinned = q;
  }

  signer_failures-IsSigned :
      (o : Options Num Key) (a : Authority Num Key) → signer_failures p c o a ≡ [] → IsSigned o a
  unfolding signer_failures
  signer_failures-IsSigned o a h =
      let (identity, h₁) = append-eq-nil _ _ h in
      let (signature, h₂) = append-eq-nil _ _ h₁ in
      let (listed, pinned) = append-eq-nil _ _ h₂ in
      IsSigned-by o a (verifying_key p c o a) refl identity signature
        ((fail_if-nil_iff _ untrusted_signer).0 listed)
        ((fail_unless-nil_iff _ untrusted_signer).0 pinned)

  IsSigned-signer_failures :
      (o : Options Num Key) (a : Authority Num Key) → IsSigned o a → signer_failures p c o a ≡ []
  unfolding signer_failures
  IsSigned-signer_failures o a s =
      rw
        (
          s.used,
          s.identity,
          (signature_failures-nil_iff s.key a).1 (s.verified, s.same_key),
          s.listed,
          s.pinned,
        )
        refl

  -- What an accepted authority guarantees of the execution.
  pub record IsAccepted (o : Options Num Key) (e : Execution Num) (a : Authority Num Key)
      (store : Store Num) : Type 0 where
    pub unaltered : hash_obj ⦃p = p⦄ (obj a.envelope) ≡ a.binding_hash
    pub signed : IsSigned o a
    pub timely :
        IsTimely
          (p.parse_date (get a.envelope "issuedAt"))
          (p.parse_date (get a.envelope "expiresAt"))
          (p.parse_date (some o.now))
    pub requested : IsRequested e a.envelope
    pub authorized : AreAuthorized p e a.envelope
    pub unspent : seen store (get a.envelope "nonce") ≡ false

  module _ (o : Options Num Key) (e : Execution Num) (a : Authority Num Key)
      (store : Store Num) where
    all_failures-IsAccepted : all_failures p c o e a store ≡ [] → IsAccepted o e a store
    unfolding all_failures
    all_failures-IsAccepted h =
        let (hash, h₁) = append-eq-nil _ _ h in
        let (signer, h₂) = append-eq-nil _ _ h₁ in
        let (time, h₃) = append-eq-nil _ _ h₂ in
        let (request, h₄) = append-eq-nil _ _ h₃ in
        let (parameters, replay) = append-eq-nil _ _ h₄ in
        record {
          unaltered = (eq_iff _ _).0 ((fail_unless-nil_iff _ binding_hash_mismatch).0 hash);
          signed = signer_failures-IsSigned o a signer;
          timely = time_failures-IsTimely _ _ _ time;
          requested = (request_failures-nil_iff e a.envelope).0 request;
          authorized = (parameter_failures-nil_iff p e a.envelope).0 parameters;
          unspent = (fail_if-nil_iff _ replayed).0 replay;
        }

    pub IsAccepted-all_failures : IsAccepted o e a store → all_failures p c o e a store ≡ []
    unfolding all_failures
    IsAccepted-all_failures h =
        rw
          (
            (fail_unless-nil_iff _ binding_hash_mismatch).1 ((eq_iff _ _).1 h.unaltered),
            IsSigned-signer_failures o a h.signed,
            IsTimely-time_failures _ _ _ h.timely,
            (request_failures-nil_iff e a.envelope).1 h.requested,
            (parameter_failures-nil_iff p e a.envelope).1 h.authorized,
            h.unspent,
          )
          refl

    conclude-allowed :
        (fs : List Failure) (v : Bool) → ((conclude p c fs v).allowed ≡ true) ↔ (fs ≡ [])
    unfolding conclude
    conclude-allowed [] v = ((λ h. refl), (λ h. refl))
    conclude-allowed (f ∷ fs) v = ((λ h. cc), (λ h. cc))

  IsSigned-signer_verified :
      (o : Options Num Key) (a : Authority Num Key) → IsSigned o a → signer_verified p c o a ≡ true
  unfolding signer_verified
  IsSigned-signer_verified o a s = rw (s.used, s.identity, s.pinned)

-- An execution is allowed exactly when the authority's contents hash to its binding, a key that the
-- verifier pinned and whose id is the signed one verifies the signature, now lies in the validity
-- window, action, target and principal are the authorized ones, every parameter is bound or
-- excluded and runs with its authorized text within the limits, a required approval is given, and
-- the nonce is unspent.
pub verify_authority-allowed_iff :
    {Num Key : Type 0} ⦃number : Numbers Num⦄ (p : Platform Num) (c : Crypto Key)
    (o : Options Num Key) (e : Execution Num) (a : Authority Num Key) (store : Store Num)
    → ((verify_authority p c o e (some a) store).0.allowed ≡ true) ↔ IsAccepted p c o e a store
unfolding verify_authority
verify_authority-allowed_iff p c o e a store = (
  λ h. all_failures-IsAccepted p c o e a store ((conclude-allowed p c o e a store _ _).0 h),
  λ k. (conclude-allowed p c o e a store _ _).1 (IsAccepted-all_failures p c o e a store k),
)

-- An allowed execution always has a verified signer, and its verdict never carries the warning of
-- an unpinned key.
pub allowed-signer_verified :
    {Num Key : Type 0} ⦃number : Numbers Num⦄ (p : Platform Num) (c : Crypto Key)
    (o : Options Num Key) (e : Execution Num) (a : Authority Num Key) (store : Store Num)
    → (verify_authority p c o e (some a) store).0.allowed ≡ true
    → ((verify_authority p c o e (some a) store).0.signer_verified ≡ some true)
      × ((verify_authority p c o e (some a) store).0.warns_unpinned ≡ false)
unfolding verify_authority conclude
allowed-signer_verified p c o e a store h =
    let accepted = (verify_authority-allowed_iff p c o e a store).0 h in
    rw
      (
        IsAccepted-all_failures p c o e a store accepted,
        IsSigned-signer_verified p c o a accepted.signed,
      )
      (refl, refl)
