-- ===== src/Authority/RoundTrip.antt =====
-- An authority that packages/pctr/src/authority.mjs issues is accepted for the execution it names.
use ttp_protocol.Common.{
  ◌≡◌, refl, ◌≢◌, ◌⊎◌, inl, inr, ◌≤◌, ◌<◌, ◌+◌, ◌*◌, ℕ, String, true, false, Option, none, some,
  List, [], ◌∷◌, arith, Numbers, All, is_some, eq_iff, eq_refl,
}
use ttp_protocol.Json.{Json, str, obj, Fields, end, field, Platform, hash_obj}
use ttp_protocol.Json.Values.{get, keys, truthy}
use ttp_protocol.Signing.{Crypto, KeyPair, key_id_for, verify_hash, sign_hash}
use ttp_protocol.Authority.{
  Authority, Execution, Options, Store, verify_authority, seen, pinned_key, identity_matches,
  text_of,
}
use ttp_protocol.Authority.Accepts.{IsAccepted, IsSigned, verify_authority-allowed_iff}
use ttp_protocol.Authority.Parameters.{AreAuthorized, AllFields, IsBound, exclusions}
use ttp_protocol.Authority.Issue.{Issue, select_material, envelope_of, seal, issue_authority}

-- No key stands twice, as in every object.
abbrev pub HasDistinctKeys : {Num : Type 0} → Fields Num → Type 0
HasDistinctKeys end = Unit
HasDistinctKeys (field k v fs) = (get fs k ≡ none) × HasDistinctKeys fs

module _ {Num Key : Type 0} ⦃number : Numbers Num⦄ (p : Platform Num) (c : Crypto Key) where
  -- What is expected of the platform for one key pair: a signature is no empty text, verifies
  -- under the public key, and the id of the pair is that of the key; a printed time reads back.
  pub record IsKeyPair (pair : KeyPair Key) : Type 0 where
    pub verifies :
        (text : String) → c.verify text (c.sign pair.private_key text) pair.public_key ≡ true
    pub nonempty : (text : String) → (c.sign pair.private_key text) ≢ ""
    pub named : key_id_for p c pair.public_key ≡ some pair.key_id

  -- The constraints ask for no choice of parameters, no exclusions and no limits.
  pub record IsPlain (constraints : Fields Num) : Type 0 where
    pub all_material : get constraints "materialParams" ≡ none
    pub no_exclusions : get constraints "nonMaterialParams" ≡ none
    pub no_limits : get constraints "max" ≡ none

  IsBound-self :
      (params fs : Fields Num) (ex : Option (List (Json Num)))
      → All (λ k. is_some (get params k) ≡ true) (keys fs)
      → All (IsBound p params ex) (keys fs)
  IsBound-self params end ex h = tt
  IsBound-self params (field k v fs) ex (h, hs) = (inl h, IsBound-self params fs ex hs)

module _ {Num : Type 0} where
  keys-get_some :
      (k : String) (v : Json Num) (fs : Fields Num) (ks : List String)
      → All (λ j. is_some (get fs j) ≡ true) ks
      → All (λ j. is_some (get (field k v fs) j) ≡ true) ks
  keys-get_some k v fs [] h = tt
  keys-get_some k v fs (j ∷ ks) (h, hs) = (ground arith, keys-get_some k v fs ks hs)

  keys-present : (fs : Fields Num) → All (λ k. is_some (get fs k) ≡ true) (keys fs)
  keys-present end = tt
  keys-present (field k v fs) =
      (ground (arith, eq_refl k), keys-get_some k v fs (keys fs) (keys-present fs))

  fields-get_skip :
      (k : String) (v : Json Num) (fs gs : Fields Num)
      → get fs k ≡ none
      → AllFields (λ j w. get fs j ≡ some w) gs
      → AllFields (λ j w. get (field k v fs) j ≡ some w) gs
  fields-get_skip k v fs end h hs = tt
  fields-get_skip k v fs (field j w gs) h (g, hs) =
      (ground (arith, eq_iff k j), fields-get_skip k v fs gs h hs)

  fields-get : (fs : Fields Num) → HasDistinctKeys fs → AllFields (λ k v. get fs k ≡ some v) fs
  fields-get end h = tt
  fields-get (field k v fs) (new, h) =
      (ground (arith, eq_refl k), fields-get_skip k v fs fs new (fields-get fs h))

module _ {Num Key : Type 0} ⦃number : Numbers Num⦄ (p : Platform Num) (c : Crypto Key) where
  same_texts :
      (params fs : Fields Num)
      → AllFields (λ k v. get params k ≡ some v) fs
      → AllFields (λ k v. text_of p (get params k) ≡ some (p.stringify v)) fs
  same_texts params end h = tt
  same_texts params (field k v fs) (h, hs) = (rw h, same_texts params fs hs)

  sealed-IsSigned :
      (o : Options Num Key) (pair : KeyPair Key) (envelope : Fields Num)
      → IsKeyPair p c pair
      → o.public_key ≡ some pair.public_key
      → o.trusted_key_ids ≡ none
      → get envelope "keyId" ≡ some (str pair.key_id)
      → IsSigned p c o (seal p c envelope pair)
  unfolding seal sign_hash verify_hash identity_matches pinned_key
  sealed-IsSigned o pair envelope k pinned open_list named = record {
    key = pair.public_key;
    used = rw pinned;
    identity = rw (k.named, named) (eq_refl pair.key_id);
    verified = ground (
      arith,
      k.verifies (hash_obj ⦃p = p⦄ (obj envelope)),
      k.nonempty (hash_obj ⦃p = p⦄ (obj envelope)),
      eq_iff (c.sign pair.private_key (hash_obj ⦃p = p⦄ (obj envelope))) "",
    );
    same_key = rw named (eq_refl pair.key_id);
    listed = rw open_list;
    pinned = rw pinned;
  }

  issued-AreAuthorized :
      (i : Issue Num) (e : Execution Num) (x nonce : String) (pair : KeyPair Key)
      → IsPlain p c i.constraints
      → e.params ≡ i.params
      → HasDistinctKeys i.params
      → (truthy (get i.constraints "requiresApproval") ≡ false) ⊎ (truthy e.approval ≡ true)
      → AreAuthorized p e (envelope_of p c i x nonce pair)
  unfolding envelope_of select_material
  issued-AreAuthorized i e x nonce pair plain params distinct approved = record {
    exclusions_well_formed = rw plain.no_exclusions;
    bound =
        rw (plain.all_material, params)
          (IsBound-self p c i.params i.params (exclusions p (envelope_of p c i x nonce pair))
            (keys-present i.params));
    same =
        rw (plain.all_material, params)
          (same_texts i.params i.params (fields-get i.params distinct));
    within_limits = rw plain.no_limits tt;
    approved = approved;
  }

  issued-sealed :
      (i : Issue Num) (nonce : String) (pair : KeyPair Key) (a : Authority Num Key) (issued : ℕ)
      → issue_authority p c i nonce pair ≡ some a
      → p.parse_date (some (str i.issued_at)) ≡ some issued
      → seal p c
          (envelope_of p c i (p.iso_text (issued + i.valid_for_seconds * 1000)) nonce pair)
          pair
        ≡ a
  unfolding issue_authority
  issued-sealed i nonce pair a issued e from = ground arith

  sealed-IsAccepted :
      (i : Issue Num) (nonce : String) (pair : KeyPair Key) (now : Json Num) (who : String)
      (approval : Option (Json Num)) (store : Store Num) (issued at : ℕ)
      → IsKeyPair p c pair
      → ((t : ℕ) → p.parse_date (some (str (p.iso_text t))) ≡ some t)
      → IsPlain p c i.constraints
      → HasDistinctKeys i.params
      → i.principal ≡ str who
      → p.parse_date (some (str i.issued_at)) ≡ some issued
      → p.parse_date (some now) ≡ some at
      → issued ≤ at
      → at < issued + i.valid_for_seconds * 1000
      → (truthy (get i.constraints "requiresApproval") ≡ false) ⊎ (truthy approval ≡ true)
      → seen store (some (str nonce)) ≡ false
      → IsAccepted p c
          (record { now = now; public_key = some pair.public_key; trusted_key_ids = none })
          (record {
            action = i.action;
            target = i.target;
            principal = some who;
            params = i.params;
            approval = approval;
          })
          (seal p c
            (envelope_of p c i (p.iso_text (issued + i.valid_for_seconds * 1000)) nonce pair)
            pair)
          store
  unfolding seal envelope_of
  sealed-IsAccepted i nonce pair now who approval store issued at k clock plain distinct named from
        to begun ends approved fresh =
      record {
        unaltered = refl;
        signed = sealed-IsSigned _ pair _ k refl refl refl;
        timely = record {
          issued_at = issued;
          expires_at = issued + i.valid_for_seconds * 1000;
          at = at;
          issued_known = from;
          expires_known = clock (issued + i.valid_for_seconds * 1000);
          now_known = to;
          begun = begun;
          unexpired = ends;
        };
        requested = record { action = refl; target = refl; principal = inr (rw named) };
        authorized = issued-AreAuthorized i _ _ nonce pair plain refl distinct approved;
        unspent = fresh;
      }

-- An issued authority is accepted for the execution that it names, with the parameters it was
-- issued for, by a verifier that pinned the signing key, at any time in its window of validity,
-- while its nonce is unspent and an approval is given if one is required; provided the constraints
-- choose no parameters and set no limits, the parameters have distinct names, and the platform
-- verifies its own signatures and reads back the times that it prints.
pub verify_authority-issue_authority :
    {Num Key : Type 0} ⦃number : Numbers Num⦄ (p : Platform Num) (c : Crypto Key) (i : Issue Num)
    (nonce : String) (pair : KeyPair Key) (now : Json Num) (who : String)
    (approval : Option (Json Num)) (store : Store Num) (a : Authority Num Key) (issued at : ℕ)
    → IsKeyPair p c pair
    → ((t : ℕ) → p.parse_date (some (str (p.iso_text t))) ≡ some t)
    → IsPlain p c i.constraints
    → HasDistinctKeys i.params
    → i.principal ≡ str who
    → issue_authority p c i nonce pair ≡ some a
    → p.parse_date (some (str i.issued_at)) ≡ some issued
    → p.parse_date (some now) ≡ some at
    → issued ≤ at
    → at < issued + i.valid_for_seconds * 1000
    → (truthy (get i.constraints "requiresApproval") ≡ false) ⊎ (truthy approval ≡ true)
    → seen store (some (str nonce)) ≡ false
    → (verify_authority p c
        (record { now = now; public_key = some pair.public_key; trusted_key_ids = none })
        (record {
          action = i.action;
          target = i.target;
          principal = some who;
          params = i.params;
          approval = approval;
        })
        (some a)
        store).0.allowed
      ≡ true
verify_authority-issue_authority p c i nonce pair now who approval store a issued at k clock plain
      distinct named e from to begun ends approved fresh =
    rw (← issued-sealed p c i nonce pair a issued e from) (
      (verify_authority-allowed_iff p c _ _ _ store).1 (
        sealed-IsAccepted p c i nonce pair now who approval store issued at k clock plain distinct
          named from to begun ends approved fresh))
