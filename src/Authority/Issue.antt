-- ===== src/Authority/Issue.antt =====
-- `issueAuthority` of packages/pctr/src/authority.mjs. The nonce is a random text of the platform.
use ttp_protocol.Common.{String, ℕ, ◌+◌, ◌*◌, Option, none, some, Numbers}
use ttp_protocol.Json.{
  Json, str, num, arr, obj, Items, nil, cons, Fields, end, field, Platform, hash_obj,
}
use ttp_protocol.Json.Values.{get}
use ttp_protocol.Signing.{Crypto, KeyPair, sign_hash}
use ttp_protocol.Authority.{Authority}

-- The argument of `issueAuthority`; `constraints` is an object.
pub record Issue (Num : Type 0) : Type 0 where
  pub principal : Json Num
  pub delegator : Json Num
  pub session : Json Num
  pub action : String
  pub target : String
  pub params : Fields Num
  pub constraints : Fields Num
  pub policy_version : Json Num
  pub consequence : Json Num
  pub route_id : Json Num
  pub route_hash : Json Num
  pub valid_for_seconds : ℕ
  pub issued_at : String

module _ {Num : Type 0} where
  -- `keys.filter((k) => k in params).map((k) => [k, params[k]])`
  abbrev pub add_selected : String → Option (Json Num) → Fields Num → Fields Num
  add_selected k none rest = rest
  add_selected k (some v) rest = field k v rest

  -- A key that is no text names no parameter.
  abbrev pub select_keys : Fields Num → Items Num → Fields Num
  select_keys params nil = end
  select_keys params (cons (str k) ks) = add_selected k (get params k) (select_keys params ks)
  select_keys params (cons _ ks) = select_keys params ks

  -- `materialParams` is an array where it is given; with another value that is not empty the source
  -- throws.
  unfoldable pub select_material : Fields Num → Option (Json Num) → Fields Num
  select_material params (some (arr (cons k ks))) = select_keys params (cons k ks)
  select_material params _ = params

module _ {Num Key : Type 0} ⦃number : Numbers Num⦄ (p : Platform Num) (c : Crypto Key) where
  unfoldable pub envelope_of : Issue Num → String → String → KeyPair Key → Fields Num
  envelope_of i expires_at nonce pair = field "type" (str "TTPExecutionAuthority") (
      field "version" (num (number.decimal 1 0)) (
        field "principal" i.principal (
          field "delegator" i.delegator (
            field "session" i.session (
              field "action" (str i.action) (
                field "target" (str i.target) (
                  field "materialParams"
                    (obj (select_material i.params (get i.constraints "materialParams")))
                    (field "constraints" (obj i.constraints) (
                      field "policyVersion" i.policy_version (
                        field "consequence" i.consequence (
                          field "routeId" i.route_id (
                            field "routeHash" i.route_hash (
                              field "issuedAt" (str i.issued_at) (
                                field "expiresAt" (str expires_at) (
                                  field "nonce" (str nonce)
                                    (field "keyId" (str pair.key_id) end))))))))))))))))

  -- Signs an envelope, with the public key beside it.
  unfoldable pub seal : Fields Num → KeyPair Key → Authority Num Key
  seal envelope pair =
      let hash = hash_obj ⦃p = p⦄ (obj envelope) in
      record {
        envelope = envelope;
        binding_hash = hash;
        signature = some (sign_hash c hash pair);
        signer_public_key = some pair.public_key;
      }

  issue_at : Option ℕ → Issue Num → String → KeyPair Key → Option (Authority Num Key)
  issue_at none i nonce pair = none
  issue_at (some t) i nonce pair =
      some (seal (envelope_of i (p.iso_text (t + i.valid_for_seconds * 1000)) nonce pair) pair)

  -- `none` where `toISOString` throws, because `issuedAt` is no date.
  unfoldable pub issue_authority : Issue Num → String → KeyPair Key → Option (Authority Num Key)
  unfolding issue_at
  issue_authority i nonce pair = issue_at (p.parse_date (some (str i.issued_at))) i nonce pair
