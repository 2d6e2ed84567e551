-- ===== src/Signing.antt =====
-- packages/pctr/src/keys.mjs: key ids and signatures. Ed25519 and the encoding of keys belong to
-- the platform, and are parameters. Reading and writing the key store is not modelled.
use ttp_protocol.Common.{String, Bool, false, not, ◌||◌, Option, none, some, if◌then◌else◌, ◌==◌}
use Prim.Native.String.{◌++◌, slice}
use ttp_protocol.Json.{Json, str, Platform}

pub record Crypto (Key : Type 0) : Type 0 where
  -- The text of a public key, as `exportPublic` gives it; `none` where that throws.
  pub public_text : Key → Option String
  -- `crypto.sign(null, text, privateKey)`, in base64.
  pub sign : Key → String → String
  -- `crypto.verify(null, text, key, signature)`, false where it throws.
  pub verify : String → String → Key → Bool

pub record Signature (Num : Type 0) : Type 0 where
  pub alg : String
  pub key_id : Option (Json Num)
  pub value : String

pub record KeyPair (Key : Type 0) : Type 0 where
  pub private_key : Key
  pub public_key : Key
  pub key_id : String

module _ {Num Key : Type 0} (p : Platform Num) (c : Crypto Key) where
  -- `keyIdFor`, `none` where it throws.
  abbrev pub id_of_text : Option String → Option String
  id_of_text none = none
  id_of_text (some text) = some ("ed25519:" ++ slice (p.sha256_hex text) 0 32)

  unfoldable pub key_id_for : Key → Option String
  key_id_for key = id_of_text (c.public_text key)

module _ {Num Key : Type 0} (c : Crypto Key) where
  unfoldable pub sign_hash : String → KeyPair Key → Signature Num
  sign_hash hash pair = record {
    alg = "ed25519";
    key_id = some (str pair.key_id);
    value = c.sign pair.private_key hash;
  }

  unfoldable pub verify_hash : String → Option (Signature Num) → Key → Bool
  verify_hash hash none key = false
  verify_hash hash (some s) key =
      if not (s.alg == "ed25519") || s.value == "" then false else c.verify hash s.value key
