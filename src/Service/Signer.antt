-- ===== src/Service/Signer.antt =====
-- services/authority/receiptSigner.ts: the hash and the signature of a receipt. `none` is a throw.
use Prim.Native.String.{◌++◌, len}
use ttp_protocol.Common.{String, Option, none, some, ltb, or_else, if◌then◌else◌, ◌>>=◌}
use ttp_protocol.Json.{Json, str, obj, Fields, Platform}
use ttp_protocol.Json.Values.{set}
use ttp_protocol.Service.{Host}

module _ {Num : Type 0} (p : Platform Num) (h : Host Num) where
  unfoldable pub chain_hash : Option String → Json Num → String
  chain_hash previous payload =
      "sha256:" ++ p.sha256_hex (or_else previous "GENESIS" ++ p.stringify payload)

  unfoldable pub sign_receipt : Option String → Json Num → Option String
  sign_receipt none receipt = none
  sign_receipt (some secret) receipt =
      if ltb (len secret) 32
      then none
      else some ("hmac-sha256:" ++ h.hmac_sha256 secret (p.stringify receipt))

  unfoldable pub finalize_receipt : Option String → Fields Num → Option String → Option (Fields Num)
  finalize_receipt secret partial previous = do
    let chain = chain_hash previous (obj partial)
    signature ← sign_receipt secret (obj (set "chainHash" (str chain) partial))
    some (set "signature" (str signature) (set "chainHash" (str chain) partial))
