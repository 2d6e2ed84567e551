-- ===== src/Boundary.antt =====
-- packages/pctr/src/boundary.mjs: the effect boundary. A boundary holds the keys that it accepts
-- and one replay store, which every verification shares. The HTTP server, its client and the file
-- of the durable store are not modelled.
use ttp_protocol.Common.{String, List, [], ◌∷◌, Option, some, Numbers}
use ttp_protocol.Json.{Json, Platform}
use ttp_protocol.Signing.{Crypto}
use ttp_protocol.Authority.{Authority, Execution, Options, Store, Verdict, verify_authority}

-- `createBoundary`: its keys and its name; the store is passed on from call to call.
pub record Boundary (Key : Type 0) : Type 0 where
  pub trusted_key_ids : Option (List String)
  pub public_key : Option Key
  pub name : String

-- What one call of `verify` is given.
pub record Attempt (Num Key : Type 0) : Type 0 where
  pub authority : Option (Authority Num Key)
  pub execution : Execution Num
  pub now : Json Num

abbrev pub present :
    {Num Key : Type 0} → Authority Num Key → Execution Num → Json Num → Attempt Num Key
present a e now = record { authority = some a; execution = e; now = now }

module _ {Num Key : Type 0} ⦃number : Numbers Num⦄ (p : Platform Num) (c : Crypto Key) where
  abbrev pub options_at : Boundary Key → Json Num → Options Num Key
  options_at b now = record {
    now = now;
    public_key = b.public_key;
    trusted_key_ids = b.trusted_key_ids;
  }

  -- `boundary.verify(authority, execution, { now })`
  unfoldable pub verify : Boundary Key → Attempt Num Key → Store Num → Verdict × Store Num
  verify b t store = verify_authority p c (options_at b t.now) t.execution t.authority store

  -- The store after a sequence of verifications.
  unfoldable pub run : Boundary Key → List (Attempt Num Key) → Store Num → Store Num
  run b [] store = store
  run b (t ∷ ts) store = run b ts (verify b t store).1
