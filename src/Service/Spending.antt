-- ===== src/Service/Spending.antt =====
-- services/authority/replayLedger.ts: a step-up receipt is spent by a file that is created exclusively.
-- The directory is a list of the names in it, and what the file system does is a parameter of a call.
use Prim.Native.String.{◌++◌}
use ttp_protocol.Common.{String, Bool, true, false, not, List, ◌∷◌, if◌then◌else◌, includes}
use ttp_protocol.Json.{Platform}
use ttp_protocol.Service.Formats.{is_opaque_id}

pub record SpendResult : Type 0 where
  pub accepted : Bool
  pub reason : String

-- Whether an absolute path is configured, and whether it is a private directory of the user; one that
-- cannot be made or looked at counts as one that is not.
pub record Directory : Type 0 where
  pub configured : Bool
  pub trusted : Bool

-- The file cannot be made, or it is made and then fails to be written or synced, or all is well.
pub data Creation : Type 0 where
  not_created not_synced created : Creation

abbrev pub rejected : String → SpendResult
rejected reason = record { accepted = false; reason = reason }

module _ {Num : Type 0} (p : Platform Num) where
  abbrev pub record_name : String → String
  record_name id = p.sha256_hex id ++ ".spent"

  abbrev pub create : Creation → String → List String → SpendResult × List String
  create not_created name names = (rejected "REPLAY_LEDGER_UNAVAILABLE", names)
  create not_synced name names = (rejected "REPLAY_LEDGER_UNAVAILABLE", name ∷ names)
  create created name names =
      (record { accepted = true; reason = "PRIOR_RECEIPT_CONSUMED" }, name ∷ names)

  unfoldable pub consume_step_up_receipt :
      Directory → Creation → String → List String → SpendResult × List String
  consume_step_up_receipt d creation id names =
      if not d.configured
      then (rejected "PERSISTENT_REPLAY_LEDGER_UNCONFIGURED", names)
      else if not (is_opaque_id id)
      then (rejected "INVALID_PRIOR_RECEIPT_ID", names)
      else if not d.trusted
      then (rejected "UNTRUSTED_REPLAY_LEDGER_DIRECTORY", names)
      else if includes names (record_name id)
      then (rejected "STEP_UP_ALREADY_CONSUMED", names)
      else create creation (record_name id) names
