-- ===== src/Service/Ledger.antt =====
-- services/authority/receiptLedger.ts: receipts in memory and in a file, one line for each. The file, its
-- lock and what writing it does are explicit; a file that is not UTF-8, and a write that ends inside a
-- character, are left out.
use Prim.Native.String.{◌++◌, len, slice}
use ttp_protocol.Common.{
  String, Bool, true, false, not, ◌&&◌, ◌||◌, ℕ, ◌+◌, nat_eq, Option, none, some, List, [], ◌∷◌,
  if◌then◌else◌, ◌==◌, ◌⊎◌, inl, inr, any, keep, find, Numbers,
}
use ttp_protocol.Common.{◌++◌ as join}
use ttp_protocol.Json.{Json, null, str, obj, Fields, end, field, Platform}
use ttp_protocol.Json.Values.{get, set, strict_eq}
use ttp_protocol.Service.{Host}
use ttp_protocol.Service.Formats.{string_of, is_receipt_id, split_lines, ends_with}
use ttp_protocol.Service.Signer.{chain_hash, sign_receipt}

-- The errors that are thrown.
pub data Fault : Type 0 where
  invalid_record chain_broken signature_invalid secret_missing type_error : Fault
  ledger_locked untrusted_file truncated malformed duplicate_id : Fault
  closed changed_externally write_failed short_write sync_failed : Fault

-- A receipt of the ledger under its id, with the hash that it claims.
pub record Entry (Num : Type 0) : Type 0 where
  pub id : String
  pub hash : String
  pub contents : Fields Num

pub record Ledger (Num : Type 0) : Type 0 where
  pub entries : List (Entry Num)
  pub last : Option String
  pub bytes : ℕ
  pub released : Bool

-- The file, whether it, its mode and its directory are as they must be, and whether its lock exists.
pub record Disk : Type 0 where
  pub text : String
  pub trusted : Bool
  pub locked : Bool

-- What becomes of a write: it throws, or it writes that many bytes and is synced or not.
pub data Write : Type 0 where
  throws : Write
  wrote : ℕ → Bool → Write

-- An object without one of its properties.
abbrev pub without : {Num : Type 0} → String → Fields Num → Fields Num
without key end = end
without key (field k v fs) = if k == key then without key fs else field k v (without key fs)

module _ {Num : Type 0} ⦃number : Numbers Num⦄ where
  -- `previousRecords.has(id)`
  unfoldable pub has_id : Option (Json Num) → List (Entry Num) → Bool
  has_id id entries = any (λ e. strict_eq id (some (str e.id))) entries

  -- `previousRecords.get(id)`
  unfoldable pub get_entry : Option (Json Num) → List (Entry Num) → Option (Entry Num)
  get_entry id entries = find (λ e. strict_eq id (some (str e.id))) entries

module _ {Num : Type 0} ⦃number : Numbers Num⦄ (p : Platform Num) (h : Host Num)
    (secret : Option String) where
  -- `verifyRecord`, of the id, the signature and the hash of a record, if they are strings.
  abbrev pub check :
      Option String → Fields Num → Option String → Option String → Option String → Fault ⊎ Entry Num
  check previous record' (some id) (some signature) (some claimed) =
      let partial = without "chainHash" (without "signature" record') in
      if not (is_receipt_id id)
      then inl invalid_record
      else if not (chain_hash p h previous (obj partial) == claimed)
      then inl chain_broken
      else elim (sign_receipt p h secret (obj (set "chainHash" (str claimed) partial))) [
        | none ↦ inl secret_missing
        | some expected ↦
            if signature == expected
            then inr (record { id = id; hash = claimed; contents = record' })
            else inl signature_invalid
      ]
  check previous record' _ _ _ = inl invalid_record

  unfoldable pub verify_record : Fields Num → Option String → Fault ⊎ Entry Num
  verify_record r previous =
      check previous r (string_of (get r "receiptId")) (string_of (get r "signature"))
        (string_of (get r "chainHash"))

  abbrev pub read_value : Option (Json Num) → Option String → List (Entry Num) → Fault ⊎ Entry Num
  read_value none last entries = inl malformed
  read_value (some null) last entries = inl type_error
  read_value (some (obj r)) last entries =
      if has_id (get r "receiptId") entries then inl duplicate_id else verify_record r last
  read_value (some _) last entries = inl invalid_record

  -- The loop over the lines of the file, after `entries`.
  unfoldable pub read_entries :
      List String → Option String → List (Entry Num) → Fault ⊎ (List (Entry Num) × Option String)
  read_entries [] last entries = inr (entries, last)
  read_entries (line ∷ lines) last entries = elim (read_value (h.parse_json line) last entries) [
    | inl fault ↦ inl fault
    | inr e ↦ read_entries lines (some e.hash) (join entries (e ∷ []))
  ]

  abbrev pub lines_of : String → List String
  lines_of text = keep (λ line. not (line == "")) (split_lines text)

  -- `openReceiptLedger`: where it throws, a lock that it made is taken away again.
  unfoldable pub open_receipt_ledger : Disk → (Fault ⊎ Ledger Num) × Disk
  open_receipt_ledger disk =
      if disk.locked
      then (inl ledger_locked, disk)
      else if not disk.trusted
      then (inl untrusted_file, disk)
      else if not (disk.text == "") && not (ends_with disk.text "\n")
      then (inl truncated, disk)
      else elim (read_entries (lines_of disk.text) none []) [
        | inl fault ↦ (inl fault, disk)
        | inr (entries, last) ↦ (
          inr (record { entries = entries; last = last; bytes = len disk.text; released = false }),
          record disk { locked = true },
        )
      ]

  -- The line that is written for a receipt.
  abbrev pub line_of : Fields Num → String
  line_of r = p.stringify (obj r) ++ "\n"

  -- The write of `append`, once the receipt is verified.
  unfoldable pub write_entry :
      Write → Entry Num → Ledger Num → Disk → Option Fault × (Ledger Num × Disk)
  write_entry throws e l disk = (some write_failed, (l, disk))
  write_entry (wrote count synced) e l disk =
      let line = line_of e.contents in
      if not (nat_eq count (len line))
      then (some short_write, (l, record disk { text = disk.text ++ slice line 0 count }))
      else if not synced
      then (some sync_failed, (l, record disk { text = disk.text ++ line }))
      else (
        none,
        (
          record l {
            entries = join l.entries (e ∷ []);
            last = some e.hash;
            bytes = l.bytes + len line;
          },
          record disk { text = disk.text ++ line },
        ),
      )

  unfoldable pub append :
      Write → Fields Num → Ledger Num → Disk → Option Fault × (Ledger Num × Disk)
  append write r l disk =
      if l.released
      then (some closed, (l, disk))
      else if has_id (get r "receiptId") l.entries
      then (some duplicate_id, (l, disk))
      else if not disk.trusted || not (nat_eq (len disk.text) l.bytes)
      then (some changed_externally, (l, disk))
      else elim (verify_record r l.last) [
        | inl fault ↦ (some fault, (l, disk))
        | inr e ↦ write_entry write e l disk
      ]

  unfoldable pub close : Ledger Num → Disk → Ledger Num × Disk
  close l disk =
      if l.released
      then (l, disk)
      else (record l { released = true }, record disk { locked = false })
