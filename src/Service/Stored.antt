-- ===== src/Service/Stored.antt =====
-- The file of services/authority/receiptLedger.ts holds what the ledger in memory holds, whatever becomes
-- of a write.
use Prim.Native.String.{◌++◌, len, slice}
use text.Mathlib.TextPositions.{len-append}
use text.Mathlib.TextLemmas.{nil-append, append_assoc, append-nil}
use ttp_protocol.Common.{
  subst, ◌≡◌, refl, sym, ap, ◌∙◌, String, true, false, not, Option, none, some, List, [], ◌∷◌, ◌⊎◌,
  inl, inr, Numbers, arith, ◌+◌, nat_eq, Bool-cases, Sum-cases, ◌||◌,
}
use ttp_protocol.Common.{◌++◌ as join}
use ttp_protocol.Json.{Fields, Platform}
use ttp_protocol.Json.Values.{get}
use ttp_protocol.Service.{Host}
use ttp_protocol.Service.Lines.{len-zero}
use ttp_protocol.Service.Ledger.{
  Fault, Entry, Ledger, Disk, Write, throws, wrote, has_id, verify_record, line_of, write_entry,
  append, close, closed, duplicate_id, changed_externally,
}
use ttp_protocol.Service.Sealed.{last_hash, IsSealed, IsSealed-snoc, verify_record-contents}

module _ {Num : Type 0} ⦃number : Numbers Num⦄ (p : Platform Num) (h : Host Num)
    (secret : Option String) where
  -- The lines of the receipts.
  abbrev pub text_of : List (Entry Num) → String
  text_of [] = ""
  text_of (e ∷ es) = line_of p h secret e.contents ++ text_of es

  pub text_of-snoc :
      (es : List (Entry Num)) (e : Entry Num)
      → text_of (join es (e ∷ [])) ≡ text_of es ++ line_of p h secret e.contents
  text_of-snoc [] e = append-nil _ ∙ sym (nil-append _)
  text_of-snoc (x ∷ es) e =
      ap (λ t. line_of p h secret x.contents ++ t) (text_of-snoc es e)
      ∙ sym (
          append_assoc (line_of p h secret x.contents) (text_of es) (line_of p h secret e.contents))

  last_hash-snoc :
      (previous : Option String) (es : List (Entry Num)) (e : Entry Num)
      → last_hash previous (join es (e ∷ [])) ≡ some e.hash
  last_hash-snoc previous [] e = refl
  last_hash-snoc previous (x ∷ es) e = last_hash-snoc (some x.hash) es e

  -- The file holds the receipts, and after them at most a rest of a write that failed.
  pub record IsStored (l : Ledger Num) (disk : Disk) : Type 0 where
    pub rest : String
    pub text : disk.text ≡ text_of l.entries ++ rest
    pub bytes : l.bytes ≡ len (text_of l.entries)
    pub last : l.last ≡ last_hash none l.entries
    pub verified : IsSealed p h secret [] none l.entries

  -- Where the file has the size that the ledger expects, it holds the receipts and nothing else.
  pub IsStored-exact :
      (l : Ledger Num) (disk : Disk)
      → IsStored l disk
      → nat_eq (len disk.text) l.bytes ≡ true
      → disk.text ≡ text_of l.entries
  IsStored-exact l disk k e =
      let size = ap len k.text ∙ len-append (text_of l.entries) k.rest in
      let empty = len-zero k.rest (ground (arith, size, k.bytes)) in
      k.text ∙ ap (λ r. text_of l.entries ++ r) empty ∙ append-nil (text_of l.entries)

  -- A write that fails leaves a rest.
  with_rest :
      (rest : String) (l : Ledger Num) (disk : Disk)
      → disk.text ≡ text_of l.entries
      → IsStored l disk
      → IsStored l (record disk { text = disk.text ++ rest })
  with_rest rest l disk exact k = record {
    rest = rest;
    text = ap (λ t. t ++ rest) exact;
    bytes = k.bytes;
    last = k.last;
    verified = k.verified;
  }

  -- A write leaves what was stored in the file, whether it succeeds or not.
  write_entry-IsStored :
      (write : Write) (e : Entry Num) (l : Ledger Num) (disk : Disk)
      → disk.text ≡ text_of l.entries
      → IsStored l disk
      → has_id (get e.contents "receiptId") l.entries ≡ false
      → verify_record p h secret e.contents l.last ≡ inr e
      → IsStored
          (write_entry p h secret write e l disk).1.0
          (write_entry p h secret write e l disk).1.1
  unfolding write_entry
  write_entry-IsStored throws e l disk exact k fresh valid = k
  write_entry-IsStored (wrote count false) e l disk exact k fresh valid =
      elim (Bool-cases (nat_eq count (len (line_of p h secret e.contents)))) [
        | inr short ↦
            rw (short, write_entry)
              (with_rest (slice (line_of p h secret e.contents) 0 count) l disk exact k)
        | inl whole ↦
            rw (whole, write_entry) (with_rest (line_of p h secret e.contents) l disk exact k)
      ]
  write_entry-IsStored (wrote count true) e l disk exact k fresh valid =
      elim (Bool-cases (nat_eq count (len (line_of p h secret e.contents)))) [
        | inr short ↦
            rw (short, write_entry)
              (with_rest (slice (line_of p h secret e.contents) 0 count) l disk exact k)
        | inl whole ↦
            rw (whole, write_entry)
              (record {
                rest = "";
                text =
                    ap (λ t. t ++ line_of p h secret e.contents) exact
                    ∙ sym (text_of-snoc l.entries e)
                    ∙ sym (append-nil _);
                bytes =
                    ap (λ n. n + len (line_of p h secret e.contents)) k.bytes
                    ∙ sym (len-append _ _)
                    ∙ ap len (sym (text_of-snoc l.entries e));
                last = sym (last_hash-snoc none l.entries e);
                verified =
                    IsSealed-snoc p h secret [] none l.entries e k.verified fresh
                      (rw k.last at valid);
              })
      ]

  -- What has passed every test when `append` comes to write.
  pub record IsWritten (write : Write) (r : Fields Num) (l : Ledger Num) (disk : Disk)
      (e : Entry Num) : Type 0 where
    pub open' : l.released ≡ false
    pub trusted : disk.trusted ≡ true
    pub fresh : has_id (get r "receiptId") l.entries ≡ false
    pub size : nat_eq (len disk.text) l.bytes ≡ true
    pub valid : verify_record p h secret r l.last ≡ inr e
    pub result : append p h secret write r l disk ≡ write_entry p h secret write e l disk

  pub append_cases :
      (write : Write) (r : Fields Num) (l : Ledger Num) (disk : Disk)
      → ((fault : Fault) × (append p h secret write r l disk ≡ (some fault, (l, disk))))
        ⊎ ((e : Entry Num) × IsWritten write r l disk e)
  unfolding append
  append_cases write r l disk = elim (Bool-cases l.released) [
    | inl yes' ↦ inl (closed, ground arith)
    | inr open' ↦ elim (Bool-cases (has_id (get r "receiptId") l.entries)) [
      | inl yes' ↦ inl (duplicate_id, ground arith)
      | inr fresh ↦ elim (Bool-cases (not disk.trusted || not (nat_eq (len disk.text) l.bytes))) [
        | inl yes' ↦ inl (changed_externally, ground arith)
        | inr exact ↦ elim (Sum-cases (verify_record p h secret r l.last)) [
          | inl (fault, bad) ↦ inl (fault, ground arith)
          | inr (e, valid) ↦ inr (
            e,
            record {
              open' = open';
              trusted = ground arith;
              fresh = fresh;
              size = ground arith;
              valid = valid;
              result = ground arith;
            },
          )
        ]
      ]
    ]
  ]

  pub append-IsStored :
      (write : Write) (r : Fields Num) (l : Ledger Num) (disk : Disk)
      → IsStored l disk
      → IsStored (append p h secret write r l disk).1.0 (append p h secret write r l disk).1.1
  append-IsStored write r l disk k = elim (append_cases write r l disk) [
    | inl (fault, same) ↦ rw same k
    | inr (e, w) ↦
        let (contents, _) = verify_record-contents p h secret r l.last w.valid in
        rw w.result (
          write_entry-IsStored write e l disk (IsStored-exact l disk k w.size) k
            (rw contents w.fresh)
            (subst (λ x. verify_record p h secret x l.last ≡ inr e) (sym contents) w.valid))
  ]

  -- A call on an open ledger.
  pub data Step : Ledger Num → Disk → Ledger Num → Disk → Type 0 where
    appended :
        {l : Ledger Num} {disk : Disk} (write : Write) (r : Fields Num)
        → Step l disk (append p h secret write r l disk).1.0 (append p h secret write r l disk).1.1
    closed_again :
        {l : Ledger Num} {disk : Disk}
        → Step l disk (close p h secret l disk).0 (close p h secret l disk).1

  pub data Reach (l : Ledger Num) (disk : Disk) : Ledger Num → Disk → Type 0 where
    start : Reach l disk l disk
    after :
        {m : Ledger Num} {d : Disk} {m' : Ledger Num} {d' : Disk}
        → Reach l disk m d
        → Step m d m' d'
        → Reach l disk m' d'

  close-IsStored :
      (l : Ledger Num) (disk : Disk)
      → IsStored l disk
      → IsStored (close p h secret l disk).0 (close p h secret l disk).1
  unfolding close
  close-IsStored l disk k = elim (Bool-cases l.released) [
    | inl yes' ↦ simp (yes', close) k
    | inr no' ↦
        rw (no', close)
          (record {
            rest = k.rest;
            text = k.text;
            bytes = k.bytes;
            last = k.last;
            verified = k.verified;
          })
  ]

  Step-IsStored :
      {l : Ledger Num} {disk : Disk} {l' : Ledger Num} {disk' : Disk}
      → Step l disk l' disk'
      → IsStored l disk
      → IsStored l' disk'
  Step-IsStored (appended {l} {disk} write r) k = append-IsStored write r l disk k
  Step-IsStored (closed_again {l} {disk}) k = close-IsStored l disk k

-- Whatever becomes of the writes, every call keeps: the file holds the receipts of the ledger, each
-- verified after the one before it and with an id of its own, and after them at most a rest of a write that failed.
pub Reach-IsStored :
    {Num : Type 0} ⦃number : Numbers Num⦄ (p : Platform Num) (h : Host Num) (secret : Option String)
    (l : Ledger Num) (disk : Disk) (l' : Ledger Num) (disk' : Disk)
    → IsStored p h secret l disk
    → Reach p h secret l disk l' disk'
    → IsStored p h secret l' disk'
Reach-IsStored p h secret l disk _ _ k start = k
Reach-IsStored p h secret l disk _ _ k (after {m} {d} r step) =
    Step-IsStored p h secret step (Reach-IsStored p h secret l disk m d k r)
