-- ===== src/Service/Appends.antt =====
-- What an append to the ledger of services/authority/receiptLedger.ts does to the receipts it holds.
use Prim.Native.String.{◌++◌, len}
use ttp_protocol.Common.{
  ◌≡◌, ◌≢◌, refl, sym, ap, ◌∙◌, String, false, Option, none, some, List, [], ◌∷◌, ◌⊎◌, inl, inr,
  Numbers, arith, nat_eq, Bool-cases, map,
}
use ttp_protocol.Common.{◌++◌ as join}
use ttp_protocol.Json.{Fields, Platform}
use ttp_protocol.Service.{Host}
use ttp_protocol.Service.Ledger.{
  Fault, Entry, Ledger, Disk, Write, throws, wrote, short_write, sync_failed, line_of, write_entry,
  append, close,
}
use ttp_protocol.Service.Sealed.{verify_record-contents}
use ttp_protocol.Service.Stored.{
  text_of, IsStored, IsStored-exact, append_cases, append-IsStored, Reach, start, after, Step,
  appended, closed_again, text_of-snoc,
}

-- The receipts that a ledger has, as its callers see them.
abbrev pub log_of : {Num : Type 0} → Ledger Num → List (Fields Num)
log_of l = map (λ (e : Entry _). e.contents) l.entries

map-snoc :
    {A B : Type 0} (f : A → B) (xs : List A) (x : A)
    → map f (join xs (x ∷ [])) ≡ join (map f xs) (f x ∷ [])
map-snoc f [] x = refl
map-snoc f (y ∷ xs) x = ap (λ rest. f y ∷ rest) (map-snoc f xs x)

module _ {Num : Type 0} ⦃number : Numbers Num⦄ (p : Platform Num) (h : Host Num)
    (secret : Option String) where
  write_entry_cases :
      (write : Write) (e : Entry Num) (l : Ledger Num) (disk : Disk)
      → ((write_entry p h secret write e l disk).0 ≡ none)
          × (((write_entry p h secret write e l disk).1.0.entries ≡ join l.entries (e ∷ []))
              × ((write_entry p h secret write e l disk).1.1.text
                  ≡ disk.text ++ line_of p h secret e.contents))
        ⊎ ((fault : Fault) × (((write_entry p h secret write e l disk).0 ≡ some fault)
              × ((write_entry p h secret write e l disk).1.0 ≡ l)))
  unfolding write_entry
  write_entry_cases throws e l disk = inr (_, (refl, refl))
  write_entry_cases (wrote count synced) e l disk =
      elim (Bool-cases (nat_eq count (len (line_of p h secret e.contents)))) [
        | inr short ↦ inr (short_write, (ground arith, ground arith))
        | inl whole ↦ elim (Bool-cases synced) [
          | inl yes' ↦ inl (ground arith, (ground arith, ground arith))
          | inr no' ↦ inr (sync_failed, (ground arith, ground arith))
        ]
      ]

-- An append implements the appending of a receipt to a list: either it reports nothing, and the ledger has
-- the receipts it had and the new one after them, and the file their lines and nothing else; or it reports
-- a fault, and the ledger has the receipts it had.
pub append_refines :
    {Num : Type 0} ⦃number : Numbers Num⦄ (p : Platform Num) (h : Host Num) (secret : Option String)
    (write : Write) (r : Fields Num) (l : Ledger Num) (disk : Disk)
    → IsStored p h secret l disk
    → ((append p h secret write r l disk).0 ≡ none)
        × ((log_of (append p h secret write r l disk).1.0 ≡ join (log_of l) (r ∷ []))
            × ((append p h secret write r l disk).1.1.text
                ≡ text_of p h secret (append p h secret write r l disk).1.0.entries))
      ⊎ ((fault : Fault) × (((append p h secret write r l disk).0 ≡ some fault)
            × (log_of (append p h secret write r l disk).1.0 ≡ log_of l)))
append_refines p h secret write r l disk k = elim (append_cases p h secret write r l disk) [
  | inl (fault, same) ↦ inr (fault, (ap (λ x. x.0) same, ap (λ x. log_of x.1.0) same))
  | inr (e, w) ↦ elim (write_entry_cases p h secret write e l disk) [
    | inr (fault, (told, kept)) ↦
        inr
          (fault, (ap (λ x. x.0) w.result ∙ told, ap (λ x. log_of x.1.0) w.result ∙ ap log_of kept))
    | inl (told, (entries, text)) ↦
        let (contents, _) = verify_record-contents p h secret r l.last w.valid in
        let exact = IsStored-exact p h secret l disk k w.size in
        inl (
          ap (λ x. x.0) w.result ∙ told,
          (
            ap (λ x. log_of x.1.0) w.result
                ∙ ap (map (λ (x : Entry _). x.contents)) entries
                ∙ map-snoc (λ (x : Entry _). x.contents) l.entries e
                ∙ ap (λ c. join (log_of l) (c ∷ [])) contents,
            ap (λ x. x.1.1.text) w.result
                ∙ text
                ∙ ap (λ t. t ++ line_of p h secret e.contents) exact
                ∙ sym (text_of-snoc p h secret l.entries e)
                ∙ ap (text_of p h secret) (sym entries)
                ∙ ap (λ x. text_of p h secret x.1.0.entries) (sym w.result),
          ),
        )
  ]
]

module _ {Num : Type 0} ⦃number : Numbers Num⦄ (p : Platform Num) (h : Host Num)
    (secret : Option String) where
  -- Where the file has another size than expected, no call changes the receipts or the file.
  stuck :
      (l : Ledger Num) (disk : Disk) {l' : Ledger Num} {disk' : Disk}
      → nat_eq (len disk.text) l.bytes ≡ false
      → Step p h secret l disk l' disk'
      → (l'.entries ≡ l.entries) × ((l'.bytes ≡ l.bytes) × (disk'.text ≡ disk.text))
  unfolding close
  stuck l disk mismatch (appended write r) = elim (append_cases p h secret write r l disk) [
    | inl (fault, same) ↦
        (ap (λ x. x.1.0.entries) same, (ap (λ x. x.1.0.bytes) same, ap (λ x. x.1.1.text) same))
    | inr (e, w) ↦ absurd (ground (arith, mismatch, w.size))
  ]
  stuck l disk mismatch closed_again = ground arith

  stuck_ever :
      (l : Ledger Num) (disk : Disk) {l' : Ledger Num} {disk' : Disk}
      → nat_eq (len disk.text) l.bytes ≡ false
      → Reach p h secret l disk l' disk'
      → (l'.entries ≡ l.entries) × ((l'.bytes ≡ l.bytes) × (disk'.text ≡ disk.text))
  stuck_ever l disk mismatch start = (refl, (refl, refl))
  stuck_ever l disk mismatch (after {m} {d} r step) =
      let (entries, (bytes, text)) = stuck_ever l disk mismatch r in
      let mismatch' : nat_eq (len d.text) m.bytes ≡ false = rw (bytes, text) mismatch in
      let (entries', (bytes', text')) = stuck m d mismatch' step in
      (entries' ∙ entries, (bytes' ∙ bytes, text' ∙ text))

-- After an append that fails and leaves something in the file, the ledger holds the receipts it held, and
-- no later call changes them or the file.
pub torn_write_stops :
    {Num : Type 0} ⦃number : Numbers Num⦄ (p : Platform Num) (h : Host Num) (secret : Option String)
    (write : Write) (r : Fields Num) (l : Ledger Num) (disk : Disk) (l' : Ledger Num) (disk' : Disk)
    → IsStored p h secret l disk
    → (append p h secret write r l disk).0 ≢ none
    → (append p h secret write r l disk).1.1.text ≢ disk.text
    → Reach p h secret
        (append p h secret write r l disk).1.0
        (append p h secret write r l disk).1.1
        l'
        disk'
    → (l'.entries ≡ l.entries) × (disk'.text ≡ (append p h secret write r l disk).1.1.text)
torn_write_stops p h secret write r l disk l' disk' k failed torn reach =
    elim (append_cases p h secret write r l disk) [
      | inl (fault, same) ↦ absurd (torn (ap (λ x. x.1.1.text) same))
      | inr (e, w) ↦ elim (write_entry_cases p h secret write e l disk) [
        | inl (told, _) ↦ absurd (failed (ap (λ x. x.0) w.result ∙ told))
        | inr (fault, (_, kept)) ↦
            let same = ap (λ x. x.1.0) w.result ∙ kept in
            elim (Bool-cases (
              nat_eq (len (append p h secret write r l disk).1.1.text)
                (append p h secret write r l disk).1.0.bytes)) [
                  | inl size ↦ absurd (
                      torn (
                        IsStored-exact p h secret _ _ (append-IsStored p h secret write r l disk k)
                          size
                        ∙ ap (λ (x : Ledger _). text_of p h secret x.entries) same
                        ∙ sym (IsStored-exact p h secret l disk k w.size)))
                  | inr mismatch ↦
                      let (entries, (_, text)) = stuck_ever p h secret _ _ mismatch reach in
                      (entries ∙ ap (λ (x : Ledger _). x.entries) same, text)
                ]
      ]
    ]
