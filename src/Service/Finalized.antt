-- ===== src/Service/Finalized.antt =====
-- A receipt that services/authority/receiptSigner.ts finalizes passes the tests of receiptLedger.ts.
use Prim.Native.String.{len}
use ttp_protocol.Common.{
  ◌≡◌, refl, ap, ◌∙◌, String, true, false, Option, none, some, ◌∷◌, [], inl, inr, Numbers, arith,
  nat_eq, Option-cases, eq_refl,
}
use ttp_protocol.Common.{◌++◌ as join}
use ttp_protocol.Json.{Json, str, obj, Fields, end, field, Platform}
use ttp_protocol.Json.Values.{get-set_other, get, set}
use ttp_protocol.Service.{Host}
use ttp_protocol.Service.Formats.{is_receipt_id}
use ttp_protocol.Service.Signer.{chain_hash, sign_receipt, finalize_receipt}
use ttp_protocol.Service.Sealed.{verify_record-contents}
use ttp_protocol.Service.Ledger.{
  Entry, Ledger, Disk, wrote, has_id, verify_record, line_of, write_entry, append, without, check,
}

module _ {Num : Type 0} where
  without-none : (key : String) (fs : Fields Num) → get fs key ≡ none → without key fs ≡ fs
  without-none key end e = refl
  without-none key (field k v fs) e = ground (arith, without-none key fs)

  without-set :
      (key : String) (v : Json Num) (fs : Fields Num)
      → get fs key ≡ none
      → without key (set key v fs) ≡ fs
  without-set key v end e = rw (eq_refl key) refl
  without-set key v (field k u fs) e = ground (arith, without-set key v fs)

  get-set_same : (key : String) (v : Json Num) (fs : Fields Num) → get (set key v fs) key ≡ some v
  get-set_same key v end = rw (eq_refl key) refl
  get-set_same key v (field k u fs) = ground (arith, get-set_same key v fs)

module _ {Num : Type 0} ⦃number : Numbers Num⦄ (p : Platform Num) (h : Host Num)
    (secret : Option String) where
  -- The entry that a finalized receipt becomes.
  abbrev pub entry_of : String → Option String → Fields Num → Fields Num → Entry Num
  entry_of id previous partial r = record {
    id = id;
    hash = chain_hash p h previous (obj partial);
    contents = r;
  }

  check-passes :
      (previous : Option String) (r partial : Fields Num) (id signature : String)
      → without "chainHash" (without "signature" r) ≡ partial
      → is_receipt_id id ≡ true
      → sign_receipt p h secret
          (obj (set "chainHash" (str (chain_hash p h previous (obj partial))) partial))
        ≡ some signature
      → check p h secret previous r
          (some id)
          (some signature)
          (some (chain_hash p h previous (obj partial)))
        ≡ inr (entry_of id previous partial r)
  check-passes previous r partial id signature bare shaped signed =
      rw (bare, shaped, eq_refl (chain_hash p h previous (obj partial)), signed, eq_refl signature)
        refl

  verify_record-finalize_receipt :
      (partial : Fields Num) (previous : Option String) (id : String) {r : Fields Num}
      → finalize_receipt p h secret partial previous ≡ some r
      → is_receipt_id id ≡ true
      → get partial "receiptId" ≡ some (str id)
      → get partial "signature" ≡ none
      → get partial "chainHash" ≡ none
      → verify_record p h secret r previous ≡ inr (entry_of id previous partial r)
  unfolding verify_record finalize_receipt
  verify_record-finalize_receipt partial previous id {r} made shaped named unsigned unchained =
      let chain = chain_hash p h previous (obj partial) in
      let hashed = set "chainHash" (str chain) partial in
      elim (Option-cases (sign_receipt p h secret (obj hashed))) [
        | inl none' ↦ absurd (ground (arith, none'))
        | inr (signature, signed) ↦
            let same : r ≡ set "signature" (str signature) hashed = ground (arith, signed) in
            let unsigned' =
              get-set_other "chainHash" "signature" (str chain) partial refl ∙ unsigned in
            let bare = without-set "signature" (str signature) hashed unsigned' in
            let partial' =
              ap (without "chainHash") bare
              ∙ without-set "chainHash" (str chain) partial unchained in
            let id' =
              get-set_other "signature" "receiptId" (str signature) hashed refl
              ∙ get-set_other "chainHash" "receiptId" (str chain) partial refl
              ∙ named in
            let signature' = get-set_same "signature" (str signature) hashed in
            let chain' =
              get-set_other "signature" "chainHash" (str signature) hashed refl
              ∙ get-set_same "chainHash" (str chain) partial in
            let passes = check-passes previous _ partial id signature partial' shaped signed in
            rw (same, verify_record, id', signature', chain') passes
      ]

-- A receipt that is finalized on the ledger's last hash is accepted by a ledger that is open, with a trusted
-- file of the size expected, where its id is well-formed and new and its write succeeds: the ledger then
-- has it last, under the hash that it was finalized with.
pub append-finalize_receipt :
    {Num : Type 0} ⦃number : Numbers Num⦄ (p : Platform Num) (h : Host Num) (secret : Option String)
    (partial : Fields Num) (id : String) (r : Fields Num) (l : Ledger Num) (disk : Disk)
    → finalize_receipt p h secret partial l.last ≡ some r
    → get partial "receiptId" ≡ some (str id)
    → get partial "signature" ≡ none
    → get partial "chainHash" ≡ none
    → is_receipt_id id ≡ true
    → has_id (some (str id)) l.entries ≡ false
    → l.released ≡ false
    → disk.trusted ≡ true
    → nat_eq (len disk.text) l.bytes ≡ true
    → ((append p h secret (wrote (len (line_of p h secret r)) true) r l disk).0 ≡ none)
      × ((append p h secret (wrote (len (line_of p h secret r)) true) r l disk).1.0.entries
          ≡ join l.entries (entry_of p h secret id l.last partial r ∷ []))
unfolding append write_entry
append-finalize_receipt p h secret partial id r l disk made named unsigned unchained shaped fresh
      open' trusted size =
    let valid =
      verify_record-finalize_receipt p h secret partial l.last id made shaped named unsigned
        unchained in
    let (_, (id', _)) = verify_record-contents p h secret r l.last valid in
    let fresh' : has_id (get r "receiptId") l.entries ≡ false = rw id' fresh in
    let whole : nat_eq (len (line_of p h secret r)) (len (line_of p h secret r)) ≡ true =
      ground arith in
    (ground arith, ground arith)
