-- ===== src/Service/Reopened.antt =====
-- Reading back the file of services/authority/receiptLedger.ts, and what an append tells.
use Prim.Native.String.{len}
use text.Mathlib.TextLemmas.{append-nil as append-nil_text, append_assoc}
use ttp_protocol.Common.{
  and_false, ◌≡◌, refl, sym, ap, ◌∙◌, String, true, false, not, ◌&&◌, Option, none, some, List, [],
  ◌∷◌, inr, Numbers, arith, nat_eq, All, map, keep, ◌==◌,
}
use ttp_protocol.Common.{◌++◌ as join}
use ttp_protocol.Json.{obj, Platform}
use ttp_protocol.Service.{Host}
use ttp_protocol.Service.Formats.{split_at_each, split_lines, ends_with}
use ttp_protocol.Service.Lines.{
  is_one_line, split_at_each-append, ends_with-append, ends_with-append_left,
}
use ttp_protocol.Service.Ledger.{
  Entry, Ledger, Disk, read_entries, lines_of, line_of, close, open_receipt_ledger,
}
use ttp_protocol.Service.Sealed.{last_hash, IsSealed, append-nil, snoc-append}
use ttp_protocol.Service.Stored.{text_of, IsStored, IsStored-exact}

module _ {Num : Type 0} ⦃number : Numbers Num⦄ (p : Platform Num) (h : Host Num)
    (secret : Option String) where
  -- The text of a receipt is one line, and reads back.
  pub record IsWritable (e : Entry Num) : Type 0 where
    pub reads : h.parse_json (p.stringify (obj e.contents)) ≡ some (obj e.contents)
    pub one_line : is_one_line (p.stringify (obj e.contents)) ≡ true
    pub given : (p.stringify (obj e.contents) == "") ≡ false

  texts_of : List (Entry Num) → List String
  texts_of es = map (λ (e : Entry Num). p.stringify (obj e.contents)) es

  read_entries-texts :
      (before : List (Entry Num)) (previous : Option String) (es : List (Entry Num))
      → IsSealed p h secret before previous es
      → All IsWritable es
      → read_entries p h secret (texts_of es) previous before
        ≡ inr (join before es, last_hash previous es)
  unfolding read_entries texts_of
  read_entries-texts before previous [] k w =
      ap (λ es. inr (es, previous)) (sym (append-nil before))
  read_entries-texts before previous (e ∷ es) (fresh, (valid, k)) (w, ws) =
      let later = read_entries-texts (join before (e ∷ [])) (some e.hash) es k ws in
      rw (w.reads, read_entries, fresh, valid, texts_of)
        (later ∙ ap (λ all. inr (all, last_hash (some e.hash) es)) (snoc-append before e es))

  lines_of-text_of :
      (es : List (Entry Num))
      → All IsWritable es
      → lines_of p h secret (text_of p h secret es) ≡ texts_of es
  unfolding split_lines texts_of split_at_each
  lines_of-text_of [] w = refl
  lines_of-text_of (e ∷ es) (w, ws) =
      let line = p.stringify (obj e.contents) in
      let split =
        ap (split_at_each 10) (append_assoc line "\n" (text_of p h secret es))
        ∙ split_at_each-append line (text_of p h secret es) w.one_line in
      ap (keep (λ line. not (line == ""))) split
      ∙ rw (w.given) (ap (λ ts. line ∷ ts) (lines_of-text_of es ws))

  last_line-ends :
      (e : Entry Num) (es : List (Entry Num)) → ends_with (text_of p h secret (e ∷ es)) "\n" ≡ true
  last_line-ends e [] =
      rw (append-nil_text (line_of p h secret e.contents))
        (ends_with-append (p.stringify (obj e.contents)) "\n")
  last_line-ends e (x ∷ es) =
      ends_with-append_left (line_of p h secret e.contents) _ "\n" (last_line-ends x es)

  text_of-ends :
      (es : List (Entry Num))
      → (not (text_of p h secret es == "") && not (ends_with (text_of p h secret es) "\n")) ≡ false
  text_of-ends [] = refl
  text_of-ends (e ∷ es) = rw (last_line-ends e es) (and_false _)

  opened :
      (disk : Disk) (l : Ledger Num) {last : Option String}
      → disk.trusted ≡ true
      → (not (disk.text == "") && not (ends_with disk.text "\n")) ≡ false
      → read_entries p h secret (lines_of p h secret disk.text) none [] ≡ inr (l.entries, last)
      → last ≡ l.last
      → len disk.text ≡ l.bytes
      → l.released ≡ false
      → open_receipt_ledger p h secret (record disk { locked = false })
        ≡ (inr l, record disk { locked = true })
  unfolding open_receipt_ledger
  opened disk l trusted ends entries last bytes open' = ground arith

-- A ledger whose writes have all succeeded is found again, receipt for receipt, when its file is opened
-- after it was closed; provided each receipt is written as one line that reads back.
pub open-close :
    {Num : Type 0} ⦃number : Numbers Num⦄ (p : Platform Num) (h : Host Num) (secret : Option String)
    (l : Ledger Num) (disk : Disk)
    → IsStored p h secret l disk
    → nat_eq (len disk.text) l.bytes ≡ true
    → l.released ≡ false
    → disk.trusted ≡ true
    → All (IsWritable p h secret) l.entries
    → open_receipt_ledger p h secret (close p h secret l disk).1
      ≡ (inr l, record disk { locked = true })
unfolding close
open-close p h secret l disk k size open' trusted w =
    let exact = IsStored-exact p h secret l disk k size in
    let lines = ap (lines_of p h secret) exact ∙ lines_of-text_of p h secret l.entries w in
    let entries =
      ap (λ ls. read_entries p h secret ls none []) lines
      ∙ read_entries-texts p h secret [] none l.entries k.verified w in
    let ends =
      ap (λ t. not (t == "") && not (ends_with t "\n")) exact ∙ text_of-ends p h secret l.entries in
    let shut : (close p h secret l disk).1 ≡ record disk { locked = false } = ground arith in
    let bytes : len disk.text ≡ l.bytes = ground arith in
    ap (open_receipt_ledger p h secret) shut
    ∙ opened p h secret disk l trusted ends entries (sym k.last) bytes open'
