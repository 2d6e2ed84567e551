-- ===== src/Service/Sealed.antt =====
-- Receipts of services/authority/receiptLedger.ts of which each was verified after those before it.
use ttp_protocol.Common.{
  ◌≡◌, refl, sym, ap, String, false, Option, none, some, List, [], ◌∷◌, ◌++◌, inr, Numbers, arith,
}
use ttp_protocol.Json.{Json, null, bool, num, arr, str, obj, Fields, Platform}
use ttp_protocol.Json.Values.{get}
use ttp_protocol.Service.{Host}
use ttp_protocol.Service.Formats.{string_of}
use ttp_protocol.Service.Ledger.{Entry, has_id, check, verify_record}

abbrev pub last_hash : {Num : Type 0} → Option String → List (Entry Num) → Option String
last_hash previous [] = previous
last_hash previous (e ∷ es) = last_hash (some e.hash) es

pub append-nil : {A : Type 0} (xs : List A) → xs ++ [] ≡ xs
append-nil [] = refl
append-nil (x ∷ xs) = ap (λ rest. x ∷ rest) (append-nil xs)

pub snoc-append :
    {A : Type 0} (xs : List A) (x : A) (ys : List A) → (xs ++ x ∷ []) ++ ys ≡ xs ++ x ∷ ys
snoc-append [] x ys = refl
snoc-append (z ∷ xs) x ys = ap (λ rest. z ∷ rest) (snoc-append xs x ys)

string_of-some :
    {Num : Type 0} (v : Option (Json Num)) {s : String} → string_of v ≡ some s → v ≡ some (str s)
string_of-some none k = cc
string_of-some (some (str t)) k = cc
string_of-some (some null) k = cc
string_of-some (some (bool b)) k = cc
string_of-some (some (num n)) k = cc
string_of-some (some (arr xs)) k = cc
string_of-some (some (obj fs)) k = cc

module _ {Num : Type 0} ⦃number : Numbers Num⦄ (p : Platform Num) (h : Host Num)
    (secret : Option String) where
  -- Each receipt has an id that is new and names the hash of the one before, signed; `before` and `previous` are the receipts before the list and the hash of the last.
  abbrev pub IsSealed : List (Entry Num) → Option String → List (Entry Num) → Type 0
  IsSealed before previous [] = Unit
  IsSealed before previous (e ∷ es) =
      (has_id (get e.contents "receiptId") before ≡ false)
      × ((verify_record p h secret e.contents previous ≡ inr e)
          × IsSealed (before ++ e ∷ []) (some e.hash) es)

  pub IsSealed-snoc :
      (before : List (Entry Num)) (previous : Option String) (es : List (Entry Num)) (e : Entry Num)
      → IsSealed before previous es
      → has_id (get e.contents "receiptId") (before ++ es) ≡ false
      → verify_record p h secret e.contents (last_hash previous es) ≡ inr e
      → IsSealed before previous (es ++ e ∷ [])
  IsSealed-snoc before previous [] e k fresh valid =
      (rw (sym (append-nil before)) fresh, (valid, tt))
  IsSealed-snoc before previous (x ∷ es) e (a, (b, k)) fresh valid = (
    a,
    (
      b,
      IsSealed-snoc (before ++ x ∷ []) (some x.hash) es e k (rw (snoc-append before x es) fresh)
          valid,
    ),
  )

  check-contents :
      (previous : Option String) (r : Fields Num) (id signature hash : Option String)
      {e : Entry Num}
      → check p h secret previous r id signature hash ≡ inr e
      → (e.contents ≡ r) × ((id ≡ some e.id) × (hash ≡ some e.hash))
  check-contents previous r none signature hash k = cc
  check-contents previous r (some id) none hash k = cc
  check-contents previous r (some id) (some signature) none k = cc
  check-contents previous r (some id) (some signature) (some hash) {e} k = ground arith

  -- What a verified record is kept as.
  pub verify_record-contents :
      (r : Fields Num) (previous : Option String) {e : Entry Num}
      → verify_record p h secret r previous ≡ inr e
      → (e.contents ≡ r)
        × ((get r "receiptId" ≡ some (str e.id)) × (get r "chainHash" ≡ some (str e.hash)))
  unfolding verify_record
  verify_record-contents r previous k =
      let (same, (id, hash)) = check-contents previous r _ _ _ k in
      (same, (string_of-some _ id, string_of-some _ hash))
