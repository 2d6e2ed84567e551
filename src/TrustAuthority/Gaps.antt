-- ===== src/TrustAuthority/Gaps.antt =====
-- Receipts that reference-implementations/trust-authority/src accepts although its rules are against them.
use ttp_protocol.Common.{
  ◌≡◌, refl, ap, ◌∙◌, String, Bool, true, false, not, ℕ, ◌-◌, ltb, Option, none, some, List, [],
  ◌∷◌, arith, Numbers, any, keep,
}
use ttp_protocol.Json.{Json, null, bool, arr, str, num, obj, Fields, Platform}
use ttp_protocol.Json.Values.{get-set_other, get, strict_eq}
use ttp_protocol.TrustAuthority.{
  TtpStore, Host, RegisteredIssuer, get_issuer, is_receipt_duplicate, store_receipt,
  prune_old_receipts,
}
use ttp_protocol.TrustAuthority.Submit.{
  accepted, validate_fields, keep_receipt, submit_valid, submit_receipt, issuer_of,
  verify_receipt_signature,
}

module _ {Num : Type 0} ⦃number : Numbers Num⦄ (p : Platform Num) (h : Host Num) where
  forgotten :
      (id : Option (Json Num)) (seen : List (Json Num × ℕ)) (q : Json Num × ℕ → Bool)
      → any (λ (e : Json Num × ℕ). strict_eq id (some e.0)) seen ≡ false
      → any (λ (e : Json Num × ℕ). strict_eq id (some e.0)) (keep q seen) ≡ false
  forgotten id [] q e = refl
  forgotten id (x ∷ xs) q e = ground (arith, forgotten id xs q)

  pruned_away :
      (id : String) (r : Fields Num) (now later : ℕ) (store : TtpStore Num)
      → get r "receipt_id" ≡ some (str id)
      → is_receipt_duplicate (some (str id)) store ≡ false
      → ltb 86_400_000 (later - now) ≡ true
      → is_receipt_duplicate
          (some (str id))
          (prune_old_receipts p 86_400_000 later (keep_receipt p h now r store).1)
        ≡ false
  unfolding is_receipt_duplicate keep_receipt store_receipt prune_old_receipts
  pruned_away id r now later store named fresh old =
      let same = get-set_other "accepted_at" "receipt_id" (num (number.decimal now 0)) r refl in
      let rest =
        forgotten (some (str id)) store.seen
          (λ (e : Json Num × ℕ). not (ltb 86_400_000 (later - e.1))) fresh in
      ground (arith, same, named, old, rest)

  issuer_of-issuers :
      (v : Option (Json Num)) (s t : TtpStore Num)
      → s.issuers ≡ t.issuers
      → issuer_of p h v s ≡ issuer_of p h v t
  unfolding get_issuer
  issuer_of-issuers none s t e = refl
  issuer_of-issuers (some (str id)) s t e = rw e refl
  issuer_of-issuers (some null) s t e = refl
  issuer_of-issuers (some (bool b)) s t e = refl
  issuer_of-issuers (some (num n)) s t e = refl
  issuer_of-issuers (some (arr xs)) s t e = refl
  issuer_of-issuers (some (obj fs)) s t e = refl

  validate-issuers :
      (r : Fields Num) (now : ℕ) (s t : TtpStore Num)
      → s.issuers ≡ t.issuers
      → validate_fields p h r now s ≡ validate_fields p h r now t
  unfolding validate_fields
  validate-issuers r now s t e = rw (issuer_of-issuers (get r "issuer_id") s t e) refl

  kept-issuers :
      (now later : ℕ) (r : Fields Num) (store : TtpStore Num)
      → (prune_old_receipts p 86_400_000 later (keep_receipt p h now r store).1).issuers
        ≡ store.issuers
  unfolding prune_old_receipts keep_receipt store_receipt
  kept-issuers now later r store = ground arith

  accepts :
      (id : String) (now : ℕ) (r : Fields Num) (store : TtpStore Num)
      (issuer : RegisteredIssuer Num)
      → get r "receipt_id" ≡ some (str id)
      → validate_fields p h r now store ≡ none
      → issuer_of p h (get r "issuer_id") store ≡ some issuer
      → verify_receipt_signature p h r issuer.public_key ≡ true
      → is_receipt_duplicate (some (str id)) store ≡ false
      → (submit_receipt p h now (some (obj r)) store ≡ keep_receipt p h now r store)
        × ((keep_receipt p h now r store).0 ≡ accepted (some (str id)))
  unfolding submit_receipt submit_valid keep_receipt
  accepts id now r store issuer named valid known signed fresh =
      (rw (valid, known, submit_receipt, submit_valid, signed) refl, ground (arith, named, fresh))

-- A receipt that is valid more than a day after it was accepted, as one dated in the future is, is accepted
-- again when the store was pruned.
pub replay_after_prune :
    {Num : Type 0} ⦃number : Numbers Num⦄ (p : Platform Num) (h : Host Num) (id : String)
    (now later : ℕ) (r : Fields Num) (store : TtpStore Num) (issuer : RegisteredIssuer Num)
    → get r "receipt_id" ≡ some (str id)
    → is_receipt_duplicate (some (str id)) store ≡ false
    → validate_fields p h r now store ≡ none
    → validate_fields p h r later store ≡ none
    → issuer_of p h (get r "issuer_id") store ≡ some issuer
    → verify_receipt_signature p h r issuer.public_key ≡ true
    → ltb 86_400_000 (later - now) ≡ true
    → ((submit_receipt p h now (some (obj r)) store).0 ≡ accepted (some (str id)))
      × ((submit_receipt p h later (some (obj r)) (
            prune_old_receipts p 86_400_000 later
              (submit_receipt p h now (some (obj r)) store).1)).0
          ≡ accepted (some (str id)))
replay_after_prune p h id now later r store issuer named fresh valid valid' known signed old =
    let away = pruned_away p h id r now later store named fresh old in
    let first = accepts p h id now r store issuer named valid known signed fresh in
    let kept = prune_old_receipts p 86_400_000 later (keep_receipt p h now r store).1 in
    let same = kept-issuers p h now later r store in
    let second =
      accepts p h id later r kept issuer named
        (validate-issuers p h r later kept store same ∙ valid')
        (issuer_of-issuers p h (get r "issuer_id") kept store same ∙ known) signed away in
    (
      ap (λ x. x.0) first.0 ∙ first.1,
      ap
            (λ x.
              (submit_receipt p h later (some (obj r))
                (prune_old_receipts p 86_400_000 later x.1)).0)
            first.0
          ∙ ap (λ x. x.0) second.0
          ∙ second.1,
    )
