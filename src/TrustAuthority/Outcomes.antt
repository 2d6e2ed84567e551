-- ===== src/TrustAuthority/Outcomes.antt =====
-- What a call that takes one receipt does, in reference-implementations/trust-authority/src/routes.ts.
use ttp_protocol.Common.{
  ◌≡◌, refl, Bool, true, false, ℕ, Option, none, some, ◌⊎◌, inl, inr, arith, Option-cases, Numbers,
}
use ttp_protocol.Json.{Json, obj, Fields, Platform}
use ttp_protocol.Json.Values.{get}
use ttp_protocol.TrustAuthority.{TtpStore, Host, RegisteredIssuer}
use ttp_protocol.TrustAuthority.Submit.{
  Reply, refused, Outside, validate_fields, keep_receipt, submit_valid, submit_receipt,
  submit_peer_valid, submit_peer_object, claims_of, issuer_of,
}

abbrev pub is_refused : {Num : Type 0} → Reply Num → Bool
is_refused (refused _ _) = true
is_refused _ = false

module _ {Num : Type 0} ⦃number : Numbers Num⦄ (p : Platform Num) (h : Host Num) where
  -- A submission leaves the store and is refused, or keeps its receipt.
  abbrev pub Outcome : ℕ → Fields Num → TtpStore Num → Reply Num × TtpStore Num → Type 0
  Outcome now r store result =
      ((result.1 ≡ store) × (is_refused result.0 ≡ true)) ⊎ (result ≡ keep_receipt p h now r store)

  valid_cases :
      (now : ℕ) (r : Fields Num) (issuer : Option (RegisteredIssuer Num)) (store : TtpStore Num)
      → Outcome now r store (submit_valid p h now r issuer store)
  unfolding submit_valid
  valid_cases now r none store = inl (refl, refl)
  valid_cases now r (some issuer) store = ground arith

  pub submit_cases :
      (now : ℕ) (r : Fields Num) (store : TtpStore Num)
      → Outcome now r store (submit_receipt p h now (some (obj r)) store)
  unfolding submit_receipt
  submit_cases now r store = elim (Option-cases (validate_fields p h r now store)) [
    | inl none' ↦
        rw (none', submit_receipt)
          (valid_cases now r (issuer_of p h (get r "issuer_id") store) store)
    | inr (error, some') ↦ inl (ground (arith, some'), ground (arith, some'))
  ]

  peer_valid_cases :
      (outside : Outside Num) (r : Fields Num) (payload : Option (Json Num))
      (issuer : Option (RegisteredIssuer Num)) (store : TtpStore Num)
      → Outcome outside.now r store (submit_peer_valid p h outside r payload issuer store)
  unfolding submit_peer_valid
  peer_valid_cases outside r payload none store = inl (refl, refl)
  peer_valid_cases outside r payload (some issuer) store =
      elim (Option-cases (claims_of p h payload)) [
        | inl none' ↦ ground (arith, none')
        | inr (c, some') ↦ ground (arith, some')
      ]

  pub peer_cases :
      (outside : Outside Num) (r : Fields Num) (payload : Option (Json Num)) (store : TtpStore Num)
      → Outcome outside.now r store (submit_peer_object p h outside (obj r) payload store)
  unfolding submit_peer_object
  peer_cases outside r payload store =
      elim (Option-cases (validate_fields p h r outside.now store)) [
        | inl none' ↦
            rw (none', submit_peer_object)
              (peer_valid_cases outside r payload (issuer_of p h (get r "issuer_id") store) store)
        | inr (error, some') ↦ inl (ground (arith, some'), ground (arith, some'))
      ]
