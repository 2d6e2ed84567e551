-- ===== src/Receipt/Chain.antt =====
-- What a verified receipt of packages/pctr/src/receipt.mjs shows, and what a verified chain of them.
use ttp_protocol.Common.{
  ◌≡◌, ◌≢◌, ◌↔◌, refl, ap, inl, inr, String, true, false, not, ◌&&◌, Option, some, List, [], ◌∷◌,
  ◌++◌, Numbers, Bool-cases, is_empty, is_empty-eq-nil, append-nil_iff, fail_if-nil_iff,
  fail_unless-nil_iff, eq_iff, ◌==◌, arith, is_some,
}
use ttp_protocol.Json.{Json, null, str, obj, Platform, hash_obj}
use ttp_protocol.Json.Values.{get, get?, strict_eq, truthy, strict_eq-str_right, strict_eq-str_iff}
use ttp_protocol.Signing.{Crypto}
use ttp_protocol.Authority.{identity_matches, unlisted}
use ttp_protocol.Receipt.{
  Receipt, Options, time_invalid, verifying_key, signature_failures, breaks_chain, failures_of,
  verify_receipt, chain_failures, chain_valid,
}

module _ {Num Key : Type 0} ⦃number : Numbers Num⦄ (p : Platform Num) (c : Crypto Key)
    (o : Options Num Key) where
  -- What a valid receipt shows; `prior` is the expected hash, where one is expected.
  pub record IsGenuine (prior : Option (Json Num)) (r : Receipt Num Key) : Type 0 where
    pub unaltered : hash_obj ⦃p = p⦄ (obj r.payload) ≡ r.receipt_hash
    pub identity :
        (is_some (verifying_key p c o r)
          && not (identity_matches p c (verifying_key p c o r) (get r.payload "keyId")))
        ≡ false
    pub signed : signature_failures p c (verifying_key p c o r) r ≡ []
    pub listed : unlisted p c o.trusted_key_ids (get r.payload "keyId") ≡ false
    pub timely :
        time_invalid (p.parse_date (get r.payload "issuedAt")) (p.parse_date (some o.now)) ≡ false
    pub linked : breaks_chain p c prior (get r.payload "priorReceiptHash") ≡ false
    pub executed_with_authority :
        (truthy (get r.payload "executed")
          && not (
              strict_eq
                (get? (get r.payload "verifier") "decision")
                (some (str "EXECUTION_ALLOWED"))))
        ≡ false

  failures_of-nil_iff :
      (prior : Option (Json Num)) (r : Receipt Num Key)
      → (failures_of p c o prior r ≡ []) ↔ IsGenuine prior r
  unfolding failures_of
  failures_of-nil_iff prior r = (
    (λ e.
        let (a, e1) = (append-nil_iff _ _).0 e in
        let (b, e2) = (append-nil_iff _ _).0 e1 in
        let (s, e3) = (append-nil_iff _ _).0 e2 in
        let (l, e4) = (append-nil_iff _ _).0 e3 in
        let (t, e5) = (append-nil_iff _ _).0 e4 in
        let (k, x) = (append-nil_iff _ _).0 e5 in
        record {
          unaltered = (eq_iff _ _).0 ((fail_unless-nil_iff _ _).0 a);
          identity = (fail_if-nil_iff _ _).0 b;
          signed = s;
          listed = (fail_if-nil_iff _ _).0 l;
          timely = (fail_if-nil_iff _ _).0 t;
          linked = (fail_if-nil_iff _ _).0 k;
          executed_with_authority = (fail_if-nil_iff _ _).0 x;
        }),
    (λ h.
        rw
          (
            (fail_unless-nil_iff (hash_obj ⦃p = p⦄ (obj r.payload) == r.receipt_hash) _).1
                ((eq_iff _ _).1 h.unaltered),
            h.identity,
            h.signed,
            h.listed,
            h.timely,
            h.linked,
            h.executed_with_authority,
          )
          refl),
  )

  -- A genuine receipt names the hash expected.
  IsGenuine-linked :
      (v : Json Num) (r : Receipt Num Key)
      → IsGenuine (some v) r
      → strict_eq (get r.payload "priorReceiptHash") (some v) ≡ true
  IsGenuine-linked v r h = ground (arith, h.linked)

  -- Each receipt of a chain is genuine and names the hash of the one before.
  abbrev pub IsChain : Json Num → List (Receipt Num Key) → Type 0
  IsChain prior [] = Unit
  IsChain prior (r ∷ rs) = IsGenuine (some prior) r × IsChain (str r.receipt_hash) rs

  chain_failures-nil :
      (prior : Json Num) (rs : List (Receipt Num Key))
      → chain_failures p c o prior rs ≡ []
      → IsChain prior rs
  unfolding chain_failures verify_receipt
  chain_failures-nil prior [] e = tt
  chain_failures-nil prior (r ∷ rs) e =
      let (now, later) = (append-nil_iff _ _).0 e in
      (
        (failures_of-nil_iff (some prior) r).0
            (is_empty-eq-nil _ ((fail_unless-nil_iff _ _).0 now)),
        chain_failures-nil (str r.receipt_hash) rs later,
      )

  IsChain-chain_failures :
      (prior : Json Num) (rs : List (Receipt Num Key))
      → IsChain prior rs
      → chain_failures p c o prior rs ≡ []
  unfolding chain_failures verify_receipt
  IsChain-chain_failures prior [] h = refl
  IsChain-chain_failures prior (r ∷ rs) (g, h) = (append-nil_iff _ _).1 (
    (fail_unless-nil_iff _ _).1 (ap is_empty ((failures_of-nil_iff (some prior) r).1 g)),
    IsChain-chain_failures (str r.receipt_hash) rs h,
  )

-- The hash that the receipt after `rs` must name.
abbrev pub link_after : {Num Key : Type 0} → Json Num → List (Receipt Num Key) → Json Num
link_after prior [] = prior
link_after prior (r ∷ rs) = link_after (str r.receipt_hash) rs

module _ {Num Key : Type 0} ⦃number : Numbers Num⦄ (p : Platform Num) (c : Crypto Key)
    (o : Options Num Key) where
  IsChain-append_middle :
      (prior : Json Num) (before : List (Receipt Num Key)) (r : Receipt Num Key)
      (after : List (Receipt Num Key))
      → IsChain p c o prior (before ++ r ∷ after)
      → IsGenuine p c o (some (link_after prior before)) r
        × IsChain p c o (str r.receipt_hash) after
  IsChain-append_middle prior [] r after h = h
  IsChain-append_middle prior (x ∷ before) r after (_, h) =
      IsChain-append_middle (str x.receipt_hash) before r after h

same_link :
    {Num : Type 0} ⦃number : Numbers Num⦄ (v : Option (Json Num)) (s : String) (link : Json Num)
    → strict_eq v (some (str s)) ≡ true
    → strict_eq v (some link) ≡ true
    → link ≡ str s
same_link v s link h k =
    let named = strict_eq-str_right v s h in
    cc ((strict_eq-str_iff s (some link)).0 (rw named at k))

-- A chain is valid exactly when each of its receipts is genuine and names the hash of the receipt
-- before it, the first one null.
pub chain_valid_iff :
    {Num Key : Type 0} ⦃number : Numbers Num⦄ (p : Platform Num) (c : Crypto Key)
    (o : Options Num Key) (rs : List (Receipt Num Key))
    → (chain_valid p c o rs ≡ true) ↔ IsChain p c o null rs
unfolding chain_valid
chain_valid_iff p c o rs = (
  (λ h. chain_failures-nil p c o null rs (is_empty-eq-nil _ h)),
  (λ h. ap is_empty (IsChain-chain_failures p c o null rs h)),
)

-- A receipt that is taken out of a valid chain, other than its last, leaves a chain that is not valid,
-- unless its hash is that of the receipt before it.
pub dropped_receipt_detected :
    {Num Key : Type 0} ⦃number : Numbers Num⦄ (p : Platform Num) (c : Crypto Key)
    (o : Options Num Key) (before : List (Receipt Num Key)) (dropped next : Receipt Num Key)
    (after : List (Receipt Num Key))
    → chain_valid p c o (before ++ dropped ∷ next ∷ after) ≡ true
    → link_after null before ≢ str dropped.receipt_hash
    → chain_valid p c o (before ++ next ∷ after) ≡ false
dropped_receipt_detected p c o before dropped next after whole differs =
    elim (Bool-cases (chain_valid p c o (before ++ next ∷ after))) [
      | inr no' ↦ no'
      | inl yes' ↦
          let named =
            IsGenuine-linked p c o _ next
              (IsChain-append_middle p c o null before dropped (next ∷ after)
                ((chain_valid_iff p c o _).0 whole)).1.0 in
          let named' =
            IsGenuine-linked p c o _ next
              (IsChain-append_middle p c o null before next after
                ((chain_valid_iff p c o _).0 yes')).0 in
          absurd (differs (same_link _ _ _ named named'))
    ]
