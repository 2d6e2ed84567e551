-- ===== src/TrustAuthority/Counts.antt =====
-- How the replies of reference-implementations/trust-authority/src/routes.ts that accept an id stand to the
-- ids that store.ts has seen.
use ttp_protocol.Common.{
  ◌≡◌, refl, sym, subst, String, Bool, false, not, ◌||◌, ℕ, ltb, Option, none, some, inl, inr,
  arith, Bool-cases, Option-cases, Numbers, eq_iff, ◌==◌, ◌≤◌, ◌+◌, if◌then◌else◌, List, [], ◌∷◌,
  ◌++◌,
}
use ttp_protocol.Json.{Json, str, num, arr, obj, Items, nil, cons, Fields, Platform, null, bool}
use ttp_protocol.Json.Values.{get-set_other, get, set, strict_eq, truthy}
use ttp_protocol.TrustAuthority.{TtpStore, Host, is_receipt_duplicate, store_receipt}
use ttp_protocol.TrustAuthority.Submit.{
  Reply, accepted, duplicate, refused, Outside, keep_receipt, submit_receipt, submit_each,
  submit_batch, submit_peer_object, submit_peer_receipt, count,
}
use ttp_protocol.TrustAuthority.Outcomes.{Outcome, submit_cases, peer_cases}

-- Whether a reply accepts the text id.
abbrev pub accepts_id : {Num : Type 0} → String → Reply Num → Bool
accepts_id id (accepted (some (str s))) = id == s
accepts_id id _ = false

-- How many replies accept the text id.
abbrev pub acceptances : {Num : Type 0} → String → List (Reply Num) → ℕ
acceptances id [] = 0
acceptances id (reply ∷ replies) = (if accepts_id id reply then 1 else 0) + acceptances id replies

pub acceptances-append :
    {Num : Type 0} (id : String) (xs ys : List (Reply Num))
    → acceptances id (xs ++ ys) ≡ acceptances id xs + acceptances id ys
acceptances-append id [] ys = omega arith
acceptances-append id (x ∷ xs) ys = omega (arith, acceptances-append id xs ys)

-- The replies of a batch, none where it is refused as a whole.
abbrev pub replies_of : {Num : Type 0} → Option (List (Reply Num)) → List (Reply Num)
replies_of none = []
replies_of (some replies) = replies

module _ {Num : Type 0} ⦃number : Numbers Num⦄ (p : Platform Num) (h : Host Num) where
  -- One where the id is among those seen.
  unfoldable pub mark : String → TtpStore Num → ℕ
  mark id store = if is_receipt_duplicate (some (str id)) store then 1 else 0

  -- An acceptance of an id makes it seen, and there is none of an id that is seen.
  unfoldable pub Counts : String → TtpStore Num → List (Reply Num) × TtpStore Num → Type 0
  Counts id store result = acceptances id result.0 + mark id store ≤ mark id result.1

  fresh-mark :
      (id : String) (s : TtpStore Num)
      → is_receipt_duplicate (some (str id)) s ≡ false
      → mark id s ≡ 0
  unfolding mark
  fresh-mark id s e = rw e refl

  mark-stored :
      (id : String) (now : ℕ) (v : Json Num) (s t : TtpStore Num)
      → t.seen ≡ (v, now) ∷ s.seen
      → mark id t ≡ (if strict_eq (some (str id)) (some v) then 1 else mark id s)
  unfolding is_receipt_duplicate mark
  mark-stored id now v s t e = rw e (ground arith)

  -- How a value that is stored as an id stands to the marks.
  stored-Counts :
      (id : String) (now : ℕ) (v : Json Num) (s t : TtpStore Num)
      → is_receipt_duplicate (some v) s ≡ false
      → t.seen ≡ (v, now) ∷ s.seen
      → (if accepts_id id (accepted (some v)) then 1 else 0) + mark id s ≤ mark id t
  stored-Counts id now (str k) s t fresh e = elim (Bool-cases (id == k)) [
    | inl same ↦
        let unmarked : mark id s ≡ 0 = rw ((eq_iff id k).0 same) (fresh-mark k s fresh) in
        rw (mark-stored id now (str k) s t e, same, unmarked) (omega arith)
    | inr other ↦ rw (mark-stored id now (str k) s t e, other) (omega arith)
  ]
  stored-Counts id now null s t fresh e = rw (mark-stored id now null s t e) (omega arith)
  stored-Counts id now (bool b) s t fresh e = rw (mark-stored id now (bool b) s t e) (omega arith)
  stored-Counts id now (num n) s t fresh e = rw (mark-stored id now (num n) s t e) (omega arith)
  stored-Counts id now (arr xs) s t fresh e = rw (mark-stored id now (arr xs) s t e) (omega arith)
  stored-Counts id now (obj fs) s t fresh e = rw (mark-stored id now (obj fs) s t e) (omega arith)

  same_seen-mark : (id : String) (s t : TtpStore Num) → t.seen ≡ s.seen → mark id s ≤ mark id t
  unfolding is_receipt_duplicate mark
  same_seen-mark id s t e = rw e (omega arith)

  keep_receipt-Counts :
      (id : String) (now : ℕ) (r : Fields Num) (store : TtpStore Num)
      → (if accepts_id id (keep_receipt p h now r store).0 then 1 else 0) + mark id store
        ≤ mark id (keep_receipt p h now r store).1
  unfolding keep_receipt store_receipt
  keep_receipt-Counts id now r store =
      let same = get-set_other "accepted_at" "receipt_id" (num (number.decimal now 0)) r refl in
      elim (Option-cases (get r "receipt_id")) [
        | inl none' ↦ elim (Bool-cases (is_receipt_duplicate none store)) [
          | inl old ↦ rw (none', old) (omega arith)
          | inr fresh ↦
              rw (none', fresh)
                (let kept =
                    store_receipt h now (set "accepted_at" (num (number.decimal now 0)) r) store in
                  let unmoved : mark id store ≤ mark id kept =
                    same_seen-mark id store kept (rw (same, none') refl) in
                  omega arith)
        ]
        | inr (v, some') ↦ elim (Bool-cases (is_receipt_duplicate (some v) store)) [
          | inl old ↦ rw (some', old) (omega arith)
          | inr fresh ↦
              rw (some', fresh) (stored-Counts id now v store _ fresh (rw (same, some') refl))
        ]
      ]

  Outcome-Counts :
      (id : String) (now : ℕ) (r : Fields Num) (store : TtpStore Num)
      (result : Reply Num × TtpStore Num)
      → Outcome p h now r store result
      → Counts id store (result.0 ∷ [], result.1)
  unfolding Counts
  Outcome-Counts id now r store (accepted v, t) (inl (_, no')) = absurd (ground arith)
  Outcome-Counts id now r store (duplicate v, t) (inl (same, _)) = rw same (omega arith)
  Outcome-Counts id now r store (refused c e, t) (inl (same, _)) = rw same (omega arith)
  Outcome-Counts id now r store result (inr same) =
      subst (λ x. Counts id store (x.0 ∷ [], x.1)) (sym same)
        (omega (arith, keep_receipt-Counts id now r store))

  unchanged-Counts :
      (id : String) (store : TtpStore Num) (status : ℕ) (code : String)
      → Counts id store (refused status code ∷ [], store)
  unfolding Counts
  unchanged-Counts id store status code = omega arith

  pub submit-Counts :
      (id : String) (now : ℕ) (body : Option (Json Num)) (store : TtpStore Num)
      → Counts id store
          ((submit_receipt p h now body store).0 ∷ [], (submit_receipt p h now body store).1)
  unfolding submit_receipt
  submit-Counts id now none store = unchanged-Counts id store _ _
  submit-Counts id now (some null) store = unchanged-Counts id store _ _
  submit-Counts id now (some (bool b)) store = unchanged-Counts id store _ _
  submit-Counts id now (some (num n)) store = unchanged-Counts id store _ _
  submit-Counts id now (some (str s)) store = unchanged-Counts id store _ _
  submit-Counts id now (some (arr xs)) store = unchanged-Counts id store _ _
  submit-Counts id now (some (obj r)) store =
      Outcome-Counts id now r store _ (submit_cases p h now r store)

  each-Counts :
      (id : String) (now : ℕ) (items : Items Num) (store : TtpStore Num)
      → Counts id store (submit_each p h now items store)
  unfolding submit_each Counts
  each-Counts id now nil store = omega arith
  each-Counts id now (cons r rest) store =
      let first = submit-Counts id now (some r) store in
      let others = each-Counts id now rest (submit_receipt p h now (some r) store).1 in
      omega (arith, first, others)

  pub batch-Counts :
      (id : String) (now : ℕ) (body : Option (Json Num)) (store : TtpStore Num)
      → Counts id store
          (replies_of (submit_batch p h now body store).0, (submit_batch p h now body store).1)
  unfolding submit_batch Counts
  batch-Counts id now none store = omega arith
  batch-Counts id now (some null) store = omega arith
  batch-Counts id now (some (bool b)) store = omega arith
  batch-Counts id now (some (num n)) store = omega arith
  batch-Counts id now (some (str s)) store = omega arith
  batch-Counts id now (some (obj r)) store = omega arith
  batch-Counts id now (some (arr nil)) store = omega arith
  batch-Counts id now (some (arr (cons r rest))) store =
      let all = each-Counts id now (cons r rest) store in
      elim (Bool-cases (ltb 100 (count p h (cons r rest)))) [
        | inl large ↦ rw large (omega arith)
        | inr small ↦ rw small all
      ]

  peer_object-Counts :
      (id : String) (outside : Outside Num) (receipt : Json Num) (payload : Option (Json Num))
      (store : TtpStore Num)
      → Counts id store (
        (submit_peer_object p h outside receipt payload store).0 ∷ [],
        (submit_peer_object p h outside receipt payload store).1,
      )
  unfolding submit_peer_object
  peer_object-Counts id outside (obj r) payload store =
      Outcome-Counts id outside.now r store _ (peer_cases p h outside r payload store)
  peer_object-Counts id outside null payload store = unchanged-Counts id store _ _
  peer_object-Counts id outside (bool b) payload store = unchanged-Counts id store _ _
  peer_object-Counts id outside (num n) payload store = unchanged-Counts id store _ _
  peer_object-Counts id outside (str s) payload store = unchanged-Counts id store _ _
  peer_object-Counts id outside (arr xs) payload store = unchanged-Counts id store _ _

  pub peer-Counts :
      (id : String) (outside : Outside Num) (receipt token : Option (Json Num))
      (store : TtpStore Num)
      → Counts id store (
        (submit_peer_receipt p h outside receipt token store).0 ∷ [],
        (submit_peer_receipt p h outside receipt token store).1,
      )
  unfolding submit_peer_receipt
  peer-Counts id outside none token store = unchanged-Counts id store _ _
  peer-Counts id outside (some r) none store = unchanged-Counts id store _ _
  peer-Counts id outside (some r) (some t) store =
      let told = peer_object-Counts id outside r (h.decode_claims t) store in
      elim (Bool-cases (not (truthy (some r)) || not (truthy (some t)))) [
        | inl missing ↦ rw missing (unchanged-Counts id store _ _)
        | inr given ↦ rw given told
      ]
