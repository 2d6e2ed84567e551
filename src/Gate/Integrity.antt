-- ===== src/Gate/Integrity.antt =====
-- The receipts that reference-implementations/runtime-authority-gate/server.mjs stores.
use ttp_protocol.Common.{
  ◌≡◌, ◌≢◌, refl, sym, ◌∙◌, String, true, Option, none, some, List, [], ◌∷◌, ◌++◌, All, find,
  Option-cases, inl, inr, Numbers, last, eq_refl, All-snoc,
}
use ttp_protocol.Json.{Fields, Platform}
use ttp_protocol.Json.Values.{get}
use ttp_protocol.Gate.{Machine}
use ttp_protocol.Gate.Evaluate.{Evaluation, evaluate_trust}
use ttp_protocol.Gate.Receipts.{hmac, SigningMachine, sign_hash, verify_hash, Receipt}
use ttp_protocol.Gate.Handlers.{
  Moment, Server, chain_of, has_id, seal, build_receipt, canonical_text, authorize, reauthorize,
}

module _ {Num : Type 0} ⦃number : Numbers Num⦄ (p : Platform Num) (m : Machine Num)
    (s : SigningMachine) (server : Server) where
  -- A call of one of the two handlers.
  pub data Step (before : List (Receipt Num)) : List (Receipt Num) → Type 0 where
    authorized :
        (now : Moment Num) (body : Option (Fields Num))
        → Step before (authorize p m s server now body before).1
    reauthorized :
        (now : Moment Num) (body : Option (Fields Num))
        → Step before (reauthorize p m s server now body before).1

  -- Any sequence of calls.
  pub data Reach (start : List (Receipt Num)) : List (Receipt Num) → Type 0 where
    here : Reach start start
    next : {t u : List (Receipt Num)} → Reach start t → Step t u → Reach start u

  -- Every receipt carries a signature of the hash that it holds.
  abbrev pub IsSigned : String → Receipt Num → Type 0
  IsSigned secret r = verify_hash s secret none r.hash r.signed.signature r.signed.alg ≡ true

  build_receipt-IsSigned :
      (secret : String) (now : Moment Num) (before : List (Receipt Num)) (request : Fields Num)
      (result : Evaluation Num)
      → server.signer ≡ hmac secret
      → IsSigned secret (build_receipt p m s server now before request result)
  unfolding build_receipt seal sign_hash verify_hash
  build_receipt-IsSigned secret now before request result e = rw e (eq_refl _)

  Step-All :
      (secret : String) {before after : List (Receipt Num)}
      → server.signer ≡ hmac secret
      → Step before after
      → All (IsSigned secret) before
      → All (IsSigned secret) after
  unfolding authorize reauthorize
  Step-All secret e (authorized now none) h = h
  Step-All secret {before} e (authorized now (some request)) h =
      All-snoc _ before h (build_receipt-IsSigned secret now before request _ e)
  Step-All secret e (reauthorized now none) h = h
  Step-All secret {before} e (reauthorized now (some body)) h =
      elim (Option-cases (find (has_id p m s (get body "priorReceiptId")) before)) [
        | inl none' ↦ rw (none', All) h
        | inr (prior, known) ↦
            rw (known, All) (All-snoc _ before h (build_receipt-IsSigned secret now before _ _ e))
      ]

-- Every receipt that is reached from an empty store, by any calls of the two handlers, verifies:
-- under an HMAC secret its signature is that of the hash that it holds.
pub Reach-IsSigned :
    {Num : Type 0} ⦃number : Numbers Num⦄ (p : Platform Num) (m : Machine Num) (s : SigningMachine)
    (server : Server) (secret : String) (receipts : List (Receipt Num))
    → server.signer ≡ hmac secret
    → Reach p m s server [] receipts
    → All (IsSigned p m s server secret) receipts
Reach-IsSigned p m s server secret _ e here = tt
Reach-IsSigned p m s server secret _ e (next {t} r step) =
    Step-All p m s server secret e step (Reach-IsSigned p m s server secret t e r)

-- Each receipt names the hash of the one before it; `prior` is the hash before the first.
abbrev pub IsLinked : {Num : Type 0} → String → List (Receipt Num) → Type 0
IsLinked prior [] = Unit
IsLinked prior (r ∷ rs) = (r.chain_hash ≡ prior) × IsLinked r.hash rs

abbrev pub hash_after : {Num : Type 0} → String → List (Receipt Num) → String
hash_after prior [] = prior
hash_after prior (r ∷ rs) = hash_after r.hash rs

chain_of-last :
    {Num : Type 0} (prior : String) (r : Receipt Num) (rs : List (Receipt Num))
    → chain_of (last (r ∷ rs)) ≡ hash_after prior (r ∷ rs)
chain_of-last prior r [] = refl
chain_of-last prior r (x ∷ xs) = chain_of-last r.hash x xs

hash_after-last : {Num : Type 0} (rs : List (Receipt Num)) → chain_of (last rs) ≡ hash_after "" rs
hash_after-last [] = refl
hash_after-last (r ∷ rs) = chain_of-last "" r rs

IsLinked-snoc :
    {Num : Type 0} (prior : String) (rs : List (Receipt Num)) (r : Receipt Num)
    → IsLinked prior rs
    → r.chain_hash ≡ hash_after prior rs
    → IsLinked prior (rs ++ r ∷ [])
IsLinked-snoc prior [] r h e = (e, tt)
IsLinked-snoc prior (x ∷ xs) r (a, h) e = (a, IsLinked-snoc x.hash xs r h e)

snoc-IsLinked :
    {Num : Type 0} (prior : String) (rs : List (Receipt Num)) (r : Receipt Num)
    → IsLinked prior (rs ++ r ∷ [])
    → r.chain_hash ≡ hash_after prior rs
snoc-IsLinked prior [] r (e, _) = e
snoc-IsLinked prior (x ∷ xs) r (_, h) = snoc-IsLinked x.hash xs r h

-- Authorizing keeps the receipts linked: the receipt that is added names the hash of the last one.
pub authorize-IsLinked :
    {Num : Type 0} ⦃number : Numbers Num⦄ (p : Platform Num) (m : Machine Num) (s : SigningMachine)
    (server : Server) (now : Moment Num) (body : Option (Fields Num)) (before : List (Receipt Num))
    → IsLinked "" before
    → IsLinked "" (authorize p m s server now body before).1
unfolding authorize build_receipt seal
authorize-IsLinked p m s server now none before h = h
authorize-IsLinked p m s server now (some request) before h =
    IsLinked-snoc "" before _ h (hash_after-last before)

-- Reauthorizing a receipt whose hash is not that of the last one leaves receipts that are not linked.
pub reauthorize_breaks_link :
    {Num : Type 0} ⦃number : Numbers Num⦄ (p : Platform Num) (m : Machine Num) (s : SigningMachine)
    (server : Server) (now : Moment Num) (body : Fields Num) (before : List (Receipt Num))
    (prior : Receipt Num)
    → find (has_id p m s (get body "priorReceiptId")) before ≡ some prior
    → prior.hash ≢ chain_of (last before)
    → ¬ IsLinked "" (reauthorize p m s server now (some body) before).1
unfolding reauthorize
reauthorize_breaks_link p m s server now body before prior known differs linked =
    differs
      (snoc-IsLinked "" before _ (rw (known, reauthorize) at linked) ∙ sym (hash_after-last before))

-- Where receipts of different latency hash differently and authorizing takes any time, the receipt that
-- is stored holds a hash that is not the hash of its contents.
pub stored_hash_is_stale :
    {Num : Type 0} ⦃number : Numbers Num⦄ (p : Platform Num) (m : Machine Num) (s : SigningMachine)
    (server : Server) (now : Moment Num) (request : Fields Num) (before : List (Receipt Num))
    → ((r : Receipt Num) (a b : Num)
        → p.sha256_hex (canonical_text p m s (record r { latency_ms = a }))
          ≡ p.sha256_hex (canonical_text p m s (record r { latency_ms = b }))
        → a ≡ b)
    → now.elapsed_ms ≢ number.decimal 0 0
    → (r : Receipt Num) × (((authorize p m s server now (some request) before).1 ≡ before ++ r ∷ [])
        × (r.hash ≢ p.sha256_hex (canonical_text p m s r)))
unfolding authorize build_receipt seal canonical_text
stored_hash_is_stale ⦃number = number⦄ p m s server now request before distinct took =
    let result = evaluate_trust p m server.grants now.now request in
    let built = build_receipt p m s server now before request result in
    (
      record built { latency_ms = now.elapsed_ms },
      (refl, (λ e. took (sym (distinct built (number.decimal 0 0) now.elapsed_ms e)))),
    )
