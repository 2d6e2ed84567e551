-- ===== src/Gate/Tests.antt =====
-- Requests to the gate on a toy platform whose numbers have a NaN, and the theorems at them.
use ttp_protocol.Common.{
  ◌≡◌, ◌≢◌, refl, ap, sym, ◌∙◌, String, false, ℕ, zero, suc, ◌*◌, Option, none, some, List, [], ◌∷◌,
  ◌++◌, All, with_nan, lift, text_ne,
}
use Prim.Native.Nat.{◌/◌}
use ttp_protocol.Json.{Json, str, num, Fields, Platform}
use ttp_protocol.Json.Values.{get?, fields, object}
use ttp_protocol.Json.Tests.{by_code, unary, text_length, text_length-unary}
use ttp_protocol.Gate.{
  Machine, risk_factors, compute_risk, level_of, compute_cost, budget_of, compute_compliance,
}
use ttp_protocol.Gate.Evaluate.{
  Grant, full, seed_grant, base_of, is_mythos_in_prod, requested_scope, evaluate_granted,
  evaluate_trust, map_to_rap,
}
use ttp_protocol.Gate.Receipts.{SigningMachine, hmac, Receipt, receipt_json}
use ttp_protocol.Gate.Handlers.{
  Moment, Server, build_receipt, canonical_text, authorize, reauthorize,
}
use ttp_protocol.Gate.Outcomes.{
  IsCovered, IsClean, below, full_permit_iff, unreadable_trust_is_full,
}
use ttp_protocol.Gate.Integrity.{
  authorized, here, next, IsSigned, Reach-IsSigned, IsLinked, authorize-IsLinked,
  reauthorize_breaks_link, stored_hash_is_stale,
}

-- Only the latency of a receipt is written.
abbrev latency_text : Option (Json (Option ℕ)) → String
latency_text (some (num (some n))) = unary n
latency_text _ = "NaN"

abbrev number_of : Option (Json (Option ℕ)) → Option ℕ
number_of (some (num n)) = n
number_of _ = none

abbrev platform : Platform (Option ℕ)
platform = record {
  quote = λ s. s;
  number_text = λ n. "";
  key_le = by_code;
  sha256_hex = λ s. s;
  stringify = λ v. latency_text (get? (get? (some v) "decision") "latencyMs");
  to_number = number_of;
  parse_date = λ _. some 10;
  iso_text = unary;
}

abbrev text_of : Json (Option ℕ) → String
text_of (str s) = s
text_of _ = ""

abbrev machine : Machine (Option ℕ)
machine = record {
  text = text_of;
  to_upper = λ s. s;
  to_lower = λ s. s;
  divide = lift (λ a b. a * 1_000_000 / b);
  round4 = λ x. x;
}

abbrev signing : SigningMachine
signing = record {
  hmac_sha256 = λ secret text. text;
  rsa_sign = λ key text. text;
  rsa_verify = λ key text signature. false;
}

abbrev server : Server
server = record { grants = seed_grant ∷ []; signer = hmac "local-dev-secret"; key_path = "" }

abbrev request : Json (Option ℕ) → Fields (Option ℕ)
request trust = fields (
    ("action", str "pipeline.run")
    ∷ ("resource", object (("id", str "prod") ∷ []))
    ∷ ("authorityGrant", object (("grantId", str "grant-local-001") ∷ []))
    ∷ ("context", object (("trustScore", trust) ∷ []))
    ∷ [])

abbrev grant : Grant
grant = record {
  grant_id = "grant-local-001";
  expires_at = "2030-01-01T00:00:00Z";
  scope = "pipeline.run:prod" ∷ [];
}

runs : Unit {0}
unfolding risk_factors compute_risk level_of compute_cost budget_of compute_compliance base_of
    is_mythos_in_prod requested_scope evaluate_granted evaluate_trust map_to_rap seed_grant
runs = tt

covered :
    (v : Json (Option ℕ))
    → IsCovered ⦃number = with_nan⦄ platform machine (request v) (grant ∷ []) 5 grant
unfolding runs
covered v = record {
  action_given = refl;
  resource_given = refl;
  grant_given = refl;
  known = refl;
  unexpired = refl;
  in_scope = refl;
}

clean : (v : Json (Option ℕ)) → IsClean ⦃number = with_nan⦄ platform machine (request v)
unfolding runs
clean v = record {
  not_critical = refl;
  not_mythos = refl;
  not_over = refl;
  not_high = refl;
  budgeted = refl;
}

trusted :
    (below ⦃number = with_nan⦄ platform machine (request (num (some 900_000))) 4 1 ≡ false)
    × ((below ⦃number = with_nan⦄ platform machine (request (num (some 900_000))) 65 2 ≡ false)
        × (below ⦃number = with_nan⦄ platform machine (request (num (some 900_000))) 85 2 ≡ false))
unfolding runs
trusted = (refl, (refl, refl))

full_permit_iff_example :
    (evaluate_trust ⦃number = with_nan⦄ platform machine
      (grant ∷ [])
      5
      (request (num (some 900_000)))).mode
    ≡ full
full_permit_iff_example =
    (full_permit_iff ⦃number = with_nan⦄ platform machine (grant ∷ []) 5
        (request (num (some 900_000)))).1
      (grant, (covered (num (some 900_000)), (clean (num (some 900_000)), trusted)))

unreadable :
    (bound : Option ℕ)
    → with_nan.lt
        (base_of ⦃number = with_nan⦄ platform machine (request (str "high"))).trust_score
        bound
      ≡ false
unfolding runs
unreadable bound = refl

-- A trust score that is a word is NaN.
unreadable_trust_is_full_example :
    map_to_rap
      (evaluate_trust ⦃number = with_nan⦄ platform machine
        (grant ∷ [])
        5
        (request (str "high"))).outcome
      (evaluate_trust ⦃number = with_nan⦄ platform machine
        (grant ∷ [])
        5
        (request (str "high"))).mode
    ≡ ("allow", "execute")
unreadable_trust_is_full_example =
    unreadable_trust_is_full ⦃number = with_nan⦄ platform machine (grant ∷ []) 5
      (request (str "high")) grant unreadable (covered (str "high")) (clean (str "high"))

abbrev moment : String → Moment (Option ℕ)
moment id = record {
  receipt_id = id;
  execution_id = "x";
  issued_at = "1";
  now = 5;
  elapsed_ms = some 7;
}

abbrev call : String → List (Receipt (Option ℕ)) → List (Receipt (Option ℕ))
call id before =
    (authorize ⦃number = with_nan⦄ platform machine signing server (moment id)
      (some (request (str "high"))) before).1

Reach-IsSigned_example :
    All
      (IsSigned ⦃number = with_nan⦄ platform machine signing server "local-dev-secret")
      (call "b" (call "a" []))
Reach-IsSigned_example =
    Reach-IsSigned ⦃number = with_nan⦄ platform machine signing server "local-dev-secret"
      (call "b" (call "a" [])) refl
      (next (next here (authorized (moment "a") (some (request (str "high")))))
        (authorized (moment "b") (some (request (str "high")))))

authorize-IsLinked_example : IsLinked "" (call "a" [])
authorize-IsLinked_example =
    authorize-IsLinked ⦃number = with_nan⦄ platform machine signing server (moment "a")
      (some (request (str "high"))) [] tt

latency_text_injective :
    (a b : Option ℕ) → latency_text (some (num a)) ≡ latency_text (some (num b)) → a ≡ b
latency_text_injective none none e = refl
latency_text_injective none (some zero) e = cc
latency_text_injective none (some (suc n)) e = cc
latency_text_injective (some zero) none e = cc
latency_text_injective (some (suc n)) none e = cc
latency_text_injective (some a) (some b) e =
    ap some (sym (text_length-unary a) ∙ (ap text_length e ∙ text_length-unary b))

stored_hash_is_stale_example :
    (r : Receipt (Option ℕ)) × ((call "a" [] ≡ [] ++ r ∷ [])
      × (r.hash
          ≢ platform.sha256_hex (canonical_text ⦃number = with_nan⦄ platform machine signing r)))
unfolding canonical_text receipt_json
stored_hash_is_stale_example =
    stored_hash_is_stale ⦃number = with_nan⦄ platform machine signing server (moment "a")
      (request (str "high")) [] (λ r a b e. latency_text_injective a b e) (λ e. cc)

abbrev stored : String → Receipt (Option ℕ)
stored id =
    record (build_receipt ⦃number = with_nan⦄ platform machine signing server (moment id) []
      (request (str "high"))
      (evaluate_trust ⦃number = with_nan⦄ platform machine [] 5 (request (str "high")))) {
        receipt_id = id;
        hash = id;
      }

abbrev reauthorization : Fields (Option ℕ)
reauthorization = fields (("priorReceiptId", str "a") ∷ [])

-- The first of two receipts is reauthorized.
reauthorize_breaks_link_example :
    ¬ IsLinked ""
      (reauthorize ⦃number = with_nan⦄ platform machine signing server
        (moment "c")
        (some reauthorization)
        (stored "a" ∷ stored "b" ∷ [])).1
reauthorize_breaks_link_example =
    reauthorize_breaks_link ⦃number = with_nan⦄ platform machine signing server (moment "c")
      reauthorization (stored "a" ∷ stored "b" ∷ []) (stored "a") refl (text_ne "a" "b" refl)
