-- ===== src/TrustAuthority/Aggregate.antt =====
-- `aggregateTrustScore` of reference-implementations/trust-authority/src/aggregation.ts; the age of the oldest
-- receipt, which nothing reads, is left out. The exponential is a parameter.
use ttp_protocol.Common.{
  String, ℕ, Option, none, some, List, [], ◌∷◌, if◌then◌else◌, ◌==◌, keep, length, find, Numbers,
}
use ttp_protocol.Json.{Fields, Platform}
use ttp_protocol.Json.Values.{get}
use ttp_protocol.TrustAuthority.{Host}

pub record AggregationResult (Num : Type 0) : Type 0 where
  pub score : Num
  pub contributing_receipts : ℕ
  pub contributing_issuers : ℕ

-- What an issuer's receipts come to.
pub record IssuerSum (Num : Type 0) : Type 0 where
  pub id : String
  pub weighted_sum : Num
  pub total_weight : Num

module _ {Num : Type 0} ⦃number : Numbers Num⦄ (p : Platform Num) (h : Host Num) where
  abbrev pub seconds : ℕ → Num
  seconds n = number.decimal n 0

  abbrev pub number_at : Fields Num → String → Num
  number_at r key = p.to_number (get r key)

  abbrev pub age_ms : Num → Fields Num → Num
  age_ms now r = number.sub now (number_at r "timestamp")

  -- The receipts of the last 300 seconds.
  unfoldable pub window_receipts : Num → List (Fields Num) → List (Fields Num)
  window_receipts now receipts =
      keep (λ r. number.le (age_ms now r) (number.decimal 300_000 0)) receipts

  abbrev pub decay_weight : Num → Fields Num → Num
  decay_weight now r = h.exp (
      h.divide
        (number.mul (number.sub (number.decimal 0 0) h.ln_2)
          (h.divide (age_ms now r) (number.decimal 1_000 0)))
        (number.decimal 120 0))

  unfoldable pub signal_weight : Num → Fields Num → Num
  signal_weight now r =
      if number.lt (number_at r "score") (number.decimal 5 1)
      then number.mul (decay_weight now r) (number.decimal 15 1)
      else decay_weight now r

  -- A receipt is added to the sums of its issuer.
  abbrev pub add_receipt : Num → Fields Num → List (IssuerSum Num) → List (IssuerSum Num)
  add_receipt now r [] =
      record {
        id = h.text (get r "issuer_id");
        weighted_sum =
            number.add (number.decimal 0 0)
              (number.mul (number_at r "score") (signal_weight now r));
        total_weight = number.add (number.decimal 0 0) (signal_weight now r);
      }
      ∷ []
  add_receipt now r (s ∷ sums) =
      let rest = add_receipt now r sums in
      if s.id == h.text (get r "issuer_id")
      then record s {
        weighted_sum =
            number.add s.weighted_sum (number.mul (number_at r "score") (signal_weight now r));
        total_weight = number.add s.total_weight (signal_weight now r);
      }
        ∷ sums
      else s ∷ rest

  unfoldable pub issuer_sums : Num → List (Fields Num) → List (IssuerSum Num) → List (IssuerSum Num)
  issuer_sums now [] sums = sums
  issuer_sums now (r ∷ receipts) sums = issuer_sums now receipts (add_receipt now r sums)

  -- `xs.reduce((sum, x) => sum + f(x), 0)`
  abbrev pub total : {A : Type 0} → (A → Num) → Num → List A → Num
  total f sum [] = sum
  total f sum (x ∷ xs) = total f (number.add sum (f x)) xs

  -- `Math.min(a, b)` and `Math.max(a, b)` of numbers that are not NaN.
  abbrev pub min_num : Num → Num → Num
  min_num a b = if number.lt b a then b else a

  abbrev pub max_num : Num → Num → Num
  max_num a b = if number.lt a b then b else a

  abbrev pub cap_of : List (String × Num) → String → Num
  cap_of caps id = elim (find (λ (c : String × Num). c.0 == id) caps) [
    | none ↦ number.decimal 4 1
    | some (_, cap) ↦ cap
  ]

  abbrev pub capped_fraction : List (String × Num) → Num → IssuerSum Num → Num
  capped_fraction caps raw s = min_num (h.divide s.total_weight raw) (cap_of caps s.id)

  -- The score of the sums, clamped to [0, 1].
  unfoldable pub score_of_sums : List (String × Num) → List (IssuerSum Num) → Num
  score_of_sums caps sums =
      let zero' = number.decimal 0 0 in
      let raw = total (λ (s : IssuerSum Num). s.total_weight) zero' sums in
      let factor = total (capped_fraction caps raw) zero' sums in
      let score =
        total
          (λ (s : IssuerSum Num).
            number.mul (h.divide s.weighted_sum s.total_weight)
              (h.divide (capped_fraction caps raw s) factor))
          zero' sums in
      max_num zero' (min_num (number.decimal 1 0) score)

  -- `none` is INSUFFICIENT_TRUST_DATA.
  unfoldable pub aggregate_trust_score :
      List (Fields Num) → Num → List (String × Num) → Option (AggregationResult Num)
  aggregate_trust_score receipts now caps = elim (window_receipts now receipts) [
    | [] ↦ none
    | r ∷ rest ↦
        let sums = issuer_sums now (r ∷ rest) [] in
        some (record {
          score = score_of_sums caps sums;
          contributing_receipts = length (r ∷ rest);
          contributing_issuers = length sums;
        })
  ]
