-- ===== src/Router/Rank.antt =====
-- The comparator of packages/pctr/src/history.mjs orders candidates, trust first.
use ttp_protocol.Common.{
  ◌≡◌, Bool, true, false, ltb, Option, String, List, arith, length, In, some, first, sort_by,
  first-sort_by_least, Numbers, IsOrdered,
}
use ttp_protocol.Trust.{Maths}
use ttp_protocol.Router.{Candidate, Tally}
use ttp_protocol.Router.Resolve.{then_by, by_key, failure_rate, ranks_before}

-- No number that is compared is NaN.
pub record IsNumeric {Num : Type 0} ⦃number : Numbers Num⦄ (maths : Maths Num)
    (history : String → Option Tally) (c : Candidate Num) : Type 0 where
  pub trust : number.le c.effective_trust c.effective_trust ≡ true
  pub rate :
      number.le (failure_rate maths history c.route_id) (failure_rate maths history c.route_id)
      ≡ true
  pub latency : number.le c.latency_ms c.latency_ms ≡ true
  pub cost : number.le c.cost_units c.cost_units ≡ true

module _ {Num : Type 0} ⦃number : Numbers Num⦄ where
  -- A comparator orders the candidates of `W`.
  record Orders (W : Candidate Num → Type 0) (f : Candidate Num → Candidate Num → Bool)
      : Type 0 where
    pub asym : (a b : Candidate Num) → f a b ≡ true → f b a ≡ false
    pub cotrans :
        (a b c : Candidate Num) → W a → W b → W c → f a b ≡ false → f b c ≡ false → f a c ≡ false

  then_by-Orders :
      {W : Candidate Num → Type 0} (f g : Candidate Num → Candidate Num → Bool)
      → Orders W f
      → Orders W g
      → Orders W (then_by f g)
  then_by-Orders f g F G = record {
    asym = λ a b h. ground (arith, F.asym a b, G.asym a b);
    cotrans = λ a b c wa wb wc h k. ground (
      arith,
      F.cotrans a b c wa wb wc,
      F.cotrans c a b wc wa wb,
      F.cotrans b c a wb wc wa,
      G.cotrans a b c wa wb wc,
      F.asym a b,
      F.asym b c,
      F.asym a c,
      F.asym b a,
      F.asym c b,
    );
  }

  by_key-Orders :
      IsOrdered number
      → {W : Candidate Num → Type 0} (key : Candidate Num → Num)
      → ((c : Candidate Num) → W c → number.le (key c) (key c) ≡ true)
      → Orders W (by_key key)
  by_key-Orders ordered key fine = record {
    asym = λ a b. ordered.asym (key a) (key b);
    cotrans = λ a b c wa wb wc. ordered.cotrans (key a) (key b) (key c) (fine b wb);
  }

  by_hops-Orders :
      {W : Candidate Num → Type 0} → Orders W (λ a b. ltb (length a.path) (length b.path))
  by_hops-Orders = record {
    asym = λ a b h. ground arith;
    cotrans = λ a b c wa wb wc h k. ground arith;
  }

  by_trust-Orders :
      IsOrdered number
      → {W : Candidate Num → Type 0}
      → ((c : Candidate Num) → W c → number.le c.effective_trust c.effective_trust ≡ true)
      → Orders W (λ a b. number.lt b.effective_trust a.effective_trust)
  by_trust-Orders ordered fine = record {
    asym = λ a b. ordered.asym b.effective_trust a.effective_trust;
    cotrans = λ a b c wa wb wc h k.
        ordered.cotrans c.effective_trust b.effective_trust a.effective_trust (fine b wb) k h;
  }

  ranks_before-Orders :
      IsOrdered number
      → (maths : Maths Num) (history : String → Option Tally)
      → Orders (IsNumeric maths history) (ranks_before maths history)
  unfolding ranks_before
  ranks_before-Orders ordered maths history =
      then_by-Orders _ _ (by_trust-Orders ordered (λ c w. w.trust)) (
        then_by-Orders _ _ (by_key-Orders ordered _ (λ c w. w.rate)) (
          then_by-Orders _ _ (by_key-Orders ordered _ (λ c w. w.latency))
            (then_by-Orders _ _ (by_key-Orders ordered _ (λ c w. w.cost)) by_hops-Orders)))

  ranks_before-trust :
      (maths : Maths Num) (history : String → Option Tally) (a b : Candidate Num)
      → ranks_before maths history a b ≡ false
      → number.lt b.effective_trust a.effective_trust ≡ false
  unfolding ranks_before
  ranks_before-trust maths history a b h = ground arith

  -- Nothing ranked has more trust than what is ranked first.
  pub first-ranked_trust :
      IsOrdered number
      → (maths : Maths Num) (history : String → Option Tally) (cs : List (Candidate Num))
      → {h : Candidate Num} → ((c : Candidate Num) → In c cs → IsNumeric maths history c)
      → first (sort_by (ranks_before maths history) cs) ≡ some h
      → (c : Candidate Num) → In c cs
      → number.lt h.effective_trust c.effective_trust ≡ false
  first-ranked_trust ordered maths history cs fine e c m =
      let orders = ranks_before-Orders ordered maths history in
      ranks_before-trust maths history c _ (
        first-sort_by_least (ranks_before maths history) (IsNumeric maths history) orders.asym
          orders.cotrans cs fine e c m)
