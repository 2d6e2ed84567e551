-- ===== src/Routing/Permits.antt =====
-- When packages/trust-routing-engine/src/resolve.js does not deny, and what it then decides.
use ttp_protocol.Common.{
  ◌≡◌, ◌≢◌, ◌↔◌, eq_iff, refl, ap, ◌∙◌, ◌⊎◌, inl, inr, true, false, none, List, arith, In, Numbers,
  Bool-cases, Option-cases, any, keep, map, In-keep, In-map, In-map_source, any-false-In,
  any-false_intro, is_empty, is_empty-false_of_In,
}
use ttp_protocol.Routing.{Host, deny, Candidate, Evaluated, Input, evaluate, compute_binding_hash}
use ttp_protocol.Routing.Resolve.{
  Choice, refused, chosen, is_hash, is_critical, is_valid, choose, decision_of, deny_with,
  permit_with, over_budget, conclude, request_denial, resolve_candidates, resolve_trust_route,
}
use ttp_protocol.Routing.Selection.{In-choose}

module _ {Num : Type 0} ⦃number : Numbers Num⦄ (host : Host Num) (i : Input Num) where
  unfoldable pub evaluated_of : List (Evaluated Num)
  evaluated_of = map (evaluate host i) i.candidates

  unfoldable pub valid_of : List (Evaluated Num)
  valid_of = keep is_valid (map (evaluate host i) i.candidates)

  -- The request is bound and what it needs is available.
  pub record IsBound : Type 0 where
    pub available : i.resolver_available ≡ true
    pub proved : (i.proof_engine_available ≡ true) ⊎ (i.request.proof_required ≡ false)
    pub bound : compute_binding_hash host i.request ≡ i.request.binding_hash
    pub hashed : is_hash i.request.params_hash ≡ true

  -- The request is permitted over the path `e`.
  pub record IsPermitted (e : Evaluated Num) : Type 0 where
    pub request_bound : IsBound
    pub unrevoked : (c : Candidate Num) → In c i.candidates → c.revoked ≡ false
    pub selected : choose i.policy.strategy evaluated_of valid_of ≡ chosen e
    pub trusted : is_critical e.zone ≡ false
    pub in_time : over_budget i ≡ false

  request_denial-none_iff : (request_denial host i ≡ none) ↔ IsBound
  unfolding request_denial
  request_denial-none_iff = (
    (λ h. record {
      available = ground arith;
      proved = ground arith;
      bound = (eq_iff _ _).0 (ground arith);
      hashed = ground arith;
    }),
    (λ b. ground (arith, b.available, b.proved, (eq_iff _ _).1 b.bound, b.hashed)),
  )

  unrevoked_iff :
      (any (λ e. e.revoked) evaluated_of ≡ false)
      ↔ ((c : Candidate Num) → In c i.candidates → c.revoked ≡ false)
  unfolding evaluated_of evaluate
  unrevoked_iff = (
    (λ h c m.
        any-false-In (λ (e : Evaluated Num). e.revoked) evaluated_of h
          (In-map (evaluate host i) i.candidates m)),
    (λ h.
        any-false_intro (λ (e : Evaluated Num). e.revoked) evaluated_of
          (λ e m.
            let (c, n, same) = In-map_source (evaluate host i) i.candidates m in
            ap (λ (x : Evaluated Num). x.revoked) same ∙ h c n)),
  )

  pub decision_of_permits : (e : Evaluated Num) → decision_of i e ≢ deny
  unfolding decision_of
  decision_of_permits e = λ h. absurd (ground arith)

  conclude_permits :
      (o : Choice Num)
      → (conclude i o).decision ≢ deny
      → (e : Evaluated Num) × ((o ≡ chosen e)
          × ((is_critical e.zone ≡ false) × (over_budget i ≡ false)))
  unfolding conclude deny_with
  conclude_permits (refused code) h = absurd (h refl)
  conclude_permits (chosen e) h = elim (Bool-cases (is_critical e.zone)) [
    | inl yes' ↦ absurd (h (rw yes' refl))
    | inr trusted ↦ elim (Bool-cases (over_budget i)) [
      | inl yes' ↦ absurd (h (rw (trusted, yes') refl))
      | inr in_time ↦ (e, (refl, (trusted, in_time)))
    ]
  ]

  resolve_candidates_permits :
      (resolve_candidates host i).decision ≢ deny
      → (any (λ e. e.revoked) evaluated_of ≡ false)
        × ((conclude i (choose i.policy.strategy evaluated_of valid_of)).decision ≢ deny)
  unfolding resolve_candidates evaluated_of valid_of deny_with
  resolve_candidates_permits h = elim (Bool-cases (is_empty evaluated_of)) [
    | inl yes' ↦ absurd (h (rw yes' refl))
    | inr nonempty ↦ elim (Bool-cases (any (λ e. e.revoked) evaluated_of)) [
      | inl yes' ↦ absurd (h (rw (nonempty, yes') refl))
      | inr unrevoked ↦ elim (Bool-cases (is_empty valid_of)) [
        | inl yes' ↦ absurd (h (rw (nonempty, unrevoked, yes') refl))
        | inr some' ↦ (unrevoked, λ d. h (rw (nonempty, unrevoked, some') d))
      ]
    ]
  ]

  pub resolve-IsPermitted :
      (resolve_trust_route host i).decision ≢ deny → (e : Evaluated Num) × IsPermitted e
  unfolding resolve_trust_route deny_with
  resolve-IsPermitted h = elim (Option-cases (request_denial host i)) [
    | inr (code, denied) ↦ absurd (h (rw (denied, resolve_trust_route) refl))
    | inl clear ↦
        let (unrevoked, goes_on) =
          resolve_candidates_permits (λ d. h (rw (clear, resolve_trust_route) d)) in
        let (e, (selected, (trusted, in_time))) = conclude_permits _ goes_on in
        (
          e,
          record {
            request_bound = request_denial-none_iff.0 clear;
            unrevoked = unrevoked_iff.0 unrevoked;
            selected = selected;
            trusted = trusted;
            in_time = in_time;
          },
        )
  ]

  evaluated_nonempty : {e : Evaluated Num} → In e valid_of → is_empty evaluated_of ≡ false
  unfolding evaluated_of valid_of
  evaluated_nonempty m = is_empty-false_of_In (In-keep is_valid evaluated_of m).0

  -- A permitted request is resolved over its path.
  pub IsPermitted-resolve :
      (e : Evaluated Num) → IsPermitted e → resolve_trust_route host i ≡ permit_with i e
  unfolding resolve_trust_route resolve_candidates evaluated_of valid_of conclude
  IsPermitted-resolve e h =
      let m = In-choose i.policy.strategy evaluated_of valid_of h.selected in
      rw
        (
          request_denial-none_iff.1 h.request_bound,
          resolve_trust_route,
          evaluated_nonempty m,
          unrevoked_iff.1 h.unrevoked,
          is_empty-false_of_In m,
          h.selected,
          conclude,
          h.trusted,
          h.in_time,
        )
        refl
