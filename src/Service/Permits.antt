-- ===== src/Service/Permits.antt =====
-- When `decide` of services/authority/index.ts permits.
use ttp_protocol.Common.{
  ◌≡◌, ◌≢◌, ◌↔◌, ◌⊎◌, inl, inr, String, true, false, ◌||◌, none, some, List, Numbers, arith, leb,
  eq_iff, ◌==◌, Bool-cases, Option-cases,
}
use ttp_protocol.Json.{Platform}
use ttp_protocol.Json.Values.{truthy}
use ttp_protocol.Service.{permit, deny, AuthorizeRequest, TrustedGrant, DecisionContext, Host}
use ttp_protocol.Service.Approvals.{verify_independent_github_approval}
use ttp_protocol.Service.Ledger.{Entry, get_entry}
use ttp_protocol.Service.Spending.{consume_step_up_receipt}
use ttp_protocol.Service.Grants.{verified_grant, context_of, is_critical, freshness_of}
use ttp_protocol.Service.Policy.{risk_class}
use ttp_protocol.Service.Entitled.{IsEntitled, verified_grant-some, IsEntitled-verified_grant}
use ttp_protocol.Service.Decide.{
  World, says, is_mismatch, lacks_approval, claim_of, redeem, reauthorize_prior, reauthorize,
  decide_by_policy, decide,
}

module _ {Num : Type 0} ⦃number : Numbers Num⦄ (p : Platform Num) (h : Host Num) where
  decide_by_policy-permit_iff :
      (context : DecisionContext Num)
      → ((decide_by_policy p h context).decision ≡ permit) ↔ (
          (context.trust.attestation_valid ≡ true)
          × ((is_critical context.risk.class ≡ false)
              × (number.lt context.trust.trust_score (number.decimal 85 2) ≡ false)))
  unfolding decide_by_policy
  decide_by_policy-permit_iff context = ground arith

  -- What a reauthorization shows when it is permitted.
  pub record IsRedeemed (w : World Num) (r : AuthorizeRequest Num) (context : DecisionContext Num)
      (names : List String) (prior : Entry Num) : Type 0 where
    pub awaits :
        (says p h prior.contents "decision" "STEP_UP"
          || says p h prior.contents "decision" "ESCALATE")
        ≡ true
    pub bound : is_mismatch p h prior.contents r w.now ≡ false
    pub approved : lacks_approval r.approval ≡ false
    pub proved : (verify_independent_github_approval h w.github (claim_of p h r)).verified ≡ true
    pub fresh : context.trust.attestation_valid ≡ true
    pub spent : (consume_step_up_receipt p w.directory w.creation prior.id names).0.accepted ≡ true

  redeem-permit_iff :
      (w : World Num) (context : DecisionContext Num) (prior : Entry Num) (names : List String)
      → ((redeem p h w context prior names).0.decision ≡ permit)
        ↔ ((consume_step_up_receipt p w.directory w.creation prior.id names).0.accepted ≡ true)
  unfolding redeem
  redeem-permit_iff w context prior names = ground arith

  reauthorize_prior-permit_iff :
      (w : World Num) (r : AuthorizeRequest Num) (context : DecisionContext Num) (prior : Entry Num)
      (names : List String)
      → ((reauthorize_prior p h w r context prior names).0.decision ≡ permit)
        ↔ IsRedeemed w r context names prior
  unfolding reauthorize_prior
  reauthorize_prior-permit_iff w r context prior names = (
    (λ e. record {
      awaits = ground arith;
      bound = ground arith;
      approved = ground arith;
      proved = ground arith;
      fresh = ground arith;
      spent = ground (arith, redeem-permit_iff w context prior names);
    }),
    (λ k. ground (
      arith,
      k.awaits,
      k.bound,
      k.approved,
      k.proved,
      k.fresh,
      k.spent,
      redeem-permit_iff w context prior names,
    )),
  )

  -- What a permit by policy alone takes.
  pub record IsRoutine (w : World Num) (r : AuthorizeRequest Num) (grant : TrustedGrant Num)
      : Type 0 where
    pub fresh : leb (freshness_of p h w.now (some grant)) 900_000 ≡ true
    pub not_critical : is_critical (risk_class r w.patterns) ≡ false
    pub trusted : number.lt grant.trust_score (number.decimal 85 2) ≡ false

  abbrev pub context_for : World Num → AuthorizeRequest Num → TrustedGrant Num → DecisionContext Num
  context_for w r grant = context_of p h w.patterns w.now r (some grant)

  -- What permits a request whose grant stands.
  abbrev pub Grounds : World Num → AuthorizeRequest Num → List String → TrustedGrant Num → Type 0
  Grounds w r names grant =
      ((r.action ≢ "merge request reauthorize") × IsRoutine w r grant)
      ⊎ ((r.action ≡ "merge request reauthorize")
          × ((truthy r.prior_receipt_id ≡ true)
              × ((prior : Entry Num) × ((get_entry r.prior_receipt_id w.entries ≡ some prior)
                    × IsRedeemed w r (context_for w r grant) names prior))))

  reauthorize-permit_iff :
      (w : World Num) (r : AuthorizeRequest Num) (context : DecisionContext Num)
      (names : List String)
      → ((reauthorize p h w r context names).0.decision ≡ permit) ↔ (
          (truthy r.prior_receipt_id ≡ true)
          × ((prior : Entry Num) × ((get_entry r.prior_receipt_id w.entries ≡ some prior)
                × IsRedeemed w r context names prior)))
  unfolding reauthorize
  reauthorize-permit_iff w r context names =
      elim (Option-cases (get_entry r.prior_receipt_id w.entries)) [
        | inl none' ↦ ((λ e. absurd (ground (arith, none'))), (λ (_, (prior, (known, _))). cc))
        | inr (prior, known) ↦ (
          (λ e. (
            ground (arith, known),
            (
              prior,
              (
                known,
                (reauthorize_prior-permit_iff w r context prior names).0 (ground (arith, known)),
              ),
            ),
          )),
          (λ (given, (prior', (known', k))).
              let same : prior' ≡ prior = ground (arith, known, known') in
              let permitted = (reauthorize_prior-permit_iff w r context prior' names).1 k in
              rw (given, known', reauthorize) permitted),
        )
      ]

  -- A request with a subject, an action and a resource, and a grant that stands.
  pub record IsAuthorized (w : World Num) (r : AuthorizeRequest Num) (grant : TrustedGrant Num)
      : Type 0 where
    pub subject_given : (r.subject == "") ≡ false
    pub action_given : (r.action == "") ≡ false
    pub resource_given : (r.resource == "") ≡ false
    pub entitled : IsEntitled p h w r grant

  ungranted_denied :
      (w : World Num) (r : AuthorizeRequest Num) (names : List String)
      → verified_grant p h w.grants w.now r ≡ none
      → (decide p h w r names).0.decision ≡ deny
  unfolding decide context_of
  ungranted_denied w r names e = ground (arith, e)

  abbrev Given : AuthorizeRequest Num → Type 0
  Given r =
      ((r.subject == "") ≡ false) × (((r.action == "") ≡ false) × ((r.resource == "") ≡ false))

  granted_policy :
      (w : World Num) (r : AuthorizeRequest Num) (names : List String) (grant : TrustedGrant Num)
      → verified_grant p h w.grants w.now r ≡ some grant
      → (r.action == "merge request reauthorize") ≡ false
      → ((decide p h w r names).0.decision ≡ permit)
        ↔ (Given r × ((decide_by_policy p h (context_for w r grant)).decision ≡ permit))
  unfolding decide context_of
  granted_policy w r names grant e no' =
      ((λ d. ground (arith, e, no')), (λ (given, k). ground (arith, e, no', given, k)))

  granted_redemption :
      (w : World Num) (r : AuthorizeRequest Num) (names : List String) (grant : TrustedGrant Num)
      → verified_grant p h w.grants w.now r ≡ some grant
      → (r.action == "merge request reauthorize") ≡ true
      → ((decide p h w r names).0.decision ≡ permit)
        ↔ (Given r × ((reauthorize p h w r (context_for w r grant) names).0.decision ≡ permit))
  unfolding decide context_of
  granted_redemption w r names grant e yes' =
      ((λ d. ground (arith, e, yes')), (λ (given, k). ground (arith, e, yes', given, k)))

  granted_decide :
      (w : World Num) (r : AuthorizeRequest Num) (names : List String) (grant : TrustedGrant Num)
      → verified_grant p h w.grants w.now r ≡ some grant
      → ((decide p h w r names).0.decision ≡ permit) ↔ (Given r × Grounds w r names grant)
  unfolding context_of
  granted_decide w r names grant e = elim (Bool-cases (r.action == "merge request reauthorize")) [
    | inl yes' ↦ (
      (λ d.
          let (given, k) = (granted_redemption w r names grant e yes').0 d in
          (
            given,
            inr (
              (eq_iff _ _).0 yes',
              (reauthorize-permit_iff w r (context_for w r grant) names).0 k,
            ),
          )),
      (λ (given, g). elim g [
        | inl (other, _) ↦ absurd (other ((eq_iff _ _).0 yes'))
        | inr (_, k) ↦
            (granted_redemption w r names grant e yes').1
              (given, (reauthorize-permit_iff w r (context_for w r grant) names).1 k)
      ]),
    )
    | inr no' ↦ (
      (λ d.
          let (given, k) = (granted_policy w r names grant e no').0 d in
          let (fresh, (calm, trusted)) =
            (decide_by_policy-permit_iff (context_for w r grant)).0 k in
          (
            given,
            inl (
              (λ same.
                  absurd (ground (arith, (eq_iff r.action "merge request reauthorize").1 same))),
              record { fresh = fresh; not_critical = calm; trusted = trusted },
            ),
          )),
      (λ (given, g). elim g [
        | inr (same, _) ↦
            absurd (ground (arith, (eq_iff r.action "merge request reauthorize").1 same))
        | inl (_, k) ↦ (granted_policy w r names grant e no').1 (
          given,
          (decide_by_policy-permit_iff (context_for w r grant)).1
              (k.fresh, (k.not_critical, k.trusted)),
        )
      ]),
    )
  ]

-- `decide` permits exactly when the request has a subject, an action, a resource and a grant that is
-- known, unrevoked, within its times and for that subject, repository, branch and action, and either
-- policy suffices (fresh, not critical, trust not below 0.85), or it redeems a receipt of the ledger
-- that awaits approval and is bound to the same subject, branch, commit, run and paths, with an
-- approval that GitHub confirms and a receipt that was not spent.
pub decide-permit_iff :
    {Num : Type 0} ⦃number : Numbers Num⦄ (p : Platform Num) (h : Host Num) (w : World Num)
    (r : AuthorizeRequest Num) (names : List String)
    → ((decide p h w r names).0.decision ≡ permit)
      ↔ ((grant : TrustedGrant Num) × (IsAuthorized p h w r grant × Grounds p h w r names grant))
decide-permit_iff p h w r names = elim (Option-cases (verified_grant p h w.grants w.now r)) [
  | inl none' ↦ (
    (λ e. absurd (ground (arith, ungranted_denied p h w r names none'))),
    (λ (grant, (k, _)).
        absurd (ground (arith, none', IsEntitled-verified_grant p h w r k.entitled))),
  )
  | inr (grant, known) ↦ (
    (λ e.
        let ((s, (a, t)), g) = (granted_decide p h w r names grant known).0 e in
        (
          grant,
          (
            record {
              subject_given = s;
              action_given = a;
              resource_given = t;
              entitled = verified_grant-some p h w r known;
            },
            g,
          ),
        )),
    (λ (own, (k, g)).
        (granted_decide p h w r names own (IsEntitled-verified_grant p h w r k.entitled)).1
          ((k.subject_given, (k.action_given, k.resource_given)), g)),
  )
]
