-- ===== src/Gate/Outcomes.antt =====
-- What reference-implementations/runtime-authority-gate/server.mjs permits.
use ttp_protocol.Common.{
  text_ne, ◌≡◌, ◌↔◌, refl, Bool, true, false, ℕ, some, List, arith, find, includes, Option-cases,
  inl, inr, Numbers,
}
use ttp_protocol.Json.{str, Fields, Platform}
use ttp_protocol.Json.Values.{get, get?, truthy}
use ttp_protocol.Gate.{Machine, is_critical}
use ttp_protocol.Gate.Evaluate.{
  Outcome, permit, step_up, escalate, deny, Mode, full, constrained, failed_closed,
  requires_human_approval, requires_reattestation, Grant, has_expired, is_over, wants_approval,
  is_high, base_of, is_mythos_in_prod, requested_scope, names_grant, evaluate_granted,
  evaluate_trust, map_to_rap,
}

-- The mode agrees with the outcome.
abbrev pub agrees : Outcome → Mode → Bool
agrees permit full = true
agrees permit constrained = true
agrees step_up requires_reattestation = true
agrees escalate requires_human_approval = true
agrees deny failed_closed = true
agrees _ _ = false

agrees-blocked_iff :
    (o : Outcome) (mode : Mode)
    → agrees o mode ≡ true
    → ((map_to_rap o mode).1 ≡ "block") ↔ ((o ≡ deny) × (mode ≡ failed_closed))
unfolding map_to_rap
agrees-blocked_iff o mode h = ground (
  arith,
  text_ne "execute" "block" refl,
  text_ne "execute_constrained" "block" refl,
  text_ne "reauthorize" "block" refl,
  text_ne "human_approval" "block" refl,
)

module _ {Num : Type 0} ⦃number : Numbers Num⦄ (p : Platform Num) (m : Machine Num)
    (request : Fields Num) where
  -- The trust score is below a bound.
  abbrev pub below : ℕ → ℕ → Bool
  below n k = number.lt (base_of p m request).trust_score (number.decimal n k)

  -- Risk and budget that do not stand against a request.
  pub record IsClean : Type 0 where
    pub not_critical : is_critical (base_of p m request).risk.level ≡ false
    pub not_mythos : is_mythos_in_prod p m request ≡ false
    pub not_over : is_over (base_of p m request).cost.budget ≡ false
    pub not_high : is_high (base_of p m request).risk.level ≡ false
    pub budgeted : wants_approval (base_of p m request).cost.budget ≡ false

  -- The grant that a request names is known, has not expired and covers the request.
  pub record IsCovered (grants : List Grant) (now : ℕ) (grant : Grant) : Type 0 where
    pub action_given : truthy (get request "action") ≡ true
    pub resource_given : truthy (get? (get request "resource") "id") ≡ true
    pub grant_given : truthy (get request "authorityGrant") ≡ true
    pub known : find (names_grant p m request) grants ≡ some grant
    pub unexpired : has_expired (p.parse_date (some (str grant.expires_at))) now ≡ false
    pub in_scope : includes grant.scope (requested_scope p m request) ≡ true

  base_of-mode : (base_of p m request).mode ≡ failed_closed
  unfolding base_of
  base_of-mode = refl

  granted_full :
      (grant : Grant)
      → (evaluate_granted p m request grant).mode ≡ full
      → (includes grant.scope (requested_scope p m request) ≡ true)
        × (IsClean × ((below 4 1 ≡ false) × ((below 65 2 ≡ false) × (below 85 2 ≡ false))))
  unfolding evaluate_granted
  granted_full grant h = ground (arith, base_of-mode)

  full_of_granted :
      (grant : Grant)
      → includes grant.scope (requested_scope p m request) ≡ true
      → IsClean
      → below 4 1 ≡ false
      → below 65 2 ≡ false
      → below 85 2 ≡ false
      → (evaluate_granted p m request grant).mode ≡ full
  unfolding evaluate_granted
  full_of_granted grant scoped clean a b c = ground (
    arith, scoped, clean.not_critical, clean.not_mythos, clean.not_over, clean.not_high,
    clean.budgeted,
  )

  evaluate_trust-mode :
      (grants : List Grant) (now : ℕ)
      → (evaluate_trust p m grants now request).mode ≡ full
      → (grant : Grant) × ((truthy (get request "action") ≡ true)
          × ((truthy (get? (get request "resource") "id") ≡ true)
              × ((truthy (get request "authorityGrant") ≡ true)
                  × ((find (names_grant p m request) grants ≡ some grant)
                      × ((has_expired (p.parse_date (some (str grant.expires_at))) now ≡ false)
                          × ((evaluate_granted p m request grant).mode ≡ full))))))
  unfolding evaluate_trust
  evaluate_trust-mode grants now h = elim (Option-cases (find (names_grant p m request) grants)) [
    | inl none' ↦ absurd (ground (arith, none', base_of-mode))
    | inr (grant, known) ↦ (grant, ground (arith, known, base_of-mode))
  ]

  base_of-outcome : (base_of p m request).outcome ≡ deny
  unfolding base_of
  base_of-outcome = refl

  granted_agrees :
      (grant : Grant)
      → agrees
          (evaluate_granted p m request grant).outcome
          (evaluate_granted p m request grant).mode
        ≡ true
  unfolding evaluate_granted
  granted_agrees grant = ground (arith, base_of-mode, base_of-outcome)

  evaluate_trust-agrees :
      (grants : List Grant) (now : ℕ)
      → agrees
          (evaluate_trust p m grants now request).outcome
          (evaluate_trust p m grants now request).mode
        ≡ true
  unfolding evaluate_trust
  evaluate_trust-agrees grants now = elim (Option-cases (find (names_grant p m request) grants)) [
    | inl none' ↦ ground (arith, none', base_of-mode, base_of-outcome)
    | inr (grant, known) ↦
        ground (arith, known, base_of-mode, base_of-outcome, granted_agrees grant)
  ]

  full_is_permit :
      (grants : List Grant) (now : ℕ)
      → (evaluate_trust p m grants now request).mode ≡ full
      → (evaluate_trust p m grants now request).outcome ≡ permit
  full_is_permit grants now h = ground (arith, evaluate_trust-agrees grants now)

-- A request is permitted in full exactly when it names an action and a resource, its grant is known,
-- unexpired and covers it, risk and budget are clean, and the trust score is below none of 0.4, 0.65
-- and 0.85.
pub full_permit_iff :
    {Num : Type 0} ⦃number : Numbers Num⦄ (p : Platform Num) (m : Machine Num) (grants : List Grant)
    (now : ℕ) (request : Fields Num)
    → ((evaluate_trust p m grants now request).mode ≡ full) ↔ (
        (grant : Grant) × (IsCovered p m request grants now grant
          × (IsClean p m request
              × ((below p m request 4 1 ≡ false)
                  × ((below p m request 65 2 ≡ false) × (below p m request 85 2 ≡ false))))))
unfolding evaluate_trust
full_permit_iff p m grants now request = (
  (λ h.
      let (grant, (action, (resource, (given, (known, (unexpired, rest)))))) =
        evaluate_trust-mode p m request grants now h in
      let (scoped, (clean, bounds)) = granted_full p m request grant rest in
      (
        grant,
        (
          record {
            action_given = action;
            resource_given = resource;
            grant_given = given;
            known = known;
            unexpired = unexpired;
            in_scope = scoped;
          },
          (clean, bounds),
        ),
      )),
  (λ (grant, (covered, (clean, (a, (b, c))))).
      rw
        (
          covered.action_given, covered.resource_given, covered.grant_given, covered.known,
          covered.unexpired,
        )
        (full_of_granted p m request grant covered.in_scope clean a b c)),
)

-- A trust score that compares as below nothing, as NaN does, gets a full permit where the grant covers
-- the request and risk and budget are clean.
pub unreadable_trust_is_full :
    {Num : Type 0} ⦃number : Numbers Num⦄ (p : Platform Num) (m : Machine Num) (grants : List Grant)
    (now : ℕ) (request : Fields Num) (grant : Grant)
    → ((bound : Num) → number.lt (base_of p m request).trust_score bound ≡ false)
    → IsCovered p m request grants now grant
    → IsClean p m request
    → map_to_rap
        (evaluate_trust p m grants now request).outcome
        (evaluate_trust p m grants now request).mode
      ≡ ("allow", "execute")
unfolding map_to_rap
unreadable_trust_is_full p m grants now request grant unreadable covered clean =
    let is_full =
      (full_permit_iff p m grants now request).1
        (grant, (covered, (clean, (unreadable _, (unreadable _, unreadable _))))) in
    rw (full_is_permit p m request grants now is_full, is_full) refl

-- A request is blocked exactly when the outcome is DENY and the mode FAILED_CLOSED.
pub blocked_iff :
    {Num : Type 0} ⦃number : Numbers Num⦄ (p : Platform Num) (m : Machine Num) (grants : List Grant)
    (now : ℕ) (request : Fields Num)
    → ((map_to_rap
          (evaluate_trust p m grants now request).outcome
          (evaluate_trust p m grants now request).mode).1
        ≡ "block")
      ↔ (((evaluate_trust p m grants now request).outcome ≡ deny)
          × ((evaluate_trust p m grants now request).mode ≡ failed_closed))
blocked_iff p m grants now request =
    agrees-blocked_iff _ _ (evaluate_trust-agrees p m request grants now)
