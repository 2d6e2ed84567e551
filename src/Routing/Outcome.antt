-- ===== src/Routing/Outcome.antt =====
-- What a resolution of packages/trust-routing-engine/src/resolve.js promises of the path it selects.
use ttp_protocol.Common.{
  ◌≡◌, ◌≢◌, ◌↔◌, sym, ap, ◌∙◌, true, false, some, arith, In, Numbers, IsOrdered, In-keep,
  In-keep_intro, In-map, In-map_source, includes,
}
use Prim.Native.String.{◌++◌}
use ttp_protocol.Routing.{Host, permit, deny, active, Candidate, Evaluated, Input, evaluate}
use ttp_protocol.Routing.Resolve.{
  is_critical, is_valid, decision_of, permit_with, resolve_trust_route, needs_step_up,
  needs_throttle, needs_constrain,
}
use ttp_protocol.Routing.Selection.{In-choose, choose-strongest}
use ttp_protocol.Routing.Permits.{
  IsPermitted, evaluated_of, valid_of, resolve-IsPermitted, IsPermitted-resolve,
  decision_of_permits,
}

module _ {Num : Type 0} ⦃number : Numbers Num⦄ where
  is_valid_defined :
      IsOrdered number
      → (v : Evaluated Num) → is_valid v ≡ true
      → number.le v.evaluated_score v.evaluated_score ≡ true
  unfolding is_valid
  is_valid_defined ordered v h =
      (ordered.defined v.candidate.min_trust_score v.evaluated_score (ground arith)).1

  decision_of-permit_iff :
      (i : Input Num) (e : Evaluated Num)
      → is_critical e.zone ≡ false
      → (decision_of i e ≡ permit) ↔ (
          (e.zone ≡ active)
          × ((e.candidate.requires_step_up ≡ false)
              × ((includes i.policy.step_up_actions i.request.action ≡ false)
                  × ((includes i.policy.throttle_actions i.request.action ≡ false)
                      × (includes i.policy.constrain_actions i.request.action ≡ false)))))
  unfolding decision_of needs_step_up needs_throttle needs_constrain
  decision_of-permit_iff i e trusted = ground arith

-- A request is not denied exactly when it is bound and what it needs is available, no candidate is
-- revoked, the strategy chooses a valid candidate whose zone is not critical, and a high-risk action
-- is within the latency budget.
pub resolve_permits_iff :
    {Num : Type 0} ⦃number : Numbers Num⦄ (host : Host Num) (i : Input Num)
    → ((resolve_trust_route host i).decision ≢ deny) ↔ ((e : Evaluated Num) × IsPermitted host i e)
unfolding permit_with
resolve_permits_iff host i = (
  resolve-IsPermitted host i,
  (λ (e, h) d.
      decision_of_permits host i e
        (sym (ap (λ r. r.decision) (IsPermitted-resolve host i e h)) ∙ d)),
)

-- The path of a request that is not denied is that of a candidate which is valid for the request:
-- fresh, in scope, environment, delegation and hops, and with its minimal score.
pub selected_path-is_valid :
    {Num : Type 0} ⦃number : Numbers Num⦄ (host : Host Num) (i : Input Num)
    → (resolve_trust_route host i).decision ≢ deny
    → (c : Candidate Num) × (In c i.candidates
        × ((is_valid (evaluate host i c) ≡ true)
            × ((resolve_trust_route host i).selected_path
                ≡ some (c.issuer_type ++ (":" ++ c.issuer_id)))))
unfolding permit_with evaluated_of valid_of evaluate
selected_path-is_valid {Num = Num} host i h =
    let (e, p) = resolve-IsPermitted host i h in
    let (m, valid) =
      In-keep is_valid (evaluated_of host i)
        (In-choose i.policy.strategy (evaluated_of host i) (valid_of host i) p.selected) in
    let (c, n, same) = In-map_source (evaluate host i) i.candidates m in
    (
      c,
      (
        n,
        (
          ap is_valid (sym same) ∙ valid,
          ap (λ r. r.selected_path) (IsPermitted-resolve host i e p)
              ∙ ap
                  (λ (x : Evaluated Num).
                    some (x.candidate.issuer_type ++ (":" ++ x.candidate.issuer_id)))
                  same,
        ),
      ),
    )

-- Under every strategy but freshest_path_wins and supervisor_override, no valid candidate has a
-- higher score than the one a request that is not denied is decided on.
pub selected_is_strongest :
    {Num : Type 0} ⦃number : Numbers Num⦄
    → IsOrdered number
    → (host : Host Num) (i : Input Num) → i.policy.strategy ≢ "freshest_path_wins"
    → i.policy.strategy ≢ "supervisor_override"
    → (resolve_trust_route host i).decision ≢ deny
    → (c : Candidate Num) → In c i.candidates
    → is_valid (evaluate host i c) ≡ true
    → number.lt
        (resolve_trust_route host i).trust_score_at_decision
        (evaluate host i c).evaluated_score
      ≡ false
unfolding permit_with evaluated_of valid_of
selected_is_strongest {Num = Num} ⦃number = number⦄ ordered host i notfresh notsuper h c m valid =
    let (e, p) = resolve-IsPermitted host i h in
    rw (IsPermitted-resolve host i e p) (
      choose-strongest ordered i.policy.strategy (evaluated_of host i) (valid_of host i)
        (λ v n. is_valid_defined ordered v (In-keep is_valid (evaluated_of host i) n).1) notfresh
        notsuper p.selected (evaluate host i c)
        (In-keep_intro is_valid (evaluated_of host i) (In-map (evaluate host i) i.candidates m)
          valid))

-- PERMIT is decided exactly on a request that is not denied, over a path in the active zone that asks
-- for no step-up, for an action on none of the lists of actions to step up, throttle or constrain.
pub permit_iff :
    {Num : Type 0} ⦃number : Numbers Num⦄ (host : Host Num) (i : Input Num)
    → ((resolve_trust_route host i).decision ≡ permit) ↔ (
        (e : Evaluated Num) × (IsPermitted host i e
          × ((e.zone ≡ active)
              × ((e.candidate.requires_step_up ≡ false)
                  × ((includes i.policy.step_up_actions i.request.action ≡ false)
                      × ((includes i.policy.throttle_actions i.request.action ≡ false)
                          × (includes i.policy.constrain_actions i.request.action ≡ false)))))))
unfolding permit_with
permit_iff host i = (
  (λ d.
      let (e, p) = resolve-IsPermitted host i (λ denied. cc) in
      (
        e,
        (
          p,
          (decision_of-permit_iff i e p.trusted).0
              (sym (ap (λ r. r.decision) (IsPermitted-resolve host i e p)) ∙ d),
        ),
      )),
  (λ (e, (p, free)).
      ap (λ r. r.decision) (IsPermitted-resolve host i e p)
      ∙ (decision_of-permit_iff i e p.trusted).1 free),
)
