-- ===== src/Decisions/Safety.antt =====
-- What packages/pctr/src/decisions.mjs answers, and when an execution may proceed.
use ttp_protocol.Common.{
  ◌≡◌, ◌≢◌, refl, ◌↔◌, ◌⊎◌, inl, inr, Bool, true, false, Option, none, some, any, any-find-none,
  find-any-false, arith, Numbers, max,
}
use ttp_protocol.Decisions.{
  keep, reroute, throttle, escalate, suspend, revoke, restrictiveness, Change, Answer, Route,
  is_revoked, is_stopped, too_many_failures, over_rate, must_escalate, requires_approval,
  propose_constraint, preview_severity, respond_on_route, respond_without_route, respond_by_route,
  respond_to_change, proceeds, reconcile,
}

module _ {Num : Type 0} ⦃number : Numbers Num⦄ where
  abbrev has_stale : Route Num → Bool
  has_stale r = any (λ t. t.evidence_stale) r.trust_states

  -- No agent is revoked or stopped, and the failures are below their limit.
  pub record IsSound (c : Change Num) : Type 0 where
    pub unrevoked : any is_revoked c.agents ≡ false
    pub unstopped : any is_stopped c.agents ≡ false
    pub few_failures : too_many_failures c.policy c.history ≡ false

  -- A route exists, and neither rate, authority, evidence, approval nor size stands against it.
  pub record IsClear (c : Change Num) (route : Route Num) : Type 0 where
    pub current : c.current_route ≡ some route
    pub under_rate : over_rate c (preview_severity c.preview) ≡ none
    pub within_authority :
        must_escalate c.policy.escalate_at_or_above (preview_severity c.preview) ≡ false
    pub fresh : has_stale route ≡ false
    pub approved : requires_approval (preview_severity c.preview) c.policy c.preview ≡ false
    pub small : propose_constraint c.preview c.policy ≡ none

  respond_on_route_facts :
      (c : Change Num) (r : Route Num)
      → ((respond_on_route c r).response ≢ revoke)
        × ((respond_on_route c r).may_proceed ≡ proceeds (respond_on_route c r).response)
  unfolding respond_on_route
  respond_on_route_facts c r = ground arith

  respond_without_route_facts :
      (c : Change Num)
      → ((respond_without_route c).response ≢ revoke)
        × ((respond_without_route c).response ≢ keep)
        × ((respond_without_route c).response ≢ reroute)
  unfolding respond_without_route
  respond_without_route_facts c = ground arith

  on_route-IsClear :
      (c : Change Num) (r : Route Num)
      → c.current_route ≡ some r
      → ((respond_on_route c r).response ≡ keep) ⊎ ((respond_on_route c r).response ≡ reroute)
      → IsClear c r
  unfolding respond_on_route
  on_route-IsClear c r e h = ground (arith, any-find-none (λ t. t.evidence_stale) r.trust_states)

  clear-on_route :
      (c : Change Num) (r : Route Num)
      → IsClear c r
      → ((respond_on_route c r).response ≡ keep) ⊎ ((respond_on_route c r).response ≡ reroute)
  unfolding respond_on_route
  clear-on_route c r h = ground (arith, find-any-false (λ t. t.evidence_stale) r.trust_states)

  -- The part of `respondToChange` before the route is looked at.
  respond-IsSound :
      (c : Change Num) → IsSound c → respond_to_change c ≡ respond_by_route c c.current_route
  unfolding respond_to_change
  respond-IsSound c h =
      ground (arith, find-any-false is_revoked c.agents, find-any-false is_stopped c.agents)

  respond-cases :
      (c : Change Num)
      → IsSound c
        ⊎ ((respond_to_change c).may_proceed ≡ false)
          × (((respond_to_change c).response ≡ revoke) ⊎ ((respond_to_change c).response ≡ suspend))
  unfolding respond_to_change proceeds
  respond-cases c =
      ground (arith, any-find-none is_revoked c.agents, any-find-none is_stopped c.agents)

  respond_by_route-IsClear :
      (c : Change Num) (o : Option (Route Num))
      → c.current_route ≡ o
      → ((respond_by_route c o).response ≡ keep) ⊎ ((respond_by_route c o).response ≡ reroute)
      → (r : Route Num) × IsClear c r
  unfolding respond_by_route
  respond_by_route-IsClear c none e h = absurd (ground (arith, respond_without_route_facts c))
  respond_by_route-IsClear c (some r) e h = (r, on_route-IsClear c r e h)

  clear-by_route :
      (c : Change Num) (r : Route Num)
      → IsClear c r
      → ((respond_by_route c c.current_route).response ≡ keep)
        ⊎ ((respond_by_route c c.current_route).response ≡ reroute)
  unfolding respond_by_route
  clear-by_route c r k = simp k.current (clear-on_route c r k)

  stands-IsSound-IsClear :
      (c : Change Num)
      → IsSound c
        ⊎ ((respond_to_change c).may_proceed ≡ false)
          × (((respond_to_change c).response ≡ revoke) ⊎ ((respond_to_change c).response ≡ suspend))
      → ((respond_to_change c).response ≡ keep) ⊎ ((respond_to_change c).response ≡ reroute)
      → IsSound c × ((r : Route Num) × IsClear c r)
  stands-IsSound-IsClear c (inl sound) h =
      (sound, respond_by_route-IsClear c c.current_route refl (rw (respond-IsSound c sound) at h))
  stands-IsSound-IsClear c (inr stopped) h = absurd (ground arith)

  -- What is known where the agents are sound, a route exists and the severity is one to escalate.
  pub record IsAboveAuthority (c : Change Num) (route : Route Num) : Type 0 where
    pub sound : IsSound c
    pub current : c.current_route ≡ some route
    pub above : must_escalate c.policy.escalate_at_or_above (preview_severity c.preview) ≡ true

  escalate_under_rate :
      (c : Change Num) (r : Route Num)
      → IsAboveAuthority c r
      → over_rate c (preview_severity c.preview) ≡ none
      → ((respond_to_change c).response ≡ escalate) × ((respond_to_change c).may_proceed ≡ false)
  unfolding respond_by_route respond_on_route proceeds
  escalate_under_rate c r h e = rw (respond-IsSound c h.sound, h.current) (ground arith)

  throttle_over_rate :
      (c : Change Num) (r : Route Num) (limit : Num)
      → c.current_route ≡ some r
      → IsSound c
      → over_rate c (preview_severity c.preview) ≡ some limit
      → ((respond_to_change c).response ≡ throttle) × ((respond_to_change c).may_proceed ≡ true)
  unfolding respond_by_route respond_on_route proceeds
  throttle_over_rate c r limit e sound h = rw (respond-IsSound c sound, e) (ground arith)

-- An execution may proceed only if no agent is revoked, quarantined, killed or without trust, and
-- the consecutive failures are below their limit.
pub may_proceed-IsSound :
    {Num : Type 0} ⦃number : Numbers Num⦄ (c : Change Num)
    → (respond_to_change c).may_proceed ≡ true
    → IsSound c
may_proceed-IsSound c h = elim (respond-cases c) [ inl sound ↦ sound | inr stopped ↦ cc ]

-- The route stands, unchanged or replaced (KEEP or REROUTE), exactly when the agents are sound and
-- some current route is clear: below the rate limit and the escalation severity, with no stale
-- evidence, no approval to ask for and nothing to bound.
pub route_stands_iff :
    {Num : Type 0} ⦃number : Numbers Num⦄ (c : Change Num)
    → (((respond_to_change c).response ≡ keep) ⊎ ((respond_to_change c).response ≡ reroute))
      ↔ (IsSound c × ((r : Route Num) × IsClear c r))
route_stands_iff c = (
  λ h. stands-IsSound-IsClear c (respond-cases c) h,
  λ (sound, (r, clear)). rw (respond-IsSound c sound) (clear-by_route c r clear),
)

-- Of two changes whose severity must be escalated, with sound agents and a current route, the one
-- below its rate limit is answered ESCALATE and does not proceed, while the one that has reached
-- its rate limit is answered THROTTLE and proceeds.
pub rate_limit_lifts_escalation :
    {Num : Type 0} ⦃number : Numbers Num⦄ (calm busy : Change Num) (r s : Route Num) (limit : Num)
    → IsAboveAuthority calm r
    → IsAboveAuthority busy s
    → over_rate calm (preview_severity calm.preview) ≡ none
    → over_rate busy (preview_severity busy.preview) ≡ some limit
    → ((respond_to_change calm).response ≡ escalate)
      × ((respond_to_change calm).may_proceed ≡ false)
      × ((respond_to_change busy).response ≡ throttle)
      × ((respond_to_change busy).may_proceed ≡ true)
rate_limit_lifts_escalation calm busy r s limit h k under over =
    let (escalated, stopped) = escalate_under_rate calm r h under in
    let (throttled, proceeding) = throttle_over_rate busy s limit k.current k.sound over in
    (escalated, stopped, throttled, proceeding)

-- Reconciling two answers gives the more restrictive of their responses, by the order of RESPONSES.
pub reconcile-max :
    {Num : Type 0} (previous next : Answer Num)
    → restrictiveness (reconcile (some previous) next).response
      ≡ max (restrictiveness previous.response) (restrictiveness next.response)
unfolding reconcile
reconcile-max previous next = ground arith
