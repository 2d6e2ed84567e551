-- ===== src/Router/Admissible.antt =====
-- Which routes packages/pctr/src/router.mjs may select: those on which nothing is rejected.
use ttp_protocol.Common.{
  ◌≡◌, ◌↔◌, ap, ◌∙◌, String, true, false, List, [], arith, In, Numbers, map, is_empty,
  is_empty-eq-nil, fail_each-nil_iff, append-nil_iff, fail_if-nil_iff, fail_unless-nil_iff, In-map,
  In-map_source,
}
use ttp_protocol.Consequence.Scale.{Severity}
use ttp_protocol.Json.{Platform}
use ttp_protocol.Trust.{Maths, AgentNode, AgentTrust, meets_threshold}
use ttp_protocol.Router.{
  ActionNode, World, Options, holds_authority, verify_trust_route, trust_rejections, is_unproven,
  outside,
}
use ttp_protocol.Router.Resolve.{
  agents_on, hop_of, state_of, per_hop, trust_of, rejections_of, candidate_of,
}

module _ {Num : Type 0} ⦃number : Numbers Num⦄ (maths : Maths Num) (w : World Num) (o : Options Num)
    (action : String) (node : ActionNode) (severity : Severity) where
  -- What is asked of each agent on a path.
  pub record IsFit (a : AgentNode Num) : Type 0 where
    pub authorized : holds_authority a action ≡ true
    pub proven : is_unproven (state_of maths o severity a).provenance ≡ false
    pub fresh : (state_of maths o severity a).evidence_stale ≡ false
    pub compatible : outside (o.policy.jurisdictions node.consequence) a.jurisdiction ≡ false
    pub available : a.available ≡ true

  -- What is asked of a path.
  pub record IsAdmissible (path : List String) : Type 0 where
    pub fit : (a : AgentNode Num) → In a (agents_on w path) → IsFit a
    pub trusted : meets_threshold (trust_of maths o severity (agents_on w path)) severity ≡ true
    pub route_valid :
        verify_trust_route o.policy (per_hop o) (map (hop_of w) (agents_on w path)) action ≡ []

  trust_rejections-nil_iff :
      (t : AgentTrust Num)
      → (trust_rejections t ≡ [])
        ↔ ((is_unproven t.provenance ≡ false) × (t.evidence_stale ≡ false))
  unfolding trust_rejections
  trust_rejections-nil_iff t = ground arith

  rejections_of-nil :
      (path : List String)
      → rejections_of maths w o action node severity (agents_on w path) ≡ []
      → IsAdmissible path
  unfolding rejections_of
  rejections_of-nil path e =
      let (unauthorized, e1) = (append-nil_iff _ _).0 e in
      let (untrusted, e2) = (append-nil_iff _ _).0 e1 in
      let (below, e3) = (append-nil_iff _ _).0 e2 in
      let (unfit, invalid) = (append-nil_iff _ _).0 e3 in
      record {
        fit = λ a m.
            let trust' = (trust_rejections-nil_iff _).0 (
              (fail_each-nil_iff trust_rejections _).0 untrusted _
                (In-map (state_of maths o severity) _ m)) in
            let place' = (append-nil_iff _ _).0 ((fail_each-nil_iff _ _).0 unfit a m) in
            record {
              authorized = (fail_unless-nil_iff _ _).0 ((fail_each-nil_iff _ _).0 unauthorized a m);
              proven = trust'.0;
              fresh = trust'.1;
              compatible = (fail_if-nil_iff _ _).0 place'.0;
              available = (fail_unless-nil_iff _ _).0 place'.1;
            };
        trusted = (fail_unless-nil_iff _ _).0 below;
        route_valid = invalid;
      }

  IsAdmissible-rejections_of :
      (path : List String)
      → IsAdmissible path
      → rejections_of maths w o action node severity (agents_on w path) ≡ []
  unfolding rejections_of
  IsAdmissible-rejections_of path h = (append-nil_iff _ _).1 (
    (fail_each-nil_iff _ _).1 (λ a m. (fail_unless-nil_iff _ _).1 (h.fit a m).authorized),
    (append-nil_iff _ _).1 (
      (fail_each-nil_iff trust_rejections _).1 (λ t m.
          let (a, n, same) = In-map_source (state_of maths o severity) _ m in
          ap trust_rejections same
          ∙ (trust_rejections-nil_iff _).1 ((h.fit a n).proven, (h.fit a n).fresh)),
      (append-nil_iff _ _).1 (
        (fail_unless-nil_iff _ _).1 h.trusted,
        (append-nil_iff _ _).1 (
          (fail_each-nil_iff _ _).1 (λ a m. (append-nil_iff _ _).1 (
            (fail_if-nil_iff _ _).1 (h.fit a m).compatible,
            (fail_unless-nil_iff _ _).1 (h.fit a m).available,
          )),
          h.route_valid,
        ),
      ),
    ),
  )

  -- A candidate is admissible exactly when all that is asked of its path holds.
  pub candidate_of-admissible_iff :
      (p : Platform Num) (path : List String)
      → ((candidate_of p maths w o action node severity path).admissible ≡ true) ↔ IsAdmissible path
  unfolding candidate_of
  candidate_of-admissible_iff p path = (
    (λ e. rejections_of-nil path (is_empty-eq-nil _ e)),
    (λ h. ap is_empty (IsAdmissible-rejections_of path h)),
  )
