-- ===== src/Router/Selected.antt =====
-- What packages/pctr/src/router.mjs promises of the route that it selects.
use ttp_protocol.Common.{
  ◌≡◌, ◌≢◌, ◌↔◌, refl, sym, ap, subst, ◌∙◌, inl, inr, arith, Bool-cases, String, true, false,
  Option, none, some, List, In, In-nil, Numbers, IsOrdered, Option-cases, map, keep, In-map,
  In-map_source, In-keep, In-keep_intro, In-first-sort_by, first-sort_by-none, or_else,
}
use ttp_protocol.Consequence.Scale.{Severity}
use ttp_protocol.Graph.{paths_to_action}
use ttp_protocol.Graph.Chains.{IsRoute}
use ttp_protocol.Graph.Paths.{paths_to_action_iff}
use ttp_protocol.Json.{Platform}
use ttp_protocol.Trust.{Maths}
use ttp_protocol.Router.{ActionNode, World, Options, Candidate, Routed}
use ttp_protocol.Router.Resolve.{
  candidate_of, rank_by_history, ranks_before, resolve_known, resolve_route, reroute, replace_route,
  selected_of, same_severity, lower, is_weaker, blocks,
}
use ttp_protocol.Router.Admissible.{IsAdmissible, candidate_of-admissible_iff}
use ttp_protocol.Router.Rank.{IsNumeric, first-ranked_trust}

module _ {Num : Type 0} ⦃number : Numbers Num⦄ (p : Platform Num) (maths : Maths Num)
    (w : World Num) (o : Options Num) (action : String) (node : ActionNode) where
  -- The severity that the routes are judged by.
  abbrev pub severity_of : Severity
  severity_of = or_else o.severity node.severity

  -- A route to the action on which nothing is rejected.
  pub record IsOpen (path : List String) : Type 0 where
    pub route : IsRoute w.links action path
    pub admissible : IsAdmissible maths w o action node severity_of path

  unfoldable survivors : List (Candidate Num)
  survivors =
      keep (λ c. c.admissible)
        (map (candidate_of p maths w o action node severity_of) (paths_to_action w.links action))

  In-survivors :
      {c : Candidate Num}
      → In c survivors
      → (path : List String) × ((c ≡ candidate_of p maths w o action node severity_of path)
          × IsOpen path)
  unfolding survivors
  In-survivors {c} m =
      let (n, yes') = In-keep (λ (x : Candidate Num). x.admissible) _ m in
      let (path, found, same) =
        In-map_source (candidate_of p maths w o action node severity_of) _ n in
      (
        path,
        (
          same,
          record {
            route = (paths_to_action_iff w.links action path).0 found;
            admissible =
                (candidate_of-admissible_iff maths w o action node severity_of p path).0
                  (sym (ap (λ (x : Candidate Num). x.admissible) same) ∙ yes');
          },
        ),
      )

  survivors-In :
      (path : List String)
      → IsOpen path
      → In (candidate_of p maths w o action node severity_of path) survivors
  unfolding survivors
  survivors-In path open' =
      In-keep_intro (λ (x : Candidate Num). x.admissible) _
        (In-map (candidate_of p maths w o action node severity_of) _
          ((paths_to_action_iff w.links action path).1 open'.route))
        ((candidate_of-admissible_iff maths w o action node severity_of p path).1 open'.admissible)

  selected-survives :
      {c : Candidate Num}
      → (resolve_known p maths w o action node).selected ≡ some c
      → In c survivors
  unfolding resolve_known rank_by_history survivors
  selected-survives e = In-first-sort_by (ranks_before maths o.history) _ e

-- A route is selected exactly when some path to the action is open: a chain of delegations from the
-- principal without a repeated agent, on which every agent holds authority, is available, within its
-- jurisdiction, and has proven and fresh trust, whose effective trust meets the threshold, and which
-- passes the route check. History has no part in it.
pub selected_iff :
    {Num : Type 0} ⦃number : Numbers Num⦄ (p : Platform Num) (maths : Maths Num) (w : World Num)
    (o : Options Num) (action : String) (node : ActionNode)
    → ((resolve_known p maths w o action node).selected ≢ none)
      ↔ ((path : List String) × IsOpen p maths w o action node path)
unfolding resolve_known rank_by_history survivors
selected_iff p maths w o action node = (
  (λ h. elim (Option-cases (resolve_known p maths w o action node).selected) [
    | inl none' ↦ absurd (h none')
    | inr (c, some') ↦
        let (path, (_, open')) =
          In-survivors p maths w o action node (selected-survives p maths w o action node some') in
        (path, open')
  ]),
  (λ (path, open') none'. In-nil (
      rw
        (first-sort_by-none (ranks_before maths o.history) (survivors p maths w o action node)
          none')
        at (survivors-In p maths w o action node path open'))),
)

-- The selected route is the candidate of an open path, whatever the history.
pub selected-IsOpen :
    {Num : Type 0} ⦃number : Numbers Num⦄ (p : Platform Num) (maths : Maths Num) (w : World Num)
    (o : Options Num) (action : String) (node : ActionNode) (c : Candidate Num)
    → (resolve_known p maths w o action node).selected ≡ some c
    → (path : List String) × ((c
          ≡ candidate_of p maths w o action node (severity_of p maths w o action node) path)
        × IsOpen p maths w o action node path)
selected-IsOpen p maths w o action node c e =
    In-survivors p maths w o action node (selected-survives p maths w o action node e)

-- No open path has more effective trust than the selected route, if what is compared on open paths
-- is not NaN.
pub selected-most_trusted :
    {Num : Type 0} ⦃number : Numbers Num⦄
    → IsOrdered number
    → (p : Platform Num) (maths : Maths Num) (w : World Num) (o : Options Num) (action : String)
      (node : ActionNode) (c : Candidate Num)
    → ((path : List String)
        → IsOpen p maths w o action node path
        → IsNumeric maths o.history
            (candidate_of p maths w o action node (severity_of p maths w o action node) path))
    → (resolve_known p maths w o action node).selected ≡ some c
    → (path : List String) → IsOpen p maths w o action node path
    → number.lt c.effective_trust
        (candidate_of p maths w o action node
          (severity_of p maths w o action node)
          path).effective_trust
      ≡ false
unfolding resolve_known rank_by_history survivors
selected-most_trusted ordered p maths w o action node c fine e path open' =
    first-ranked_trust ordered maths o.history (survivors p maths w o action node)
      (λ x m.
        let (path', (same, open'')) = In-survivors p maths w o action node m in
        subst (IsNumeric maths o.history) (sym same) (fine path' open''))
      e _ (survivors-In p maths w o action node path open')

module _ {Num : Type 0} ⦃number : Numbers Num⦄ where
  replaces_evenly :
      (next : Option (Routed Num)) (previous : Routed Num) (old new : Candidate Num)
      → previous.selected ≡ some old
      → selected_of (replace_route next (some previous)).routed ≡ some new
      → (r : Routed Num) × ((next ≡ some r)
          × ((r.selected ≡ some new)
              × ((same_severity r.severity previous.severity ≡ true)
                  × (lower r.trust_required previous.trust_required ≡ false))))
  unfolding replace_route is_weaker
  replaces_evenly none previous old new was now = cc
  replaces_evenly (some r) previous old new was now =
      elim (Bool-cases (blocks (some r) (some previous))) [
        | inl yes' ↦ absurd (ground (arith, yes', now))
        | inr no' ↦
            let kept : r.selected ≡ some new = ground (arith, no', now) in
            (r, (refl, (kept, (ground (arith, no', kept, was), ground (arith, no', kept, was)))))
      ]

-- A replacement route that `reroute` leaves selected is judged by the severity of the route that it
-- replaces, and by a threshold that is not lower.
pub reroute_never_weaker :
    {Num : Type 0} ⦃number : Numbers Num⦄ (p : Platform Num) (maths : Maths Num) (w : World Num)
    (o : Options Num) (action : String) (previous : Routed Num) (old new : Candidate Num)
    → previous.selected ≡ some old
    → selected_of (reroute p maths w o action (some previous)).routed ≡ some new
    → (next : Routed Num) × ((resolve_route p maths w o action ≡ some next)
        × ((next.selected ≡ some new)
            × ((same_severity next.severity previous.severity ≡ true)
                × (lower next.trust_required previous.trust_required ≡ false))))
unfolding reroute
reroute_never_weaker p maths w o action previous old new was now =
    replaces_evenly (resolve_route p maths w o action) previous old new was now
