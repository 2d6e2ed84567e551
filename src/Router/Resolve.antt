-- ===== src/Router/Resolve.antt =====
-- `resolveRoute` and `reroute` of packages/pctr/src/router.mjs, `failureRate` and `rankByHistory` of
-- packages/pctr/src/history.mjs.
use ttp_protocol.Common.{
  String, Bool, true, false, not, ◌&&◌, ◌||◌, ◌-◌, ltb, Option, none, some, List, [], ◌∷◌, ◌++◌,
  map, length, keep, is_empty, fail_if, fail_each, if◌then◌else◌, or_else, is_some, ◌==◌, Numbers,
  first, sort_by,
}
use ttp_protocol.Consequence.Scale.{Severity, low, medium, high, critical, inherited, unknown}
use ttp_protocol.Decisions.{requires_human_approval}
use ttp_protocol.Graph.{paths_to_action}
use ttp_protocol.Json.{str, num, arr, obj, Items, nil, cons, end, field, Platform, hash_obj}
use ttp_protocol.Routing.{zero_num}
use ttp_protocol.Trust.{
  Maths, AgentNode, AgentTrust, agent_trust_now, trust_required, meets_threshold,
}
use ttp_protocol.Router.{
  ActionNode, World, Tally, Options, Rejection, insufficient_authority, jurisdiction_incompatible,
  agent_unavailable, trust_below_threshold, Hop, Candidate, Routed, join_path, holds_authority,
  verify_trust_route, effective_trust, trust_rejections, outside,
}

-- `===` on severities.
abbrev pub same_severity : Severity → Severity → Bool
same_severity low low = true
same_severity medium medium = true
same_severity high high = true
same_severity critical critical = true
same_severity (inherited s) (inherited t) = s == t
same_severity (unknown s) (unknown t) = s == t
same_severity _ _ = false

pub record Rerouted (Num : Type 0) : Type 0 where
  pub routed : Option (Routed Num)
  pub expansion_blocked : Bool
  pub replaced : Option String

module _ {Num : Type 0} ⦃number : Numbers Num⦄ where
  -- The nodes of type agent on a path.
  unfoldable pub agents_on : World Num → List String → List (AgentNode Num)
  agents_on w [] = []
  agents_on w (id ∷ ids) = elim (w.agents id) [
    | none ↦ agents_on w ids
    | some a ↦ a ∷ agents_on w ids
  ]

  abbrev pub hop_of : World Num → AgentNode Num → Hop Num
  hop_of w a = record {
    subject = a.id;
    issuer = or_else a.issuer w.links.principal;
    trust_score = or_else a.trust zero_num;
  }

  abbrev pub state_of : Maths Num → Options Num → Severity → AgentNode Num → AgentTrust Num
  state_of maths o severity a =
      agent_trust_now maths a severity o.policy.decay_constant (o.measurements a.id)

  abbrev pub per_hop : Options Num → Num
  per_hop o = or_else o.policy.decay_per_hop (number.decimal 5 2)

  unfoldable pub trust_of : Maths Num → Options Num → Severity → List (AgentNode Num) → Num
  trust_of maths o severity agents =
      effective_trust maths (per_hop o) (length agents - 1) (map (state_of maths o severity) agents)

  -- The rejections of a path, in the order of the source.
  unfoldable pub rejections_of :
      Maths Num
      → World Num
      → Options Num
      → String
      → ActionNode
      → Severity
      → List (AgentNode Num)
      → List Rejection
  rejections_of maths w o action node severity agents =
      fail_each (λ a. fail_if (not (holds_authority a action)) (insufficient_authority a.id)) agents
      ++ (fail_each trust_rejections (map (state_of maths o severity) agents)
          ++ (fail_if (not (meets_threshold (trust_of maths o severity agents) severity))
                trust_below_threshold
              ++ (fail_each
                    (λ a.
                      fail_if (outside (o.policy.jurisdictions node.consequence) a.jurisdiction)
                        (jurisdiction_incompatible a.id)
                      ++ fail_if (not a.available) (agent_unavailable a.id))
                    agents
                  ++ verify_trust_route o.policy (per_hop o) (map (hop_of w) agents) action)))

  abbrev pub hop_items : List (Hop Num) → Items Num
  hop_items [] = nil
  hop_items (h ∷ hs) =
      cons
        (obj (
          field "subject" (str h.subject)
            (field "issuer" (str h.issuer) (field "trustScore" (num h.trust_score) end))))
        (hop_items hs)

  -- `routeHash` of `verify_trust_route`.
  unfoldable pub route_hash : Platform Num → List String → List (Hop Num) → String → String → String
  route_hash p path hops action resource = hash_obj ⦃p = p⦄ (
      obj (
        field "routeId" (str (join_path ">" path)) (
          field "hops" (arr (hop_items hops))
            (field "action" (str action) (field "resource" (str resource) end)))))

  abbrev pub total : (AgentNode Num → Option Num) → Num → List (AgentNode Num) → Num
  total f sum [] = sum
  total f sum (a ∷ rest) = total f (number.add sum (or_else (f a) zero_num)) rest

  -- The body of `pathsToAction(...).map`.
  unfoldable pub candidate_of :
      Platform Num
      → Maths Num
      → World Num
      → Options Num
      → String
      → ActionNode
      → Severity
      → List String
      → Candidate Num
  unfolding rejections_of
  candidate_of p maths w o action node severity path =
      let agents = agents_on w path in
      let rejections = rejections_of maths w o action node severity agents in
      record {
        path = path;
        route_id = join_path " -> " path;
        agents = map (λ a. a.id) agents;
        effective_trust = trust_of maths o severity agents;
        trust_states = map (state_of maths o severity) agents;
        latency_ms = total (λ a. a.latency_ms) zero_num agents;
        cost_units = total (λ a. a.cost_units) zero_num agents;
        route_hash =
            route_hash p path (map (hop_of w) agents) action
              (or_else o.target (or_else node.target action));
        admissible = is_empty rejections;
        rejections = rejections;
      }

  abbrev tally_rate : Maths Num → Option Tally → Num
  tally_rate maths none = zero_num
  tally_rate maths (some t) =
      if ltb t.attempts 2 then zero_num else maths.ratio t.failures t.attempts

  unfoldable pub failure_rate : Maths Num → (String → Option Tally) → String → Num
  failure_rate maths history route_id = tally_rate maths (history route_id)

  -- A difference that is not negative is tried after one that is zero or NaN: `d1 || d2`.
  abbrev pub then_by :
      (Candidate Num → Candidate Num → Bool)
      → (Candidate Num → Candidate Num → Bool)
      → Candidate Num
      → Candidate Num
      → Bool
  then_by f g a b = f a b || not (f b a) && g a b

  abbrev pub by_key : (Candidate Num → Num) → Candidate Num → Candidate Num → Bool
  by_key key a b = number.lt (key a) (key b)

  -- The comparator of `rankByHistory`.
  unfoldable pub ranks_before :
      Maths Num → (String → Option Tally) → Candidate Num → Candidate Num → Bool
  ranks_before maths history =
      then_by (λ a b. number.lt b.effective_trust a.effective_trust)
        (then_by (by_key (λ c. failure_rate maths history c.route_id)) (
          then_by (by_key (λ c. c.latency_ms))
            (then_by (by_key (λ c. c.cost_units)) (λ a b. ltb (length a.path) (length b.path)))))

  unfoldable pub rank_by_history :
      Maths Num → (String → Option Tally) → List (Candidate Num) → List (Candidate Num)
  unfolding ranks_before
  rank_by_history maths history admissible = sort_by (ranks_before maths history) admissible

  unfoldable pub resolve_known :
      Platform Num → Maths Num → World Num → Options Num → String → ActionNode → Routed Num
  resolve_known p maths w o action node =
      let severity = or_else o.severity node.severity in
      let candidates =
        map (candidate_of p maths w o action node severity) (paths_to_action w.links action) in
      let admissible = rank_by_history maths o.history (keep (λ c. c.admissible) candidates) in
      record {
        selected = first admissible;
        admissible = admissible;
        candidates = candidates;
        severity = severity;
        requires_approval = requires_human_approval severity o.policy.require_approval_at_or_above;
        trust_required = trust_required severity;
      }

  -- `none` is the error of an unknown action.
  unfoldable pub resolve_route :
      Platform Num → Maths Num → World Num → Options Num → String → Option (Routed Num)
  resolve_route p maths w o action = elim (w.actions action) [
    | none ↦ none
    | some node ↦ some (resolve_known p maths w o action node)
  ]

  abbrev pub lower : Option Num → Option Num → Bool
  lower (some a) (some b) = number.lt a b
  lower _ _ = false

  -- The test of `reroute`: `next` would be selected on weaker grounds than `previous` was.
  unfoldable pub is_weaker : Routed Num → Routed Num → Bool
  is_weaker next previous =
      not (same_severity next.severity previous.severity)
      || lower next.trust_required previous.trust_required

  abbrev pub selected_of : Option (Routed Num) → Option (Candidate Num)
  selected_of none = none
  selected_of (some r) = r.selected

  abbrev replaced_id : Option (Candidate Num) → Option String
  replaced_id none = none
  replaced_id (some c) = some c.route_id

  abbrev pub blocks : Option (Routed Num) → Option (Routed Num) → Bool
  blocks (some next) (some previous) =
      is_some previous.selected && is_some next.selected && is_weaker next previous
  blocks _ _ = false

  abbrev pub deselect : Option (Routed Num) → Option (Routed Num)
  deselect none = none
  deselect (some r) = some (record r { selected = none })

  -- What `reroute` makes of the next resolution.
  unfoldable pub replace_route : Option (Routed Num) → Option (Routed Num) → Rerouted Num
  unfolding is_weaker
  replace_route next previous =
      if blocks next previous
      then record { routed = deselect next; expansion_blocked = true; replaced = none }
      else record {
        routed = next;
        expansion_blocked = false;
        replaced = replaced_id (selected_of previous);
      }

  unfoldable pub reroute :
      Platform Num
      → Maths Num
      → World Num
      → Options Num
      → String
      → Option (Routed Num)
      → Rerouted Num
  reroute p maths w o action previous = replace_route (resolve_route p maths w o action) previous
