-- ===== src/Router.antt =====
-- packages/pctr/src/router.mjs with `verify_trust_route` of packages/pctr/src/ttp.mjs and the ranking of
-- packages/pctr/src/history.mjs. This file has the data and the checks
-- of a path, `Resolve` the choice among paths; `Admissible`, `Rank` and `Selected` hold the proofs.
pub mod Resolve
pub mod Admissible
pub mod Rank
pub mod Selected
pub mod Tests
use ttp_protocol.Common.{
  String, Bool, true, false, not, ◌&&◌, ◌||◌, ℕ, ◌+◌, ◌-◌, ltb, Option, none, some, List, [], ◌∷◌,
  ◌++◌, map, length, any, keep, includes, is_empty, fail_if, fail_each, if◌then◌else◌, or_else,
  is_some, ◌==◌, Numbers, first, sort_by,
}
use Prim.Native.String.{◌++◌ as ◌⊕◌, slice, len}
use text.Mathlib.Text.{starts_with}
use ttp_protocol.Consequence.{Class}
use ttp_protocol.Consequence.Scale.{Severity, low, medium, high, critical, inherited, unknown}
use ttp_protocol.Decisions.{requires_human_approval}
use ttp_protocol.Graph.{Links, paths_to_action}
use ttp_protocol.Json.{
  Json, str, num, arr, obj, Items, nil, cons, Fields, end, field, Platform, hash_obj,
}
use ttp_protocol.Routing.{max_num, min_num, zero_num}
use ttp_protocol.Trust.{
  Maths, AgentNode, Measured, AgentTrust, Provenance, unproven, agent_trust_now, trust_required,
  meets_threshold,
}

pub record RoutePolicy : Type 0 where
  pub trusted_issuers : Option (List String)
  pub allowed_domains : Option (List String)
  pub allowed_actions : Option (List String)

-- The policy of the manifest, overridden by that of the options.
pub record Policy (Num : Type 0) : Type 0 where
  pub decay_constant : Option Num
  pub decay_per_hop : Option Num
  -- `jurisdictions?.[consequence]`
  pub jurisdictions : Class → Option (List String)
  pub max_hops : Option Num
  pub min_intermediate_trust : Option Num
  pub source_domain : Option String
  pub target_domain : Option String
  pub route_policy : Option RoutePolicy
  pub require_approval_at_or_above : Option Severity

pub record ActionNode : Type 0 where
  pub severity : Severity
  pub consequence : Class
  pub target : Option String

-- A graph: its edges, and its nodes of type agent and of type action by their id.
pub record World (Num : Type 0) : Type 0 where
  pub links : Links
  pub agents : String → Option (AgentNode Num)
  pub actions : String → Option ActionNode

-- An entry of the history by route.
pub record Tally : Type 0 where
  pub attempts : ℕ
  pub failures : ℕ

pub record Options (Num : Type 0) : Type 0 where
  pub policy : Policy Num
  pub severity : Option Severity
  pub target : Option String
  pub measurements : String → Option (Measured Num)
  pub history : String → Option Tally

-- The codes, with the agent that the message names.
pub data Rejection : Type 0 where
  insufficient_authority trust_unproven stale_evidence : String → Rejection
  jurisdiction_incompatible agent_unavailable : String → Rejection
  trust_below_threshold empty_route too_many_hops missing_identity : Rejection
  intermediate_trust untrusted_issuer domain_not_allowed action_not_allowed : Rejection

pub record Hop (Num : Type 0) : Type 0 where
  pub subject : String
  pub issuer : String
  pub trust_score : Num

pub record Candidate (Num : Type 0) : Type 0 where
  pub path : List String
  pub route_id : String
  pub agents : List String
  pub effective_trust : Num
  pub trust_states : List (AgentTrust Num)
  pub latency_ms : Num
  pub cost_units : Num
  pub route_hash : String
  pub admissible : Bool
  pub rejections : List Rejection

pub record Routed (Num : Type 0) : Type 0 where
  pub selected : Option (Candidate Num)
  pub admissible : List (Candidate Num)
  pub candidates : List (Candidate Num)
  pub severity : Severity
  pub requires_approval : Bool
  pub trust_required : Option Num

-- `path.join(sep)`
abbrev pub join_path : String → List String → String
join_path sep [] = ""
join_path sep (x ∷ []) = x
join_path sep (x ∷ y ∷ xs) = x ⊕ (sep ⊕ join_path sep (y ∷ xs))

-- `a === '*' || a === actionId || (a.endsWith('.*') && actionId.startsWith(a.slice(0, -1)))`
unfoldable pub grants : String → String → Bool
grants action a =
    a == "*"
    || a == action
    || ltb 1 (len a)
      && slice a (len a - 2) (len a) == ".*"
      && starts_with action (slice a 0 (len a - 1))

unfoldable pub holds_authority : {Num : Type 0} → AgentNode Num → String → Bool
holds_authority agent action = any (grants action) agent.authority

-- A name that a list, where it is given, does not have.
abbrev pub unlisted : Option (List String) → String → Bool
unlisted none name = false
unlisted (some names) name = not (includes names name)

abbrev trusted : Option RoutePolicy → Option (List String)
trusted none = none
trusted (some r) = r.trusted_issuers

abbrev domains : Option RoutePolicy → Option (List String)
domains none = none
domains (some r) = r.allowed_domains

abbrev actions_of : Option RoutePolicy → Option (List String)
actions_of none = none
actions_of (some r) = r.allowed_actions

abbrev is_unproven : Provenance → Bool
is_unproven unproven = true
is_unproven _ = false

-- `allowed && a.jurisdiction && !allowed.includes(a.jurisdiction)`
abbrev pub outside : Option (List String) → Option String → Bool
outside (some allowed) (some j) = not (j == "") && not (includes allowed j)
outside _ _ = false

module _ {Num : Type 0} ⦃number : Numbers Num⦄ where
  -- The loop of `verify_trust_route`, with the trust so far.
  unfoldable pub hop_failures : Policy Num → Num → Num → List (Hop Num) → List Rejection
  hop_failures policy per_hop trust [] = []
  hop_failures policy per_hop trust (h ∷ hs) =
      let now = number.mul trust (max_num zero_num (number.sub h.trust_score per_hop)) in
      fail_if (h.subject == "" || h.issuer == "") missing_identity
      ++ (fail_if (number.lt now (or_else policy.min_intermediate_trust zero_num))
            intermediate_trust
          ++ (fail_if (unlisted (trusted policy.route_policy) h.issuer) untrusted_issuer
              ++ hop_failures policy per_hop now hs))

  unfoldable pub verify_trust_route : Policy Num → Num → List (Hop Num) → String → List Rejection
  verify_trust_route policy per_hop hops action =
      let crossing =
        or_else policy.source_domain "local" ⊕ ("->" ⊕ or_else policy.target_domain "local") in
      fail_if (is_empty hops) empty_route
      ++ (fail_if
            (number.lt (or_else policy.max_hops (number.decimal 6 0))
              (number.decimal (length hops) 0))
            too_many_hops
          ++ (hop_failures policy per_hop (number.decimal 1 0) hops
              ++ (fail_if (unlisted (domains policy.route_policy) crossing) domain_not_allowed
                  ++ fail_if (unlisted (actions_of policy.route_policy) action)
                      action_not_allowed)))

  abbrev pub lowest : Num → List (AgentTrust Num) → Num
  lowest t [] = t
  lowest t (s ∷ ss) = lowest (min_num t s.trust) ss

  unfoldable pub effective_trust : Maths Num → Num → ℕ → List (AgentTrust Num) → Num
  effective_trust maths per_hop depth [] = zero_num
  effective_trust maths per_hop depth (s ∷ ss) = maths.round4 (
      max_num zero_num
        (number.sub (lowest s.trust ss) (number.mul per_hop (number.decimal depth 0))))

  unfoldable pub trust_rejections : AgentTrust Num → List Rejection
  trust_rejections t =
      if is_unproven t.provenance
      then trust_unproven t.agent_id ∷ []
      else fail_if t.evidence_stale (stale_evidence t.agent_id)
