-- ===== src/Router/Tests.antt =====
-- A world with one payment, and the theorems on routing at it.
use ttp_protocol.Common.{
  ◌≡◌, ◌≢◌, refl, String, true, false, ℕ, ◌-◌, ◌*◌, Option, none, some, List, [], ◌∷◌, millionths,
  millionths-IsOrdered, if◌then◌else◌, ◌==◌, leb, arith,
}
use Prim.Native.Nat.{◌/◌}
use ttp_protocol.Consequence.{money_moved}
use ttp_protocol.Consequence.Scale.{high}
use ttp_protocol.Graph.{
  paths_to_action, paths_by_tools, paths_by_agents, walk_back, incoming, each_delegator,
}
use ttp_protocol.Graph.Tests.{small}
use ttp_protocol.Json.Tests.{toy_platform}
use ttp_protocol.Trust.{
  Maths, AgentNode, agent_trust_now, declared_trust_now, apply_decay, risk_multiplier,
  trust_required, meets_threshold, too_old,
}
use ttp_protocol.Router.{
  ActionNode, World, Options, Candidate, Routed, grants, holds_authority, hop_failures,
  verify_trust_route, effective_trust, trust_rejections,
}
use ttp_protocol.Router.Resolve.{
  agents_on, trust_of, rejections_of, candidate_of, failure_rate, ranks_before, rank_by_history,
  resolve_known, resolve_route, reroute, replace_route, is_weaker, selected_of, same_severity,
  lower,
}
use ttp_protocol.Router.Rank.{IsNumeric}
use ttp_protocol.Router.Selected.{
  IsOpen, severity_of, selected_iff, selected-most_trusted, reroute_never_weaker,
}

-- A linear exponential, and no rounding.
abbrev toy_maths : Maths ℕ
toy_maths = record {
  exp_minus = λ x. 1_000_000 - x;
  round4 = λ x. x;
  nan = 0;
  ratio = λ m n. m * 1_000_000 / n;
}

abbrev agent : String → AgentNode ℕ
agent name = record {
  id = name;
  trust = some 980_000;
  evidence_age_seconds = some 5_000_000;
  activity_signals = [];
  authority = "pay" ∷ [];
  jurisdiction = none;
  issuer = none;
  available = true;
  latency_ms = some 10;
  cost_units = some 1;
}

abbrev pay_node : ActionNode
pay_node = record { severity = high; consequence = money_moved; target = none }

abbrev world : World ℕ
world = record {
  links = small;
  agents = λ id.
      if id == "planner"
      then some (agent "planner")
      else if id == "payer"
      then some (agent "payer")
      else none;
  actions = λ id. if id == "pay" then some pay_node else none;
}

abbrev options : Options ℕ
options = record {
  policy = record {
    decay_constant = none;
    decay_per_hop = none;
    jurisdictions = λ _. none;
    max_hops = none;
    min_intermediate_trust = none;
    source_domain = none;
    target_domain = none;
    route_policy = none;
    require_approval_at_or_above = none;
  };
  severity = none;
  target = none;
  measurements = λ _. none;
  history = λ _. none;
}

abbrev routed : Routed ℕ
routed = resolve_known ⦃number = millionths⦄ toy_platform toy_maths world options "pay" pay_node

abbrev is_here : Option (Candidate ℕ) → String
is_here none = ""
is_here (some c) = c.route_id

runs : Unit {0}
unfolding resolve_known rank_by_history ranks_before candidate_of rejections_of trust_of agents_on
    trust_rejections effective_trust verify_trust_route hop_failures holds_authority grants
    paths_to_action paths_by_tools paths_by_agents walk_back incoming each_delegator agent_trust_now
    declared_trust_now apply_decay risk_multiplier trust_required meets_threshold too_old
    resolve_route reroute replace_route is_weaker
runs = tt

over_payer : is_here routed.selected ≡ "user -> planner -> payer -> bank -> pay"
unfolding runs
over_payer = refl

abbrev chosen : Candidate ℕ
chosen =
    candidate_of ⦃number = millionths⦄ toy_platform toy_maths world options "pay" pay_node high
      ("user" ∷ "planner" ∷ "payer" ∷ "bank" ∷ "pay" ∷ [])

chosen_selected : routed.selected ≡ some chosen
unfolding runs
chosen_selected = refl

is_selected : routed.selected ≢ none
is_selected e = cc chosen_selected

selected_iff_example :
    (path : List String) × IsOpen ⦃number = millionths⦄ toy_platform toy_maths world options "pay"
      pay_node path
selected_iff_example =
    (selected_iff ⦃number = millionths⦄ toy_platform toy_maths world options "pay" pay_node).0
      is_selected

open_path :
    (path : List String) × IsOpen ⦃number = millionths⦄ toy_platform toy_maths world options "pay"
      pay_node path
open_path =
    (selected_iff ⦃number = millionths⦄ toy_platform toy_maths world options "pay" pay_node).0
      is_selected

leb_refl : (n : ℕ) → leb n n ≡ true
leb_refl n = ground arith

numeric : (c : Candidate ℕ) → IsNumeric ⦃number = millionths⦄ toy_maths options.history c
numeric c = record {
  trust = leb_refl c.effective_trust;
  rate = leb_refl (failure_rate ⦃number = millionths⦄ toy_maths options.history c.route_id);
  latency = leb_refl c.latency_ms;
  cost = leb_refl c.cost_units;
}

selected-most_trusted_example :
    millionths.lt chosen.effective_trust
      (candidate_of ⦃number = millionths⦄ toy_platform toy_maths world options "pay" pay_node
        (severity_of ⦃number = millionths⦄ toy_platform toy_maths world options "pay" pay_node)
        open_path.0).effective_trust
    ≡ false
selected-most_trusted_example =
    selected-most_trusted ⦃number = millionths⦄ millionths-IsOrdered toy_platform toy_maths world
      options "pay" pay_node chosen (λ _ _. numeric _) chosen_selected open_path.0 open_path.1

rerouted :
    selected_of ⦃number = millionths⦄
      (reroute ⦃number = millionths⦄ toy_platform toy_maths world options "pay"
        (some routed)).routed
    ≡ some chosen
unfolding runs
rerouted = refl

reroute_never_weaker_example :
    (next : Routed ℕ) × ((resolve_route ⦃number = millionths⦄ toy_platform toy_maths world options
          "pay"
        ≡ some next)
      × ((next.selected ≡ some chosen)
          × ((same_severity next.severity routed.severity ≡ true)
              × (lower ⦃number = millionths⦄ next.trust_required routed.trust_required ≡ false))))
reroute_never_weaker_example =
    reroute_never_weaker ⦃number = millionths⦄ toy_platform toy_maths world options "pay" routed
      chosen chosen chosen_selected rerouted
