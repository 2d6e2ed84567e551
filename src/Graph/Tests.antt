-- ===== src/Graph/Tests.antt =====
-- A small graph, and the theorems on paths at it.
use ttp_protocol.Common.{◌≡◌, refl, String, List, [], ◌∷◌, In, here}
use ttp_protocol.Graph.{
  Kind, Edge, Links, delegates, uses, performs, paths_to_action, paths_by_tools, paths_by_agents,
  walk_back, incoming, each_delegator,
}
use ttp_protocol.Graph.Chains.{IsRoute}
use ttp_protocol.Graph.Paths.{paths_to_action_iff}

abbrev pub link : String → String → Kind → Edge
link a b k = record { from = a; to = b; kind = k }

-- Two agents that delegate to each other, one of them started by the principal.
abbrev pub small : Links
small = record {
  principal = "user";
  edges =
      link "user" "planner" delegates
      ∷ link "planner" "payer" delegates
      ∷ link "payer" "planner" delegates
      ∷ link "payer" "bank" uses
      ∷ link "bank" "pay" performs
      ∷ [];
}

abbrev route : List String
route = "user" ∷ "planner" ∷ "payer" ∷ "bank" ∷ "pay" ∷ []

pay_paths : paths_to_action small "pay" ≡ route ∷ []
unfolding paths_to_action paths_by_tools paths_by_agents walk_back incoming each_delegator
pay_paths = refl

found : In route (paths_to_action small "pay")
unfolding paths_to_action paths_by_tools paths_by_agents walk_back incoming each_delegator
found = here refl

paths_to_action_iff_example : IsRoute small "pay" route
paths_to_action_iff_example = (paths_to_action_iff small "pay" route).0 found
