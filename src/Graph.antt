-- ===== src/Graph.antt =====
-- packages/pctr/src/graph.mjs: the graph of execution authority, and the ways to an action. `Chains`
-- says what a path is, and `Paths` proves that all are found, with `Delegators` on the inner loop and
-- `Fuel` on the bound.
pub mod Chains
pub mod Delegators
pub mod Fuel
pub mod Paths
pub mod Tests
use ttp_protocol.Common.{
  String, Bool, true, false, ◌&&◌, ℕ, zero, suc, ◌+◌, List, [], ◌∷◌, ◌++◌, if◌then◌else◌, length,
  keep, includes, is_empty, ◌==◌, map,
}

pub data Kind : Type 0 where
  delegates uses performs causes : Kind

abbrev pub same_kind : Kind → Kind → Bool
same_kind delegates delegates = true
same_kind uses uses = true
same_kind performs performs = true
same_kind causes causes = true
same_kind _ _ = false

pub record Edge : Type 0 where
  pub from : String
  pub to : String
  pub kind : Kind

-- The part of the graph that paths are found in: `principal` and `edges`.
pub record Links : Type 0 where
  pub principal : String
  pub edges : List Edge

abbrev pub sources : String → Kind → List Edge → List String
sources id kind [] = []
sources id kind (e ∷ es) =
    if e.to == id && same_kind e.kind kind then e.from ∷ sources id kind es else sources id kind es

abbrev targets : String → Kind → List Edge → List String
targets id kind [] = []
targets id kind (e ∷ es) =
    if e.from == id && same_kind e.kind kind then e.to ∷ targets id kind es else targets id kind es

unfoldable pub incoming : Links → String → Kind → List String
incoming g id kind = sources id kind g.edges

unfoldable pub outgoing : Links → String → Kind → List String
outgoing g id kind = targets id kind g.edges

-- The loop over the delegators of an agent; `go` is the recursive call.
unfoldable pub each_delegator :
    (String → List (List String)) → String → List String → List String → List (List String)
each_delegator go principal path [] = []
each_delegator go principal path (d ∷ ds) =
    (if d == principal then (principal ∷ path) ∷ [] else go d)
    ++ each_delegator go principal path ds

abbrev pub from_delegators :
    (String → List (List String)) → String → List String → List String → List (List String)
from_delegators go principal path [] = (principal ∷ path) ∷ []
from_delegators go principal path (d ∷ ds) = each_delegator go principal path (d ∷ ds)

-- `walkBack` returns the paths that it pushes. The fuel bounds the number of agents on a path.
unfoldable pub walk_back : Links → ℕ → String → List String → List String → List (List String)
walk_back g zero agent tail seen = []
walk_back g (suc fuel) agent tail seen = elim (includes seen agent) [
  | true ↦ []
  | false ↦
      from_delegators (λ d. walk_back g fuel d (agent ∷ tail) (agent ∷ seen)) g.principal
        (agent ∷ tail) (incoming g agent delegates)
]

-- The two loops over tools and agents.
unfoldable pub paths_by_agents : Links → String → String → List String → List (List String)
paths_by_agents g action tool [] = []
paths_by_agents g action tool (agent ∷ agents) =
    walk_back g (length g.edges + 1) agent (tool ∷ action ∷ []) []
    ++ paths_by_agents g action tool agents

unfoldable pub paths_by_tools : Links → String → List String → List (List String)
paths_by_tools g action [] = []
paths_by_tools g action (tool ∷ tools) =
    paths_by_agents g action tool (incoming g tool uses) ++ paths_by_tools g action tools

unfoldable pub paths_to_action : Links → String → List (List String)
paths_to_action g action = paths_by_tools g action (incoming g action performs)
