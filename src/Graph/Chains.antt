-- ===== src/Graph/Chains.antt =====
-- What a path of packages/pctr/src/graph.mjs is: a chain of delegations without a repeated agent,
-- from the principal to an agent that uses a tool which performs the action.
use ttp_protocol.Common.{◌≡◌, ◌≢◌, String, false, List, [], ◌∷◌, In, includes}
use ttp_protocol.Graph.{Links, incoming, delegates, uses, performs}

-- `Chain g path seen agent tail`: going back from `agent`, behind whom `tail` is known, gives `path`,
-- without an agent of `seen`.
pub data Chain (g : Links) (path : List String) : List String → String → List String → Type 0 where
  -- An agent without delegators is taken to be reached from the principal.
  root :
      (seen : List String) (agent : String) (tail : List String)
      → includes seen agent ≡ false
      → incoming g agent delegates ≡ []
      → path ≡ g.principal ∷ agent ∷ tail
      → Chain g path seen agent tail
  entry :
      (seen : List String) (agent : String) (tail : List String)
      → includes seen agent ≡ false
      → In g.principal (incoming g agent delegates)
      → path ≡ g.principal ∷ agent ∷ tail
      → Chain g path seen agent tail
  back :
      (seen : List String) (agent : String) (tail : List String)
      → includes seen agent ≡ false
      → (d : String) → In d (incoming g agent delegates)
      → d ≢ g.principal
      → Chain g path (agent ∷ seen) d (agent ∷ tail)
      → Chain g path seen agent tail

-- A path to an action.
pub record IsRoute (g : Links) (action : String) (path : List String) : Type 0 where
  pub tool : String
  pub agent : String
  pub performed : In tool (incoming g action performs)
  pub used : In agent (incoming g tool uses)
  pub chain : Chain g path [] agent (tool ∷ action ∷ [])
