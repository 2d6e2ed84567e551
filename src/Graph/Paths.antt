-- ===== src/Graph/Paths.antt =====
-- The paths that packages/pctr/src/graph.mjs finds are exactly the routes.
use ttp_protocol.Common.{
  ◌≡◌, refl, ◌↔◌, inl, inr, ◌<◌, ℕ, zero, suc, ◌+◌, String, true, false, List, [], ◌∷◌, arith, In,
  here, there, In-nil, In-append_left, In-append_right, In-append_cases, includes, length,
  Bool-cases, sym, subst, ◌∙◌,
}
use ttp_protocol.Graph.{
  Links, delegates, uses, incoming, from_delegators, walk_back, paths_by_agents, paths_by_tools,
  paths_to_action,
}
use ttp_protocol.Graph.Chains.{Chain, root, entry, back, IsRoute}
use ttp_protocol.Graph.Delegators.{
  Found, find_entry, find_back, from_delegators_sound, from_delegators_loop,
}
use ttp_protocol.Graph.Fuel.{unseen, unseen-length, unseen_lt}

module _ (g : Links) (fuel : ℕ) (agent : String) (tail seen : List String) where
  next : String → List (List String)
  next d = walk_back g fuel d (agent ∷ tail) (agent ∷ seen)

  walk_back-seen : includes seen agent ≡ true → walk_back g (suc fuel) agent tail seen ≡ []
  unfolding walk_back
  walk_back-seen e = rw (e, walk_back) refl

  walk_back_fresh :
      includes seen agent ≡ false
      → walk_back g (suc fuel) agent tail seen
        ≡ from_delegators next g.principal (agent ∷ tail) (incoming g agent delegates)
  unfolding walk_back next
  walk_back_fresh e = rw (e, walk_back) refl

module _ (g : Links) where
  walk_back_sound :
      (fuel : ℕ) (agent : String) (tail seen p : List String)
      → In p (walk_back g fuel agent tail seen)
      → Chain g p seen agent tail
  unfolding walk_back Found next
  walk_back_sound zero agent tail seen p m = In-nil m
  walk_back_sound (suc fuel) agent tail seen p m = elim (Bool-cases (includes seen agent)) [
    | inl already ↦ In-nil (subst (In p) (walk_back-seen g fuel agent tail seen already) m)
    | inr fresh ↦
        elim (from_delegators_sound _ _ _ _ p
          (subst (In p) (walk_back_fresh g fuel agent tail seen fresh) m)) [
            | inl (none', e) ↦ root seen agent tail fresh none' e
            | inr (inl (m', e)) ↦ entry seen agent tail fresh m' e
            | inr (inr (d, m', other, r)) ↦
                back seen agent tail fresh d m' other (walk_back_sound fuel d _ _ p r)
          ]
  ]

  Chain-fresh :
      {p : List String} (seen : List String) (agent : String) (tail : List String)
      → Chain g p seen agent tail
      → includes seen agent ≡ false
  Chain-fresh _ _ _ (root _ _ _ fresh _ _) = fresh
  Chain-fresh _ _ _ (entry _ _ _ fresh _ _) = fresh
  Chain-fresh _ _ _ (back _ _ _ fresh _ _ _ _) = fresh

  -- Fuel for each edge that starts at an agent not on the path is enough.
  walk_back_complete :
      (fuel : ℕ) (p : List String) (seen : List String) (agent : String) (tail : List String)
      → unseen (agent ∷ seen) g.edges < fuel
      → Chain g p seen agent tail
      → In p (walk_back g fuel agent tail seen)
  unfolding walk_back next incoming
  walk_back_complete zero p seen agent tail enough chain = absurd (omega arith)
  walk_back_complete (suc fuel) p _ _ _ enough (root seen agent tail fresh none' e) =
      subst (In p) (sym (walk_back_fresh g fuel agent tail seen fresh)) (rw none' (here e))
  walk_back_complete (suc fuel) p _ _ _ enough (entry seen agent tail fresh m e) =
      subst (In p)
        (sym (walk_back_fresh g fuel agent tail seen fresh ∙ from_delegators_loop _ _ _ _ m))
        (rw e (find_entry _ _ _ _ m))
  walk_back_complete (suc fuel) p _ _ _ enough (back seen agent tail fresh d m other rest) =
      subst (In p)
        (sym (walk_back_fresh g fuel agent tail seen fresh ∙ from_delegators_loop _ _ _ _ m))
        (find_back _ _ _ d _ p m other (
          walk_back_complete fuel p (agent ∷ seen) d (agent ∷ tail)
            (omega (
              arith,
              unseen_lt d agent delegates (agent ∷ seen) g.edges
                  (Chain-fresh (agent ∷ seen) d (agent ∷ tail) rest) m,
            ))
            rest))

module _ (g : Links) (action : String) where
  from_agents_sound :
      (tool : String) (agents p : List String)
      → In p (paths_by_agents g action tool agents)
      → (agent : String) × In agent agents × Chain g p [] agent (tool ∷ action ∷ [])
  unfolding paths_by_agents
  from_agents_sound tool [] p m = In-nil m
  from_agents_sound tool (agent ∷ agents) p m =
      elim (In-append_cases (walk_back g (length g.edges + 1) agent (tool ∷ action ∷ []) []) _ m) [
        | inl now ↦ (agent, here refl, walk_back_sound g _ agent _ _ p now)
        | inr later ↦
            let (a, m', chain) = from_agents_sound tool agents p later in (a, there m', chain)
      ]

  from_tools_sound :
      (tools p : List String)
      → In p (paths_by_tools g action tools)
      → (tool : String) × In tool tools
        × In p (paths_by_agents g action tool (incoming g tool uses))
  unfolding paths_by_tools
  from_tools_sound [] p m = In-nil m
  from_tools_sound (tool ∷ tools) p m = elim (In-append_cases _ _ m) [
    | inl now ↦ (tool, here refl, now)
    | inr later ↦ let (t, m', r) = from_tools_sound tools p later in (t, there m', r)
  ]

  from_agents_complete :
      (tool agent : String) (agents p : List String)
      → In agent agents
      → Chain g p [] agent (tool ∷ action ∷ [])
      → In p (paths_by_agents g action tool agents)
  unfolding paths_by_agents
  from_agents_complete tool agent [] p m chain = In-nil m
  from_agents_complete tool agent (x ∷ agents) p (here e) chain = In-append_left _ (
      walk_back_complete g _ p [] x (tool ∷ action ∷ [])
        (omega (arith, unseen-length (x ∷ []) g.edges)) (rw e at chain))
  from_agents_complete tool agent (x ∷ agents) p (there m) chain =
      In-append_right _ (from_agents_complete tool agent agents p m chain)

  from_tools_complete :
      (tool : String) (tools p : List String)
      → In tool tools
      → In p (paths_by_agents g action tool (incoming g tool uses))
      → In p (paths_by_tools g action tools)
  unfolding paths_by_tools
  from_tools_complete tool [] p m r = In-nil m
  from_tools_complete tool (x ∷ tools) p (here e) r = In-append_left _ (rw e at r)
  from_tools_complete tool (x ∷ tools) p (there m) r =
      In-append_right _ (from_tools_complete tool tools p m r)

-- The paths found are exactly the chains of delegations without a repeated agent that lead from the
-- principal to an agent with a tool for the action: each one is found, so that the fuel is enough,
-- and nothing else is.
pub paths_to_action_iff :
    (g : Links) (action : String) (p : List String)
    → In p (paths_to_action g action) ↔ IsRoute g action p
unfolding paths_to_action
paths_to_action_iff g action p = (
  (λ m.
      let (tool, performed, found) = from_tools_sound g action _ p m in
      let (agent, used, chain) = from_agents_sound g action tool _ p found in
      record { tool = tool; agent = agent; performed = performed; used = used; chain = chain }),
  (λ r.
      from_tools_complete g action r.tool _ p r.performed
        (from_agents_complete g action r.tool r.agent _ p r.used r.chain)),
)
