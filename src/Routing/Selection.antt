-- ===== src/Routing/Selection.antt =====
-- Which candidate the strategies of packages/trust-routing-engine/src/resolve.js choose.
use ttp_protocol.Common.{
  ◌≡◌, ◌≢◌, eq_iff, ◌⊎◌, inl, inr, String, true, false, Option, none, some, List, arith, In,
  Numbers, IsOrdered, Option-cases, find, In-find, first, sort_by, In-first-sort_by,
  first-sort_by_least,
}
use ttp_protocol.Routing.{Evaluated}
use ttp_protocol.Routing.Resolve.{
  chosen, stronger, fresher, is_supervisor, choose_first, strongest, choose,
}

module _ {Num : Type 0} ⦃number : Numbers Num⦄ where
  choose_first-some :
      (o : Option (Evaluated Num)) {e : Evaluated Num} → choose_first o ≡ chosen e → o ≡ some e
  choose_first-some none h = cc
  choose_first-some (some x) h = cc

  In-strongest :
      (valid : List (Evaluated Num)) {e : Evaluated Num} → strongest valid ≡ chosen e → In e valid
  unfolding strongest
  In-strongest valid h = In-first-sort_by stronger valid (choose_first-some _ h)

  -- The choice is by strength, by freshness, or of a supervisor.
  choose-cases :
      (strategy : String) (evaluated valid : List (Evaluated Num)) {e : Evaluated Num}
      → choose strategy evaluated valid ≡ chosen e
      → (strongest valid ≡ chosen e)
        ⊎ ((choose_first (first (sort_by fresher valid)) ≡ chosen e)
            × (strategy ≡ "freshest_path_wins"))
        ⊎ ((find is_supervisor valid ≡ some e) × (strategy ≡ "supervisor_override"))
  unfolding choose
  choose-cases strategy evaluated valid h = elim (Option-cases (find is_supervisor valid)) [
    | inl none' ↦
        ground (arith, eq_iff strategy "freshest_path_wins", eq_iff strategy "supervisor_override")
    | inr (s, some') ↦
        ground (arith, eq_iff strategy "freshest_path_wins", eq_iff strategy "supervisor_override")
  ]

  -- Every strategy chooses among the valid candidates.
  pub In-choose :
      (strategy : String) (evaluated valid : List (Evaluated Num)) {e : Evaluated Num}
      → choose strategy evaluated valid ≡ chosen e
      → In e valid
  In-choose strategy evaluated valid h = elim (choose-cases strategy evaluated valid h) [
    | inl strong ↦ In-strongest valid strong
    | inr (inl (fresh, _)) ↦ In-first-sort_by fresher valid (choose_first-some _ fresh)
    | inr (inr (found, _)) ↦ In-find is_supervisor valid found
  ]

  -- Two strategies may choose another than the strongest valid candidate.
  pub choose-strongest :
      IsOrdered number
      → (strategy : String) (evaluated valid : List (Evaluated Num)) {e : Evaluated Num}
      → ((v : Evaluated Num) → In v valid → number.le v.evaluated_score v.evaluated_score ≡ true)
      → strategy ≢ "freshest_path_wins"
      → strategy ≢ "supervisor_override"
      → choose strategy evaluated valid ≡ chosen e
      → (v : Evaluated Num) → In v valid
      → number.lt e.evaluated_score v.evaluated_score ≡ false
  unfolding strongest
  choose-strongest ordered strategy evaluated valid fine notfresh notsuper h v m =
      elim (choose-cases strategy evaluated valid h) [
        | inl strong ↦
            first-sort_by_least stronger (λ x. number.le x.evaluated_score x.evaluated_score ≡ true)
              (λ a b before'. ordered.asym _ _ before')
              (λ a b c _ fine' _ one two. ordered.cotrans _ _ _ fine' two one) valid fine
              (choose_first-some _ strong) v m
        | inr (inl (_, fresh)) ↦ absurd (notfresh fresh)
        | inr (inr (_, super')) ↦ absurd (notsuper super')
      ]
