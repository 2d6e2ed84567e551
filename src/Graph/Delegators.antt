-- ===== src/Graph/Delegators.antt =====
-- The loop over the delegators of an agent in packages/pctr/src/graph.mjs: what it finds.
use ttp_protocol.Common.{
  ◌≡◌, refl, ◌≢◌, ◌⊎◌, inl, inr, String, false, List, [], ◌∷◌, arith, In, here, there, In-nil,
  In-append_left, In-append_right, In-append_cases, In-single, Bool-cases, eq_iff, eq_refl,
  if◌then◌else◌, ◌==◌, sym,
}
use ttp_protocol.Graph.{each_delegator, from_delegators}

-- What the loop over delegators finds.
unfoldable pub Found :
    (String → List (List String)) → String → List String → List String → List String → Type 0
Found go principal path ds p =
    (In principal ds × (p ≡ principal ∷ path))
    ⊎ ((d : String) × In d ds × (d ≢ principal) × In p (go d))

ne_false : (a b : String) → a ≢ b → (a == b) ≡ false
ne_false a b other = ground (arith, eq_iff a b)

module _ (go : String → List (List String)) (principal : String) (path : List String) where
  Found-there :
      (d : String) (ds p : List String)
      → Found go principal path ds p
      → Found go principal path (d ∷ ds) p
  unfolding Found
  Found-there d ds p (inl (m, e)) = inl (there m, e)
  Found-there d ds p (inr (x, m, n, r)) = inr (x, there m, n, r)

  one_delegator :
      (d : String) (p : List String)
      → In p (if d == principal then (principal ∷ path) ∷ [] else go d)
      → ((d ≡ principal) × (p ≡ principal ∷ path)) ⊎ ((d ≢ principal) × In p (go d))
  one_delegator d p m = elim (Bool-cases (d == principal)) [
    | inl same ↦ inl ((eq_iff d principal).0 same, In-single (rw same at m))
    | inr other ↦ inr ((λ e. absurd (ground (arith, eq_iff d principal))), rw other at m)
  ]

  pub each_delegator_sound :
      (ds p : List String)
      → In p (each_delegator go principal path ds)
      → Found go principal path ds p
  unfolding each_delegator Found
  each_delegator_sound [] p m = In-nil m
  each_delegator_sound (d ∷ ds) p m = elim (In-append_cases _ _ m) [
    | inr later ↦ Found-there d ds p (each_delegator_sound ds p later)
    | inl now ↦ elim (one_delegator d p now) [
      | inl (same, e) ↦ inl (here (sym same), e)
      | inr (other, r) ↦ inr (d, here refl, other, r)
    ]
  ]

  pub find_entry :
      (ds : List String)
      → In principal ds
      → In (principal ∷ path) (each_delegator go principal path ds)
  unfolding each_delegator
  find_entry [] m = In-nil m
  find_entry (d ∷ ds) (here e) =
      In-append_left {xs = if d == principal then (principal ∷ path) ∷ [] else go d} _
        (rw (sym e, eq_refl principal) (here refl))
  find_entry (d ∷ ds) (there m) = In-append_right _ (find_entry ds m)

  pub find_back :
      (d : String) (ds p : List String)
      → In d ds
      → d ≢ principal
      → In p (go d)
      → In p (each_delegator go principal path ds)
  unfolding each_delegator
  find_back d [] p m other r = In-nil m
  find_back d (x ∷ ds) p (here e) other r =
      In-append_left {xs = if x == principal then (principal ∷ path) ∷ [] else go x} _
        (rw (sym e, ne_false d principal other) r)
  find_back d (x ∷ ds) p (there m) other r = In-append_right _ (find_back d ds p m other r)

-- What is found at an agent that was not seen.
pub from_delegators_sound :
    (go : String → List (List String)) (principal : String) (path ds p : List String)
    → In p (from_delegators go principal path ds)
    → ((ds ≡ []) × (p ≡ principal ∷ path)) ⊎ Found go principal path ds p
from_delegators_sound go principal path [] p m = inl (refl, In-single m)
from_delegators_sound go principal path (d ∷ ds) p m =
    inr (each_delegator_sound go principal path (d ∷ ds) p m)

pub from_delegators_loop :
    (go : String → List (List String)) (principal : String) (path ds : List String) {d : String}
    → In d ds
    → from_delegators go principal path ds ≡ each_delegator go principal path ds
from_delegators_loop go principal path [] m = In-nil m
from_delegators_loop go principal path (x ∷ ds) m = refl
