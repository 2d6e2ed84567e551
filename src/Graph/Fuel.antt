-- ===== src/Graph/Fuel.antt =====
-- Why the fuel of `walk_back` is enough: each step adds an agent at which some edge starts.
use ttp_protocol.Common.{
  ◌≡◌, ◌⊎◌, inl, inr, ◌≤◌, ◌<◌, ℕ, ◌+◌, String, false, ◌&&◌, List, [], ◌∷◌, arith, In, In-nil,
  In-cons_cases, includes, length, Bool-cases, eq_refl, if◌then◌else◌, ◌==◌, sym,
}
use ttp_protocol.Graph.{Edge, Kind, same_kind, sources}

-- How many edges start at an agent that was not seen: it bounds the rest of a path.
unfoldable pub unseen : List String → List Edge → ℕ
unseen seen [] = 0
unseen seen (e ∷ es) = (if includes seen e.from then 0 else 1) + unseen seen es

pub unseen-length : (seen : List String) (es : List Edge) → unseen seen es ≤ length es
unfolding unseen
unseen-length seen [] = omega arith
unseen-length seen (e ∷ es) = ground (arith, unseen-length seen es)

unseen_le :
    (d : String) (seen : List String) (es : List Edge) → unseen (d ∷ seen) es ≤ unseen seen es
unfolding unseen
unseen_le d seen [] = omega arith
unseen_le d seen (e ∷ es) = ground (arith, unseen_le d seen es)

sources-cases :
    (d id : String) (kind : Kind) (e : Edge) (es : List Edge)
    → In d (sources id kind (e ∷ es))
    → (d ≡ e.from) ⊎ In d (sources id kind es)
sources-cases d id kind e es m = elim (Bool-cases (e.to == id && same_kind e.kind kind)) [
  | inl taken ↦ In-cons_cases (rw taken at m)
  | inr left ↦ inr (rw left at m)
]

pub unseen_lt :
    (d id : String) (kind : Kind) (seen : List String) (es : List Edge)
    → includes seen d ≡ false
    → In d (sources id kind es)
    → unseen (d ∷ seen) es < unseen seen es
unfolding unseen
unseen_lt d id kind seen [] fresh m = In-nil m
unseen_lt d id kind seen (e ∷ es) fresh m = elim (sources-cases d id kind e es m) [
  | inl same ↦ rw (sym same, fresh, eq_refl d) (omega (arith, unseen_le d seen es))
  | inr later ↦ ground (arith, unseen_lt d id kind seen es fresh later)
]
