-- ===== src/Common/Sorting.antt =====
-- `Array.prototype.sort` with a comparator: a stable sort, and what stands first in it.
use mathlib.Core.Path.{◌≡◌, refl}
use mathlib.Core.Logic.{◌⊎◌, inl, inr}
use mathlib.Core.Bool.{Bool, true, false}
use mathlib.Core.Option.{Option, none, some}
use mathlib.Core.List.{List, [], ◌∷◌}
use native.Mathlib.Omega.{arith}
use ttp_protocol.Common.Tests.{if◌then◌else◌, Bool-cases, Option-cases}
use ttp_protocol.Common.Lists.{In, In-nil, here, there}

module _ {ℓ} {A : Type ℓ} where
  -- `xs[0]`
  abbrev pub first : List A → Option A
  first [] = none
  first (x ∷ xs) = some x

  -- `before a b` says that the comparator is negative at `(a, b)`.
  abbrev place : (A → A → Bool) → A → List A → List A
  place before x [] = x ∷ []
  place before x (y ∷ ys) = if before y x then y ∷ place before x ys else x ∷ y ∷ ys

  abbrev pub sort_by : (A → A → Bool) → List A → List A
  sort_by before [] = []
  sort_by before (x ∷ xs) = place before x (sort_by before xs)

module _ {ℓ} {A : Type ℓ} (before : A → A → Bool) where
  first-place_empty : (x : A) (ys : List A) → first ys ≡ none → first (place before x ys) ≡ some x
  first-place_empty x [] e = refl
  first-place_empty x (y ∷ ys) e = cc

  first-place :
      (x y : A) (ys : List A)
      → first ys ≡ some y
      → first (place before x ys) ≡ some (if before y x then y else x)
  first-place x y [] e = cc
  first-place x y (z ∷ zs) e = ground arith

  pub first-sort_by-none : (xs : List A) → first (sort_by before xs) ≡ none → xs ≡ []
  first-sort_by-none [] e = refl
  first-sort_by-none (z ∷ zs) e = elim (Option-cases (first (sort_by before zs))) [
    | inl none' ↦ cc (first-place_empty z (sort_by before zs) none')
    | inr (y, some') ↦ cc (first-place z y (sort_by before zs) some')
  ]

  -- What stands first: the head, or what stood first before it was placed.
  first-sort_by :
      (x : A) (xs : List A) {h : A}
      → first (sort_by before (x ∷ xs)) ≡ some h
      → ((xs ≡ []) × (h ≡ x))
        ⊎ ((y : A) × (first (sort_by before xs) ≡ some y)
            × (((before y x ≡ true) × (h ≡ y)) ⊎ ((before y x ≡ false) × (h ≡ x))))
  first-sort_by x xs e = elim (Option-cases (first (sort_by before xs))) [
    | inl none' ↦
        inl (
          first-sort_by-none xs none',
          ground (arith, first-place_empty x (sort_by before xs) none'),
        )
    | inr (y, some') ↦ inr (
      y,
      some',
      elim (Bool-cases (before y x)) [
        | inl yes' ↦ inl (yes', ground (arith, first-place x y (sort_by before xs) some'))
        | inr no' ↦ inr (no', ground (arith, first-place x y (sort_by before xs) some'))
      ],
    )
  ]

  pub In-first-sort_by : (xs : List A) {h : A} → first (sort_by before xs) ≡ some h → In h xs
  In-first-sort_by [] e = cc
  In-first-sort_by (x ∷ xs) {h} e = elim (first-sort_by x xs e) [
    | inl (_, same) ↦ here same
    | inr (y, some', inl (_, same)) ↦ there (In-first-sort_by xs (rw same some'))
    | inr (y, some', inr (_, same)) ↦ here same
  ]

  irrefl : ((a b : A) → before a b ≡ true → before b a ≡ false) → (a : A) → before a a ≡ false
  irrefl asym a = elim (Bool-cases (before a a)) [ inl yes' ↦ asym a a yes' | inr no' ↦ no' ]

  -- Nothing in a list stands before the first of the sorted list, for a comparator that orders the
  -- elements `W`.
  pub first-sort_by_least {κ} :
      (W : A → Type κ) (asym : (a b : A) → before a b ≡ true → before b a ≡ false)
      (cotrans : (a b c : A)
        → W a
        → W b
        → W c
        → before a b ≡ false
        → before b c ≡ false
        → before a c ≡ false)
      (xs : List A) {h : A}
      → ((x : A) → In x xs → W x)
      → first (sort_by before xs) ≡ some h
      → (z : A) → In z xs
      → before z h ≡ false
  first-sort_by_least W asym cotrans [] fine e z m = cc
  first-sort_by_least W asym cotrans (x ∷ xs) {h} fine e z (here same) =
      elim (first-sort_by x xs e) [
        | inl (_, head) ↦ rw (same, head) (irrefl asym x)
        | inr (y, _, inl (before_x, head)) ↦ rw (same, head) (asym y x before_x)
        | inr (y, _, inr (_, head)) ↦ rw (same, head) (irrefl asym x)
      ]
  first-sort_by_least W asym cotrans (x ∷ xs) {h} fine e z (there m) = elim (first-sort_by x xs e) [
    | inl (empty, _) ↦ In-nil (rw empty at m)
    | inr (y, some', inl (_, head)) ↦
        rw head (first-sort_by_least W asym cotrans xs (λ a n. fine a (there n)) some' z m)
    | inr (y, some', inr (no', head)) ↦ rw head (
        cotrans z y x (fine z (there m)) (fine y (there (In-first-sort_by xs some')))
          (fine x (here refl))
          (first-sort_by_least W asym cotrans xs (λ a n. fine a (there n)) some' z m) no')
  ]
