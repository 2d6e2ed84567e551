-- ===== src/Common/Lists.antt =====
-- The methods of arrays that the sources call: `length`, `some`, `every`, `filter`, `find`,
-- `includes`, and what holds of all elements.
use Prim.Native.Nat.{ℕ, suc, ◌+◌}
use Prim.Native.String.{String}
use mathlib.Core.Path.{◌≡◌, refl, sym, ap, ◌∙◌}
use mathlib.Core.Logic.{◌⊎◌, inl, inr}
use mathlib.Core.Bool.{Bool, true, false, ◌&&◌, ◌||◌}
use mathlib.Core.Option.{Option, none, some}
use mathlib.Core.List.{List, [], ◌∷◌, ◌++◌, map}
use native.Mathlib.Omega.{arith}
use ttp_protocol.Common.Tests.{if◌then◌else◌, ◌==◌, Bool-cases}

module _ {ℓ} {A : Type ℓ} where
  abbrev pub length : List A → ℕ
  length [] = 0
  length (x ∷ xs) = suc (length xs)

  -- `xs.some(p)`
  abbrev pub any : (A → Bool) → List A → Bool
  any p [] = false
  any p (x ∷ xs) = p x || any p xs

  -- `xs.every(p)`
  abbrev pub all : (A → Bool) → List A → Bool
  all p [] = true
  all p (x ∷ xs) = p x && all p xs

  abbrev pub keep : (A → Bool) → List A → List A
  keep p [] = []
  keep p (x ∷ xs) = if p x then x ∷ keep p xs else keep p xs

  abbrev pub find : (A → Bool) → List A → Option A
  find p [] = none
  find p (x ∷ xs) = if p x then some x else find p xs

  -- `xs[xs.length - 1]`
  abbrev pub last : List A → Option A
  last [] = none
  last (x ∷ []) = some x
  last (x ∷ y ∷ ys) = last (y ∷ ys)

  pub List-cases : (xs : List A) → (xs ≡ []) ⊎ ((x : A) × (rest : List A) × (xs ≡ x ∷ rest))
  List-cases [] = inl refl
  List-cases (x ∷ xs) = inr (x, xs, refl)

  pub length-append : (xs ys : List A) → length (xs ++ ys) ≡ length xs + length ys
  length-append [] ys = omega arith
  length-append (x ∷ xs) ys = omega (arith, length-append xs ys)

  pub append-eq-nil : (xs ys : List A) → xs ++ ys ≡ [] → (xs ≡ []) × (ys ≡ [])
  append-eq-nil [] ys e = (refl, e)
  append-eq-nil (x ∷ xs) ys e = cc

-- `xs.includes(s)`
abbrev pub includes : List String → String → Bool
includes xs s = any (λ x. x == s) xs

module _ {ℓ κ} {A : Type ℓ} (P : A → Type κ) where
  abbrev pub All : List A → Type κ
  All [] = Unit
  All (x ∷ xs) = P x × All xs

  pub All-snoc : (xs : List A) {x : A} → All xs → P x → All (xs ++ x ∷ [])
  All-snoc [] h k = (k, tt)
  All-snoc (x ∷ xs) (a, h) k = (a, All-snoc xs h k)

-- The elements of a list, by position.
pub data In {ℓ} {A : Type ℓ} (a : A) : List A → Type ℓ where
  here : {x : A} {xs : List A} → a ≡ x → In a (x ∷ xs)
  there : {x : A} {xs : List A} → In a xs → In a (x ∷ xs)

pub In-nil {ℓ κ} : {A : Type ℓ} {a : A} {P : Type κ} → In a [] → P
In-nil m = elim m [ ]

pub In-append_left {ℓ} :
    {A : Type ℓ} {a : A} {xs : List A} (ys : List A) → In a xs → In a (xs ++ ys)
In-append_left ys (here e) = here e
In-append_left ys (there m) = there (In-append_left ys m)

pub In-append_right {ℓ} :
    {A : Type ℓ} {a : A} (xs : List A) {ys : List A} → In a ys → In a (xs ++ ys)
In-append_right [] m = m
In-append_right (x ∷ xs) m = there (In-append_right xs m)

pub In-append_cases {ℓ} :
    {A : Type ℓ} {a : A} (xs ys : List A) → In a (xs ++ ys) → In a xs ⊎ In a ys
In-append_cases [] ys m = inr m
In-append_cases (x ∷ xs) ys (here e) = inl (here e)
In-append_cases (x ∷ xs) ys (there m) = elim (In-append_cases xs ys m) [
  | inl l ↦ inl (there l)
  | inr r ↦ inr r
]

pub In-cons_cases {ℓ} : {A : Type ℓ} {a b : A} {xs : List A} → In a (b ∷ xs) → (a ≡ b) ⊎ In a xs
In-cons_cases (here e) = inl e
In-cons_cases (there m) = inr m

pub In-single {ℓ} : {A : Type ℓ} {a b : A} → In a (b ∷ []) → a ≡ b
In-single (here e) = e
In-single (there m) = In-nil m

module _ {ℓ} {A : Type ℓ} (p : A → Bool) where
  -- `find` gives an element exactly when `some` does not fail.
  pub any-find-none : (xs : List A) → find p xs ≡ none → any p xs ≡ false
  any-find-none [] e = refl
  any-find-none (x ∷ xs) e = ground (arith, any-find-none xs)

  pub any-find-some : (xs : List A) {a : A} → find p xs ≡ some a → (any p xs ≡ true) × (p a ≡ true)
  any-find-some [] e = cc
  any-find-some (x ∷ xs) {a} e = ground (arith, λ (h : find p xs ≡ some a). any-find-some xs h)

  pub In-find : (xs : List A) {a : A} → find p xs ≡ some a → In a xs
  In-find [] e = cc
  In-find (x ∷ xs) {a} e = elim (Bool-cases (p x)) [
    | inl yes' ↦ here (ground arith)
    | inr no' ↦ there (In-find xs (ground arith))
  ]

  pub find-any-false : (xs : List A) → any p xs ≡ false → find p xs ≡ none
  find-any-false [] e = refl
  find-any-false (x ∷ xs) e = ground (arith, find-any-false xs)

  pub In-keep : (xs : List A) {a : A} → In a (keep p xs) → In a xs × (p a ≡ true)
  In-keep [] m = In-nil m
  In-keep (x ∷ xs) {a} m = elim (Bool-cases (p x)) [
    | inl yes' ↦ elim (In-cons_cases (rw yes' at m)) [
      | inl e ↦ (here e, rw e yes')
      | inr later ↦ (there (In-keep xs later).0, (In-keep xs later).1)
    ]
    | inr no' ↦ (there (In-keep xs (rw no' at m)).0, (In-keep xs (rw no' at m)).1)
  ]

  pub In-keep_intro : (xs : List A) {a : A} → In a xs → p a ≡ true → In a (keep p xs)
  In-keep_intro [] m yes' = In-nil m
  In-keep_intro (x ∷ xs) {a} (here e) yes' = rw (ap p (sym e) ∙ yes') (here e)
  In-keep_intro (x ∷ xs) {a} (there m) yes' = elim (Bool-cases (p x)) [
    | inl kept ↦ rw kept (there (In-keep_intro xs m yes'))
    | inr left ↦ rw left (In-keep_intro xs m yes')
  ]

  pub any-false_intro : (xs : List A) → ((a : A) → In a xs → p a ≡ false) → any p xs ≡ false
  any-false_intro [] h = refl
  any-false_intro (x ∷ xs) h =
      ground (arith, h x (here refl), any-false_intro xs (λ a m. h a (there m)))

  pub any-false-In : (xs : List A) {a : A} → any p xs ≡ false → In a xs → p a ≡ false
  any-false-In [] e m = In-nil m
  any-false-In (x ∷ xs) {a} e (here same) = rw same (ground arith)
  any-false-In (x ∷ xs) {a} e (there m) = any-false-In xs (ground arith) m

pub In-map {ℓ κ} :
    {A : Type ℓ} {B : Type κ} (f : A → B) (xs : List A) {a : A} → In a xs → In (f a) (map f xs)
In-map f [] m = In-nil m
In-map f (x ∷ xs) (here e) = here (ap f e)
In-map f (x ∷ xs) (there m) = there (In-map f xs m)

pub In-map_source {ℓ κ} :
    {A : Type ℓ} {B : Type κ} (f : A → B) (xs : List A) {b : B}
    → In b (map f xs)
    → (a : A) × In a xs × (b ≡ f a)
In-map_source f [] m = In-nil m
In-map_source f (x ∷ xs) (here e) = (x, here refl, e)
In-map_source f (x ∷ xs) (there m) = let (a, n, e) = In-map_source f xs m in (a, there n, e)
