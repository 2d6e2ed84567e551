-- ===== src/Common/Failures.antt =====
-- The sources collect failures in an array that they push to under a test; a request is accepted
-- when the array stays empty.
use mathlib.Core.Path.{◌≡◌, refl, ap, ◌∙◌}
use mathlib.Core.Logic.{◌↔◌, ◌⊎◌, inl, inr}
use mathlib.Core.Bool.{Bool, true, false, not, ◌&&◌}
use native.Mathlib.Omega.{arith}
use mathlib.Core.List.{List, [], ◌∷◌, ◌++◌}
use ttp_protocol.Common.Tests.{if◌then◌else◌}
use ttp_protocol.Common.Lists.{In, here, there, In-nil, In-cons_cases, append-eq-nil}

module _ {ℓ} {A : Type ℓ} where
  -- `if (test) failures.push(f)`
  abbrev pub fail_if : Bool → A → List A
  fail_if test f = if test then f ∷ [] else []

  -- A loop that pushes for each element in turn.
  abbrev pub fail_each {κ} : {B : Type κ} → (B → List A) → List B → List A
  fail_each f [] = []
  fail_each f (x ∷ xs) = f x ++ fail_each f xs

  abbrev pub is_empty : List A → Bool
  is_empty [] = true
  is_empty (_ ∷ _) = false

  pub is_empty-eq-nil : (xs : List A) → is_empty xs ≡ true → xs ≡ []
  is_empty-eq-nil [] e = refl
  is_empty-eq-nil (x ∷ xs) e = cc

  pub is_empty-false_of_In : {xs : List A} {a : A} → In a xs → is_empty xs ≡ false
  is_empty-false_of_In (here e) = refl
  is_empty-false_of_In (there m) = refl

  pub fail_if-nil_iff : (test : Bool) (f : A) → (fail_if test f ≡ []) ↔ (test ≡ false)
  fail_if-nil_iff true f = ((λ e. cc), (λ e. cc))
  fail_if-nil_iff false f = ((λ e. refl), (λ e. refl))

  -- `if (!test) failures.push(f)`
  pub fail_unless-nil_iff : (test : Bool) (f : A) → (fail_if (not test) f ≡ []) ↔ (test ≡ true)
  fail_unless-nil_iff true f = ((λ e. refl), (λ e. refl))
  fail_unless-nil_iff false f = ((λ e. cc), (λ e. cc))

  -- `if (required && !given) failures.push(f)`
  pub fail_missing-nil_iff :
      (required given : Bool) (f : A)
      → (fail_if (required && not given) f ≡ []) ↔ ((required ≡ false) ⊎ (given ≡ true))
  fail_missing-nil_iff true true f = ((λ e. inr refl), (λ e. refl))
  fail_missing-nil_iff false given f = ((λ e. inl refl), (λ e. refl))
  fail_missing-nil_iff true false f = ((λ e. cc), (λ e. absurd (ground arith)))

  pub fail_each-nil_iff {κ} :
      {B : Type κ} (f : B → List A) (xs : List B)
      → (fail_each f xs ≡ []) ↔ ((x : B) → In x xs → f x ≡ [])
  fail_each-nil_iff f [] = ((λ _ x m. In-nil m), (λ _. refl))
  fail_each-nil_iff f (x ∷ xs) = (
    (λ e y m. elim (In-cons_cases m) [
      | inl same ↦ ap f same ∙ (append-eq-nil (f x) (fail_each f xs) e).0
      | inr later ↦ (fail_each-nil_iff f xs).0 (append-eq-nil (f x) (fail_each f xs) e).1 y later
    ]),
    (λ h. rw (h x (here refl)) ((fail_each-nil_iff f xs).1 (λ y m. h y (there m)))),
  )

  pub append-nil_iff : (xs ys : List A) → (xs ++ ys ≡ []) ↔ ((xs ≡ []) × (ys ≡ []))
  append-nil_iff xs ys = (append-eq-nil xs ys, (λ (e, k). rw (e, k) refl))
