-- ===== src/Authority/Parameters.antt =====
-- What it means that no parameter failure is reported by packages/pctr/src/authority.mjs.
use ttp_protocol.Common.{
  ◌≡◌, refl, ◌↔◌, ◌⊎◌, String, true, false, not, ◌&&◌, Option, some, List, [], ◌∷◌, arith, Numbers,
  fail_if, is_some, append-eq-nil, fail_unless-nil_iff, fail_missing-nil_iff, fail_each, All,
  opt_eq_iff,
}
use ttp_protocol.Json.{Json, Fields, end, field, Platform}
use ttp_protocol.Json.Values.{get, get?, keys, fields_of, truthy}
use ttp_protocol.Authority.{
  Execution, unbound_parameter, invalid_constraints, approval_missing, unbound_failures,
  mismatch_failures, limit_failures, parameter_failures, excludes, exclusions_of, well_formed,
  text_of, deep_equal,
}

-- What holds of every field.
abbrev pub AllFields {ℓ} : {Num : Type 0} → (String → Json Num → Type ℓ) → Fields Num → Type ℓ
AllFields P end = Unit
AllFields P (field k v fs) = P k v × AllFields P fs

module _ {Num : Type 0} ⦃number : Numbers Num⦄ (p : Platform Num) where
  -- The parameter is a material one, or the signed constraints exclude it.
  abbrev pub IsBound : Fields Num → Option (List (Json Num)) → String → Type 0
  IsBound material excluded key =
      (is_some (get material key) ≡ true) ⊎ (excludes excluded key ≡ true)

  unbound_of_keys-nil_iff :
      (material : Fields Num) (excluded : Option (List (Json Num))) (ks : List String)
      → (fail_each
            (λ key.
              fail_if
                (not (is_some (get material key)) && not (excludes excluded key))
                (unbound_parameter key))
            ks
          ≡ [])
        ↔ All (IsBound material excluded) ks
  unbound_of_keys-nil_iff material excluded [] = ((λ h. tt), (λ h. refl))
  unbound_of_keys-nil_iff material excluded (k ∷ ks) =
      ground (arith, unbound_of_keys-nil_iff material excluded ks)

  unbound_failures-nil_iff :
      (material : Fields Num) (excluded : Option (List (Json Num))) (params : Fields Num)
      → (unbound_failures p material excluded params ≡ [])
        ↔ All (IsBound material excluded) (keys params)
  unfolding unbound_failures
  unbound_failures-nil_iff material excluded params =
      unbound_of_keys-nil_iff material excluded (keys params)

  mismatch_failures-nil_iff :
      (params material : Fields Num)
      → (mismatch_failures p params material ≡ [])
        ↔ AllFields (λ k v. text_of p (get params k) ≡ some (p.stringify v)) material
  unfolding mismatch_failures deep_equal
  mismatch_failures-nil_iff params end = ((λ h. tt), (λ h. refl))
  mismatch_failures-nil_iff params (field k v fs) = ground (
    arith,
    opt_eq_iff (text_of p (get params k)) (some (p.stringify v)),
    mismatch_failures-nil_iff params fs,
  )

  limit_failures-nil_iff :
      (params limits : Fields Num)
      → (limit_failures p params limits ≡ [])
        ↔ AllFields
            (λ k limit. number.lt (p.to_number (some limit)) (p.to_number (get params k)) ≡ false)
            limits
  unfolding limit_failures
  limit_failures-nil_iff params end = ((λ h. tt), (λ h. refl))
  limit_failures-nil_iff params (field k v fs) = ground (arith, limit_failures-nil_iff params fs)

  abbrev pub material_of : Fields Num → Fields Num
  material_of envelope = fields_of (get envelope "materialParams")

  abbrev pub exclusions : Fields Num → Option (List (Json Num))
  exclusions envelope = exclusions_of (get? (get envelope "constraints") "nonMaterialParams")

  -- Every parameter is authorized, and every authorized parameter runs with its authorized text.
  pub record AreAuthorized (e : Execution Num) (envelope : Fields Num) : Type 0 where
    pub exclusions_well_formed : well_formed (exclusions envelope) ≡ true
    pub bound : All (IsBound (material_of envelope) (exclusions envelope)) (keys e.params)
    pub same :
        AllFields (λ k v. text_of p (get e.params k) ≡ some (p.stringify v)) (material_of envelope)
    pub within_limits :
        AllFields
          (λ k limit. number.lt (p.to_number (some limit)) (p.to_number (get e.params k)) ≡ false)
          (fields_of (get? (get envelope "constraints") "max"))
    pub approved :
        (truthy (get? (get envelope "constraints") "requiresApproval") ≡ false)
        ⊎ (truthy e.approval ≡ true)

  pub parameter_failures-nil_iff :
      (e : Execution Num) (envelope : Fields Num)
      → (parameter_failures p e envelope ≡ []) ↔ AreAuthorized e envelope
  unfolding parameter_failures
  parameter_failures-nil_iff e envelope = (
    λ h.
        let (formed, h₁) = append-eq-nil _ _ h in
        let (bound, h₂) = append-eq-nil _ _ h₁ in
        let (same, h₃) = append-eq-nil _ _ h₂ in
        let (limits, approval) = append-eq-nil _ _ h₃ in
        record {
          exclusions_well_formed = (fail_unless-nil_iff _ invalid_constraints).0 formed;
          bound =
              (unbound_failures-nil_iff (material_of envelope) (exclusions envelope) e.params).0
                bound;
          same = (mismatch_failures-nil_iff e.params (material_of envelope)).0 same;
          within_limits = (limit_failures-nil_iff e.params _).0 limits;
          approved = (fail_missing-nil_iff _ _ approval_missing).0 approval;
        },
    λ a.
        rw
          (
            (fail_unless-nil_iff _ invalid_constraints).1 a.exclusions_well_formed,
            (unbound_failures-nil_iff (material_of envelope) (exclusions envelope) e.params).1
                a.bound,
            (mismatch_failures-nil_iff e.params (material_of envelope)).1 a.same,
            (limit_failures-nil_iff e.params _).1 a.within_limits,
          )
          ((fail_missing-nil_iff _ _ approval_missing).1 a.approved),
  )
