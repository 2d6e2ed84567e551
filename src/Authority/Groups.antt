-- ===== src/Authority/Groups.antt =====
-- What it means that each group of failures in packages/pctr/src/authority.mjs is empty.
use ttp_protocol.Common.{
  ◌≡◌, refl, eq_iff, ◌↔◌, ◌⊎◌, ◌≤◌, ◌<◌, ℕ, String, false, Option, none, some, [], arith, Numbers,
}
use ttp_protocol.Json.{Json, str, Fields}
use ttp_protocol.Json.Values.{get, strict_eq-str_iff}
use ttp_protocol.Authority.{
  Execution, wrong_principal, window_failures, time_failures, request_failures,
}

pub window_failures-nil_iff :
    (issued expires now : ℕ)
    → (window_failures issued expires now ≡ []) ↔ ((issued ≤ now) × (now < expires))
unfolding window_failures
window_failures-nil_iff issued expires now = ground arith

-- The three times are known, and now lies in the window.
pub record IsTimely (issued expires now : Option ℕ) : Type 0 where
  pub issued_at : ℕ
  pub expires_at : ℕ
  pub at : ℕ
  pub issued_known : issued ≡ some issued_at
  pub expires_known : expires ≡ some expires_at
  pub now_known : now ≡ some at
  pub begun : issued_at ≤ at
  pub unexpired : at < expires_at

pub time_failures-IsTimely :
    (issued expires now : Option ℕ)
    → time_failures issued expires now ≡ []
    → IsTimely issued expires now
unfolding time_failures
time_failures-IsTimely (some i) (some x) (some n) e =
    let w = (window_failures-nil_iff i x n).0 e in
    record {
      issued_at = i;
      expires_at = x;
      at = n;
      issued_known = refl;
      expires_known = refl;
      now_known = refl;
      begun = w.0;
      unexpired = w.1;
    }
time_failures-IsTimely none x n e = cc
time_failures-IsTimely (some i) none n e = cc
time_failures-IsTimely (some i) (some x) none e = cc

pub IsTimely-time_failures :
    (issued expires now : Option ℕ)
    → IsTimely issued expires now
    → time_failures issued expires now ≡ []
unfolding time_failures
IsTimely-time_failures issued expires now t =
    rw (t.issued_known, t.expires_known, t.now_known)
      ((window_failures-nil_iff t.issued_at t.expires_at t.at).1 (t.begun, t.unexpired))

module _ {Num : Type 0} ⦃number : Numbers Num⦄ where
  -- The execution names no principal, or the authorized one.
  abbrev pub PrincipalFits : Option String → Option (Json Num) → Type 0
  PrincipalFits none bound = Unit
  PrincipalFits (some who) bound = (who ≡ "") ⊎ (bound ≡ some (str who))

  pub record IsRequested (e : Execution Num) (envelope : Fields Num) : Type 0 where
    pub action : get envelope "action" ≡ some (str e.action)
    pub target : get envelope "target" ≡ some (str e.target)
    pub principal : PrincipalFits e.principal (get envelope "principal")

  wrong_principal-PrincipalFits :
      (who : Option String) (bound : Option (Json Num))
      → (wrong_principal who bound ≡ false) ↔ PrincipalFits who bound
  wrong_principal-PrincipalFits none bound = ((λ h. tt), (λ h. refl))
  wrong_principal-PrincipalFits (some who) bound = (
    (λ h. ground (arith, eq_iff who "", strict_eq-str_iff who bound)),
    (λ h. ground (arith, eq_iff who "", strict_eq-str_iff who bound)),
  )

  pub request_failures-nil_iff :
      (e : Execution Num) (envelope : Fields Num)
      → (request_failures e envelope ≡ []) ↔ IsRequested e envelope
  unfolding request_failures
  request_failures-nil_iff e envelope = (
    λ h. record {
      action = ground (arith, strict_eq-str_iff e.action (get envelope "action"));
      target = ground (arith, strict_eq-str_iff e.target (get envelope "target"));
      principal =
          (wrong_principal-PrincipalFits e.principal (get envelope "principal")).0 (ground arith);
    },
    λ r. ground (
      arith,
      (strict_eq-str_iff e.action (get envelope "action")).1 r.action,
      (strict_eq-str_iff e.target (get envelope "target")).1 r.target,
      (wrong_principal-PrincipalFits e.principal (get envelope "principal")).1 r.principal,
    ),
  )
