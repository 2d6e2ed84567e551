-- ===== src/Service/Protected.antt =====
-- What services/authority does with paths that its policy protects.
use Prim.Native.Nat.{◌-◌}
use Prim.Native.String.{◌++◌, len, slice}
use text.Mathlib.TextPositions.{len-append, slice-append_left, starts_with-append}
use ttp_protocol.Common.{
  ◌≡◌, ◌≢◌, ap, ◌∙◌, String, Bool, true, Numbers, arith, List, In, In-nil, In-cons_cases, any, inl,
  inr,
}
use ttp_protocol.Json.{Platform}
use ttp_protocol.Service.{AuthorizeRequest, permit, Host}
use ttp_protocol.Service.Lines.{ends_with-append}
use ttp_protocol.Service.Policy.{matches, is_protected_path, touches_protected, risk_class}
use ttp_protocol.Service.Grants.{is_critical}
use ttp_protocol.Service.Decide.{World, decide}
use ttp_protocol.Service.Permits.{decide-permit_iff}

any-true :
    {A : Type 0} (q : A → Bool) (xs : List A) {x : A} → In x xs → q x ≡ true → any q xs ≡ true
any-true q List.[] m e = In-nil m
any-true q (List.◌∷◌ y ys) m e = elim (In-cons_cases m) [
  | inl same ↦ ground (arith, ap q same)
  | inr later ↦ ground (arith, any-true q ys later e)
]

matches-under : (dir rest : String) → matches (dir ++ ("/" ++ rest)) (dir ++ "/**") ≡ true
matches-under dir rest =
    let size : len (dir ++ "/**") - 3 ≡ len dir = omega (arith, len-append dir "/**") in
    let stem = ap (slice (dir ++ "/**") 0) size ∙ slice-append_left dir "/**" in
    rw (ends_with-append dir "/**", stem) (starts_with-append dir ("/" ++ rest))

risk_class-critical :
    {Num : Type 0} (r : AuthorizeRequest Num) (patterns : List String)
    → touches_protected r patterns ≡ true
    → is_critical (risk_class r patterns) ≡ true
unfolding risk_class
risk_class-critical r patterns e = ground arith

-- A request that touches a path under a directory that the policy protects is not permitted, unless it
-- reauthorizes a receipt.
pub protected_needs_approval :
    {Num : Type 0} ⦃number : Numbers Num⦄ (p : Platform Num) (h : Host Num) (w : World Num)
    (r : AuthorizeRequest Num) (names : List String) (dir rest : String)
    → In (dir ++ "/**") w.patterns
    → In (dir ++ ("/" ++ rest)) r.paths_touched
    → r.action ≢ "merge request reauthorize"
    → (decide p h w r names).0.decision ≢ permit
unfolding is_protected_path touches_protected
protected_needs_approval p h w r names dir rest listed touched other permitted =
    let touches =
      any-true (λ path. is_protected_path path w.patterns) r.paths_touched touched
        (any-true (matches (dir ++ ("/" ++ rest))) w.patterns listed (matches-under dir rest)) in
    elim ((decide-permit_iff p h w r names).0 permitted).1.1 [
      | inl (_, routine) ↦
          absurd (ground (arith, routine.not_critical, risk_class-critical r w.patterns touches))
      | inr (action, _) ↦ other action
    ]
