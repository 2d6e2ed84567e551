-- ===== src/Service/Entitled.antt =====
-- What a grant shows that `verifiedGrant` of services/authority/index.ts finds.
use ttp_protocol.Common.{
  ◌≡◌, inl, inr, String, false, some, Numbers, arith, subst, refl, eq_iff, Bool-cases, Option-cases,
}
use ttp_protocol.Json.{str, Platform}
use ttp_protocol.Service.{AuthorizeRequest, TrustedGrant, Host}
use ttp_protocol.Service.Grants.{
  named_grant, other_branch, other_action, is_over, not_begun, bad_score, grant_refused,
  verified_grant,
}
use ttp_protocol.Service.Decide.{World}

module _ {Num : Type 0} ⦃number : Numbers Num⦄ (p : Platform Num) (h : Host Num) where
  -- What the grant of a permitted request shows.
  pub record IsEntitled (w : World Num) (r : AuthorizeRequest Num) (grant : TrustedGrant Num)
      : Type 0 where
    pub ref : String
    pub named : named_grant p h w.grants r.authority_grant_ref ≡ some (ref, grant)
    pub unrevoked : grant.revoked ≡ false
    pub subject : grant.subject ≡ r.subject
    pub repo : grant.repo ≡ r.repo
    pub branch : other_branch grant.branch r.branch ≡ false
    pub action : other_action p h grant r ≡ false
    pub unexpired : is_over (p.parse_date (some (str grant.expires_at))) w.now ≡ false
    pub begun : not_begun (p.parse_date (some (str grant.verified_at))) w.now ≡ false
    pub score : bad_score p h grant.trust_score ≡ false

  grant_refused-false :
      (w : World Num) (r : AuthorizeRequest Num) (ref : String) (grant : TrustedGrant Num)
      → named_grant p h w.grants r.authority_grant_ref ≡ some (ref, grant)
      → grant_refused p h grant r w.now ≡ false
      → IsEntitled w r grant
  unfolding grant_refused
  grant_refused-false w r ref grant named k = record {
    ref = ref;
    named = named;
    unrevoked = ground arith;
    subject = (eq_iff _ _).0 (ground arith);
    repo = (eq_iff _ _).0 (ground arith);
    branch = ground arith;
    action = ground arith;
    unexpired = ground arith;
    begun = ground arith;
    score = ground arith;
  }

  IsEntitled-grant_refused :
      (w : World Num) (r : AuthorizeRequest Num) (grant : TrustedGrant Num)
      → IsEntitled w r grant
      → grant_refused p h grant r w.now ≡ false
  unfolding grant_refused
  IsEntitled-grant_refused w r grant k =
      let s = (eq_iff grant.subject r.subject).1 k.subject in
      let t = (eq_iff grant.repo r.repo).1 k.repo in
      ground (arith, s, t, k.unrevoked, k.branch, k.action, k.unexpired, k.begun, k.score)

  pub verified_grant-some :
      (w : World Num) (r : AuthorizeRequest Num) {grant : TrustedGrant Num}
      → verified_grant p h w.grants w.now r ≡ some grant
      → IsEntitled w r grant
  unfolding verified_grant
  verified_grant-some w r {grant} e =
      elim (Option-cases (named_grant p h w.grants r.authority_grant_ref)) [
        | inl none' ↦ absurd (ground (arith, none'))
        | inr ((ref, own), named) ↦ elim (Bool-cases (grant_refused p h own r w.now)) [
          | inl refused ↦ absurd (ground (arith, named, refused))
          | inr fine ↦
              let same : own ≡ grant = ground (arith, named, fine) in
              subst (IsEntitled w r) same (grant_refused-false w r ref own named fine)
        ]
      ]

  pub IsEntitled-verified_grant :
      (w : World Num) (r : AuthorizeRequest Num) {grant : TrustedGrant Num}
      → IsEntitled w r grant
      → verified_grant p h w.grants w.now r ≡ some grant
  unfolding verified_grant
  IsEntitled-verified_grant w r {grant} k =
      rw (k.named, IsEntitled-grant_refused w r grant k, verified_grant) refl
