-- ===== src/Service/Grants.antt =====
-- The grant that a request refers to, and the context of a decision, in services/authority/index.ts.
use ttp_protocol.Common.{
  String, Bool, true, false, not, ◌&&◌, ◌||◌, ℕ, ◌-◌, leb, Option, none, some, List, [], ◌∷◌,
  if◌then◌else◌, ◌==◌, find, is_some, Numbers,
}
use ttp_protocol.Json.{Json, num, Platform}
use ttp_protocol.Json.Values.{truthy, or_json}
use ttp_protocol.Service.{
  AuthorizeRequest, TrustedGrant, RiskClass, low, medium, high, critical, DecisionContext,
  CostState, Host,
}
use ttp_protocol.Service.Policy.{touches_protected, risk_class}

abbrev pub is_critical : RiskClass → Bool
is_critical critical = true
is_critical _ = false

abbrev pub oversight_of : RiskClass → String
oversight_of critical = "dual"
oversight_of high = "single"
oversight_of _ = "none"

abbrev pub cost_of : RiskClass → CostState
cost_of class = record {
  execution_cost = if is_critical class then 15 else 3;
  review_cost = if is_critical class then 25 else 5;
  evidence_cost = 2;
  avoided_loss = if is_critical class then 50_000 else 5_000;
  overhead_class = if is_critical class then "heavy" else "standard";
}

-- `grant.branch && grant.branch !== req.branch`
abbrev pub other_branch : Option String → String → Bool
other_branch none branch = false
other_branch (some own) branch = not (own == "") && not (own == branch)

-- Not a finite time, or one that is not after now.
abbrev pub is_over : Option ℕ → ℕ → Bool
is_over none now = true
is_over (some t) now = leb t now

-- Not a finite time, or one that is after now.
abbrev pub not_begun : Option ℕ → ℕ → Bool
not_begun none now = true
not_begun (some t) now = not (leb t now)

-- `Date.now() - Date.parse(verifiedAt)`; a grant that is verified in the future is no grant.
abbrev pub age_of : Option ℕ → ℕ → ℕ
age_of none now = 0
age_of (some t) now = now - t

module _ {Num : Type 0} ⦃number : Numbers Num⦄ (p : Platform Num) (h : Host Num) where
  abbrev pub blast_radius_of : RiskClass → Num
  blast_radius_of critical = number.decimal 95 2
  blast_radius_of high = number.decimal 7 1
  blast_radius_of medium = number.decimal 4 1
  blast_radius_of low = number.decimal 1 1

  -- `!Number.isFinite(score) || score < 0 || score > 1`; an infinite score fails one of the bounds.
  abbrev pub bad_score : Num → Bool
  bad_score score =
      not (number.le score score)
      || number.lt score (number.decimal 0 0)
      || number.lt (number.decimal 1 0) score

  abbrev pub is_named : String → String × TrustedGrant Num → Bool
  is_named ref entry = entry.0 == ref

  -- `grant.action !== req.action && !(...)`
  abbrev pub other_action : TrustedGrant Num → AuthorizeRequest Num → Bool
  other_action grant r =
      not (grant.action == r.action)
      && not (r.action == "merge request reauthorize" && grant.action == "pull_request.execute")

  -- The tests on a grant that was found.
  unfoldable pub grant_refused : TrustedGrant Num → AuthorizeRequest Num → ℕ → Bool
  grant_refused grant r now =
      grant.revoked
      || not (grant.subject == r.subject)
      || not (grant.repo == r.repo)
      || other_branch grant.branch r.branch
      || other_action grant r
      || is_over (p.parse_date (some (Json.str grant.expires_at))) now
      || not_begun (p.parse_date (some (Json.str grant.verified_at))) now
      || bad_score grant.trust_score

  abbrev pub named_grant :
      List (String × TrustedGrant Num) → Option (Json Num) → Option (String × TrustedGrant Num)
  named_grant grants none = none
  named_grant grants (some ref) =
      if truthy (some ref) then find (is_named (h.text ref)) grants else none

  unfoldable pub verified_grant :
      List (String × TrustedGrant Num) → ℕ → AuthorizeRequest Num → Option (TrustedGrant Num)
  verified_grant grants now r = elim (named_grant grants r.authority_grant_ref) [
    | none ↦ none
    | some (_, grant) ↦ if grant_refused grant r now then none else some grant
  ]

  -- `grant?.trustScore ?? 0`
  abbrev pub score_of : Option (TrustedGrant Num) → Num
  score_of none = number.decimal 0 0
  score_of (some grant) = grant.trust_score

  -- The freshness, in milliseconds.
  abbrev pub freshness_of : ℕ → Option (TrustedGrant Num) → ℕ
  freshness_of now none = 9_999_000
  freshness_of now (some grant) = age_of (p.parse_date (some (Json.str grant.verified_at))) now

  unfoldable pub context_of :
      List String → ℕ → AuthorizeRequest Num → Option (TrustedGrant Num) → DecisionContext Num
  context_of patterns now r grant =
      let class = risk_class r patterns in
      let protected = touches_protected r patterns in
      record {
        authority = record {
          subject_valid = not (r.subject == "");
          grant_valid = is_some grant;
          action_aligned = not (r.action == "") && not (r.resource == "");
          path_constraints_ok = true;
          branch_constraints_ok = not (r.branch == "");
          environment_constraints_ok = true;
          protected_action = protected;
        };
        trust = record {
          trust_score = score_of grant;
          attestation_valid = leb (freshness_of now grant) 900_000;
          freshness_ms = freshness_of now grant;
          anomaly_score = or_json r.anomaly_score (num (number.decimal 0 0));
        };
        risk = record {
          class = class;
          blast_radius = blast_radius_of class;
          reversible = not (is_critical class);
          delegation_depth = 0;
          protected_path_sensitive = protected;
        };
        compliance = record {
          frameworks = "SOC2" ∷ "internal-change-control" ∷ [];
          controls = "CC-7.2" ∷ "CC-8.1" ∷ [];
          retention_tier = if is_critical class then "long_term" else "elevated";
          evidence_required = true;
          human_oversight = oversight_of class;
        };
        cost = cost_of class;
        constraints = [];
      }
