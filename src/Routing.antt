-- ===== src/Routing.antt =====
-- packages/trust-routing-engine/src: resolve.js, decay.js and policy.js, which resolve a request over
-- candidate paths. This file has the data and the evaluation of a candidate, `Resolve` the
-- resolution; `Selection`, `Permits` and `Outcome` hold the
-- proofs.
pub mod Resolve
pub mod Selection
pub mod Permits
pub mod Outcome
pub mod Tests
use ttp_protocol.Common.{
  String, Bool, true, false, not, ◌&&◌, ◌||◌, ℕ, Option, none, some, List, [], ◌∷◌, all, any, keep,
  find, includes, length, is_empty, if◌then◌else◌, or_else, ◌==◌, Numbers, first, sort_by,
}
use Prim.Native.String.{◌++◌, slice}

-- What the engine calls on numbers and texts beside `Numbers`.
pub record Host (Num : Type 0) : Type 0 where
  -- `Date.parse(t)`, NaN where `t` is no date.
  pub parse_ms : String → Num
  -- `x / 1000`
  pub thousandth : Num → Num
  -- `Math.exp(-x)`
  pub exp_minus : Num → Num
  pub sha256_hex : String → String

-- The decisions and the zones.
pub data Decision : Type 0 where
  permit step_up throttle constrain deny : Decision

pub data Zone : Type 0 where
  active degraded warning critical : Zone

pub record Signal (Num : Type 0) : Type 0 where
  pub weight : Num
  pub value : Num

-- `environment_constraints` holds each key with `String(v)`.
pub record Candidate (Num : Type 0) : Type 0 where
  pub issuer_type : String
  pub issuer_id : String
  pub action : String
  pub trust_score : Num
  pub min_trust_score : Num
  pub last_verified_at : String
  pub signals : List (Signal Num)
  pub freshness_seconds : Num
  pub revoked : Bool
  pub delegation_allowed : Bool
  pub max_hops : Num
  pub environment_constraints : List (String × String)
  pub domain_decision : Option String
  pub requires_step_up : Bool
  pub grant_id : String
  pub proof_ref : String

-- `context` holds each key with `String(v)`, where the value is not null.
pub record Request (Num : Type 0) : Type 0 where
  pub subject : String
  pub action : String
  pub resource : String
  pub params_hash : Option String
  pub timestamp : String
  pub binding_hash : String
  pub context : List (String × String)
  pub proof_required : Bool
  pub delegation_hop_count : Option Num
  pub attestation_ref : Option String

pub record RoutingPolicy (Num : Type 0) : Type 0 where
  pub strategy : String
  pub max_freshness_seconds : Num
  pub min_trust_score : Num
  pub high_risk_actions : List String
  pub deny_overrides : List String
  pub step_up_actions : List String
  pub throttle_actions : List String
  pub constrain_actions : List String

unfoldable pub default_routing_policy : {Num : Type 0} ⦃number : Numbers Num⦄ → RoutingPolicy Num
default_routing_policy ⦃number = number⦄ = record {
  strategy = "strongest_path_wins";
  max_freshness_seconds = number.decimal 900 0;
  min_trust_score = number.decimal 65 2;
  high_risk_actions = "deploy.production" ∷ "terraform.apply" ∷ "merge.main" ∷ [];
  deny_overrides = "environment_disallowed" ∷ "binding_mismatch" ∷ "revoked_subject" ∷ [];
  step_up_actions = "deploy.production" ∷ "merge.main" ∷ [];
  throttle_actions = "bulk.write" ∷ [];
  constrain_actions = "shell.exec" ∷ [];
}

-- The argument of `resolveTrustRoute`; `now_ms` is what `Date.now()` returns while it runs.
pub record Input (Num : Type 0) : Type 0 where
  pub request : Request Num
  pub candidates : List (Candidate Num)
  pub policy : RoutingPolicy Num
  pub resolver_available : Bool
  pub proof_engine_available : Bool
  pub latency_budget_ms : Num
  pub start_time_ms : Num
  pub now_ms : Num

pub record Evaluated (Num : Type 0) : Type 0 where
  pub candidate : Candidate Num
  pub evaluated_score : Num
  pub zone : Zone
  pub freshness_valid : Bool
  pub revoked : Bool
  pub scope_valid : Bool
  pub environment_valid : Bool
  pub delegation_valid : Bool
  pub hops_valid : Bool

-- The result, without `receiptPayloadPreview`, which repeats the request and the path.
pub record Resolution (Num : Type 0) : Type 0 where
  pub decision : Decision
  pub selected_path : Option String
  pub candidate_paths_evaluated : ℕ
  pub trust_score_at_decision : Num
  pub trust_zone : Zone
  pub authority_grant_ref : String
  pub attestation_ref : String
  pub proof_set : List String
  pub reason_codes : List String
  pub evaluation_tier : String
  pub latency_ms : Num

-- `String(context[k] ?? '')`
abbrev context_text : List (String × String) → String → String
context_text [] k = ""
context_text ((key, v) ∷ rest) k = if key == k then v else context_text rest k

unfoldable pub is_environment_valid : List (String × String) → List (String × String) → Bool
is_environment_valid constraints context = all (λ c. context_text context c.0 == c.1) constraints

-- `${paramsHash}` of an absent hash is the text "undefined".
unfoldable pub compute_binding_hash : {Num : Type 0} → Host Num → Request Num → String
compute_binding_hash host r =
    "sha256:"
    ++ host.sha256_hex (
        r.subject
        ++ ("|"
            ++ (r.action
                ++ ("|"
                    ++ (r.resource
                        ++ ("|"
                            ++ (or_else r.params_hash "undefined"
                                ++ ("|" ++ slice r.timestamp 0 16))))))))

-- `Math.max` and `Math.min`: with NaN on either side the result is NaN.
module _ {Num : Type 0} ⦃number : Numbers Num⦄ where
  abbrev pub max_num : Num → Num → Num
  max_num a b = if number.le b a then a else if number.le a b then b else number.add a b

  abbrev pub min_num : Num → Num → Num
  min_num a b = if number.le a b then a else if number.le b a then b else number.add a b

  abbrev pub zero_num : Num
  zero_num = number.decimal 0 0

  abbrev pub add_signals : Num → List (Signal Num) → Num
  add_signals sum [] = sum
  add_signals sum (s ∷ ss) = add_signals (number.add sum (number.mul s.weight s.value)) ss

  unfoldable pub compute_trust_score_with_decay :
      Host Num → Num → Num → Num → List (Signal Num) → Num
  compute_trust_score_with_decay host base_score decay_constant elapsed signals =
      let decayed = number.mul base_score (host.exp_minus (number.mul decay_constant elapsed)) in
      max_num zero_num
        (min_num (number.decimal 1 0) (number.add decayed (add_signals zero_num signals)))

  unfoldable pub trust_zone : Num → Zone
  trust_zone score =
      if number.le (number.decimal 85 2) score
      then active
      else if number.le (number.decimal 65 2) score
      then degraded
      else if number.le (number.decimal 4 1) score
      then warning
      else critical

  -- The body of `candidates.map`.
  unfoldable pub evaluate : Host Num → Input Num → Candidate Num → Evaluated Num
  unfolding is_environment_valid
  evaluate host i c =
      let r = i.request in
      let elapsed = max_num zero_num (
        host.thousandth
          (number.sub (host.parse_ms r.timestamp) (host.parse_ms c.last_verified_at))) in
      let score =
        compute_trust_score_with_decay host c.trust_score (number.decimal 8 4) elapsed c.signals in
      let hops = or_else r.delegation_hop_count zero_num in
      record {
        candidate = c;
        evaluated_score = score;
        zone = trust_zone score;
        freshness_valid = number.le c.freshness_seconds i.policy.max_freshness_seconds;
        revoked = c.revoked;
        scope_valid = c.action == r.action || c.action == "*";
        environment_valid = is_environment_valid c.environment_constraints r.context;
        delegation_valid =
            c.delegation_allowed || (number.le hops zero_num && number.le zero_num hops);
        hops_valid = number.le hops c.max_hops;
      }
