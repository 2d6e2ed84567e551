-- ===== src/Decisions.antt =====
-- packages/pctr/src/decisions.mjs: the response to a trust change. `Safety` and `Posture` hold the
-- proofs.
pub mod Safety
pub mod Posture
pub mod Tests
use ttp_protocol.Common.{
  String, Bool, true, false, not, ◌&&◌, ◌||◌, ℕ, ltb, Option, none, some, List, [], ◌∷◌,
  if◌then◌else◌, or_else, find, any, ◌==◌, Numbers,
}
use ttp_protocol.Consequence.Scale.{Severity, low, critical, severity_rank, rank_ge}

-- `RESPONSES`, from least to most restrictive. `step_up` is STEP_UP.
pub data Response : Type 0 where
  keep reroute constrain step_up escalate throttle suspend deny revoke : Response

-- `RESTRICTIVENESS`: the index in `RESPONSES`.
unfoldable pub restrictiveness : Response → ℕ
restrictiveness keep = 0
restrictiveness reroute = 1
restrictiveness constrain = 2
restrictiveness step_up = 3
restrictiveness escalate = 4
restrictiveness throttle = 5
restrictiveness suspend = 6
restrictiveness deny = 7
restrictiveness revoke = 8

unfoldable pub is_more_restrictive : Response → Response → Bool
unfolding restrictiveness
is_more_restrictive a b = ltb (restrictiveness b) (restrictiveness a)

-- `PROCEEDS`
unfoldable pub proceeds : Response → Bool
proceeds keep = true
proceeds reroute = true
proceeds constrain = true
proceeds throttle = true
proceeds _ = false

-- The keys of `CLASSIFICATION_POSTURE`. `other` is a string that is neither a key nor a name that
-- every object inherits.
pub data Classification : Type 0 where
  accepted accepted_with_controls review_recommended contradicted defective : Classification
  rejected unknown : Classification
  other : String → Classification

unfoldable pub allowed : Classification → List Response
allowed accepted = keep ∷ reroute ∷ []
allowed accepted_with_controls = constrain ∷ throttle ∷ []
allowed review_recommended = step_up ∷ []
allowed contradicted = escalate ∷ []
allowed defective = escalate ∷ deny ∷ []
allowed rejected = deny ∷ []
allowed unknown = deny ∷ escalate ∷ []
allowed (other _) = deny ∷ escalate ∷ []

pub record PostureFor : Type 0 where
  pub classification : Classification
  pub responses : List Response
  pub may_proceed : Bool

unfoldable pub posture_for : Classification → PostureFor
unfolding allowed proceeds
posture_for c = record {
  classification = c;
  responses = allowed c;
  may_proceed = any proceeds (allowed c);
}

same_response : Response → Response → Bool
unfolding is_more_restrictive
same_response a b = not (is_more_restrictive a b) && not (is_more_restrictive b a)

-- `allowed.includes(response)`
unfoldable pub within_posture : Response → Classification → Bool
unfolding same_response allowed
within_posture r c = any (λ a. same_response a r) (allowed c)

-- A number of the program where one is read, `none` where the field is absent.
pub record Agent (Num : Type 0) : Type 0 where
  pub id : String
  pub revoked : Bool
  pub credential_revoked : Bool
  pub quarantined : Bool
  pub killed : Bool
  pub trust : Option Num

pub record TrustState (Num : Type 0) : Type 0 where
  pub agent_id : String
  pub trust : Num
  pub evidence_stale : Bool
  pub evidence_age_seconds : Num
  pub max_evidence_age_seconds : Option Num

pub record Route (Num : Type 0) : Type 0 where
  pub route_id : String
  pub trust_states : List (TrustState Num)

pub record Preview (Num : Type 0) : Type 0 where
  pub severity : Severity
  pub records_affected : Option Num
  pub financial_exposure : Option Num

pub record Policy (Num : Type 0) : Type 0 where
  pub suspend_after_failures : Option Num
  -- `maxPerWindow?.[severity]` and `maxPerWindow?.default`
  pub max_per_window : Severity → Option Num
  pub max_per_window_default : Option Num
  pub escalate_at_or_above : Option Severity
  pub escalate_to : Option String
  pub require_approval_at_or_above : Option Severity
  pub approval_amount : Option Num
  pub batch_limit : Option Num
  pub constrain_amount_above : Option Num

pub record History (Num : Type 0) : Type 0 where
  pub consecutive_failures : Option Num
  pub in_window : Option Num

pub data Bound (Num : Type 0) : Type 0 where
  max_records max_amount : Num → Bound Num

-- The message and the detail of an answer: one constructor for each `decide` of the source, over
-- the values that its text names.
pub data Reason (Num : Type 0) : Type 0 where
  credential_revoked : String → Reason Num
  no_trust_left : String → Reason Num
  failure_limit : Num → Num → Reason Num
  no_route : Reason Num
  bounded : Bound Num → Reason Num
  rate_limit : Option Num → Num → Reason Num
  above_authority : Option String → Reason Num
  stale_evidence : TrustState Num → Reason Num
  approval_required : Reason Num
  route_replaced : String → String → Reason Num
  unchanged : String → Reason Num
  -- The text that `reconcile` appends.
  weaker_refused : Reason Num → Response → Reason Num

pub record Answer (Num : Type 0) : Type 0 where
  pub response : Response
  pub reason : Reason Num
  pub action : String
  pub severity : Severity
  pub at : String
  pub may_proceed : Bool

-- The argument of `respondToChange`.
pub record Change (Num : Type 0) : Type 0 where
  pub action : String
  pub preview : Option (Preview Num)
  pub previous_route : Option (Route Num)
  pub current_route : Option (Route Num)
  pub agents : List (Agent Num)
  pub policy : Policy Num
  pub history : History Num
  pub at : String

is_critical : Severity → Bool
is_critical critical = true
is_critical _ = false

-- `requiresHumanApproval` of packages/pctr/src/trust.mjs, and the first half of `requiresApproval`.
unfoldable pub requires_human_approval : Severity → Option Severity → Bool
unfolding is_critical severity_rank
requires_human_approval severity none = is_critical severity
requires_human_approval severity (some floor) =
    rank_ge (severity_rank severity) (severity_rank floor)

-- `policy.escalateAtOrAbove && severityRank(severity) >= severityRank(policy.escalateAtOrAbove)`
unfoldable pub must_escalate : Option Severity → Severity → Bool
unfolding severity_rank
must_escalate none severity = false
must_escalate (some floor) severity = rank_ge (severity_rank severity) (severity_rank floor)

module _ {Num : Type 0} ⦃number : Numbers Num⦄ where
  abbrev pub zero_num : Num
  zero_num = number.decimal 0 0

  -- `x > limit`, where a missing `x` is null and `limit` is not negative: a negative limit would
  -- pass the test with null, and the source would then throw on the null count.
  abbrev pub above : Option Num → Num → Bool
  above none limit = false
  above (some x) limit = number.lt limit x

  -- `x >= limit`; null compares as 0.
  abbrev pub reaches : Option Num → Num → Bool
  reaches x limit = number.le limit (or_else x zero_num)

  abbrev bound_amount : Option Num → Preview Num → Option (Bound Num)
  bound_amount none preview = none
  bound_amount (some limit) preview =
      if above preview.financial_exposure limit then some (max_amount limit) else none

  unfoldable pub propose_constraint : Option (Preview Num) → Policy Num → Option (Bound Num)
  propose_constraint none policy = none
  propose_constraint (some preview) policy =
      let limit = or_else policy.batch_limit (number.decimal 25 0) in
      if above preview.records_affected limit
      then some (max_records limit)
      else bound_amount policy.constrain_amount_above preview

  -- `threshold != null && preview?.financialExposure >= threshold`
  abbrev pub exposure_reaches : Option Num → Option (Preview Num) → Bool
  exposure_reaches none preview = false
  exposure_reaches (some limit) none = false
  exposure_reaches (some limit) (some preview) = reaches preview.financial_exposure limit

  unfoldable pub requires_approval : Severity → Policy Num → Option (Preview Num) → Bool
  requires_approval severity policy preview =
      requires_human_approval severity policy.require_approval_at_or_above
      || exposure_reaches policy.approval_amount preview

  -- The tests of the first two `find`s.
  abbrev pub is_revoked : Agent Num → Bool
  is_revoked a = a.revoked || a.credential_revoked

  abbrev is_zero : Option Num → Bool
  is_zero none = false
  is_zero (some x) = number.le x zero_num && number.le zero_num x

  abbrev pub is_stopped : Agent Num → Bool
  is_stopped a = a.quarantined || a.killed || is_zero a.trust

  unfoldable pub too_many_failures : Policy Num → History Num → Bool
  too_many_failures policy history =
      number.le (or_else policy.suspend_after_failures (number.decimal 5 0))
        (or_else history.consecutive_failures zero_num)

  abbrev pub first_given : Option Num → Option Num → Option Num
  first_given none b = b
  first_given (some a) b = some a

  -- `policy.maxPerWindow?.[severity] ?? policy.maxPerWindow?.default`
  abbrev pub rate_limit_for : Policy Num → Severity → Option Num
  rate_limit_for policy severity =
      first_given (policy.max_per_window severity) policy.max_per_window_default

  -- The limit, where it is set and reached.
  abbrev reached : Option Num → Option Num → Option Num
  reached none in_window = none
  reached (some limit) in_window = if reaches in_window limit then some limit else none

  unfoldable pub over_rate : Change Num → Severity → Option Num
  over_rate c severity = reached (rate_limit_for c.policy severity) c.history.in_window

  abbrev pub preview_severity : Option (Preview Num) → Severity
  preview_severity none = low
  preview_severity (some p) = p.severity

  unfoldable pub decide : Change Num → Response → Reason Num → Answer Num
  unfolding proceeds
  decide c response reason = record {
    response = response;
    reason = reason;
    action = c.action;
    severity = preview_severity c.preview;
    at = c.at;
    may_proceed = proceeds response;
  }

  -- The last lines of `respondToChange`, REROUTE and KEEP.
  abbrev reroute_or_keep : Change Num → Option (Route Num) → Route Num → Answer Num
  reroute_or_keep c none current = decide c keep (unchanged current.route_id)
  reroute_or_keep c (some previous) current =
      if previous.route_id == current.route_id
      then decide c keep (unchanged current.route_id)
      else decide c reroute (route_replaced previous.route_id current.route_id)

  -- What follows `if (!currentRoute)`.
  unfoldable pub respond_on_route : Change Num → Route Num → Answer Num
  unfolding decide
  respond_on_route c current =
      let severity = preview_severity c.preview in
      elim (over_rate c severity) [
        | some limit ↦ decide c throttle (rate_limit c.history.in_window limit)
        | none ↦
            if must_escalate c.policy.escalate_at_or_above severity
            then decide c escalate (above_authority c.policy.escalate_to)
            else elim (find (λ t. t.evidence_stale) current.trust_states) [
              | some t ↦ decide c step_up (stale_evidence t)
              | none ↦
                  if requires_approval severity c.policy c.preview
                  then decide c step_up approval_required
                  else elim (propose_constraint c.preview c.policy) [
                    | some b ↦ decide c constrain (bounded b)
                    | none ↦ reroute_or_keep c c.previous_route current
                  ]
            ]
      ]

  -- `if (!currentRoute)`: a smaller version of the action may have a route.
  unfoldable pub respond_without_route : Change Num → Answer Num
  unfolding decide
  respond_without_route c = elim (propose_constraint c.preview c.policy) [
    | some b ↦ decide c constrain (bounded b)
    | none ↦ decide c deny no_route
  ]

  unfoldable pub respond_by_route : Change Num → Option (Route Num) → Answer Num
  respond_by_route c none = respond_without_route c
  respond_by_route c (some current) = respond_on_route c current

  unfoldable pub respond_to_change : Change Num → Answer Num
  unfolding decide
  respond_to_change c = elim (find is_revoked c.agents) [
    | some a ↦ decide c revoke (credential_revoked a.id)
    | none ↦ elim (find is_stopped c.agents) [
      | some a ↦ decide c suspend (no_trust_left a.id)
      | none ↦
          if too_many_failures c.policy c.history
          then decide c suspend (
              failure_limit (or_else c.history.consecutive_failures zero_num)
                (or_else c.policy.suspend_after_failures (number.decimal 5 0)))
          else respond_by_route c c.current_route
    ]
  ]

unfoldable pub reconcile : {Num : Type 0} → Option (Answer Num) → Answer Num → Answer Num
unfolding is_more_restrictive
reconcile none next = next
reconcile (some previous) next =
    if is_more_restrictive previous.response next.response
    then record previous { reason = weaker_refused previous.reason next.response }
    else next
