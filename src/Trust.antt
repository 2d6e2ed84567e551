-- ===== src/Trust.antt =====
-- packages/pctr/src/trust.mjs and `apply_decay` of packages/pctr/src/ttp.mjs: what an agent's trust is
-- worth now, and what a severity asks for.
use ttp_protocol.Common.{
  String, Bool, true, false, ℕ, Option, none, some, List, [], ◌∷◌, if◌then◌else◌, or_else, Numbers,
}
use ttp_protocol.Consequence.Scale.{Severity, low, medium, high, critical, inherited}
use ttp_protocol.Routing.{max_num, min_num, zero_num}

-- What is called on numbers beside `Numbers`.
pub record Maths (Num : Type 0) : Type 0 where
  -- `Math.exp(-x)`
  pub exp_minus : Num → Num
  -- `Number(x.toFixed(4))`
  pub round4 : Num → Num
  pub nan : Num
  -- `m / n`
  pub ratio : ℕ → ℕ → Num

pub record ActivitySignal (Num : Type 0) : Type 0 where
  pub verified : Bool
  pub weight : Num
  pub recency_factor : Option Num

-- The data of an agent's node in the graph.
pub record AgentNode (Num : Type 0) : Type 0 where
  pub id : String
  pub trust : Option Num
  pub evidence_age_seconds : Option Num
  pub activity_signals : List (ActivitySignal Num)
  pub authority : List String
  pub jurisdiction : Option String
  pub issuer : Option String
  pub available : Bool
  pub latency_ms : Option Num
  pub cost_units : Option Num

-- A measurement of an agent's trust.
pub record Measured (Num : Type 0) : Type 0 where
  pub proven : Bool
  pub trust : Num
  pub oldest_evidence_age_seconds : Option Num

pub data Provenance : Type 0 where
  unproven measured declared : Provenance

-- An age is `none` where it is Infinity.
pub record AgentTrust (Num : Type 0) : Type 0 where
  pub agent_id : String
  pub trust : Num
  pub provenance : Provenance
  pub evidence_age_seconds : Option Num
  pub evidence_stale : Bool

module _ {Num : Type 0} ⦃number : Numbers Num⦄ where
  -- `TRUST_REQUIRED[severity]`, `none` where that is no number.
  unfoldable pub trust_required : Severity → Option Num
  trust_required critical = some (number.decimal 9 1)
  trust_required high = some (number.decimal 75 2)
  trust_required medium = some (number.decimal 6 1)
  trust_required low = some zero_num
  trust_required _ = none

  -- `trust >= (TRUST_REQUIRED[severity] ?? 0)`: an inherited name gives a function, and NaN.
  unfoldable pub meets_threshold : Num → Severity → Bool
  unfolding trust_required
  meets_threshold trust (inherited _) = false
  meets_threshold trust severity = number.le (or_else (trust_required severity) zero_num) trust

  -- `age > MAX_EVIDENCE_AGE_SECONDS[severity]`
  unfoldable pub too_old : Num → Severity → Bool
  too_old age critical = number.lt (number.decimal 300 0) age
  too_old age high = number.lt (number.decimal 900 0) age
  too_old age medium = number.lt (number.decimal 3600 0) age
  too_old age _ = false

  -- `RISK_MULTIPLIER[RISK_TIER[severity] ?? 'low']`
  unfoldable pub risk_multiplier : Maths Num → Severity → Num
  risk_multiplier maths critical = number.decimal 15 1
  risk_multiplier maths high = number.decimal 15 1
  risk_multiplier maths medium = number.decimal 12 1
  risk_multiplier maths (inherited _) = maths.nan
  risk_multiplier maths _ = number.decimal 1 0

  -- The loop over the activity signals.
  abbrev pub add_recharge : Num → List (ActivitySignal Num) → Num
  add_recharge sum [] = sum
  add_recharge sum (s ∷ ss) =
      let next =
        if s.verified
        then number.add sum (number.mul s.weight (or_else s.recency_factor (number.decimal 1 0)))
        else sum in
      add_recharge next ss

  abbrev pub clamp01 : Num → Num
  clamp01 n = max_num zero_num (min_num (number.decimal 1 0) n)

  -- `finalTrust` of `apply_decay`, with the default floor and ceiling.
  unfoldable pub apply_decay :
      Maths Num → Num → Num → Num → List (ActivitySignal Num) → Severity → Num
  unfolding risk_multiplier
  apply_decay maths initial decay_constant elapsed signals severity =
      let rate = number.mul (risk_multiplier maths severity) decay_constant in
      let decayed = number.mul initial (maths.exp_minus (number.mul rate elapsed)) in
      clamp01 (clamp01 (number.add decayed (add_recharge zero_num signals)))

  -- A decay constant that is left out is `none`; null, which is no default in the source, is no input.
  unfoldable pub declared_trust_now :
      Maths Num → AgentNode Num → Severity → Option Num → AgentTrust Num
  unfolding apply_decay
  declared_trust_now maths agent severity decay_constant =
      let age = or_else agent.evidence_age_seconds zero_num in
      record {
        agent_id = agent.id;
        trust = maths.round4 (
            apply_decay maths (or_else agent.trust zero_num)
              (or_else decay_constant (number.decimal 5 5)) age agent.activity_signals severity);
        provenance = declared;
        evidence_age_seconds = some age;
        evidence_stale = too_old age severity;
      }

  abbrev measured_trust : AgentNode Num → Severity → Measured Num → AgentTrust Num
  measured_trust agent severity m =
      if m.proven
      then record {
        agent_id = agent.id;
        trust = m.trust;
        provenance = measured;
        evidence_age_seconds = some (or_else m.oldest_evidence_age_seconds zero_num);
        evidence_stale = too_old (or_else m.oldest_evidence_age_seconds zero_num) severity;
      }
      else record {
        agent_id = agent.id;
        trust = zero_num;
        provenance = unproven;
        evidence_age_seconds = none;
        evidence_stale = true;
      }

  unfoldable pub agent_trust_now :
      Maths Num → AgentNode Num → Severity → Option Num → Option (Measured Num) → AgentTrust Num
  agent_trust_now maths agent severity decay_constant (some m) = measured_trust agent severity m
  agent_trust_now maths agent severity decay_constant none =
      declared_trust_now maths agent severity decay_constant
