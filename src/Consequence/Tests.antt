-- ===== src/Consequence/Tests.antt =====
-- Runs of the classification on the action names of the tests.
use ttp_protocol.Common.{◌≡◌, refl, ℕ, millionths, some, none, true, false}
use ttp_protocol.Consequence.Scale.{low, critical, inherited}
use ttp_protocol.Consequence.Floor.{
  level, IsRanked, classify_action-level, sensitive_read_protected, inherited_severity_unprotects,
}
use ttp_protocol.Consequence.{
  infer, money_moved, data_read, secret_exposed, data_deleted, nothing, production_changed, Hints,
  classify_action, scale,
}
use ttp_protocol.Consequence.Patterns.{sensitive_read, read_verb, matches}

runs : Unit {0}
unfolding infer classify_action sensitive_read read_verb matches
runs = tt

infer_runs :
    (infer "payments.transfer" ≡ money_moved)
    × (infer "payments.status" ≡ data_read)
    × (infer "vault.read" ≡ secret_exposed)
    × (infer "Records.DELETE" ≡ data_deleted)
    × (infer "a.pay" ≡ money_moved)
    × (infer "display" ≡ nothing)
    × (infer "deploy.production" ≡ production_changed)
unfolding runs
infer_runs = (refl, refl, refl, refl, refl, refl, refl)

abbrev big_refund : Hints ℕ
big_refund = record {
  consequence = some "MESSAGE_SENT";
  severity = some low;
  reversible = none;
  records_affected = none;
  amount = some 7_000_000_000;
}

classify_action-level_example :
    IsRanked (classify_action ⦃number = millionths⦄ "crm.refund" big_refund).severity
    × (level (classify_action ⦃number = millionths⦄ "crm.refund" big_refund).severity ≡ 3)
unfolding classify_action runs
classify_action-level_example =
    classify_action-level ⦃number = millionths⦄ "crm.refund" big_refund tt

-- A hint that names the property `constructor` of every object.
abbrev odd_hint : Hints ℕ
odd_hint = record big_refund { severity = some (inherited "constructor"); amount = none }

sensitive_read_protected_example :
    ((classify_action ⦃number = millionths⦄ "vault.read" big_refund).consequence ≡ secret_exposed)
    × ((classify_action ⦃number = millionths⦄ "vault.read" big_refund).severity ≡ critical)
    × ((classify_action ⦃number = millionths⦄ "vault.read" big_refund).protected ≡ true)
unfolding runs
sensitive_read_protected_example =
    sensitive_read_protected ⦃number = millionths⦄ "vault.read" big_refund refl tt

inherited_severity_unprotects_example :
    (classify_action ⦃number = millionths⦄ "records.delete" odd_hint).protected ≡ false
unfolding scale
inherited_severity_unprotects_example =
    inherited_severity_unprotects ⦃number = millionths⦄ "records.delete" "constructor" odd_hint refl
      refl
