-- ===== src/Consequence/Floor.antt =====
-- What packages/pctr/src/consequences.mjs promises: hints may raise a severity, and never lower it.
use ttp_protocol.Common.{
  ◌≡◌, refl, and_false, ℕ, max, Option, none, some, or_else, String, true, false, arith, Numbers,
}
use ttp_protocol.Consequence.{
  Class, class_severity, Hints, infer, select_class, lookup_class, raise_class, raise, scale,
  decorate, classify_action, secret_exposed,
}
use ttp_protocol.Consequence.Scale.{
  Severity, low, medium, high, critical, inherited, unknown, severity_rank, max_severity,
}
use ttp_protocol.Consequence.Patterns.{sensitive_read}

-- The rank as a number.
abbrev pub level : Severity → ℕ
level low = 0
level medium = 1
level high = 2
level critical = 3
level (unknown _) = 0
level (inherited _) = 0

abbrev pub level_of : Option Severity → ℕ
level_of none = 0
level_of (some s) = level s

abbrev pub class_level : Option Class → ℕ
class_level none = 0
class_level (some c) = level (class_severity c)

-- The severity is no name that every object inherits.
abbrev pub IsRanked : Severity → Type 0
IsRanked (inherited _) = ⊥
IsRanked _ = Unit

abbrev pub HasRank : Option Severity → Type 0
HasRank none = Unit
HasRank (some s) = IsRanked s

severity_rank_of_IsRanked : (s : Severity) → IsRanked s → severity_rank s ≡ some (level s)
unfolding severity_rank
severity_rank_of_IsRanked low h = refl
severity_rank_of_IsRanked medium h = refl
severity_rank_of_IsRanked high h = refl
severity_rank_of_IsRanked critical h = refl
severity_rank_of_IsRanked (unknown _) h = refl
severity_rank_of_IsRanked (inherited _) h = absurd h

max_severity-level :
    (s t : Severity)
    → IsRanked s
    → IsRanked t
    → IsRanked (max_severity s t) × (level (max_severity s t) ≡ max (level s) (level t))
unfolding max_severity
max_severity-level s t p q =
    rw (severity_rank_of_IsRanked s p, severity_rank_of_IsRanked t q) (ground arith)

class_severity-IsRanked : (c : Class) → IsRanked (class_severity c)
unfolding class_severity
class_severity-IsRanked c = ground arith

level-raise_class :
    (declared : Option Class) (inferred : Class)
    → level (class_severity (raise_class declared inferred))
      ≡ max (class_level declared) (level (class_severity inferred))
level-raise_class none c = omega arith
level-raise_class (some d) c =
    rw
      (
        severity_rank_of_IsRanked (class_severity d) (class_severity-IsRanked d),
        severity_rank_of_IsRanked (class_severity c) (class_severity-IsRanked c),
      )
      (ground arith)

raise-level :
    (s : Severity) (more : Option Severity)
    → IsRanked s
    → HasRank more
    → IsRanked (raise s more) × (level (raise s more) ≡ max (level s) (level_of more))
raise-level s none p q = (p, omega arith)
raise-level s (some t) p q = max_severity-level s t p q

hinted_level :
    (base : Severity) (hint : Option Severity)
    → IsRanked base
    → HasRank hint
    → IsRanked (max_severity base (or_else hint base))
      × (level (max_severity base (or_else hint base)) ≡ max (level base) (level_of hint))
hinted_level base none p q =
    let (ranked, same) = max_severity-level base base p p in (ranked, omega arith)
hinted_level base (some s) p q = max_severity-level base s p q

module _ {Num : Type 0} ⦃number : Numbers Num⦄ where
  scale-HasRank : (hints : Hints Num) → HasRank (scale hints)
  unfolding scale
  scale-HasRank hints = ground arith

  decorate-level :
      (id : String) (c : Class) (hints : Hints Num)
      → HasRank hints.severity
      → IsRanked (decorate id c hints).severity
        × (level (decorate id c hints).severity
            ≡ max
                (max (level (class_severity c)) (level_of hints.severity))
                (level_of (scale hints)))
  unfolding decorate
  decorate-level id c hints h =
      let base = class_severity c in
      let (hinted, same) = hinted_level base hints.severity (class_severity-IsRanked c) h in
      let (ranked, total) = raise-level _ (scale hints) hinted (scale-HasRank hints) in
      (ranked, omega arith)

-- The severity of a classified action is exactly the highest of four: that of the consequence
-- inferred from its name, that of the declared consequence, the hinted severity and the floor set
-- by scale and money; provided the hinted severity is no name that every object inherits.
pub classify_action-level :
    {Num : Type 0} ⦃number : Numbers Num⦄ (id : String) (hints : Hints Num)
    → HasRank hints.severity
    → IsRanked (classify_action id hints).severity
      × (level (classify_action id hints).severity
          ≡ max
              (max
                (max
                  (class_level (lookup_class hints.consequence))
                  (level (class_severity (infer id))))
                (level_of hints.severity))
              (level_of (scale hints)))
unfolding classify_action
classify_action-level id hints h =
    let (ranked, total) = decorate-level id (select_class hints.consequence id) hints h in
    (ranked, omega (arith, level-raise_class (lookup_class hints.consequence) (infer id)))

infer_of_sensitive_read : (id : String) → sensitive_read id ≡ true → infer id ≡ secret_exposed
unfolding infer
infer_of_sensitive_read id e = rw e

raise_class-secret_exposed :
    (declared : Option Class) → raise_class declared secret_exposed ≡ secret_exposed
unfolding class_severity severity_rank
raise_class-secret_exposed none = refl
raise_class-secret_exposed (some c) = ground arith

max_severity-critical : (s : Severity) → IsRanked s → max_severity critical s ≡ critical
unfolding max_severity
max_severity-critical s h = ground arith

hinted-critical :
    (hint : Option Severity)
    → HasRank hint
    → max_severity critical (or_else hint critical) ≡ critical
hinted-critical none h = max_severity-critical critical tt
hinted-critical (some s) h = max_severity-critical s h

raise-critical : (more : Option Severity) → HasRank more → raise critical more ≡ critical
raise-critical none h = refl
raise-critical (some s) h = max_severity-critical s h

-- A name that reads a secret is classified as SECRET_EXPOSED, CRITICAL and protected, whatever the
-- hints say, provided the hinted severity is no name that every object inherits.
pub sensitive_read_protected :
    {Num : Type 0} ⦃number : Numbers Num⦄ (id : String) (hints : Hints Num)
    → sensitive_read id ≡ true
    → HasRank hints.severity
    → ((classify_action id hints).consequence ≡ secret_exposed)
      × ((classify_action id hints).severity ≡ critical)
      × ((classify_action id hints).protected ≡ true)
unfolding classify_action
sensitive_read_protected id hints e h =
    rw
      (
        infer_of_sensitive_read id e,
        raise_class-secret_exposed (lookup_class hints.consequence),
        hinted-critical hints.severity h,
        raise-critical (scale hints) (scale-HasRank hints),
      )
      (refl, refl, refl)

max_severity-inherited :
    (s : Severity) (name : String) → max_severity s (inherited name) ≡ inherited name
unfolding max_severity
max_severity-inherited s name = ground arith

-- Where the hinted severity is a name that every object inherits, such as "constructor", and scale
-- and money set no severity, no action is protected, whatever its name.
pub inherited_severity_unprotects :
    {Num : Type 0} ⦃number : Numbers Num⦄ (id name : String) (hints : Hints Num)
    → hints.severity ≡ some (inherited name)
    → scale hints ≡ none
    → (classify_action id hints).protected ≡ false
unfolding classify_action severity_rank
inherited_severity_unprotects id name hints e f =
    rw (f, e, max_severity-inherited (class_severity (select_class hints.consequence id)) name)
      (and_false _)
