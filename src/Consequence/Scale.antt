-- ===== src/Consequence/Scale.antt =====
-- The scale of packages/pctr/src/consequences.mjs: `RANK`, `severityRank` and `maxSeverity`.
use ttp_protocol.Common.{String, Bool, false, ℕ, ltb, leb, Option, none, some, if◌then◌else◌}

-- The strings that stand where a severity is expected. `inherited` is a name that every object
-- has from `Object.prototype` ("constructor", "toString", ...): `RANK[s]` is then a function or an
-- object, so `?? 0` does not apply. `unknown` is any other string.
pub data Severity : Type 0 where
  low medium high critical : Severity
  inherited unknown : String → Severity

-- A rank is a number, or a value that becomes NaN in a comparison (`none`).
unfoldable pub severity_rank : Severity → Option ℕ
severity_rank low = some 0
severity_rank medium = some 1
severity_rank high = some 2
severity_rank critical = some 3
severity_rank (unknown _) = some 0
severity_rank (inherited _) = none

-- `a >= b` and `a > b`: false with NaN on either side.
abbrev pub rank_ge : Option ℕ → Option ℕ → Bool
rank_ge (some a) (some b) = leb b a
rank_ge _ _ = false

abbrev pub rank_gt : Option ℕ → Option ℕ → Bool
rank_gt (some a) (some b) = ltb b a
rank_gt _ _ = false

unfoldable pub max_severity : Severity → Severity → Severity
unfolding severity_rank
max_severity a b = if rank_ge (severity_rank a) (severity_rank b) then a else b
