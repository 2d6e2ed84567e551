-- ===== src/Common/Arithmetic.antt =====
-- JavaScript's numbers. Scores, amounts and ages are doubles, and doubles are no type of this
-- library, so the files that compare or combine them take them as a parameter.
use Prim.Native.Nat.{ℕ, ◌+◌, ◌-◌, ◌*◌, ◌/◌, ◌^◌}
use mathlib.Core.Path.{◌≡◌}
use mathlib.Core.Bool.{Bool, true, false}
use mathlib.Core.Option.{Option, none, some}
use native.Mathlib.Omega.{arith}
use ttp_protocol.Common.Tests.{ltb, leb}

-- `lt` and `le` are both given, since with NaN neither is the negation of the other.
pub record Numbers (Num : Type 0) : Type 0 where
  pub lt : Num → Num → Bool
  pub le : Num → Num → Bool
  pub add : Num → Num → Num
  pub sub : Num → Num → Num
  pub mul : Num → Num → Num
  -- The literal m / 10 ^ k: `decimal 65 2` is 0.65.
  pub decimal : ℕ → ℕ → Num

-- What holds of the comparisons of doubles, NaN included; `le x x` says that x is not NaN.
pub record IsOrdered {Num : Type 0} (number : Numbers Num) : Type 0 where
  pub asym : (a b : Num) → number.lt a b ≡ true → number.lt b a ≡ false
  pub cotrans :
      (a b c : Num)
      → number.le b b ≡ true
      → number.lt a b ≡ false
      → number.lt b c ≡ false
      → number.lt a c ≡ false
  pub defined : (a b : Num) → number.le a b ≡ true → (number.le a a ≡ true) × (number.le b b ≡ true)

-- Whole millionths, for runs on concrete inputs: numbers that are not negative, cut to six digits.
abbrev pub millionths : Numbers ℕ
millionths = record {
  lt = ltb;
  le = leb;
  add = λ a b. a + b;
  sub = λ a b. a - b;
  mul = λ a b. a * b / 1_000_000;
  decimal = λ m k. m * 10 ^ (6 - k);
}

-- The same with a NaN, which is below nothing.
abbrev pub lift : (ℕ → ℕ → ℕ) → Option ℕ → Option ℕ → Option ℕ
lift f (some a) (some b) = some (f a b)
lift f _ _ = none

abbrev compares : (ℕ → ℕ → Bool) → Option ℕ → Option ℕ → Bool
compares f (some a) (some b) = f a b
compares f _ _ = false

abbrev pub with_nan : Numbers (Option ℕ)
with_nan = record {
  lt = compares ltb;
  le = compares leb;
  add = lift (λ a b. a + b);
  sub = lift (λ a b. a - b);
  mul = lift (λ a b. a * b / 1_000_000);
  decimal = λ m k. some (m * 10 ^ (6 - k));
}

pub millionths-IsOrdered : IsOrdered millionths
millionths-IsOrdered = record {
  asym = λ a b h. ground arith;
  cotrans = λ a b c d h k. ground arith;
  defined = λ a b h. (ground arith, ground arith);
}
