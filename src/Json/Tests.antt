-- ===== src/Json/Tests.antt =====
-- A platform for runs on concrete inputs: keys in the order of their code points, and a SHA-256
-- that returns its text.
use Prim.Native.Char.{code}
use Prim.Native.String.{String, [], ◌∷◌, ◌++◌}
use text.Mathlib.TextEquality.{Char-path, eq_iff}
use ttp_protocol.Common.{
  ap, Option, none, some, ◌≡◌, refl, ◌⊎◌, inl, inr, Bool, true, false, arith, ltb, nat_eq, ◌||◌,
  ◌&&◌, ℕ,
}
use ttp_protocol.Json.{
  Json, bool, num, str, obj, end, field, Platform, IsKeyOrder, hash_obj, join, insert,
}
use ttp_protocol.Json.Canonical.{swap, same_obj, hash_obj-SameValue}

-- Lexicographic order of code points.
unfoldable pub by_code : String → String → Bool
by_code [] t = true
by_code (c ∷ s) [] = false
by_code (c ∷ s) (d ∷ t) = ltb (code c) (code d) || nat_eq (code c) (code d) && by_code s t

by_code_total : (a b : String) → (by_code a b ≡ true) ⊎ (by_code b a ≡ true)
unfolding by_code
by_code_total [] t = inl refl
by_code_total (c ∷ s) [] = inr refl
by_code_total (c ∷ s) (d ∷ t) = ground (arith, by_code_total s t)

by_code_antisym : (a b : String) → by_code a b ≡ true → by_code b a ≡ true → a ≡ b
unfolding by_code
by_code_antisym [] [] h k = refl
by_code_antisym [] (d ∷ t) h k = cc
by_code_antisym (c ∷ s) [] h k = cc
by_code_antisym (c ∷ s) (d ∷ t) h k = ground (arith, Char-path c d, by_code_antisym s t)

by_code_trans : (a b c : String) → by_code a b ≡ true → by_code b c ≡ true → by_code a c ≡ true
unfolding by_code
by_code_trans [] b c h k = refl
by_code_trans (x ∷ s) [] c h k = cc
by_code_trans (x ∷ s) (y ∷ t) [] h k = cc
by_code_trans (x ∷ s) (y ∷ t) (z ∷ u) h k = ground (arith, by_code_trans s t u)

pub by_code-IsKeyOrder : IsKeyOrder by_code
by_code-IsKeyOrder = record {
  total = by_code_total;
  antisym = by_code_antisym;
  trans = by_code_trans;
}

-- Numbers are printed in unary.
abbrev pub unary : ℕ → String
unary ℕ.zero = []
unary (ℕ.suc n) = "1" ∷ unary n

-- The number of characters.
abbrev pub text_length : String → ℕ
text_length [] = 0
text_length (c ∷ s) = ℕ.suc (text_length s)

pub text_length-unary : (n : ℕ) → text_length (unary n) ≡ n
text_length-unary ℕ.zero = refl
text_length-unary (ℕ.suc n) = ap ℕ.suc (text_length-unary n)

abbrev pub plain_text : Json ℕ → String
plain_text (num n) = unary n
plain_text (str s) = "\"" ++ (s ++ "\"")
plain_text (bool true) = "true"
plain_text _ = "null"

abbrev pub plain_number : Option (Json ℕ) → ℕ
plain_number (some (num n)) = n
plain_number _ = 0

-- A date is written as its number of milliseconds, in unary.
abbrev pub plain_date : Option (Json ℕ) → Option ℕ
plain_date (some (str s)) = some (text_length s)
plain_date _ = none

abbrev pub toy_platform : Platform ℕ
toy_platform = record {
  quote = λ s. "\"" ++ (s ++ "\"");
  number_text = unary;
  key_le = by_code;
  sha256_hex = λ s. s;
  stringify = plain_text;
  to_number = plain_number;
  parse_date = plain_date;
  iso_text = unary;
}

runs : Unit {0}
unfolding hash_obj by_code join insert
runs = tt

hash_runs :
    hash_obj ⦃p = toy_platform⦄ (obj (field "b" (num 2) (field "a" (bool true) end)))
    ≡ "sha256:{\"a\":true,\"b\":11}"
unfolding runs
hash_runs = refl

hash_obj-SameValue_example :
    hash_obj ⦃p = toy_platform⦄ (obj (field "b" (num 2) (field "a" (bool true) end)))
    ≡ hash_obj ⦃p = toy_platform⦄ (obj (field "a" (bool true) (field "b" (num 2) end)))
hash_obj-SameValue_example =
    hash_obj-SameValue ⦃p = toy_platform⦄ by_code-IsKeyOrder
      (same_obj (swap (λ e. cc ((eq_iff "b" "a").1 e))))
