-- ===== src/Service/Lines.antt =====
-- Lemmas on the lines of a text, for the ledger and the policy of services/authority.
use Prim.Native.Char.{Char, code, len_utf8, len_utf8_def, width}
use Prim.Native.Nat.{Ordering}
use Prim.Native.String.{[], ◌∷◌, ◌++◌, len}
use Prim.Native.String.len.{cons as len_cons}
use text.Mathlib.TextLemmas.{nil-append, cons-append}
use ttp_protocol.Common.{
  ◌≡◌, refl, sym, ap, ◌∙◌, ◌≢◌, String, Bool, true, false, not, ◌||◌, nat_eq, List, arith, eq_refl,
}
use ttp_protocol.Service.Formats.{every_char, split_at_each, ends_with}

-- The character 10.
abbrev pub newline : Char
newline = Char.char 10 tt

abbrev pub is_one_line : String → Bool
is_one_line s = every_char (λ c. not (nat_eq c 10)) s

-- What stands before the first separator is the first part.
pub split_at_each-append :
    (s t : String)
    → is_one_line s ≡ true
    → split_at_each 10 (s ++ ("\n" ++ t)) ≡ List.◌∷◌ s (split_at_each 10 t)
unfolding split_at_each
split_at_each-append [] t h =
    let line =
      nil-append ("\n" ++ t) ∙ cons-append newline [] t ∙ ap (λ u. newline ∷ u) (nil-append t) in
    rw (line, split_at_each) refl
split_at_each-append (c ∷ s) t h =
    let rest = split_at_each-append s t (ground arith) in
    let plain : nat_eq (code c) 10 ≡ false = ground arith in
    rw (cons-append c s ("\n" ++ t), split_at_each, plain, rest) refl

or_true : (b : Bool) → (b || true) ≡ true
or_true true = refl
or_true false = refl

ends_with_self : (t : String) → ends_with t t ≡ true
ends_with_self [] = refl
ends_with_self (c ∷ t) = rw (eq_refl (c ∷ t)) refl

pub ends_with-append : (s t : String) → ends_with (s ++ t) t ≡ true
ends_with-append [] t = rw (nil-append t) (ends_with_self t)
ends_with-append (c ∷ s) t = rw (cons-append c s t, ends_with-append s t) (or_true _)

pub ends_with-append_left : (s t u : String) → ends_with t u ≡ true → ends_with (s ++ t) u ≡ true
ends_with-append_left [] t u e = rw (nil-append t) e
ends_with-append_left (c ∷ s) t u e =
    rw (cons-append c s t, ends_with-append_left s t u e) (or_true _)

width_pos : (o m n : Ordering) → width o m n ≢ 0
width_pos o m n e = ground arith

pub len-zero : (s : String) → len s ≡ 0 → s ≡ []
len-zero [] e = refl
len-zero (c ∷ s) e =
    let sum = sym (len_cons c s) ∙ e in
    let width' : len_utf8 c ≡ 0 = omega (arith, sum) in
    absurd (width_pos _ _ _ (sym (len_utf8_def c) ∙ width'))
