-- ===== src/Isnad/Checks.antt =====
-- The tests of src/isnad.mjs, each with what it says of the values that it is about.
use ttp_protocol.Common.{
  any, is_empty, length, ◌↔◌, ◌≡◌, ◌≢◌, ◌≤◌, ◌⊎◌, inl, inr, refl, sym, ap, ◌∙◌, String, Bool, true,
  false, not, ◌&&◌, ◌||◌, ℕ, Option, none, some, List, [], ◌∷◌, Numbers, ◌==◌, eq_iff, arith,
  includes, In, here, there, In-nil, In-cons_cases, Bool-cases, or_else,
}
use ttp_protocol.Routing.{zero_num}
use ttp_protocol.Isnad.{
  Link, Chain, next_amount, leaves_gap, is_before, beyond, untrusted, kept_back, amount_failures,
  wrong_root, exceeds,
}

pub nonempty_iff : {A : Type 0} (xs : List A) → (is_empty xs ≡ false) ↔ (xs ≢ [])
nonempty_iff [] = ((λ e. cc), (λ h. absurd (h refl)))
nonempty_iff (x ∷ xs) = ((λ e same. cc), (λ h. refl))

pub present_iff : (a b : String) → ((a == "" || b == "") ≡ false) ↔ ((a ≢ "") × (b ≢ ""))
present_iff a b = (
  (λ e. (
    (λ same. ground (arith, eq_iff a "", eq_iff b "")),
    (λ same. ground (arith, eq_iff a "", eq_iff b "")),
  )),
  (λ (ha, hb). ground (arith, eq_iff a "", eq_iff b "", ha, hb)),
)

pub no_self_iff :
    (a b : String) (allow : Bool) → ((a == b && not allow) ≡ false) ↔ ((a ≢ b) ⊎ (allow ≡ true))
no_self_iff a b true = ((λ e. inr refl), (λ h. ground arith))
no_self_iff a b false = (
  (λ e. inl (λ same. ground (arith, eq_iff a b))),
  (λ h. elim h [ inl other ↦ ground (arith, eq_iff a b, other) | inr bad ↦ absurd (ground arith) ]),
)

pub continues_iff :
    (prior : Option String) (issuer : String)
    → (leaves_gap prior issuer ≡ false) ↔ ((s : String) → prior ≡ some s → issuer ≡ s)
continues_iff none issuer = ((λ e s h. cc), (λ h. refl))
continues_iff (some t) issuer =
    ((λ e s h. ground (arith, eq_iff issuer t)), (λ h. ground (arith, eq_iff issuer t, h t refl)))

pub unexpired_iff :
    (due at : Option ℕ)
    → (is_before due at ≡ false) ↔ ((d t : ℕ) → due ≡ some d → at ≡ some t → t ≤ d)
unexpired_iff none at = ((λ e d t h k. cc), (λ h. refl))
unexpired_iff (some d') none = ((λ e d t h k. cc), (λ h. refl))
unexpired_iff (some d') (some t') =
    ((λ e d t h k. ground arith), (λ h. ground (arith, h d' t' refl refl)))

pub includes-In : (xs : List String) (s : String) → includes xs s ≡ true → In s xs
includes-In [] s e = cc
includes-In (x ∷ xs) s e = elim (Bool-cases (x == s)) [
  | inl same ↦ here (ground (arith, eq_iff x s))
  | inr other ↦ there (includes-In xs s (ground arith))
]

pub In-includes : (xs : List String) (s : String) → In s xs → includes xs s ≡ true
In-includes [] s m = In-nil m
In-includes (x ∷ xs) s m = elim (In-cons_cases m) [
  | inl same ↦ ground (arith, eq_iff x s)
  | inr later ↦ ground (arith, In-includes xs s later)
]

pub in_scope_iff :
    (action : Option String) (scope : List String)
    → (beyond action scope ≡ false) ↔ ((a : String) → action ≡ some a → a ≢ "" → In a scope)
in_scope_iff none scope = ((λ e a h given. cc), (λ h. refl))
in_scope_iff (some b) scope = (
  (λ e a h given. includes-In scope a (ground (arith, eq_iff b ""))),
  (λ h. elim (Bool-cases (b == "")) [
    | inl empty' ↦ ground arith
    | inr given ↦
        ground (arith, In-includes scope b (h b refl (λ same. ground (arith, eq_iff b ""))))
  ]),
)

pub trusted_iff :
    (trusted : Option (List String)) (issuer : String)
    → (untrusted trusted issuer ≡ false)
      ↔ ((names : List String) → trusted ≡ some names → In issuer names)
trusted_iff none issuer = ((λ e names h. cc), (λ h. refl))
trusted_iff (some ns) issuer = (
  (λ e names h. includes-In names issuer (ground arith)),
  (λ h. ground (arith, In-includes ns issuer (h ns refl))),
)

pub proofs_iff : (xs : List String) → (any (λ r. r == "") xs ≡ false) ↔ (¬ In "" xs)
proofs_iff xs = (
  (λ e m. ground (arith, In-includes xs "" m)),
  (λ h. elim (Bool-cases (includes xs "")) [
    | inl found ↦ absurd (h (includes-In xs "" found))
    | inr none' ↦ none'
  ]),
)

pub onward_iff :
    (last : Bool) (transferable : Option Bool)
    → ((not last && kept_back transferable) ≡ false) ↔ (last ≡ false → transferable ≢ some false)
onward_iff true transferable = ((λ e no'. cc), (λ h. refl))
onward_iff false none = ((λ e no' h. cc), (λ h. refl))
onward_iff false (some true) = ((λ e no' h. cc), (λ h. refl))
onward_iff false (some false) = ((λ e. cc), (λ h. absurd (h refl refl)))

module _ {Num : Type 0} ⦃number : Numbers Num⦄ (date : String → Option ℕ) where
  pub root_iff :
      (root : Option String) (ls : List (Link Num))
      → (wrong_root date root ls ≡ false) ↔ (
          (a : String) (l : Link Num) (rest : List (Link Num))
          → root ≡ some a
          → a ≢ ""
          → ls ≡ l ∷ rest
          → l.issuer ≡ a)
  root_iff root [] = ((λ e a l rest h given same. cc), (λ h. refl))
  root_iff none (m ∷ ms) = ((λ e a l rest h given same. cc), (λ h. refl))
  root_iff (some b) (m ∷ ms) = (
    (λ e a l rest h given same.
        let root : b ≡ a = cc in
        let head : m ≡ l = cc in
        let issued : m.issuer ≡ b = ground (arith, eq_iff b "", eq_iff m.issuer b) in
        sym (ap (λ x. x.issuer) head) ∙ (issued ∙ root)),
    (λ h. elim (Bool-cases (b == "")) [
      | inl empty' ↦ ground arith
      | inr given ↦
          let issued = h b m ms refl (λ same. ground (arith, eq_iff b "")) refl in
          ground (arith, eq_iff m.issuer b)
    ]),
  )

  pub exceeds_iff :
      (limit : Option Num) (ls : List (Link Num))
      → (exceeds date limit ls ≡ false)
        ↔ ((most : Num) → limit ≡ some most → number.lt most (number.decimal (length ls) 0) ≡ false)
  exceeds_iff none ls = ((λ e most h. cc), (λ h. refl))
  exceeds_iff (some limit) ls = ((λ e most h. cc), (λ h. h limit refl))

  -- An amount is a number from 0 to 1 and not below the minimum.
  pub record IsAmount (i : Chain Num) (stated : Option Num) : Type 0 where
    pub amount : Num
    pub is_number : stated ≡ some amount
    pub not_negative : number.lt amount zero_num ≡ false
    pub at_most_one : number.lt (number.decimal 1 0) amount ≡ false
    pub not_weak : number.lt amount (or_else i.min_link_trust zero_num) ≡ false

  -- Where trust must not grow, an amount is not above the one before.
  abbrev pub Attenuates : Chain Num → Option Num → Option Num → Type 0
  Attenuates i previous stated =
      i.enforce_monotonic ≡ true
      → (a b : Num) → previous ≡ some a
      → stated ≡ some b
      → number.lt a b ≡ false

  pub amount_failures-IsAmount :
      (i : Chain Num) (previous stated : Option Num)
      → amount_failures date i previous stated ≡ []
      → IsAmount i stated × Attenuates i previous stated
  unfolding amount_failures
  amount_failures-IsAmount i previous none e = cc
  amount_failures-IsAmount i previous (some b) e = (
    record {
      amount = b;
      is_number = refl;
      not_negative = ground arith;
      at_most_one = ground arith;
      not_weak = ground arith;
    },
    (λ on a c before now. ground arith),
  )

  pub next_amount-IsAmount :
      (i : Chain Num) (previous stated : Option Num)
      → IsAmount i stated
      → next_amount date previous stated ≡ stated
  next_amount-IsAmount i previous stated h = rw (h.is_number, h.not_negative, h.at_most_one) refl

  pub IsAmount-amount_failures :
      (i : Chain Num) (previous stated : Option Num)
      → IsAmount i stated
      → Attenuates i previous stated
      → amount_failures date i previous stated ≡ []
  unfolding amount_failures
  IsAmount-amount_failures i none stated h kept =
      rw (h.is_number, h.not_negative, h.at_most_one, h.not_weak) (ground arith)
  IsAmount-amount_failures i (some a) stated h kept =
      let below : i.enforce_monotonic ≡ true → number.lt a h.amount ≡ false =
        λ on. kept on a h.amount refl h.is_number in
      rw (h.is_number, h.not_negative, h.at_most_one, h.not_weak) (ground arith)
