-- ===== src/Isnad.antt =====
-- src/isnad.mjs: whether a chain of trust transmissions from a root authority to a subject is valid; its
-- effective trust and its hash are not modelled. `Checks` has the lemmas on its tests, `Sound` those on
-- chains.
mod Checks
pub mod Sound
pub mod Tests
use ttp_protocol.Common.{
  String, Bool, true, false, not, ◌&&◌, ◌||◌, ℕ, ltb, Option, none, some, List, [], ◌∷◌, ◌++◌, any,
  length, includes, is_empty, fail_if, if◌then◌else◌, or_else, ◌==◌, opt_eq, Numbers,
}
use ttp_protocol.Routing.{zero_num}
use ttp_protocol.Trust.{clamp01}

pub data Failure : Type 0 where
  empty_chain too_long root_mismatch missing_identity self_transmission gap expired : Failure
  out_of_scope not_transferable untrusted_narrator invalid_proof_ref invalid_amount : Failure
  weak_link trust_amplified : Failure

-- An amount that is no number is `none`.
pub record Link (Num : Type 0) : Type 0 where
  pub issuer : String
  pub subject : String
  pub expires_at : String
  pub scope : List String
  pub transferable : Option Bool
  pub proof_refs : List String
  pub amount : Option Num

pub record Chain (Num : Type 0) : Type 0 where
  pub links : List (Link Num)
  pub root_authority : Option String
  pub requested_action : Option String
  pub min_link_trust : Option Num
  pub trusted_authorities : Option (List String)
  pub max_length : Option Num
  pub current_time : String
  pub allow_self : Bool
  pub enforce_monotonic : Bool

-- A text that is given and not empty, and differs from `b`.
abbrev pub given_other : Option String → String → Bool
given_other none b = false
given_other (some a) b = not (a == "") && not (b == a)

-- `idx > 0 && l.issuer !== links[idx-1].subject`
abbrev pub leaves_gap : Option String → String → Bool
leaves_gap none issuer = false
leaves_gap (some subject) issuer = not (issuer == subject)

-- `new Date(expiresAt) < new Date(currentTime)`, false where one is no date.
abbrev pub is_before : Option ℕ → Option ℕ → Bool
is_before (some a) (some b) = ltb a b
is_before _ _ = false

-- `action && !scope.includes(action)`
abbrev pub beyond : Option String → List String → Bool
beyond none scope = false
beyond (some action) scope = not (action == "") && not (includes scope action)

abbrev pub untrusted : Option (List String) → String → Bool
untrusted none issuer = false
untrusted (some names) issuer = not (includes names issuer)

abbrev pub kept_back : Option Bool → Bool
kept_back (some b) = not b
kept_back none = false

module _ {Num : Type 0} ⦃number : Numbers Num⦄ (date : String → Option ℕ) where
  -- `amt > prevAmt`, where no amount yet is Infinity.
  abbrev pub amplifies : Option Num → Num → Bool
  amplifies none amount = false
  amplifies (some previous) amount = number.lt previous amount

  abbrev pub in_unit : Num → Bool
  in_unit amount = not (number.lt amount zero_num) && not (number.lt (number.decimal 1 0) amount)

  unfoldable pub amount_failures : Chain Num → Option Num → Option Num → List Failure
  amount_failures i previous none = invalid_amount ∷ []
  amount_failures i previous (some amount) =
      if in_unit amount
      then fail_if (number.lt amount (or_else i.min_link_trust zero_num)) weak_link
        ++ fail_if (i.enforce_monotonic && amplifies previous amount) trust_amplified
      else invalid_amount ∷ []

  -- `prevAmt` after a link: an invalid amount leaves it.
  abbrev pub next_amount : Option Num → Option Num → Option Num
  next_amount previous none = previous
  next_amount previous (some amount) = if in_unit amount then some amount else previous

  -- The body of the loop, after a link that ends at `prior`.
  unfoldable pub link_failures :
      Chain Num → Option String → Option Num → Bool → Link Num → List Failure
  link_failures i prior previous last l =
      fail_if (l.issuer == "" || l.subject == "") missing_identity
      ++ (fail_if (l.issuer == l.subject && not i.allow_self) self_transmission
          ++ (fail_if (leaves_gap prior l.issuer) gap
              ++ (fail_if (is_before (date l.expires_at) (date i.current_time)) expired
                  ++ (fail_if (beyond i.requested_action l.scope) out_of_scope
                      ++ (fail_if (not last && kept_back l.transferable) not_transferable
                          ++ (fail_if (untrusted i.trusted_authorities l.issuer) untrusted_narrator
                              ++ (fail_if (any (λ r. r == "") l.proof_refs) invalid_proof_ref
                                  ++ amount_failures i previous l.amount)))))))

  unfoldable pub links_failures :
      Chain Num → Option String → Option Num → List (Link Num) → List Failure
  links_failures i prior previous [] = []
  links_failures i prior previous (l ∷ ls) =
      link_failures i prior previous (is_empty ls) l
      ++ links_failures i (some l.subject) (next_amount previous l.amount) ls

  abbrev pub wrong_root : Option String → List (Link Num) → Bool
  wrong_root root [] = false
  wrong_root root (l ∷ ls) = given_other root l.issuer

  abbrev pub exceeds : Option Num → List (Link Num) → Bool
  exceeds none ls = false
  exceeds (some limit) ls = number.lt limit (number.decimal (length ls) 0)

  unfoldable pub chain_failures : Chain Num → List Failure
  chain_failures i =
      fail_if (is_empty i.links) empty_chain
      ++ (fail_if (exceeds i.max_length i.links) too_long
          ++ (fail_if (wrong_root i.root_authority i.links) root_mismatch
              ++ links_failures i none none i.links))

  -- `valid` of `verify_isnad_chain`.
  unfoldable pub verify_isnad_chain : Chain Num → Bool
  unfolding chain_failures
  verify_isnad_chain i = is_empty (chain_failures i)
