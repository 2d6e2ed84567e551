-- ===== src/Isnad/Tests.antt =====
-- A chain of two links, and the theorem on chains at it.
use ttp_protocol.Common.{◌≡◌, refl, String, true, false, ℕ, Option, none, some, [], ◌∷◌, millionths}
use ttp_protocol.Json.Tests.{text_length}
use ttp_protocol.Isnad.{
  Link, Chain, amount_failures, link_failures, links_failures, chain_failures, verify_isnad_chain,
}
use ttp_protocol.Isnad.Sound.{IsSound, verify_isnad_chain_iff}

-- A date is as late as its text is long.
abbrev date : String → Option ℕ
date t = some (text_length t)

abbrev link : String → String → ℕ → Link ℕ
link issuer subject amount = record {
  issuer = issuer;
  subject = subject;
  expires_at = "111";
  scope = "pay" ∷ [];
  transferable = none;
  proof_refs = "ref" ∷ [];
  amount = some amount;
}

abbrev chain : Chain ℕ
chain = record {
  links = link "root" "bank" 900_000 ∷ link "bank" "agent" 800_000 ∷ [];
  root_authority = some "root";
  requested_action = some "pay";
  min_link_trust = none;
  trusted_authorities = none;
  max_length = none;
  current_time = "1";
  allow_self = false;
  enforce_monotonic = true;
}

chain_is_valid : verify_isnad_chain ⦃number = millionths⦄ date chain ≡ true
unfolding verify_isnad_chain chain_failures links_failures link_failures amount_failures
chain_is_valid = refl

verify_isnad_chain_iff_example : IsSound ⦃number = millionths⦄ date chain
verify_isnad_chain_iff_example =
    (verify_isnad_chain_iff ⦃number = millionths⦄ date chain).0 chain_is_valid

-- A chain whose second amount is above the first.
abbrev growing : Chain ℕ
growing = record chain { links = link "root" "bank" 800_000 ∷ link "bank" "agent" 900_000 ∷ [] }

growing_is_refused : verify_isnad_chain ⦃number = millionths⦄ date growing ≡ false
unfolding verify_isnad_chain chain_failures links_failures link_failures amount_failures
growing_is_refused = refl
