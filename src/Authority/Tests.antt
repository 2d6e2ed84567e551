-- ===== src/Authority/Tests.antt =====
-- Issuing and verifying on a toy platform, whose signatures are the key followed by the text.
use Prim.Native.String.{String, ◌++◌, ◌∷◌}
use ttp_protocol.Common.{
  ◌≡◌, refl, ap, ◌≢◌, ◌↔◌, inr, ℕ, true, false, none, some, arith, eq_refl, millionths, ◌==◌,
}
use mathlib.Core.List
use ttp_protocol.Json.{str, null, bool, num, end, field}
use ttp_protocol.Json.Tests.{toy_platform, unary, text_length-unary}
use ttp_protocol.Signing.{Crypto, KeyPair, key_id_for}
use ttp_protocol.Authority.{Authority, Execution, Options, seen, verify_authority}
use ttp_protocol.Authority.Accepts.{
  IsAccepted, verify_authority-allowed_iff, allowed-signer_verified,
}
use ttp_protocol.Authority.Issue.{Issue, envelope_of, seal, issue_authority}
use ttp_protocol.Authority.RoundTrip.{IsKeyPair, verify_authority-issue_authority}
use ttp_protocol.Authority.Replay.{verify_once}
use ttp_protocol.Boundary.{Boundary, present, verify, run}

abbrev pub toy_crypto : Crypto String
toy_crypto = record {
  public_text = some;
  sign = λ key text. "k" ∷ (key ++ text);
  verify = λ text signature key. signature == ("k" ∷ (key ++ text));
}

abbrev pub signer : KeyPair String
signer = record { private_key = "7"; public_key = "7"; key_id = "ed25519:7" }

cons-ne-nil : (s : String) → ("k" ∷ s) ≢ ""
cons-ne-nil s e = cc

signer-IsKeyPair : IsKeyPair ⦃number = millionths⦄ toy_platform toy_crypto signer
unfolding key_id_for
signer-IsKeyPair = record {
  verifies = λ text. eq_refl ("k" ∷ ("7" ++ text));
  nonempty = λ text. cons-ne-nil ("7" ++ text);
  named = refl;
}

abbrev refund : Issue ℕ
refund = record {
  principal = str "acme";
  delegator = null;
  session = null;
  action = "crm.refund";
  target = "order 1";
  params = field "amount" (num 3) end;
  constraints = field "requiresApproval" (bool true) end;
  policy_version = str "local-v1";
  consequence = str "MONEY_MOVED";
  route_id = null;
  route_hash = null;
  valid_for_seconds = 1;
  issued_at = "11";
}

abbrev issued : Authority ℕ String
issued =
    seal ⦃number = millionths⦄ toy_platform toy_crypto
      (envelope_of ⦃number = millionths⦄ toy_platform toy_crypto refund (unary 1002) "nonce" signer)
      signer

abbrev pinning : Options ℕ String
pinning = record { now = str "1111"; public_key = some "7"; trusted_key_ids = none }

abbrev run_it : Execution ℕ
run_it = record {
  action = "crm.refund";
  target = "order 1";
  principal = some "acme";
  params = field "amount" (num 3) end;
  approval = some (str "cfo");
}

verify_authority-issue_authority_example :
    (verify_authority ⦃number = millionths⦄ toy_platform toy_crypto pinning run_it
      (some issued)
      (some List.[])).0.allowed
    ≡ true
unfolding issue_authority seen
verify_authority-issue_authority_example =
    verify_authority-issue_authority ⦃number = millionths⦄ toy_platform toy_crypto refund "nonce"
      signer (str "1111") "acme" (some (str "cfo")) (some List.[]) issued 2 4 signer-IsKeyPair
      (λ t. ap some (text_length-unary t))
      (record { all_material = refl; no_exclusions = refl; no_limits = refl }) (refl, tt) refl refl
      refl refl (omega arith) (omega arith) (inr refl) refl

verify_authority-allowed_iff_example :
    ((verify_authority ⦃number = millionths⦄ toy_platform toy_crypto pinning run_it
        (some issued)
        (some List.[])).0.allowed
      ≡ true)
    ↔ IsAccepted ⦃number = millionths⦄ toy_platform toy_crypto pinning run_it issued (some List.[])
verify_authority-allowed_iff_example =
    verify_authority-allowed_iff ⦃number = millionths⦄ toy_platform toy_crypto pinning run_it issued
      (some List.[])

allowed-signer_verified_example :
    ((verify_authority ⦃number = millionths⦄ toy_platform toy_crypto pinning run_it
        (some issued)
        (some List.[])).0.signer_verified
      ≡ some true)
    × ((verify_authority ⦃number = millionths⦄ toy_platform toy_crypto pinning run_it
          (some issued)
          (some List.[])).0.warns_unpinned
        ≡ false)
allowed-signer_verified_example =
    allowed-signer_verified ⦃number = millionths⦄ toy_platform toy_crypto pinning run_it issued
      (some List.[]) verify_authority-issue_authority_example

abbrev gate : Boundary String
gate = record { trusted_key_ids = none; public_key = some "7"; name = "pctr.effect-boundary" }

-- The same authority is presented a second time, after a call without any.
verify_once_example :
    (verify ⦃number = millionths⦄ toy_platform toy_crypto gate
      (present issued run_it (str "1111"))
      (run ⦃number = millionths⦄ toy_platform toy_crypto gate
        (List.◌∷◌ (record { authority = none; execution = run_it; now = null }) List.[])
        (verify ⦃number = millionths⦄ toy_platform toy_crypto gate
          (present issued run_it (str "1111"))
          (some List.[])).1)).0.allowed
    ≡ false
unfolding verify envelope_of seal
verify_once_example =
    verify_once ⦃number = millionths⦄ toy_platform toy_crypto gate issued issued run_it run_it
      (str "1111") (str "1111") "nonce" List.[]
      (List.◌∷◌ (record { authority = none; execution = run_it; now = null }) List.[]) refl refl
      verify_authority-issue_authority_example
