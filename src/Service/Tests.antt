-- ===== src/Service/Tests.antt =====
-- Requests to the service of services/authority on a toy platform, and the theorems at them.
use ttp_protocol.Common.{
  ◌≡◌, ◌≢◌, refl, String, true, false, ℕ, none, some, List, [], ◌∷◌, millionths, text_ne, here, inl,
  inr, ◌⊎◌,
}
use ttp_protocol.Json.{str, Fields}
use ttp_protocol.Json.Values.{set, fields}
use ttp_protocol.Service.{AuthorizeRequest, permit}
use ttp_protocol.Service.Formats.{
  is_number_text, is_commit, is_receipt_id, is_opaque_id, is_repo, pull_request_of, split_at_each,
  split_lines,
}
use ttp_protocol.Service.Policy.{
  trim, read_lines, read_list_from_yaml, load_protected_policy, is_protected_path,
  touches_protected, risk_class,
}
use ttp_protocol.Service.Approvals.{
  approves, assess_approval_history, assess_pull_request, verify_independent_github_approval,
}
use ttp_protocol.Service.Signer.{chain_hash, sign_receipt, finalize_receipt}
use ttp_protocol.Service.Ledger.{
  Fault, wrote, verify_record, has_id, get_entry, read_entries, open_receipt_ledger, write_entry,
  append, close, short_write,
}
use ttp_protocol.Service.Spending.{consume_step_up_receipt}
use ttp_protocol.Service.Grants.{grant_refused, verified_grant, context_of}
use ttp_protocol.Service.Decide.{
  World, Answer, is_mismatch, redeem, reauthorize_prior, reauthorize, decide_by_policy, decide,
}
use ttp_protocol.Service.Handlers.{decided, receipt_base, world_of, record_answer, authorize}
use ttp_protocol.Service.Permits.{IsRoutine, decide-permit_iff}
use ttp_protocol.Service.Entitled.{IsEntitled}
use ttp_protocol.Service.Stored.{IsStored, start, after, appended, Reach-IsStored, text_of}
use ttp_protocol.Service.Reopened.{open-close}
use ttp_protocol.Service.Appends.{log_of, append_refines, torn_write_stops}
use ttp_protocol.Service.Finalized.{entry_of, append-finalize_receipt}
use ttp_protocol.Service.Protected.{protected_needs_approval}
use ttp_protocol.Service.Runs.{idle, redeemed_once}
use ttp_protocol.Service.Recorded.{IsRecorded, decided-IsRecorded}
use ttp_protocol.Service.Toy.{
  platform, id, step_up_receipt, host, secret, empty_ledger, empty_disk, ledger, disk, grant,
  request, configuration, moment, system,
}

runs : Unit {0}
unfolding is_number_text is_commit is_receipt_id is_opaque_id is_repo pull_request_of split_at_each
    split_lines trim read_lines read_list_from_yaml load_protected_policy is_protected_path
    touches_protected risk_class approves assess_approval_history assess_pull_request
    verify_independent_github_approval chain_hash sign_receipt finalize_receipt verify_record has_id
    get_entry read_entries open_receipt_ledger write_entry append close consume_step_up_receipt
    grant_refused verified_grant context_of is_mismatch redeem reauthorize_prior reauthorize
    decide_by_policy decide receipt_base record_answer authorize
runs = tt

abbrev world : World ℕ
world = world_of ⦃number = millionths⦄ platform host configuration moment system

patterns_read : world.patterns ≡ "policy/**" ∷ []
unfolding runs
patterns_read = refl

stored : IsStored ⦃number = millionths⦄ platform host secret ledger disk
unfolding runs
stored = record { rest = ""; text = refl; bytes = refl; last = refl; verified = (refl, (refl, tt)) }

empty_stored : IsStored ⦃number = millionths⦄ platform host secret empty_ledger empty_disk
empty_stored = record { rest = ""; text = refl; bytes = refl; last = refl; verified = tt }

entitled :
    (action : String) (paths : List String)
    → action ≡ "pull_request.execute"
    → IsEntitled ⦃number = millionths⦄ platform host world
        (request "pull_request.execute" paths)
        grant
unfolding runs
entitled action paths e = record {
  ref = "grant-1";
  named = refl;
  unrevoked = refl;
  subject = refl;
  repo = refl;
  branch = refl;
  action = refl;
  unexpired = refl;
  begun = refl;
  score = refl;
}

routine :
    IsRoutine ⦃number = millionths⦄ platform host world
      (request "pull_request.execute" ("docs/a" ∷ []))
      grant
unfolding runs
routine = record { fresh = refl; not_critical = refl; trusted = refl }

decide-permit_iff_example :
    (decide ⦃number = millionths⦄ platform host world
      (request "pull_request.execute" ("docs/a" ∷ []))
      []).0.decision
    ≡ permit
decide-permit_iff_example =
    (decide-permit_iff ⦃number = millionths⦄ platform host world
        (request "pull_request.execute" ("docs/a" ∷ [])) []).1
      (
        grant,
        (
          record {
            subject_given = refl;
            action_given = refl;
            resource_given = refl;
            entitled = entitled _ ("docs/a" ∷ []) refl;
          },
          inl (text_ne "pull_request.execute" "merge request reauthorize" refl, routine),
        ),
      )

protected_needs_approval_example :
    (decide ⦃number = millionths⦄ platform host
      (record world { patterns = "policy/**" ∷ [] })
      (request "pull_request.execute" ("policy/a" ∷ []))
      []).0.decision
    ≢ permit
protected_needs_approval_example =
    protected_needs_approval ⦃number = millionths⦄ platform host
      (record world { patterns = "policy/**" ∷ [] })
      (request "pull_request.execute" ("policy/a" ∷ [])) [] "policy" "a" (here refl) (here refl)
      (text_ne "pull_request.execute" "merge request reauthorize" refl)

Reach-IsStored_example :
    IsStored ⦃number = millionths⦄ platform host secret
      (append ⦃number = millionths⦄ platform host secret
        (wrote 5 true)
        step_up_receipt
        empty_ledger
        empty_disk).1.0
      (append ⦃number = millionths⦄ platform host secret
        (wrote 5 true)
        step_up_receipt
        empty_ledger
        empty_disk).1.1
Reach-IsStored_example =
    Reach-IsStored ⦃number = millionths⦄ platform host secret empty_ledger empty_disk _ _
      empty_stored (after start (appended (wrote 5 true) step_up_receipt))

open-close_example :
    open_receipt_ledger ⦃number = millionths⦄ platform host secret
      (close ⦃number = millionths⦄ platform host secret ledger disk).1
    ≡ (inr ledger, record disk { locked = true })
open-close_example =
    open-close ⦃number = millionths⦄ platform host secret ledger disk stored refl refl refl
      (record { reads = refl; one_line = refl; given = refl }, tt)

append_refines_example :
    ((append ⦃number = millionths⦄ platform host secret
          (wrote 5 true)
          step_up_receipt
          empty_ledger
          empty_disk).0
        ≡ none)
      × ((log_of
              (append ⦃number = millionths⦄ platform host secret
                (wrote 5 true)
                step_up_receipt
                empty_ledger
                empty_disk).1.0
            ≡ step_up_receipt ∷ [])
          × ((append ⦃number = millionths⦄ platform host secret
                (wrote 5 true)
                step_up_receipt
                empty_ledger
                empty_disk).1.1.text
              ≡ text_of ⦃number = millionths⦄ platform host secret
                  (append ⦃number = millionths⦄ platform host secret
                    (wrote 5 true)
                    step_up_receipt
                    empty_ledger
                    empty_disk).1.0.entries))
    ⊎ ((fault : Fault) × (((append ⦃number = millionths⦄ platform host secret
              (wrote 5 true)
              step_up_receipt
              empty_ledger
              empty_disk).0
            ≡ some fault)
          × (log_of
                (append ⦃number = millionths⦄ platform host secret
                  (wrote 5 true)
                  step_up_receipt
                  empty_ledger
                  empty_disk).1.0
              ≡ [])))
append_refines_example =
    append_refines ⦃number = millionths⦄ platform host secret (wrote 5 true) step_up_receipt
      empty_ledger empty_disk empty_stored

some_ne : {A : Type 0} (a : A) → some a ≢ none
some_ne a e = cc

torn :
    ((append ⦃number = millionths⦄ platform host secret
        (wrote 2 true)
        step_up_receipt
        empty_ledger
        empty_disk).0
      ≢ none)
    × ((append ⦃number = millionths⦄ platform host secret
          (wrote 2 true)
          step_up_receipt
          empty_ledger
          empty_disk).1.1.text
        ≢ "")
unfolding runs
torn = (some_ne short_write, text_ne "li" "" refl)

torn_write_stops_example :
    ((append ⦃number = millionths⦄ platform host secret
        (wrote 2 true)
        step_up_receipt
        empty_ledger
        empty_disk).1.0.entries
      ≡ [])
    × ((append ⦃number = millionths⦄ platform host secret
          (wrote 2 true)
          step_up_receipt
          empty_ledger
          empty_disk).1.1.text
        ≡ (append ⦃number = millionths⦄ platform host secret
            (wrote 2 true)
            step_up_receipt
            empty_ledger
            empty_disk).1.1.text)
torn_write_stops_example =
    torn_write_stops ⦃number = millionths⦄ platform host secret (wrote 2 true) step_up_receipt
      empty_ledger empty_disk _ _ empty_stored torn.0 torn.1 start

finalized :
    finalize_receipt platform host secret (fields (("receiptId", str id) ∷ [])) none
    ≡ some (
        fields (
          ("receiptId", str id)
          ∷ ("chainHash", str "sha256:GENESISline")
          ∷ ("signature", str "hmac-sha256:mac")
          ∷ []))
unfolding runs
finalized = refl

shaped : (is_receipt_id id ≡ true) × (has_id ⦃number = millionths⦄ (some (str id)) [] ≡ false)
unfolding runs
shaped = (refl, refl)

append-finalize_receipt_example :
    ((append ⦃number = millionths⦄ platform host secret
        (wrote 5 true)
        (fields (
          ("receiptId", str id)
          ∷ ("chainHash", str "sha256:GENESISline")
          ∷ ("signature", str "hmac-sha256:mac")
          ∷ []))
        empty_ledger
        empty_disk).0
      ≡ none)
    × ((append ⦃number = millionths⦄ platform host secret
          (wrote 5 true)
          (fields (
            ("receiptId", str id)
            ∷ ("chainHash", str "sha256:GENESISline")
            ∷ ("signature", str "hmac-sha256:mac")
            ∷ []))
          empty_ledger
          empty_disk).1.0.entries
        ≡ entry_of ⦃number = millionths⦄ platform host secret id none
            (fields (("receiptId", str id) ∷ []))
            (fields (
              ("receiptId", str id)
              ∷ ("chainHash", str "sha256:GENESISline")
              ∷ ("signature", str "hmac-sha256:mac")
              ∷ []))
          ∷ [])
append-finalize_receipt_example =
    append-finalize_receipt ⦃number = millionths⦄ platform host secret
      (fields (("receiptId", str id) ∷ [])) id
      (fields (
        ("receiptId", str id)
        ∷ ("chainHash", str "sha256:GENESISline")
        ∷ ("signature", str "hmac-sha256:mac")
        ∷ []))
      empty_ledger empty_disk finalized refl refl refl shaped.0 shaped.1 refl refl refl

redeemed :
    (decide ⦃number = millionths⦄ platform host world
      (request "merge request reauthorize" ("policy/a" ∷ []))
      []).0.decision
    ≡ permit
unfolding runs
redeemed = refl

redeemed_once_example :
    (decide ⦃number = millionths⦄ platform host
      (world_of ⦃number = millionths⦄ platform host configuration moment
        (authorize ⦃number = millionths⦄ platform host configuration moment
          (request "merge request reauthorize" ("policy/a" ∷ []))
          system).1)
      (request "merge request reauthorize" ("policy/a" ∷ []))
      (authorize ⦃number = millionths⦄ platform host configuration moment
        (request "merge request reauthorize" ("policy/a" ∷ []))
        system).1.spent).0.decision
    ≢ permit
redeemed_once_example =
    redeemed_once ⦃number = millionths⦄ platform host configuration moment moment
      (request "merge request reauthorize" ("policy/a" ∷ []))
      (request "merge request reauthorize" ("policy/a" ∷ [])) system _ refl redeemed idle refl refl

abbrev redeeming : AuthorizeRequest ℕ
redeeming = request "merge request reauthorize" ("policy/a" ∷ [])

abbrev told_answer : Answer ℕ
told_answer = (decide ⦃number = millionths⦄ platform host world redeeming []).0

abbrev told_receipt : Fields ℕ
told_receipt = set "signature" (str "hmac-sha256:mac") (
    set "chainHash" (str "sha256:sha256:GENESISlineline")
      (receipt_base ⦃number = millionths⦄ platform host moment redeeming told_answer))

told :
    (authorize ⦃number = millionths⦄ platform host configuration moment redeeming system).0
    ≡ decided told_answer told_receipt
unfolding runs
told = refl

decided-IsRecorded_example :
    IsRecorded ⦃number = millionths⦄ platform host configuration moment redeeming system
      (authorize ⦃number = millionths⦄ platform host configuration moment redeeming system).1
      told_answer
      told_receipt
decided-IsRecorded_example =
    decided-IsRecorded ⦃number = millionths⦄ platform host configuration system system moment
      redeeming told_answer told_receipt stored idle told
