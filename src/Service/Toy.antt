-- ===== src/Service/Toy.antt =====
-- A toy platform, a ledger with a step-up receipt and requests, for runs of the service of
-- services/authority.
use ttp_protocol.Common.{
  String, true, false, ℕ, Option, none, some, List, [], ◌∷◌, if◌then◌else◌, ◌==◌, contains,
}
use ttp_protocol.Json.{Json, str, obj, Fields, Platform}
use ttp_protocol.Json.Values.{fields, object, array, texts}
use ttp_protocol.Json.Tests.{by_code}
use ttp_protocol.Service.{AuthorizeRequest, TrustedGrant, Host}
use ttp_protocol.Service.Approvals.{Github}
use ttp_protocol.Service.Ledger.{Entry, Ledger, Disk, wrote}
use ttp_protocol.Service.Spending.{created}
use ttp_protocol.Service.Handlers.{System, Configuration, Moment}

abbrev pub date_of : Option (Json ℕ) → Option ℕ
date_of (some (str s)) = some (if s == "later" then 100 else 10)
date_of _ = none

-- Every value is written as one word, and the hash of a text is the text.
abbrev pub platform : Platform ℕ
platform = record {
  quote = λ s. s;
  number_text = λ n. "";
  key_le = by_code;
  sha256_hex = λ s. s;
  stringify = λ v. "line";
  to_number = λ v. 0;
  parse_date = date_of;
  iso_text = λ n. "now";
}

abbrev pub commit : String
commit = "0123456789abcdef0123456789abcdef01234567"

abbrev pub id : String
id = "er-00000000-0000-0000-0000-000000000000"

-- The receipt of a step-up, as the service would finalize it first.
abbrev pub step_up_receipt : Fields ℕ
step_up_receipt = fields (
    ("receiptId", str id)
    ∷ ("subject", str "runner")
    ∷ ("action", str "pull_request.execute")
    ∷ ("resource", str "repo:o/n:pr/7")
    ∷ ("decision", str "STEP_UP")
    ∷ ("repo", str "o/n")
    ∷ ("branch", str "main")
    ∷ ("pathsTouched", texts ("policy/a" ∷ []))
    ∷ ("workflowRunId", str "12")
    ∷ ("commitSha", str commit)
    ∷ ("timestamp", str "now")
    ∷ ("chainHash", str "sha256:GENESISline")
    ∷ ("signature", str "hmac-sha256:mac")
    ∷ [])

abbrev pub text_of_json : Json ℕ → String
text_of_json (str s) = s
text_of_json _ = ""

abbrev pub host : Host ℕ
host = record {
  text = text_of_json;
  to_lower = λ s. s;
  parse_json = λ s. some (obj step_up_receipt);
  hmac_sha256 = λ secret text. "mac";
}

abbrev pub secret : Option String
secret = some "0123456789abcdef0123456789abcdef"

abbrev pub entry : Entry ℕ
entry = record { id = id; hash = "sha256:GENESISline"; contents = step_up_receipt }

abbrev pub empty_ledger : Ledger ℕ
empty_ledger = record { entries = []; last = none; bytes = 0; released = false }

abbrev pub empty_disk : Disk
empty_disk = record { text = ""; trusted = true; locked = true }

abbrev pub ledger : Ledger ℕ
ledger = record {
  entries = entry ∷ [];
  last = some "sha256:GENESISline";
  bytes = 5;
  released = false;
}

abbrev pub disk : Disk
disk = record { text = "line\n"; trusted = true; locked = true }

abbrev pub history : Json ℕ
history = array (
    object (
      ("state", str "approved")
      ∷ ("user", object (("login", str "reviewer") ∷ []))
      ∷ ("environments", array (object (("name", str "protected-execution") ∷ []) ∷ []))
      ∷ [])
    ∷ [])

abbrev pub pull_request : Json ℕ
pull_request = object (
    ("state", str "open")
    ∷ ("user", object (("login", str "author") ∷ []))
    ∷ ("head", object (("sha", str commit) ∷ ("ref", str "main") ∷ []))
    ∷ ("base", object (("repo", object (("full_name", str "o/n") ∷ [])) ∷ []))
    ∷ [])

abbrev pub github : Github ℕ
github = record {
  token = some "01234567890123456789";
  read_json = λ path. some (if contains path "/approvals" then history else pull_request);
}

abbrev pub grant : TrustedGrant ℕ
grant = record {
  subject = "runner";
  repo = "o/n";
  action = "pull_request.execute";
  branch = none;
  expires_at = "later";
  trust_score = 900_000;
  verified_at = "now";
  revoked = false;
}

abbrev pub request : String → List String → AuthorizeRequest ℕ
request action paths = record {
  subject = "runner";
  action = action;
  resource = "repo:o/n:pr/7";
  repo = "o/n";
  branch = "main";
  paths_touched = paths;
  commit_sha = commit;
  invoking_actor = "actor";
  workflow_run_id = "12";
  approval =
      some
        (record { environment = "protected-execution"; approved = true; approved_by = "reviewer" });
  attestation_ref = none;
  authority_grant_ref = some (str "grant-1");
  anomaly_score = none;
  prior_receipt_id = some (str id);
}

abbrev pub configuration : Configuration ℕ
configuration = record {
  token = "token";
  secret = secret;
  grants = ("grant-1", grant) ∷ [];
  policy = "version: 1\nprotected_paths:\n  - policy/**\n\nprotected_actions:\n  - merge to main\n";
  github = github;
  directory = record { configured = true; trusted = true };
}

abbrev pub moment : Moment
moment = record {
  now = 10;
  uuid = "11111111-1111-1111-1111-111111111111";
  creation = created;
  write = wrote 5 true;
}

abbrev pub system : System ℕ
system = record { ledger = ledger; disk = disk; spent = [] }
