-- ===== src/Service/Formats.antt =====
-- The regular expressions and length tests of services/authority, and `safeRequest` of index.ts.
use Prim.Native.Char.{Char, code}
use Prim.Native.String.{[], ◌∷◌, count, len, slice}
use text.Mathlib.Text.{starts_with}
use ttp_protocol.Common.{
  String, Bool, true, false, not, ◌&&◌, ◌||◌, ℕ, ◌+◌, leb, ltb, nat_eq, Option, none, some, List,
  if◌then◌else◌, ◌==◌, length, ◌>>=◌,
}
use ttp_protocol.Json.{Json, null, bool, str, arr, obj, Items, nil, cons}
use ttp_protocol.Json.Values.{get}
use ttp_protocol.Service.{Approval, AuthorizeRequest}

-- `s.length`, in code units of UTF-16.
abbrev pub units : String → ℕ
units [] = 0
units (c ∷ s) = (if ltb (code c) 65536 then 1 else 2) + units s

abbrev pub every_char : (ℕ → Bool) → String → Bool
every_char p [] = true
every_char p (c ∷ s) = p (code c) && every_char p s

abbrev pub on_first_line : Char → List String → List String
on_first_line c List.[] = List.[]
on_first_line c (List.◌∷◌ line lines) = List.◌∷◌ (c ∷ line) lines

-- `text.split(c)`, where c is one character.
unfoldable pub split_at_each : ℕ → String → List String
split_at_each at' [] = List.◌∷◌ [] List.[]
split_at_each at' (c ∷ s) =
    let rest = split_at_each at' s in
    if nat_eq (code c) at' then List.◌∷◌ [] rest else on_first_line c rest

-- `text.split("\n")`. The policy is split at \r\n as well: there the \r stays, and is trimmed away.
unfoldable pub split_lines : String → List String
unfolding split_at_each
split_lines = split_at_each 10

abbrev pub ends_with : String → String → Bool
ends_with [] suffix = [] == suffix
ends_with (c ∷ s) suffix = (c ∷ s) == suffix || ends_with s suffix

-- `[0-9]`
abbrev pub is_digit : ℕ → Bool
is_digit c = leb b'0' c && leb c b'9'

-- `[0-9a-fA-F]`
abbrev pub is_hex : ℕ → Bool
is_hex c = is_digit c || leb b'a' c && leb c b'f' || leb b'A' c && leb c b'F'

-- `[A-Za-z0-9_.-]`
abbrev pub is_name_char : ℕ → Bool
is_name_char c =
    is_digit c
    || leb b'a' c && leb c b'z'
    || leb b'A' c && leb c b'Z'
    || nat_eq c b'_'
    || nat_eq c b'.'
    || nat_eq c b'-'

-- `/^[0-9]+$/`
unfoldable pub is_number_text : String → Bool
is_number_text s = not (s == "") && every_char is_digit s

-- `/^[0-9a-f]{40}$/i`
unfoldable pub is_commit : String → Bool
is_commit s = nat_eq (count s) 40 && every_char is_hex s

-- `/^er-[0-9a-f-]{36}$/i`; the flag folds the two letters of the prefix as well.
unfoldable pub is_receipt_id : String → Bool
is_receipt_id s =
    let prefix = slice s 0 3 in
    (prefix == "er-" || prefix == "Er-" || prefix == "eR-" || prefix == "ER-")
    && nat_eq (count s) 39
    && every_char (λ c. is_hex c || nat_eq c b'-') (slice s 3 (len s))

-- `/^[A-Za-z0-9._:-]{1,128}$/`
unfoldable pub is_opaque_id : String → Bool
is_opaque_id s =
    leb 1 (count s) && leb (count s) 128 && every_char (λ c. is_name_char c || nat_eq c b':') s

-- What stands before and after the first character `c`.
abbrev pub split_first : ℕ → String → Option (String × String)
split_first c [] = none
split_first c (d ∷ s) =
    if nat_eq c (code d)
    then some ([], s)
    else elim (split_first c s) [ none ↦ none | some (before, after) ↦ some (d ∷ before, after) ]

-- `[A-Za-z0-9_.-]+`
abbrev pub is_name : String → Bool
is_name s = not (s == "") && every_char is_name_char s

abbrev pub both_names : Option (String × String) → Bool
both_names none = false
both_names (some (owner, name)) = is_name owner && is_name name

-- `/^[A-Za-z0-9_.-]+\/[A-Za-z0-9_.-]+$/`
unfoldable pub is_repo : String → Bool
is_repo s = both_names (split_first b'/' s)

-- The captures of `/^repo:([A-Za-z0-9_.-]+\/[A-Za-z0-9_.-]+):pr\/([0-9]+)$/`.
unfoldable pub pull_request_of : String → Option (String × String)
pull_request_of s =
    if starts_with s "repo:"
    then elim (split_first b':' (slice s 5 (len s))) [
      | none ↦ none
      | some (repo, rest) ↦
          let digits = slice rest 3 (len rest) in
          if is_repo repo && starts_with rest "pr/" && is_number_text digits
          then some (repo, digits)
          else none
    ]
    else none

-- The texts of an array, if all elements are strings that are not empty and shorter than 4096.
abbrev pub path_items : {Num : Type 0} → Items Num → Option (List String)
path_items nil = some List.[]
path_items (cons (str s) rest) = elim (path_items rest) [
  | none ↦ none
  | some paths ↦ if not (s == "") && ltb (units s) 4096 then some (List.◌∷◌ s paths) else none
]
path_items (cons _ rest) = none

abbrev pub paths_of : {Num : Type 0} → Option (Json Num) → Option (List String)
paths_of (some (arr xs)) = elim (path_items xs) [
  | none ↦ none
  | some paths ↦ if leb 1 (length paths) && ltb (length paths) 3001 then some paths else none
]
paths_of _ = none

abbrev pub string_of : {Num : Type 0} → Option (Json Num) → Option String
string_of (some (str s)) = some s
string_of _ = none

-- `some none` is an approval that is not given, `none` one that is refused.
abbrev pub approval_of : {Num : Type 0} → Option (Json Num) → Option (Option Approval)
approval_of none = some none
approval_of (some null) = some none
approval_of (some (obj fs)) =
    read_approval (get fs "approved") (get fs "approvedBy") (get fs "environment")
  where
    read_approval :
        {Num : Type 0}
        → Option (Json Num)
        → Option (Json Num)
        → Option (Json Num)
        → Option (Option Approval)
    read_approval (some (bool approved)) (some (str by)) (some (str environment)) =
        if not (by == "") && leb (units by) 128
        then some
            (some (record { environment = environment; approved = approved; approved_by = by }))
        else none
    read_approval _ _ _ = none
approval_of _ = none

-- `safeRequest`, with the request that the body is read as.
unfoldable pub safe_request : {Num : Type 0} → Json Num → Option (AuthorizeRequest Num)
safe_request (obj fs) = do
  subject ← string_of (get fs "subject")
  action ← string_of (get fs "action")
  resource ← string_of (get fs "resource")
  repo ← string_of (get fs "repo")
  branch ← string_of (get fs "branch")
  commit ← string_of (get fs "commitSha")
  run ← string_of (get fs "workflowRunId")
  actor ← string_of (get fs "invokingActor")
  paths ← paths_of (get fs "pathsTouched")
  approval ← approval_of (get fs "approval")
  if not (subject == "") && is_commit commit && is_number_text run
      then some (record {
        subject = subject;
        action = action;
        resource = resource;
        repo = repo;
        branch = branch;
        paths_touched = paths;
        commit_sha = commit;
        invoking_actor = actor;
        workflow_run_id = run;
        approval = approval;
        attestation_ref = get fs "attestationRef";
        authority_grant_ref = get fs "authorityGrantRef";
        anomaly_score = get fs "anomalyScore";
        prior_receipt_id = get fs "priorReceiptId";
      })
      else none
safe_request _ = none
