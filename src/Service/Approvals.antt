-- ===== src/Service/Approvals.antt =====
-- services/authority/approvalVerifier.ts: an approval is looked up at GitHub, which is a parameter.
-- Where the source throws, the result is `none`, and the lookup is reported as unavailable.
use Prim.Native.String.{◌++◌}
use ttp_protocol.Common.{
  String, Bool, true, false, not, ◌&&◌, ◌||◌, ltb, nat_eq, Option, none, some, List, [], ◌∷◌,
  if◌then◌else◌, ◌==◌, includes, any, length, ◌>>=◌, Numbers,
}
use ttp_protocol.Json.{Json, null, str, arr, obj}
use ttp_protocol.Json.Values.{get?, strict_eq, truthy, or_json, items_list}
use ttp_protocol.Service.{Host}
use ttp_protocol.Service.Formats.{units, is_repo, is_number_text, is_commit, pull_request_of}

pub record ReviewClaim : Type 0 where
  pub repo : String
  pub workflow_run_id : String
  pub commit_sha : String
  pub branch : String
  pub resource : String
  pub invoking_actor : String
  pub reviewer : String

pub record ReviewProof : Type 0 where
  pub verified : Bool
  pub reason : String
  pub reviewer : Option String

-- The API of GitHub with the token that the service has; `none` is a request that fails.
pub record Github (Num : Type 0) : Type 0 where
  pub token : Option String
  pub read_json : String → Option (Json Num)

abbrev pub unverified : String → ReviewProof
unverified reason = record { verified = false; reason = reason; reviewer = none }

module _ {Num : Type 0} ⦃number : Numbers Num⦄ (h : Host Num) where
  -- `v?.toLowerCase()`: undefined where v is nullish, and throws where it is no string.
  abbrev pub lower : Option (Json Num) → Option (Option String)
  lower none = some none
  lower (some null) = some none
  lower (some (str s)) = some (some (h.to_lower s))
  lower (some _) = none

  abbrev pub is_text : Option String → String → Bool
  is_text none t = false
  is_text (some s) t = s == t

  abbrev pub names_protected : Option (Json Num) → Bool
  names_protected (some (arr xs)) =
      any (λ e. strict_eq (get? (some e) "name") (some (str "protected-execution"))) (items_list xs)
  names_protected _ = false

  -- The test of `filter` on one entry; what is no object has none of the properties.
  unfoldable pub approves : String → Json Num → Option Bool
  approves expected entry = do
    state ← lower (get? (some entry) "state")
    if is_text state "approved"
        then (do
          login ← lower (get? (get? (some entry) "user") "login")
          some (is_text login expected && names_protected (get? (some entry) "environments")))
        else some false

  abbrev pub matching : String → List (Json Num) → Option (List (Json Num))
  matching expected [] = some []
  matching expected (e ∷ es) = do
    yes' ← approves expected e
    rest ← matching expected es
    some (if yes' then e ∷ rest else rest)

  abbrev pub verdict : ReviewClaim → List (Json Num) → ReviewProof
  verdict claim matches =
      if nat_eq (length matches) 1
      then record {
        verified = true;
        reason = "GITHUB_APPROVAL_VERIFIED";
        reviewer = some claim.reviewer;
      }
      else unverified "INDEPENDENT_APPROVAL_NOT_VERIFIED"

  -- `[author, invokingActor].map(s => s.toLowerCase())`
  abbrev pub blocked_names : Json Num → ReviewClaim → Option (List String)
  blocked_names (str author) claim = some (h.to_lower author ∷ h.to_lower claim.invoking_actor ∷ [])
  blocked_names _ claim = none

  unfoldable pub assess_approval_history :
      Json Num → ReviewClaim → Json Num → Json Num → Json Num → Option ReviewProof
  assess_approval_history (arr entries) claim author sha branch =
      if not (strict_eq (some sha) (some (str claim.commit_sha)))
        || not (strict_eq (some branch) (some (str claim.branch)))
      then some (unverified "GITHUB_PR_HEAD_CHANGED")
      else (do
        blocked ← blocked_names author claim
        if h.to_lower claim.reviewer == "" || includes blocked (h.to_lower claim.reviewer)
            then some (unverified "SELF_APPROVAL")
            else (do
              matches ← matching (h.to_lower claim.reviewer) (items_list entries)
              some (verdict claim matches)))
  assess_approval_history _ claim author sha branch =
      some (unverified "INVALID_GITHUB_APPROVAL_HISTORY")

  -- The test on the pull request that was read.
  unfoldable pub assess_pull_request : ReviewClaim → Json Num → Json Num → Option ReviewProof
  assess_pull_request claim history pr = do
    let user = get? (get? (some pr) "user") "login"
    let head = get? (some pr) "head"
    if not (strict_eq (get? (some pr) "state") (some (str "open"))) || not (truthy user)
        then some (unverified "GITHUB_PR_IDENTITY_MISMATCH")
        else (do
          name ← lower (get? (get? (get? (some pr) "base") "repo") "full_name")
          if not (is_text name (h.to_lower claim.repo))
              then some (unverified "GITHUB_PR_IDENTITY_MISMATCH")
              else assess_approval_history history claim (or_json user null)
                  (or_json (get? head "sha") (str "")) (or_json (get? head "ref") (str "")))

  -- `!pr || typeof pr !== "object"`
  abbrev pub is_object : Json Num → Bool
  is_object (obj _) = true
  is_object (arr _) = true
  is_object _ = false

  -- The body of `try`, of the two texts read.
  abbrev pub look_up : Github Num → ReviewClaim → String → Option ReviewProof
  look_up github claim number' = do
    history ←
        github.read_json (
          "/repos/"
          ++ (claim.repo ++ ("/actions/runs/" ++ (claim.workflow_run_id ++ "/approvals"))))
    pr ← github.read_json ("/repos/" ++ (claim.repo ++ ("/pulls/" ++ number')))
    if is_object pr
        then assess_pull_request claim history pr
        else some (unverified "PR_NOT_VERIFIED")

  abbrev pub or_unavailable : Option ReviewProof → ReviewProof
  or_unavailable none = unverified "GITHUB_APPROVAL_LOOKUP_UNAVAILABLE"
  or_unavailable (some proof) = proof

  abbrev pub is_configured : Option String → Bool
  is_configured none = false
  is_configured (some token) = not (ltb (units token) 20)

  unfoldable pub verify_independent_github_approval : Github Num → ReviewClaim → ReviewProof
  verify_independent_github_approval github claim =
      if not (is_configured github.token)
      then unverified "GITHUB_APPROVAL_VERIFIER_UNCONFIGURED"
      else if not (is_repo claim.repo)
          || not (is_number_text claim.workflow_run_id)
          || not (is_commit claim.commit_sha)
          || claim.reviewer == ""
          || claim.invoking_actor == ""
      then unverified "INVALID_GITHUB_APPROVAL_CLAIM"
      else elim (pull_request_of claim.resource) [
        | none ↦ unverified "INVALID_PR_RESOURCE"
        | some (repo, number') ↦
            if h.to_lower repo == h.to_lower claim.repo
            then or_unavailable (look_up github claim number')
            else unverified "INVALID_PR_RESOURCE"
      ]
