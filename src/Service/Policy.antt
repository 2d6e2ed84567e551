-- ===== src/Service/Policy.antt =====
-- services/authority/policyLoader.ts: the list of protected paths is read from a text, and a path is
-- tested against it; `riskClass` of index.ts. Reading the file is not modelled.
use Prim.Native.Char.{Char, code}
use Prim.Native.String.{[], ◌∷◌, ◌++◌, len, slice}
use text.Mathlib.Text.{starts_with}
use ttp_protocol.Common.{
  String, Bool, false, not, ◌&&◌, ◌||◌, ℕ, ◌-◌, leb, nat_eq, List, if◌then◌else◌, ◌==◌, any,
  includes,
}
use ttp_protocol.Service.Formats.{split_lines, ends_with}
use ttp_protocol.Service.{AuthorizeRequest, RiskClass, low, medium, high, critical}

-- What `trim` takes away.
abbrev pub is_space : ℕ → Bool
is_space c =
    leb 9 c && leb c 13
    || nat_eq c 32
    || nat_eq c 160
    || nat_eq c 5760
    || leb 8192 c && leb c 8202
    || nat_eq c 8232
    || nat_eq c 8233
    || nat_eq c 8239
    || nat_eq c 8287
    || nat_eq c 12288
    || nat_eq c 65279

abbrev pub trim_start : String → String
trim_start [] = []
trim_start (c ∷ s) = if is_space (code c) then trim_start s else c ∷ s

-- A character before a text that is trimmed at its end.
abbrev pub before_trimmed : Char → String → String
before_trimmed c [] = if is_space (code c) then [] else c ∷ []
before_trimmed c (d ∷ s) = c ∷ d ∷ s

abbrev pub trim_end : String → String
trim_end [] = []
trim_end (c ∷ s) = before_trimmed c (trim_end s)

unfoldable pub trim : String → String
trim s = trim_start (trim_end s)

-- The loop of `readListFromYaml`; `inside` is `inSection`.
unfoldable pub read_lines : String → Bool → List String → List String
read_lines root inside List.[] = List.[]
read_lines root inside (List.◌∷◌ line lines) =
    let trimmed = trim line in
    let starts = starts_with trimmed (root ++ ":") in
    let rest = read_lines root (starts || inside) lines in
    if starts
    then rest
    else if inside && starts_with trimmed "- "
    then List.◌∷◌ (trim (slice trimmed 2 (len trimmed))) rest
    else if inside
        && not (trimmed == "")
        && not (starts_with trimmed "#")
        && not (starts_with trimmed "- ")
    then List.[]
    else rest

unfoldable pub read_list_from_yaml : String → String → List String
unfolding read_lines
read_list_from_yaml text root = read_lines root false (split_lines text)

-- `loadProtectedPolicy`, of the text of policy/protected-actions.yaml.
unfoldable pub load_protected_policy : String → List String
unfolding read_list_from_yaml
load_protected_policy text = read_list_from_yaml text "protected_paths"

abbrev pub matches : String → String → Bool
matches path pattern' =
    if ends_with pattern' "/**"
    then starts_with path (slice pattern' 0 (len pattern' - 3))
    else path == pattern'

unfoldable pub is_protected_path : String → List String → Bool
is_protected_path path patterns = any (matches path) patterns

unfoldable pub touches_protected : {Num : Type 0} → AuthorizeRequest Num → List String → Bool
touches_protected r patterns = any (λ path. is_protected_path path patterns) r.paths_touched

abbrev pub critical_actions : List String
critical_actions = List.◌∷◌ "merge approval" (List.◌∷◌ "release tag request" List.[])

abbrev pub high_actions : List String
high_actions = List.◌∷◌ "workflow modification request" (
    List.◌∷◌ "policy modification request" (
      List.◌∷◌ "receipt schema modification request"
        (List.◌∷◌ "trust model modification request" List.[])))

abbrev pub medium_actions : List String
medium_actions =
    List.◌∷◌ "pull_request.review" (List.◌∷◌ "workflow.dispatch" (List.◌∷◌ "merge request" List.[]))

unfoldable pub risk_class : {Num : Type 0} → AuthorizeRequest Num → List String → RiskClass
risk_class r patterns =
    if includes critical_actions r.action
    then critical
    else if touches_protected r patterns
    then critical
    else if includes high_actions r.action
    then high
    else if includes medium_actions r.action
    then medium
    else low
