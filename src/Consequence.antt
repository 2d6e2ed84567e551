-- ===== src/Consequence.antt =====
-- packages/pctr/src/consequences.mjs: what state change an action can cause, and how severe it is.
-- `Patterns` holds the regular expressions, `Scale` the severities, `Floor` the proofs.
pub mod Scale
pub mod Patterns
pub mod Floor
pub mod Tests
use ttp_protocol.Common.{
  String, Bool, true, false, not, ◌&&◌, ◌||◌, ℕ, Option, none, some, List, [], ◌∷◌, if◌then◌else◌,
  or_else, find, ◌==◌, Numbers,
}
use Scale.{Severity, low, medium, high, critical, max_severity, rank_gt, rank_ge, severity_rank}
use Patterns.{sensitive_read, read_verb, Pattern, matches, word, spelled}

-- The keys of `CONSEQUENCE_CLASSES`. `nothing` is the key NONE.
pub data Class : Type 0 where
  money_moved data_deleted identity_changed secret_exposed production_changed infra_modified : Class
  access_granted message_sent contract_executed physical_changed data_written data_read : Class
  nothing : Class

unfoldable pub class_severity : Class → Severity
class_severity money_moved = high
class_severity data_deleted = critical
class_severity identity_changed = high
class_severity secret_exposed = critical
class_severity production_changed = high
class_severity infra_modified = high
class_severity access_granted = high
class_severity message_sent = medium
class_severity contract_executed = critical
class_severity physical_changed = critical
class_severity data_written = medium
class_severity data_read = low
class_severity nothing = low

unfoldable pub class_reversible : Class → Bool
class_reversible money_moved = false
class_reversible data_deleted = false
class_reversible secret_exposed = false
class_reversible message_sent = false
class_reversible contract_executed = false
class_reversible physical_changed = false
class_reversible _ = true

unfoldable pub class_label : Class → String
class_label money_moved = "money moved"
class_label data_deleted = "data deleted"
class_label identity_changed = "identity disabled or changed"
class_label secret_exposed = "secret exposed"
class_label production_changed = "production changed"
class_label infra_modified = "infrastructure modified"
class_label access_granted = "access granted"
class_label message_sent = "external message sent"
class_label contract_executed = "contract executed"
class_label physical_changed = "physical system changed"
class_label data_written = "data written"
class_label data_read = "data read"
class_label nothing = "no protected consequence"

abbrev is_nothing : Class → Bool
is_nothing nothing = true
is_nothing _ = false

-- `RULES`, in the order of the source.
unfoldable pub rules : List (List Pattern × Class)
rules =
    (
      spelled "payment"
          ∷ spelled "transfer"
          ∷ spelled "payout"
          ∷ spelled "refund"
          ∷ spelled "charge"
          ∷ spelled "wire"
          ∷ spelled "treasury"
          ∷ spelled "stripe"
          ∷ spelled "ledger.move"
          ∷ word "pay"
          ∷ [],
      money_moved,
    )
    ∷ (
      spelled "delete"
          ∷ spelled "destroy"
          ∷ spelled "drop"
          ∷ spelled "purge"
          ∷ spelled "truncate"
          ∷ spelled "wipe"
          ∷ spelled "erase"
          ∷ spelled "remove_all"
          ∷ spelled "terminate"
          ∷ [],
      data_deleted,
    )
    ∷ (
      spelled "secret"
          ∷ spelled "credential"
          ∷ spelled "token"
          ∷ spelled "apikey"
          ∷ spelled "api_key"
          ∷ spelled "private_key"
          ∷ spelled "vault.read"
          ∷ spelled "password"
          ∷ [],
      secret_exposed,
    )
    ∷ (
      spelled "contract"
          ∷ spelled "sign"
          ∷ spelled "execute_agreement"
          ∷ spelled "onchain"
          ∷ spelled "smart_contract"
          ∷ [],
      contract_executed,
    )
    ∷ (
      spelled "device"
          ∷ spelled "actuator"
          ∷ spelled "valve"
          ∷ spelled "door"
          ∷ spelled "robot"
          ∷ spelled "plc"
          ∷ spelled "scada"
          ∷ [],
      physical_changed,
    )
    ∷ (
      spelled "disable_user"
          ∷ spelled "deactivate"
          ∷ spelled "suspend_user"
          ∷ spelled "user.update"
          ∷ spelled "identity"
          ∷ spelled "scim"
          ∷ spelled "role.assign"
          ∷ [],
      identity_changed,
    )
    ∷ (
      spelled "grant"
          ∷ spelled "permission"
          ∷ spelled "policy.attach"
          ∷ spelled "share"
          ∷ spelled "acl"
          ∷ spelled "invite"
          ∷ [],
      access_granted,
    )
    ∷ (
      spelled "deploy"
          ∷ spelled "release"
          ∷ spelled "rollback"
          ∷ spelled "migrate"
          ∷ spelled "prod"
          ∷ spelled "k8s.apply"
          ∷ spelled "helm"
          ∷ [],
      production_changed,
    )
    ∷ (
      spelled "terraform"
          ∷ spelled "infra"
          ∷ spelled "instance"
          ∷ spelled "bucket"
          ∷ spelled "dns"
          ∷ spelled "firewall"
          ∷ spelled "network"
          ∷ spelled "cluster"
          ∷ [],
      infra_modified,
    )
    ∷ (
      spelled "send"
          ∷ spelled "email"
          ∷ spelled "slack"
          ∷ spelled "sms"
          ∷ spelled "post_message"
          ∷ spelled "notify"
          ∷ spelled "publish"
          ∷ spelled "tweet"
          ∷ [],
      message_sent,
    )
    ∷ (
      spelled "write"
          ∷ spelled "create"
          ∷ spelled "update"
          ∷ spelled "insert"
          ∷ spelled "upsert"
          ∷ spelled "patch"
          ∷ spelled "put"
          ∷ [],
      data_written,
    )
    ∷ (
      spelled "read"
          ∷ spelled "get"
          ∷ spelled "list"
          ∷ spelled "search"
          ∷ spelled "query"
          ∷ spelled "select"
          ∷ spelled "fetch"
          ∷ spelled "export"
          ∷ spelled "download"
          ∷ spelled "dump"
          ∷ spelled "backup"
          ∷ [],
      data_read,
    )
    ∷ []

-- The loop over `RULES`: the first rule that matches decides.
first_rule : String → List (List Pattern × Class) → Class
first_rule id [] = nothing
first_rule id ((patterns, cls) ∷ rest) = if matches patterns id then cls else first_rule id rest

-- `inferred` in `classifyAction`.
unfoldable pub infer : String → Class
unfolding first_rule rules
infer id =
    if sensitive_read id
    then secret_exposed
    else if read_verb id
    then data_read
    else first_rule id rules

-- `CONSEQUENCE_CLASSES[name]`, for the keys that the table itself has.
unfoldable pub class_names : List (String × Class)
class_names =
    ("MONEY_MOVED", money_moved)
    ∷ ("DATA_DELETED", data_deleted)
    ∷ ("IDENTITY_CHANGED", identity_changed)
    ∷ ("SECRET_EXPOSED", secret_exposed)
    ∷ ("PRODUCTION_CHANGED", production_changed)
    ∷ ("INFRA_MODIFIED", infra_modified)
    ∷ ("ACCESS_GRANTED", access_granted)
    ∷ ("MESSAGE_SENT", message_sent)
    ∷ ("CONTRACT_EXECUTED", contract_executed)
    ∷ ("PHYSICAL_CHANGED", physical_changed)
    ∷ ("DATA_WRITTEN", data_written)
    ∷ ("DATA_READ", data_read)
    ∷ ("NONE", nothing)
    ∷ []

find_class : List (String × Class) → String → Option Class
find_class [] name = none
find_class ((key, cls) ∷ rest) name = if key == name then some cls else find_class rest name

abbrev lookup_class : Option String → Option Class
lookup_class none = none
lookup_class (some name) = find_class class_names name

-- The fields of `hints` that are read; one that is absent or null is `none`.
pub record Hints (Num : Type 0) : Type 0 where
  pub consequence : Option String
  pub severity : Option Severity
  pub reversible : Option Bool
  pub records_affected : Option Num
  pub amount : Option Num

pub record Classification : Type 0 where
  pub action : String
  pub consequence : Class
  pub label : String
  pub severity : Severity
  pub reversible : Bool
  pub protected : Bool

-- The declared class counts only when its severity is above that of the inferred one.
abbrev raise_class : Option Class → Class → Class
raise_class none inferred = inferred
raise_class (some declared) inferred =
    if rank_gt (severity_rank (class_severity declared)) (severity_rank (class_severity inferred))
    then declared
    else inferred

-- `selected` in `classifyAction`.
unfoldable pub select_class : Option String → String → Class
unfolding infer find_class class_severity class_names severity_rank
select_class declared id = raise_class (lookup_class declared) (infer id)

abbrev raise : Severity → Option Severity → Severity
raise s none = s
raise s (some t) = max_severity s t

module _ {Num : Type 0} ⦃number : Numbers Num⦄ where
  -- `x >= bound`, which is false where `x` is absent.
  abbrev pub at_least : Option Num → ℕ → Bool
  at_least none bound = false
  at_least (some x) bound = number.le (number.decimal bound 0) x

  -- The two tests on scale and money in `decorate`.
  unfoldable pub scale : Hints Num → Option Severity
  scale hints =
      if at_least hints.records_affected 1000 || at_least hints.amount 5000
      then some critical
      else if at_least hints.records_affected 100 || at_least hints.amount 500
      then some high
      else none

  unfoldable pub decorate : String → Class → Hints Num → Classification
  unfolding class_severity class_reversible class_label scale
  decorate id cls hints =
      let base = class_severity cls in
      let severity = raise (max_severity base (or_else hints.severity base)) (scale hints) in
      record {
        action = id;
        consequence = cls;
        label = class_label cls;
        severity = severity;
        reversible = or_else hints.reversible (class_reversible cls);
        protected = not (is_nothing cls) && rank_ge (severity_rank severity) (severity_rank medium);
      }

  unfoldable pub classify_action : String → Hints Num → Classification
  unfolding decorate select_class
  classify_action id hints = decorate id (select_class hints.consequence id) hints

  unfoldable pub is_protected : String → Hints Num → Bool
  unfolding classify_action
  is_protected id hints = (classify_action id hints).protected
