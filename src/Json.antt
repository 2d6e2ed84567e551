-- ===== src/Json.antt =====
-- packages/pctr/src/ttp.mjs and src/util.mjs: the values that are signed, `canonicalize` and
-- `hashObj`. The text of a number and of a quoted string, `JSON.stringify`, the order of `sort` on
-- keys and SHA-256 belong to the platform, and are parameters.
pub mod Order
pub mod Canonical
pub mod Values
pub mod Tests
use ttp_protocol.Common.{
  String, Bool, true, false, ℕ, List, [], ◌∷◌, Option, none, some, if◌then◌else◌, ◌==◌, ◌≡◌, ◌⊎◌,
}
use Prim.Native.String.{◌++◌}

mutual
  pub data Json (Num : Type 0) : Type 0 where
    null : Json Num
    bool : Bool → Json Num
    num : Num → Json Num
    str : String → Json Num
    arr : Items Num → Json Num
    obj : Fields Num → Json Num

  pub data Items (Num : Type 0) : Type 0 where
    nil : Items Num
    cons : Json Num → Items Num → Items Num

  pub data Fields (Num : Type 0) : Type 0 where
    end : Fields Num
    field : String → Json Num → Fields Num → Fields Num

pub record Platform (Num : Type 0) : Type 0 where
  -- `JSON.stringify(s)` of a string.
  pub quote : String → String
  -- `Number(v.toFixed(6)).toString()`
  pub number_text : Num → String
  -- `Array.prototype.sort` puts keys in this order.
  pub key_le : String → String → Bool
  -- The hexadecimal SHA-256 of a text.
  pub sha256_hex : String → String
  -- `JSON.stringify(v)`
  pub stringify : Json Num → String
  -- `Number(v)`, where `none` is undefined.
  pub to_number : Option (Json Num) → Num
  -- `Date.parse(v)` in milliseconds, `none` where it is NaN. Times before 1970 are left out.
  pub parse_date : Option (Json Num) → Option ℕ
  -- `new Date(t).toISOString()`
  pub iso_text : ℕ → String

-- The order of `sort`, by code units, is a total order.
pub record IsKeyOrder (le : String → String → Bool) : Type 0 where
  pub total : (a b : String) → (le a b ≡ true) ⊎ (le b a ≡ true)
  pub antisym : (a b : String) → le a b ≡ true → le b a ≡ true → a ≡ b
  pub trans : (a b c : String) → le a b ≡ true → le b c ≡ true → le a c ≡ true

-- `xs.join(',')`
unfoldable pub join : List String → String
join [] = ""
join (x ∷ []) = x
join (x ∷ y ∷ xs) = x ++ ("," ++ join (y ∷ xs))

-- `Object.keys(v).sort()`, each key with the canonical text of its value.
unfoldable pub insert :
    (String → String → Bool) → String → String → List (String × String) → List (String × String)
insert le k t [] = (k, t) ∷ []
insert le k t ((j, u) ∷ rest) =
    if le k j then (k, t) ∷ (j, u) ∷ rest else (j, u) ∷ insert le k t rest

abbrev pub entry_texts : (String → String) → List (String × String) → List String
entry_texts quote [] = []
entry_texts quote ((k, t) ∷ rest) = (quote k ++ (":" ++ t)) ∷ entry_texts quote rest

module _ {Num : Type 0} ⦃p : Platform Num⦄ where
  unfoldable mutual
    pub canonicalize : Json Num → String
    canonicalize null = "null"
    canonicalize (bool true) = "true"
    canonicalize (bool false) = "false"
    canonicalize (num n) = p.number_text n
    canonicalize (str s) = p.quote s
    canonicalize (arr xs) = "[" ++ (join (item_texts xs) ++ "]")
    canonicalize (obj fs) = "{" ++ (join (entry_texts p.quote (sorted_entries fs)) ++ "}")

    pub item_texts : Items Num → List String
    item_texts nil = []
    item_texts (cons v vs) = canonicalize v ∷ item_texts vs

    pub sorted_entries : Fields Num → List (String × String)
    sorted_entries end = []
    sorted_entries (field k v fs) = insert p.key_le k (canonicalize v) (sorted_entries fs)

  unfoldable pub hash_obj : Json Num → String
  unfolding canonicalize
  hash_obj v = "sha256:" ++ p.sha256_hex (canonicalize v)
