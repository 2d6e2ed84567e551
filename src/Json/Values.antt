-- ===== src/Json/Values.antt =====
-- How the sources read a value that came in as JSON; `none` is undefined.
use ttp_protocol.Common.{
  String, Bool, true, false, ◌&&◌, ◌||◌, not, List, [], ◌∷◌, Option, none, some, if◌then◌else◌,
  ◌==◌, Numbers, ◌≡◌, refl, ◌↔◌, eq_iff, arith,
}
use ttp_protocol.Json.{Json, null, bool, num, str, arr, obj, Items, nil, cons, Fields, end, field}

module _ {Num : Type 0} where
  -- `value[key]`, an own property.
  abbrev pub get : Fields Num → String → Option (Json Num)
  get end key = none
  get (field k v fs) key = if k == key then some v else get fs key

  -- `{ ...value, [key]: v }`
  abbrev pub set : String → Json Num → Fields Num → Fields Num
  set key v end = field key v end
  set key v (field k u fs) = if k == key then field k v fs else field k u (set key v fs)

  -- Setting a key leaves every other key.
  pub get-set_other :
      (key other : String) (v : Json Num) (fs : Fields Num)
      → (key == other) ≡ false
      → get (set key v fs) other ≡ get fs other
  get-set_other key other v end e = rw e refl
  get-set_other key other v (field k u fs) e =
      ground (arith, get-set_other key other v fs e, eq_iff k key, eq_iff k other, eq_iff key other)

  -- `value?.[key]`: a value that is no object has no such property.
  abbrev pub get? : Option (Json Num) → String → Option (Json Num)
  get? (some (obj fs)) key = get fs key
  get? _ key = none

  -- `value ?? other`
  abbrev pub or_json : Option (Json Num) → Json Num → Json Num
  or_json none other = other
  or_json (some null) other = other
  or_json (some v) _ = v

  abbrev pub is_nullish : Option (Json Num) → Bool
  is_nullish none = true
  is_nullish (some null) = true
  is_nullish _ = false

  abbrev pub fields : List (String × Json Num) → Fields Num
  fields [] = end
  fields ((k, v) ∷ rest) = field k v (fields rest)

  -- An object literal.
  abbrev pub object : List (String × Json Num) → Json Num
  object entries = obj (fields entries)

  abbrev pub items : List (Json Num) → Items Num
  items [] = nil
  items (x ∷ xs) = cons x (items xs)

  -- An array literal.
  abbrev pub array : List (Json Num) → Json Num
  array xs = arr (items xs)

  abbrev pub text_items : List String → Items Num
  text_items [] = nil
  text_items (x ∷ xs) = cons (str x) (text_items xs)

  abbrev pub texts : List String → Json Num
  texts xs = arr (text_items xs)

  -- `Object.keys(value)`
  abbrev pub keys : Fields Num → List String
  keys end = []
  keys (field k v fs) = k ∷ keys fs

  -- `value ?? {}`, for a value that is an object, null or undefined.
  abbrev pub fields_of : Option (Json Num) → Fields Num
  fields_of (some (obj fs)) = fs
  fields_of _ = end

  abbrev pub items_list : Items Num → List (Json Num)
  items_list nil = []
  items_list (cons v vs) = v ∷ items_list vs

module _ {Num : Type 0} ⦃number : Numbers Num⦄ where
  -- `a === b`. Objects and arrays that were read from different texts are never identical.
  abbrev pub strict_eq : Option (Json Num) → Option (Json Num) → Bool
  strict_eq none none = true
  strict_eq (some null) (some null) = true
  strict_eq (some (bool true)) (some (bool true)) = true
  strict_eq (some (bool false)) (some (bool false)) = true
  strict_eq (some (num a)) (some (num b)) = number.le a b && number.le b a
  strict_eq (some (str a)) (some (str b)) = a == b
  strict_eq _ _ = false

  -- `Boolean(value)`
  abbrev pub truthy : Option (Json Num) → Bool
  truthy none = false
  truthy (some null) = false
  truthy (some (bool b)) = b
  truthy (some (num n)) = number.lt n (number.decimal 0 0) || number.lt (number.decimal 0 0) n
  truthy (some (str s)) = not (s == "")
  truthy (some (arr _)) = true
  truthy (some (obj _)) = true

  -- A text is identical to nothing but itself.
  pub strict_eq-str_iff :
      (s : String) (v : Option (Json Num))
      → (strict_eq (some (str s)) v ≡ true) ↔ (v ≡ some (str s))
  strict_eq-str_iff s none = ((λ h. cc), (λ h. cc))
  strict_eq-str_iff s (some (str t)) =
      ((λ h. ground (arith, eq_iff s t)), (λ h. ground (arith, eq_iff s t)))
  strict_eq-str_iff s (some null) = ((λ h. cc), (λ h. cc))
  strict_eq-str_iff s (some (bool b)) = ((λ h. cc), (λ h. cc))
  strict_eq-str_iff s (some (num n)) = ((λ h. cc), (λ h. cc))
  strict_eq-str_iff s (some (arr xs)) = ((λ h. cc), (λ h. cc))
  strict_eq-str_iff s (some (obj fs)) = ((λ h. cc), (λ h. cc))

  pub strict_eq-str_right :
      (v : Option (Json Num)) (s : String) → strict_eq v (some (str s)) ≡ true → v ≡ some (str s)
  strict_eq-str_right none s h = cc
  strict_eq-str_right (some (str t)) s h = ground (arith, eq_iff t s)
  strict_eq-str_right (some null) s h = cc
  strict_eq-str_right (some (bool true)) s h = cc
  strict_eq-str_right (some (bool false)) s h = cc
  strict_eq-str_right (some (num n)) s h = cc
  strict_eq-str_right (some (arr xs)) s h = cc
  strict_eq-str_right (some (obj fs)) s h = cc
