-- ===== src/Json/Canonical.antt =====
-- Equal contents have one canonical text, in whatever order their fields were written.
use ttp_protocol.Common.{◌≡◌, refl, ◌≢◌, ◌∙◌, ap, String}
use ttp_protocol.Json.{
  Json, arr, obj, Items, nil, cons, Fields, end, field, Platform, IsKeyOrder, canonicalize,
  item_texts, sorted_entries, hash_obj, entry_texts, join,
}
use ttp_protocol.Json.Order.{insert_comm}
use Prim.Native.String.{◌++◌}

-- Two values differ at most in the order of the fields of their objects, at any depth.
mutual
  pub data SameValue {Num : Type 0} : Json Num → Json Num → Type 0 where
    same : (v : Json Num) → SameValue v v
    same_arr : {xs ys : Items Num} → SameItems xs ys → SameValue (arr xs) (arr ys)
    same_obj : {fs gs : Fields Num} → SameFields fs gs → SameValue (obj fs) (obj gs)

  pub data SameItems {Num : Type 0} : Items Num → Items Num → Type 0 where
    no_items : SameItems nil nil
    each :
        {v w : Json Num} {xs ys : Items Num}
        → SameValue v w
        → SameItems xs ys
        → SameItems (cons v xs) (cons w ys)

  pub data SameFields {Num : Type 0} : Fields Num → Fields Num → Type 0 where
    no_fields : SameFields end end
    keep :
        {k : String} {v w : Json Num} {fs gs : Fields Num}
        → SameValue v w
        → SameFields fs gs
        → SameFields (field k v fs) (field k w gs)
    swap :
        {j k : String} {v w : Json Num} {fs : Fields Num}
        → j ≢ k
        → SameFields (field j v (field k w fs)) (field k w (field j v fs))
    then : {fs gs hs : Fields Num} → SameFields fs gs → SameFields gs hs → SameFields fs hs

module _ {Num : Type 0} ⦃p : Platform Num⦄ (o : IsKeyOrder p.key_le) where
  mutual
    unfolding canonicalize

    value-same : {v w : Json Num} → SameValue v w → canonicalize v ≡ canonicalize w
    value-same (same v) = refl
    value-same (same_arr h) = ap (λ ts. "[" ++ (join ts ++ "]")) (items-same h)
    value-same (same_obj h) =
        ap (λ es. "{" ++ (join (entry_texts p.quote es) ++ "}")) (fields-same h)

    items-same : {xs ys : Items Num} → SameItems xs ys → item_texts xs ≡ item_texts ys
    items-same no_items = refl
    items-same (each h k) = rw (value-same h, items-same k)

    fields-same : {fs gs : Fields Num} → SameFields fs gs → sorted_entries fs ≡ sorted_entries gs
    fields-same no_fields = refl
    fields-same (keep h k) = rw (value-same h, fields-same k)
    fields-same (swap {j} {k} {v} {w} {fs} ne) =
        insert_comm o j k (canonicalize v) (canonicalize w) (sorted_entries fs) ne
    fields-same (then h k) = fields-same h ∙ fields-same k

-- Two values that differ only in the order of their fields, at any depth, have the same hash, so a
-- binding cannot be evaded by reordering fields; provided the platform sorts keys by a total order.
pub hash_obj-SameValue :
    {Num : Type 0} ⦃p : Platform Num⦄ (o : IsKeyOrder p.key_le) {v w : Json Num}
    → SameValue v w
    → hash_obj v ≡ hash_obj w
unfolding hash_obj
hash_obj-SameValue ⦃p⦄ o h = ap (λ t. "sha256:" ++ p.sha256_hex t) (value-same o h)
