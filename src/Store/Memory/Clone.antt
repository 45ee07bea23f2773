-- ===== src/Store/Memory/Clone.antt =====
-- `cloneMap` and `cloneValue` of internal/store/memory.go: a stored map shares no part with the
-- caller's. Values have no identity here, so what is proved is that a copy has the same content.
use my_safe.Prelude.{◌≡◌, refl, ap, Option, none, some}
use my_safe.Domain.Json.{
  Value, Items, Fields, null, bool, num, str, arr, obj, nil, item, end, field,
}

mutual
  pub clone_value : Value → Value
  clone_value (obj fs) = obj (clone_fields fs)
  clone_value (arr xs) = arr (clone_items xs)
  clone_value null = null
  clone_value (bool b) = bool b
  clone_value (num n) = num n
  clone_value (str s) = str s

  pub clone_items : Items → Items
  clone_items nil = nil
  clone_items (item v xs) = item (clone_value v) (clone_items xs)

  pub clone_fields : Fields → Fields
  clone_fields end = end
  clone_fields (field k v fs) = field k (clone_value v) (clone_fields fs)

unfoldable pub clone_map : Option Fields → Option Fields
unfolding clone_fields
clone_map none = none
clone_map (some fs) = some (clone_fields fs)

mutual
  unfolding clone_value

  clone_value-same : (v : Value) → clone_value v ≡ v
  clone_value-same null = refl
  clone_value-same (bool b) = refl
  clone_value-same (num n) = refl
  clone_value-same (str s) = refl
  clone_value-same (arr xs) = ap arr (clone_items-same xs)
  clone_value-same (obj fs) = ap obj (clone_fields-same fs)

  clone_items-same : (xs : Items) → clone_items xs ≡ xs
  clone_items-same nil = refl
  clone_items-same (item v xs) = cc (clone_value-same v, clone_items-same xs)

  clone_fields-same : (fs : Fields) → clone_fields fs ≡ fs
  clone_fields-same end = refl
  clone_fields-same (field k v fs) = cc (clone_value-same v, clone_fields-same fs)

pub clone_map-same : (m : Option Fields) → clone_map m ≡ m
unfolding clone_map
clone_map-same none = refl
clone_map-same (some fs) = ap some (clone_fields-same fs)
