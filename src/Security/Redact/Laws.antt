-- ===== src/Security/Redact/Laws.antt =====
-- No value under a sensitive key survives the redaction, and nothing else is changed by it.
use my_safe.Prelude.{
  ◌≡◌, refl, sym, inl, inr, true, Option, none, some, ap, Bool-cases, if◌then◌else◌,
}
use my_safe.Prelude.Text.{Text, text_eq, text_eq_iff}
use my_safe.Domain.Json.{
  Value, Items, Fields, null, bool, num, str, arr, obj, nil, item, end, field,
}
use my_safe.Security.Redact.{
  redacted, sensitive_key, redact_value, redact_items, redact_fields, redact_map,
}

-- Under a sensitive key stands the marker, at every depth.
abbrev mutual
  pub IsClean : Value → Type 0
  IsClean (arr xs) = AreClean xs
  IsClean (obj fs) = HidesSecrets fs
  IsClean _ = Unit

  pub AreClean : Items → Type 0
  AreClean nil = Unit
  AreClean (item v xs) = IsClean v × AreClean xs

  pub HidesSecrets : Fields → Type 0
  HidesSecrets end = Unit
  HidesSecrets (field k v fs) =
      (sensitive_key k ≡ true → v ≡ str redacted) × IsClean v × HidesSecrets fs

-- At one field: under a sensitive key there is the marker, and else the field was clean.
HidesSecrets-field :
    (k : Text) (v : Value)
    → IsClean v
    → let w = if sensitive_key k then str redacted else v in
      (sensitive_key k ≡ true → w ≡ str redacted) × IsClean w
HidesSecrets-field k v h = elim (Bool-cases (sensitive_key k)) [
  | inl y ↦ rw y (λ _. refl, tt)
  | inr n ↦ rw n (λ e. cc, h)
]

mutual
  unfolding redact_value

  redact_value-IsClean : (v : Value) → IsClean (redact_value v)
  redact_value-IsClean null = tt
  redact_value-IsClean (bool b) = tt
  redact_value-IsClean (num n) = tt
  redact_value-IsClean (str s) = tt
  redact_value-IsClean (arr xs) = redact_items-AreClean xs
  redact_value-IsClean (obj fs) = redact_fields-HidesSecrets fs

  redact_items-AreClean : (xs : Items) → AreClean (redact_items xs)
  redact_items-AreClean nil = tt
  redact_items-AreClean (item v xs) = (redact_value-IsClean v, redact_items-AreClean xs)

  redact_fields-HidesSecrets : (fs : Fields) → HidesSecrets (redact_fields fs)
  redact_fields-HidesSecrets end = tt
  redact_fields-HidesSecrets (field k v fs) =
      let (marked, clean) = HidesSecrets-field k (redact_value v) (redact_value-IsClean v) in
      (marked, clean, redact_fields-HidesSecrets fs)

-- `w` stands at `k` in a field that is clean already, so redaction writes `v` again.
clean_field :
    (k : Text) (v : Value)
    → (sensitive_key k ≡ true → v ≡ str redacted)
    → redact_value v ≡ v
    → (if sensitive_key k then str redacted else redact_value v) ≡ v
clean_field k v marked e = elim (Bool-cases (sensitive_key k)) [
  | inl y ↦ rw y (sym (marked y))
  | inr n ↦ rw n e
]

mutual
  unfolding redact_value

  redact_value-fixed : (v : Value) → IsClean v → redact_value v ≡ v
  redact_value-fixed null h = refl
  redact_value-fixed (bool b) h = refl
  redact_value-fixed (num n) h = refl
  redact_value-fixed (str s) h = refl
  redact_value-fixed (arr xs) h = ap arr (redact_items-fixed xs h)
  redact_value-fixed (obj fs) h = ap obj (redact_fields-fixed fs h)

  redact_items-fixed : (xs : Items) → AreClean xs → redact_items xs ≡ xs
  redact_items-fixed nil h = refl
  redact_items-fixed (item v xs) h = cc (redact_value-fixed v h.0, redact_items-fixed xs h.1)

  redact_fields-fixed : (fs : Fields) → HidesSecrets fs → redact_fields fs ≡ fs
  redact_fields-fixed end h = refl
  redact_fields-fixed (field k v fs) h =
      cc (clean_field k v h.0 (redact_value-fixed v h.1), redact_fields-fixed fs h.2)

-- The evidence or the details of a record, which may be a nil map.
abbrev pub HidesAll : Option Fields → Type 0
HidesAll none = Unit
HidesAll (some fs) = HidesSecrets fs

-- In what `RedactMap` returns, every value whose key looks like a credential is the marker, in nested
-- maps and in lists of maps too.
pub redact_map-HidesAll : (m : Option Fields) → HidesAll (redact_map m)
unfolding redact_map
redact_map-HidesAll none = tt
redact_map-HidesAll (some fs) = redact_fields-HidesSecrets fs

-- A map with no secret left is returned unchanged, so redacting twice is redacting once.
pub redact_map-fixed : (m : Option Fields) → HidesAll m → redact_map m ≡ m
unfolding redact_map
redact_map-fixed none h = refl
redact_map-fixed (some fs) h = ap some (redact_fields-fixed fs h)

pub redact_map_idem : (m : Option Fields) → redact_map (redact_map m) ≡ redact_map m
redact_map_idem m = redact_map-fixed (redact_map m) (redact_map-HidesAll m)

-- The value at the first field with that key.
unfoldable pub get_field : Text → Fields → Option Value
get_field k end = none
get_field k (field j v fs) = if text_eq j k then some v else get_field k fs

abbrev pub redact_at : Text → Option Value → Option Value
redact_at k none = none
redact_at k (some v) = some (if sensitive_key k then str redacted else redact_value v)

-- Redaction keeps every key: under a sensitive one stands the marker, and under any other the value
-- that was there, itself redacted.
pub get_field-redact_fields :
    (k : Text) (fs : Fields) → get_field k (redact_fields fs) ≡ redact_at k (get_field k fs)
unfolding get_field redact_value
get_field-redact_fields k end = refl
get_field-redact_fields k (field j v fs) = elim (Bool-cases (text_eq j k)) [
  | inl y ↦ rw (y, (text_eq_iff j k).0 y)
  | inr n ↦ rw n (get_field-redact_fields k fs)
]
