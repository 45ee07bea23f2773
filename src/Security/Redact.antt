-- ===== src/Security/Redact.antt =====
-- internal/security/redact.go: values under sensitive keys are replaced, at every depth.
pub mod Laws
use my_safe.Prelude.{ℕ, Bool, true, false, ◌||◌, Option, none, some, List, [], ◌∷◌, if◌then◌else◌}
use my_safe.Prelude.Text.{Text, codes, contains, trim_space, to_lower, replace_byte}
use my_safe.Domain.Json.{
  Value, Items, Fields, null, bool, num, str, arr, obj, nil, item, end, field,
}

abbrev pub redacted : Text
redacted = codes "[REDACTED]"

abbrev sensitive_key_fragments : List Text
sensitive_key_fragments =
    codes "authorization"
    ∷ codes "cookie"
    ∷ codes "password"
    ∷ codes "passwd"
    ∷ codes "private_key"
    ∷ codes "secret"
    ∷ codes "token"
    ∷ []

-- The loop over the fragments.
contains_some : Text → List Text → Bool
contains_some s [] = false
contains_some s (f ∷ fs) = contains s f || contains_some s fs

unfoldable pub sensitive_key : Text → Bool
unfolding contains_some
sensitive_key key =
    contains_some (replace_byte b'-' b'_' (to_lower (trim_space key))) sensitive_key_fragments

unfoldable mutual
  pub redact_value : Value → Value
  redact_value (arr xs) = arr (redact_items xs)
  redact_value (obj fs) = obj (redact_fields fs)
  redact_value null = null
  redact_value (bool b) = bool b
  redact_value (num n) = num n
  redact_value (str s) = str s

  pub redact_items : Items → Items
  redact_items nil = nil
  redact_items (item v xs) = item (redact_value v) (redact_items xs)

  pub redact_fields : Fields → Fields
  redact_fields end = end
  redact_fields (field k v fs) =
      field k (if sensitive_key k then str redacted else redact_value v) (redact_fields fs)

-- `RedactMap`: nil stays nil.
unfoldable pub redact_map : Option Fields → Option Fields
unfolding redact_fields
redact_map none = none
redact_map (some fs) = some (redact_fields fs)
