-- ===== src/Domain/Validate.antt =====
-- internal/domain/validate.go. A validator returns the error, or `none` for nil.
pub mod Bounds
use my_safe.Prelude.{
  ℕ, ◌+◌, ◌*◌, Bool, true, false, not, ◌||◌, Option, none, some, List, [], ◌∷◌, ltb, ◌==◌, length,
  if◌then◌else◌,
}
use my_safe.Prelude.Int.{ℤ, pos, ltb_ℤ}
use my_safe.Prelude.Text.{Text, codes, text_eq, blank, contains_any, has_prefix, is_empty}
use my_safe.Prelude.Text.Clean.{clean_rooted}
use my_safe.Domain.{Time, Event, Policy, severity_valid}
use my_safe.Domain.Json.{Fields}

pub data RegistrationError : Type 0 where
  required : Text → RegistrationError
  too_long : Text → ℕ → RegistrationError
  control_characters : Text → RegistrationError

pub data PolicyError : Type 0 where
  identity_required too_many_paths invalid_path ssh_out_of_range : PolicyError

pub data EventError : Type 0 where
  bad_id bad_kind bad_severity bad_summary no_time future_time evidence_unencodable
        evidence_too_large :
      EventError

-- "\r\n\x00"
abbrev pub line_breaks : Text
line_breaks = 13 ∷ 10 ∷ 0 ∷ []

-- One entry of the table `fields` of `ValidateRegistration`.
pub record RegistrationField : Type 0 where
  pub name : Text
  pub value : Text
  pub max_bytes : ℕ

check_fields : List RegistrationField → Option RegistrationError
check_fields [] = none
check_fields (f ∷ fs) =
    let rest = check_fields fs in
    if blank f.value
    then some (required f.name)
    else if ltb f.max_bytes (length f.value)
    then some (too_long f.name f.max_bytes)
    else if contains_any f.value line_breaks
    then some (control_characters f.name)
    else rest

abbrev pub registration_fields : Text → Text → Text → Text → Text → List RegistrationField
registration_fields machine_id hostname version platform architecture =
    record { name = codes "machine_id"; value = machine_id; max_bytes = 128 }
    ∷ record { name = codes "hostname"; value = hostname; max_bytes = 255 }
    ∷ record { name = codes "version"; value = version; max_bytes = 64 }
    ∷ record { name = codes "platform"; value = platform; max_bytes = 32 }
    ∷ record { name = codes "architecture"; value = architecture; max_bytes = 32 }
    ∷ []

unfoldable pub validate_registration : Text → Text → Text → Text → Text → Option RegistrationError
unfolding check_fields
validate_registration machine_id hostname version platform architecture =
    check_fields (registration_fields machine_id hostname version platform architecture)

-- `seen[item]`
abbrev pub seen_path : Text → List Text → Bool
seen_path p [] = false
seen_path p (q ∷ qs) = text_eq p q || seen_path p qs

-- The test that both policy validators put on one path.
unfoldable pub bad_watch_path : Text → Bool
bad_watch_path p =
    length p == 0
    || ltb 512 (length p)
    || not (has_prefix p (b'/' ∷ []))
    || not (text_eq (clean_rooted p) p)
    || contains_any p line_breaks

check_paths : List Text → List Text → Option PolicyError
check_paths seen [] = none
check_paths seen (p ∷ ps) =
    let rest = check_paths (p ∷ seen) ps in
    if bad_watch_path p || seen_path p seen then some invalid_path else rest

abbrev pub ssh_range_bad : ℤ → ℤ → Bool
ssh_range_bad threshold window =
    ltb_ℤ threshold (pos 2)
    || ltb_ℤ (pos 100) threshold
    || ltb_ℤ window (pos 10)
    || ltb_ℤ (pos 86400) window

bad_identity : Policy → Bool
bad_identity p =
    blank p.id
    || ltb 64 (length p.id)
    || blank p.agent_id
    || ltb 64 (length p.agent_id)
    || ltb_ℤ p.revision (pos 1)
    || p.updated_at == 0

unfoldable pub validate_policy : Policy → Option PolicyError
unfolding check_paths bad_identity
validate_policy p =
    if bad_identity p
    then some identity_required
    else if ltb 64 (length p.file_watch_paths)
    then some too_many_paths
    else elim (check_paths [] p.file_watch_paths) [
      | some e ↦ some e
      | none ↦
          if ssh_range_bad p.ssh_threshold p.ssh_window_seconds then some ssh_out_of_range else none
    ]

abbrev pub max_evidence_bytes : ℕ
max_evidence_bytes = 64 * 1024

abbrev pub five_minutes : ℕ
five_minutes = 5 * 60 * 1000000000

-- `marshal` is `json.Marshal` of the evidence: `none` when it fails.
module _ (marshal : Option Fields → Option Text) where
  check_evidence : Option Text → Option EventError
  check_evidence none = some evidence_unencodable
  check_evidence (some encoded) =
      if ltb max_evidence_bytes (length encoded) then some evidence_too_large else none

  unfoldable pub validate_event : Event → Time → Option EventError
  unfolding check_evidence
  validate_event e now =
      if blank e.id || ltb 128 (length e.id)
      then some bad_id
      else if blank e.kind || ltb 128 (length e.kind)
      then some bad_kind
      else if not (severity_valid e.severity)
      then some bad_severity
      else if blank e.summary || ltb 2048 (length e.summary)
      then some bad_summary
      else if e.occurred_at == 0
      then some no_time
      else if ltb (now + five_minutes) e.occurred_at
      then some future_time
      else check_evidence (marshal e.evidence)
