-- ===== src/Tests/DomainTests.antt =====
-- Validation, redaction and certificates at concrete inputs.
use my_safe.Prelude.{◌≡◌, refl, true, ◌↔◌, Option, none, some}
use my_safe.Prelude.Text.{
  Text, codes, blank, has_prefix, text_eq, contains_any, to_lower, contains, trim_space,
  replace_byte,
}
use my_safe.Prelude.Text.Clean.{clean_rooted}
use my_safe.Domain.Json.{Fields, arr, obj, str, num, nil, item, end, field}
use my_safe.Domain.Validate.{validate_policy, validate_event, bad_watch_path}
use my_safe.Domain.Validate.Bounds.{
  IsSafePolicy, validate_policy-IsSafePolicy, IsBoundedEvent, validate_event_iff,
}
use my_safe.Security.Redact.{redact_map, redact_fields, sensitive_key}
use my_safe.Security.Redact.Laws.{
  HidesAll, redact_map-HidesAll, redact_map-fixed, get_field, redact_at, get_field-redact_fields,
}
use my_safe.Mtls.Identity.{
  Certificate, CertificateRequest, issue, issued, template, matches_agent, matches_agent_unique,
  issue-matches_agent,
}
use my_safe.Tests.Fixtures.{marshal, login, first_policy}

first_policy-valid : validate_policy first_policy ≡ none
unfolding validate_policy blank bad_watch_path has_prefix text_eq clean_rooted contains_any
first_policy-valid = refl

validate_policy-IsSafePolicy_example : IsSafePolicy first_policy
validate_policy-IsSafePolicy_example = validate_policy-IsSafePolicy first_policy first_policy-valid

validate_event_iff_example :
    (validate_event marshal login 7 ≡ none) ↔ IsBoundedEvent marshal login 7
validate_event_iff_example = validate_event_iff marshal login 7

nested : Fields
nested =
    field (codes "list") (arr (item (obj (field (codes "Password") (str (codes "p")) end)) nil))
      (field (codes "count") (num (codes "3")) end)

redact_map-HidesAll_example : HidesAll (redact_map (some nested))
redact_map-HidesAll_example = redact_map-HidesAll (some nested)

plain : Fields
plain = field (codes "count") (num (codes "3")) end

plain-HidesSecrets : HidesAll (some plain)
unfolding plain sensitive_key to_lower contains trim_space replace_byte
plain-HidesSecrets = (λ e. absurd (cc), tt, tt)

redact_map-fixed_example : redact_map (some plain) ≡ some plain
redact_map-fixed_example = redact_map-fixed (some plain) plain-HidesSecrets

get_field-redact_fields_example :
    get_field (codes "list") (redact_fields nested)
    ≡ redact_at (codes "list") (get_field (codes "list") nested)
get_field-redact_fields_example = get_field-redact_fields (codes "list") nested

parse_csr : Text → Option CertificateRequest
parse_csr t = some (record { common_name = codes "m1"; is_ed25519 = true })

abbrev as_it_is : Text → Text
as_it_is path = path

abbrev certificate : Certificate
certificate = template as_it_is parse_csr true true (codes "agt_1") 100

issue_run :
    issue as_it_is parse_csr true true (codes "csr") (codes "agt_1") (codes "m1") 100
    ≡ issued certificate
unfolding issue parse_csr blank contains_any text_eq
issue_run = refl

issue-matches_agent_example : (matches_agent certificate (codes "agt_1") ≡ true)
issue-matches_agent_example =
    (issue-matches_agent as_it_is parse_csr true true (codes "csr") (codes "agt_1") (codes "m1") 100
      certificate (λ path plain. refl) (refl, (refl, (refl, (refl, (refl, tt))))) issue_run).0

template-matches : matches_agent certificate (codes "agt_1") ≡ true
unfolding matches_agent blank contains_any text_eq
template-matches = refl

matches_agent_unique_example : codes "agt_1" ≡ codes "agt_1"
matches_agent_unique_example =
    matches_agent_unique certificate (codes "agt_1") (codes "agt_1") template-matches
      template-matches
