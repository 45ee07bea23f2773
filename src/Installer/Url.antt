-- ===== src/Installer/Url.antt =====
-- `validateUpstream` of internal/installer/inspect.go and `validateControlURL` of internal/installer/apply.go.
-- `url.Parse`, `strings.EqualFold` and the loopback test of `net.ParseIP` are parameters.
use my_safe.Prelude.{Bool, not, ◌||◌, ◌&&◌, Option, none, some, [], ◌∷◌, if◌then◌else◌}
use my_safe.Prelude.Text.{Text, codes, text_eq, is_empty, trim_space, contains_any}

-- What `url.Parse` makes of a text, as far as it is read.
pub record Url : Type 0 where
  pub scheme : Text
  pub host : Text
  pub hostname : Text
  pub has_user : Bool
  pub raw_query : Text
  pub fragment : Text

pub data UrlError : Type 0 where
  not_absolute bad_scheme not_plain not_loopback : UrlError

abbrev http : Text
http = codes "http"

module _ (parse_url : Text → Option Url) where
  check_upstream : Url → Option UrlError
  check_upstream u =
      if is_empty u.scheme || is_empty u.host
      then some not_absolute
      else if not (text_eq u.scheme http) && not (text_eq u.scheme (codes "https"))
      then some bad_scheme
      else if u.has_user || not (is_empty u.raw_query) || not (is_empty u.fragment)
      then some not_plain
      else none

  -- `validateUpstream`
  unfoldable pub validate_upstream : Text → Option UrlError
  unfolding check_upstream
  validate_upstream raw = elim (parse_url raw) [
    | none ↦ some not_absolute
    | some u ↦ check_upstream u
  ]

-- `validateControlURL`, with `loopbackHost`.
module _ (parse_url : Text → Option Url) (equal_fold : Text → Text → Bool)
    (is_loopback_ip : Text → Bool) where
  loopback_host : Text → Bool
  loopback_host host = equal_fold host (codes "localhost") || is_loopback_ip host

  check_control_url : Text → Url → Option UrlError
  unfolding loopback_host contains_any
  check_control_url raw u =
      if is_empty u.scheme || is_empty u.host
      then some not_absolute
      else if not (text_eq u.scheme (codes "https")) && not (text_eq u.scheme http)
      then some bad_scheme
      else if u.has_user
          || not (is_empty u.raw_query)
          || not (is_empty u.fragment)
          || contains_any raw (13 ∷ 10 ∷ 0 ∷ [])
      then some not_plain
      else if text_eq u.scheme http && not (loopback_host u.hostname)
      then some not_loopback
      else none

  unfoldable pub validate_control_url : Text → Option UrlError
  unfolding check_control_url trim_space
  validate_control_url raw = elim (parse_url (trim_space raw)) [
    | none ↦ some not_absolute
    | some u ↦ check_control_url raw u
  ]
