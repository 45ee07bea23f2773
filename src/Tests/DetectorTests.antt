-- ===== src/Tests/DetectorTests.antt =====
-- The SSH detector at concrete logs and states.
use my_safe.Prelude.{
  ℕ, suc, ◌+◌, ◌≤◌, ◌≡◌, ◌≢◌, refl, ◌⊎◌, true, false, none, some, List, [], ◌∷◌, All, length, arith,
}
use my_safe.Prelude.Int.{pos, ltb_ℤ}
use my_safe.Prelude.Text.{Text, codes, text_eq, contains_any, blank, trim_space}
use my_safe.Prelude.Text.Clean.{clean_rooted}
use my_safe.Prelude.Text.Sort.{sort_texts}
use my_safe.Prelude.Dict.{lookup, insert}
use my_safe.Detector.Ssh.{
  DetectorState, AuthRecord, Limits, Failure, unix_epoch, attempts_of, prune_failures,
  max_failure_ips,
}
use my_safe.Detector.Ssh.Apply.{new_attempts, apply_record, apply_records, quiet, with_attempts}
use my_safe.Detector.Ssh.Bounds.{IsBounded, apply_records-IsBounded}
use my_safe.Detector.Ssh.Recent.{UniqueKeys, Pruned, prune_failures_lem}
use my_safe.Detector.Ssh.Alerts.{begin, after_login, apply_record_once}
use my_safe.Detector.Ssh.Config.{
  SshConfig, detector, new_detector, IsConfigured, new_detector-IsConfigured,
}
use my_safe.Detector.Ssh.State.{validate_state, IsHistory, validate_state-none}
use my_safe.Detector.Ssh.Lines.{Lines, read_lines}
use my_safe.Detector.Ssh.Lines.Progress.{IsRead, IsPassed, read_lines-IsRead}
use my_safe.Tests.Fixtures.{hash}

abbrev log : Text
log = 97 ∷ 10 ∷ 98 ∷ 98 ∷ 10 ∷ 99 ∷ []

abbrev read : Lines
read = record {
  lines =
      record { path = codes "/var/log/auth.log"; offset = 0; text = 97 ∷ []; key = [] }
      ∷ record { path = codes "/var/log/auth.log"; offset = 2; text = 98 ∷ 98 ∷ []; key = [] }
      ∷ [];
  next_offset = 5;
  limited = false;
  oversized = false;
}

log_read : read_lines 4096 (codes "/var/log/auth.log") log (pos 0) 10 ≡ some read
unfolding read_lines
log_read = refl

read_lines-IsRead_example : IsRead log 0 4096 10 read ⊎ IsPassed log 0 4096 read
read_lines-IsRead_example =
    read_lines-IsRead 4096 (codes "/var/log/auth.log") log 0 10 read log_read

abbrev attempt : ℕ → Failure
attempt at = record { at = pos at; user = codes "root"; invalid_user = false }

abbrev watching : DetectorState
watching = record {
  schema_version = pos 1;
  generation = 1;
  coverage_hash = [];
  files = [];
  failures = (codes "10.0.0.1", attempt 1 ∷ attempt 9 ∷ []) ∷ [];
  alerted_until = [];
  journal_initialized = false;
  journal_cursor = [];
  journal_since = pos 0;
}

watching_unique : UniqueKeys watching.failures
unfolding lookup
watching_unique = (refl, tt)

prune_failures_lem_example :
    Pruned
      (pos 5)
      (attempts_of (lookup (codes "10.0.0.1") watching.failures))
      (attempts_of (lookup (codes "10.0.0.1") (prune_failures (pos 20) (pos 5) watching).failures))
prune_failures_lem_example =
    prune_failures_lem (pos 20) (pos 5) watching (codes "10.0.0.1") watching_unique

abbrev limits : Limits
limits = record { threshold = pos 2; window = pos 600 }

abbrev failing : AuthRecord
failing = record {
  success = false;
  method = codes "password";
  user = codes "root";
  invalid_user = false;
  source_ip = codes "10.0.0.1";
  key = codes "k";
}

watching-IsBounded : IsBounded watching
watching-IsBounded = record {
  few_ips = omega arith;
  entries = (
    record { named = λ e. cc; few = omega arith; last = pos 9; is_last = refl; in_time = refl },
    tt,
  );
}

named : failing.source_ip ≢ []
named e = cc

apply_records-IsBounded_example :
    IsBounded (apply_records hash limits (failing ∷ failing ∷ []) (unix_epoch + 20) 1 watching).1
apply_records-IsBounded_example =
    apply_records-IsBounded hash limits (unix_epoch + 20) refl (failing ∷ failing ∷ []) 1 watching
      (named, (named, tt)) watching-IsBounded

not_empty {ℓ} : {A : Type ℓ} (xs : List A) → length xs ≡ 1 → xs ≢ []
not_empty [] h e = omega arith
not_empty (x ∷ xs) h e = cc

-- The third attempt is reported.
one_report : length (apply_record hash limits failing (unix_epoch + 20) 1 watching).0 ≡ 1
unfolding apply_record quiet with_attempts lookup text_eq insert
one_report = refl

reported : (apply_record hash limits failing (unix_epoch + 20) 1 watching).0 ≢ []
reported e =
    absurd
      (not_empty (apply_record hash limits failing (unix_epoch + 20) 1 watching).0 one_report e)

-- The state after the report, and after a failed login in between.
abbrev reporting : DetectorState
reporting = (apply_record hash limits failing (unix_epoch + 20) 1 watching).1

abbrev still_reporting : DetectorState
still_reporting = (apply_record hash limits failing (unix_epoch + 25) 1 reporting).1

few_reporting :
    (suc (length reporting.failures) ≤ 4096) × (suc (length still_reporting.failures) ≤ 4096)
unfolding apply_record quiet with_attempts lookup text_eq insert
few_reporting = (omega arith, omega arith)

apply_record_once_example :
    (ltb_ℤ (pos (length (new_attempts hash failing (unix_epoch + 20) watching))) limits.threshold
      ≡ false)
    × ((apply_record hash limits failing (unix_epoch + 30) 2 still_reporting).0 ≡ [])
apply_record_once_example =
    apply_record_once hash limits failing failing (unix_epoch + 20) (unix_epoch + 30) 1 2 watching
      still_reporting (omega arith) refl refl refl reported
      (after_login begin failing (unix_epoch + 25) 1 (λ e. refl) few_reporting.0 refl)
      few_reporting.1 refl

watching_valid : validate_state (λ t. true) watching ≡ none
unfolding validate_state contains_any
watching_valid = refl

validate_state-none_example :
    (1 ≤ watching.generation)
    × (length watching.files ≤ 16)
    × (length watching.failures ≤ max_failure_ips)
    × All (IsHistory (λ t. true)) watching.failures
validate_state-none_example = validate_state-none (λ t. true) watching watching_valid

abbrev zero_config : SshConfig
zero_config = record {
  state_dir = codes "/s";
  paths = codes "/v/a" ∷ codes "/v/a" ∷ [];
  threshold = pos 0;
  window = pos 0;
  max_read = pos 0;
  max_lines = pos 0;
}

abbrev default_config : SshConfig
default_config = record {
  state_dir = codes "/s";
  paths = codes "/v/a" ∷ [];
  threshold = pos 5;
  window = pos 300000000000;
  max_read = pos 4194304;
  max_lines = pos 5000;
}

configured : new_detector (λ t. some t) zero_config ≡ detector default_config
unfolding new_detector blank contains_any text_eq clean_rooted trim_space sort_texts
configured = refl

new_detector-IsConfigured_example : IsConfigured (λ t. some t) default_config
new_detector-IsConfigured_example =
    new_detector-IsConfigured (λ t. some t) zero_config default_config configured
