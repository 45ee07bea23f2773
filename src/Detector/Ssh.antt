-- ===== src/Detector/Ssh.antt =====
-- internal/detector/sshauth/sshauth.go: failures and successes of SSH logins, by address. The clock is
-- taken to lie between the years 1678 and 2262, where `UnixNano` is defined.
pub mod Apply
pub mod Bounds
pub mod Recent
pub mod Alerts
pub mod Lines
pub mod Config
pub mod State
use my_safe.Prelude.{
  ℕ, ◌+◌, ◌-◌, ◌*◌, ◌/◌, ◌%◌, ◌^◌, Bool, true, false, not, ◌||◌, ◌&&◌, Option, none, some, List, [],
  ◌∷◌, ◌++◌, length, take, drop, ltb, if◌then◌else◌,
}
use my_safe.Prelude.Int.{ℤ, pos, negsuc, ltb_ℤ, sub_nat, add_ℤ, neg_ℤ}
use my_safe.Prelude.Text.{Text, codes, is_empty}
use my_safe.Prelude.Text.Number.{show_int, show_nat}
use my_safe.Prelude.Dict.{Dict, lookup, insert, erase}
use my_safe.Domain.{Time, Event, severity_low, severity_high}
use my_safe.Domain.Json.{Fields, bool, num, str, end, field}

pub record FileCursor : Type 0 where
  pub exists : Bool
  pub offset : ℤ
  pub prefix_bytes : ℤ
  pub prefix_hash : Text

pub record Failure : Type 0 where
  pub at : ℤ
  pub user : Text
  pub invalid_user : Bool

pub record DetectorState : Type 0 where
  pub schema_version : ℤ
  pub generation : ℕ
  pub coverage_hash : Text
  pub files : Dict FileCursor
  pub failures : Dict (List Failure)
  pub alerted_until : Dict ℤ
  pub journal_initialized : Bool
  pub journal_cursor : Text
  pub journal_since : ℤ

pub record AuthRecord : Type 0 where
  pub success : Bool
  pub method : Text
  pub user : Text
  pub invalid_user : Bool
  pub source_ip : Text
  pub key : Text

-- The limits of `Config` that a detector works with: a number of attempts, and nanoseconds.
pub record Limits : Type 0 where
  pub threshold : ℤ
  pub window : ℤ

abbrev pub max_failure_ips : ℕ
max_failure_ips = 4096

abbrev pub max_attempts_per_ip : ℕ
max_attempts_per_ip = 100

-- Nanoseconds from year 1 to 1970.
abbrev pub unix_epoch : ℕ
unix_epoch = 62135596800 * 1000000000

-- `now.UnixNano()`
abbrev pub unix_nano : Time → ℤ
unix_nano now = sub_nat now unix_epoch

-- The greatest `int64`.
abbrev pub max_int64 : ℤ
max_int64 = pos (2 ^ 63 - 1)

-- `m[ip]`: a missing key has the empty list, or 0.
abbrev pub attempts_of : Option (List Failure) → List Failure
attempts_of none = []
attempts_of (some attempts) = attempts

abbrev pub until_of : Option ℤ → ℤ
until_of none = pos 0
until_of (some until) = until

-- `int(window.Seconds())`
abbrev seconds : ℤ → ℤ
seconds (pos n) = pos (n / 1000000000)
seconds (negsuc n) = neg_ℤ (pos ((n + 1) / 1000000000))

unfoldable pub hex_digit : ℕ → ℕ
hex_digit n = if ltb n 10 then 48 + n else 87 + n

-- `hex.EncodeToString`
unfoldable pub hex : Text → Text
unfolding hex_digit
hex [] = []
hex (b ∷ bs) = hex_digit (b / 16) ∷ hex_digit (b % 16) ∷ hex bs

-- The last attempts, 100 at most.
abbrev pub last_attempts : List Failure → List Failure
last_attempts attempts =
    if ltb max_attempts_per_ip (length attempts)
    then drop (length attempts - max_attempts_per_ip) attempts
    else attempts

-- The map `users` of the attempts.
users_of : List Failure → Dict Bool → Dict Bool
users_of [] users = users
users_of (a ∷ attempts) users = users_of attempts (insert a.user true users)

invalid_attempts : List Failure → ℕ
invalid_attempts [] = 0
invalid_attempts (a ∷ attempts) =
    let rest = invalid_attempts attempts in if a.invalid_user then 1 + rest else rest

-- The last attempt of the list, where there is one.
abbrev pub last_at : List Failure → Option ℤ
last_at [] = none
last_at (a ∷ []) = some a.at
last_at (a ∷ b ∷ attempts) = last_at (b ∷ attempts)

-- The loop of `pruneOldestIP`, in the order of the entries: the address and its last attempt.
unfoldable pub oldest_from : Text → ℤ → Dict (List Failure) → Text
oldest_from ip oldest [] = ip
oldest_from ip oldest ((candidate, attempts) ∷ failures) =
    let keep = oldest_from ip oldest failures in
    elim (last_at attempts) [
      | none ↦ keep
      | some at ↦ if ltb_ℤ at oldest then oldest_from candidate at failures else keep
    ]

unfoldable pub prune_oldest_ip : DetectorState → DetectorState
unfolding oldest_from
prune_oldest_ip s =
    let ip = oldest_from [] max_int64 s.failures in
    if is_empty ip
    then s
    else record s { failures = erase ip s.failures; alerted_until = erase ip s.alerted_until }

-- `attempt.At >= cutoff.UnixNano()`
unfoldable pub recent : ℤ → List Failure → List Failure
recent cutoff [] = []
recent cutoff (a ∷ attempts) =
    let rest = recent cutoff attempts in if ltb_ℤ a.at cutoff then rest else a ∷ rest

-- One address of `pruneFailures`; its attempts in the state are those of `attempts`.
prune_ip : ℤ → ℤ → Text → List Failure → DetectorState → DetectorState
prune_ip now cutoff ip [] s = record s {
  failures = erase ip s.failures;
  alerted_until =
      if ltb_ℤ now (until_of (lookup ip s.alerted_until))
      then s.alerted_until
      else erase ip s.alerted_until;
}
prune_ip now cutoff ip (a ∷ kept) s = record s { failures = insert ip (a ∷ kept) s.failures }

prune_entries : ℤ → ℤ → Dict (List Failure) → DetectorState → DetectorState
unfolding prune_ip recent
prune_entries now cutoff [] s = s
prune_entries now cutoff ((ip, attempts) ∷ entries) s =
    prune_entries now cutoff entries (prune_ip now cutoff ip (recent cutoff attempts) s)

-- `pruneFailures`
unfoldable pub prune_failures : ℤ → ℤ → DetectorState → DetectorState
unfolding prune_entries
prune_failures now cutoff s = prune_entries now cutoff s.failures s
