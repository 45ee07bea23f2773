-- ===== src/Detector/Ssh/State.antt =====
-- `validateState` of internal/detector/sshauth/sshauth.go, the check on a state that is loaded or saved.
-- `is_ip` is whether `net.ParseIP` gives an address.
use my_safe.Prelude.{
  ℕ, ◌≤◌, ◌≡◌, Bool, true, not, ◌&&◌, ◌||◌, Option, none, some, List, [], ◌∷◌, arith, All, length,
  ltb, ◌==◌, if◌then◌else◌,
}
use my_safe.Prelude.Int.{ℤ, pos, ltb_ℤ, eq_ℤ}
use my_safe.Prelude.Text.{Text, text_eq, is_empty, contains_any, has_prefix}
use my_safe.Prelude.Text.Clean.{clean_rooted}
use my_safe.Prelude.Dict.{Dict}
use my_safe.Domain.Validate.{line_breaks}
use my_safe.Detector.Ssh.{DetectorState, FileCursor, Failure, max_failure_ips, max_attempts_per_ip}

pub data StateError : Type 0 where
  unsupported bad_collections bad_file_cursor bad_prefix_hash bad_history bad_attempt
        bad_suppression bad_journal_cursor inconsistent_journal :
      StateError

-- A byte of lower-case hexadecimal text.
abbrev pub is_hex : ℕ → Bool
is_hex c = (not (ltb c 48) && ltb c 58) || (not (ltb c 97) && ltb c 103)

unfoldable pub all_hex : Text → Bool
all_hex [] = true
all_hex (c ∷ cs) = is_hex c && all_hex cs

-- `validSHA256`: 32 bytes in lower-case hexadecimal.
unfoldable pub valid_sha256 : Text → Bool
unfolding all_hex
valid_sha256 t = length t == 64 && all_hex t

-- `validUser`
valid_user : Text → Bool
valid_user u =
    not (is_empty u) && not (ltb 128 (length u)) && not (contains_any u (0 ∷ 13 ∷ 10 ∷ 9 ∷ 32 ∷ []))

-- `validJournalCursor`
valid_journal_cursor : Text → Bool
valid_journal_cursor c = not (ltb 1024 (length c)) && not (contains_any c line_breaks)

-- An absolute path that is clean.
abbrev clean_path : Text → Bool
clean_path p = has_prefix p (b'/' ∷ []) && text_eq (clean_rooted p) p

check_files : Dict FileCursor → Option StateError
unfolding valid_sha256
check_files [] = none
check_files ((path, cursor) ∷ files) =
    let rest = check_files files in
    if not (clean_path path)
      || ltb_ℤ cursor.offset (pos 0)
      || ltb_ℤ cursor.prefix_bytes (pos 0)
      || ltb_ℤ (pos 4096) cursor.prefix_bytes
    then some bad_file_cursor
    else if not (is_empty cursor.prefix_hash) && not (valid_sha256 cursor.prefix_hash)
    then some bad_prefix_hash
    else rest

check_attempts : List Failure → Option StateError
unfolding valid_user
check_attempts [] = none
check_attempts (a ∷ attempts) =
    let rest = check_attempts attempts in
    if not (ltb_ℤ (pos 0) a.at) || not (valid_user a.user) then some bad_attempt else rest

module _ (is_ip : Text → Bool) where
  check_failures : Dict (List Failure) → Option StateError
  unfolding check_attempts
  check_failures [] = none
  check_failures ((ip, attempts) ∷ failures) =
      let rest = check_failures failures in
      if not (is_ip ip) || ltb max_attempts_per_ip (length attempts)
      then some bad_history
      else elim (check_attempts attempts) [ some e ↦ some e | none ↦ rest ]

  check_alerted : Dict ℤ → Option StateError
  check_alerted [] = none
  check_alerted ((ip, until) ∷ alerted) =
      let rest = check_alerted alerted in
      if not (is_ip ip) || ltb_ℤ until (pos 0) then some bad_suppression else rest

  check_journal : DetectorState → Option StateError
  unfolding valid_journal_cursor
  check_journal s =
      if s.journal_initialized
      then if not (ltb_ℤ (pos 0) s.journal_since) || not (valid_journal_cursor s.journal_cursor)
        then some bad_journal_cursor
        else none
      else if not (is_empty s.journal_cursor) || not (eq_ℤ s.journal_since (pos 0))
      then some inconsistent_journal
      else none

  abbrev pub first_error : Option StateError → Option StateError → Option StateError
  first_error none e = e
  first_error (some e) _ = some e

  -- `validateState`. A nil map has no place here: a dictionary is always there.
  unfoldable pub validate_state : DetectorState → Option StateError
  unfolding check_files check_failures check_alerted check_journal
  validate_state s =
      if not (eq_ℤ s.schema_version (pos 1)) || s.generation == 0
      then some unsupported
      else if ltb 16 (length s.files) || ltb max_failure_ips (length s.failures)
      then some bad_collections
      else first_error (check_files s.files) (
          first_error (check_failures s.failures)
            (first_error (check_alerted s.alerted_until) (check_journal s)))

  -- One address of a valid state.
  pub record IsHistory (entry : Text × List Failure) : Type 0 where
    pub address : is_ip entry.0 ≡ true
    pub few : length entry.1 ≤ max_attempts_per_ip
    pub dated : All (λ (a : Failure). ltb_ℤ (pos 0) a.at ≡ true) entry.1

  check_attempts-none :
      (attempts : List Failure)
      → check_attempts attempts ≡ none
      → All (λ (a : Failure). ltb_ℤ (pos 0) a.at ≡ true) attempts
  unfolding check_attempts
  check_attempts-none [] h = tt
  check_attempts-none (a ∷ attempts) h = (ground arith, check_attempts-none attempts (ground arith))

  check_failures-none :
      (failures : Dict (List Failure)) → check_failures failures ≡ none → All IsHistory failures
  unfolding check_failures
  check_failures-none [] h = tt
  check_failures-none ((ip, attempts) ∷ failures) h = (
    record {
      address = ground arith;
      few = ground arith;
      dated = check_attempts-none attempts (ground arith);
    },
    check_failures-none failures (ground arith),
  )

  -- A state that passes the check, so each one that is saved or loaded, has a generation, at most 16
  -- files and 4096 addresses, and at each address at most 100 attempts, all after 1970.
  pub validate_state-none :
      (s : DetectorState)
      → validate_state s ≡ none
      → (1 ≤ s.generation)
        × (length s.files ≤ 16)
        × (length s.failures ≤ max_failure_ips)
        × All IsHistory s.failures
  unfolding validate_state
  validate_state-none s h =
      (ground arith, ground arith, ground arith, check_failures-none s.failures (ground arith))
