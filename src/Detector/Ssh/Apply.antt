-- ===== src/Detector/Ssh/Apply.antt =====
-- `applyRecord` of internal/detector/sshauth/sshauth.go, and its loop in `Scan`.
use my_safe.Prelude.{
  ℕ, Bool, true, not, ◌||◌, some, List, [], ◌∷◌, ◌++◌, length, take, ltb, if◌then◌else◌,
}
use my_safe.Prelude.Int.{pos, ltb_ℤ, add_ℤ}
use my_safe.Prelude.Text.{Text, codes}
use my_safe.Prelude.Text.Number.{show_int, show_nat}
use my_safe.Prelude.Dict.{lookup, insert, erase}
use my_safe.Domain.{Time, Event, severity_low, severity_high}
use my_safe.Domain.Json.{Fields, bool, num, str, end, field}
use my_safe.Detector.Ssh.{
  DetectorState, AuthRecord, Limits, Failure, max_failure_ips, unix_nano, attempts_of, until_of,
  seconds, hex, last_attempts, users_of, invalid_attempts, prune_oldest_ip,
}

-- Too few attempts, or an alert that still holds.
unfoldable pub quiet : Limits → Text → List Failure → Time → DetectorState → Bool
quiet c ip attempts now s =
    ltb_ℤ (pos (length attempts)) c.threshold
    || ltb_ℤ (unix_nano now) (until_of (lookup ip s.alerted_until))

module _ (sha256 : Text → Text) where
  unfoldable pub ssh_event : Text → Text → Text → Time → ℕ → Text → Fields → Event
  unfolding hex
  ssh_event kind severity summary now generation key evidence = record {
    id = codes "evt_ssh_" ++ hex (take 12 (sha256 (kind ++ 0 ∷ show_nat generation ++ 0 ∷ key)));
    agent_id = [];
    kind = kind;
    severity = severity;
    summary = summary;
    occurred_at = now;
    received_at = 0;
    evidence = some evidence;
  }

  success_event : AuthRecord → ℕ → Time → ℕ → Event
  success_event r preceding now generation =
      let suspicious = not (ltb preceding 3) in
      ssh_event
        (if suspicious then codes "ssh.auth.suspicious_success" else codes "ssh.auth.succeeded")
        (if suspicious then severity_high else severity_low)
        (if suspicious
          then codes "SSH authentication succeeded after repeated failures"
          else codes "SSH authentication succeeded")
        now generation r.key
        (field (codes "source_ip") (str r.source_ip) (
          field (codes "user") (str r.user) (
            field (codes "method") (str r.method) (
              field (codes "preceding_failures") (num (show_nat preceding))
                (field (codes "read_only") (bool true) end)))))

  bruteforce_event : Limits → AuthRecord → List Failure → Time → ℕ → Event
  bruteforce_event c r attempts now generation =
      ssh_event (codes "ssh.auth.bruteforce") severity_high
        (codes "Repeated SSH authentication failures crossed the threshold") now generation
        (r.source_ip ++ codes ":" ++ r.key)
        (field (codes "source_ip") (str r.source_ip) (
          field (codes "attempts") (num (show_nat (length attempts))) (
            field (codes "unique_users") (num (show_nat (length (users_of attempts [])))) (
              field (codes "invalid_user_attempts") (num (show_nat (invalid_attempts attempts))) (
                field (codes "window_seconds") (num (show_int (seconds c.window)))
                  (field (codes "read_only") (bool true) end))))))

  -- The attempts of the address with the new one, put into the state; then the bound on addresses.
  abbrev pub new_attempts : AuthRecord → Time → DetectorState → List Failure
  new_attempts r now s = last_attempts (
      attempts_of (lookup r.source_ip s.failures)
      ++ record { at = unix_nano now; user = r.user; invalid_user = r.invalid_user } ∷ [])

  unfoldable pub with_attempts : AuthRecord → Time → DetectorState → DetectorState
  unfolding prune_oldest_ip
  with_attempts r now s =
      let s' : DetectorState = record s {
        failures = insert r.source_ip (new_attempts r now s) s.failures;
      } in
      if ltb max_failure_ips (length s'.failures) then prune_oldest_ip s' else s'

  unfoldable pub failed_record :
      Limits → AuthRecord → Time → ℕ → DetectorState → List Event × DetectorState
  unfolding with_attempts quiet bruteforce_event users_of invalid_attempts
  failed_record c r now generation s =
      let attempts = new_attempts r now s in
      let s' = with_attempts r now s in
      if quiet c r.source_ip attempts now s' then ([], s') else (
        bruteforce_event c r attempts now generation ∷ [],
        record s' {
          alerted_until = insert r.source_ip (add_ℤ (unix_nano now) c.window) s'.alerted_until;
        },
      )

  unfoldable pub apply_record :
      Limits → AuthRecord → Time → ℕ → DetectorState → List Event × DetectorState
  unfolding failed_record success_event
  apply_record c r now generation s =
      if r.success
      then (
        success_event r (length (attempts_of (lookup r.source_ip s.failures))) now generation ∷ [],
        record s {
          failures = erase r.source_ip s.failures;
          alerted_until = erase r.source_ip s.alerted_until;
        },
      )
      else failed_record c r now generation s

  -- The loop of `Scan` over the records of the parsed lines.
  unfoldable pub apply_records :
      Limits → List AuthRecord → Time → ℕ → DetectorState → List Event × DetectorState
  unfolding apply_record
  apply_records c [] now generation s = ([], s)
  apply_records c (r ∷ rs) now generation s =
      let (events, s') = apply_record c r now generation s in
      let (more, s'') = apply_records c rs now generation s' in (events ++ more, s'')
