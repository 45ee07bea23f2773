-- ===== src/Detector/Ssh/Alerts.antt =====
-- When the SSH detector reports an address, and that it does not report it again too soon.
use my_safe.Prelude.{
  ℕ, suc, ◌≤◌, ◌≡◌, ◌≢◌, refl, inl, inr, Bool, true, false, ◌||◌, some, List, [], ◌∷◌, arith,
  length, ltb, Bool-cases,
}
use my_safe.Prelude.Int.{ℤ, pos, ltb_ℤ, add_ℤ}
use my_safe.Prelude.Text.{Text, text_eq, text_eq_iff}
use my_safe.Prelude.Dict.{
  Dict, lookup, insert, length-insert-le, lookup-insert_self, lookup-insert, lookup-erase,
}
use my_safe.Domain.{Time}
use my_safe.Detector.Ssh.{
  DetectorState, AuthRecord, Limits, Failure, max_failure_ips, unix_nano, until_of, recent,
  prune_ip, prune_entries, prune_failures,
}
use my_safe.Detector.Ssh.Apply.{quiet, new_attempts, with_attempts, failed_record, apply_record}

or_false_left : (a b : Bool) → (a || b) ≡ false → a ≡ false
or_false_left true b h = h
or_false_left false b h = refl

or_true_right : (a b : Bool) → b ≡ true → (a || b) ≡ true
or_true_right true b h = refl
or_true_right false b h = h

quiet-enough :
    (c : Limits) (ip : Text) (attempts : List Failure) (now : Time) (s : DetectorState)
    → quiet c ip attempts now s ≡ false
    → ltb_ℤ (pos (length attempts)) c.threshold ≡ false
unfolding quiet
quiet-enough c ip attempts now s h = or_false_left _ _ h

quiet_until :
    (c : Limits) (ip : Text) (attempts : List Failure) (now : Time) (s : DetectorState) (until : ℤ)
    → lookup ip s.alerted_until ≡ some until
    → ltb_ℤ (unix_nano now) until ≡ true
    → quiet c ip attempts now s ≡ true
unfolding quiet
quiet_until c ip attempts now s until found running =
    or_true_right (ltb_ℤ (pos (length attempts)) c.threshold) _ (rw found running)

-- A report that has not run out outlasts `pruneFailures`.
prune_ip-keeps :
    (now cutoff : ℤ) (k ip : Text) (kept : List Failure) (s : DetectorState) (until : ℤ)
    → ltb_ℤ now until ≡ true
    → lookup ip s.alerted_until ≡ some until
    → lookup ip (prune_ip now cutoff k kept s).alerted_until ≡ some until
unfolding prune_ip
prune_ip-keeps now cutoff k ip (a ∷ kept) s until running found = found
prune_ip-keeps now cutoff k ip [] s until running found =
    elim (Bool-cases (ltb_ℤ now (until_of (lookup k s.alerted_until)))) [
      | inl still ↦ rw still found
      | inr over ↦ elim (Bool-cases (text_eq k ip)) [
        | inl same ↦
            let it : k ≡ ip = (text_eq_iff k ip).0 same in
            absurd (cc (rw (it, found) at over, running))
        | inr away ↦ rw over (rw (lookup-erase k ip s.alerted_until, away) found)
      ]
    ]

prune_entries-keeps :
    (now cutoff : ℤ) (ip : Text) (until : ℤ) (entries : Dict (List Failure)) (s : DetectorState)
    → ltb_ℤ now until ≡ true
    → lookup ip s.alerted_until ≡ some until
    → lookup ip (prune_entries now cutoff entries s).alerted_until ≡ some until
unfolding prune_entries
prune_entries-keeps now cutoff ip until [] s running found = found
prune_entries-keeps now cutoff ip until ((k, xs) ∷ entries) s running found =
    prune_entries-keeps now cutoff ip until entries (prune_ip now cutoff k (recent cutoff xs) s)
      running (prune_ip-keeps now cutoff k ip (recent cutoff xs) s until running found)

prune_failures-keeps :
    (now cutoff : ℤ) (ip : Text) (until : ℤ) (s : DetectorState)
    → ltb_ℤ now until ≡ true
    → lookup ip s.alerted_until ≡ some until
    → lookup ip (prune_failures now cutoff s).alerted_until ≡ some until
unfolding prune_failures
prune_failures-keeps now cutoff ip until s running found =
    prune_entries-keeps now cutoff ip until s.failures s running found

module _ (sha256 : Text → Text) (c : Limits) where
  -- Below the bound on addresses no address is dropped.
  with_attempts-fits :
      (r : AuthRecord) (now : Time) (s : DetectorState)
      → suc (length s.failures) ≤ max_failure_ips
      → with_attempts sha256 r now s
        ≡ record s { failures = insert r.source_ip (new_attempts sha256 r now s) s.failures }
  unfolding with_attempts
  with_attempts-fits r now s room =
      let grown = length-insert-le r.source_ip (new_attempts sha256 r now s) s.failures in
      let fits : ltb max_failure_ips
            (length (insert r.source_ip (new_attempts sha256 r now s) s.failures))
          ≡ false =
        ground arith in
      rw fits refl

  -- A report is made of an address with as many attempts as the threshold, whose last report has run
  -- out, and lasts for the window.
  record IsReported (r : AuthRecord) (now : Time) (s s' : DetectorState) : Type 0 where
    enough : ltb_ℤ (pos (length (new_attempts sha256 r now s))) c.threshold ≡ false
    lasts : lookup r.source_ip s'.alerted_until ≡ some (add_ℤ (unix_nano now) c.window)

  failed_record-IsReported :
      (r : AuthRecord) (now : Time) (generation : ℕ) (s : DetectorState)
      → suc (length s.failures) ≤ max_failure_ips
      → (failed_record sha256 c r now generation s).0 ≢ []
      → IsReported r now s (failed_record sha256 c r now generation s).1
  unfolding failed_record
  failed_record-IsReported r now generation s room some_event =
      elim (Bool-cases
        (quiet c r.source_ip (new_attempts sha256 r now s) now (with_attempts sha256 r now s))) [
          | inl silent ↦ absurd (some_event (rw silent refl))
          | inr due ↦ rw due (record {
            enough =
                quiet-enough c r.source_ip (new_attempts sha256 r now s) now
                  (with_attempts sha256 r now s) due;
            lasts = lookup-insert_self _ _ _;
          })
        ]

  -- While its report lasts an address is not reported again.
  failed_record_silent :
      (r : AuthRecord) (now : Time) (generation : ℕ) (s : DetectorState) (until : ℤ)
      → suc (length s.failures) ≤ max_failure_ips
      → lookup r.source_ip s.alerted_until ≡ some until
      → ltb_ℤ (unix_nano now) until ≡ true
      → (failed_record sha256 c r now generation s).0 ≡ []
  unfolding failed_record
  failed_record_silent r now generation s until room found running =
      let still : lookup r.source_ip (with_attempts sha256 r now s).alerted_until ≡ some until =
        rw (with_attempts-fits r now s room) found in
      rw
        (quiet_until c r.source_ip (new_attempts sha256 r now s) now (with_attempts sha256 r now s)
          until still running)
        refl

  -- A failed login leaves the reports of other addresses, and a report that has not run out.
  failed_record-keeps :
      (q : AuthRecord) (now : Time) (generation : ℕ) (s : DetectorState) (ip : Text) (until : ℤ)
      → suc (length s.failures) ≤ max_failure_ips
      → lookup ip s.alerted_until ≡ some until
      → ltb_ℤ (unix_nano now) until ≡ true
      → lookup ip (failed_record sha256 c q now generation s).1.alerted_until ≡ some until
  unfolding failed_record
  failed_record-keeps q now generation s ip until room found running =
      let s' : DetectorState = with_attempts sha256 q now s in
      let still : lookup ip s'.alerted_until ≡ some until =
        rw (with_attempts-fits q now s room) found in
      let attempts = new_attempts sha256 q now s in
      elim (Bool-cases (quiet c q.source_ip attempts now s')) [
        | inl silent ↦ rw silent still
        | inr due ↦ elim (Bool-cases (text_eq q.source_ip ip)) [
          | inl same ↦
              let it : q.source_ip ≡ ip = (text_eq_iff q.source_ip ip).0 same in
              let silent = quiet_until c ip attempts now s' until still running in
              absurd (cc (it, due, silent))
          | inr away ↦ rw due (
              rw
                (
                  lookup-insert q.source_ip ip (add_ℤ (unix_nano now) c.window) s'.alerted_until,
                  away,
                )
                still)
        ]
      ]

  apply_record-keeps :
      (q : AuthRecord) (now : Time) (generation : ℕ) (s : DetectorState) (ip : Text) (until : ℤ)
      → (q.source_ip ≡ ip → q.success ≡ false)
      → suc (length s.failures) ≤ max_failure_ips
      → lookup ip s.alerted_until ≡ some until
      → ltb_ℤ (unix_nano now) until ≡ true
      → lookup ip (apply_record sha256 c q now generation s).1.alerted_until ≡ some until
  unfolding apply_record
  apply_record-keeps q now generation s ip until only_failed room found running =
      elim (Bool-cases q.success) [
        | inr failed ↦
            rw failed (failed_record-keeps q now generation s ip until room found running)
        | inl accepted ↦ elim (Bool-cases (text_eq q.source_ip ip)) [
          | inl same ↦
              let failed = only_failed ((text_eq_iff q.source_ip ip).0 same) in
              absurd (cc (accepted, failed))
          | inr away ↦ rw accepted (rw (lookup-erase q.source_ip ip s.alerted_until, away) found)
        ]
      ]

  -- What may happen before the end of a report of the address `ip`: logins of any address, but none of
  -- `ip` that is accepted, while there are fewer than 4096 addresses, and prunings between scans.
  pub data Meanwhile (ip : Text) (until : ℤ) : DetectorState → DetectorState → Type 0 where
    begin : {s : DetectorState} → Meanwhile ip until s s
    after_login :
        {s s' : DetectorState}
        → Meanwhile ip until s s'
        → (q : AuthRecord) (now : Time) (generation : ℕ) → (q.source_ip ≡ ip → q.success ≡ false)
        → suc (length s'.failures) ≤ max_failure_ips
        → ltb_ℤ (unix_nano now) until ≡ true
        → Meanwhile ip until s (apply_record sha256 c q now generation s').1
    after_pruning :
        {s s' : DetectorState}
        → Meanwhile ip until s s'
        → (now cutoff : ℤ) → ltb_ℤ now until ≡ true
        → Meanwhile ip until s (prune_failures now cutoff s')

  Meanwhile-keeps :
      (ip : Text) (until : ℤ) (s s' : DetectorState)
      → Meanwhile ip until s s'
      → lookup ip s.alerted_until ≡ some until
      → lookup ip s'.alerted_until ≡ some until
  Meanwhile-keeps ip until s s' begin found = found
  Meanwhile-keeps ip until s s'
        (after_login {s' = before} run q now generation only_failed room running) found =
      apply_record-keeps q now generation before ip until only_failed room
        (Meanwhile-keeps ip until s before run found) running
  Meanwhile-keeps ip until s s' (after_pruning {s' = before} run now cutoff running) found =
      prune_failures-keeps now cutoff ip until before running
        (Meanwhile-keeps ip until s before run found)

  -- A failed login that is reported has brought its address to the threshold. No failed login of that
  -- address is reported again before the window is over, whatever logins and prunings come between: as
  -- long as none of these logins is an accepted one of the address, and there are fewer than 4096
  -- addresses.
  pub apply_record_once :
      (r r' : AuthRecord) (now later : Time) (generation generation' : ℕ) (s s' : DetectorState)
      → suc (length s.failures) ≤ max_failure_ips
      → r.success ≡ false
      → r'.success ≡ false
      → r'.source_ip ≡ r.source_ip
      → (apply_record sha256 c r now generation s).0 ≢ []
      → Meanwhile r.source_ip
          (add_ℤ (unix_nano now) c.window)
          (apply_record sha256 c r now generation s).1
          s'
      → suc (length s'.failures) ≤ max_failure_ips
      → ltb_ℤ (unix_nano later) (add_ℤ (unix_nano now) c.window) ≡ true
      → (ltb_ℤ (pos (length (new_attempts sha256 r now s))) c.threshold ≡ false)
        × ((apply_record sha256 c r' later generation' s').0 ≡ [])
  unfolding apply_record
  apply_record_once r r' now later generation generation' s s' room failed failed' same reported
        between room' running =
      let some_event : (failed_record sha256 c r now generation s).0 ≢ [] = rw failed at reported in
      let report = failed_record-IsReported r now generation s room some_event in
      let until = add_ℤ (unix_nano now) c.window in
      let lasts : lookup r.source_ip (apply_record sha256 c r now generation s).1.alerted_until
          ≡ some until =
        rw failed report.lasts in
      let still =
        Meanwhile-keeps r.source_ip until (apply_record sha256 c r now generation s).1 s' between
          lasts in
      rw failed' (
        report.enough,
        failed_record_silent r' later generation' s' until room' (rw same still) running,
      )
