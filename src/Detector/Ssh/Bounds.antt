-- ===== src/Detector/Ssh/Bounds.antt =====
-- The state of the SSH detector stays bounded.
use my_safe.Prelude.{
  ℕ, zero, suc, ◌+◌, ◌-◌, ◌≤◌, ◌<◌, ◌≡◌, ◌≢◌, refl, sym, ◌∙◌, ◌⊎◌, inl, inr, true, false, some,
  List, [], ◌∷◌, ◌++◌, arith, All, length, drop, ltb, Bool-cases, Option-cases,
}
use my_safe.Prelude.Int.{ℤ, ltb_ℤ}
use my_safe.Prelude.Text.{Text, text_eq, text_eq_iff, is_empty}
use my_safe.Prelude.Dict.{Dict, lookup, insert, length-insert-le, length-erase-le, length-erase-lt}
use my_safe.Prelude.Maps.{All-insert, All-erase, All-lookup}
use my_safe.Domain.{Time}
use my_safe.Detector.Ssh.{
  DetectorState, AuthRecord, Limits, Failure, max_failure_ips, max_attempts_per_ip, max_int64,
  unix_nano, attempts_of, last_attempts, last_at, oldest_from, prune_oldest_ip,
}
use my_safe.Detector.Ssh.Apply.{
  quiet, new_attempts, with_attempts, failed_record, apply_record, apply_records,
}

-- An address with its attempts: the address is there, and there are 1 to 100 attempts, the last of them
-- before the end of the clock.
pub record IsEntry (entry : Text × List Failure) : Type 0 where
  pub named : entry.0 ≢ []
  pub few : length entry.1 ≤ max_attempts_per_ip
  pub last : ℤ
  pub is_last : last_at entry.1 ≡ some last
  pub in_time : ltb_ℤ last max_int64 ≡ true

pub record IsBounded (s : DetectorState) : Type 0 where
  pub few_ips : length s.failures ≤ max_failure_ips
  pub entries : All IsEntry s.failures

abbrev IsKey : Text → Dict (List Failure) → Type 0
IsKey k m = (v : List Failure) × (lookup k m ≡ some v)

IsKey-tail :
    (r k : Text) (xs : List Failure) (m : Dict (List Failure)) → IsKey r m → IsKey r ((k, xs) ∷ m)
unfolding lookup
IsKey-tail r k xs m (v, e) = elim (Bool-cases (text_eq k r)) [
  | inl it ↦ (xs, rw it refl)
  | inr other ↦ (v, rw other e)
]

IsKey-head :
    (r k : Text) (xs : List Failure) (m : Dict (List Failure)) → r ≡ k → IsKey r ((k, xs) ∷ m)
unfolding lookup
IsKey-head r k xs m e = (xs, rw ((text_eq_iff k r).1 (sym e)) refl)

-- The address that the loop finds is the one it began with, or one of the entries.
oldest_from-cases :
    (ip : Text) (oldest : ℤ) (m : Dict (List Failure))
    → (oldest_from ip oldest m ≡ ip) ⊎ IsKey (oldest_from ip oldest m) m
unfolding oldest_from
oldest_from-cases ip oldest [] = inl refl
oldest_from-cases ip oldest ((k, xs) ∷ m) =
    let kept : (oldest_from ip oldest m ≡ ip) ⊎ IsKey (oldest_from ip oldest m) ((k, xs) ∷ m) =
      elim (oldest_from-cases ip oldest m) [
        | inl same ↦ inl same
        | inr key ↦ inr (IsKey-tail (oldest_from ip oldest m) k xs m key)
      ] in
    elim (Option-cases (last_at xs)) [
      | inl nothing ↦ rw (nothing, oldest_from) kept
      | inr (at, found) ↦ elim (Bool-cases (ltb_ℤ at oldest)) [
        | inr later ↦ rw (found, later, oldest_from) kept
        | inl older ↦
            rw (found, older, oldest_from)
              (elim (oldest_from-cases k at m) [
                | inl same ↦ inr (IsKey-head (oldest_from k at m) k xs m same)
                | inr key ↦ inr (IsKey-tail (oldest_from k at m) k xs m key)
              ])
      ]
    ]

-- Where each entry is in order and there is one, the loop finds an address.
oldest_from-IsKey :
    (m : Dict (List Failure)) → 0 < length m → All IsEntry m → IsKey (oldest_from [] max_int64 m) m
unfolding oldest_from
oldest_from-IsKey [] h all = absurd (omega arith)
oldest_from-IsKey ((k, xs) ∷ m) h all =
    let e = all.0 in
    let found : last_at xs ≡ some e.last = e.is_last in
    rw (found, e.in_time, oldest_from)
      (elim (oldest_from-cases k e.last m) [
        | inl same ↦ IsKey-head (oldest_from k e.last m) k xs m same
        | inr key ↦ IsKey-tail (oldest_from k e.last m) k xs m key
      ])

not_empty : (t : Text) → t ≢ [] → is_empty t ≡ false
not_empty [] h = absurd (h refl)
not_empty (c ∷ t) h = refl

prune_oldest_ip-IsBounded :
    (s : DetectorState)
    → 0 < length s.failures
    → length s.failures ≤ suc max_failure_ips
    → All IsEntry s.failures
    → IsBounded (prune_oldest_ip s)
unfolding prune_oldest_ip
prune_oldest_ip-IsBounded s more few all =
    let ip : Text = oldest_from [] max_int64 s.failures in
    let (attempts, found) = oldest_from-IsKey s.failures more all in
    let named : ip ≢ [] = (All-lookup IsEntry ip attempts s.failures found all).named in
    let there : is_empty ip ≡ false = not_empty ip named in
    rw there (record {
      few_ips = omega (arith, length-erase-lt ip attempts s.failures found);
      entries = All-erase IsEntry ip s.failures all;
    })

length-drop : (n : ℕ) (xs : List Failure) → n ≤ length xs → length (drop n xs) + n ≡ length xs
length-drop zero xs h = omega arith
length-drop (suc n) [] h = omega arith
length-drop (suc n) (x ∷ xs) h = omega (arith, length-drop n xs (omega arith))

last_at-append : (xs : List Failure) (a : Failure) → last_at (xs ++ a ∷ []) ≡ some a.at
last_at-append [] a = refl
last_at-append (x ∷ []) a = refl
last_at-append (x ∷ y ∷ xs) a = last_at-append (y ∷ xs) a

last_at-drop : (n : ℕ) (xs : List Failure) → n < length xs → last_at (drop n xs) ≡ last_at xs
last_at-drop zero xs h = refl
last_at-drop (suc n) [] h = absurd (omega arith)
last_at-drop (suc n) (x ∷ []) h = absurd (omega arith)
last_at-drop (suc n) (x ∷ y ∷ xs) h = last_at-drop n (y ∷ xs) (omega arith)

last_attempts-few : (xs : List Failure) → length (last_attempts xs) ≤ max_attempts_per_ip
last_attempts-few xs = elim (Bool-cases (ltb max_attempts_per_ip (length xs))) [
  | inr fits ↦ rw fits (ground arith)
  | inl long ↦
      let dropped = length-drop (length xs - max_attempts_per_ip) xs (omega arith) in
      rw long (ground arith)
]

last_attempts-last : (xs : List Failure) → last_at (last_attempts xs) ≡ last_at xs
last_attempts-last xs = elim (Bool-cases (ltb max_attempts_per_ip (length xs))) [
  | inr fits ↦ rw fits refl
  | inl long ↦ rw long (last_at-drop (length xs - max_attempts_per_ip) xs (ground arith))
]

module _ (sha256 : Text → Text) (c : Limits) (now : Time)
    (in_time : ltb_ℤ (unix_nano now) max_int64 ≡ true) where
  new_attempts-IsEntry :
      (r : AuthRecord) (s : DetectorState)
      → r.source_ip ≢ []
      → IsEntry (r.source_ip, new_attempts sha256 r now s)
  new_attempts-IsEntry r s named =
      let attempt : Failure = record {
        at = unix_nano now;
        user = r.user;
        invalid_user = r.invalid_user;
      } in
      let old : List Failure = attempts_of (lookup r.source_ip s.failures) in
      record {
        named = named;
        few = last_attempts-few (old ++ attempt ∷ []);
        last = unix_nano now;
        is_last = last_attempts-last (old ++ attempt ∷ []) ∙ last_at-append old attempt;
        in_time = in_time;
      }

  with_attempts-IsBounded :
      (r : AuthRecord) (s : DetectorState)
      → r.source_ip ≢ []
      → IsBounded s
      → IsBounded (with_attempts sha256 r now s)
  unfolding with_attempts
  with_attempts-IsBounded r s named h =
      let attempts : List Failure = new_attempts sha256 r now s in
      let s' : DetectorState = record s { failures = insert r.source_ip attempts s.failures } in
      let all : All IsEntry s'.failures =
        All-insert IsEntry r.source_ip attempts s.failures (new_attempts-IsEntry r s named)
          h.entries in
      let grown : length s'.failures ≤ suc (length s.failures) =
        length-insert-le r.source_ip attempts s.failures in
      let before = h.few_ips in
      elim (Bool-cases (ltb max_failure_ips (length s'.failures))) [
        | inl over ↦ rw over (prune_oldest_ip-IsBounded s' (ground arith) (omega arith) all)
        | inr fits ↦ rw fits (record { few_ips = ground arith; entries = all })
      ]

  failed_record-IsBounded :
      (r : AuthRecord) (generation : ℕ) (s : DetectorState)
      → r.source_ip ≢ []
      → IsBounded s
      → IsBounded (failed_record sha256 c r now generation s).1
  unfolding failed_record
  failed_record-IsBounded r generation s named h =
      let h' = with_attempts-IsBounded r s named h in
      elim (Bool-cases
        (quiet c r.source_ip (new_attempts sha256 r now s) now (with_attempts sha256 r now s))) [
          | inl silent ↦ rw silent h'
          | inr due ↦ rw due (record { few_ips = h'.few_ips; entries = h'.entries })
        ]

  apply_record-IsBounded :
      (r : AuthRecord) (generation : ℕ) (s : DetectorState)
      → r.source_ip ≢ []
      → IsBounded s
      → IsBounded (apply_record sha256 c r now generation s).1
  unfolding apply_record
  apply_record-IsBounded r generation s named h = elim (Bool-cases r.success) [
    | inl accepted ↦ rw accepted (record {
      few_ips = omega (arith, length-erase-le r.source_ip s.failures, h.few_ips);
      entries = All-erase IsEntry r.source_ip s.failures h.entries;
    })
    | inr failed ↦ rw failed (failed_record-IsBounded r generation s named h)
  ]

  -- However many records a scan applies, the state of the detector keeps at most 4096 addresses, each
  -- with 1 to 100 attempts. The records name an address, and the clock has not come to its end.
  pub apply_records-IsBounded :
      (rs : List AuthRecord) (generation : ℕ) (s : DetectorState)
      → All (λ (r : AuthRecord). r.source_ip ≢ []) rs
      → IsBounded s
      → IsBounded (apply_records sha256 c rs now generation s).1
  unfolding apply_records
  apply_records-IsBounded [] generation s named h = h
  apply_records-IsBounded (r ∷ rs) generation s named h =
      apply_records-IsBounded rs generation (apply_record sha256 c r now generation s).1 named.1
        (apply_record-IsBounded r generation s named.0 h)
