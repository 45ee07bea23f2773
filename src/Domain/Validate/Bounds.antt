-- ===== src/Domain/Validate/Bounds.antt =====
-- What the validators of internal/domain/validate.go let through.
use my_safe.Prelude.{
  ◌+◌, ◌≤◌, ◌≡◌, ◌≢◌, ◌↔◌, ◌⊎◌, refl, true, false, Option, none, some, List, [], ◌∷◌, arith, length,
  All,
}
use my_safe.Prelude.Int.{pos, ltb_ℤ}
use my_safe.Prelude.Text.{Text, text_eq, text_eq_iff, blank, contains_any}
use my_safe.Prelude.Text.Clean.{clean_rooted, clean_rooted-IsPlain, IsPlain, render}
use my_safe.Domain.{Time, Event, Policy, severity_valid}
use my_safe.Domain.Json.{Fields}
use my_safe.Domain.Validate.{
  validate_policy, check_paths, bad_watch_path, seen_path, line_breaks, validate_event,
  check_evidence, max_evidence_bytes, five_minutes,
}

-- An absolute path in normal form: `/`, or `/e1/e2/…` with no element empty, `.` or `..`.
pub record IsWatchPath (p : Text) : Type 0 where
  pub short : length p ≤ 512
  pub one_line : contains_any p line_breaks ≡ false
  pub normal : (p ≡ b'/' ∷ []) ⊎ ((es : List Text) × All IsPlain es × (p ≡ render es))

abbrev pub Distinct : List Text → Type 0
Distinct [] = Unit
Distinct (p ∷ ps) = All (λ q. q ≢ p) ps × Distinct ps

pub record IsSafePolicy (p : Policy) : Type 0 where
  pub identified : (blank p.id ≡ false) × (blank p.agent_id ≡ false)
  pub ids_short : (length p.id ≤ 64) × (length p.agent_id ≤ 64)
  pub revised : ltb_ℤ p.revision (pos 1) ≡ false
  pub dated : p.updated_at ≢ 0
  pub few_paths : length p.file_watch_paths ≤ 64
  pub paths : All IsWatchPath p.file_watch_paths
  pub distinct : Distinct p.file_watch_paths
  pub threshold :
      (ltb_ℤ p.ssh_threshold (pos 2) ≡ false) × (ltb_ℤ (pos 100) p.ssh_threshold ≡ false)
  pub window :
      (ltb_ℤ p.ssh_window_seconds (pos 10) ≡ false)
      × (ltb_ℤ (pos 86400) p.ssh_window_seconds ≡ false)

bad_watch_path-false :
    (p : Text)
    → bad_watch_path p ≡ false
    → (length p ≤ 512) × (text_eq (clean_rooted p) p ≡ true) × (contains_any p line_breaks ≡ false)
unfolding bad_watch_path
bad_watch_path-false p h = ground arith

pub IsWatchPath-of : (p : Text) → bad_watch_path p ≡ false → IsWatchPath p
IsWatchPath-of p h =
    let (short, clean, one_line) = bad_watch_path-false p h in
    record {
      short = short;
      one_line = one_line;
      normal = clean_rooted-IsPlain p ((text_eq_iff (clean_rooted p) p).0 clean);
    }

-- No path of the list is among `seen`.
abbrev Fresh : List Text → List Text → Type 0
Fresh seen ps = All (λ q. seen_path q seen ≡ false) ps

Fresh-head :
    (p : Text) (seen ps : List Text) → Fresh (p ∷ seen) ps → All (λ q. q ≢ p) ps × Fresh seen ps
Fresh-head p seen [] h = (tt, tt)
Fresh-head p seen (q ∷ ps) h =
    let (others, rest) = Fresh-head p seen ps h.1 in
    let head : (q ≢ p) × (seen_path q seen ≡ false) = ground (arith, text_eq_iff q p) in
    ((head.0, others), (head.1, rest))

check_paths-none :
    (seen ps : List Text)
    → check_paths seen ps ≡ none
    → All IsWatchPath ps × Distinct ps × Fresh seen ps
unfolding check_paths
check_paths-none seen [] h = (tt, tt, tt)
check_paths-none seen (p ∷ ps) h =
    let parts : (bad_watch_path p ≡ false)
        × (seen_path p seen ≡ false)
        × (check_paths (p ∷ seen) ps ≡ none) =
      ground arith in
    let (good, distinct, fresh) = check_paths-none (p ∷ seen) ps parts.2 in
    let (others, rest) = Fresh-head p seen ps fresh in
    ((IsWatchPath-of p parts.0, good), (others, distinct), (parts.1, rest))

-- A policy that `ValidatePolicy` accepts has bounded identifiers, a revision of at least 1, an
-- update time, at most 64 distinct watch paths, each in normal form, and SSH limits in their range.
pub validate_policy-IsSafePolicy : (p : Policy) → validate_policy p ≡ none → IsSafePolicy p
unfolding validate_policy
validate_policy-IsSafePolicy p h =
    let paths : check_paths [] p.file_watch_paths ≡ none = ground arith in
    let (good, distinct, _) = check_paths-none [] p.file_watch_paths paths in
    record {
      identified = ground arith;
      ids_short = ground arith;
      revised = ground arith;
      dated = ground arith;
      few_paths = ground arith;
      paths = good;
      distinct = distinct;
      threshold = ground arith;
      window = ground arith;
    }

module _ (marshal : Option Fields → Option Text) where
  pub record IsBoundedEvent (e : Event) (now : Time) : Type 0 where
    pub id : (blank e.id ≡ false) × (length e.id ≤ 128)
    pub kind : (blank e.kind ≡ false) × (length e.kind ≤ 128)
    pub severity : severity_valid e.severity ≡ true
    pub summary : (blank e.summary ≡ false) × (length e.summary ≤ 2048)
    pub time : (e.occurred_at ≢ 0) × (e.occurred_at ≤ now + five_minutes)
    pub evidence : (t : Text) × (marshal e.evidence ≡ some t) × (length t ≤ max_evidence_bytes)

  check_evidence_iff :
      (r : Option Text)
      → (check_evidence marshal r ≡ none)
        ↔ ((t : Text) × (r ≡ some t) × (length t ≤ max_evidence_bytes))
  unfolding check_evidence
  check_evidence_iff none = (λ h. absurd (cc h), λ h. absurd (cc (h.1)))
  check_evidence_iff (some t) = (λ h. (t, refl, ground arith), λ (u, e, b). ground arith)

  -- `ValidateEvent` accepts exactly the events whose identifier, kind and summary are there and
  -- bounded, whose severity is one of the five, whose time is set and at most five minutes ahead, and
  -- whose evidence encodes to at most 64 KiB.
  pub validate_event_iff :
      (e : Event) (now : Time) → (validate_event marshal e now ≡ none) ↔ IsBoundedEvent e now
  unfolding validate_event
  validate_event_iff e now = (
    λ h. record {
      id = ground arith;
      kind = ground arith;
      severity = ground arith;
      summary = ground arith;
      time = ground arith;
      evidence = (check_evidence_iff (marshal e.evidence)).0 (ground arith);
    },
    λ b.
        let ev : check_evidence marshal (marshal e.evidence) ≡ none =
          (check_evidence_iff (marshal e.evidence)).1 b.evidence in
        ground arith,
  )
