-- ===== src/Detector/Ssh/Config.antt =====
-- `New` of internal/detector/sshauth/sshauth.go. `abs` is `filepath.Abs`, which rests on the directory of
-- the process; the clock and the journal are not values of the model.
use my_safe.Prelude.{
  ℕ, suc, ◌*◌, ◌≤◌, ◌≡◌, Bool, false, ◌||◌, inl, inr, Option, none, some, List, [], ◌∷◌, arith,
  length, ltb, if◌then◌else◌, Bool-cases, Option-cases,
}
use mathlib.Core.Path.{subst}
use my_safe.Prelude.Int.{ℤ, pos, ltb_ℤ, eq_ℤ}
use my_safe.Prelude.Text.{Text, blank, contains_any, trim_space}
use my_safe.Prelude.Text.Clean.{clean_rooted}
use my_safe.Prelude.Text.Sort.{sort_texts, length-sort_texts}
use my_safe.Domain.Validate.{seen_path, line_breaks}

pub record SshConfig : Type 0 where
  pub state_dir : Text
  pub paths : List Text
  pub threshold : ℤ
  pub window : ℤ
  pub max_read : ℤ
  pub max_lines : ℤ

pub data SshConfigError : Type 0 where
  no_state_dir unresolved bad_threshold bad_window bad_max_read bad_max_lines too_many_paths
        bad_path :
      SshConfigError

pub data SshConfigured : Type 0 where
  detector : SshConfig → SshConfigured
  rejected : SshConfigError → SshConfigured

abbrev second : ℕ
second = 1000000000

-- A zero value is replaced by the default.
abbrev pub or_default : ℤ → ℕ → ℤ
or_default n default = if eq_ℤ n (pos 0) then pos default else n

unfoldable pub outside : ℤ → ℕ → ℕ → Bool
outside n low high = ltb_ℤ n (pos low) || ltb_ℤ (pos high) n

cons_path : Text → Option (List Text) → Option (List Text)
cons_path p none = none
cons_path p (some ps) = some (p ∷ ps)

module _ (abs : Text → Option Text) where
  -- The loop over the paths: clean and without duplicates, or an error.
  clean_paths : List Text → List Text → Option (List Text)
  unfolding cons_path
  clean_paths seen [] = some []
  clean_paths seen (raw ∷ raws) = elim (abs (trim_space raw)) [
    | none ↦ none
    | some path ↦
        let kept = clean_paths seen raws in
        let added = cons_path (clean_rooted path) (clean_paths (clean_rooted path ∷ seen) raws) in
        if blank raw || contains_any raw line_breaks
        then none
        else if seen_path (clean_rooted path) seen
        then kept
        else added
  ]

  with_paths : SshConfig → Option (List Text) → SshConfigured
  with_paths c none = rejected bad_path
  with_paths c (some paths) = detector (record c { paths = sort_texts paths })

  limited : SshConfig → SshConfigured
  unfolding with_paths clean_paths outside
  limited c =
      if outside c.threshold 2 100
      then rejected bad_threshold
      else if outside c.window (10 * second) (24 * 60 * 60 * second)
      then rejected bad_window
      else if outside c.max_read 4096 (64 * 1024 * 1024)
      then rejected bad_max_read
      else if outside c.max_lines 1 100000
      then rejected bad_max_lines
      else if ltb 16 (length c.paths)
      then rejected too_many_paths
      else with_paths c (clean_paths [] c.paths)

  -- The directory, and a default for each value that is zero.
  abbrev pub with_defaults : Text → SshConfig → SshConfig
  with_defaults state_dir c = record c {
    state_dir = state_dir;
    threshold = or_default c.threshold 5;
    window = or_default c.window (5 * 60 * second);
    max_read = or_default c.max_read (4 * 1024 * 1024);
    max_lines = or_default c.max_lines 5000;
  }

  -- `New`
  unfoldable pub new_detector : SshConfig → SshConfigured
  unfolding limited
  new_detector c = if blank c.state_dir then rejected no_state_dir else elim (abs c.state_dir) [
    | none ↦ rejected unresolved
    | some state_dir ↦ limited (with_defaults state_dir c)
  ]

  pub record IsConfigured (d : SshConfig) : Type 0 where
    pub threshold : outside d.threshold 2 100 ≡ false
    pub window : outside d.window (10 * second) (24 * 60 * 60 * second) ≡ false
    pub max_read : outside d.max_read 4096 (64 * 1024 * 1024) ≡ false
    pub max_lines : outside d.max_lines 1 100000 ≡ false
    pub few_paths : length d.paths ≤ 16

  abbrev AtMost : ℕ → Option (List Text) → Type 0
  AtMost n none = Unit
  AtMost n (some ps) = length ps ≤ n

  AtMost-suc : (n : ℕ) (o : Option (List Text)) → AtMost n o → AtMost (suc n) o
  AtMost-suc n none h = tt
  AtMost-suc n (some ps) h = omega arith

  AtMost-cons_path :
      (n : ℕ) (p : Text) (o : Option (List Text)) → AtMost n o → AtMost (suc n) (cons_path p o)
  unfolding cons_path
  AtMost-cons_path n p none h = tt
  AtMost-cons_path n p (some ps) h = omega arith

  clean_paths-AtMost : (seen raws : List Text) → AtMost (length raws) (clean_paths seen raws)
  unfolding clean_paths
  clean_paths-AtMost seen [] = omega arith
  clean_paths-AtMost seen (raw ∷ raws) = elim (Option-cases (abs (trim_space raw))) [
    | inl failed ↦ rw (failed, clean_paths) tt
    | inr (path, found) ↦ elim (Bool-cases (blank raw || contains_any raw line_breaks)) [
      | inl bad ↦ rw (found, bad, clean_paths) tt
      | inr good ↦ elim (Bool-cases (seen_path (clean_rooted path) seen)) [
        | inl old ↦
            rw (found, good, old, clean_paths)
              (AtMost-suc (length raws) (clean_paths seen raws) (clean_paths-AtMost seen raws))
        | inr new ↦
            rw (found, good, new, clean_paths)
              (AtMost-cons_path (length raws) (clean_rooted path)
                (clean_paths (clean_rooted path ∷ seen) raws)
                (clean_paths-AtMost (clean_rooted path ∷ seen) raws))
      ]
    ]
  ]

  with_paths-IsConfigured :
      (c d : SshConfig) (o : Option (List Text))
      → outside c.threshold 2 100 ≡ false
      → outside c.window (10 * second) (24 * 60 * 60 * second) ≡ false
      → outside c.max_read 4096 (64 * 1024 * 1024) ≡ false
      → outside c.max_lines 1 100000 ≡ false
      → length c.paths ≤ 16
      → AtMost (length c.paths) o
      → with_paths c o ≡ detector d
      → IsConfigured d
  unfolding with_paths
  with_paths-IsConfigured c d none threshold window max_read max_lines few at_most h = absurd (cc h)
  with_paths-IsConfigured c d (some ps) threshold window max_read max_lines few at_most h =
      let e : record c { paths = sort_texts ps } ≡ d = cc h in
      subst (λ (x : SshConfig). IsConfigured x) e
        (record {
          threshold = threshold;
          window = window;
          max_read = max_read;
          max_lines = max_lines;
          few_paths = omega (arith, length-sort_texts ps);
        })

  limited-IsConfigured : (c d : SshConfig) → limited c ≡ detector d → IsConfigured d
  unfolding limited
  limited-IsConfigured c d h =
      let tests : (outside c.threshold 2 100 ≡ false)
          × (outside c.window (10 * second) (24 * 60 * 60 * second) ≡ false)
          × (outside c.max_read 4096 (64 * 1024 * 1024) ≡ false)
          × (outside c.max_lines 1 100000 ≡ false)
          × (ltb 16 (length c.paths) ≡ false) =
        ground arith in
      let (threshold, window, max_read, max_lines, few) = tests in
      with_paths-IsConfigured c d (clean_paths [] c.paths) threshold window max_read max_lines
        (ground arith) (clean_paths-AtMost [] c.paths)
        (rw (threshold, window, max_read, max_lines, few) at h)

  -- A detector that `New` makes watches at most 16 files, and its threshold, its window and its limits on
  -- reading are within their ranges, whatever was configured.
  pub new_detector-IsConfigured : (c d : SshConfig) → new_detector c ≡ detector d → IsConfigured d
  unfolding new_detector
  new_detector-IsConfigured c d h = elim (Bool-cases (blank c.state_dir)) [
    | inl unnamed ↦ absurd (cc (rw unnamed at h))
    | inr named ↦ elim (Option-cases (abs c.state_dir)) [
      | inl bad ↦ absurd (cc (rw (named, bad) at h))
      | inr (dir, found) ↦ limited-IsConfigured (with_defaults dir c) d (rw (named, found) at h)
    ]
  ]
