-- ===== src/Detector/Ssh/Lines.antt =====
-- Reading a log: `hashPrefix`, `readLines` and `readPath` of internal/detector/sshauth/sshauth.go. A
-- log does not change while it is read.
pub mod Parts
pub mod Progress
use my_safe.Prelude.{
  ℕ, ◌+◌, ◌-◌, ◌*◌, Bool, true, false, not, ◌||◌, Option, none, some, List, [], ◌∷◌, ◌++◌, length,
  take, drop, ltb, ◌==◌, if◌then◌else◌,
}
use my_safe.Prelude.Int.{ℤ, pos, negsuc, ltb_ℤ, eq_ℤ}
use my_safe.Prelude.Text.{Text, codes, text_eq}
use my_safe.Detector.Ssh.{FileCursor, hex}

pub record Issue : Type 0 where
  pub path : Text
  pub reason : Text

pub record LogLine : Type 0 where
  pub path : Text
  pub offset : ℕ
  pub text : Text
  pub key : Text

-- What `Lstat` finds at the path of a log.
pub data Log : Type 0 where
  absent unsafe : Log
  regular : Text → Log

abbrev pub max_line_bytes : ℕ
max_line_bytes = 16 * 1024

abbrev pub prefix_limit : ℕ
prefix_limit = 4096

-- The lines that were read, where the next scan goes on, and whether lines were left or skipped.
pub record Lines : Type 0 where
  pub lines : List LogLine
  pub next_offset : ℕ
  pub limited : Bool
  pub oversized : Bool

-- `c` before the first part, where there is one.
abbrev pub onto : ℕ → List Text → List Text
onto c [] = []
onto c (part ∷ parts) = (c ∷ part) ∷ parts

-- The parts between newlines, up to the last newline; what follows it is left.
unfoldable pub complete_parts : Text → List Text
complete_parts [] = []
complete_parts (c ∷ cs) = let rest = complete_parts cs in if c == 10 then [] ∷ rest else onto c rest

-- The bytes of the parts, each with its newline.
abbrev pub size_of : List Text → ℕ
size_of [] = 0
size_of (part ∷ parts) = length part + 1 + size_of parts

-- The loop over the parts; `count` lines are taken already, and the part begins at `offset`.
unfoldable pub collect : Text → ℕ → Bool → List Text → ℕ → ℕ → Lines
collect path max_lines limited [] count offset = record {
  lines = [];
  next_offset = offset;
  limited = limited;
  oversized = false;
}
collect path max_lines limited (part ∷ parts) count offset =
    let skipped = collect path max_lines limited parts count (offset + (length part + 1)) in
    let taken = collect path max_lines limited parts (count + 1) (offset + (length part + 1)) in
    if ltb max_line_bytes (length part)
    then record skipped { oversized = true }
    else if ltb count max_lines
    then record taken {
      lines = record { path = path; offset = offset; text = part; key = [] } ∷ taken.lines;
    }
    else record { lines = []; next_offset = offset; limited = true; oversized = false }

-- Once the content up to the limit is there. Without a newline a full read is passed over.
unfoldable pub lines_at : Text → ℕ → ℕ → Bool → Text → List Text → Lines
unfolding collect
lines_at path max_lines offset limited content [] =
    if limited
    then record {
      lines = [];
      next_offset = offset + length content;
      limited = true;
      oversized = true;
    }
    else record { lines = []; next_offset = offset; limited = false; oversized = false }
lines_at path max_lines offset limited content (part ∷ parts) =
    collect path max_lines limited (part ∷ parts) 0 offset

-- `readLines`: `none` where the offset is negative. A seek beyond the end reads nothing.
unfoldable pub read_lines : ℕ → Text → Text → ℤ → ℕ → Option Lines
unfolding lines_at complete_parts
read_lines max_read path file (negsuc n) max_lines = none
read_lines max_read path file (pos offset) max_lines =
    let content = take (max_read + 1) (drop offset file) in
    let limited = ltb max_read (length content) in
    let content = if limited then take max_read content else content in
    some (lines_at path max_lines offset limited content (complete_parts content))

module _ (sha256 : Text → Text) where
  -- `hashPrefix`: an error where the log is shorter than the prefix.
  hash_prefix : Text → ℤ → Option Text
  unfolding hex
  hash_prefix file (negsuc n) = none
  hash_prefix file (pos n) =
      if n == 0
      then some []
      else if ltb (length file) n
      then none
      else some (hex (sha256 (take n file)))

  -- The result of `readPath`.
  pub record Read : Type 0 where
    pub cursor : FileCursor
    pub lines : List LogLine
    pub issues : List Issue
    pub readable : Bool

  unread : Text → FileCursor → Text → Read
  unread path previous reason = record {
    cursor = previous;
    lines = [];
    issues = record { path = path; reason = reason } ∷ [];
    readable = false;
  }

  abbrev pub first_prefix : Text → ℤ
  first_prefix file = if ltb (length file) prefix_limit then pos (length file) else pos prefix_limit

  -- Where the reading starts: the offset, the bytes of the prefix, and its hash.
  pub record Start : Type 0 where
    pub offset : ℤ
    pub prefix_bytes : ℤ
    pub prefix_hash : Text

  -- From the beginning, with a new prefix.
  from_beginning : Text → Option Start
  unfolding hash_prefix
  from_beginning file = elim (hash_prefix file (first_prefix file)) [
    | none ↦ none
    | some hash ↦
        some (record { offset = pos 0; prefix_bytes = first_prefix file; prefix_hash = hash })
  ]

  -- A log is read from its beginning when it is new, or shorter than before, or has another prefix.
  start_of : Text → FileCursor → Bool → ℤ → Text → Option Start
  unfolding from_beginning
  start_of file previous state_exists bytes hash =
      if not state_exists
      then some (record { offset = pos (length file); prefix_bytes = bytes; prefix_hash = hash })
      else if not previous.exists
      then from_beginning file
      else if ltb_ℤ (pos (length file)) previous.offset || not (text_eq previous.prefix_hash hash)
      then from_beginning file
      else some (record { offset = previous.offset; prefix_bytes = bytes; prefix_hash = hash })

  issues_of : Text → Lines → List Issue
  issues_of path l =
      (if l.limited then record { path = path; reason = codes "read_limit_reached" } ∷ [] else [])
      ++ (if l.oversized
          then record { path = path; reason = codes "oversized_line_skipped" } ∷ []
          else [])

  read_from : ℕ → Text → FileCursor → ℕ → Text → Option Start → Read
  unfolding unread issues_of
  read_from max_read path previous max_lines file none = unread path previous (codes "unreadable")
  read_from max_read path previous max_lines file (some start) =
      elim (read_lines max_read path file start.offset max_lines) [
        | none ↦ unread path previous (codes "unreadable")
        | some l ↦ record {
          cursor = record {
            exists = true;
            offset = pos l.next_offset;
            prefix_bytes = start.prefix_bytes;
            prefix_hash = start.prefix_hash;
          };
          lines = l.lines;
          issues = issues_of path l;
          readable = true;
        }
      ]

  -- `readPath`
  unfoldable pub read_path : ℕ → Text → FileCursor → Bool → ℕ → Log → Read
  unfolding read_from start_of
  read_path max_read path previous state_exists max_lines absent = record {
    cursor = record { exists = false; offset = pos 0; prefix_bytes = pos 0; prefix_hash = [] };
    lines = [];
    issues = [];
    readable = false;
  }
  read_path max_read path previous state_exists max_lines unsafe =
      unread path previous (codes "unreadable_or_unsafe")
  read_path max_read path previous state_exists max_lines (regular file) =
      let bytes =
        if not previous.exists || eq_ℤ previous.prefix_bytes (pos 0)
        then first_prefix file
        else previous.prefix_bytes in
      elim (hash_prefix file bytes) [
        | none ↦ unread path previous (codes "unreadable")
        | some hash ↦
            read_from max_read path previous max_lines file
              (start_of file previous state_exists bytes hash)
      ]
