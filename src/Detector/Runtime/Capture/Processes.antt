-- ===== src/Detector/Runtime/Capture/Processes.antt =====
-- The processes that `readProcess` of internal/detector/runtimewatch/runtimewatch.go gives are in order, and `capture`
-- with them. SHA-256 gives 32 bytes.
use my_safe.Prelude.{
  ℕ, ◌+◌, ◌/◌, ◌%◌, ◌*◌, ◌<◌, ◌≤◌, ◌==◌, ◌≡◌, refl, sym, if◌then◌else◌, inl, inr, Bool, true, not,
  ◌||◌, Option, none, some, List, [], ◌∷◌, ◌++◌, arith, All, length, ltb, take, Bool-cases,
  Option-cases,
}
use mathlib.Core.Path.{subst}
use my_safe.Prelude.Text.{Text, codes, text_eq_refl, is_empty, contains_any}
use my_safe.Prelude.Text.Lines.{scan_lines}
use my_safe.Prelude.Text.Number.{show_nat}
use my_safe.Prelude.Dict.{Dict, length-insert-le}
use my_safe.Prelude.Maps.{All-insert}
use my_safe.Detector.Ssh.{hex, hex_digit}
use my_safe.Detector.Ssh.State.{valid_sha256, all_hex, is_hex}
use my_safe.Detector.Runtime.{ProcessEntry, valid_executable, valid_process_name, tcp4, tcp6}
use my_safe.Detector.Runtime.State.{valid_process}
use my_safe.Detector.Runtime.Capture.{
  ProcItem, Table, numeric, executable_of, make_process, read_process, status_from, add_process,
  processes_from, all_processes, table_ports, capture, max_status_bytes,
}
use my_safe.Detector.Runtime.Scan.Kept.{IsSeen, IsCaptured}
use my_safe.Detector.Runtime.Capture.Ports.{table_ports-IsPort}

-- A hash is 32 bytes.
abbrev pub IsHash : Text → Type 0
IsHash h = (length h ≡ 32) × All (λ (b : ℕ). b < 256) h

length-hex : (bs : Text) → length (hex bs) ≡ 2 * length bs
unfolding hex
length-hex [] = refl
length-hex (b ∷ bs) = omega (arith, length-hex bs)

hex_digit-is_hex : (n : ℕ) → n < 16 → is_hex (hex_digit n) ≡ true
unfolding hex_digit
hex_digit-is_hex n h = ground arith

hex-all_hex : (bs : Text) → All (λ (b : ℕ). b < 256) bs → all_hex (hex bs) ≡ true
unfolding hex all_hex
hex-all_hex [] h = refl
hex-all_hex (b ∷ bs) h =
    let low = h.0 in
    rw
      (
        hex_digit-is_hex (b / 16) (omega arith),
        hex_digit-is_hex (b % 16) (omega arith),
        hex-all_hex bs h.1,
      )
      refl

hex-valid_sha256 : (bs : Text) → IsHash bs → valid_sha256 (hex bs) ≡ true
unfolding valid_sha256
hex-valid_sha256 bs (len, bytes) =
    let long : (length (hex bs) == 64) ≡ true = ground (arith, length-hex bs) in
    rw (long, hex-all_hex bs bytes) refl

no_executable : valid_executable [] ≡ true
unfolding valid_executable contains_any
no_executable = refl

executable_of-valid : (exe : Option Text) → valid_executable (executable_of exe) ≡ true
unfolding executable_of
executable_of-valid none = no_executable
executable_of-valid (some target) = elim (Bool-cases (valid_executable target)) [
  | inl valid ↦
      subst (λ (b : Bool). valid_executable (if b then target else []) ≡ true) (sym valid) valid
  | inr bad ↦
      subst (λ (b : Bool). valid_executable (if b then target else []) ≡ true) (sym bad)
        no_executable
]

abbrev IsSeenOption : Option ProcessEntry → Type 0
IsSeenOption none = Unit
IsSeenOption (some p) = IsSeen (p.identity, p)

module _ (sha256 : Text → Text) (hashes : (t : Text) → IsHash (sha256 t)) where
  make_process-IsSeen :
      (name : Text) (uid : Option ℕ) (executable : Text)
      → valid_executable executable ≡ true
      → IsSeenOption (make_process sha256 name uid executable)
  unfolding make_process valid_process
  make_process-IsSeen name none executable h = tt
  make_process-IsSeen name (some uid) executable h = elim (Bool-cases (valid_process_name name)) [
    | inr bad ↦ rw bad tt
    | inl valid ↦
        let material : Text =
          show_nat uid ++ 0 ∷ (if is_empty executable then codes "name:" ++ name else executable) in
        rw valid (
          rw
            (
              text_eq_refl (hex (sha256 material)),
              hex-valid_sha256 (sha256 material) (hashes material),
              valid,
              h,
            )
            refl)
  ]

  read_process-IsSeen : (item : ProcItem) → IsSeenOption (read_process sha256 item)
  unfolding read_process
  read_process-IsSeen item = elim (Option-cases item.status) [
    | inl hidden ↦ rw (hidden, read_process) tt
    | inr (content, there) ↦
        let (name, uid) = status_from (scan_lines (take max_status_bytes content)) [] none in
        rw (there, read_process)
          (make_process-IsSeen name uid (executable_of item.exe) (executable_of-valid item.exe))
  ]

  -- The processes so far: in order, and no more than were counted.
  abbrev AreCounted : ℕ → Dict ProcessEntry → Type 0
  AreCounted count found = All IsSeen found × (length found ≤ count)

  add_process-AreCounted :
      (count : ℕ) (p : Option ProcessEntry) (found : Dict ProcessEntry)
      → IsSeenOption p
      → AreCounted count found
      → AreCounted (count + 1) (add_process sha256 p found)
  unfolding add_process
  add_process-AreCounted count none found h (all, few) = (all, omega arith)
  add_process-AreCounted count (some p) found h (all, few) = (
    All-insert IsSeen p.identity p found h all,
    omega (arith, length-insert-le p.identity p found, few),
  )

  processes_from-AreCounted :
      (limit count : ℕ) (items : List ProcItem) (found : Dict ProcessEntry)
      → count ≤ limit
      → AreCounted count found
      → AreCounted limit (processes_from sha256 limit count items found).0
  unfolding processes_from
  processes_from-AreCounted limit count [] found h (all, few) = (all, omega arith)
  processes_from-AreCounted limit count (i ∷ items) found h (all, few) =
      elim (Bool-cases (not i.is_dir || not (numeric i.name))) [
        | inl skipped ↦ rw skipped (processes_from-AreCounted limit count items found h (all, few))
        | inr process ↦ elim (Bool-cases (ltb limit (count + 1))) [
          | inl over ↦ rw (process, over) (all, omega arith)
          | inr within ↦
              rw (process, within)
                (processes_from-AreCounted limit (count + 1) items
                  (add_process sha256 (read_process sha256 i) found) (ground arith)
                  (add_process-AreCounted count (read_process sha256 i) found
                    (read_process-IsSeen i) (all, few)))
        ]
      ]

  all_processes-AreCounted :
      (limit : ℕ) (proc : Option (List ProcItem))
      → AreCounted limit (all_processes sha256 limit proc).0
  unfolding all_processes
  all_processes-AreCounted limit none = (tt, omega arith)
  all_processes-AreCounted limit (some items) =
      processes_from-AreCounted limit 0 items [] (omega arith) (tt, omega arith)

  -- What is captured from /proc, whatever it shows, is in order: entries that the state may hold, and no more
  -- processes than may be known; SHA-256 gives 32 bytes.
  pub capture-IsCaptured :
      (max_processes max_known max_ports : ℕ) (proc : Option (List ProcItem))
      (tcp_table tcp6_table : Table)
      → max_processes ≤ max_known
      → IsCaptured max_known (capture sha256 max_processes max_ports proc tcp_table tcp6_table)
  unfolding capture
  capture-IsCaptured max_processes max_known max_ports proc tcp_table tcp6_table h =
      let (seen, few) = all_processes-AreCounted max_processes proc in
      let ports4 = table_ports-IsPort tcp4 max_ports tcp_table [] (inl refl) tt in
      record {
        processes = seen;
        few = omega arith;
        ports =
            table_ports-IsPort tcp6 max_ports tcp6_table (table_ports tcp4 max_ports tcp_table []).2
              (inr refl) ports4;
      }
