-- ===== src/Tests/RuntimeTests.antt =====
-- The runtime detector at one process and a socket that opens.
use my_safe.Prelude.{
  ℕ, zero, suc, All, Has, ◌<◌, ◌≡◌, refl, inl, true, false, none, some, List, [], ◌∷◌, arith,
}
use my_safe.Prelude.Text.{Text, codes, text_eq, cut_byte, has_suffix}
use my_safe.Prelude.Text.Lines.{scan_lines, fields, parse_hex}
use my_safe.Prelude.Text.Number.{show_nat}
use my_safe.Prelude.Dict.{lookup}
use my_safe.Domain.{Event}
use my_safe.Detector.Runtime.{RuntimeState, RuntimeIssue, PortEntry, tcp4, port_event}
use my_safe.Detector.Runtime.Capture.{
  Captured, ProcItem, Table, table, missing, unreadable, capture, parse_listening_ports,
}
use my_safe.Detector.Runtime.Capture.Processes.{IsHash}
use my_safe.Detector.Runtime.State.{validate_runtime_state}
use my_safe.Detector.Runtime.Scan.{
  scan, scan_events, next_state, changes, port_changes, port_change, coverage_events, with_overflow,
  issues_hash,
}
use my_safe.Detector.Runtime.Maps.{union_keys, next_ports, append_all, append_bounded, sort_issues}
use my_safe.Detector.Runtime.Scan.Ports.{IsReported, port_kind, scan_events-HasChanged}
use my_safe.Prelude.Maps.{IsMap}
use my_safe.Detector.Runtime.Scan.Limited.{next_state-IsLimited}
use my_safe.Detector.Runtime.Scan.Listed.{HasChanged}
use my_safe.Detector.Runtime.Scan.Sources.{scan_events-IsOfChange}
use my_safe.Detector.Runtime.Scan.Valid.{Commits, scan-capture-IsSaved}
use my_safe.Tests.Fixtures.{hash, bytes}

bytes-small : (n : ℕ) → All (λ (b : ℕ). b < 256) (bytes n)
bytes-small zero = tt
bytes-small (suc n) = (omega arith, bytes-small n)

hash-IsHash : (t : Text) → IsHash (hash t)
hash-IsHash t = (refl, bytes-small 32)

abbrev no_json : List RuntimeIssue → Text
no_json issues = codes "[]"

abbrev sshd : ProcItem
sshd = record {
  name = codes "12";
  is_dir = true;
  status = some (codes "Name:\tsshd\nUid:\t0\t0\n");
  exe = none;
}

abbrev sockets : Table
sockets = table (codes "  0: 0100007F:0016 00000000:0000 0A\n")

abbrev old_state : RuntimeState
old_state = record {
  schema_version = 1;
  generation = 3;
  coverage_hash = [];
  known = [];
  names = [];
  ports = [];
}

abbrev ssh_port : PortEntry
ssh_port = record {
  key = codes "tcp4|0100007F|22";
  family = tcp4;
  port = 22;
  scope = codes "loopback";
  protocol = codes "tcp";
}

-- What is read: one process, and the port of SSH.
abbrev seen : Captured
seen = capture hash 5 10 (some (sshd ∷ [])) sockets missing

seen_port : lookup (codes "tcp4|0100007F|22") seen.ports ≡ some ssh_port
unfolding lookup capture text_eq parse_listening_ports scan_lines fields cut_byte parse_hex show_nat
    has_suffix
seen_port = refl

no_port : lookup (codes "tcp4|0100007F|22") old_state.ports ≡ none
unfolding lookup
no_port = refl

old_state-valid : validate_runtime_state 10 old_state ≡ none
unfolding validate_runtime_state
old_state-valid = refl

abbrev no_encoding : RuntimeState → Text
no_encoding s = codes "{}"

scan-capture-IsSaved_example :
    Commits no_encoding 10 (scan hash no_json 10 50 7 (some old_state) seen)
scan-capture-IsSaved_example =
    scan-capture-IsSaved hash hash-IsHash no_json 5 10 50 10 7 no_encoding (some (sshd ∷ []))
      sockets missing (some old_state) (omega arith) (old_state-valid, tt)

scan_events-HasChanged_example :
    IsReported hash no_json 10 50 7 old_state seen (port_event hash ssh_port true 7 3)
scan_events-HasChanged_example =
    scan_events-HasChanged hash no_json 10 50 7 old_state seen (codes "tcp4|0100007F|22") ssh_port
      true tt (no_port, seen_port)

-- The same host, when its table of sockets can no longer be read.
abbrev listening_state : RuntimeState
listening_state = record old_state { ports = (codes "tcp4|0100007F|22", ssh_port) ∷ [] }

abbrev unseen : Captured
unseen = capture hash 5 10 (some (sshd ∷ [])) unreadable missing

was_listening : lookup (codes "tcp4|0100007F|22") listening_state.ports ≡ some ssh_port
unfolding lookup text_eq
was_listening = refl

unseen_limited : unseen.tcp4_complete ≡ false
unfolding capture text_eq
unseen_limited = refl

listening_ports-IsMap : IsMap listening_state.ports
unfolding lookup
listening_ports-IsMap = (refl, tt)

next_state-IsLimited_example :
    lookup
      (codes "tcp4|0100007F|22")
      (next_state hash no_json 10 50 7 listening_state unseen 4).ports
    ≡ some ssh_port
next_state-IsLimited_example =
    next_state-IsLimited hash no_json 10 50 7 listening_state unseen 4 (codes "tcp4|0100007F|22")
      ssh_port listening_ports-IsMap was_listening (inl (refl, unseen_limited))

abbrev opening : Event
opening = port_event hash ssh_port true 7 3

opening-kind : opening.kind ≡ port_kind true
unfolding port_event
opening-kind = refl

-- What is read where no process can be.
abbrev only_ports : Captured
only_ports = record seen { process_complete = false; processes = []; issues = [] }

opening_there : Has opening (scan_events hash no_json 10 50 7 true old_state only_ports)
unfolding scan_events changes port_changes port_change union_keys next_ports lookup capture text_eq
    parse_listening_ports scan_lines fields cut_byte parse_hex show_nat has_suffix append_all
    append_bounded coverage_events with_overflow issues_hash sort_issues
opening_there = inl refl

scan_events-IsOfChange_example :
    (key : Text) × (p : PortEntry) × HasChanged old_state only_ports key p true
    × (opening ≡ port_event hash p true 7 3)
scan_events-IsOfChange_example =
    scan_events-IsOfChange hash no_json 10 50 7 old_state only_ports opening true opening_there
      opening-kind
