-- ===== src/Detector/Runtime/Capture.antt =====
-- `capture` of internal/detector/runtimewatch/runtimewatch.go, from what /proc shows; a scan that is cancelled is
-- not modelled. The texts of /proc are ASCII.
pub mod Ports
pub mod Processes
use my_safe.Prelude.{
  ℕ, ◌-◌, ◌+◌, ◌*◌, ◌^◌, ◌==◌, Bool, true, false, not, ◌||◌, ◌&&◌, Option, none, some, List, [],
  ◌∷◌, ◌++◌, length, take, ltb, leb, if◌then◌else◌,
}
use my_safe.Prelude.Text.{
  Text, codes, text_eq, is_empty, cut_byte, cut_prefix, trim_space, has_suffix,
}
use my_safe.Prelude.Text.Lines.{scan_lines, fields, trim_byte, parse_hex}
use my_safe.Prelude.Text.Number.{show_nat, parse_uint64}
use my_safe.Prelude.Dict.{Dict, lookup, insert}
use my_safe.Detector.Ssh.{hex}
use my_safe.Detector.Runtime.{
  ProcessEntry, PortEntry, RuntimeIssue, tcp4, tcp6, wildcard, loopback, specific, valid_executable,
  valid_process_name,
}

-- An entry of /proc: its status, if it can be read, and the target of its `exe` link.
pub record ProcItem : Type 0 where
  pub name : Text
  pub is_dir : Bool
  pub status : Option Text
  pub exe : Option Text

-- A table of sockets: missing, unreadable or over the size limit, or its text.
pub data Table : Type 0 where
  missing unreadable : Table
  table : Text → Table

-- `captureResult`
pub record Captured : Type 0 where
  pub processes : Dict ProcessEntry
  pub ports : Dict PortEntry
  pub process_complete : Bool
  pub tcp4_complete : Bool
  pub tcp6_complete : Bool
  pub issues : List RuntimeIssue

abbrev max_status_bytes : ℕ
max_status_bytes = 64 * 1024

all_digits : Text → Bool
all_digits [] = true
all_digits (c ∷ s) = leb b'0' c && leb c b'9' && all_digits s

unfoldable pub numeric : Text → Bool
unfolding all_digits
numeric t = not (is_empty t) && all_digits t

-- `strings.ToUpper` on ASCII.
to_upper : Text → Text
to_upper [] = []
to_upper (c ∷ s) = (if leb b'a' c && leb c b'z' then c - 32 else c) ∷ to_upper s

first_uid : List Text → Option ℕ → Option ℕ
first_uid [] uid = uid
first_uid (t ∷ ts) uid = elim (parse_uint64 t) [
  | none ↦ uid
  | some n ↦ if ltb n (2 ^ 32) then some n else uid
]

-- The loop over the lines of a status: the name and the user, the last of each.
status_from : List Text → Text → Option ℕ → Text × Option ℕ
unfolding first_uid
status_from [] name uid = (name, uid)
status_from (line ∷ lines) name uid =
    status_from lines
      (elim (cut_prefix line (codes "Name:\t")) [ none ↦ name | some value ↦ trim_space value ])
      (elim (cut_prefix line (codes "Uid:\t")) [
        | none ↦ uid
        | some value ↦ first_uid (fields value) uid
      ])

executable_of : Option Text → Text
executable_of none = []
executable_of (some target) = if valid_executable target then target else []

-- `addressScope`
unfoldable pub address_scope : Text → Text → Text
unfolding trim_byte text_eq
address_scope address family =
    if is_empty (trim_byte b'0' address)
    then wildcard
    else if text_eq family tcp4 && length address == 8 && has_suffix address (codes "00007F")
    then loopback
    else if text_eq family tcp6
        && (text_eq address (codes "00000000000000000000000001000000")
            || text_eq address (codes "00000000000000000000000000000001"))
    then loopback
    else specific

-- A line of a table that is a listening socket.
unfoldable pub listening_socket : Text → List Text → Option PortEntry
unfolding address_scope to_upper
listening_socket family (slot ∷ local_address ∷ remote ∷ state ∷ more) =
    if not (text_eq state (codes "0A")) then none else elim (cut_byte b':' local_address) [
      | none ↦ none
      | some (raw_address, raw_port) ↦ elim (parse_hex 16 raw_port) [
        | none ↦ none
        | some port ↦
            let address = to_upper raw_address in
            if port == 0
            then none
            else some (record {
              key = family ++ codes "|" ++ address ++ codes "|" ++ show_nat port;
              family = family;
              port = port;
              scope = address_scope address family;
              protocol = codes "tcp";
            })
      ]
    ]
listening_socket family _ = none

sockets_from : Text → ℕ → List Text → Dict PortEntry → Dict PortEntry × Bool
unfolding listening_socket
sockets_from family limit [] found = (found, false)
sockets_from family limit (line ∷ lines) found = elim (listening_socket family (fields line)) [
  | none ↦ sockets_from family limit lines found
  | some p ↦
      let more = insert p.key p found in
      let rest = sockets_from family limit lines more in
      if leb limit (length more) then (more, true) else rest
]

-- `parseListeningPorts`, with whether the limit was reached.
unfoldable pub parse_listening_ports : Text → Text → ℕ → Dict PortEntry × Bool
unfolding sockets_from
parse_listening_ports content family limit = sockets_from family limit (scan_lines content) []

put_all : Dict PortEntry → Dict PortEntry → Dict PortEntry
unfolding insert
put_all [] ports = ports
put_all ((key, p) ∷ new) ports = put_all new (insert key p ports)

limited_issue : Bool → Text → List RuntimeIssue
limited_issue limited family =
    if limited then record { area = family; reason = codes "socket_limit_exceeded" } ∷ [] else []

unreadable_issue : Text → RuntimeIssue
unreadable_issue family = record { area = family; reason = codes "socket_table_unreadable" }

-- The table of a family: whether it was read to its end, the issues, and the ports with those so far.
unfoldable pub table_ports :
    Text → ℕ → Table → Dict PortEntry → Bool × List RuntimeIssue × Dict PortEntry
unfolding limited_issue unreadable_issue put_all
table_ports family limit missing ports =
    if text_eq family tcp6 then (true, [], ports) else (false, unreadable_issue family ∷ [], ports)
table_ports family limit unreadable ports = (false, unreadable_issue family ∷ [], ports)
table_ports family limit (table content) ports =
    let (found, limited) = parse_listening_ports content family limit in
    (not limited, limited_issue limited family, put_all found ports)

module _ (sha256 : Text → Text) where
  make_process : Text → Option ℕ → Text → Option ProcessEntry
  unfolding hex
  make_process name none executable = none
  make_process name (some uid) executable =
      let material = if is_empty executable then codes "name:" ++ name else executable in
      if not (valid_process_name name)
      then none
      else some (record {
        identity = hex (sha256 (show_nat uid ++ 0 ∷ material));
        name = name;
        uid = uid;
        executable = executable;
        last_seen = 0;
      })

  -- `readProcess`
  unfoldable pub read_process : ProcItem → Option ProcessEntry
  unfolding status_from executable_of make_process
  read_process p = elim p.status [
    | none ↦ none
    | some content ↦
        let (name, uid) = status_from (scan_lines (take max_status_bytes content)) [] none in
        make_process name uid (executable_of p.exe)
  ]

  add_process : Option ProcessEntry → Dict ProcessEntry → Dict ProcessEntry
  unfolding insert
  add_process none found = found
  add_process (some p) found = insert p.identity p found

  -- The loop over /proc, with the number of processes so far: the processes, and whether the limit holds.
  unfoldable pub processes_from :
      ℕ → ℕ → List ProcItem → Dict ProcessEntry → Dict ProcessEntry × Bool
  unfolding add_process read_process
  processes_from limit count [] found = (found, true)
  processes_from limit count (item ∷ items) found =
      let skipped = processes_from limit count items found in
      let added = processes_from limit (count + 1) items (add_process (read_process item) found) in
      if not item.is_dir || not (numeric item.name)
      then skipped
      else if ltb limit (count + 1)
      then (found, false)
      else added

  unfoldable pub all_processes :
      ℕ → Option (List ProcItem) → Dict ProcessEntry × Bool × List RuntimeIssue
  unfolding processes_from
  all_processes limit none =
      ([], false, record { area = codes "processes"; reason = codes "proc_unreadable" } ∷ [])
  all_processes limit (some items) =
      let (found, complete) = processes_from limit 0 items [] in
      (
        found,
        complete,
        if complete
            then []
            else record { area = codes "processes"; reason = codes "process_limit_exceeded" } ∷ [],
      )

  -- `capture`
  unfoldable pub capture : ℕ → ℕ → Option (List ProcItem) → Table → Table → Captured
  unfolding all_processes table_ports
  capture max_processes max_ports proc tcp_table tcp6_table =
      let (processes, complete, issues) = all_processes max_processes proc in
      let (complete4, issues4, ports4) = table_ports tcp4 max_ports tcp_table [] in
      let (complete6, issues6, ports6) = table_ports tcp6 max_ports tcp6_table ports4 in
      record {
        processes = processes;
        ports = ports6;
        process_complete = complete;
        tcp4_complete = complete4;
        tcp6_complete = complete6;
        issues = issues ++ issues4 ++ issues6;
      }
