-- ===== src/Detector/Runtime/State.antt =====
-- `validateState` and `saveState` of internal/detector/runtimewatch/runtimewatch.go.
pub mod Checks
use my_safe.Prelude.{
  ℕ, ◌*◌, ◌++◌, ◌==◌, Bool, true, not, ◌||◌, ◌&&◌, Option, none, some, List, [], ◌∷◌, length, ltb,
  if◌then◌else◌,
}
use my_safe.Prelude.Text.{Text, codes, text_eq, is_empty}
use my_safe.Prelude.Dict.{Dict, lookup}
use my_safe.Detector.Ssh.State.{valid_sha256}
use my_safe.Detector.Runtime.{
  ProcessEntry, PortEntry, RuntimeState, tcp4, tcp6, wildcard, loopback, specific, valid_executable,
  valid_process_name,
}

pub data RuntimeStateError : Type 0 where
  unsupported bad_collections bad_process bad_name_index bad_port : RuntimeStateError

unfoldable pub valid_process : Text → ProcessEntry → Bool
unfolding valid_sha256
valid_process identity p =
    text_eq identity p.identity
    && valid_sha256 identity
    && valid_process_name p.name
    && not (p.last_seen == 0)
    && valid_executable p.executable

unfoldable pub all_valid_processes : Dict ProcessEntry → Bool
unfolding valid_process
all_valid_processes [] = true
all_valid_processes ((identity, p) ∷ known) = valid_process identity p && all_valid_processes known

-- `known[identity].Identity != ""`
abbrev pub is_known : Option ProcessEntry → Bool
is_known none = not true
is_known (some p) = not (is_empty p.identity)

unfoldable pub all_valid_names : Dict ProcessEntry → Dict Text → Bool
unfolding valid_sha256 lookup
all_valid_names known [] = true
all_valid_names known ((_, identity) ∷ names) =
    valid_sha256 identity && is_known (lookup identity known) && all_valid_names known names

unfoldable pub valid_port : Text → PortEntry → Bool
valid_port key p =
    text_eq key p.key
    && text_eq p.protocol (codes "tcp")
    && (text_eq p.family tcp4 || text_eq p.family tcp6)
    && not (p.port == 0)
    && not (ltb 65535 p.port)
    && (text_eq p.scope wildcard || text_eq p.scope loopback || text_eq p.scope specific)

unfoldable pub all_valid_ports : Dict PortEntry → Bool
unfolding valid_port
all_valid_ports [] = true
all_valid_ports ((key, p) ∷ ports) = valid_port key p && all_valid_ports ports

-- `validateState`. A nil map has no place here: a dictionary is always there.
unfoldable pub validate_runtime_state : ℕ → RuntimeState → Option RuntimeStateError
unfolding all_valid_processes all_valid_names all_valid_ports
validate_runtime_state max_known s =
    if not (s.schema_version == 1) || s.generation == 0
    then some unsupported
    else if ltb max_known (length s.known)
    then some bad_collections
    else if not (all_valid_processes s.known)
    then some bad_process
    else if not (all_valid_names s.known s.names)
    then some bad_name_index
    else if not (all_valid_ports s.ports)
    then some bad_port
    else none

abbrev pub max_state_bytes : ℕ
max_state_bytes = 16 * 1024 * 1024

pub data SaveError : Type 0 where
  invalid : RuntimeStateError → SaveError
  too_large unwritten : SaveError

-- `saveState`: `encode` is the indented JSON, to which a newline is added, and `writes` is whether the file and
-- its directory can be written. The result is what the file holds.
unfoldable pub save_state :
    (RuntimeState → Text) → Bool → ℕ → RuntimeState → Option SaveError × Option Text
unfolding validate_runtime_state
save_state encode writes max_known s =
    let encoded = encode s ++ 10 ∷ [] in
    elim (validate_runtime_state max_known s) [
      | some e ↦ (some (invalid e), none)
      | none ↦
          if ltb max_state_bytes (length encoded)
          then (some too_large, none)
          else if not writes
          then (some unwritten, none)
          else (none, some encoded)
    ]
