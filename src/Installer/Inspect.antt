-- ===== src/Installer/Inspect.antt =====
-- internal/installer/inspect.go and model.go: what is read off the machine. Architecture, release and
-- ports are read from texts; the tools are run, and the Nginx files searched, outside the model.
use my_safe.Prelude.{
  ℕ, ltb, ◌==◌, Bool, false, not, ◌||◌, ◌&&◌, Option, none, some, List, [], ◌∷◌, ◌++◌,
  if◌then◌else◌, length, take,
}
use my_safe.Prelude.Text.{
  Text, codes, text_eq, is_empty, has_prefix, cut_byte, split_byte, trim_space, to_lower,
}
use my_safe.Prelude.Text.Lines.{newline, scan_lines, fields, trim_byte, parse_hex}
use my_safe.Prelude.Dict.{Dict, lookup, insert}

pub data SupportLevel : Type 0 where
  stable experimental unsupported : SupportLevel

pub record Tool : Type 0 where
  pub available : Bool
  pub version : Text

pub record ProxyCandidate : Type 0 where
  pub config_path : Text
  pub upstream : Text
  pub port : ℕ
  pub directive : Text

pub record Environment : Type 0 where
  pub os_id : Text
  pub os_version : Text
  pub os_codename : Text
  pub architecture : Text
  pub support : SupportLevel
  pub systemd : Tool
  pub nginx : Tool
  pub docker : Tool
  pub docker_compose : Tool
  pub listening_ports : List ℕ
  pub proxy_candidates : List ProxyCandidate
  pub warnings : List Text

-- `majorMinor`
unfoldable pub major_minor : Text → Text
unfolding split_byte
major_minor version = elim (split_byte b'.' version) [
  | [] ↦ version
  | major ∷ rest ↦ elim rest [ [] ↦ version | minor ∷ more ↦ major ++ b'.' ∷ minor ]
]

ubuntu_support : Text → SupportLevel
ubuntu_support v =
    if text_eq v (codes "22.04") || text_eq v (codes "24.04")
    then stable
    else if text_eq v (codes "26.04")
    then experimental
    else unsupported

debian_support : Text → SupportLevel
debian_support v = if text_eq v (codes "12") || text_eq v (codes "13") then stable else unsupported

-- `supportLevel`
unfoldable pub support_level : Text → Text → Text → SupportLevel
unfolding ubuntu_support debian_support
support_level os_id version architecture =
    if not (text_eq architecture (codes "amd64")) && not (text_eq architecture (codes "arm64"))
    then unsupported
    else if text_eq os_id (codes "ubuntu")
    then ubuntu_support (major_minor version)
    else if text_eq os_id (codes "debian")
    then debian_support (major_minor version)
    else unsupported

-- `normalizeArchitecture`
unfoldable pub normalize_architecture : Text → Text
unfolding trim_space to_lower
normalize_architecture architecture =
    let name = to_lower (trim_space architecture) in
    if text_eq name (codes "x86_64") || text_eq name (codes "x64") || text_eq name (codes "amd64")
    then codes "amd64"
    else if text_eq name (codes "aarch64") || text_eq name (codes "arm64")
    then codes "arm64"
    else name

release_field : Text → Dict Text → Dict Text
unfolding insert cut_byte
release_field raw found =
    let line = trim_space raw in
    if is_empty line || has_prefix line (b'#' ∷ []) then found else elim (cut_byte b'=' line) [
      | none ↦ found
      | some (key, value) ↦ insert (trim_space key) (trim_byte 34 (trim_space value)) found
    ]

release_fields : List Text → Dict Text → Dict Text
unfolding release_field
release_fields [] found = found
release_fields (line ∷ lines) found = release_fields lines (release_field line found)

-- `parseOSRelease`
unfoldable pub parse_os_release : Text → Dict Text
unfolding release_fields
parse_os_release content = release_fields (scan_lines content) []

-- `fields[key]`, empty where the key is missing.
abbrev text_at : Text → Dict Text → Text
text_at key found = elim (lookup key found) [ none ↦ [] | some value ↦ value ]

-- `firstNonEmpty`
unfoldable pub first_non_empty : List Text → Text
first_non_empty [] = []
first_non_empty (value ∷ values) = if is_empty value then first_non_empty values else value

-- What `Inspect` finds out about the system from /etc/os-release.
unfoldable pub inspect_release : Text → Text → Environment → Environment
unfolding lookup
inspect_release architecture content e =
    let found = parse_os_release content in
    let arch = normalize_architecture architecture in
    let os_id = to_lower (text_at (codes "ID") found) in
    let os_version = text_at (codes "VERSION_ID") found in
    record e {
      architecture = arch;
      os_id = os_id;
      os_version = os_version;
      os_codename =
          first_non_empty (
            text_at (codes "VERSION_CODENAME") found
            ∷ text_at (codes "UBUNTU_CODENAME") found
            ∷ []);
      support = support_level os_id os_version arch;
    }

max_output_line : ℕ
max_output_line = 256

first_line : List Text → Text
unfolding trim_space max_output_line
first_line [] = []
first_line (raw ∷ lines) =
    let line = trim_space raw in
    let rest = first_line lines in
    if is_empty line
    then rest
    else if ltb max_output_line (length line)
    then take max_output_line line
    else line

without_crlf : Text → Text
without_crlf [] = []
without_crlf (c ∷ []) = c ∷ []
without_crlf (c ∷ d ∷ s) =
    let rest = without_crlf (d ∷ s) in if c == 13 && d == newline then rest else c ∷ rest

-- `firstOutputLine`
unfoldable pub first_output_line : Text → Text
unfolding first_line without_crlf
first_output_line output = first_line (split_byte newline (without_crlf output))

-- `inspectTool`: whether the tool is found, and whether its run succeeds with what output.
unfoldable pub inspect_tool : Bool → Bool → Text → Tool
unfolding first_output_line
inspect_tool found succeeds output =
    let version = first_output_line output in
    if not found
    then record { available = false; version = [] }
    else record { available = succeeds || not (is_empty version); version = version }

-- A number put into a sorted list, once.
unfoldable pub insert_port : ℕ → List ℕ → List ℕ
insert_port p [] = p ∷ []
insert_port p (q ∷ qs) =
    let rest = insert_port p qs in
    if ltb p q then p ∷ q ∷ qs else if p == q then q ∷ qs else q ∷ rest

-- The port of a line of /proc/net/tcp that is in the state LISTEN.
unfoldable pub listening_port : List Text → Option ℕ
unfolding cut_byte
listening_port (slot ∷ local_address ∷ remote ∷ state ∷ more) =
    if not (text_eq state (codes "0A")) then none else elim (cut_byte b':' local_address) [
      | none ↦ none
      | some (address, raw_port) ↦ elim (parse_hex 16 raw_port) [
        | none ↦ none
        | some port ↦ if port == 0 then none else some port
      ]
    ]
listening_port _ = none

ports_of : List Text → List ℕ
unfolding listening_port
ports_of [] = []
ports_of (line ∷ lines) =
    let ports = ports_of lines in
    elim (listening_port (fields line)) [ none ↦ ports | some port ↦ insert_port port ports ]

-- `parseListeningPorts`
unfoldable pub parse_listening_ports : Text → List ℕ
unfolding ports_of
parse_listening_ports content = ports_of (scan_lines content)

unfoldable pub all_ports : List ℕ → List ℕ → List ℕ
all_ports [] ports = ports
all_ports (p ∷ ps) ports = insert_port p (all_ports ps ports)

-- `inspectListeningPorts`: the files that can be read.
unfoldable pub inspect_listening_ports : List (Option Text) → List ℕ
unfolding all_ports
inspect_listening_ports [] = []
inspect_listening_ports (none ∷ files) = inspect_listening_ports files
inspect_listening_ports (some content ∷ files) =
    all_ports (parse_listening_ports content) (inspect_listening_ports files)
