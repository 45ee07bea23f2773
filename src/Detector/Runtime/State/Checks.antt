-- ===== src/Detector/Runtime/State/Checks.antt =====
-- The checks of `validateState` of internal/detector/runtimewatch/runtimewatch.go as predicates on every entry.
use my_safe.Prelude.{ℕ, ◌≤◌, ◌≡◌, refl, true, none, [], ◌∷◌, arith, All, length, and_true}
use my_safe.Prelude.Text.{Text}
use my_safe.Prelude.Dict.{Dict, lookup}
use my_safe.Detector.Ssh.State.{valid_sha256}
use my_safe.Detector.Runtime.{ProcessEntry, PortEntry, RuntimeState}
use my_safe.Detector.Runtime.State.{
  valid_process, all_valid_processes, is_known, all_valid_names, valid_port, all_valid_ports,
  validate_runtime_state,
}

abbrev pub IsProcess : Text × ProcessEntry → Type 0
IsProcess (identity, p) = valid_process identity p ≡ true

abbrev pub IsName : Dict ProcessEntry → Text × Text → Type 0
IsName known (key, identity) =
    (valid_sha256 identity ≡ true) × (is_known (lookup identity known) ≡ true)

abbrev pub IsPort : Text × PortEntry → Type 0
IsPort (key, p) = valid_port key p ≡ true

-- A state that `validateState` accepts.
pub record IsRuntimeState (max_known : ℕ) (s : RuntimeState) : Type 0 where
  pub schema : s.schema_version ≡ 1
  pub generation : 1 ≤ s.generation
  pub few : length s.known ≤ max_known
  pub processes : All IsProcess s.known
  pub names : All (IsName s.known) s.names
  pub ports : All IsPort s.ports

processes_valid :
    (known : Dict ProcessEntry) → All IsProcess known → all_valid_processes known ≡ true
unfolding all_valid_processes
processes_valid [] h = refl
processes_valid ((k, p) ∷ known) h = rw (h.0, processes_valid known h.1) refl

names_valid :
    (known : Dict ProcessEntry) (names : Dict Text)
    → All (IsName known) names
    → all_valid_names known names ≡ true
unfolding all_valid_names
names_valid known [] h = refl
names_valid known ((k, i) ∷ names) h = rw (h.0.0, h.0.1, names_valid known names h.1) refl

ports_valid : (ports : Dict PortEntry) → All IsPort ports → all_valid_ports ports ≡ true
unfolding all_valid_ports
ports_valid [] h = refl
ports_valid ((k, p) ∷ ports) h = rw (h.0, ports_valid ports h.1) refl

pub validate_runtime_state-none :
    (max_known : ℕ) (s : RuntimeState)
    → IsRuntimeState max_known s
    → validate_runtime_state max_known s ≡ none
unfolding validate_runtime_state
validate_runtime_state-none max_known s h =
    let schema = h.schema in
    let generation = h.generation in
    let few = h.few in
    let p = processes_valid s.known h.processes in
    let n = names_valid s.known s.names h.names in
    let q = ports_valid s.ports h.ports in ground arith

valid_processes :
    (known : Dict ProcessEntry) → all_valid_processes known ≡ true → All IsProcess known
unfolding all_valid_processes
valid_processes [] h = tt
valid_processes ((k, p) ∷ known) h =
    let (first, rest) = and_true (valid_process k p) (all_valid_processes known) h in
    (first, valid_processes known rest)

valid_names :
    (known : Dict ProcessEntry) (names : Dict Text)
    → all_valid_names known names ≡ true
    → All (IsName known) names
unfolding all_valid_names
valid_names known [] h = tt
valid_names known ((k, i) ∷ names) h =
    let (first, rest) = and_true _ _ h in (and_true _ _ first, valid_names known names rest)

valid_ports : (ports : Dict PortEntry) → all_valid_ports ports ≡ true → All IsPort ports
unfolding all_valid_ports
valid_ports [] h = tt
valid_ports ((k, p) ∷ ports) h =
    let (first, rest) = and_true (valid_port k p) (all_valid_ports ports) h in
    (first, valid_ports ports rest)

pub none-IsRuntimeState :
    (max_known : ℕ) (s : RuntimeState)
    → validate_runtime_state max_known s ≡ none
    → IsRuntimeState max_known s
unfolding validate_runtime_state
none-IsRuntimeState max_known s h = record {
  schema = ground arith;
  generation = ground arith;
  few = ground arith;
  processes = valid_processes s.known (ground arith);
  names = valid_names s.known s.names (ground arith);
  ports = valid_ports s.ports (ground arith);
}
