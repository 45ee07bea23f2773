-- ===== src/Detector/Runtime/Config.antt =====
-- `New` of internal/detector/runtimewatch/runtimewatch.go. `abs` is `filepath.Abs`; the clock is no value of the model.
use my_safe.Prelude.{◌||◌, Option, none, some, if◌then◌else◌}
use my_safe.Prelude.Int.{ℤ, pos, ltb_ℤ}
use my_safe.Prelude.Text.{Text, codes, blank, is_empty}
use my_safe.Detector.Ssh.Config.{or_default, outside}

pub record RuntimeConfig : Type 0 where
  pub state_dir : Text
  pub proc_root : Text
  pub max_processes : ℤ
  pub max_known : ℤ
  pub max_events : ℤ
  pub max_ports : ℤ

pub data RuntimeConfigError : Type 0 where
  no_state_dir unresolved bad_max_processes bad_max_known bad_max_events bad_max_ports :
      RuntimeConfigError

pub data RuntimeConfigured : Type 0 where
  detector : RuntimeConfig → RuntimeConfigured
  rejected : RuntimeConfigError → RuntimeConfigured

abbrev with_runtime_defaults : RuntimeConfig → RuntimeConfig
with_runtime_defaults c = record c {
  max_processes = or_default c.max_processes 20000;
  max_known = or_default c.max_known 50000;
  max_events = or_default c.max_events 500;
  max_ports = or_default c.max_ports 100000;
}

within_limits : RuntimeConfig → RuntimeConfigured
unfolding outside
within_limits c =
    if outside c.max_processes 1 200000
    then rejected bad_max_processes
    else if ltb_ℤ c.max_known c.max_processes || ltb_ℤ (pos 500000) c.max_known
    then rejected bad_max_known
    else if outside c.max_events 1 5000
    then rejected bad_max_events
    else if outside c.max_ports 1 1000000
    then rejected bad_max_ports
    else detector c

module _ (abs : Text → Option Text) where
  resolved : RuntimeConfig → Text → Option Text → RuntimeConfigured
  unfolding within_limits
  resolved c state_dir none = rejected unresolved
  resolved c state_dir (some proc_root) =
      within_limits
        (with_runtime_defaults (record c { state_dir = state_dir; proc_root = proc_root }))

  -- `New`
  unfoldable pub new_runtime_detector : RuntimeConfig → RuntimeConfigured
  unfolding resolved
  new_runtime_detector c =
      if blank c.state_dir then rejected no_state_dir else elim (abs c.state_dir) [
        | none ↦ rejected unresolved
        | some state_dir ↦
            resolved c state_dir (abs (if is_empty c.proc_root then codes "/proc" else c.proc_root))
      ]
