-- ===== src/Tests/InstallerTests.antt =====
-- The installer on a host with an old Agent, whose systemd does not reload.
use my_safe.Prelude.{
  ℕ, ◌≡◌, ◌≢◌, refl, ◌⊎◌, Bool, true, false, not, Option, none, some, List, [], ◌∷◌, ◌++◌,
}
use my_safe.Prelude.Int.{pos}
use my_safe.Prelude.Text.{Text, codes, trim_space, text_eq, has_prefix, cut_prefix}
use my_safe.Prelude.Text.Clean.{clean_rooted}
use my_safe.Prelude.Text.Number.{show_int}
use my_safe.Prelude.Dict.{lookup, insert, erase}
use my_safe.Domain.{Time}
use my_safe.Installer.Plan.Port.{IsPlanned}
use my_safe.Installer.Paths.{root_path, within_root}
use my_safe.Installer.Inspect.{Environment, Tool, stable}
use my_safe.Installer.Url.{Url}
use my_safe.Installer.Plan.{Plan, PlanOptions, required, build_plan}
use my_safe.Installer.Plan.Sound.{IsSound, build_plan-IsSound, build_plan-IsPlanned}
use my_safe.Installer.Transaction.{
  persist, regular, Disk, InstallOutcome, FileTransaction, applying, complete, rolled_back,
}
use my_safe.Installer.Transaction.Undo.{IsInstallable, Same, is_backup}
use my_safe.Installer.Steps.{Outside, Machine}
use my_safe.Installer.Apply.{Bundle, Job, install_files, apply}
use my_safe.Installer.Apply.Done.{IsCommitted, apply_lem}

abbrev working : InstallOutcome
working = record {
  parent = true;
  inspected = true;
  is_directory = false;
  backup_parent = true;
  copied = true;
  persisted = true;
  written = true;
}

abbrev is_reload : List Text → Bool
is_reload (tool ∷ word ∷ []) = text_eq word (codes "daemon-reload")
is_reload _ = false

abbrev no_reload : Outside
no_reload = record {
  runs = λ history c. not (is_reload c.words);
  persists = λ _. true;
  installs = λ _. working;
  makes_directory = λ _. true;
  changes_mode = λ _. true;
  answers_health = true;
  reads = λ _. true;
  restores = λ _. true;
}

abbrev tool : Tool
tool = record { available = true; version = [] }

abbrev server : Environment
server = record {
  os_id = codes "debian";
  os_version = codes "12";
  os_codename = [];
  architecture = codes "amd64";
  support = stable;
  systemd = tool;
  nginx = tool;
  docker = tool;
  docker_compose = tool;
  listening_ports = 22 ∷ 18081 ∷ [];
  proxy_candidates =
      record {
        config_path = codes "/etc/nginx/a.conf";
        upstream = codes "http://127.0.0.1:18082";
        port = 18082;
        directive = [];
      }
      ∷ [];
  warnings = [];
}

abbrev sensor : Plan
sensor = record {
  installable = true;
  support = stable;
  integration = codes "sensor";
  gateway_enabled = false;
  gateway_listen = [];
  upstream = [];
  nginx_config = [];
  nginx_replacement = [];
  steps = [];
  blockers = [];
  notices = [];
}

abbrev bundle : Bundle
bundle = record {
  version = codes "v2";
  agent_binary = some (codes "new");
  agent_unit = some (codes "unit");
  public_key = some none;
  gateway_binary = none;
  gateway_unit = none;
}

abbrev job : Job
job = record {
  control_url = codes "https://c";
  bootstrap_token = [];
  skip_registration = true;
  skip_health_check = true;
  now = 7;
  plan = sensor;
  bundle = bundle;
}

abbrev old_host : Disk
old_host = (codes "/r/usr/local/bin/mysafe-agent", regular (codes "old") 0o755) ∷ []

abbrev begun : FileTransaction
begun = record {
  root = codes "/r";
  entry = record {
    id = codes "1_a";
    version = codes "v2";
    created_at = 7;
    status = applying;
    changes = [];
    created_users = [];
    created_groups = [];
    services = [];
    nginx_changed = false;
  };
  journal = none;
}

abbrev machine : Machine
machine = record { transaction = begun; disk = old_host; directories = []; commands = [] }

abbrev same_text : Text → Text
same_text t = t

abbrev release : Text → Time → Text → Option Text
release version now id = some version

abbrev no_match : Text → Text → List (ℕ × ℕ)
no_match upstream content = []

agent_path_ok : IsInstallable (codes "/r") (codes "1_a") (codes "/usr/local/bin/mysafe-agent")
unfolding within_root root_path is_backup clean_rooted text_eq has_prefix cut_prefix
agent_path_ok = record {
  rooted = refl;
  inside = refl;
  not_backup = refl;
  backup_rooted = refl;
  backup_inside = refl;
  backup_there = refl;
}

unit_path_ok :
    IsInstallable (codes "/r") (codes "1_a") (codes "/etc/systemd/system/my-safe-agent.service")
unfolding within_root root_path is_backup clean_rooted text_eq has_prefix cut_prefix
unit_path_ok = record {
  rooted = refl;
  inside = refl;
  not_backup = refl;
  backup_rooted = refl;
  backup_inside = refl;
  backup_there = refl;
}

env_path_ok : IsInstallable (codes "/r") (codes "1_a") (codes "/etc/my-safe/agent.env")
unfolding within_root root_path is_backup clean_rooted text_eq has_prefix cut_prefix
env_path_ok = record {
  rooted = refl;
  inside = refl;
  not_backup = refl;
  backup_rooted = refl;
  backup_inside = refl;
  backup_there = refl;
}

release_path_ok :
    IsInstallable (codes "/r") (codes "1_a") (codes "/var/lib/my-safe/installed-release.json")
unfolding within_root root_path is_backup clean_rooted text_eq has_prefix cut_prefix
release_path_ok = record {
  rooted = refl;
  inside = refl;
  not_backup = refl;
  backup_rooted = refl;
  backup_inside = refl;
  backup_there = refl;
}

apply_lem_example :
    let (status, failure, errors, m) =
      apply same_text release same_text no_match no_reload job machine in
    ((status ≡ complete) × (failure ≡ none) × IsCommitted m)
    ⊎ ((status ≡ rolled_back) × (failure ≢ none) × Same (codes "/r") (codes "1_a") old_host m.disk)
unfolding install_files
apply_lem_example =
    apply_lem same_text release same_text no_match no_reload job machine refl refl
      (agent_path_ok, (unit_path_ok, (env_path_ok, (release_path_ok, tt))))
      (λ edited. absurd (cc edited))

-- The installation fails at the reload, and the old Agent is back.
reload_fails :
    let (status, failure, errors, m) =
      apply same_text release same_text no_match no_reload job machine in
    (status ≡ rolled_back)
    × (lookup (codes "/r/usr/local/bin/mysafe-agent") m.disk ≡ some (regular (codes "old") 0o755))
unfolding apply persist text_eq within_root root_path clean_rooted cut_prefix has_prefix insert
    erase lookup
reload_fails = (refl, refl)

abbrev parse_url : Text → Option Url
parse_url t = none

abbrev gateway_options : PlanOptions
gateway_options = record { gateway = required; upstream = []; gateway_port = pos 0 }

build_plan-IsSound_example :
    IsSound server gateway_options (build_plan parse_url server gateway_options)
build_plan-IsSound_example = build_plan-IsSound parse_url server gateway_options

gateway_planned : (build_plan parse_url server gateway_options).gateway_enabled ≡ true
unfolding build_plan trim_space
gateway_planned = refl

build_plan-IsPlanned_example :
    (p : ℕ) × IsPlanned server p
    × ((build_plan parse_url server gateway_options).gateway_listen
        ≡ codes "127.0.0.1:" ++ show_int (pos p))
build_plan-IsPlanned_example =
    build_plan-IsPlanned parse_url server gateway_options refl gateway_planned

-- 18081 and 18082 are in use.
port_chosen : (build_plan parse_url server gateway_options).gateway_listen ≡ codes "127.0.0.1:18083"
unfolding build_plan trim_space show_int
port_chosen = refl
