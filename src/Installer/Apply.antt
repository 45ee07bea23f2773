-- ===== src/Installer/Apply.antt =====
-- `Apply` of internal/installer/apply.go from the transaction on, and the rollback of an installation.
pub mod Kept
pub mod Phases
pub mod Done
use my_safe.Prelude.{
  ℕ, ◌+◌, ◌==◌, Bool, true, false, not, ◌||◌, ◌&&◌, Option, none, some, List, [], ◌∷◌, ◌++◌,
  if◌then◌else◌, ◌>>=◌, map,
}
use mathlib.Core.List.{reverse}
use my_safe.Prelude.Text.{Text, codes}
use my_safe.Domain.{Time}
use my_safe.Installer.Paths.{root_path}
use my_safe.Installer.Plan.{Plan}
use my_safe.Installer.Restore.{rollback_changes}
use my_safe.Installer.Transaction.{
  Disk, ServiceChange, Status, complete, rolled_back, TransactionRecord, FileTransaction,
  InstallFile, commit,
}
use my_safe.Installer.Steps.{
  Command, Outside, ApplyError, unhealthy, no_artifact, Machine, Step, ◌then◌, nothing, each, when,
  words_of, agent_service, gateway_service, run, run_all, journal, capture_service, ensure_account,
  ensure_directory, install, apply_nginx_gateway,
}
use my_safe.Installer.Revert.{rollback_installation}

-- What a verified release bundle holds. The public key is `none` where it cannot be parsed, and `some none` where
-- it is not the one that the release is signed with.
pub record Bundle : Type 0 where
  pub version : Text
  pub agent_binary : Option Text
  pub agent_unit : Option Text
  pub public_key : Option (Option Text)
  pub gateway_binary : Option Text
  pub gateway_unit : Option Text

-- The options that are read from the transaction on.
pub record Job : Type 0 where
  pub control_url : Text
  pub bootstrap_token : Text
  pub skip_registration : Bool
  pub skip_health_check : Bool
  pub now : Time
  pub plan : Plan
  pub bundle : Bundle

abbrev file : Text → Text → ℕ → InstallFile
file path content mode = record { path = path; content = content; mode = mode }

-- `strconv.Quote`, the encoding of the installed release, SHA-256 in hex, and the search for the directive.
module _ (quote : Text → Text) (encode_release : Text → Time → Text → Option Text)
    (sha256_hex : Text → Text) (find_directive : Text → Text → List (ℕ × ℕ)) where
  unfoldable pub agent_environment : Text → Text
  agent_environment control_url =
      codes "MYSAFE_CONTROL_URL="
      ++ quote control_url
      ++ codes "\nMYSAFE_STATE_DIR=/var/lib/my-safe"
      ++ codes "\nMYSAFE_GATEWAY_EVENT_SOCKET=/run/my-safe/gateway-events.sock\n"

  unfoldable pub gateway_environment : Plan → Text
  gateway_environment plan =
      codes "MYSAFE_GATEWAY_ADDRESS="
      ++ quote plan.gateway_listen
      ++ codes "\nMYSAFE_GATEWAY_UPSTREAM="
      ++ quote plan.upstream
      ++ codes "\nMYSAFE_GATEWAY_MODE=observe\nMYSAFE_GATEWAY_FAILURE_POLICY=fail_open"
      ++ codes "\nMYSAFE_GATEWAY_EVENT_SOCKET=/run/my-safe/gateway-events.sock"
      ++ codes "\nMYSAFE_GATEWAY_STATE_DIR=/var/lib/my-safe-gateway\n"

  key_files : Option Text → List InstallFile
  key_files none = []
  key_files (some key) = file (codes "/etc/my-safe/release-public-key.pem") key 0o644 ∷ []

  agent_files : Job → Text → Option (List InstallFile)
  unfolding agent_environment key_files
  agent_files job id = do
    binary ← job.bundle.agent_binary
    unit ← job.bundle.agent_unit
    key ← job.bundle.public_key
    state ← encode_release job.bundle.version job.now id
    some (
        file (codes "/usr/local/bin/mysafe-agent") binary 0o755
        ∷ file (codes "/etc/systemd/system/my-safe-agent.service") unit 0o644
        ∷ file (codes "/etc/my-safe/agent.env") (agent_environment job.control_url) 0o640
        ∷ file (codes "/var/lib/my-safe/installed-release.json") state 0o600
        ∷ key_files key)

  gateway_files : Job → Option (List InstallFile)
  unfolding gateway_environment
  gateway_files job = do
    binary ← job.bundle.gateway_binary
    unit ← job.bundle.gateway_unit
    some (
        file (codes "/usr/local/bin/mysafe-gateway") binary 0o755
        ∷ file (codes "/etc/systemd/system/my-safe-gateway.service") unit 0o644
        ∷ file (codes "/etc/my-safe/gateway.env") (gateway_environment job.plan) 0o640
        ∷ [])

  -- `installFiles`, if every artifact can be had.
  unfoldable pub install_files : Job → Text → Option (List InstallFile)
  unfolding agent_files gateway_files
  install_files job id = do
    agent ← agent_files job id
    gateway ← (if job.plan.gateway_enabled then gateway_files job else some [])
    some (agent ++ gateway)

  unfoldable pub install_all : Outside → Option (List InstallFile) → Step
  unfolding each nothing install ◌then◌
  install_all o none m = (some no_artifact, m)
  install_all o (some files) m = each (install o sha256_hex) files m

  -- The answer of the gateway to the health check before the deadline is given.
  unfoldable pub wait_for_gateway : Outside → Step
  wait_for_gateway o m = (if o.answers_health then none else some unhealthy, m)

  -- The command that registers the Agent, with its environment.
  unfoldable pub registration : Job → Text → Command
  registration job root = record {
    environment =
        (codes "MYSAFE_CONTROL_URL=" ++ job.control_url)
        ∷ (codes "MYSAFE_STATE_DIR=" ++ root_path root (codes "/var/lib/my-safe"))
        ∷ (codes "MYSAFE_BOOTSTRAP_TOKEN=" ++ job.bootstrap_token)
        ∷ [];
    words =
        codes "runuser"
        ∷ codes "-u"
        ∷ codes "my-safe"
        ∷ codes "--"
        ∷ root_path root (codes "/usr/local/bin/mysafe-agent")
        ∷ codes "--once"
        ∷ [];
  }

  module _ (o : Outside) (job : Job) where
    abbrev command : List Text → Step
    command words = run o (words_of words)

    -- The services, the accounts and the directories.
    unfoldable pub prepare : Step
    unfolding each nothing capture_service ensure_account ensure_directory ◌then◌
    prepare =
        each (capture_service o)
          (agent_service ∷ (if job.plan.gateway_enabled then gateway_service ∷ [] else []))
        then ensure_account o (codes "my-safe") (codes "/var/lib/my-safe")
        then when job.plan.gateway_enabled
            (ensure_account o (codes "my-safe-gateway") (codes "/nonexistent"))
        then ensure_directory o (codes "/etc/my-safe") 0o750
        then ensure_directory o (codes "/var/lib/my-safe") 0o700

    -- The owners of what was installed, and the registration.
    unfoldable pub register : Text → Step
    unfolding run registration nothing ◌then◌
    register root =
        command (
          codes "chown"
          ∷ codes "-R"
          ∷ codes "my-safe:my-safe"
          ∷ root_path root (codes "/var/lib/my-safe")
          ∷ [])
        then command (
            codes "chown"
            ∷ codes "root:my-safe"
            ∷ root_path root (codes "/etc/my-safe/agent.env")
            ∷ [])
        then when job.plan.gateway_enabled (
            command (
              codes "chown"
              ∷ codes "root:my-safe-gateway"
              ∷ root_path root (codes "/etc/my-safe/gateway.env")
              ∷ []))
        then command (codes "systemctl" ∷ codes "daemon-reload" ∷ [])
        then when (not job.skip_registration) (run o (registration job root))

    -- The services are started, the gateway first tried and then put into Nginx.
    unfoldable pub start : Step
    unfolding run wait_for_gateway apply_nginx_gateway nothing ◌then◌
    start =
        command (codes "systemctl" ∷ codes "enable" ∷ codes "--now" ∷ agent_service ∷ [])
        then when job.plan.gateway_enabled
            (command (codes "systemctl" ∷ codes "enable" ∷ codes "--now" ∷ gateway_service ∷ []))
        then when (job.plan.gateway_enabled && not job.skip_health_check) (wait_for_gateway o)
        then when job.plan.gateway_enabled
            (apply_nginx_gateway o sha256_hex find_directive job.plan)

    unfoldable pub installation : Step
    unfolding install_all install_files prepare register start journal ◌then◌
    installation m =
        (prepare
            then install_all o (install_files job m.transaction.entry.id)
            then register m.transaction.root
            then start
            then journal o (λ p t. commit p t))
          m

  -- `Apply` once the transaction has begun: the status of the result, the cause of a failure, the errors of its
  -- rollback, and the machine.
  unfoldable pub apply : Outside → Job → Machine → Status × Option ApplyError × ℕ × Machine
  unfolding installation rollback_installation
  apply o job m =
      let (failure, m') = installation o job m in
      let (errors, m'') = rollback_installation o m' in
      elim failure [ none ↦ (complete, none, 0, m') | some e ↦ (rolled_back, some e, errors, m'') ]
