-- ===== src/Installer/Apply/Phases.antt =====
-- The phases of an installation keep what its rollback needs.
use my_safe.Prelude.{
  ℕ, ◌≡◌, refl, inl, inr, Bool, true, false, not, ◌||◌, ◌&&◌, Option, none, some, List, [], ◌∷◌,
  if◌then◌else◌, All, Bool-cases,
}
use my_safe.Prelude.Text.{Text, codes, is_empty}
use my_safe.Prelude.Dict.{lookup}
use my_safe.Domain.{Time}
use my_safe.Installer.Paths.{root_path, within_root}
use my_safe.Installer.Plan.{Plan}
use my_safe.Installer.Transaction.{Entry, regular, other, Disk, InstallFile, record_nginx_change}
use my_safe.Installer.Transaction.Undo.{IsInstallable}
use my_safe.Installer.Steps.{
  Outside, Machine, ◌then◌, capture_service, install, apply_nginx_gateway, replace_directive,
  nginx_content, agent_service, gateway_service,
}
use my_safe.Installer.Apply.{Job, install_all, prepare, register, start, wait_for_gateway}
use my_safe.Installer.Apply.Kept.{
  Fit, IsSafe, then-IsSafe, each-IsSafe, when-IsSafe, persist-Leaves, run-IsSafe, journal-IsSafe,
  capture_service-IsSafe, ensure_account-IsSafe, ensure_directory-IsSafe, install-IsSafe,
}

module _ (root id : Text) (d0 : Disk) (o : Outside) (sha256_hex : Text → Text)
    (find_directive : Text → Text → List (ℕ × ℕ)) where
  replace_directive-IsSafe :
      (matches : List (ℕ × ℕ)) (content : Text) (mode : ℕ) (path replacement : Text)
      → IsInstallable root id path
      → IsSafe root id d0 (replace_directive o sha256_hex matches content mode path replacement)
  unfolding replace_directive
  replace_directive-IsSafe [] content mode path replacement ok = record { keeps = λ m h. h }
  replace_directive-IsSafe ((a, b) ∷ []) content mode path replacement ok =
      then-IsSafe root id d0
        (journal-IsSafe root id d0 o (λ p t. record_nginx_change p t)
          (persist-Leaves root id d0
            (λ t. record t { entry = record t.entry { nginx_changed = true } })
            (λ t. (refl, refl, refl))))
        (then-IsSafe root id d0 (install-IsSafe root id d0 o sha256_hex _ ok)
          (then-IsSafe root id d0 (run-IsSafe root id d0 o _) (run-IsSafe root id d0 o _)))
  replace_directive-IsSafe (x ∷ y ∷ more) content mode path replacement ok = record {
    keeps = λ m h. h;
  }

  or_false : (a b : Bool) → (a || b) ≡ false → a ≡ false
  or_false true b h = h
  or_false false b h = refl

  module _ (plan : Plan) where
    nginx_content-Fit :
        IsInstallable root id plan.nginx_config
        → (x : Option Entry) (m : Machine) → Fit root id d0 m
        → Fit root id d0 (nginx_content o sha256_hex find_directive plan x m).1
    unfolding nginx_content
    nginx_content-Fit ok none m h = elim (Bool-cases (o.installs plan.nginx_config).is_directory) [
      | inl directory ↦ rw directory h
      | inr gone ↦ rw gone h
    ]
    nginx_content-Fit ok (some other) m h = h
    nginx_content-Fit ok (some (regular content mode)) m h =
        elim (Bool-cases (o.reads plan.nginx_config)) [
          | inr unread ↦ rw unread h
          | inl content_read ↦ rw content_read (
              (replace_directive-IsSafe (find_directive plan.upstream content) content mode
                  plan.nginx_config plan.nginx_replacement ok).keeps
                m h)
        ]

    apply_nginx_gateway-IsSafe :
        (is_empty plan.nginx_config ≡ false → IsInstallable root id plan.nginx_config)
        → IsSafe root id d0 (apply_nginx_gateway o sha256_hex find_directive plan)
    unfolding apply_nginx_gateway
    apply_nginx_gateway-IsSafe ok = record {
      keeps = λ m h.
          elim (Bool-cases (
            is_empty plan.nginx_config
            || is_empty plan.upstream
            || is_empty plan.nginx_replacement)) [
              | inl none_planned ↦ rw none_planned h
              | inr planned ↦
                  elim (Bool-cases (
                    within_root m.transaction.root
                      (root_path m.transaction.root plan.nginx_config))) [
                        | inr outside ↦ rw (planned, outside) h
                        | inl inside ↦
                            rw (planned, inside)
                              (nginx_content-Fit
                                (ok (
                                  or_false (is_empty plan.nginx_config) (is_empty plan.upstream) (
                                    or_false (is_empty plan.nginx_config || is_empty plan.upstream)
                                      (is_empty plan.nginx_replacement) planned)))
                                (lookup (root_path m.transaction.root plan.nginx_config) m.disk) m
                                h)
                      ]
            ];
    }

-- Every path that is installed may be installed.
abbrev pub AllInstallable : Text → Text → Option (List InstallFile) → Type 0
AllInstallable root id none = Unit
AllInstallable root id (some files) = All (λ (f : InstallFile). IsInstallable root id f.path) files

module _ (quote : Text → Text) (encode_release : Text → Time → Text → Option Text)
    (sha256_hex : Text → Text) (find_directive : Text → Text → List (ℕ × ℕ)) (root id : Text)
    (d0 : Disk) (o : Outside) (job : Job) where
  gateway_captured :
      (b : Bool)
      → All
          (λ (name : Text). IsSafe root id d0 (capture_service o name))
          (if b then gateway_service ∷ [] else [])
  gateway_captured true = (capture_service-IsSafe root id d0 o gateway_service, tt)
  gateway_captured false = tt

  files-IsSafe :
      (files : List InstallFile)
      → AllInstallable root id (some files)
      → All (λ (f : InstallFile). IsSafe root id d0 (install o sha256_hex f)) files
  files-IsSafe [] h = tt
  files-IsSafe (f ∷ files) h =
      (install-IsSafe root id d0 o sha256_hex f h.0, files-IsSafe files h.1)

  pub install_all-IsSafe :
      (files : Option (List InstallFile))
      → AllInstallable root id files
      → IsSafe root id d0 (install_all quote encode_release sha256_hex find_directive o files)
  unfolding install_all
  install_all-IsSafe none h = record { keeps = λ m fit. fit }
  install_all-IsSafe (some files) h =
      each-IsSafe root id d0 (install o sha256_hex) files (files-IsSafe files h)

  pub prepare-IsSafe :
      IsSafe root id d0 (prepare quote encode_release sha256_hex find_directive o job)
  unfolding prepare
  prepare-IsSafe =
      then-IsSafe root id d0
        (each-IsSafe root id d0 (capture_service o)
          (agent_service ∷ (if job.plan.gateway_enabled then gateway_service ∷ [] else []))
          (
            capture_service-IsSafe root id d0 o agent_service,
            gateway_captured job.plan.gateway_enabled,
          ))
        (then-IsSafe root id d0
          (ensure_account-IsSafe root id d0 o (codes "my-safe") (codes "/var/lib/my-safe"))
          (then-IsSafe root id d0
            (when-IsSafe root id d0 job.plan.gateway_enabled
              (ensure_account-IsSafe root id d0 o (codes "my-safe-gateway") (codes "/nonexistent")))
            (then-IsSafe root id d0
              (ensure_directory-IsSafe root id d0 o (codes "/etc/my-safe") 0o750)
              (ensure_directory-IsSafe root id d0 o (codes "/var/lib/my-safe") 0o700))))

  pub register-IsSafe :
      (r : Text)
      → IsSafe root id d0 (register quote encode_release sha256_hex find_directive o job r)
  unfolding register
  register-IsSafe r = then-IsSafe root id d0 (run-IsSafe root id d0 o _) (
      then-IsSafe root id d0 (run-IsSafe root id d0 o _) (
        then-IsSafe root id d0
          (when-IsSafe root id d0 job.plan.gateway_enabled (run-IsSafe root id d0 o _))
          (then-IsSafe root id d0 (run-IsSafe root id d0 o _)
            (when-IsSafe root id d0 (not job.skip_registration) (run-IsSafe root id d0 o _)))))

  wait_for_gateway-IsSafe :
      IsSafe root id d0 (wait_for_gateway quote encode_release sha256_hex find_directive o)
  unfolding wait_for_gateway
  wait_for_gateway-IsSafe = record { keeps = λ m h. h }

  pub start-IsSafe :
      (is_empty job.plan.nginx_config ≡ false → IsInstallable root id job.plan.nginx_config)
      → IsSafe root id d0 (start quote encode_release sha256_hex find_directive o job)
  unfolding start
  start-IsSafe ok = then-IsSafe root id d0 (run-IsSafe root id d0 o _) (
      then-IsSafe root id d0
        (when-IsSafe root id d0 job.plan.gateway_enabled (run-IsSafe root id d0 o _))
        (then-IsSafe root id d0
          (when-IsSafe root id d0 (job.plan.gateway_enabled && not job.skip_health_check)
            wait_for_gateway-IsSafe)
          (when-IsSafe root id d0 job.plan.gateway_enabled
            (apply_nginx_gateway-IsSafe root id d0 o sha256_hex find_directive job.plan ok))))
