-- ===== src/Installer/Steps.antt =====
-- The steps of an installation, of internal/installer/apply.go and nginx.go. What a command
-- answers may depend on all that ran before it; what a command itself writes is not modelled.
use my_safe.Prelude.{
  ℕ, ◌+◌, Bool, not, ◌||◌, Option, none, some, List, [], ◌∷◌, ◌++◌, if◌then◌else◌, take, drop,
}
use my_safe.Prelude.Text.{Text, codes, is_empty}
use my_safe.Installer.Paths.{root_path, within_root}
use my_safe.Installer.Transaction.{
  Entry, regular, other, Disk, TransactionRecord, FileTransaction, InstallError, InstallOutcome,
  InstallFile, Installed, result, record_created_user, record_created_group, record_service,
  record_nginx_change, install_bytes,
}
use my_safe.Prelude.Dict.{Dict, lookup, insert, is_some}
use my_safe.Installer.Plan.{Plan}

-- A command with its environment and its arguments.
pub record Command : Type 0 where
  pub environment : List Text
  pub words : List Text

-- What the machine answers: to a command after the commands before it, to the writing of a journal, to the
-- calls of an installation of a file, of a directory and its mode, and of a rollback.
pub record Outside : Type 0 where
  pub runs : List Command → Command → Bool
  pub persists : TransactionRecord → Bool
  pub installs : Text → InstallOutcome
  pub makes_directory : Text → Bool
  pub changes_mode : Text → Bool
  pub answers_health : Bool
  pub reads : Text → Bool
  pub restores : Text → Bool

pub data ApplyError : Type 0 where
  command_failed unhealthy no_artifact escaping_directory no_made_directory no_mode escaping_nginx
        no_nginx not_regular_nginx unread_nginx changed_nginx :
      ApplyError
  failed_file : InstallError → ApplyError

-- The directories are those that were made, or were there and kept, with the mode that is asked for.
pub record Machine : Type 0 where
  pub transaction : FileTransaction
  pub disk : Disk
  pub directories : Dict ℕ
  pub commands : List Command

abbrev pub Step : Type 0
Step = Machine → Option ApplyError × Machine

-- A step, and the next one if there was no error.
infixr 30 ◌then◌
unfoldable pub ◌then◌ : Step → Step → Step
(first then next) m =
    let (e, m') = first m in
    let rest = next m' in elim e [ none ↦ rest | some error ↦ (some error, m') ]

unfoldable pub nothing : Step
nothing m = (none, m)

unfoldable pub each : {A : Type 0} → (A → Step) → List A → Step
unfolding nothing ◌then◌
each step [] = nothing
each step (x ∷ xs) = step x then each step xs

abbrev pub when : Bool → Step → Step
when b step = if b then step else nothing

abbrev pub file_error : Option InstallError → Option ApplyError
file_error none = none
file_error (some e) = some (failed_file e)

abbrev pub Journal : Type 0
Journal = (TransactionRecord → Bool) → FileTransaction → Option InstallError × FileTransaction

abbrev pub words_of : List Text → Command
words_of words = record { environment = []; words = words }

abbrev pub agent_service : Text
agent_service = codes "my-safe-agent.service"

abbrev pub gateway_service : Text
gateway_service = codes "my-safe-gateway.service"

module _ (o : Outside) where
  abbrev pub answer : Command → Machine → Bool × Machine
  answer c m = (o.runs m.commands c, record m { commands = m.commands ++ c ∷ [] })

  -- `runFixed`
  unfoldable pub run : Command → Step
  run c m = let (ok, m') = answer c m in (if ok then none else some command_failed, m')

  -- A step on the transaction and its journal.
  unfoldable pub journal : Journal → Step
  journal change m =
      let (e, t) = change o.persists m.transaction in (file_error e, record m { transaction = t })

  -- `captureService`, which is then recorded.
  unfoldable pub capture_service : Text → Step
  unfolding journal
  capture_service name m =
      let (enabled, m') =
        answer (words_of (codes "systemctl" ∷ codes "is-enabled" ∷ name ∷ [])) m in
      let (active, m'') =
        answer (words_of (codes "systemctl" ∷ codes "is-active" ∷ name ∷ [])) m' in
      journal
        (λ p t.
          record_service p (record { name = name; was_enabled = enabled; was_active = active }) t)
        m''

  unfoldable pub add_group : Text → Step
  unfolding run journal ◌then◌
  add_group name =
      run (words_of (codes "groupadd" ∷ codes "--system" ∷ name ∷ []))
      then journal (λ p t. record_created_group p name t)

  unfoldable pub add_user : Text → Text → Step
  unfolding run journal ◌then◌
  add_user name home =
      run (
        words_of (
          codes "useradd"
          ∷ codes "--system"
          ∷ codes "--gid"
          ∷ name
          ∷ codes "--home-dir"
          ∷ home
          ∷ codes "--shell"
          ∷ codes "/usr/sbin/nologin"
          ∷ name
          ∷ []))
      then journal (λ p t. record_created_user p name t)

  -- A step that is made only if the command fails.
  unfoldable pub unless_there : List Text → Step → Step
  unless_there words add m =
      let (there, m') = answer (words_of words) m in
      let added = add m' in if there then (none, m') else added

  -- `ensureAccount`
  unfoldable pub ensure_account : Text → Text → Step
  unfolding add_group add_user unless_there ◌then◌
  ensure_account name home =
      unless_there (codes "getent" ∷ codes "group" ∷ name ∷ []) (add_group name)
      then unless_there (codes "id" ∷ name ∷ []) (add_user name home)

  -- `ensureDirectory`: a directory that is there keeps its mode until the mode is changed. The
  -- directories above it are not recorded.
  unfoldable pub ensure_directory : Text → ℕ → Step
  unfolding lookup insert
  ensure_directory path mode m =
      let target = root_path m.transaction.root path in
      let made : Machine = record m {
        directories =
            if is_some (lookup target m.directories)
            then m.directories
            else insert target mode m.directories;
      } in
      if not (within_root m.transaction.root target)
      then (some escaping_directory, m)
      else if not (o.makes_directory path)
      then (some no_made_directory, m)
      else if not (o.changes_mode path)
      then (some no_mode, made)
      else (none, record made { directories = insert target mode made.directories })

  unfoldable pub installed : Machine → Installed → Option ApplyError × Machine
  installed m (result e t d) = (file_error e, record m { transaction = t; disk = d })

  unfoldable pub install : (Text → Text) → InstallFile → Step
  unfolding installed install_bytes
  install sha256_hex f m =
      installed m (install_bytes sha256_hex (o.installs f.path) f m.transaction m.disk)

  -- The loop over the commands of a rollback, which goes on after an error and counts the errors.
  unfoldable pub run_all : List Command → Machine → ℕ × Machine
  run_all [] m = (0, m)
  run_all (c ∷ cs) m =
      let (ok, m') = answer c m in
      let (errors, m'') = run_all cs m' in ((if ok then 0 else 1) + errors, m'')

  -- Where the file is read, and the directive in it replaced; `matches` is what the pattern finds.
  unfoldable pub replace_directive : (Text → Text) → List (ℕ × ℕ) → Text → ℕ → Text → Text → Step
  unfolding journal install run ◌then◌
  replace_directive sha256_hex ((start, end) ∷ []) content mode path replacement =
      let updated =
        take start content ++ codes "proxy_pass " ++ replacement ++ b';' ∷ drop end content in
      journal (λ p t. record_nginx_change p t)
      then install sha256_hex (record { path = path; content = updated; mode = mode })
      then run (words_of (codes "nginx" ∷ codes "-t" ∷ []))
      then run (words_of (codes "systemctl" ∷ codes "reload" ∷ codes "nginx.service" ∷ []))
  replace_directive sha256_hex matches content mode path replacement = λ m. (some changed_nginx, m)

  module _ (sha256_hex : Text → Text) (find_directive : Text → Text → List (ℕ × ℕ))
      (plan : Plan) where
    unfoldable pub nginx_content : Option Entry → Step
    unfolding replace_directive
    nginx_content none m =
        if (o.installs plan.nginx_config).is_directory
        then (some not_regular_nginx, m)
        else (some no_nginx, m)
    nginx_content (some other) m = (some not_regular_nginx, m)
    nginx_content (some (regular content mode)) m =
        let replaced =
          replace_directive sha256_hex (find_directive plan.upstream content) content mode
            plan.nginx_config plan.nginx_replacement m in
        if o.reads plan.nginx_config then replaced else (some unread_nginx, m)

    -- `applyNginxGateway`
    unfoldable pub apply_nginx_gateway : Step
    unfolding nginx_content lookup
    apply_nginx_gateway m =
        let path = root_path m.transaction.root plan.nginx_config in
        if is_empty plan.nginx_config || is_empty plan.upstream || is_empty plan.nginx_replacement
        then (none, m)
        else if not (within_root m.transaction.root path)
        then (some escaping_nginx, m)
        else nginx_content (lookup path m.disk) m
