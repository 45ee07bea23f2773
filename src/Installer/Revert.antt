-- ===== src/Installer/Revert.antt =====
-- `rollbackInstallation` of internal/installer/apply.go.
use my_safe.Prelude.{ℕ, ◌+◌, ◌==◌, some, List, [], ◌∷◌, ◌++◌, if◌then◌else◌, map}
use mathlib.Core.List.{reverse}
use my_safe.Prelude.Text.{Text, codes}
use my_safe.Installer.Restore.{rollback_changes}
use my_safe.Installer.Transaction.{ServiceChange, rolled_back}
use my_safe.Installer.Steps.{Command, Outside, Machine, ◌then◌, words_of, run_all}

-- One part of a rollback, with the number of its errors.
abbrev pub Undo : Type 0
Undo = Machine → ℕ × Machine

infixr 30 ◌also◌
unfoldable pub ◌also◌ : Undo → Undo → Undo
(first also next) m =
    let (errors, m') = first m in let (more, m'') = next m' in (errors + more, m'')

unfoldable pub disabling : ServiceChange → Command
disabling s = words_of (codes "systemctl" ∷ codes "disable" ∷ codes "--now" ∷ s.name ∷ [])

-- A service as it was.
unfoldable pub restoring : List ServiceChange → List Command
restoring [] = []
restoring (s ∷ ss) =
    (if s.was_enabled then words_of (codes "systemctl" ∷ codes "enable" ∷ s.name ∷ []) ∷ [] else [])
    ++ (if s.was_active
        then words_of (codes "systemctl" ∷ codes "start" ∷ s.name ∷ []) ∷ []
        else [])
    ++ restoring ss

unfoldable pub deleting : Text → Text → Command
deleting command name = words_of (command ∷ name ∷ [])

module _ (o : Outside) where
  unfoldable pub undo_files : Undo
  unfolding rollback_changes
  undo_files m =
      let (errors, d) =
        rollback_changes o.restores m.transaction.root m.transaction.entry.id
          m.transaction.entry.changes m.disk in
      (errors, record m { disk = d })

  unfoldable pub reload_nginx : Undo
  unfolding run_all
  reload_nginx m =
      let (errors, m') = run_all o (words_of (codes "nginx" ∷ codes "-t" ∷ []) ∷ []) m in
      let reloaded =
        run_all o (words_of (codes "systemctl" ∷ codes "reload" ∷ codes "nginx.service" ∷ []) ∷ [])
          m' in
      if errors == 0 then reloaded else (errors, m')

  unfoldable pub undo_nginx : Undo
  unfolding reload_nginx
  undo_nginx m =
      let reloaded = reload_nginx m in
      if m.transaction.entry.nginx_changed then reloaded else (0, m)

  unfoldable pub mark_rolled_back : Undo
  mark_rolled_back m =
      let entry = record m.transaction.entry { status = rolled_back } in
      if o.persists entry
      then (0, record m { transaction = record m.transaction { journal = some entry } })
      else (1, m)

  -- `rollbackInstallation` of the machine's own transaction.
  unfoldable pub rollback_installation : Undo
  unfolding run_all undo_files undo_nginx mark_rolled_back ◌also◌ disabling restoring deleting
  rollback_installation m =
      let entry = m.transaction.entry in
      (run_all o (map disabling (reverse entry.services))
          also undo_files
          also run_all o (words_of (codes "systemctl" ∷ codes "daemon-reload" ∷ []) ∷ [])
          also undo_nginx
          also run_all o (restoring entry.services)
          also run_all o (map (deleting (codes "userdel")) (reverse entry.created_users))
          also run_all o (map (deleting (codes "groupdel")) (reverse entry.created_groups))
          also mark_rolled_back)
        m
