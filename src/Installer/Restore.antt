-- ===== src/Installer/Restore.antt =====
-- `rollbackChanges` of internal/installer/transaction.go.
use my_safe.Prelude.{
  ℕ, ◌+◌, Bool, not, ◌||◌, ◌&&◌, Option, none, some, List, [], ◌∷◌, ◌++◌, if◌then◌else◌,
}
use my_safe.Prelude.Text.{Text, has_prefix}
use my_safe.Prelude.Dict.{lookup, insert, erase, is_some}
use my_safe.Installer.Paths.{slash, root_path, within_root}
use my_safe.Installer.Transaction.{Entry, regular, other, Disk, FileChange, backup_directory}

-- Whether a path can be written, or removed, in a rollback.
module _ (works : Text → Bool) (root id : Text) where
  unfoldable pub restore : FileChange → Option Entry → Disk → ℕ × Disk
  restore change none d = (1, d)
  restore change (some other) d = (1, d)
  restore change (some (regular content mode)) d =
      let target = root_path root change.path in
      if works target then (0, insert target (regular content change.old_mode) d) else (1, d)

  -- One change of `rollbackChanges`, with the number of its errors.
  unfoldable pub undo_change : FileChange → Disk → ℕ × Disk
  unfolding restore
  undo_change change d =
      let target = root_path root change.path in
      let backup = root_path root change.backup_path in
      if not (has_prefix change.path slash) || not (within_root root target)
      then (1, d)
      else if change.existed
      then if not (has_prefix change.backup_path (backup_directory ++ id ++ slash))
          || not (within_root root backup)
        then (1, d)
        else restore change (lookup backup d) d
      else if is_some (lookup target d) && not (works target)
      then (1, d)
      else (0, erase target d)

  -- `rollbackChanges`, from the last change to the first; it goes on after an error.
  unfoldable pub rollback_changes : List FileChange → Disk → ℕ × Disk
  unfolding undo_change
  rollback_changes [] d = (0, d)
  rollback_changes (change ∷ changes) d =
      let (errors, d') = rollback_changes changes d in
      let (error, d'') = undo_change change d' in (errors + error, d'')
