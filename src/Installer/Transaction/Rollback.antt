-- ===== src/Installer/Transaction/Rollback.antt =====
-- Rolling back an installation of internal/installer/transaction.go gives every path what it held before.
use my_safe.Prelude.{
  ℕ, ◌≡◌, refl, inl, inr, not, ◌||◌, Option, none, some, [], ◌∷◌, ◌++◌, Bool-cases, Option-cases,
}
use mathlib.Core.Path.{subst}
use my_safe.Prelude.Text.{Text, text_eq, has_prefix}
use my_safe.Prelude.Text.Clean.{clean_rooted}
use my_safe.Prelude.Dict.{lookup, insert, lookup-insert, lookup-insert_self}
use my_safe.Installer.Paths.{slash, root_path, within_root}
use my_safe.Installer.Transaction.{
  Entry, regular, other, Disk, FileChange, FileTransaction, InstallOutcome, InstallFile, Installed,
  result, backup_path_of, record_change, new_change, replacing_change, inspect_target,
  install_bytes,
}
use my_safe.Installer.Transaction.Undo.{
  text_differs, IsInstallable, is_backup, Undoable, Touches, undo_new, undo_replacing, extended,
  Touches-refl, Touches-insert, Touches-backup,
}

-- A transaction is that of `root` and `id`, and what it has done can be undone.
abbrev pub Kept : Text → Text → Disk → Installed → Type 0
Kept root id d0 (result error t d) =
    (t.root ≡ root) × (t.entry.id ≡ id) × Undoable root id d0 t.entry.changes d

module _ (sha256_hex : Text → Text) (o : InstallOutcome) (f : InstallFile) (d0 : Disk) where
  record_change-Kept :
      (change : FileChange) (t : FileTransaction) (d : Disk)
      → Undoable t.root t.entry.id d0 (t.entry.changes ++ change ∷ []) d
      → Undoable t.root t.entry.id d0
          (t.entry.changes ++ change ∷ [])
          (insert (root_path t.root f.path) (regular f.content f.mode) d)
      → Kept t.root t.entry.id d0 (record_change sha256_hex o f change t d)
  unfolding record_change
  record_change-Kept change t d early late = elim (Bool-cases o.persisted) [
    | inr lost ↦ rw lost (refl, refl, early)
    | inl kept ↦ elim (Bool-cases o.written) [
      | inr failed ↦ rw (kept, failed) (refl, refl, early)
      | inl done ↦ rw (kept, done) (refl, refl, late)
    ]
  ]

  module _ (t : FileTransaction) (d : Disk) (ok : IsInstallable t.root t.entry.id f.path)
      (before : Undoable t.root t.entry.id d0 t.entry.changes d) where
    abbrev the_target : Text
    the_target = root_path t.root f.path

    abbrev the_backup : Text
    the_backup = root_path t.root (backup_path_of t.entry.id f.path)

    replacing_Undoable :
        (content : Text) (mode : ℕ) (d' : Disk)
        → lookup the_target d ≡ some (regular content mode)
        → Touches t.root t.entry.id f ok d d'
        → lookup the_backup d' ≡ some (regular content mode)
        → Undoable t.root t.entry.id d0
            (t.entry.changes ++ replacing_change sha256_hex t.entry.id mode f ∷ [])
            d'
    replacing_Undoable content mode d' there h saved =
        extended t.root t.entry.id f ok d0 d d' t.entry.changes
          (replacing_change sha256_hex t.entry.id mode f) before
          (λ e more.
            undo_replacing t.root t.entry.id f ok sha256_hex content mode d d' e there saved h more)

    backup_survives :
        (x y : Entry) (d' : Disk)
        → lookup the_backup (insert the_target x (insert the_backup y d')) ≡ some y
    backup_survives x y d' =
        rw
          (
            lookup-insert the_target the_backup x (insert the_backup y d'),
            text_differs the_target the_backup (λ p. not (is_backup t.root t.entry.id p))
                (rw ok.not_backup refl) (rw ok.backup_there refl),
          )
          (lookup-insert_self the_backup y d')

    inspect_target-Kept :
        (x : Option Entry)
        → lookup the_target d ≡ x
        → Kept t.root t.entry.id d0 (inspect_target sha256_hex o f t x d)
    unfolding inspect_target
    inspect_target-Kept none there =
        let step : (d' : Disk)
            → Touches t.root t.entry.id f ok d d'
            → Undoable t.root t.entry.id d0 (t.entry.changes ++ new_change sha256_hex f ∷ []) d' =
          λ d' h.
            extended t.root t.entry.id f ok d0 d d' t.entry.changes (new_change sha256_hex f) before
              (λ e more. undo_new t.root t.entry.id f ok sha256_hex d d' e there h more) in
        record_change-Kept (new_change sha256_hex f) t d
          (step d (Touches-refl t.root t.entry.id f ok d))
          (step _ (
            Touches-insert t.root t.entry.id f ok d d (regular f.content f.mode)
              (Touches-refl t.root t.entry.id f ok d)))
    inspect_target-Kept (some other) there = (refl, refl, before)
    inspect_target-Kept (some (regular content mode)) there =
        let saved : Disk = insert the_backup (regular content mode) d in
        elim (Bool-cases o.backup_parent) [
          | inr failed ↦ rw failed (refl, refl, before)
          | inl made ↦ elim (Bool-cases o.copied) [
            | inr failed ↦ rw (made, failed) (refl, refl, before)
            | inl copied ↦ elim (Option-cases (lookup the_backup d)) [
              | inr (x, taken) ↦ rw (made, copied, taken) (refl, refl, before)
              | inl fresh ↦
                  let h = Touches-backup t.root t.entry.id f ok d (regular content mode) fresh in
                  rw (made, copied, fresh)
                    (record_change-Kept (replacing_change sha256_hex t.entry.id mode f) t saved
                      (replacing_Undoable content mode saved there h
                        (lookup-insert_self the_backup (regular content mode) d))
                      (replacing_Undoable content mode _ there
                        (Touches-insert t.root t.entry.id f ok d saved (regular f.content f.mode) h)
                        (backup_survives (regular f.content f.mode) (regular content mode) d)))
            ]
          ]
        ]

    -- Whatever fails, what was installed so far can be undone.
    install_bytes-Kept : Kept t.root t.entry.id d0 (install_bytes sha256_hex o f t d)
    unfolding install_bytes
    install_bytes-Kept =
        elim (Bool-cases (not (has_prefix f.path slash) || text_eq (clean_rooted f.path) slash)) [
          | inl invalid ↦ rw invalid (refl, refl, before)
          | inr valid ↦ elim (Bool-cases (within_root t.root the_target)) [
            | inr outside ↦ rw (valid, outside) (refl, refl, before)
            | inl inside ↦ elim (Bool-cases o.parent) [
              | inr failed ↦ rw (valid, inside, failed) (refl, refl, before)
              | inl made ↦ elim (Bool-cases o.inspected) [
                | inr failed ↦ rw (valid, inside, made, failed) (refl, refl, before)
                | inl found ↦ elim (Bool-cases o.is_directory) [
                  | inl directory ↦ rw (valid, inside, made, found, directory) (refl, refl, before)
                  | inr away ↦
                      rw (valid, inside, made, found, away)
                        (inspect_target-Kept (lookup the_target d) refl)
                ]
              ]
            ]
          ]
        ]

-- The same where the transaction's root and identifier are known by equations.
pub install_bytes_at-Kept :
    (sha256_hex : Text → Text) (o : InstallOutcome) (f : InstallFile) (d0 : Disk) (root id : Text)
    (t : FileTransaction) (d : Disk)
    → t.root ≡ root
    → t.entry.id ≡ id
    → IsInstallable root id f.path
    → Undoable root id d0 t.entry.changes d
    → Kept root id d0 (install_bytes sha256_hex o f t d)
install_bytes_at-Kept sha256_hex o f d0 root id t d same_root same_id =
    let Goal : Text → Text → Type 0 = λ r i.
      IsInstallable r i f.path
      → Undoable r i d0 t.entry.changes d
      → Kept r i d0 (install_bytes sha256_hex o f t d) in
    subst (λ (r : Text). Goal r id) same_root
      (subst (λ (i : Text). Goal t.root i) same_id
        (λ ok before. install_bytes-Kept sha256_hex o f d0 t d ok before))
