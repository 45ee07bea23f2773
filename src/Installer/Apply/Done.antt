-- ===== src/Installer/Apply/Done.antt =====
-- An installation is complete, or everything that it did to files is undone.
use my_safe.Prelude.{
  ℕ, ◌≡◌, ◌≢◌, refl, ap, ◌∙◌, ◌⊎◌, inl, inr, false, Option, none, some, List, [], ◌∷◌, ◌++◌, map,
  Bool-cases, Option-cases,
}
use mathlib.Core.List.{reverse}
use my_safe.Prelude.Text.{Text, codes, is_empty}
use my_safe.Prelude.Dict.{lookup}
use my_safe.Domain.{Time}
use my_safe.Installer.Restore.{rollback_changes}
use my_safe.Installer.Transaction.{Disk, complete, rolled_back, commit, persist}
use my_safe.Installer.Transaction.Undo.{IsInstallable, Same, always, Undoable}
use my_safe.Installer.Steps.{Command, Outside, Machine, Step, ◌then◌, run_all, words_of, journal}
use my_safe.Installer.Revert.{
  Undo, ◌also◌, rollback_installation, undo_files, undo_nginx, reload_nginx, disabling, restoring,
  deleting, mark_rolled_back,
}
use my_safe.Installer.Apply.{
  Job, install_files, install_all, prepare, register, start, installation, apply,
}
use my_safe.Installer.Apply.Kept.{Fit, then-IsSafe, journal-IsSafe, persist-Leaves}
use my_safe.Installer.Apply.Phases.{
  AllInstallable, install_all-IsSafe, prepare-IsSafe, register-IsSafe, start-IsSafe,
}

-- A part of a rollback that leaves the files alone.
record IsAside (u : Undo) : Type 0 where
  leaves : (m : Machine) → (u m).1.disk ≡ m.disk

also-IsAside : {a b : Undo} → IsAside a → IsAside b → IsAside (a also b)
unfolding ◌also◌
also-IsAside {a = a} ha hb = record { leaves = λ m. hb.leaves (a m).1 ∙ ha.leaves m }

module _ (o : Outside) where
  run_all-keeps :
      (cs : List Command) (m : Machine)
      → ((run_all o cs m).1.disk ≡ m.disk) × ((run_all o cs m).1.transaction ≡ m.transaction)
  unfolding run_all
  run_all-keeps [] m = (refl, refl)
  run_all-keeps (c ∷ cs) m =
      let (same_disk, same_transaction) =
        run_all-keeps cs (record m { commands = m.commands ++ c ∷ [] }) in
      (same_disk, same_transaction)

  run_all-IsAside : (cs : List Command) → IsAside (run_all o cs)
  run_all-IsAside cs = record { leaves = λ m. (run_all-keeps cs m).0 }

  undo_nginx-IsAside : IsAside (undo_nginx o)
  unfolding undo_nginx reload_nginx
  undo_nginx-IsAside = record {
    leaves = λ m. elim (Bool-cases m.transaction.entry.nginx_changed) [
      | inr untouched ↦ rw untouched refl
      | inl changed ↦
          elim (Bool-cases (o.runs m.commands (words_of (codes "nginx" ∷ codes "-t" ∷ [])))) [
            | inl valid ↦ rw (changed, valid, run_all) refl
            | inr invalid ↦ rw (changed, invalid, run_all) refl
          ]
    ];
  }

  mark_rolled_back-IsAside : IsAside (mark_rolled_back o)
  unfolding mark_rolled_back
  mark_rolled_back-IsAside = record {
    leaves = λ m.
        elim (Bool-cases (o.persists (record m.transaction.entry { status = rolled_back }))) [
          | inl written ↦ rw written refl
          | inr failed ↦ rw failed refl
        ];
  }

  undo_files_disk :
      (root id : Text) (m m' : Machine)
      → o.restores ≡ always
      → m.transaction.root ≡ root
      → m.transaction.entry.id ≡ id
      → m'.disk ≡ m.disk
      → m'.transaction ≡ m.transaction
      → (undo_files o m').1.disk
        ≡ (rollback_changes always root id m.transaction.entry.changes m.disk).1
  unfolding undo_files
  undo_files_disk root id m m' works the_root the_id same_disk same_transaction =
      rw (works, same_disk, same_transaction, the_root, the_id) refl

  rest-IsAside :
      (restored users groups : List Command)
      → IsAside (
          run_all o (words_of (codes "systemctl" ∷ codes "daemon-reload" ∷ []) ∷ [])
          also undo_nginx o
          also run_all o restored
          also run_all o users
          also run_all o groups
          also mark_rolled_back o)
  rest-IsAside restored users groups = also-IsAside (run_all-IsAside _) (
      also-IsAside undo_nginx-IsAside (
        also-IsAside (run_all-IsAside restored) (
          also-IsAside (run_all-IsAside users)
            (also-IsAside (run_all-IsAside groups) mark_rolled_back-IsAside))))

  -- The files after a rollback are those after the changes are undone.
  rollback_installation-Same :
      (root id : Text) (d0 : Disk) (m : Machine)
      → o.restores ≡ always
      → Fit root id d0 m
      → Same root id d0 (rollback_installation o m).1.disk
  unfolding rollback_installation ◌also◌
  rollback_installation-Same root id d0 m works (the_root, the_id, undoable) = λ p free.
      let entry = m.transaction.entry in
      let stopped : List Command = map disabling (reverse entry.services) in
      let m' : Machine = (run_all o stopped m).1 in
      let (same_disk, same_transaction) = run_all-keeps stopped m in
      let rest =
        rest-IsAside (restoring entry.services)
          (map (deleting (codes "userdel")) (reverse entry.created_users))
          (map (deleting (codes "groupdel")) (reverse entry.created_groups)) in
      ap (lookup p) (
        rest.leaves (undo_files o m').1
        ∙ undo_files_disk root id m m' works the_root the_id same_disk same_transaction)
      ∙ (undoable m.disk ((λ q away. refl), λ q x there. there)).1 p free

-- The journal holds the transaction, as complete.
abbrev pub IsCommitted : Machine → Type 0
IsCommitted m =
    (m.transaction.journal ≡ some m.transaction.entry) × (m.transaction.entry.status ≡ complete)

-- The step ends with the transaction committed, if it does not fail.
record IsCommitting (step : Step) : Type 0 where
  ends : (m : Machine) → (step m).0 ≡ none → IsCommitted (step m).1

then-IsCommitting : (a : Step) {b : Step} → IsCommitting b → IsCommitting (a then b)
unfolding ◌then◌
then-IsCommitting a h = record {
  ends = λ m ok. elim (Option-cases (a m).0) [
    | inl fine ↦ rw (fine, ◌then◌) (h.ends (a m).1 (rw (fine, ◌then◌) at ok))
    | inr (e, failed) ↦ absurd (cc (rw (failed, ◌then◌) at ok))
  ];
}

commit-IsCommitting : (o : Outside) → IsCommitting (journal o (λ p t. commit p t))
unfolding journal persist
commit-IsCommitting o = record {
  ends = λ m ok. elim (Bool-cases (o.persists (record m.transaction.entry { status = complete }))) [
    | inl written ↦ rw written (refl, refl)
    | inr failed ↦ absurd (cc (rw failed at ok))
  ];
}

module _ (quote : Text → Text) (encode_release : Text → Time → Text → Option Text)
    (sha256_hex : Text → Text) (find_directive : Text → Text → List (ℕ × ℕ)) (o : Outside)
    (job : Job) where
  module _ (m : Machine) where
    abbrev root : Text
    root = m.transaction.root

    abbrev id : Text
    id = m.transaction.entry.id

    installation-Fit :
        m.transaction.entry.changes ≡ []
        → AllInstallable root id
            (install_files quote encode_release sha256_hex find_directive job id)
        → (is_empty job.plan.nginx_config ≡ false → IsInstallable root id job.plan.nginx_config)
        → Fit root id m.disk (installation quote encode_release sha256_hex find_directive o job m).1
    unfolding installation rollback_changes
    installation-Fit fresh files nginx =
        let nothing_done : Undoable root id m.disk m.transaction.entry.changes m.disk =
          rw fresh (λ e more. (refl, more.0)) in
        (then-IsSafe root id m.disk
            (prepare-IsSafe quote encode_release sha256_hex find_directive root id m.disk o job)
            (then-IsSafe root id m.disk
              (install_all-IsSafe quote encode_release sha256_hex find_directive root id m.disk o
                job _ files)
              (then-IsSafe root id m.disk
                (register-IsSafe quote encode_release sha256_hex find_directive root id m.disk o job
                  root)
                (then-IsSafe root id m.disk
                  (start-IsSafe quote encode_release sha256_hex find_directive root id m.disk o job
                    nginx)
                  (journal-IsSafe root id m.disk o (λ p t. commit p t)
                    (persist-Leaves root id m.disk
                      (λ t. record t { entry = record t.entry { status = complete } })
                      (λ t. (refl, refl, refl)))))))).keeps
          m (refl, refl, nothing_done)

    installation-IsCommitted :
        (installation quote encode_release sha256_hex find_directive o job m).0 ≡ none
        → IsCommitted (installation quote encode_release sha256_hex find_directive o job m).1
    unfolding installation
    installation-IsCommitted ok =
        let last =
          then-IsCommitting (prepare quote encode_release sha256_hex find_directive o job) (
            then-IsCommitting
              (install_all quote encode_release sha256_hex find_directive o
                (install_files quote encode_release sha256_hex find_directive job id))
              (then-IsCommitting
                (register quote encode_release sha256_hex find_directive o job root)
                (then-IsCommitting (start quote encode_release sha256_hex find_directive o job)
                  (commit-IsCommitting o)))) in
        last.ends m ok

    -- However commands and writes fail, an installation ends either complete, without an error and with a journal that
    -- says so, or rolled back, with an error and with every file, link and device outside its backups as it was: none
    -- more, none less, and each file with its content and mode. Its journal, directories that were made, and what the
    -- commands write that are run are not counted. The transaction has no changes yet, the paths to install are inside
    -- the root and outside the backups, and in the rollback the files can be written.
    pub apply_lem :
        o.restores ≡ always
        → m.transaction.entry.changes ≡ []
        → AllInstallable root id
            (install_files quote encode_release sha256_hex find_directive job id)
        → (is_empty job.plan.nginx_config ≡ false → IsInstallable root id job.plan.nginx_config)
        → let (status, failure, errors, m') =
            apply quote encode_release sha256_hex find_directive o job m in
          ((status ≡ complete) × (failure ≡ none) × IsCommitted m')
          ⊎ ((status ≡ rolled_back) × (failure ≢ none) × Same root id m.disk m'.disk)
    unfolding apply
    apply_lem works fresh files nginx =
        elim (Option-cases
          (installation quote encode_release sha256_hex find_directive o job m).0) [
            | inl fine ↦ rw (fine, apply) (inl (refl, refl, installation-IsCommitted fine))
            | inr (e, failed) ↦
                rw (failed, apply)
                  (inr (
                    refl,
                    (λ impossible. absurd (cc impossible)),
                    rollback_installation-Same o root id m.disk
                        (installation quote encode_release sha256_hex find_directive o job m).1
                        works (installation-Fit fresh files nginx),
                  ))
          ]
