-- ===== src/Installer/Apply/Kept.antt =====
-- Each step of an installation keeps what its rollback needs.
use my_safe.Prelude.{
  ℕ, ◌≡◌, refl, sym, ◌∙◌, inl, inr, Bool, true, false, List, [], ◌∷◌, ◌++◌, All, Bool-cases,
  Option-cases,
}
use mathlib.Core.Path.{subst}
use my_safe.Prelude.Text.{codes, Text}
use my_safe.Installer.Paths.{root_path, within_root}
use my_safe.Installer.Transaction.{
  Disk, FileChange, ServiceChange, TransactionRecord, FileTransaction, InstallFile, Installed,
  result, persist, record_created_user, record_created_group, record_service, install_bytes,
}
use my_safe.Installer.Transaction.Undo.{IsInstallable, Undoable}
use my_safe.Installer.Transaction.Rollback.{Kept, install_bytes_at-Kept}
use my_safe.Installer.Steps.{
  Command, Outside, Machine, Step, ◌then◌, nothing, each, when, words_of, run, journal,
  capture_service, ensure_account, add_group, add_user, unless_there, ensure_directory, install,
  Journal, answer, installed,
}

module _ (root id : Text) (d0 : Disk) where
  abbrev pub Fit : Machine → Type 0
  Fit m =
      (m.transaction.root ≡ root)
      × (m.transaction.entry.id ≡ id)
      × Undoable root id d0 m.transaction.entry.changes m.disk

  -- A step after which what was done can still be undone, whether it fails or not.
  pub record IsSafe (step : Step) : Type 0 where
    pub keeps : (m : Machine) → Fit m → Fit (step m).1

  pub then-IsSafe : {a b : Step} → IsSafe a → IsSafe b → IsSafe (a then b)
  unfolding ◌then◌
  then-IsSafe {a = a} ha hb = record {
    keeps = λ m h. elim (Option-cases (a m).0) [
      | inl fine ↦ rw (fine, ◌then◌) (hb.keeps (a m).1 (ha.keeps m h))
      | inr (e, failed) ↦ rw (failed, ◌then◌) (ha.keeps m h)
    ];
  }

  pub nothing-IsSafe : IsSafe nothing
  unfolding nothing
  nothing-IsSafe = record { keeps = λ m h. h }

  pub each-IsSafe :
      {A : Type 0} (step : A → Step) (xs : List A)
      → All (λ x. IsSafe (step x)) xs
      → IsSafe (each step xs)
  unfolding each
  each-IsSafe step [] h = nothing-IsSafe
  each-IsSafe step (x ∷ xs) h = then-IsSafe h.0 (each-IsSafe step xs h.1)

  pub when-IsSafe : (b : Bool) {step : Step} → IsSafe step → IsSafe (when b step)
  when-IsSafe true h = h
  when-IsSafe false h = nothing-IsSafe

  -- A change of the transaction that leaves the root, the identifier and the changes of files.
  abbrev pub Leaves : Journal → Type 0
  Leaves change =
      (p : TransactionRecord → Bool) (t : FileTransaction)
      → ((change p t).1.root ≡ t.root)
        × ((change p t).1.entry.id ≡ t.entry.id)
        × ((change p t).1.entry.changes ≡ t.entry.changes)

  pub persist-Leaves :
      (edit : FileTransaction → FileTransaction)
      → ((t : FileTransaction)
          → ((edit t).root ≡ t.root)
            × ((edit t).entry.id ≡ t.entry.id)
            × ((edit t).entry.changes ≡ t.entry.changes))
      → Leaves (λ p t. persist p (edit t))
  unfolding persist
  persist-Leaves edit h p t = elim (Bool-cases (p (edit t).entry)) [
    | inl written ↦ rw written (h t)
    | inr failed ↦ rw failed (h t)
  ]

  module _ (o : Outside) where
    pub run-IsSafe : (c : Command) → IsSafe (run o c)
    unfolding run
    run-IsSafe c = record { keeps = λ m h. h }

    pub journal-IsSafe : (change : Journal) → Leaves change → IsSafe (journal o change)
    unfolding journal
    journal-IsSafe change leaves = record {
      keeps = λ m h.
          let (same_root, same_id, same_changes) = leaves o.persists m.transaction in
          let (the_root, the_id, undoable) = h in
          (
            same_root ∙ the_root,
            same_id ∙ the_id,
            subst (λ (cs : List FileChange). Undoable root id d0 cs m.disk) (sym same_changes)
                undoable,
          );
    }

    pub capture_service-IsSafe : (name : Text) → IsSafe (capture_service o name)
    unfolding capture_service
    capture_service-IsSafe name = record {
      keeps = λ m h.
          let (enabled, m') =
            answer o (words_of (codes "systemctl" ∷ codes "is-enabled" ∷ name ∷ [])) m in
          let (active, m'') =
            answer o (words_of (codes "systemctl" ∷ codes "is-active" ∷ name ∷ [])) m' in
          let captured : ServiceChange = record {
            name = name;
            was_enabled = enabled;
            was_active = active;
          } in
          (journal-IsSafe (λ p t. record_service p captured t)
              (persist-Leaves
                (λ t. record t {
                  entry = record t.entry { services = t.entry.services ++ captured ∷ [] };
                })
                (λ t. (refl, refl, refl)))).keeps
            m'' h;
    }

    unless_there-IsSafe :
        (words : List Text) {add : Step} → IsSafe add → IsSafe (unless_there o words add)
    unfolding unless_there
    unless_there-IsSafe words added = record {
      keeps = λ m h.
          let (there, m') = answer o (words_of words) m in
          elim (Bool-cases there) [
            | inl found ↦ rw found h
            | inr missing ↦ rw missing (added.keeps m' h)
          ];
    }

    add_group-IsSafe : (name : Text) → IsSafe (add_group o name)
    unfolding add_group
    add_group-IsSafe name =
        then-IsSafe (run-IsSafe (words_of (codes "groupadd" ∷ codes "--system" ∷ name ∷ []))) (
          journal-IsSafe (λ p t. record_created_group p name t)
            (persist-Leaves
              (λ t. record t {
                entry = record t.entry { created_groups = t.entry.created_groups ++ name ∷ [] };
              })
              (λ t. (refl, refl, refl))))

    add_user-IsSafe : (name home : Text) → IsSafe (add_user o name home)
    unfolding add_user
    add_user-IsSafe name home =
        then-IsSafe
          (run-IsSafe (
            words_of (
              codes "useradd"
              ∷ codes "--system"
              ∷ codes "--gid"
              ∷ name
              ∷ codes "--home-dir"
              ∷ home
              ∷ codes "--shell"
              ∷ codes "/usr/sbin/nologin"
              ∷ name
              ∷ [])))
          (journal-IsSafe (λ p t. record_created_user p name t)
            (persist-Leaves
              (λ t. record t {
                entry = record t.entry { created_users = t.entry.created_users ++ name ∷ [] };
              })
              (λ t. (refl, refl, refl))))

    pub ensure_account-IsSafe : (name home : Text) → IsSafe (ensure_account o name home)
    unfolding ensure_account
    ensure_account-IsSafe name home =
        then-IsSafe
          (unless_there-IsSafe (codes "getent" ∷ codes "group" ∷ name ∷ []) (add_group-IsSafe name))
          (unless_there-IsSafe (codes "id" ∷ name ∷ []) (add_user-IsSafe name home))

    pub ensure_directory-IsSafe : (path : Text) (mode : ℕ) → IsSafe (ensure_directory o path mode)
    unfolding ensure_directory
    ensure_directory-IsSafe path mode = record {
      keeps = λ m h.
          elim (Bool-cases (within_root m.transaction.root (root_path m.transaction.root path))) [
            | inr outside ↦ rw outside h
            | inl inside ↦ elim (Bool-cases (o.makes_directory path)) [
              | inr failed ↦ rw (inside, failed) h
              | inl made ↦ elim (Bool-cases (o.changes_mode path)) [
                | inl changed ↦ rw (inside, made, changed) h
                | inr unchanged ↦ rw (inside, made, unchanged) h
              ]
            ]
          ];
    }

    module _ (sha256_hex : Text → Text) where
      installed-Fit : (m : Machine) (x : Installed) → Kept root id d0 x → Fit (installed o m x).1
      unfolding installed
      installed-Fit m (result e t d) h = h

      pub install-IsSafe :
          (f : InstallFile) → IsInstallable root id f.path → IsSafe (install o sha256_hex f)
      unfolding install installed
      install-IsSafe f ok = record {
        keeps = λ m h.
            let (the_root, the_id, undoable) = h in
            installed-Fit m (install_bytes sha256_hex (o.installs f.path) f m.transaction m.disk) (
              install_bytes_at-Kept sha256_hex (o.installs f.path) f d0 root id m.transaction m.disk
                the_root the_id ok undoable);
      }
