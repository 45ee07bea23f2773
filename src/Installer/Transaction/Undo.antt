-- ===== src/Installer/Transaction/Undo.antt =====
-- Undoing one change of internal/installer/transaction.go, and the changes before it.
use my_safe.Prelude.{
  ℕ, ◌+◌, ◌≡◌, refl, ap, sym, ◌∙◌, inl, inr, Bool, true, false, ◌&&◌, none, some, List, [], ◌∷◌,
  ◌++◌, arith, Bool-cases,
}
use mathlib.Core.Path.{subst}
use my_safe.Prelude.Text.{Text, text_eq, text_eq_iff, text_eq_refl, has_prefix}
use my_safe.Prelude.Dict.{
  lookup, insert, erase, is_some, lookup-insert, lookup-insert_self, lookup-erase,
}
use my_safe.Installer.Paths.{slash, root_path, within_root}
use my_safe.Installer.Restore.{restore, undo_change, rollback_changes}
use my_safe.Installer.Transaction.{
  Entry, regular, Disk, FileChange, InstallFile, backup_directory, backup_path_of, new_change,
  replacing_change,
}

-- A path below the directory of this transaction's backups.
unfoldable pub is_backup : Text → Text → Text → Bool
is_backup root id p = has_prefix p (root_path root (backup_directory ++ id) ++ slash)

-- A path that may be installed: it is inside the root and not among the backups, where its own backup is.
pub record IsInstallable (root id path : Text) : Type 0 where
  pub rooted : has_prefix path slash ≡ true
  pub inside : within_root root (root_path root path) ≡ true
  pub not_backup : is_backup root id (root_path root path) ≡ false
  pub backup_rooted : has_prefix (backup_path_of id path) (backup_directory ++ id ++ slash) ≡ true
  pub backup_inside : within_root root (root_path root (backup_path_of id path)) ≡ true
  pub backup_there : is_backup root id (root_path root (backup_path_of id path)) ≡ true

-- Two disks hold the same outside the backups.
abbrev pub Same : Text → Text → Disk → Disk → Type 0
Same root id d e = (p : Text) → is_backup root id p ≡ false → lookup p e ≡ lookup p d

-- `e` has what `d` has outside the backups, and all that `d` has in them.
abbrev pub Extends : Text → Text → Disk → Disk → Type 0
Extends root id d e =
    Same root id d e × ((p : Text) (x : Entry) → lookup p d ≡ some x → lookup p e ≡ some x)

abbrev pub always : Text → Bool
always _ = true

-- Undoing the changes makes no error and gives back `d0`, also when there are more backups than in `d`.
abbrev pub Undoable : Text → Text → Disk → List FileChange → Disk → Type 0
Undoable root id d0 changes d =
    (e : Disk)
    → Extends root id d e
    → ((rollback_changes always root id changes e).0 ≡ 0)
      × Same root id d0 (rollback_changes always root id changes e).1

pub text_differs : (p q : Text) (f : Text → Bool) → f p ≡ true → f q ≡ false → text_eq p q ≡ false
text_differs p q f hp hq = elim (Bool-cases (text_eq p q)) [
  | inr different ↦ different
  | inl it ↦ let same : p ≡ q = (text_eq_iff p q).0 it in absurd (cc (hp, hq, same))
]

count_eq : (m n : ℕ) (d : Disk) → m ≡ n → ◌≡◌ {A = ℕ × Disk} (m, d) (n, d)
count_eq m n d h = ap (λ (k : ℕ). (k, d)) h

and_false : (b : Bool) → (b && false) ≡ false
and_false true = refl
and_false false = refl

module _ (root id : Text) where
  rollback_changes-append :
      (changes : List FileChange) (change : FileChange) (d : Disk)
      → rollback_changes always root id (changes ++ change ∷ []) d ≡ (
        (undo_change always root id change d).0
            + (rollback_changes always root id changes (undo_change always root id change d).1).0,
        (rollback_changes always root id changes (undo_change always root id change d).1).1,
      )
  unfolding rollback_changes
  rollback_changes-append [] change d = count_eq _ _ _ (omega arith)
  rollback_changes-append (x ∷ changes) change d =
      rw (rollback_changes-append changes change d) (count_eq _ _ _ (omega arith))

  module _ (f : InstallFile) (ok : IsInstallable root id f.path) where
    abbrev pub target : Text
    target = root_path root f.path

    abbrev pub backup : Text
    backup = root_path root (backup_path_of id f.path)

    -- What a step may do to a disk that its rollback must undo.
    pub record Touches (d d' : Disk) : Type 0 where
      same :
          (p : Text)
          → text_eq target p ≡ false
          → is_backup root id p ≡ false
          → lookup p d' ≡ lookup p d
      kept :
          (p : Text) (x : Entry)
          → text_eq target p ≡ false
          → lookup p d ≡ some x
          → lookup p d' ≡ some x

    -- The target has again what it had, and nothing else is changed.
    undone_Extends :
        (d d' e e' : Disk)
        → Touches d d'
        → Extends root id d' e
        → lookup target e' ≡ lookup target d
        → ((p : Text) → text_eq target p ≡ false → lookup p e' ≡ lookup p e)
        → Extends root id d e'
    undone_Extends d d' e e' h more again rest =
        let same : Same root id d e' = λ p free. elim (Bool-cases (text_eq target p)) [
          | inl it ↦
              subst (λ (q : Text). lookup q e' ≡ lookup q d) ((text_eq_iff target p).0 it) again
          | inr away ↦ rest p away ∙ more.0 p free ∙ h.same p away free
        ] in
        (
          same,
          λ p x there. elim (Bool-cases (text_eq target p)) [
            | inl it ↦
                subst (λ (q : Text). lookup q e' ≡ lookup q d) ((text_eq_iff target p).0 it) again
                ∙ there
            | inr away ↦ rest p away ∙ more.1 p x (h.kept p x away there)
          ],
        )

    unfoldable pub Undone : FileChange → Disk → Disk → Type 0
    Undone change d e =
        ((undo_change always root id change e).0 ≡ 0)
        × Extends root id d (undo_change always root id change e).1

    pub undo_new :
        (sha256_hex : Text → Text) (d d' e : Disk)
        → lookup target d ≡ none
        → Touches d d'
        → Extends root id d' e
        → Undone (new_change sha256_hex f) d e
    unfolding undo_change Undone
    undo_new sha256_hex d d' e none_there h more =
        rw (ok.rooted, ok.inside, and_false (is_some (lookup target e)))
          (
            refl,
            undone_Extends d d' e (erase target e) h more
                (rw (lookup-erase target target e, text_eq_refl target) (sym none_there))
                (λ p away. rw (lookup-erase target p e, away) refl),
          )

    pub undo_replacing :
        (sha256_hex : Text → Text) (content : Text) (mode : ℕ) (d d' e : Disk)
        → lookup target d ≡ some (regular content mode)
        → lookup backup d' ≡ some (regular content mode)
        → Touches d d'
        → Extends root id d' e
        → Undone (replacing_change sha256_hex id mode f) d e
    unfolding undo_change Undone restore
    undo_replacing sha256_hex content mode d d' e was saved h more =
        let there : lookup backup e ≡ some (regular content mode) =
          more.1 backup (regular content mode) saved in
        rw (ok.rooted, ok.inside, ok.backup_rooted, ok.backup_inside, there)
          (
            refl,
            undone_Extends d d' e (insert target (regular content mode) e) h more
                (lookup-insert_self target (regular content mode) e ∙ sym was)
                (λ p away. rw (lookup-insert target p (regular content mode) e, away) refl),
          )

    pub extended :
        (d0 d d' : Disk) (changes : List FileChange) (change : FileChange)
        → Undoable root id d0 changes d
        → ((e : Disk) → Extends root id d' e → Undone change d e)
        → Undoable root id d0 (changes ++ change ∷ []) d'
    unfolding Undone
    extended d0 d d' changes change before undone = λ e more.
        let (no_error, back) = undone e more in
        let (no_errors, done) = before (undo_change always root id change e).1 back in
        rw (rollback_changes-append changes change e) (rw (no_error, no_errors) refl, done)

    -- Writing the target touches nothing else.
    pub Touches-refl : (d : Disk) → Touches d d
    Touches-refl d = record { same = λ p away free. refl; kept = λ p x away there. there }

    pub Touches-insert : (d d' : Disk) (x : Entry) → Touches d d' → Touches d (insert target x d')
    Touches-insert d d' x h = record {
      same = λ p away free. rw (lookup-insert target p x d', away) (h.same p away free);
      kept = λ p y away there. rw (lookup-insert target p x d', away) (h.kept p y away there);
    }

    pub Touches-backup :
        (d : Disk) (x : Entry) → lookup backup d ≡ none → Touches d (insert backup x d)
    Touches-backup d x fresh = record {
      same = λ p away free.
          rw
            (
              lookup-insert backup p x d,
              text_differs backup p (is_backup root id) ok.backup_there free,
            )
            refl;
      kept = λ p y away there. elim (Bool-cases (text_eq backup p)) [
        | inr other_path ↦ rw (lookup-insert backup p x d, other_path) there
        | inl it ↦ absurd (cc (fresh, there, (text_eq_iff backup p).0 it))
      ];
    }
