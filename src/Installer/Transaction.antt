-- ===== src/Installer/Transaction.antt =====
-- internal/installer/transaction.go: each change of a file is backed up and put into a journal before it
-- is made. The disk is a dictionary of paths, of what stands at them that is not a directory; the calls of
-- the operating system succeed or fail as the outcomes say, which also say where a directory stands. The
-- directories that MkdirAll makes are not on the disk. Of a mode there are the permission bits.
pub mod Undo
pub mod Rollback
use my_safe.Prelude.{
  ℕ, ◌+◌, Bool, true, false, not, ◌||◌, ◌&&◌, Option, none, some, List, [], ◌∷◌, ◌++◌,
  if◌then◌else◌,
}
use my_safe.Prelude.Text.{Text, codes, text_eq, has_prefix}
use my_safe.Prelude.Text.Clean.{clean_rooted}
use my_safe.Prelude.Dict.{Dict, lookup, insert, erase, is_some}
use my_safe.Domain.{Time}
use my_safe.Installer.Paths.{slash, root_path, within_root}

-- What is at a path: a regular file, or a link, a socket, a device.
pub data Entry : Type 0 where
  regular : Text → ℕ → Entry
  other : Entry

abbrev pub Disk : Type 0
Disk = Dict Entry

pub record FileChange : Type 0 where
  pub path : Text
  pub backup_path : Text
  pub existed : Bool
  pub old_mode : ℕ
  pub new_sha256 : Text

pub record ServiceChange : Type 0 where
  pub name : Text
  pub was_enabled : Bool
  pub was_active : Bool

pub data Status : Type 0 where
  applying complete rolled_back : Status

pub record TransactionRecord : Type 0 where
  pub id : Text
  pub version : Text
  pub created_at : Time
  pub status : Status
  pub changes : List FileChange
  pub created_users : List Text
  pub created_groups : List Text
  pub services : List ServiceChange
  pub nginx_changed : Bool

-- `fileTransaction`, with what the journal file holds.
pub record FileTransaction : Type 0 where
  pub root : Text
  pub entry : TransactionRecord
  pub journal : Option TransactionRecord

pub data InstallError : Type 0 where
  no_identifier no_directory not_persisted invalid_path escapes_root no_parent not_regular
        no_backup_directory not_backed_up not_inspected not_installed :
      InstallError

abbrev pub backup_directory : Text
backup_directory = codes "/var/lib/my-safe-installer/backups/"

-- `persist`: the journal holds the entry, if it can be written.
unfoldable pub persist :
    (TransactionRecord → Bool) → FileTransaction → Option InstallError × FileTransaction
persist persists t =
    if persists t.entry
    then (none, record t { journal = some t.entry })
    else (some not_persisted, t)

-- `beginTransaction`: `id` is the time and the random text, `none` where there is no randomness.
unfoldable pub begin_transaction :
    Option Text
    → Bool
    → (TransactionRecord → Bool)
    → Text
    → Text
    → Time
    → Option InstallError × Option FileTransaction
unfolding persist
begin_transaction none directories persists root version now = (some no_identifier, none)
begin_transaction (some id) directories persists root version now =
    let t : FileTransaction = record {
      root = root;
      entry = record {
        id = id;
        version = version;
        created_at = now;
        status = applying;
        changes = [];
        created_users = [];
        created_groups = [];
        services = [];
        nginx_changed = false;
      };
      journal = none;
    } in
    if not directories
    then (some no_directory, none)
    else let (e, t') = persist persists t in
      elim e [ some e ↦ (some e, none) | none ↦ (none, some t') ]

-- `RecordCreatedUser`, `RecordCreatedGroup`, `RecordService` and `RecordNginxChange`.
abbrev pub record_created_user :
    (TransactionRecord → Bool) → Text → FileTransaction → Option InstallError × FileTransaction
record_created_user persists name t =
    persist persists
      (record t { entry = record t.entry { created_users = t.entry.created_users ++ name ∷ [] } })

abbrev pub record_created_group :
    (TransactionRecord → Bool) → Text → FileTransaction → Option InstallError × FileTransaction
record_created_group persists name t =
    persist persists
      (record t { entry = record t.entry { created_groups = t.entry.created_groups ++ name ∷ [] } })

abbrev pub record_service :
    (TransactionRecord → Bool)
    → ServiceChange
    → FileTransaction
    → Option InstallError × FileTransaction
record_service persists change t =
    persist persists
      (record t { entry = record t.entry { services = t.entry.services ++ change ∷ [] } })

abbrev pub record_nginx_change :
    (TransactionRecord → Bool) → FileTransaction → Option InstallError × FileTransaction
record_nginx_change persists t =
    persist persists (record t { entry = record t.entry { nginx_changed = true } })

-- `Commit`
abbrev pub commit :
    (TransactionRecord → Bool) → FileTransaction → Option InstallError × FileTransaction
commit persists t = persist persists (record t { entry = record t.entry { status = complete } })

-- Whether each call of an `InstallBytes` succeeds: the parent directory, `Lstat`, the directory of the
-- backup, its copy, the journal, and the file itself; and whether a directory stands at the target.
pub record InstallOutcome : Type 0 where
  pub parent : Bool
  pub inspected : Bool
  pub is_directory : Bool
  pub backup_parent : Bool
  pub copied : Bool
  pub persisted : Bool
  pub written : Bool

-- A file to install: its path, what it holds, and its mode.
pub record InstallFile : Type 0 where
  pub path : Text
  pub content : Text
  pub mode : ℕ

pub data Installed : Type 0 where
  result : Option InstallError → FileTransaction → Disk → Installed

abbrev pub backup_path_of : Text → Text → Text
backup_path_of id path = backup_directory ++ id ++ path

module _ (sha256_hex : Text → Text) where
  -- From the journal entry on.
  record_change : InstallOutcome → InstallFile → FileChange → FileTransaction → Disk → Installed
  record_change o f change t d =
      let t' : FileTransaction = record t {
        entry = record t.entry { changes = t.entry.changes ++ change ∷ [] };
      } in
      if not o.persisted
      then result (some not_persisted) t' d
      else if not o.written
      then result (some not_installed) (record t' { journal = some t'.entry }) d
      else result none (record t' { journal = some t'.entry })
          (insert (root_path t.root f.path) (regular f.content f.mode) d)

  abbrev pub new_change : InstallFile → FileChange
  new_change f = record {
    path = f.path;
    backup_path = [];
    existed = false;
    old_mode = 0;
    new_sha256 = sha256_hex f.content;
  }

  abbrev pub replacing_change : Text → ℕ → InstallFile → FileChange
  replacing_change id mode f = record {
    path = f.path;
    backup_path = backup_path_of id f.path;
    existed = true;
    old_mode = mode;
    new_sha256 = sha256_hex f.content;
  }

  -- What is at the target: nothing, a file that is backed up, or something that is refused. The copy
  -- fails where the path of the backup is taken.
  inspect_target : InstallOutcome → InstallFile → FileTransaction → Option Entry → Disk → Installed
  unfolding record_change
  inspect_target o f t none d = record_change o f (new_change f) t d
  inspect_target o f t (some other) d = result (some not_regular) t d
  inspect_target o f t (some (regular content mode)) d =
      let backup = root_path t.root (backup_path_of t.entry.id f.path) in
      if not o.backup_parent
      then result (some no_backup_directory) t d
      else if not o.copied || is_some (lookup backup d)
      then result (some not_backed_up) t d
      else record_change o f (replacing_change t.entry.id mode f) t
          (insert backup (regular content mode) d)

  -- `InstallBytes`
  unfoldable pub install_bytes : InstallOutcome → InstallFile → FileTransaction → Disk → Installed
  unfolding inspect_target
  install_bytes o f t d =
      let target = root_path t.root f.path in
      if not (has_prefix f.path slash) || text_eq (clean_rooted f.path) slash
      then result (some invalid_path) t d
      else if not (within_root t.root target)
      then result (some escapes_root) t d
      else if not o.parent
      then result (some no_parent) t d
      else if not o.inspected
      then result (some not_inspected) t d
      else if o.is_directory
      then result (some not_regular) t d
      else inspect_target o f t (lookup target d) d
