-- ===== src/Agent/Queue.antt =====
-- internal/agent/queue.go: events sealed in files, sent in the order of their names. The directory is
-- a list of entries; what the operating system does is in the outcomes that the operations take.
pub mod Names
pub mod Batches
pub mod RoundTrip
use my_safe.Prelude.{
  ℕ, zero, suc, ◌+◌, ◌*◌, ◌^◌, Bool, true, false, not, ◌&&◌, ◌||◌, Option, none, some, List, [],
  ◌∷◌, ◌++◌, map, length, take, drop, ltb, leb, ◌==◌, if◌then◌else◌,
}
use my_safe.Prelude.Int.{ℤ, pos, negsuc}
use my_safe.Prelude.Text.{Text, codes, text_eq, has_suffix, contains_any}
use my_safe.Prelude.Text.Sort.{sort_texts}
use my_safe.Prelude.Dict.{Dict, lookup, erase, is_some}
use my_safe.Domain.{Event}

-- A file of the directory: whether it is a regular file, and what it holds.
pub record File : Type 0 where
  pub is_regular : Bool
  pub content : Text

-- The directory, by names.
abbrev pub Directory : Type 0
Directory = Dict File

abbrev pub queue_file_suffix : Text
queue_file_suffix = codes ".event"

abbrev pub max_queue_file_size : ℕ
max_queue_file_size = 2 ^ 20

abbrev pub max_queue_entries : ℕ
max_queue_entries = 10000

pub data QueueError : Type 0 where
  queue_full unencodable no_nonce no_filename not_created not_written bad_limit no_stat bad_size
        unauthentic undecodable bad_batch bad_filename not_removed :
      QueueError

pub data Queued {ℓ} (A : Type ℓ) : Type ℓ where
  ok : A → Queued A
  err : QueueError → Queued A

abbrev is_event_file : Text × File → Bool
is_event_file (name, file) = file.is_regular && has_suffix name queue_file_suffix

event_names : Directory → List Text
event_names [] = []
event_names (entry ∷ d) =
    let rest = event_names d in if is_event_file entry then entry.0 ∷ rest else rest

-- `queueFiles`, where the directory can be read.
unfoldable pub queue_files : Directory → List Text
unfolding event_names
queue_files d = sort_texts (event_names d)

-- `Len`
unfoldable pub len : Directory → ℕ
unfolding queue_files
len d = length (queue_files d)

abbrev pub names_of : List (Text × Event) → List Text
names_of [] = []
names_of ((name, _) ∷ batch) = name ∷ names_of batch

abbrev pub events_of : List (Text × Event) → List Event
events_of [] = []
events_of ((_, e) ∷ batch) = e ∷ events_of batch

-- The AEAD of the queue, and JSON. `seal` takes the nonce and the plaintext, `open` the nonce and the
-- sealed text; `open` and `decode` are `none` on an error.
pub record Codec : Type 0 where
  pub nonce_size : ℕ
  pub encode : Event → Option Text
  pub decode : Text → Option Event
  pub seal : Text → Text → Text
  pub open_sealed : Text → Text → Option Text

-- What the system gives an `Enqueue`: the nonce and the hexadecimal suffix, `none` where there is no
-- randomness; the time as twenty digits; and whether the file is created, and written to its end.
pub record EnqueueOutcome : Type 0 where
  pub nonce : Option Text
  pub stamp : Text
  pub suffix : Option Text
  pub created : Bool
  pub persisted : Bool

abbrev pub file_name : Text → Text → Text
file_name stamp suffix = stamp ++ codes "-" ++ suffix ++ queue_file_suffix

-- `O_EXCL` fails where the name is taken. A file that is not written to its end is removed again.
create_file : EnqueueOutcome → Text → Text → Directory → Queued (Unit {0}) × Directory
create_file o name payload d =
    if not o.created || is_some (lookup name d)
    then (err not_created, d)
    else if not o.persisted
    then (err not_written, d)
    else (ok tt, (name, record { is_regular = true; content = payload }) ∷ d)

named_file : EnqueueOutcome → Option Text → Text → Directory → Queued (Unit {0}) × Directory
unfolding create_file
named_file o none payload d = (err no_filename, d)
named_file o (some suffix) payload d = create_file o (file_name o.stamp suffix) payload d

module _ (codec : Codec) where
  sealed_file : EnqueueOutcome → Option Text → Text → Directory → Queued (Unit {0}) × Directory
  unfolding named_file
  sealed_file o none plaintext d = (err no_nonce, d)
  sealed_file o (some nonce) plaintext d =
      named_file o o.suffix (nonce ++ codec.seal nonce plaintext) d

  encoded_file : EnqueueOutcome → Option Text → Directory → Queued (Unit {0}) × Directory
  unfolding sealed_file
  encoded_file o none d = (err unencodable, d)
  encoded_file o (some plaintext) d = sealed_file o o.nonce plaintext d

  unfoldable pub enqueue : EnqueueOutcome → Event → Directory → Queued (Unit {0}) × Directory
  unfolding encoded_file len
  enqueue o event d =
      if leb max_queue_entries (len d)
      then (err queue_full, d)
      else encoded_file o (codec.encode event) d

  decoded : Option Text → Queued Event
  decoded none = err unauthentic
  decoded (some plaintext) = elim (codec.decode plaintext) [
    | none ↦ err undecodable
    | some e ↦ ok e
  ]

  -- One file: `os.Stat`, `os.ReadFile`, `Open`, `Unmarshal`. Under the lock nothing comes between the
  -- first two; a file that cannot be read is not there.
  pub read_event : Option File → Queued Event
  unfolding decoded
  read_event none = err no_stat
  read_event (some f) =
      if leb (length f.content) codec.nonce_size || ltb max_queue_file_size (length f.content)
      then err bad_size
      else decoded
          (codec.open_sealed (take codec.nonce_size f.content) (drop codec.nonce_size f.content))

  cons_event : Text → Queued Event → Queued (List (Text × Event)) → Queued (List (Text × Event))
  cons_event name (err x) rest = err x
  cons_event name (ok e) (err x) = err x
  cons_event name (ok e) (ok batch) = ok ((name, e) ∷ batch)

  -- The loop of `Peek`. A batch pairs each name with its event; in the source they are two slices of
  -- one length.
  read_all : Directory → List Text → Queued (List (Text × Event))
  unfolding read_event cons_event
  read_all d [] = ok []
  read_all d (name ∷ names) = cons_event name (read_event (lookup name d)) (read_all d names)

  batch_limit : ℤ → Option ℕ
  batch_limit (negsuc n) = none
  batch_limit (pos n) = if n == 0 || ltb 100 n then none else some n

  unfoldable pub peek : ℤ → Directory → Queued (List (Text × Event))
  unfolding read_all batch_limit queue_files
  peek limit d = elim (batch_limit limit) [
    | none ↦ err bad_limit
    | some n ↦ read_all d (take n (queue_files d))
  ]

-- `filepath.Base(name) == name` and the suffix.
valid_name : Text → Bool
valid_name name =
    not (text_eq name [])
    && not (contains_any name (b'/' ∷ []))
    && has_suffix name queue_file_suffix

-- `Ack`. `removable` says which files the system removes; a file that is gone already is no error.
module _ (removable : Text → Bool) where
  unfoldable pub ack : List Text → Directory → Queued (Unit {0}) × Directory
  unfolding valid_name
  ack [] d = (ok tt, d)
  ack (name ∷ names) d =
      let rest = ack names (erase name d) in
      if not (valid_name name)
      then (err bad_filename, d)
      else if is_some (lookup name d) && not (removable name)
      then (err not_removed, d)
      else rest
