-- ===== src/Gateway/Outbox.antt =====
-- internal/gatewayevents/outbox.go: events that could not be sent wait in files, and are sent in the order of their
-- names. What the operating system and the socket answer is in the outcomes.
pub mod Delivery
use my_safe.Prelude.{
  ℕ, zero, suc, ◌+◌, Bool, true, false, not, ◌||◌, ◌&&◌, Option, none, some, List, [], ◌∷◌, ◌++◌,
  length, take, ltb, leb, ◌==◌, if◌then◌else◌,
}
use my_safe.Prelude.Text.{Text, codes, is_empty, has_suffix}
use my_safe.Prelude.Text.Sort.{sort_texts}
use my_safe.Prelude.Dict.{lookup, insert, erase, is_some}
use my_safe.Domain.{Time, Event}
use my_safe.Domain.Json.{Fields}
use my_safe.Agent.Queue.{File, Directory}
use my_safe.Gateway.Feed.{
  FeedError, max_datagram_bytes, Decoded, refused, event, validate_local, decode_local,
}

pub data OutboxError : Type 0 where
  bad_limit cancelled not_found unsafe_file unencodable too_large outbox_full no_randomness
        not_created not_written not_removed :
      OutboxError
  rejected : FeedError → OutboxError

abbrev pub outbox_suffix : Text
outbox_suffix = codes ".gateway-event"

unfoldable pub outbox_names : Directory → List Text
unfolding has_suffix
outbox_names [] = []
outbox_names ((name, file) ∷ d) =
    let rest = outbox_names d in
    if file.is_regular && has_suffix name outbox_suffix then name ∷ rest else rest

-- `outboxFiles`, where the directory can be read.
unfoldable pub outbox_files : Directory → List Text
unfolding outbox_names sort_texts
outbox_files d = sort_texts (outbox_names d)

-- What the system gives to the writing of a file: twenty digits of time, the random bytes in hexadecimal, whether
-- the file is created, and written to its end.
pub record PersistOutcome : Type 0 where
  pub stamp : Text
  pub random : Option Text
  pub created : Bool
  pub written : Bool

-- JSON of events and of evidence; `decode` is strict and takes one value.
pub record Json : Type 0 where
  pub encode : Event → Option Text
  pub decode : Text → Option Event
  pub marshal : Option Fields → Option Text

abbrev pub event_file : Text → Text → Text
event_file stamp random = stamp ++ codes "-" ++ random ++ outbox_suffix

module _ (json : Json) (max_events : ℕ) (now : Time) where
  unfoldable pub write_event :
      PersistOutcome → Option Text → Text → Directory → Option OutboxError × Directory
  write_event o none encoded d = (some no_randomness, d)
  write_event o (some random) encoded d =
      let name = event_file o.stamp random in
      if not o.created || is_some (lookup name d)
      then (some not_created, d)
      else if not o.written
      then (some not_written, d)
      else (none, insert name (record { is_regular = true; content = encoded }) d)

  unfoldable pub persist_encoded :
      PersistOutcome → Option Text → Directory → Option OutboxError × Directory
  unfolding write_event outbox_files
  persist_encoded o none d = (some unencodable, d)
  persist_encoded o (some encoded) d =
      if is_empty encoded || ltb max_datagram_bytes (length encoded)
      then (some too_large, d)
      else if leb max_events (length (outbox_files d))
      then (some outbox_full, d)
      else write_event o o.random encoded d

  -- `persist`
  unfoldable pub persist_event : PersistOutcome → Event → Directory → Option OutboxError × Directory
  unfolding persist_encoded
  persist_event o e d = persist_encoded o (json.encode e) d

  -- `Emit`: the error, the directory, and what was sent; `sends` is whether the socket takes the event.
  unfoldable pub emit :
      Bool → PersistOutcome → Event → Directory → Option OutboxError × Directory × List Event
  unfolding persist_event validate_local
  emit sends o e d =
      let (error, d') = persist_event o e d in
      elim (validate_local json.marshal e now) [
        | some x ↦ (some (rejected x), d, [])
        | none ↦ if sends then (none, d, e ∷ []) else (error, d', [])
      ]

  -- What comes out of a flush: how many, an error, what is left, and what was sent.
  pub record OutboxFlushed : Type 0 where
    pub flushed : ℕ
    pub error : Option OutboxError
    pub left : Directory
    pub sent : List Event

  -- One file: `Lstat`, its type and size, and what it decodes to.
  unfoldable pub read_file : Option File → Option OutboxError × Option Event
  unfolding decode_local
  read_file none = (some not_found, none)
  read_file (some f) =
      if not f.is_regular || is_empty f.content || ltb max_datagram_bytes (length f.content)
      then (some unsafe_file, none)
      else elim (decode_local json.marshal json.decode f.content now) [
        | refused x ↦ (some (rejected x), none)
        | event e ↦ (none, some e)
      ]

  -- Whether the context still stands before the n-th file, the socket takes its event, and a file can be removed.
  module _ (alive accepts : ℕ → Bool) (removable : Text → Bool) where
    unfoldable pub flush_files : ℕ → List Event → List Text → Directory → OutboxFlushed
    unfolding read_file erase lookup
    flush_files n sent [] d = record { flushed = n; error = none; left = d; sent = sent }
    flush_files n sent (name ∷ names) d =
        let stopped : Option OutboxError → List Event → OutboxFlushed =
          λ error events. record { flushed = n; error = error; left = d; sent = events } in
        let (error, found) = read_file (lookup name d) in
        if not (alive n) then stopped (some cancelled) sent else elim found [
          | none ↦ stopped error sent
          | some e ↦
              let rest = flush_files (n + 1) (sent ++ e ∷ []) names (erase name d) in
              if not (accepts n)
              then stopped none sent
              else if not (removable name)
              then stopped (some not_removed) (sent ++ e ∷ [])
              else rest
        ]

    -- `Flush`
    unfoldable pub flush_outbox : ℕ → Directory → OutboxFlushed
    unfolding flush_files outbox_files
    flush_outbox limit d =
        if limit == 0 || ltb 1000 limit
        then record { flushed = 0; error = some bad_limit; left = d; sent = [] }
        else flush_files 0 [] (take limit (outbox_files d)) d
