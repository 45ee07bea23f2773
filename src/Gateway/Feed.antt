-- ===== src/Gateway/Feed.antt =====
-- `Validate` and `Decode` of internal/localfeed/localfeed.go. The strict decoding of JSON and the encoding of
-- evidence are parameters.
use my_safe.Prelude.{ℕ, ◌*◌, ◌==◌, not, ◌||◌, Option, none, some, length, ltb, if◌then◌else◌}
use my_safe.Prelude.Text.{Text, codes, is_empty, has_prefix}
use my_safe.Domain.{Time, Event}
use my_safe.Domain.Json.{Fields}
use my_safe.Domain.Validate.{EventError, validate_event}

pub data FeedError : Type 0 where
  server_owned wrong_kind bad_size undecodable : FeedError
  invalid : EventError → FeedError

abbrev pub max_datagram_bytes : ℕ
max_datagram_bytes = 64 * 1024

event_error : Option EventError → Option FeedError
event_error none = none
event_error (some e) = some (invalid e)

pub data Decoded : Type 0 where
  refused : FeedError → Decoded
  event : Event → Decoded

module _ (marshal : Option Fields → Option Text) where
  -- `Validate`
  unfoldable pub validate_local : Event → Time → Option FeedError
  unfolding event_error has_prefix validate_event
  validate_local e now =
      if not (is_empty e.agent_id) || not (e.received_at == 0)
      then some server_owned
      else if not (has_prefix e.kind (codes "gateway."))
      then some wrong_kind
      else event_error (validate_event marshal e now)

  unfoldable pub checked_event : Event → Option FeedError → Decoded
  checked_event e none = event e
  checked_event e (some x) = refused x

  -- `Decode`
  unfoldable pub decode_local : (Text → Option Event) → Text → Time → Decoded
  unfolding checked_event validate_local
  decode_local decode encoded now =
      if is_empty encoded || ltb max_datagram_bytes (length encoded)
      then refused bad_size
      else elim (decode encoded) [
        | none ↦ refused undecodable
        | some e ↦ checked_event e (validate_local e now)
      ]
