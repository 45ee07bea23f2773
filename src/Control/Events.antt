-- ===== src/Control/Events.antt =====
-- `ingestEvents` of internal/control/server.go. `marshal` is `json.Marshal` of a map.
pub mod Ingestion
use my_safe.Prelude.{
  ℕ, ◌+◌, ◌-◌, Bool, true, false, not, ◌||◌, Option, none, some, List, [], ◌∷◌, length, ltb, ◌==◌,
  if◌then◌else◌,
}
use my_safe.Prelude.Text.{Text, codes}
use my_safe.Domain.{Time, Event}
use my_safe.Domain.Json.{Fields}
use my_safe.Domain.Validate.{EventError, validate_event}
use my_safe.Security.Redact.{redact_map}
use my_safe.Store.Contract.{Store, Stored, ok, err}
use my_safe.Control.{Config, Request, Response, problem, events_accepted, message, event_detail}
use my_safe.Control.Auth.{authorize_agent}
use my_safe.Control.Agents.{unauthorized, invalid_json, internal_error}

abbrev pub max_event_batch : ℕ
max_event_batch = 100

pub data Prepared : Type 0 where
  ready : List Event → Prepared
  invalid : ℕ → EventError → Prepared

module _ (marshal : Option Fields → Option Text) where
  -- The fields that the server sets, whatever the Agent sent.
  abbrev pub own : Text → Time → Event → Event
  own agent_id now e = record e {
    agent_id = agent_id;
    received_at = now;
    evidence = redact_map e.evidence;
  }

  cons_ready : Event → Prepared → Prepared
  cons_ready e (ready es) = ready (e ∷ es)
  cons_ready e (invalid i x) = invalid i x

  -- The loop: the first invalid event ends it, with its index.
  unfoldable pub prepare_from : ℕ → Text → Time → List Event → Prepared
  unfolding cons_ready
  prepare_from index agent_id now [] = ready []
  prepare_from index agent_id now (e ∷ es) =
      let rest = prepare_from (index + 1) agent_id now es in
      elim (validate_event marshal (own agent_id now e) now) [
        | some x ↦ invalid index x
        | none ↦ cons_ready (own agent_id now e) rest
      ]

  module _ (sha256 : Text → Text) (st : Store) (c : Config) where
    saved : ℕ → Stored ℕ × st.State → Response × st.State
    saved total (ok inserted, s) = (events_accepted inserted (total - inserted), s)
    saved total (err _, s) = (internal_error, s)

    save_prepared : ℕ → Prepared → st.State → Response × st.State
    unfolding saved
    save_prepared total (invalid i x) s = (problem 400 (event_detail i x), s)
    save_prepared total (ready es) s = saved total (st.save_events es s)

    unfoldable pub ingest_events :
        Request → Text → Option (List Event) → Time → st.State → Response × st.State
    unfolding save_prepared
    ingest_events r agent_id body now s =
        if not (authorize_agent sha256 c (λ id. st.agent_by_id id s) r agent_id)
        then (unauthorized, s)
        else elim body [
          | none ↦ (invalid_json, s)
          | some events ↦
              if length events == 0 || ltb max_event_batch (length events)
              then (
                problem 400 (message (codes "events must contain between 1 and 100 entries")),
                s,
              )
              else save_prepared (length events) (prepare_from 0 agent_id now events) s
        ]
