-- ===== src/Control/Events/Ingestion.antt =====
-- What an event batch leaves in the repository in memory.

use my_safe.Prelude.{
  ℕ, ◌+◌, ◌-◌, ◌≤◌, ◌≡◌, refl, sym, ◌∙◌, ◌||◌, ◌⊎◌, inl, inr, Option, none, some, List, [], ◌∷◌,
  arith, length, All, ltb, ◌==◌, Bool-cases, Option-cases,
}
use my_safe.Prelude.Text.{Text}
use my_safe.Prelude.Dict.{lookup}
use my_safe.Domain.{Time, Event}
use my_safe.Domain.Json.{Fields}
use my_safe.Domain.Validate.{EventError, validate_event}
use my_safe.Security.Redact.Laws.{HidesAll, redact_map-HidesAll}
use my_safe.Store.Contract.{Stored, ok, err}
use my_safe.Store.Memory.{Memory, memory_store, save_events, agent_by_id}
use my_safe.Store.Memory.Events.{save_events-adds, save_events-only}
use my_safe.Control.{
  Config, Request, Response, problem, registered, heartbeat_accepted, events_accepted,
  agents_listed, alerts_listed, policy_found, audit_logs_listed,
}
use my_safe.Control.Auth.{authorize_agent}
use my_safe.Control.Events.{
  Prepared, ready, invalid, own, prepare_from, cons_ready, saved, save_prepared, ingest_events,
  max_event_batch,
}

module _ (marshal : Option Fields → Option Text) where
  -- What an event has become before it is stored.
  pub record IsIngested (agent_id : Text) (now : Time) (e : Event) : Type 0 where
    pub owned : e.agent_id ≡ agent_id
    pub received : e.received_at ≡ now
    pub hides : HidesAll e.evidence
    pub valid : validate_event marshal e now ≡ none

  ready_inj : (es fs : List Event) → ready es ≡ ready fs → es ≡ fs
  ready_inj es fs h = cc

  cons_ready-ready :
      (e : Event) (p : Prepared) (es : List Event)
      → cons_ready marshal e p ≡ ready es
      → (rest : List Event) × (p ≡ ready rest) × (es ≡ e ∷ rest)
  unfolding cons_ready
  cons_ready-ready e (ready rest) es h = (rest, refl, cc)
  cons_ready-ready e (invalid i x) es h = absurd (cc h)

  module _ (n : ℕ) (agent_id : Text) (now : Time) (e : Event) (es : List Event) where
    prepare_valid :
        validate_event marshal (own marshal agent_id now e) now ≡ none
        → prepare_from marshal n agent_id now (e ∷ es)
          ≡ cons_ready marshal
              (own marshal agent_id now e)
              (prepare_from marshal (n + 1) agent_id now es)
    unfolding prepare_from
    prepare_valid h = rw (h, prepare_from) refl

    prepare_invalid :
        (x : EventError)
        → validate_event marshal (own marshal agent_id now e) now ≡ some x
        → prepare_from marshal n agent_id now (e ∷ es) ≡ invalid n x
    unfolding prepare_from
    prepare_invalid x h = rw (h, prepare_from) refl

  prepare_from-ready :
      (n : ℕ) (agent_id : Text) (now : Time) (es out : List Event)
      → prepare_from marshal n agent_id now es ≡ ready out
      → All (IsIngested agent_id now) out × (length out ≡ length es)
  unfolding prepare_from
  prepare_from-ready n agent_id now [] out h = let e : out ≡ [] = cc in rw e (tt, refl)
  prepare_from-ready n agent_id now (e ∷ es) out h =
      elim (Option-cases (validate_event marshal (own marshal agent_id now e) now)) [
        | inr (x, bad) ↦ absurd (cc (h, prepare_invalid n agent_id now e es x bad))
        | inl valid ↦
            let (rest, prepared, split) =
              cons_ready-ready (own marshal agent_id now e)
                (prepare_from marshal (n + 1) agent_id now es) out
                (sym (prepare_valid n agent_id now e es valid) ∙ h) in
            let (all, same) = prepare_from-ready (n + 1) agent_id now es rest prepared in
            rw split (
              (
                record {
                  owned = refl;
                  received = refl;
                  hides = redact_map-HidesAll e.evidence;
                  valid = valid;
                },
                all,
              ),
              omega arith,
            )
      ]

  -- After the call, from the state `s`: the count of the answer is that of the batch, nothing stored
  -- is lost or changed, and all that is new is ingested from this Agent; or the state is the same.
  abbrev pub Ingested : Text → Time → ℕ → Memory → Response × Memory → Type 0
  Ingested agent_id now total s (events_accepted fresh duplicates, s') =
      (fresh + duplicates ≡ total)
      × (length s'.events ≡ length s.events + fresh)
      × ((id : Text) (e : Event) → lookup id s.events ≡ some e → lookup id s'.events ≡ some e)
      × ((id : Text) (e : Event)
          → lookup id s'.events ≡ some e
          → (lookup id s.events ≡ some e) ⊎ (IsIngested agent_id now e × (e.id ≡ id)))
  Ingested agent_id now total s (problem code d, s') = s' ≡ s
  Ingested agent_id now total s (registered code a, s') = ⊥
  Ingested agent_id now total s (heartbeat_accepted, s') = ⊥
  Ingested agent_id now total s (agents_listed l, s') = ⊥
  Ingested agent_id now total s (alerts_listed l, s') = ⊥
  Ingested agent_id now total s (policy_found p, s') = ⊥
  Ingested agent_id now total s (audit_logs_listed l, s') = ⊥

  module _ (sha256 : Text → Text) (c : Config) where
    saved-Ingested :
        (agent_id : Text) (now : Time) (total k : ℕ) (s : Memory) (x : Stored ℕ × Memory)
        → x.0 ≡ ok k
        → k ≤ total
        → Ingested agent_id now total s (events_accepted k (total - k), x.1)
        → Ingested agent_id now total s (saved marshal sha256 memory_store c total x)
    unfolding saved
    saved-Ingested agent_id now total k s (ok j, s') h fits all =
        let same : j ≡ k = cc in rw same all
    saved-Ingested agent_id now total k s (err e, s') h fits all = absurd (cc h)

    prepared-Ingested :
        (agent_id : Text) (now : Time) (total : ℕ) (p : Prepared) (s : Memory)
        → ((out : List Event)
            → p ≡ ready out
            → All (IsIngested agent_id now) out × (length out ≡ total))
        → Ingested agent_id now total s (save_prepared marshal sha256 memory_store c total p s)
    unfolding save_prepared
    prepared-Ingested agent_id now total (invalid i x) s h = refl
    prepared-Ingested agent_id now total (ready out) s h =
        let (all, same) = h out refl in
        let (k, counted, grown, bounded, kept, _) = save_events-adds out s in
        saved-Ingested agent_id now total k s (save_events out s) counted (omega arith) (
          omega arith,
          grown,
          kept,
          λ id e found. save_events-only (IsIngested agent_id now) out s all id e found,
        )

    -- A batch is taken whole or not at all. When it is accepted, the two counts of the answer add up
    -- to its size and the first is the number of new events; what was stored stays as it was; and
    -- every new event carries the Agent's identifier and the time of receipt, hides its secrets and is
    -- valid. On any problem the store is unchanged.
    pub ingest_events-Ingested :
        (r : Request) (agent_id : Text) (events : List Event) (now : Time) (s : Memory)
        → Ingested agent_id now
            (length events)
            s
            (ingest_events marshal sha256 memory_store c r agent_id (some events) now s)
    unfolding ingest_events
    ingest_events-Ingested r agent_id events now s =
        elim (Bool-cases (authorize_agent sha256 c (λ id. agent_by_id id s) r agent_id)) [
          | inr n ↦ rw n refl
          | inl y ↦ elim (Bool-cases (length events == 0 || ltb max_event_batch (length events))) [
            | inl bad ↦ rw (y, bad) refl
            | inr fits ↦
                rw (y, fits)
                  (prepared-Ingested agent_id now (length events)
                    (prepare_from marshal 0 agent_id now events) s
                    (λ out prepared. prepare_from-ready 0 agent_id now events out prepared))
          ]
        ]
