-- ===== src/Store/Memory.antt =====
-- internal/store/memory.go: the repository in memory. Each method is a function on the state, which
-- the mutex makes one step.
pub mod Clone
pub mod Agents
pub mod Events
pub mod Policies
use my_safe.Prelude.{
  ℕ, zero, suc, ◌+◌, Bool, true, false, not, ◌&&◌, ◌||◌, Option, none, some, List, [], ◌∷◌, map,
  length, if◌then◌else◌,
}
use my_safe.Prelude.Int.{ℤ, pos, eq_ℤ, inc_int64}
use my_safe.Prelude.Text.{Text, text_eq, is_empty}
use my_safe.Prelude.Dict.{Dict, lookup, insert, values, is_some}
use my_safe.Domain.{Agent, Event, Heartbeat, AlertFilter, Policy, AuditLog}
use my_safe.Store.Contract.{Store, Stored, ok, err, not_found, conflict}
use my_safe.Store.Listing.{listing}
use my_safe.Store.Memory.Clone.{clone_map}

pub record Memory : Type 0 where
  pub agents : Dict Agent
  pub agent_by_machine : Dict Text
  pub events : Dict Event
  pub policies : Dict Policy
  pub audits : Dict AuditLog

-- `NewMemory`
abbrev pub new_memory : Memory
new_memory = record { agents = []; agent_by_machine = []; events = []; policies = []; audits = [] }

found_or_missing {ℓ} : {A : Type ℓ} → Option A → Stored A
found_or_missing none = err not_found
found_or_missing (some a) = ok a

unfoldable pub policy_for_agent : Text → Memory → Stored Policy
unfolding found_or_missing
policy_for_agent agent_id m = found_or_missing (lookup agent_id m.policies)

-- The test on the revisions: `expected` is what the writer read, 0 if there was no policy.
revision_conflict : Option Policy → Policy → ℤ → Bool
revision_conflict none policy expected =
    not (eq_ℤ expected (pos 0)) || not (eq_ℤ policy.revision (inc_int64 expected))
revision_conflict (some current) policy expected =
    not (eq_ℤ current.revision expected) || not (eq_ℤ policy.revision (inc_int64 expected))

unfoldable pub save_policy_and_audit : Policy → ℤ → AuditLog → Memory → Stored (Unit {0}) × Memory
unfolding revision_conflict
save_policy_and_audit policy expected audit m =
    if revision_conflict (lookup policy.agent_id m.policies) policy expected
    then (err conflict, m)
    else if is_some (lookup audit.id m.audits)
    then (err conflict, m)
    else (
      ok tt,
      record m {
        policies = insert policy.agent_id policy m.policies;
        audits = insert audit.id (record audit { details = clone_map audit.details }) m.audits;
      },
    )

abbrev clone_audit : AuditLog → AuditLog
clone_audit a = record a { details = clone_map a.details }

unfoldable pub list_audit_logs : ℤ → Memory → Stored (List AuditLog)
list_audit_logs limit m =
    ok (listing (λ (a : AuditLog). a.occurred_at) limit (map clone_audit (values m.audits)))

unfoldable pub create_agent : Agent → Memory → Stored (Unit {0}) × Memory
create_agent agent m =
    if is_some (lookup agent.id m.agents)
    then (err conflict, m)
    else if is_some (lookup agent.machine_id m.agent_by_machine)
    then (err conflict, m)
    else (
      ok tt,
      record m {
        agents = insert agent.id agent m.agents;
        agent_by_machine = insert agent.machine_id agent.id m.agent_by_machine;
      },
    )

unfoldable pub agent_by_id : Text → Memory → Stored Agent
unfolding found_or_missing
agent_by_id id m = found_or_missing (lookup id m.agents)

-- The zero value of the struct, which a read of a missing key gives.
abbrev zero_agent : Agent
zero_agent = record {
  id = [];
  machine_id = [];
  hostname = [];
  version = [];
  platform = [];
  architecture = [];
  credential_hash = [];
  registered_at = 0;
  last_seen_at = 0;
}

abbrev agent_or_zero : Option Agent → Agent
agent_or_zero none = zero_agent
agent_or_zero (some a) = a

unfoldable pub agent_by_machine_id : Text → Memory → Stored Agent
agent_by_machine_id machine_id m = elim (lookup machine_id m.agent_by_machine) [
  | none ↦ err not_found
  | some id ↦ ok (agent_or_zero (lookup id m.agents))
]

abbrev seen_now : Heartbeat → Agent → Agent
seen_now h a = record a {
  version = if is_empty h.agent_version then a.version else h.agent_version;
  last_seen_at = h.sent_at;
}

unfoldable pub update_heartbeat : Text → Heartbeat → Memory → Stored (Unit {0}) × Memory
update_heartbeat id heartbeat m = elim (lookup id m.agents) [
  | none ↦ (err not_found, m)
  | some a ↦ (ok tt, record m { agents = insert id (seen_now heartbeat a) m.agents })
]

abbrev pub without_credential : Agent → Agent
without_credential a = record a { credential_hash = [] }

unfoldable pub list_agents : ℤ → Memory → Stored (List Agent)
list_agents limit m =
    ok (listing (λ (a : Agent). a.registered_at) limit (map without_credential (values m.agents)))

abbrev clone_event : Event → Event
clone_event e = record e { evidence = clone_map e.evidence }

-- The loop of `SaveEvents`; `inserted` counts the events that are new.
save_events_from : ℕ → List Event → Dict Event → ℕ × Dict Event
save_events_from inserted [] stored = (inserted, stored)
save_events_from inserted (e ∷ es) stored = elim (lookup e.id stored) [
  | some _ ↦ save_events_from inserted es stored
  | none ↦ save_events_from (inserted + 1) es (insert e.id (clone_event e) stored)
]

unfoldable pub save_events : List Event → Memory → Stored ℕ × Memory
unfolding save_events_from
save_events es m =
    let (inserted, stored) = save_events_from 0 es m.events in
    (ok inserted, record m { events = stored })

-- The loop of `ListAlerts`: an empty severity lets all events through.
alerts_of : Text → List Event → List Event
alerts_of severity [] = []
alerts_of severity (e ∷ es) =
    let rest = alerts_of severity es in
    if not (is_empty severity) && not (text_eq e.severity severity)
    then rest
    else clone_event e ∷ rest

unfoldable pub list_alerts : AlertFilter → Memory → Stored (List Event)
unfolding alerts_of
list_alerts filter m = ok (
    listing (λ (e : Event). e.received_at) filter.limit
      (alerts_of filter.severity (values m.events)))

-- The implementation behind the interface.
abbrev pub memory_store : Store
memory_store = record {
  State = Memory;
  create_agent = create_agent;
  agent_by_id = agent_by_id;
  agent_by_machine_id = agent_by_machine_id;
  update_heartbeat = update_heartbeat;
  list_agents = list_agents;
  save_events = save_events;
  list_alerts = list_alerts;
  policy_for_agent = policy_for_agent;
  save_policy_and_audit = save_policy_and_audit;
  list_audit_logs = list_audit_logs;
}
