-- ===== src/Tests/ControlTests.antt =====
-- The handlers of the control plane at concrete inputs.
use my_safe.Prelude.{◌≡◌, refl, true, none, some, [], ◌∷◌}
use my_safe.Prelude.Text.{codes, text_eq, blank, cut_byte, trim_space, to_lower, contains_any}
use my_safe.Prelude.Dict.{lookup, insert}
use my_safe.Domain.Validate.{validate_registration}
use my_safe.Prelude.Int.{pos}
use my_safe.Store.Memory.{Memory, memory_store, agent_by_id, agent_by_machine_id, create_agent}
use my_safe.Control.{RegistrationResponse, registered}
use my_safe.Control.Auth.{
  HoldsCredential, HoldsCertificate, authorize_agent, authorize_agent_sound, authorize_token,
  bearer_token,
}
use my_safe.Control.Agents.{RegistrationRequest, register_agent}
use my_safe.Control.Agents.Enrolment.{register_agent-Outcome, authorize_agent-register_agent}
use my_safe.Control.Agents.Enrolment
use my_safe.Control.Events.{ingest_events}
use my_safe.Control.Events.Ingestion.{Ingested, ingest_events-Ingested}
use my_safe.Control.Policies.{PolicyRequest, put_agent_policy}
use my_safe.Control.Policies.Updates
use my_safe.Control.Policies.Updates.{put_agent_policy-Outcome}
use my_safe.Control.Queries.{list_agents, list_audit_logs}
use my_safe.Control.Queries.Exposure.{IsDiscreet, listings-IsDiscreet}
use my_safe.Tests.Fixtures.{hash, marshal, login, one_agent, config, bearer}

let_in :
    authorize_agent hash config
      (λ id. agent_by_id id one_agent)
      (bearer (codes "Bearer msc_k"))
      (codes "agt_1")
    ≡ true
unfolding authorize_agent blank bearer_token cut_byte trim_space text_eq to_lower contains_any
    agent_by_id lookup
let_in = refl

borne : bearer_token (bearer (codes "Bearer msc_k")) ≡ some (codes "msc_k")
unfolding bearer_token cut_byte trim_space text_eq to_lower contains_any
borne = refl

authorize_agent_sound_example :
    HoldsCredential hash (agent_by_id (codes "agt_1") one_agent) (bearer (codes "Bearer msc_k"))
    × (config.require_agent_mtls ≡ true → HoldsCertificate none (codes "agt_1"))
authorize_agent_sound_example =
    authorize_agent_sound hash config (λ id. agent_by_id id one_agent)
      (bearer (codes "Bearer msc_k")) (codes "agt_1") let_in

web_request : RegistrationRequest
web_request = record {
  machine_id = codes "m2";
  hostname = codes "web";
  version = codes "1.0";
  platform = codes "linux";
  architecture = codes "amd64";
  client_csr = [];
}

register_agent-Outcome_example : Enrolment.Outcome hash one_agent (
    register_agent hash memory_store config
      (bearer (codes "Bearer bootstrap-token-1"))
      (some web_request)
      (some (codes "2"))
      (some (codes "k"))
      7
      one_agent)
register_agent-Outcome_example =
    register_agent-Outcome hash config (bearer (codes "Bearer bootstrap-token-1"))
      (some web_request) (some (codes "2")) (some (codes "k")) 7 one_agent

ingest_events-Ingested_example : Ingested marshal (codes "agt_1") 7 1 one_agent (
    ingest_events marshal hash memory_store config
      (bearer (codes "Bearer msc_k"))
      (codes "agt_1")
      (some (login ∷ []))
      7
      one_agent)
ingest_events-Ingested_example =
    ingest_events-Ingested marshal hash config (bearer (codes "Bearer msc_k")) (codes "agt_1")
      (login ∷ []) 7 one_agent

answer : RegistrationResponse
answer = record {
  agent_id = codes "agt_2";
  credential = codes "msc_k";
  client_certificate = [];
  client_ca_certificate = [];
}

-- The state after the registration.
after : Memory
unfolding web_request
after =
    (register_agent hash memory_store config (bearer (codes "Bearer bootstrap-token-1"))
      (some web_request) (some (codes "2")) (some (codes "k")) 7 one_agent).1

enrolled :
    register_agent hash memory_store config
      (bearer (codes "Bearer bootstrap-token-1"))
      (some web_request)
      (some (codes "2"))
      (some (codes "k"))
      7
      one_agent
    ≡ (registered 201 answer, after)
unfolding register_agent after answer web_request authorize_token bearer_token cut_byte trim_space
    text_eq to_lower contains_any validate_registration blank agent_by_machine_id lookup
    create_agent insert
enrolled = refl

answer_borne : bearer_token (bearer (codes "Bearer msc_k")) ≡ some answer.credential
unfolding bearer_token answer cut_byte trim_space text_eq to_lower contains_any
answer_borne = refl

authorize_agent-register_agent_example :
    authorize_agent hash config
      (λ id. agent_by_id id after)
      (bearer (codes "Bearer msc_k"))
      answer.agent_id
    ≡ true
authorize_agent-register_agent_example =
    authorize_agent-register_agent hash config (λ t. refl)
      (bearer (codes "Bearer bootstrap-token-1")) (some web_request) (some (codes "2"))
      (some (codes "k")) 7 one_agent after 201 answer (bearer (codes "Bearer msc_k")) enrolled
      answer_borne refl

update : PolicyRequest
update = record {
  expected_revision = pos 0;
  file_integrity_enabled = some true;
  file_watch_paths = some (codes "/usr" ∷ codes "/etc" ∷ []);
  ssh_auth_enabled = some true;
  ssh_threshold = pos 5;
  ssh_window_seconds = pos 600;
  runtime_watch_enabled = some true;
}

put_agent_policy-Outcome_example : Updates.Outcome (some update) (codes "agt_1") one_agent (
    put_agent_policy hash memory_store config
      (bearer (codes "Bearer admin-token-12345"))
      (codes "agt_1")
      (some update)
      (some (codes "1"))
      (some (codes "1"))
      9
      one_agent)
put_agent_policy-Outcome_example =
    put_agent_policy-Outcome hash config (bearer (codes "Bearer admin-token-12345")) (codes "agt_1")
      (some update) (some (codes "1")) (some (codes "1")) 9 one_agent

listings-IsDiscreet_example :
    IsDiscreet (
      list_agents hash memory_store config
        (bearer (codes "Bearer admin-token-12345"))
        (codes "5")
        one_agent)
    × IsDiscreet (
        list_audit_logs hash memory_store config
          (bearer (codes "Bearer admin-token-12345"))
          (codes "5")
          one_agent)
listings-IsDiscreet_example =
    listings-IsDiscreet hash config (bearer (codes "Bearer admin-token-12345")) (codes "5")
      one_agent
