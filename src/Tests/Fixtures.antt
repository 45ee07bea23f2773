-- ===== src/Tests/Fixtures.antt =====
-- An Agent, an event, a policy and requests for the tests.
use my_safe.Prelude.{ℕ, zero, suc, true, false, Option, none, some, [], ◌∷◌}
use my_safe.Prelude.Int.{pos}
use my_safe.Prelude.Text.{Text, codes}
use my_safe.Domain.{Agent, Event, Policy, AuditLog, severity_high}
use my_safe.Domain.Json.{Fields, str, end, field}
use my_safe.Store.Memory.{Memory, new_memory}
use my_safe.Control.{Config, Request}

-- A hash of 32 bytes.
abbrev pub bytes : ℕ → Text
bytes zero = []
bytes (suc n) = 7 ∷ bytes n

abbrev pub hash : Text → Text
hash t = bytes 32

abbrev pub marshal : Option Fields → Option Text
marshal m = some (codes "{}")

abbrev pub web_agent : Agent
web_agent = record {
  id = codes "agt_1";
  machine_id = codes "m1";
  hostname = codes "web";
  version = codes "1.0";
  platform = codes "linux";
  architecture = codes "amd64";
  credential_hash = bytes 32;
  registered_at = 5;
  last_seen_at = 5;
}

abbrev pub login : Event
login = record {
  id = codes "e1";
  agent_id = codes "x";
  kind = codes "ssh";
  severity = severity_high;
  summary = codes "brute force";
  occurred_at = 5;
  received_at = 0;
  evidence = some (field (codes "Api-Token") (str (codes "s3cret")) end);
}

abbrev pub first_policy : Policy
first_policy = record {
  id = codes "pol_1";
  agent_id = codes "agt_1";
  revision = pos 1;
  file_integrity_enabled = true;
  file_watch_paths = codes "/etc" ∷ codes "/usr/bin" ∷ [];
  ssh_auth_enabled = true;
  ssh_threshold = pos 5;
  ssh_window_seconds = pos 600;
  runtime_watch_enabled = true;
  updated_at = 9;
}

abbrev pub log_of : Text → AuditLog
log_of id = record {
  id = id;
  actor = codes "admin_token";
  action = codes "agent.policy.updated";
  resource = codes "agent/agt_1/policy";
  occurred_at = 9;
  details = none;
}

-- One Agent, and nothing else.
abbrev pub one_agent : Memory
one_agent = record new_memory {
  agents = (codes "agt_1", web_agent) ∷ [];
  agent_by_machine = (codes "m1", codes "agt_1") ∷ [];
}

abbrev pub config : Config
config = record {
  bootstrap_token = codes "bootstrap-token-1";
  admin_token = codes "admin-token-12345";
  max_body_bytes = pos 1048576;
  issuer = none;
  require_agent_mtls = false;
}

abbrev pub bearer : Text → Request
bearer header = record { authorization = header; tls = none }
