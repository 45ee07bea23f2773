-- ===== src/Control/Agents.antt =====
-- `registerAgent`, `renewAgentCertificate` and `heartbeat` of internal/control/server.go. A body is
-- what `decodeJSON` made of it, `none` where it failed; `drawn` values are the random texts of
-- `id.Random`, `none` where the system gave none.
pub mod Enrolment
use my_safe.Prelude.{
  ℕ, ◌*◌, Bool, true, false, not, ◌||◌, Option, none, some, List, [], ◌∷◌, ◌++◌, length, ltb,
  if◌then◌else◌,
}
use my_safe.Prelude.Int.{ℤ, pos, ltb_ℤ}
use my_safe.Prelude.Text.{Text, codes, blank, is_empty}
use my_safe.Domain.{Time, Agent, Heartbeat}
use my_safe.Domain.Validate.{validate_registration}
use my_safe.Store.Contract.{Store, Stored, StoreError, ok, err, not_found, conflict, failure}
use my_safe.Control.{
  Issuer, Config, Request, Response, RegistrationResponse, Detail, problem, registered,
  heartbeat_accepted, message, registration_detail,
}
use my_safe.Control.Auth.{authorize_token, authorize_agent}

pub record RegistrationRequest : Type 0 where
  pub machine_id : Text
  pub hostname : Text
  pub version : Text
  pub platform : Text
  pub architecture : Text
  pub client_csr : Text

pub record HeartbeatRequest : Type 0 where
  pub agent_version : Text
  pub queue_depth : ℤ

abbrev pub unauthorized : Response
unauthorized = problem 401 (message (codes "unauthorized"))

abbrev pub invalid_json : Response
invalid_json = problem 400 (message (codes "invalid JSON request"))

abbrev pub internal_error : Response
internal_error = problem 500 (message (codes "internal server error"))

abbrev pub already_registered : Response
already_registered = problem 409 (message (codes "machine is already registered"))

abbrev pub csr_required : Response
csr_required = problem 400 (message (codes "a bounded Agent client CSR is required"))

abbrev pub csr_invalid : Response
csr_invalid = problem 400 (message (codes "invalid Agent client CSR"))

-- `id.Random`: the prefix before the random text.
abbrev pub random_id : Text → Option Text → Option Text
random_id prefix none = none
random_id prefix (some drawn) = some (prefix ++ drawn)

csr_unbounded : Text → Bool
csr_unbounded csr = blank csr || ltb (32 * 1024) (length csr)

-- The certificate of a new Agent, `some []` where the server issues none; else the refusal.
certificate_for : Option Issuer → Text → Text → Text → Time → Response × Option Text
unfolding csr_unbounded
certificate_for none csr agent_id machine_id now = (csr_invalid, some [])
certificate_for (some i) csr agent_id machine_id now =
    if csr_unbounded csr
    then (csr_required, none)
    else (csr_invalid, i.issue csr agent_id machine_id now)

abbrev ca_of : Option Issuer → Text → Text
ca_of none certificate = []
ca_of (some i) certificate = if is_empty certificate then [] else i.ca_pem

module _ (sha256 : Text → Text) (st : Store) (c : Config) where
  -- The Agent that a registration stores.
  abbrev pub new_agent : RegistrationRequest → Text → Text → Time → Agent
  new_agent input agent_id credential now = record {
    id = agent_id;
    machine_id = input.machine_id;
    hostname = input.hostname;
    version = input.version;
    platform = input.platform;
    architecture = input.architecture;
    credential_hash = sha256 credential;
    registered_at = now;
    last_seen_at = now;
  }

  created : Text → Text → Text → Stored (Unit {0}) × st.State → Response × st.State
  created agent_id credential certificate (ok _, s) = (
    registered 201 (record {
      agent_id = agent_id;
      credential = credential;
      client_certificate = certificate;
      client_ca_certificate = ca_of c.issuer certificate;
    }),
    s,
  )
  created agent_id credential certificate (err conflict, s) = (already_registered, s)
  created agent_id credential certificate (err _, s) = (internal_error, s)

  certified :
      RegistrationRequest
      → Text
      → Text
      → Time
      → Response × Option Text
      → st.State
      → Response × st.State
  certified input agent_id credential now (refusal, none) s = (refusal, s)
  certified input agent_id credential now (_, some certificate) s =
      created agent_id credential certificate
        (st.create_agent (new_agent input agent_id credential now) s)

  -- From the first `id.Random` on.
  enrol : RegistrationRequest → Option Text → Option Text → Time → st.State → Response × st.State
  enrol input (some agent_id) (some credential) now s =
      certified input agent_id credential now
        (certificate_for c.issuer input.client_csr agent_id input.machine_id now) s
  enrol input _ _ now s = (internal_error, s)

  looked_up :
      RegistrationRequest
      → Stored Agent
      → Option Text
      → Option Text
      → Time
      → st.State
      → Response × st.State
  looked_up input (ok _) drawn_id drawn_credential now s = (already_registered, s)
  looked_up input (err not_found) drawn_id drawn_credential now s =
      enrol input (random_id (codes "agt_") drawn_id) (random_id (codes "msc_") drawn_credential)
        now s
  looked_up input (err _) drawn_id drawn_credential now s = (internal_error, s)

  unfoldable pub register_agent :
      Request
      → Option RegistrationRequest
      → Option Text
      → Option Text
      → Time
      → st.State
      → Response × st.State
  unfolding looked_up enrol certified created certificate_for
  register_agent r body drawn_id drawn_credential now s =
      if not (authorize_token sha256 r c.bootstrap_token) then (unauthorized, s) else elim body [
        | none ↦ (invalid_json, s)
        | some input ↦
            elim (validate_registration input.machine_id input.hostname input.version input.platform
              input.architecture) [
                | some e ↦ (problem 400 (registration_detail e), s)
                | none ↦
                    looked_up input (st.agent_by_machine_id input.machine_id s) drawn_id
                      drawn_credential now s
              ]
      ]

  renewed : Issuer → Text → Text → Stored Agent → Time → Response
  renewed i csr agent_id (err _) now = unauthorized
  renewed i csr agent_id (ok a) now = elim (i.issue csr agent_id a.machine_id now) [
    | none ↦ csr_invalid
    | some certificate ↦ registered 200 (record {
      agent_id = agent_id;
      credential = [];
      client_certificate = certificate;
      client_ca_certificate = i.ca_pem;
    })
  ]

  renew_with : Option Issuer → Request → Text → Option Text → Time → st.State → Response
  unfolding renewed csr_unbounded
  renew_with none r agent_id body now s = unauthorized
  renew_with (some i) r agent_id body now s =
      if not (authorize_agent sha256 c (λ id. st.agent_by_id id s) r agent_id)
      then unauthorized
      else elim body [
        | none ↦ csr_invalid
        | some csr ↦
            if csr_unbounded csr
            then csr_invalid
            else renewed i csr agent_id (st.agent_by_id agent_id s) now
      ]

  -- A renewal writes nothing to the store.
  unfoldable pub renew_agent_certificate : Request → Text → Option Text → Time → st.State → Response
  unfolding renew_with
  renew_agent_certificate r agent_id body now s = renew_with c.issuer r agent_id body now s

  beaten : Stored (Unit {0}) × st.State → Response × st.State
  beaten (ok _, s) = (heartbeat_accepted, s)
  beaten (err not_found, s) = (unauthorized, s)
  beaten (err _, s) = (internal_error, s)

  unfoldable pub heartbeat :
      Request → Text → Option HeartbeatRequest → Time → st.State → Response × st.State
  unfolding beaten
  heartbeat r agent_id body now s =
      if not (authorize_agent sha256 c (λ id. st.agent_by_id id s) r agent_id)
      then (unauthorized, s)
      else elim body [
        | none ↦ (invalid_json, s)
        | some input ↦
            if ltb_ℤ input.queue_depth (pos 0)
              || ltb_ℤ (pos 1000000) input.queue_depth
              || ltb 64 (length input.agent_version)
            then (problem 400 (message (codes "invalid heartbeat")), s)
            else beaten (
                st.update_heartbeat agent_id
                  (record {
                    agent_version = input.agent_version;
                    queue_depth = input.queue_depth;
                    sent_at = now;
                  })
                  s)
      ]
