-- ===== src/Control.antt =====
-- internal/control: the HTTP API of the control plane (server.go). The types, and what is configured,
-- are here; the modules below have the handlers.
pub mod Auth
pub mod Agents
pub mod Events
pub mod Policies
pub mod Queries
use my_safe.Prelude.{
  ℕ, Bool, true, false, not, ◌&&◌, Option, none, some, List, [], ◌∷◌, length, ltb, if◌then◌else◌,
}
use my_safe.Prelude.Int.{ℤ, pos, ltb_ℤ}
use my_safe.Prelude.Text.{Text}
use my_safe.Domain.{Time, Agent, Event, Policy, AuditLog}
use my_safe.Domain.Validate.{RegistrationError, PolicyError, EventError}
use my_safe.Mtls.Identity.{Certificate, Issued}

-- `mtls.Issuer`: `issue` is its method, with the certificate in PEM, and `ca_pem` its own.
pub record Issuer : Type 0 where
  pub issue : Text → Text → Text → Time → Option Text
  pub ca_pem : Text

-- The configuration of `New`; the store, the clock and the log are not values of it.
pub record Config : Type 0 where
  pub bootstrap_token : Text
  pub admin_token : Text
  pub max_body_bytes : ℤ
  pub issuer : Option Issuer
  pub require_agent_mtls : Bool

pub data ConfigError : Type 0 where
  short_bootstrap_token short_admin_token no_issuer : ConfigError

pub data Configured : Type 0 where
  server : Config → Configured
  rejected : ConfigError → Configured

abbrev has_issuer : Option Issuer → Bool
has_issuer none = false
has_issuer (some _) = true

-- `New`, from the check of the tokens on.
unfoldable pub new : Config → Configured
new c =
    if ltb (length c.bootstrap_token) 16
    then rejected short_bootstrap_token
    else if ltb (length c.admin_token) 16
    then rejected short_admin_token
    else if c.require_agent_mtls && not (has_issuer c.issuer)
    then rejected no_issuer
    else server (record c {
      max_body_bytes = if ltb_ℤ (pos 0) c.max_body_bytes then c.max_body_bytes else pos 1048576;
    })

-- `request.TLS`: the chains that were verified, counted, and the certificates of the peer.
pub record TlsState : Type 0 where
  pub verified_chains : ℕ
  pub peer_certificates : List Certificate

-- The parts of a request that the handlers read beside the decoded body.
pub record Request : Type 0 where
  pub authorization : Text
  pub tls : Option TlsState

pub record RegistrationResponse : Type 0 where
  pub agent_id : Text
  pub credential : Text
  pub client_certificate : Text
  pub client_ca_certificate : Text

pub data PolicyRequestError : Type 0 where
  fields_required too_many_paths invalid_path duplicate_path ssh_out_of_range : PolicyRequestError

-- The field `detail` of a problem document.
pub data Detail : Type 0 where
  message : Text → Detail
  registration_detail : RegistrationError → Detail
  event_detail : ℕ → EventError → Detail
  policy_request_detail : PolicyRequestError → Detail
  policy_detail : PolicyError → Detail

-- A response: its status, and its body.
pub data Response : Type 0 where
  problem : ℕ → Detail → Response
  registered : ℕ → RegistrationResponse → Response
  heartbeat_accepted : Response
  events_accepted : ℕ → ℕ → Response
  agents_listed : List Agent → Response
  alerts_listed : List Event → Response
  policy_found : Policy → Response
  audit_logs_listed : List AuditLog → Response

abbrev pub status : Response → ℕ
status (problem code _) = code
status (registered code _) = code
status heartbeat_accepted = 200
status (events_accepted _ _) = 202
status (agents_listed _) = 200
status (alerts_listed _) = 200
status (policy_found _) = 200
status (audit_logs_listed _) = 200
