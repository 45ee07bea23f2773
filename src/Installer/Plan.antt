-- ===== src/Installer/Plan.antt =====
-- `BuildPlan` of internal/installer/inspect.go: what an installation will do, or why it is blocked.
pub mod Port
pub mod Outcomes
pub mod Sound
use my_safe.Prelude.{
  ℕ, zero, suc, ◌+◌, ◌-◌, ◌==◌, Bool, true, false, not, ◌||◌, ◌&&◌, Option, none, some, List, [],
  ◌∷◌, ◌++◌, if◌then◌else◌,
}
use my_safe.Prelude.Int.{ℤ, pos, negsuc, eq_ℤ}
use my_safe.Prelude.Text.{Text, codes, text_eq, is_empty, trim_space, contains_any}
use my_safe.Prelude.Text.Number.{show_int}
use my_safe.Installer.Url.{Url, UrlError, not_absolute, bad_scheme, validate_upstream}
use my_safe.Installer.Inspect.{
  SupportLevel, stable, experimental, unsupported, Environment, ProxyCandidate,
}

-- `auto` is also the selection that is not given.
pub data GatewaySelection : Type 0 where
  auto required disabled : GatewaySelection

pub record PlanOptions : Type 0 where
  pub gateway : GatewaySelection
  pub upstream : Text
  pub gateway_port : ℤ

pub record Plan : Type 0 where
  pub installable : Bool
  pub support : SupportLevel
  pub integration : Text
  pub gateway_enabled : Bool
  pub gateway_listen : Text
  pub upstream : Text
  pub nginx_config : Text
  pub nginx_replacement : Text
  pub steps : List Text
  pub blockers : List Text
  pub notices : List Text

unfoldable pub uses_port : ℕ → List ℕ → Bool
uses_port p [] = false
uses_port p (q ∷ qs) = p == q || uses_port p qs

-- The loop of `firstFreePort`, with the number of ports that are left.
unfoldable pub free_port_from : List ℕ → ℕ → ℕ → ℕ
unfolding uses_port
free_port_from used zero port = 0
free_port_from used (suc count) port =
    let next = free_port_from used count (port + 1) in if uses_port port used then next else port

-- `firstFreePort`
unfoldable pub first_free_port : List ℕ → ℕ → ℕ → ℕ
unfolding free_port_from
first_free_port used start end = free_port_from used (end + 1 - start) start

abbrev pub candidate_ports : List ProxyCandidate → List ℕ
candidate_ports [] = []
candidate_ports (c ∷ cs) = c.port ∷ candidate_ports cs

abbrev pub used_ports : Environment → List ℕ
used_ports e = e.listening_ports ++ candidate_ports e.proxy_candidates

unfoldable pub planned_port : Environment → ℤ → ℤ
unfolding first_free_port
planned_port e given =
    if eq_ℤ given (pos 0) then pos (first_free_port (used_ports e) 18081 18180) else given

abbrev upstream_message : UrlError → Text
upstream_message not_absolute = codes "explicit Gateway upstream must be an absolute HTTP(S) URL"
upstream_message bad_scheme = codes "explicit Gateway upstream scheme must be http or https"
upstream_message _ =
    codes "explicit Gateway upstream must not contain credentials, query, or fragment"

abbrev platform_name : Environment → Text
platform_name e = e.os_id ++ b' ' ∷ e.os_version ++ b'/' ∷ e.architecture

unfoldable pub is_unsupported : SupportLevel → Bool
is_unsupported unsupported = true
is_unsupported _ = false

is_experimental : SupportLevel → Bool
is_experimental experimental = true
is_experimental _ = false

abbrev pub is_required : GatewaySelection → Bool
is_required required = true
is_required _ = false

unfoldable pub platform_blockers : Environment → List Text
unfolding is_unsupported
platform_blockers e =
    (if is_unsupported e.support
      then (codes "unsupported platform " ++ platform_name e) ∷ []
      else [])
    ++ (if e.systemd.available
        then []
        else codes "systemd is required for the native Agent service" ∷ [])

unfoldable pub empty_plan : Environment → Plan
empty_plan e = record {
  installable = false;
  support = e.support;
  integration = codes "sensor";
  gateway_enabled = false;
  gateway_listen = [];
  upstream = [];
  nginx_config = [];
  nginx_replacement = [];
  steps = [];
  blockers = [];
  notices = [];
}

-- The plan before the gateway is looked at.
unfoldable pub agent_plan : Environment → Plan
unfolding empty_plan is_experimental
agent_plan e = record (empty_plan e) {
  installable = true;
  steps =
      codes "verify signed release manifest and artifact hashes"
      ∷ codes "install Agent binary and hardened systemd unit"
      ∷ codes "register Agent with the one-time bootstrap token"
      ∷ codes "run a read-only baseline scan and verify heartbeat"
      ∷ [];
  notices =
      if is_experimental e.support
      then codes "platform is experimental and requires explicit confirmation" ∷ []
      else [];
}

abbrev noticed : Text → Plan → Plan
noticed notice plan = record plan { notices = plan.notices ++ notice ∷ [] }

abbrev blocked : Text → Plan → Plan
blocked blocker plan = record plan { blockers = plan.blockers ++ blocker ∷ [] }

-- A gateway that is required and cannot be had blocks the installation.
without_gateway : GatewaySelection → Text → Plan → Plan
without_gateway selection blocker plan =
    if is_required selection then record (blocked blocker plan) { installable = false } else plan

gateway_plan : Text → Text → ℤ → Plan → Plan
gateway_plan upstream nginx_config port plan =
    let listen = codes "127.0.0.1:" ++ show_int port in
    let enabled = record plan {
      gateway_enabled = true;
      integration = codes "nginx_gateway";
      gateway_listen = listen;
      upstream = upstream;
      nginx_config = nginx_config;
      nginx_replacement = if is_empty nginx_config then [] else codes "http://" ++ listen;
    } in
    let steps =
      plan.steps
      ++ codes "install Gateway in observe mode"
        ∷ codes "health-check Gateway against the detected upstream"
        ∷ [] in
    if is_empty nginx_config
    then noticed
        (codes "explicit upstream selected; external ingress still needs an explicit routing step")
        (record enabled { steps = steps })
    else record enabled {
      steps =
          steps
          ++ codes "back up and hash the selected Nginx configuration"
            ∷ codes "replace the single proxy_pass with the local Gateway"
            ∷ codes "run nginx -t, reload, and verify the protected route"
            ∷ [];
    }

-- From the upstream and its Nginx file on.
with_upstream : GatewaySelection → ℤ → Text → Text → Plan → Plan
unfolding without_gateway gateway_plan
with_upstream selection port upstream nginx_config plan =
    if eq_ℤ port (pos 0)
    then without_gateway selection
        (codes "Gateway was required but no local listen port is available")
        (noticed (codes "no free Gateway port is available in 18081-18180; staying in Sensor mode")
          plan)
    else gateway_plan upstream nginx_config port plan

-- No upstream is given: the one candidate is taken.
with_candidates : GatewaySelection → ℤ → List ProxyCandidate → Plan → Plan
unfolding without_gateway with_upstream
with_candidates selection port [] plan =
    without_gateway selection
      (codes "Gateway was required but no unambiguous upstream is available")
      (noticed
        (codes "no unique literal loopback Nginx proxy_pass was found; staying in Sensor mode")
        plan)
with_candidates selection port (c ∷ []) plan =
    with_upstream selection port c.upstream c.config_path plan
with_candidates selection port (c ∷ c' ∷ cs) plan =
    without_gateway selection
      (codes "Gateway was required but no unambiguous upstream is available")
      (noticed
        (codes
          "multiple Nginx upstreams were found; staying in Sensor mode until an upstream is selected")
        plan)

refused_upstream : GatewaySelection → UrlError → Plan → Plan
refused_upstream selection e plan =
    let plan' = blocked (upstream_message e) plan in
    if is_required selection then record plan' { installable = false } else plan'

unfoldable pub is_disabled : GatewaySelection → Bool
is_disabled disabled = true
is_disabled _ = false

module _ (parse_url : Text → Option Url) where
  unfoldable pub with_gateway : Environment → GatewaySelection → ℤ → Text → Plan → Plan
  unfolding with_candidates with_upstream refused_upstream validate_upstream
  with_gateway e selection port upstream plan =
      if is_empty upstream
      then with_candidates selection port e.proxy_candidates plan
      else elim (validate_upstream parse_url upstream) [
        | some error ↦ refused_upstream selection error plan
        | none ↦ with_upstream selection port upstream [] plan
      ]

  -- `BuildPlan`
  unfoldable pub build_plan : Environment → PlanOptions → Plan
  unfolding planned_port platform_blockers empty_plan agent_plan with_gateway is_disabled
  build_plan e options =
      let blockers = platform_blockers e in
      if not (is_empty blockers)
      then record (empty_plan e) { blockers = blockers }
      else if is_disabled options.gateway
      then noticed (codes "Gateway disabled by operator; Sensor protection remains active")
          (agent_plan e)
      else with_gateway e options.gateway (planned_port e options.gateway_port)
          (trim_space options.upstream) (agent_plan e)
