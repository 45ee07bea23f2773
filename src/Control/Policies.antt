-- ===== src/Control/Policies.antt =====
-- `validatePolicyRequest`, `getAgentPolicy` and `putAgentPolicy` of internal/control/server.go.
pub mod Updates
use my_safe.Prelude.{
  ℕ, ◌+◌, Bool, true, false, not, ◌||◌, Option, none, some, List, [], ◌∷◌, ◌++◌, length, ltb,
  if◌then◌else◌,
}
use my_safe.Prelude.Int.{ℤ, pos, ltb_ℤ, eq_ℤ, inc_int64}
use my_safe.Prelude.Text.{Text, codes}
use my_safe.Prelude.Text.Number.{show_int, show_nat}
use my_safe.Prelude.Text.Sort.{sort_texts}
use my_safe.Domain.{Time, Agent, Policy, AuditLog}
use my_safe.Domain.Json.{Fields, bool, num, end, field}
use my_safe.Domain.Validate.{bad_watch_path, seen_path, ssh_range_bad, validate_policy}
use my_safe.Store.Contract.{Store, Stored, ok, err, not_found, conflict}
use my_safe.Control.{
  Config, Request, Response, PolicyRequestError, fields_required, too_many_paths, invalid_path,
  duplicate_path, ssh_out_of_range, problem, policy_found, message, policy_request_detail,
  policy_detail,
}
use my_safe.Control.Auth.{authorize_token, authorize_agent}
use my_safe.Control.Agents.{unauthorized, invalid_json, internal_error, random_id}

-- A pointer or a slice that the request left out is `none`.
pub record PolicyRequest : Type 0 where
  pub expected_revision : ℤ
  pub file_integrity_enabled : Option Bool
  pub file_watch_paths : Option (List Text)
  pub ssh_auth_enabled : Option Bool
  pub ssh_threshold : ℤ
  pub ssh_window_seconds : ℤ
  pub runtime_watch_enabled : Option Bool

-- The fields that a valid request has.
pub record Given : Type 0 where
  pub file_integrity : Bool
  pub paths : List Text
  pub ssh_auth : Bool
  pub runtime_watch : Bool

given : Option Bool → Option (List Text) → Option Bool → Option Bool → Option Given
given (some f) (some ps) (some s) (some r) =
    some (record { file_integrity = f; paths = ps; ssh_auth = s; runtime_watch = r })
given _ _ _ _ = none

check_request_paths : List Text → List Text → Option PolicyRequestError
check_request_paths seen [] = none
check_request_paths seen (p ∷ ps) =
    let rest = check_request_paths (p ∷ seen) ps in
    if bad_watch_path p
    then some invalid_path
    else if seen_path p seen
    then some duplicate_path
    else rest

pub data CheckedRequest : Type 0 where
  passed : Given → CheckedRequest
  failed : PolicyRequestError → CheckedRequest

check_given : PolicyRequest → Option Given → CheckedRequest
unfolding check_request_paths
check_given input none = failed fields_required
check_given input (some g) =
    if ltb_ℤ input.expected_revision (pos 0)
    then failed fields_required
    else if ltb 64 (length g.paths)
    then failed too_many_paths
    else elim (check_request_paths [] g.paths) [
      | some e ↦ failed e
      | none ↦
          if ssh_range_bad input.ssh_threshold input.ssh_window_seconds
          then failed ssh_out_of_range
          else passed g
    ]

-- `validatePolicyRequest`, with the values behind the pointers of a request that passes.
unfoldable pub validate_policy_request : PolicyRequest → CheckedRequest
unfolding check_given given
validate_policy_request input = check_given input (
    given input.file_integrity_enabled input.file_watch_paths input.ssh_auth_enabled
      input.runtime_watch_enabled)

abbrev revision_conflict : Response
revision_conflict = problem 409 (message (codes "policy revision conflict"))

module _ (sha256 : Text → Text) (st : Store) (c : Config) where
  policy_answer : Stored Policy → Response
  policy_answer (ok p) = policy_found p
  policy_answer (err not_found) = problem 404 (message (codes "Agent policy is not configured"))
  policy_answer (err _) = internal_error

  unfoldable pub get_agent_policy : Request → Text → st.State → Response
  unfolding policy_answer
  get_agent_policy r agent_id s =
      if not (authorize_agent sha256 c (λ id. st.agent_by_id id s) r agent_id)
      then unauthorized
      else policy_answer (st.policy_for_agent agent_id s)

  -- The identifier of the policy: a new one, or that of the policy whose revision was named.
  current_id : Stored Policy → ℤ → Response × Option Text
  current_id (err _) expected = (revision_conflict, none)
  current_id (ok p) expected =
      if eq_ℤ p.revision expected then (revision_conflict, some p.id) else (revision_conflict, none)

  policy_id : Text → ℤ → Option Text → st.State → Response × Option Text
  unfolding current_id
  policy_id agent_id expected drawn s =
      if eq_ℤ expected (pos 0)
      then (internal_error, random_id (codes "pol_") drawn)
      else current_id (st.policy_for_agent agent_id s) expected

  abbrev pub new_policy : PolicyRequest → Given → Text → Text → Time → Policy
  new_policy input g id agent_id now = record {
    id = id;
    agent_id = agent_id;
    revision = inc_int64 input.expected_revision;
    file_integrity_enabled = g.file_integrity;
    file_watch_paths = sort_texts g.paths;
    ssh_auth_enabled = g.ssh_auth;
    ssh_threshold = input.ssh_threshold;
    ssh_window_seconds = input.ssh_window_seconds;
    runtime_watch_enabled = g.runtime_watch;
    updated_at = now;
  }

  -- The audit record of the change. A map has no order; the keys stand as in the source.
  audit_of : Policy → ℤ → Text → Time → AuditLog
  audit_of p expected id now = record {
    id = id;
    actor = codes "admin_token";
    action = codes "agent.policy.updated";
    resource = codes "agent/" ++ p.agent_id ++ codes "/policy";
    occurred_at = now;
    details = some (
        field (codes "previous_revision") (num (show_int expected)) (
          field (codes "new_revision") (num (show_int p.revision)) (
            field (codes "file_watch_path_count") (num (show_nat (length p.file_watch_paths))) (
              field (codes "file_integrity_enabled") (bool p.file_integrity_enabled) (
                field (codes "ssh_auth_enabled") (bool p.ssh_auth_enabled)
                  (field (codes "runtime_watch_enabled") (bool p.runtime_watch_enabled) end))))));
  }

  written : Policy → Stored (Unit {0}) × st.State → Response × st.State
  written p (ok _, s) = (policy_found p, s)
  written p (err conflict, s) = (revision_conflict, s)
  written p (err _, s) = (internal_error, s)

  -- From `domain.ValidatePolicy` on.
  write_policy : Policy → ℤ → Option Text → Time → st.State → Response × st.State
  unfolding written audit_of
  write_policy p expected drawn now s = elim (validate_policy p) [
    | some e ↦ (problem 400 (policy_detail e), s)
    | none ↦ elim (random_id (codes "aud_") drawn) [
      | none ↦ (internal_error, s)
      | some id ↦ written p (st.save_policy_and_audit p expected (audit_of p expected id now) s)
    ]
  ]

  identified :
      PolicyRequest
      → Given
      → Text
      → Response × Option Text
      → Option Text
      → Time
      → st.State
      → Response × st.State
  identified input g agent_id (refusal, none) drawn now s = (refusal, s)
  identified input g agent_id (_, some id) drawn now s =
      write_policy (new_policy input g id agent_id now) input.expected_revision drawn now s

  checked :
      PolicyRequest
      → CheckedRequest
      → Text
      → Option Text
      → Option Text
      → Time
      → st.State
      → Response × st.State
  checked input (failed e) agent_id drawn_policy drawn_audit now s =
      (problem 400 (policy_request_detail e), s)
  checked input (passed g) agent_id drawn_policy drawn_audit now s =
      identified input g agent_id (policy_id agent_id input.expected_revision drawn_policy s)
        drawn_audit now s

  -- The body is decoded once the Agent has been found.
  for_agent :
      Stored Agent
      → Option PolicyRequest
      → Text
      → Option Text
      → Option Text
      → Time
      → st.State
      → Response × st.State
  for_agent (err _) body agent_id drawn_policy drawn_audit now s =
      (problem 404 (message (codes "Agent does not exist")), s)
  for_agent (ok _) none agent_id drawn_policy drawn_audit now s = (invalid_json, s)
  for_agent (ok _) (some input) agent_id drawn_policy drawn_audit now s =
      checked input (validate_policy_request input) agent_id drawn_policy drawn_audit now s

  unfoldable pub put_agent_policy :
      Request
      → Text
      → Option PolicyRequest
      → Option Text
      → Option Text
      → Time
      → st.State
      → Response × st.State
  unfolding for_agent checked identified write_policy policy_id validate_policy_request
  put_agent_policy r agent_id body drawn_policy drawn_audit now s =
      if not (authorize_token sha256 r c.admin_token)
      then (unauthorized, s)
      else for_agent (st.agent_by_id agent_id s) body agent_id drawn_policy drawn_audit now s
