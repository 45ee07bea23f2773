-- ===== src/Control/Policies/Updates.antt =====
-- What a policy update leaves in the repository in memory.

use my_safe.Prelude.{◌≡◌, refl, inl, inr, Option, none, some, Bool-cases, Option-cases}
use my_safe.Prelude.Int.{ℤ, pos, eq_ℤ}
use my_safe.Prelude.Text.{Text, codes}
use my_safe.Domain.{Time, Agent, Policy, AuditLog}
use my_safe.Domain.Validate.{validate_policy}
use my_safe.Domain.Validate.Bounds.{IsSafePolicy, validate_policy-IsSafePolicy}
use my_safe.Store.Contract.{Stored, ok, err}
use my_safe.Store.Memory.{
  Memory, memory_store, save_policy_and_audit, agent_by_id, policy_for_agent,
}
use my_safe.Store.Memory.Policies.{IsWritten, save_policy_and_audit_lem}
use my_safe.Control.{
  Config, Request, Response, problem, registered, heartbeat_accepted, events_accepted,
  agents_listed, alerts_listed, policy_found, audit_logs_listed,
}
use my_safe.Control.Auth.{authorize_token}
use my_safe.Control.Agents.{random_id}
use my_safe.Control.Policies.{
  PolicyRequest, Given, CheckedRequest, passed, failed, new_policy, audit_of, written, write_policy,
  identified, policy_id, current_id, checked, for_agent, validate_policy_request, put_agent_policy,
}

-- The policy of the answer is within the safe bounds, is the Agent's, and has been written over the
-- revision that the body of the request names, together with an audit record.
pub record IsUpdated (body : Option PolicyRequest) (agent_id : Text) (s : Memory) (p : Policy)
    (s' : Memory) : Type 0 where
  pub input : PolicyRequest
  pub sent : body ≡ some input
  pub safe : IsSafePolicy p
  pub own : p.agent_id ≡ agent_id
  pub log : AuditLog
  pub saved : IsWritten p input.expected_revision log s s'

abbrev pub Outcome : Option PolicyRequest → Text → Memory → Response × Memory → Type 0
Outcome body agent_id s (policy_found p, s') = IsUpdated body agent_id s p s'
Outcome body agent_id s (problem code d, s') = s' ≡ s
Outcome body agent_id s (registered code answer, s') = ⊥
Outcome body agent_id s (heartbeat_accepted, s') = ⊥
Outcome body agent_id s (events_accepted a b, s') = ⊥
Outcome body agent_id s (agents_listed l, s') = ⊥
Outcome body agent_id s (alerts_listed l, s') = ⊥
Outcome body agent_id s (audit_logs_listed l, s') = ⊥

module _ (sha256 : Text → Text) (c : Config) where
  written-ok :
      (body : Option PolicyRequest) (agent_id : Text) (s : Memory) (p : Policy)
      (x : Stored (Unit {0}) × Memory)
      → x.0 ≡ ok tt
      → IsUpdated body agent_id s p x.1
      → Outcome body agent_id s (written sha256 memory_store c p x)
  unfolding written
  written-ok body agent_id s p (ok u, s') h u' = u'
  written-ok body agent_id s p (err e, s') h u' = absurd (cc h)

  written-Outcome :
      (input : PolicyRequest) (p : Policy) (log : AuditLog) (s : Memory)
      → IsSafePolicy p
      → Outcome
          (some input)
          p.agent_id
          s
          (written sha256 memory_store c p (save_policy_and_audit p input.expected_revision log s))
  written-Outcome input p log s safe =
      elim (save_policy_and_audit_lem p input.expected_revision log s) [
        | inl refused ↦ rw refused (unfold written in refl)
        | inr (done, w) ↦
            written-ok (some input) p.agent_id s p
              (save_policy_and_audit p input.expected_revision log s) done
              (record { input = input; sent = refl; safe = safe; own = refl; log = log; saved = w })
      ]

  write_policy-Outcome :
      (input : PolicyRequest) (p : Policy) (drawn : Option Text) (now : Time) (s : Memory)
      → Outcome
          (some input)
          p.agent_id
          s
          (write_policy sha256 memory_store c p input.expected_revision drawn now s)
  unfolding write_policy
  write_policy-Outcome input p drawn now s = elim (Option-cases (validate_policy p)) [
    | inr (e, bad) ↦ rw (bad, write_policy) refl
    | inl good ↦ elim (Option-cases (random_id (codes "aud_") drawn)) [
      | inl dry ↦ rw (good, dry, write_policy) refl
      | inr (id, fresh) ↦
          rw (good, fresh, write_policy)
            (written-Outcome input p
              (audit_of sha256 memory_store c p input.expected_revision id now) s
              (validate_policy-IsSafePolicy p good))
    ]
  ]

  identified-Outcome :
      (input : PolicyRequest) (g : Given) (agent_id : Text) (x : Response × Option Text)
      (drawn : Option Text) (now : Time) (s : Memory)
      → Outcome (some input) agent_id s (x.0, s)
      → Outcome
          (some input)
          agent_id
          s
          (identified sha256 memory_store c input g agent_id x drawn now s)
  unfolding identified
  identified-Outcome input g agent_id (refusal, none) drawn now s h = h
  identified-Outcome input g agent_id (refusal, some id) drawn now s h =
      write_policy-Outcome input (new_policy sha256 memory_store c input g id agent_id now) drawn
        now s

  current_id-problem :
      (body : Option PolicyRequest) (found : Stored Policy) (expected : ℤ) (agent_id : Text)
      (s : Memory)
      → Outcome body agent_id s ((current_id sha256 memory_store c found expected).0, s)
  unfolding current_id
  current_id-problem body (err e) expected agent_id s = refl
  current_id-problem body (ok p) expected agent_id s =
      elim (Bool-cases (eq_ℤ p.revision expected)) [ inl y ↦ rw y refl | inr n ↦ rw n refl ]

  policy_id-problem :
      (body : Option PolicyRequest) (agent_id : Text) (expected : ℤ) (drawn : Option Text)
      (s : Memory)
      → Outcome body agent_id s ((policy_id sha256 memory_store c agent_id expected drawn s).0, s)
  unfolding policy_id
  policy_id-problem body agent_id expected drawn s = elim (Bool-cases (eq_ℤ expected (pos 0))) [
    | inl y ↦ rw y refl
    | inr n ↦ rw n (current_id-problem body (policy_for_agent agent_id s) expected agent_id s)
  ]

  checked-Outcome :
      (input : PolicyRequest) (x : CheckedRequest) (agent_id : Text)
      (drawn_policy drawn_audit : Option Text) (now : Time) (s : Memory)
      → Outcome
          (some input)
          agent_id
          s
          (checked sha256 memory_store c input x agent_id drawn_policy drawn_audit now s)
  unfolding checked
  checked-Outcome input (failed e) agent_id drawn_policy drawn_audit now s = refl
  checked-Outcome input (passed g) agent_id drawn_policy drawn_audit now s =
      identified-Outcome input g agent_id
        (policy_id sha256 memory_store c agent_id input.expected_revision drawn_policy s)
        drawn_audit now s
        (policy_id-problem (some input) agent_id input.expected_revision drawn_policy s)

  for_agent-Outcome :
      (found : Stored Agent) (body : Option PolicyRequest) (agent_id : Text)
      (drawn_policy drawn_audit : Option Text) (now : Time) (s : Memory)
      → Outcome body agent_id s
          (for_agent sha256 memory_store c found body agent_id drawn_policy drawn_audit now s)
  unfolding for_agent
  for_agent-Outcome (err e) body agent_id drawn_policy drawn_audit now s = refl
  for_agent-Outcome (ok a) none agent_id drawn_policy drawn_audit now s = refl
  for_agent-Outcome (ok a) (some input) agent_id drawn_policy drawn_audit now s =
      checked-Outcome input (validate_policy_request input) agent_id drawn_policy drawn_audit now s

  -- A policy update answers with a policy within the safe bounds that is now the Agent's, one revision
  -- after the one that the body of the request names, which was current, written together with its audit
  -- record; or it answers with a problem, and neither is written.
  pub put_agent_policy-Outcome :
      (r : Request) (agent_id : Text) (body : Option PolicyRequest)
      (drawn_policy drawn_audit : Option Text) (now : Time) (s : Memory)
      → Outcome body agent_id s
          (put_agent_policy sha256 memory_store c r agent_id body drawn_policy drawn_audit now s)
  put_agent_policy-Outcome r agent_id body drawn_policy drawn_audit now s =
      elim (Bool-cases (authorize_token sha256 r c.admin_token)) [
        | inl y ↦
            unfold put_agent_policy in
            rw y (
              for_agent-Outcome (agent_by_id agent_id s) body agent_id drawn_policy drawn_audit now
                s)
        | inr n ↦ unfold put_agent_policy in rw n refl
      ]
