-- ===== src/Control/Agents/Enrolment.antt =====
-- What a registration leaves in the repository in memory, and that the credential which it hands out
-- is then accepted.
use my_safe.Prelude.{
  ℕ, ◌≡◌, refl, inl, inr, true, false, Option, none, some, [], ◌∷◌, ◌++◌, length, Bool-cases,
  Option-cases,
}
use mathlib.Core.Path.{subst}
use my_safe.Prelude.Text.{Text, codes, blank}
use my_safe.Prelude.Dict.{lookup}
use my_safe.Domain.{Time, Agent}
use my_safe.Domain.Validate.{validate_registration}
use my_safe.Store.Contract.{Stored, ok, err, not_found, conflict, failure}
use my_safe.Store.Memory.{Memory, memory_store, create_agent, agent_by_id, agent_by_machine_id}
use my_safe.Store.Memory.Agents.{create_agent_lem}
use my_safe.Control.{
  Issuer, Config, Request, Response, RegistrationResponse, problem, registered, heartbeat_accepted,
  events_accepted, agents_listed, alerts_listed, policy_found, audit_logs_listed,
}
use my_safe.Control.Auth.{bearer_token, authorize_token, authorize_agent, authorize_agent_complete}
use my_safe.Control.Agents.{
  RegistrationRequest, random_id, new_agent, created, certified, enrol, looked_up, register_agent,
  certificate_for, csr_unbounded,
}

module _ (sha256 : Text → Text) where
  -- The Agent that the answer names is stored, new, with the hash of the credential in the answer.
  pub record IsEnrolled (s : Memory) (answer : RegistrationResponse) (s' : Memory) : Type 0 where
    pub agent : Agent
    pub stored : agent_by_id answer.agent_id s' ≡ ok agent
    pub hashed : agent.credential_hash ≡ sha256 answer.credential
    pub named : blank answer.agent_id ≡ false
    pub by_machine : agent_by_machine_id agent.machine_id s' ≡ ok agent
    pub new_id : lookup answer.agent_id s.agents ≡ none
    pub new_machine : lookup agent.machine_id s.agent_by_machine ≡ none

  -- What may come of a registration from the state `s`: an answer with status 201 and a new Agent, or
  -- a problem and the same state.
  abbrev pub Outcome : Memory → Response × Memory → Type 0
  Outcome s (registered code answer, s') = (code ≡ 201) × IsEnrolled s answer s'
  Outcome s (problem code d, s') = s' ≡ s
  Outcome s (heartbeat_accepted, s') = ⊥
  Outcome s (events_accepted a b, s') = ⊥
  Outcome s (agents_listed l, s') = ⊥
  Outcome s (alerts_listed l, s') = ⊥
  Outcome s (policy_found p, s') = ⊥
  Outcome s (audit_logs_listed l, s') = ⊥

  module _ (c : Config) where
    -- The answer depends on the result of the store.
    created-ok :
        (agent_id credential certificate : Text) (s : Memory) (x : Stored (Unit {0}) × Memory)
        → x.0 ≡ ok tt
        → ((answer : RegistrationResponse)
            → answer.agent_id ≡ agent_id
            → answer.credential ≡ credential
            → IsEnrolled s answer x.1)
        → Outcome s (created sha256 memory_store c agent_id credential certificate x)
    unfolding created
    created-ok agent_id credential certificate s (ok u, s') h enrolled =
        (refl, enrolled _ refl refl)
    created-ok agent_id credential certificate s (err e, s') h enrolled = absurd (cc h)

    created-Outcome :
        (input : RegistrationRequest) (agent_id credential certificate : Text) (now : Time)
        (s : Memory)
        → blank agent_id ≡ false
        → Outcome s (
            created sha256 memory_store c agent_id credential certificate
              (create_agent (new_agent sha256 memory_store c input agent_id credential now) s))
    created-Outcome input agent_id credential certificate now s named =
        let a : Agent = new_agent sha256 memory_store c input agent_id credential now in
        elim (create_agent_lem a s) [
          | inl (refused, _) ↦ rw refused (unfold created in refl)
          | inr (free, free', done, found, found') ↦
              created-ok agent_id credential certificate s (create_agent a s) done
                (λ answer same same'. record {
                  agent = a;
                  stored = rw same found;
                  hashed = rw same' refl;
                  named = rw same named;
                  by_machine = found';
                  new_id = rw same free;
                  new_machine = free';
                })
        ]

    -- The refusal of a missing or an invalid certificate request is a problem.
    certificate_for-problem :
        (o : Option Issuer) (csr agent_id machine_id : Text) (now : Time) (s : Memory)
        → Outcome s ((certificate_for o csr agent_id machine_id now).0, s)
    unfolding certificate_for
    certificate_for-problem none csr agent_id machine_id now s = refl
    certificate_for-problem (some i) csr agent_id machine_id now s =
        elim (Bool-cases (csr_unbounded csr)) [ inl y ↦ rw y refl | inr n ↦ rw n refl ]

    certified-Outcome :
        (input : RegistrationRequest) (agent_id credential : Text) (now : Time) (s : Memory)
        (x : Response × Option Text)
        → blank agent_id ≡ false
        → Outcome s (x.0, s)
        → Outcome s (certified sha256 memory_store c input agent_id credential now x s)
    unfolding certified
    certified-Outcome input agent_id credential now s (refusal, none) named h = h
    certified-Outcome input agent_id credential now s (refusal, some certificate) named h =
        created-Outcome input agent_id credential certificate now s named

    -- An identifier that `id.Random` made is not blank.
    agent_id-named : (drawn : Text) → blank (codes "agt_" ++ drawn) ≡ false
    unfolding blank
    agent_id-named [] = refl
    agent_id-named (a ∷ []) = refl
    agent_id-named (a ∷ b ∷ r) = refl

    enrol-Outcome :
        (input : RegistrationRequest) (drawn_id drawn_credential : Option Text) (now : Time)
        (s : Memory)
        → Outcome s (
            enrol sha256 memory_store c input
              (random_id (codes "agt_") drawn_id)
              (random_id (codes "msc_") drawn_credential)
              now
              s)
    unfolding enrol
    enrol-Outcome input none drawn_credential now s = refl
    enrol-Outcome input (some i) none now s = refl
    enrol-Outcome input (some i) (some k) now s =
        certified-Outcome input (codes "agt_" ++ i) (codes "msc_" ++ k) now s
          (certificate_for c.issuer input.client_csr (codes "agt_" ++ i) input.machine_id now)
          (agent_id-named i)
          (certificate_for-problem c.issuer input.client_csr (codes "agt_" ++ i) input.machine_id
            now s)

    looked_up-Outcome :
        (input : RegistrationRequest) (found : Stored Agent)
        (drawn_id drawn_credential : Option Text) (now : Time) (s : Memory)
        → Outcome s (looked_up sha256 memory_store c input found drawn_id drawn_credential now s)
    unfolding looked_up
    looked_up-Outcome input (ok a) drawn_id drawn_credential now s = refl
    looked_up-Outcome input (err not_found) drawn_id drawn_credential now s =
        enrol-Outcome input drawn_id drawn_credential now s
    looked_up-Outcome input (err conflict) drawn_id drawn_credential now s = refl
    looked_up-Outcome input (err failure) drawn_id drawn_credential now s = refl

    body-Outcome :
        (body : Option RegistrationRequest) (r : Request) (drawn_id drawn_credential : Option Text)
        (now : Time) (s : Memory)
        → authorize_token sha256 r c.bootstrap_token ≡ true
        → Outcome s (register_agent sha256 memory_store c r body drawn_id drawn_credential now s)
    unfolding register_agent
    body-Outcome none r drawn_id drawn_credential now s h = rw h refl
    body-Outcome (some input) r drawn_id drawn_credential now s h =
        elim (Option-cases (
          validate_registration input.machine_id input.hostname input.version input.platform
            input.architecture)) [
              | inl valid ↦
                  rw (h, valid)
                    (looked_up-Outcome input (agent_by_machine_id input.machine_id s) drawn_id
                      drawn_credential now s)
              | inr (e, invalid) ↦ rw (h, invalid) refl
            ]

    -- A registration answers 201 with the identifier of a new Agent, stored under it and under its
    -- machine with the hash of the credential in the answer, or it answers with a problem and leaves
    -- the store as it was.
    pub register_agent-Outcome :
        (r : Request) (body : Option RegistrationRequest) (drawn_id drawn_credential : Option Text)
        (now : Time) (s : Memory)
        → Outcome s (register_agent sha256 memory_store c r body drawn_id drawn_credential now s)
    register_agent-Outcome r body drawn_id drawn_credential now s =
        elim (Bool-cases (authorize_token sha256 r c.bootstrap_token)) [
          | inl y ↦ body-Outcome body r drawn_id drawn_credential now s y
          | inr n ↦ unfold register_agent in rw n refl
        ]

    -- The credential of a 201 answer is accepted for the Agent of that answer from then on, in any
    -- request that bears it, where no client certificate is required. SHA-256 gives 32 bytes.
    pub authorize_agent-register_agent :
        (sha256_size : (t : Text) → length (sha256 t) ≡ 32) (r : Request)
        (body : Option RegistrationRequest) (drawn_id drawn_credential : Option Text) (now : Time)
        (s s' : Memory) (code : ℕ) (answer : RegistrationResponse) (r' : Request)
        → register_agent sha256 memory_store c r body drawn_id drawn_credential now s
          ≡ (registered code answer, s')
        → bearer_token r' ≡ some answer.credential
        → c.require_agent_mtls ≡ false
        → authorize_agent sha256 c (λ id. agent_by_id id s') r' answer.agent_id ≡ true
    authorize_agent-register_agent sha256_size r body drawn_id drawn_credential now s s' code answer
          r' h borne plain =
        let (_, e) =
          subst (Outcome s) h (register_agent-Outcome r body drawn_id drawn_credential now s) in
        authorize_agent_complete sha256 c (λ id. agent_by_id id s') r' answer.agent_id
          answer.credential e.agent e.named borne e.stored e.hashed (sha256_size answer.credential)
          plain
