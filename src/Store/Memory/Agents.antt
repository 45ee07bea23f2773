-- ===== src/Store/Memory/Agents.antt =====
-- The agents of internal/store/memory.go: the index by machine and the table by identifier agree.
use my_safe.Prelude.{
  ◌≡◌, refl, ◌⊎◌, inl, inr, true, ◌||◌, none, some, List, [], ◌∷◌, arith, Option-cases, Bool-cases,
}
use my_safe.Prelude.Int.{ℤ}
use my_safe.Prelude.Text.{Text, text_eq, text_eq_iff}
use my_safe.Prelude.Dict.{lookup, insert, is_some, lookup-insert, lookup-insert_self}
use my_safe.Domain.{Agent, Event, Heartbeat, Policy, AuditLog}
use my_safe.Store.Contract.{ok, err, conflict}
use my_safe.Store.Memory.{
  Memory, new_memory, create_agent, update_heartbeat, save_events, save_policy_and_audit, seen_now,
  agent_by_id, agent_by_machine_id,
}

-- An agent that is stored carries its own identifier, and the index leads from its machine to it and
-- to nothing else.
pub record IsConsistent (m : Memory) : Type 0 where
  pub indexed :
      (id : Text) (a : Agent)
      → lookup id m.agents ≡ some a
      → (a.id ≡ id) × (lookup a.machine_id m.agent_by_machine ≡ some id)
  pub present :
      (machine id : Text)
      → lookup machine m.agent_by_machine ≡ some id
      → (a : Agent) × (lookup id m.agents ≡ some a) × (a.machine_id ≡ machine)

-- The state after a call that changes the store.
pub data Call : Type 0 where
  create : Agent → Call
  beat : Text → Heartbeat → Call
  save : List Event → Call
  set_policy : Policy → ℤ → AuditLog → Call

abbrev pub run_call : Call → Memory → Memory
run_call (create a) m = (create_agent a m).1
run_call (beat id h) m = (update_heartbeat id h m).1
run_call (save es) m = (save_events es m).1
run_call (set_policy p expected audit) m = (save_policy_and_audit p expected audit m).1

abbrev pub run_calls : List Call → Memory → Memory
run_calls [] m = m
run_calls (c ∷ cs) m = run_calls cs (run_call c m)

-- `CreateAgent` changes nothing, or both keys are free and the agent is entered under both.
create_agent-cases :
    (a : Agent) (m : Memory)
    → ((create_agent a m).1 ≡ m)
      ⊎ ((lookup a.id m.agents ≡ none)
          × (lookup a.machine_id m.agent_by_machine ≡ none)
          × (create_agent a m ≡ (
            ok tt,
            record m {
              agents = insert a.id a m.agents;
              agent_by_machine = insert a.machine_id a.id m.agent_by_machine;
            },
          )))
unfolding create_agent
create_agent-cases a m = elim (Option-cases (lookup a.id m.agents)) [
  | inr (b, used) ↦ inl (rw used)
  | inl free ↦ elim (Option-cases (lookup a.machine_id m.agent_by_machine)) [
    | inr (b, used) ↦ inl (rw (free, used))
    | inl free' ↦ inr (free, free', rw (free, free'))
  ]
]

module _ (a : Agent) (m : Memory) (h : IsConsistent m) where
  entered-IsConsistent :
      lookup a.id m.agents ≡ none
      → lookup a.machine_id m.agent_by_machine ≡ none
      → IsConsistent (record m {
        agents = insert a.id a m.agents;
        agent_by_machine = insert a.machine_id a.id m.agent_by_machine;
      })
  entered-IsConsistent free free' = record {
    indexed = λ id b e. ground (
      arith,
      lookup-insert a.id id a m.agents,
      lookup-insert a.machine_id b.machine_id a.id m.agent_by_machine,
      text_eq_iff a.id id,
      text_eq_iff a.machine_id b.machine_id,
      h.indexed id b,
    );
    present = λ machine id e. elim (Bool-cases (text_eq a.machine_id machine)) [
      | inl y ↦ (
        a,
        ground (
          arith,
          lookup-insert a.id id a m.agents,
          lookup-insert a.machine_id machine a.id m.agent_by_machine,
          text_eq_iff a.id id,
        ),
        (text_eq_iff a.machine_id machine).0 y,
      )
      | inr n ↦
          let old : lookup machine m.agent_by_machine ≡ some id =
            ground (arith, lookup-insert a.machine_id machine a.id m.agent_by_machine) in
          let (b, there, same) = h.present machine id old in
          (b, ground (arith, lookup-insert a.id id a m.agents, text_eq_iff a.id id), same)
    ];
  }

  create-IsConsistent : IsConsistent (create_agent a m).1
  create-IsConsistent = elim (create_agent-cases a m) [
    | inl same ↦ rw same h
    | inr (free, free', e) ↦ rw e (entered-IsConsistent free free')
  ]

beaten-IsConsistent :
    (id : Text) (b : Heartbeat) (a : Agent) (m : Memory)
    → IsConsistent m
    → lookup id m.agents ≡ some a
    → IsConsistent (record m { agents = insert id (seen_now b a) m.agents })
beaten-IsConsistent id b a m h found = record {
  indexed = λ j c e. ground (
    arith,
    lookup-insert id j (seen_now b a) m.agents,
    text_eq_iff id j,
    h.indexed j c,
    h.indexed id a,
  );
  present = λ machine j e.
      let (c, there, same) = h.present machine j e in
      elim (Bool-cases (text_eq id j)) [
        | inl y ↦
            let hit = (text_eq_iff id j).0 y in
            (seen_now b a, ground (arith, lookup-insert id j (seen_now b a) m.agents), ground arith)
        | inr n ↦ (c, ground (arith, lookup-insert id j (seen_now b a) m.agents), same)
      ];
}

beat-IsConsistent :
    (id : Text) (b : Heartbeat) (m : Memory)
    → IsConsistent m
    → IsConsistent (update_heartbeat id b m).1
unfolding update_heartbeat
beat-IsConsistent id b m h = elim (Option-cases (lookup id m.agents)) [
  | inl missing ↦ rw (missing, update_heartbeat) h
  | inr (a, found) ↦ rw (found, update_heartbeat) (beaten-IsConsistent id b a m h found)
]

policy_unrelated :
    (p : Policy) (e : ℤ) (l : AuditLog) (m : Memory)
    → ((save_policy_and_audit p e l m).1.agents ≡ m.agents)
      × ((save_policy_and_audit p e l m).1.agent_by_machine ≡ m.agent_by_machine)
unfolding save_policy_and_audit
policy_unrelated p e l m = ground arith

run_call-IsConsistent : (c : Call) (m : Memory) → IsConsistent m → IsConsistent (run_call c m)
run_call-IsConsistent (create a) m h = create-IsConsistent a m h
run_call-IsConsistent (beat id b) m h = beat-IsConsistent id b m h
run_call-IsConsistent (save es) m h =
    unfold save_events in record { indexed = h.indexed; present = h.present }
run_call-IsConsistent (set_policy p e l) m h = record {
  indexed = rw (policy_unrelated p e l m).0 (rw (policy_unrelated p e l m).1 h.indexed);
  present = rw (policy_unrelated p e l m).0 (rw (policy_unrelated p e l m).1 h.present);
}

run_calls_from-IsConsistent :
    (cs : List Call) (m : Memory) → IsConsistent m → IsConsistent (run_calls cs m)
run_calls_from-IsConsistent [] m h = h
run_calls_from-IsConsistent (c ∷ cs) m h =
    run_calls_from-IsConsistent cs (run_call c m) (run_call-IsConsistent c m h)

new_memory-IsConsistent : IsConsistent new_memory
unfolding lookup
new_memory-IsConsistent = record {
  indexed = λ id a e. absurd (cc e);
  present = λ k id e. absurd (cc e);
}

-- After any calls on an empty store, each agent is stored under its own identifier, its machine is
-- indexed to it, and each indexed machine is that of a stored agent.
pub run_calls-IsConsistent : (cs : List Call) → IsConsistent (run_calls cs new_memory)
run_calls-IsConsistent cs = run_calls_from-IsConsistent cs new_memory new_memory-IsConsistent

-- `CreateAgent` refuses exactly when the identifier or the machine is taken, and then changes
-- nothing; else the agent is found by its identifier and by its machine.
pub create_agent_lem :
    (a : Agent) (m : Memory)
    → ((create_agent a m ≡ (err conflict, m))
        × ((is_some (lookup a.id m.agents) || is_some (lookup a.machine_id m.agent_by_machine))
            ≡ true))
      ⊎ ((lookup a.id m.agents ≡ none)
          × (lookup a.machine_id m.agent_by_machine ≡ none)
          × ((create_agent a m).0 ≡ ok tt)
          × (agent_by_id a.id (create_agent a m).1 ≡ ok a)
          × (agent_by_machine_id a.machine_id (create_agent a m).1 ≡ ok a))
unfolding create_agent agent_by_id agent_by_machine_id
create_agent_lem a m = elim (Option-cases (lookup a.id m.agents)) [
  | inr (b, used) ↦ inl (rw used refl, rw used refl)
  | inl free ↦ elim (Option-cases (lookup a.machine_id m.agent_by_machine)) [
    | inr (b, used) ↦ inl (rw (free, used) refl, rw (free, used) refl)
    | inl free' ↦ inr (
      free,
      free',
      rw (free, free') refl,
      ground (arith, lookup-insert_self a.id a m.agents),
      ground (
        arith,
        lookup-insert_self a.id a m.agents,
        lookup-insert_self a.machine_id a.id m.agent_by_machine,
      ),
    )
  ]
]
