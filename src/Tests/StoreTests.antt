-- ===== src/Tests/StoreTests.antt =====
-- The repository in memory at concrete inputs.
use my_safe.Prelude.{ℕ, ◌+◌, ◌≡◌, ◌≤◌, refl, true, ◌⊎◌, none, some, [], ◌∷◌, All, length, ◌||◌}
use my_safe.Prelude.Text.{Text, codes, text_eq}
use my_safe.Prelude.Int.{pos}
use my_safe.Prelude.Dict.{lookup, is_some, insert}
use my_safe.Domain.{Event}
use my_safe.Store.Contract.{ok, err, conflict}
use my_safe.Store.Listing.{listing, normalize_limit, listing-newest, normalize_limit_bounds}
use my_safe.Store.Memory.{
  new_memory, save_events, save_policy_and_audit, create_agent, agent_by_id, agent_by_machine_id,
}
use my_safe.Store.Memory.Clone.{clone_map}
use my_safe.Store.Memory.Agents.{
  IsConsistent, create, beat, run_calls, run_calls-IsConsistent, create_agent_lem,
}
use my_safe.Store.Memory.Events.{save_events_idem, save_events-adds, save_events-only}
use my_safe.Store.Memory.Policies.{IsWritten, save_policy_and_audit_lem, second_writer_conflicts}
use my_safe.Tests.Fixtures.{web_agent, login, first_policy, log_of, one_agent}

normalize_limit_bounds_example : (1 ≤ normalize_limit (pos 900)) × (normalize_limit (pos 900) ≤ 500)
normalize_limit_bounds_example = normalize_limit_bounds (pos 900)

listing-newest_example : length (listing (λ (n : ℕ). n) (pos 2) (3 ∷ 9 ∷ 5 ∷ [])) ≤ 500
listing-newest_example = (listing-newest (λ (n : ℕ). n) (pos 2) (3 ∷ 9 ∷ 5 ∷ [])).0

run_calls-IsConsistent_example : IsConsistent (
    run_calls
      (create web_agent
        ∷ beat
            (codes "agt_1")
            (record { agent_version = codes "1.1"; queue_depth = pos 0; sent_at = 8 })
        ∷ [])
      new_memory)
run_calls-IsConsistent_example = run_calls-IsConsistent (
    create web_agent
    ∷ beat (codes "agt_1")
        (record { agent_version = codes "1.1"; queue_depth = pos 0; sent_at = 8 })
    ∷ [])

create_agent_lem_example :
    ((create_agent web_agent one_agent ≡ (err conflict, one_agent))
      × ((is_some (lookup (codes "agt_1") one_agent.agents)
            || is_some (lookup (codes "m1") one_agent.agent_by_machine))
          ≡ true))
    ⊎ ((lookup (codes "agt_1") one_agent.agents ≡ none)
        × (lookup (codes "m1") one_agent.agent_by_machine ≡ none)
        × ((create_agent web_agent one_agent).0 ≡ ok tt)
        × (agent_by_id (codes "agt_1") (create_agent web_agent one_agent).1 ≡ ok web_agent)
        × (agent_by_machine_id (codes "m1") (create_agent web_agent one_agent).1 ≡ ok web_agent))
create_agent_lem_example = create_agent_lem web_agent one_agent

save_events_idem_example :
    save_events (login ∷ login ∷ []) (save_events (login ∷ login ∷ []) one_agent).1
    ≡ (ok 0, (save_events (login ∷ login ∷ []) one_agent).1)
save_events_idem_example = save_events_idem (login ∷ login ∷ []) one_agent

save_events-adds_example :
    let after = save_events (login ∷ login ∷ []) one_agent in
    (k : ℕ) × (after.0 ≡ ok k)
    × (length after.1.events ≡ length one_agent.events + k)
    × (k ≤ 2)
    × ((id : Text) (e : Event)
        → lookup id one_agent.events ≡ some e
        → lookup id after.1.events ≡ some e)
    × All (λ e. (x : Event) × (lookup e.id after.1.events ≡ some x)) (login ∷ login ∷ [])
save_events-adds_example = save_events-adds (login ∷ login ∷ []) one_agent

login_found : lookup (codes "e1") (save_events (login ∷ []) one_agent).1.events ≡ some login
unfolding save_events lookup insert text_eq clone_map
login_found = refl

save_events-only_example :
    (lookup (codes "e1") one_agent.events ≡ some login)
    ⊎ ((login.summary ≡ codes "brute force") × (login.id ≡ codes "e1"))
save_events-only_example =
    save_events-only (λ (e : Event). e.summary ≡ codes "brute force") (login ∷ []) one_agent
      (refl, tt) (codes "e1") login login_found

save_policy_and_audit_lem_example :
    (save_policy_and_audit first_policy (pos 0) (log_of (codes "aud_1")) one_agent
      ≡ (err conflict, one_agent))
    ⊎ (((save_policy_and_audit first_policy (pos 0) (log_of (codes "aud_1")) one_agent).0 ≡ ok tt)
        × IsWritten first_policy
            (pos 0)
            (log_of (codes "aud_1"))
            one_agent
            (save_policy_and_audit first_policy (pos 0) (log_of (codes "aud_1")) one_agent).1)
save_policy_and_audit_lem_example =
    save_policy_and_audit_lem first_policy (pos 0) (log_of (codes "aud_1")) one_agent

first_write :
    (save_policy_and_audit first_policy (pos 0) (log_of (codes "aud_1")) one_agent).0 ≡ ok tt
unfolding save_policy_and_audit lookup
first_write = refl

second_writer_conflicts_example :
    save_policy_and_audit first_policy
      (pos 0)
      (log_of (codes "aud_2"))
      (save_policy_and_audit first_policy (pos 0) (log_of (codes "aud_1")) one_agent).1
    ≡ (
      err conflict,
      (save_policy_and_audit first_policy (pos 0) (log_of (codes "aud_1")) one_agent).1,
    )
second_writer_conflicts_example =
    second_writer_conflicts first_policy (pos 0) (log_of (codes "aud_1")) one_agent first_policy
      (log_of (codes "aud_2")) first_write refl
