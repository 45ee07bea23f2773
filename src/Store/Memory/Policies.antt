-- ===== src/Store/Memory/Policies.antt =====
-- Optimistic concurrency of policies in internal/store/memory.go.
use my_safe.Prelude.{
  zero, suc, ◌≡◌, refl, ◌⊎◌, inl, inr, false, Option, none, some, arith, Option-cases, Bool-cases,
}
use my_safe.Prelude.Int.{ℤ, pos, negsuc, eq_ℤ, eq_ℤ→≡, inc_int64}
use my_safe.Prelude.Text.{Text, text_eq}
use my_safe.Prelude.Dict.{lookup, insert, lookup-insert, lookup-insert_self}
use my_safe.Domain.{Policy, AuditLog}
use my_safe.Store.Contract.{ok, err, conflict}
use my_safe.Store.Memory.Clone.{clone_map, clone_map-same}
use my_safe.Store.Memory.{Memory, revision_conflict, save_policy_and_audit, policy_for_agent}

-- The revision that a writer has to name: 0 where there is no policy yet.
abbrev pub current_revision : Option Policy → ℤ
current_revision none = pos 0
current_revision (some p) = p.revision

-- What a successful write has checked, and what it leaves: the policy, under its agent and nowhere
-- else, and beside it the audit record, under a new identifier.
pub record IsWritten (p : Policy) (expected : ℤ) (log : AuditLog) (m m' : Memory) : Type 0 where
  pub matched : current_revision (lookup p.agent_id m.policies) ≡ expected
  pub next : p.revision ≡ inc_int64 expected
  pub fresh : lookup log.id m.audits ≡ none
  pub read_back : policy_for_agent p.agent_id m' ≡ ok p
  pub others :
      (id : Text) → text_eq p.agent_id id ≡ false → policy_for_agent id m' ≡ policy_for_agent id m
  pub audited : lookup log.id m'.audits ≡ some log

revision_conflict-false :
    (o : Option Policy) (p : Policy) (expected : ℤ)
    → revision_conflict o p expected ≡ false
    → (current_revision o ≡ expected) × (p.revision ≡ inc_int64 expected)
unfolding revision_conflict
revision_conflict-false none p expected h =
    ground (arith, eq_ℤ→≡ expected (pos 0), eq_ℤ→≡ p.revision (inc_int64 expected))
revision_conflict-false (some c) p expected h =
    ground (arith, eq_ℤ→≡ c.revision expected, eq_ℤ→≡ p.revision (inc_int64 expected))

inc_int64-ne : (n : ℤ) → eq_ℤ (inc_int64 n) n ≡ false
inc_int64-ne (pos n) = ground arith
inc_int64-ne (negsuc zero) = refl
inc_int64-ne (negsuc (suc n)) = ground arith

-- A write that names `expected` over a policy whose revision is the next one is refused.
stale_refused :
    (q : Policy) (log : AuditLog) (m : Memory) (p : Policy) (expected : ℤ)
    → policy_for_agent p.agent_id m ≡ ok p
    → p.revision ≡ inc_int64 expected
    → q.agent_id ≡ p.agent_id
    → save_policy_and_audit q expected log m ≡ (err conflict, m)
unfolding policy_for_agent save_policy_and_audit
stale_refused q log m p expected there next same =
    elim (Option-cases (lookup p.agent_id m.policies)) [
      | inl missing ↦ absurd (cc (rw missing at there))
      | inr (c, found) ↦
          let e : c ≡ p = ground arith in rw (same, found, e, next, inc_int64-ne expected) refl
    ]

module _ (p : Policy) (expected : ℤ) (log : AuditLog) (m : Memory) where
  -- The state that a successful write leaves.
  abbrev written : Memory
  written = record m {
    policies = insert p.agent_id p m.policies;
    audits = insert log.id (record log { details = clone_map log.details }) m.audits;
  }

  written-IsWritten :
      revision_conflict (lookup p.agent_id m.policies) p expected ≡ false
      → lookup log.id m.audits ≡ none
      → IsWritten p expected log m written
  unfolding policy_for_agent
  written-IsWritten agree free =
      let (matched, next) =
        revision_conflict-false (lookup p.agent_id m.policies) p expected agree in
      record {
        matched = matched;
        next = next;
        fresh = free;
        read_back = rw lookup-insert_self refl;
        others = λ id n. rw (lookup-insert, n) refl;
        audited = rw (lookup-insert_self, clone_map-same) refl;
      }

  -- `SavePolicyAndAudit` refuses with a conflict and changes nothing, or it has checked the revision
  -- that the writer read and has written both the policy and the audit record.
  pub save_policy_and_audit_lem :
      (save_policy_and_audit p expected log m ≡ (err conflict, m))
      ⊎ (((save_policy_and_audit p expected log m).0 ≡ ok tt)
          × IsWritten p expected log m (save_policy_and_audit p expected log m).1)
  unfolding save_policy_and_audit
  save_policy_and_audit_lem =
      elim (Bool-cases (revision_conflict (lookup p.agent_id m.policies) p expected)) [
        | inl clash ↦ inl (rw clash refl)
        | inr agree ↦ elim (Option-cases (lookup log.id m.audits)) [
          | inr (l, used) ↦ inl (rw (agree, used) refl)
          | inl free ↦ inr (rw (agree, free) refl, rw (agree, free) (written-IsWritten agree free))
        ]
      ]

  -- Of two writers that read the same revision only the first succeeds: whatever the second one writes
  -- for that agent is refused with a conflict, and changes nothing.
  pub second_writer_conflicts :
      (q : Policy) (log' : AuditLog)
      → (save_policy_and_audit p expected log m).0 ≡ ok tt
      → q.agent_id ≡ p.agent_id
      → let m' = (save_policy_and_audit p expected log m).1 in
        save_policy_and_audit q expected log' m' ≡ (err conflict, m')
  second_writer_conflicts q log' first same = elim save_policy_and_audit_lem [
    | inl refused ↦ absurd (cc (first, refused))
    | inr (_, w) ↦
        stale_refused q log' (save_policy_and_audit p expected log m).1 p expected w.read_back
          w.next same
  ]
