-- ===== src/Agent/Policy/Refresh.antt =====
-- The refresh of the policy of an Agent: its revision never goes back.
use my_safe.Prelude.{
  ◌≡◌, refl, inl, inr, true, false, Option, none, some, List, [], ◌∷◌, arith, Bool-cases,
}
use my_safe.Prelude.Int.{ℤ, ltb_ℤ}
use my_safe.Prelude.Text.{Text}
use my_safe.Domain.{Policy}
use my_safe.Agent.Policy.{
  PolicyFile, PolicyCodec, PolicyFailure, stale, Got, failed, nothing, got, Answer, SaveOutcome,
  load_policy, save_policy, fetch_policy, keep_newer, refresh_with, refresh,
}
use my_safe.Agent.Policy.Saved.{
  IsFaithful, IsReceived, fetch_policy-IsReceived, Saved, save_policy-Saved,
}

ltb_ℤ_irrefl : (a : ℤ) → ltb_ℤ a a ≡ false
ltb_ℤ_irrefl a = ground arith

ltb_ℤ_asym : (a b : ℤ) → ltb_ℤ a b ≡ true → ltb_ℤ b a ≡ false
ltb_ℤ_asym a b h = ground arith

not_below : (a b c : ℤ) → ltb_ℤ b a ≡ false → ltb_ℤ c b ≡ false → ltb_ℤ c a ≡ false
not_below a b c h k = ground arith

module _ (codec : PolicyCodec) (faithful : IsFaithful codec) (agent_id : Text) where
  -- From a file that loads as `q`, the file loads as a policy of no smaller revision.
  abbrev Keeps : PolicyFile → Option PolicyFailure × PolicyFile → Type 0
  Keeps file r =
      (q : Policy)
      → load_policy codec agent_id file ≡ got q
      → (q' : Policy) × (load_policy codec agent_id r.1 ≡ got q')
        × (ltb_ℤ q'.revision q.revision ≡ false)

  Keeps-same : (file : PolicyFile) (e : Option PolicyFailure) → Keeps file (e, file)
  Keeps-same file e q h = (q, h, ltb_ℤ_irrefl q.revision)

  Saved-Keeps :
      (p : Policy) (file : PolicyFile) (r : Option PolicyFailure × PolicyFile)
      → Saved codec faithful agent_id p file r
      → ((q : Policy)
          → load_policy codec agent_id file ≡ got q
          → ltb_ℤ p.revision q.revision ≡ false)
      → Keeps file r
  Saved-Keeps p file r (inl (same, _)) newer q h = (q, rw same h, ltb_ℤ_irrefl q.revision)
  Saved-Keeps p file r (inr (_, loads)) newer q h = (p, loads, newer q h)

  keep_newer-Keeps :
      (o : SaveOutcome) (p : Policy) (x : Got) (file : PolicyFile)
      → IsReceived codec agent_id p
      → load_policy codec agent_id file ≡ x
      → Keeps file (keep_newer codec o p x file)
  unfolding keep_newer
  keep_newer-Keeps o p (failed e) file received' h = Keeps-same file (some e)
  keep_newer-Keeps o p nothing file received' h = λ q there. absurd (cc (h, there))
  keep_newer-Keeps o p (got local) file received' h =
      elim (Bool-cases (ltb_ℤ local.revision p.revision)) [
        | inl older ↦ rw older (
            Saved-Keeps p file (save_policy codec o p file)
              (save_policy-Saved codec faithful agent_id o p file received')
              (λ q there.
                let same : local ≡ q = cc (h, there) in
                rw (← same) (ltb_ℤ_asym local.revision p.revision older)))
        | inr not_older ↦ elim (Bool-cases (ltb_ℤ p.revision local.revision)) [
          | inl newer ↦ rw (not_older, newer) (Keeps-same file (some stale))
          | inr not_newer ↦ rw (not_older, not_newer) (Keeps-same file none)
        ]
      ]

  refresh_with-Keeps :
      (o : SaveOutcome) (x : Got) (file : PolicyFile)
      → ((p : Policy) → x ≡ got p → IsReceived codec agent_id p)
      → Keeps file (refresh_with codec o agent_id x file)
  unfolding refresh_with
  refresh_with-Keeps o (failed e) file h = Keeps-same file (some e)
  refresh_with-Keeps o nothing file h = Keeps-same file none
  refresh_with-Keeps o (got p) file h =
      keep_newer-Keeps o p (load_policy codec agent_id file) file (h p refl) refl

  -- The cycles of an Agent: what each one's save and answer come to.
  abbrev pub refreshes : List (SaveOutcome × Option Answer) → PolicyFile → PolicyFile
  refreshes [] file = file
  refreshes ((o, answer) ∷ cycles) file =
      refreshes cycles (refresh codec o true agent_id answer file).1

  -- Whatever the control plane answers over any number of cycles, and whichever saves fail, a policy
  -- that could be loaded at first is never lost, nor replaced by one of a smaller revision. A policy
  -- that was decoded survives encoding and decoding.
  pub refreshes_keep :
      (cycles : List (SaveOutcome × Option Answer)) (file : PolicyFile) (q : Policy)
      → load_policy codec agent_id file ≡ got q
      → (q' : Policy) × (load_policy codec agent_id (refreshes cycles file) ≡ got q')
        × (ltb_ℤ q'.revision q.revision ≡ false)
  unfolding refresh
  refreshes_keep [] file q h = (q, h, ltb_ℤ_irrefl q.revision)
  refreshes_keep ((o, answer) ∷ cycles) file q h =
      let (q', loads, newer) =
        refresh_with-Keeps o (fetch_policy codec true agent_id answer) file
          (fetch_policy-IsReceived codec faithful agent_id true answer) q h in
      let (q'', loads', newer') =
        refreshes_keep cycles (refresh codec o true agent_id answer file).1 q' loads in
      (q'', loads', not_below q.revision q'.revision q''.revision newer newer')

  abbrev Current : Policy → Option PolicyFailure × PolicyFile → Type 0
  Current p r =
      (q : Policy) × (load_policy codec agent_id r.1 ≡ got q)
      × (ltb_ℤ q.revision p.revision ≡ false)
      × (ltb_ℤ p.revision q.revision ≡ false)

  Saved-Current :
      (p : Policy) (file : PolicyFile) (r : Option PolicyFailure × PolicyFile)
      → Saved codec faithful agent_id p file r
      → r.0 ≡ none
      → Current p r
  Saved-Current p file r (inl (_, error)) fine = absurd (error fine)
  Saved-Current p file r (inr (_, loads)) fine =
      (p, loads, ltb_ℤ_irrefl p.revision, ltb_ℤ_irrefl p.revision)

  keep_newer-Current :
      (o : SaveOutcome) (p : Policy) (x : Got) (file : PolicyFile)
      → IsReceived codec agent_id p
      → load_policy codec agent_id file ≡ x
      → (keep_newer codec o p x file).0 ≡ none
      → Current p (keep_newer codec o p x file)
  unfolding keep_newer
  keep_newer-Current o p (failed e) file received' h fine = absurd (cc fine)
  keep_newer-Current o p nothing file received' h fine =
      Saved-Current p file (save_policy codec o p file)
        (save_policy-Saved codec faithful agent_id o p file received') fine
  keep_newer-Current o p (got local) file received' h fine =
      elim (Bool-cases (ltb_ℤ local.revision p.revision)) [
        | inl older ↦ rw older (
            Saved-Current p file (save_policy codec o p file)
              (save_policy-Saved codec faithful agent_id o p file received') (rw older at fine))
        | inr not_older ↦ elim (Bool-cases (ltb_ℤ p.revision local.revision)) [
          | inl newer ↦ absurd (cc (rw (not_older, newer) at fine))
          | inr not_newer ↦ rw (not_older, not_newer) (local, h, not_older, not_newer)
        ]
      ]

  -- A refresh that fetches a policy and reports no error leaves a policy of the fetched revision.
  pub refresh_current :
      (o : SaveOutcome) (answer : Option Answer) (file : PolicyFile) (p : Policy)
      → fetch_policy codec true agent_id answer ≡ got p
      → (refresh codec o true agent_id answer file).0 ≡ none
      → (q : Policy) × (load_policy codec agent_id (refresh codec o true agent_id answer file).1
          ≡ got q)
        × (ltb_ℤ q.revision p.revision ≡ false)
        × (ltb_ℤ p.revision q.revision ≡ false)
  unfolding refresh refresh_with
  refresh_current o answer file p fetched fine =
      let it : IsReceived codec agent_id p =
        fetch_policy-IsReceived codec faithful agent_id true answer p fetched in
      rw fetched
        (keep_newer-Current o p (load_policy codec agent_id file) file it refl (rw fetched at fine))
