-- ===== src/Agent/Policy/Saved.antt =====
-- The stored policy of an Agent: what is saved is loaded again.
use my_safe.Prelude.{
  ◌≡◌, ◌≢◌, refl, ◌⊎◌, inl, inr, Bool, true, false, Option, none, some, [], ◌∷◌, ◌++◌, arith,
  length, length-append, ltb, ◌==◌, Bool-cases, Option-cases,
}
use mathlib.Core.Path.{subst}
use my_safe.Prelude.Text.{Text, text_eq}
use my_safe.Domain.{Policy}
use my_safe.Domain.Validate.{validate_policy}
use my_safe.Agent.Policy.{
  PolicyFile, regular, PolicyCodec, PolicyFailure, got, Answer, SaveOutcome, max_policy_bytes,
  checked_policy, load_policy, save_encoded, save_policy, fetch_policy, answered,
}

-- A decoded policy is valid text, so that encoding it with a newline and decoding it gives it back.
abbrev pub IsFaithful : PolicyCodec → Type 0
IsFaithful codec =
    (content t : Text) (p : Policy)
    → codec.decode content ≡ some p
    → codec.encode p ≡ some t
    → codec.decode (t ++ 10 ∷ []) ≡ some p

checked_policy-got :
    (agent_id : Text) (o : Option Policy) (p : Policy)
    → checked_policy agent_id o ≡ got p
    → (o ≡ some p) × (text_eq p.agent_id agent_id ≡ true) × (validate_policy p ≡ none)
unfolding checked_policy
checked_policy-got agent_id none p h = absurd (cc h)
checked_policy-got agent_id (some q) p h = elim (Bool-cases (text_eq q.agent_id agent_id)) [
  | inr other ↦ absurd (cc (rw other at h))
  | inl own ↦ elim (Option-cases (validate_policy q)) [
    | inr (e, bad) ↦ absurd (cc (rw (own, bad) at h))
    | inl good ↦
        let e : q ≡ p = cc (rw (own, good) at h) in
        subst
          (λ (x : Policy).
            (some q ≡ some x) × (text_eq x.agent_id agent_id ≡ true) × (validate_policy x ≡ none))
          e (refl, own, good)
  ]
]

-- A policy that was decoded, is of this Agent and is valid.
pub record IsReceived (codec : PolicyCodec) (agent_id : Text) (p : Policy) : Type 0 where
  pub content : Text
  pub decoded : codec.decode content ≡ some p
  pub own : text_eq p.agent_id agent_id ≡ true
  pub valid : validate_policy p ≡ none

module _ (codec : PolicyCodec) (faithful : IsFaithful codec) (agent_id : Text) where
  received :
      (content : Text) (p : Policy)
      → checked_policy agent_id (codec.decode content) ≡ got p
      → IsReceived codec agent_id p
  received content p h =
      let (decoded, own, valid) = checked_policy-got agent_id (codec.decode content) p h in
      record { content = content; decoded = decoded; own = own; valid = valid }

  answered-IsReceived :
      (a : Option Answer) (p : Policy)
      → answered codec agent_id a ≡ got p
      → IsReceived codec agent_id p
  unfolding answered
  answered-IsReceived none p h = absurd (cc h)
  answered-IsReceived (some a) p h = received a.content p (ground arith)

  pub fetch_policy-IsReceived :
      (registered : Bool) (a : Option Answer) (p : Policy)
      → fetch_policy codec registered agent_id a ≡ got p
      → IsReceived codec agent_id p
  unfolding fetch_policy
  fetch_policy-IsReceived true a p h = answered-IsReceived a p h
  fetch_policy-IsReceived false a p h = absurd (cc h)

  -- A content that the codec gives back is loaded.
  load_policy-regular :
      (content : Text) (p : Policy)
      → (length content == 0) ≡ false
      → ltb max_policy_bytes (length content) ≡ false
      → codec.decode content ≡ some p
      → text_eq p.agent_id agent_id ≡ true
      → validate_policy p ≡ none
      → load_policy codec agent_id (regular content) ≡ got p
  unfolding load_policy checked_policy
  load_policy-regular content p some_text small decoded own valid =
      rw (some_text, small, decoded, own, valid) refl

  -- Saving fails and leaves the file, or the policy is what is loaded from then on.
  abbrev pub Saved : Policy → PolicyFile → Option PolicyFailure × PolicyFile → Type 0
  Saved p file r =
      ((r.1 ≡ file) × (r.0 ≢ none)) ⊎ ((r.0 ≡ none) × (load_policy codec agent_id r.1 ≡ got p))

  save_encoded-Saved :
      (o : SaveOutcome) (p : Policy) (file : PolicyFile) (t : Option Text)
      → IsReceived codec agent_id p
      → codec.encode p ≡ t
      → Saved p file (save_encoded codec o t file)
  unfolding save_encoded
  save_encoded-Saved o p file none received' e = inl (refl, λ h. cc)
  save_encoded-Saved o p file (some t) received' e =
      elim (Bool-cases (ltb max_policy_bytes (length (t ++ 10 ∷ [])))) [
        | inl large ↦ inl (rw large (refl, λ h. cc))
        | inr small ↦ elim (Bool-cases o.persisted) [
          | inr lost ↦ inl (rw (small, lost) (refl, λ h. cc))
          | inl kept ↦ inr (
            rw (small, kept) refl,
            rw (small, kept)
                (load_policy-regular (t ++ 10 ∷ []) p (ground (arith, length-append t (10 ∷ [])))
                  small (faithful received'.content t p received'.decoded e) received'.own
                  received'.valid),
          )
        ]
      ]

  pub save_policy-Saved :
      (o : SaveOutcome) (p : Policy) (file : PolicyFile)
      → IsReceived codec agent_id p
      → Saved p file (save_policy codec o p file)
  unfolding save_policy
  save_policy-Saved o p file received' = elim (Bool-cases o.directory) [
    | inr absent ↦ rw (received'.valid, absent, save_policy) (inl (refl, λ h. cc))
    | inl there ↦
        rw (received'.valid, there, save_policy)
          (save_encoded-Saved o p file (codec.encode p) received' refl)
  ]
