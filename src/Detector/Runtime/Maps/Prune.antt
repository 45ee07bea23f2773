-- ===== src/Detector/Runtime/Maps/Prune.antt =====
-- `pruneKnown` of internal/detector/runtimewatch/runtimewatch.go keeps what runs, and its limit.
use my_safe.Prelude.{
  ℕ, ◌≤◌, ◌≡◌, refl, sym, ◌⊎◌, inl, inr, true, none, some, List, [], ◌∷◌, arith, All, length, leb,
  leb→le, Bool-cases, Option-cases,
}
use my_safe.Prelude.Text.{Text, text_eq, text_eq_iff}
use my_safe.Prelude.Dict.{Dict, lookup, erase, is_some, lookup-erase}
use my_safe.Prelude.Maps.{IsMap, IsMap-erase, length-le_keys, All-erase}
use my_safe.Detector.Runtime.{ProcessEntry}
use my_safe.Detector.Runtime.Maps.{
  Candidate, unseen_longer, insert_candidate, candidates_of, drop_candidates, prune_known,
}

-- The identity is one of the candidates.
Among : Text → List Candidate → Type 0
Among k [] = ⊥
Among k (c ∷ cs) = (k ≡ c.0) ⊎ Among k cs

insert_candidate-Among :
    (k : Text) (c : Candidate) (cs : List Candidate)
    → (k ≡ c.0) ⊎ Among k cs
    → Among k (insert_candidate c cs)
unfolding insert_candidate Among
insert_candidate-Among k c [] h = h
insert_candidate-Among k c (d ∷ ds) h = elim (Bool-cases (unseen_longer d c)) [
  | inr here ↦ rw (here, insert_candidate) h
  | inl later ↦
      rw (later, insert_candidate)
        (elim h [
          | inl it ↦ inr (insert_candidate-Among k c ds (inl it))
          | inr (inl first) ↦ inl first
          | inr (inr rest) ↦ inr (insert_candidate-Among k c ds (inr rest))
        ])
]

module _ (current : Dict ProcessEntry) where
  abbrev Idle : Candidate → Type 0
  Idle c = lookup c.0 current ≡ none

  insert_candidate-Idle :
      (c : Candidate) (cs : List Candidate)
      → Idle c
      → All Idle cs
      → All Idle (insert_candidate c cs)
  unfolding insert_candidate
  insert_candidate-Idle c [] h all = (h, tt)
  insert_candidate-Idle c (d ∷ ds) h all = elim (Bool-cases (unseen_longer d c)) [
    | inr here ↦ rw (here, insert_candidate) (h, all)
    | inl later ↦ rw (later, insert_candidate) (all.0, insert_candidate-Idle c ds h all.1)
  ]

  candidates_of-Idle : (known : Dict ProcessEntry) → All Idle (candidates_of current known)
  unfolding candidates_of
  candidates_of-Idle [] = tt
  candidates_of-Idle ((k, p) ∷ known) = elim (Option-cases (lookup k current)) [
    | inl idle ↦ rw idle (
        insert_candidate-Idle (k, p.last_seen) (candidates_of current known) idle
          (candidates_of-Idle known))
    | inr (q, active) ↦ rw active (candidates_of-Idle known)
  ]

  -- What is known is running or a candidate.
  candidates_of-Among :
      (known : Dict ProcessEntry) (k : Text)
      → is_some (lookup k known) ≡ true
      → (is_some (lookup k current) ≡ true) ⊎ Among k (candidates_of current known)
  unfolding candidates_of lookup
  candidates_of-Among [] k h = absurd (cc h)
  candidates_of-Among ((j, p) ∷ known) k h = elim (Option-cases (lookup j current)) [
    | inl idle ↦ rw idle (elim (Bool-cases (text_eq j k)) [
      | inl it ↦ inr (
          insert_candidate-Among k (j, p.last_seen) (candidates_of current known)
            (inl (sym ((text_eq_iff j k).0 it))))
      | inr away ↦ elim (candidates_of-Among known k (rw away at h)) [
        | inl active ↦ inl active
        | inr rest ↦
            inr (insert_candidate-Among k (j, p.last_seen) (candidates_of current known) (inr rest))
      ]
    ])
    | inr (q, active) ↦ rw active (elim (Bool-cases (text_eq j k)) [
      | inl it ↦ inl (rw⁻¹ ((text_eq_iff j k).0 it) (rw active refl))
      | inr away ↦ candidates_of-Among known k (rw away at h)
    ])
  ]

  drop_candidates-lookup :
      (limit : ℕ) (k : Text) (q : ProcessEntry) (cs : List Candidate) (known : Dict ProcessEntry)
      → lookup k current ≡ some q
      → All Idle cs
      → lookup k (drop_candidates limit cs known) ≡ lookup k known
  unfolding drop_candidates
  drop_candidates-lookup limit k q [] known active idle = refl
  drop_candidates-lookup limit k q ((j, n) ∷ cs) known active idle =
      elim (Bool-cases (leb (length known) limit)) [
        | inl few ↦ rw few refl
        | inr many ↦ elim (Bool-cases (text_eq j k)) [
          | inl it ↦ absurd (cc (active, idle.0, (text_eq_iff j k).0 it))
          | inr away ↦
              rw
                (
                  many,
                  drop_candidates-lookup limit k q cs (erase j known) active idle.1,
                  lookup-erase j k known,
                  away,
                )
                refl
        ]
      ]

  drop_candidates-cases :
      (limit : ℕ) (cs : List Candidate) (known : Dict ProcessEntry)
      → ((k : Text)
          → is_some (lookup k known) ≡ true
          → (is_some (lookup k current) ≡ true) ⊎ Among k cs)
      → (length (drop_candidates limit cs known) ≤ limit)
        ⊎ ((k : Text)
            → is_some (lookup k (drop_candidates limit cs known)) ≡ true
            → is_some (lookup k current) ≡ true)
  unfolding drop_candidates Among
  drop_candidates-cases limit [] known h =
      inr (λ k there. elim (h k there) [ inl active ↦ active | inr impossible ↦ absurd impossible ])
  drop_candidates-cases limit ((j, n) ∷ cs) known h = elim (Bool-cases (leb (length known) limit)) [
    | inl few ↦ rw few (inl (leb→le (length known) limit few))
    | inr many ↦ rw many (
        drop_candidates-cases limit cs (erase j known) (λ k there. elim (Bool-cases (text_eq j k)) [
          | inl it ↦ absurd (cc (rw (lookup-erase j k known, it) at there))
          | inr away ↦ elim (h k (rw (lookup-erase j k known, away) at there)) [
            | inl active ↦ inl active
            | inr (inl it) ↦ absurd (cc (away, (text_eq_iff j k).1 (sym it)))
            | inr (inr rest) ↦ inr rest
          ]
        ]))
  ]

  drop_candidates-IsMap :
      (limit : ℕ) (cs : List Candidate) (known : Dict ProcessEntry)
      → IsMap known
      → IsMap (drop_candidates limit cs known)
  unfolding drop_candidates
  drop_candidates-IsMap limit [] known h = h
  drop_candidates-IsMap limit ((j, n) ∷ cs) known h = elim (Bool-cases (leb (length known) limit)) [
    | inl few ↦ rw few h
    | inr many ↦ rw many (drop_candidates-IsMap limit cs (erase j known) (IsMap-erase j known h))
  ]

  -- Pruning keeps every process that runs as it is known, and at most `limit` processes, where no more than that run.
  pub prune_known_lem :
      (limit : ℕ) (known : Dict ProcessEntry)
      → IsMap known
      → length current ≤ limit
      → (length (prune_known limit current known) ≤ limit)
        × ((k : Text) (q : ProcessEntry)
            → lookup k current ≡ some q
            → lookup k (prune_known limit current known) ≡ lookup k known)
  unfolding prune_known
  prune_known_lem limit known is_map few_run = elim (Bool-cases (leb (length known) limit)) [
    | inl few ↦ rw few (leb→le (length known) limit few, λ k q active. refl)
    | inr many ↦
        let cs : List Candidate = candidates_of current known in
        let short : length (drop_candidates limit cs known) ≤ limit =
          elim (drop_candidates-cases limit cs known (candidates_of-Among known)) [
            | inl few ↦ few
            | inr all_active ↦
                let bound =
                  length-le_keys (drop_candidates limit cs known) current
                    (drop_candidates-IsMap limit cs known is_map) all_active in
                omega arith
          ] in
        rw many (
          short,
          λ k q active. drop_candidates-lookup limit k q cs known active (candidates_of-Idle known),
        )
  ]

pub prune_known-IsMap :
    (limit : ℕ) (current known : Dict ProcessEntry)
    → IsMap known
    → IsMap (prune_known limit current known)
unfolding prune_known
prune_known-IsMap limit current known h = elim (Bool-cases (leb (length known) limit)) [
  | inl few ↦ rw few h
  | inr many ↦ rw many (drop_candidates-IsMap current limit (candidates_of current known) known h)
]

drop_candidates-All :
    (P : Text × ProcessEntry → Type 0) (limit : ℕ) (cs : List Candidate) (known : Dict ProcessEntry)
    → All P known
    → All P (drop_candidates limit cs known)
unfolding drop_candidates
drop_candidates-All P limit [] known h = h
drop_candidates-All P limit ((j, n) ∷ cs) known h = elim (Bool-cases (leb (length known) limit)) [
  | inl few ↦ rw few h
  | inr many ↦ rw many (drop_candidates-All P limit cs (erase j known) (All-erase P j known h))
]

pub prune_known-All :
    (P : Text × ProcessEntry → Type 0) (limit : ℕ) (current known : Dict ProcessEntry)
    → All P known
    → All P (prune_known limit current known)
unfolding prune_known
prune_known-All P limit current known h = elim (Bool-cases (leb (length known) limit)) [
  | inl few ↦ rw few h
  | inr many ↦ rw many (drop_candidates-All P limit (candidates_of current known) known h)
]
