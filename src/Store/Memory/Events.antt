-- ===== src/Store/Memory/Events.antt =====
-- `SaveEvents` of internal/store/memory.go is idempotent: the guarantee that every implementation of
-- the repository must give.
use my_safe.Prelude.{
  ℕ, ◌+◌, ◌≤◌, ◌≡◌, refl, ◌⊎◌, inl, inr, none, some, List, [], ◌∷◌, arith, length, All,
  Option-cases, Bool-cases, sym,
}
use mathlib.Core.Path.{subst}
use my_safe.Prelude.Text.{Text, text_eq, text_eq_iff}
use my_safe.Prelude.Dict.{
  Dict, lookup, insert, lookup-insert, lookup-insert_self, length-insert_new,
}
use my_safe.Domain.{Event}
use my_safe.Store.Contract.{ok}
use my_safe.Store.Memory.Clone.{clone_map-same}
use my_safe.Store.Memory.{Memory, save_events, save_events_from, clone_event}

-- An entry stays what it was when another one is added under a new key.
lookup-insert_new {ℓ} :
    {V : Type ℓ} (k j : Text) (v w : V) (m : Dict V)
    → lookup k m ≡ none
    → lookup j m ≡ some w
    → lookup j (insert k v m) ≡ some w
lookup-insert_new k j v w m new old = rw lookup-insert (elim (Bool-cases (text_eq k j)) [
  | inl same ↦ absurd (cc (old, new, (text_eq_iff k j).0 same))
  | inr other ↦ rw other old
])

module _ (n : ℕ) (x : Event) (es : List Event) (s : Dict Event) where
  step_new :
      lookup x.id s ≡ none
      → save_events_from n (x ∷ es) s ≡ save_events_from (n + 1) es (insert x.id (clone_event x) s)
  unfolding save_events_from
  step_new new = rw (new, save_events_from) refl

  step_old :
      (y : Event) → lookup x.id s ≡ some y → save_events_from n (x ∷ es) s ≡ save_events_from n es s
  unfolding save_events_from
  step_old y old = rw (old, save_events_from) refl

after_keeps :
    (n : ℕ) (es : List Event) (s : Dict Event) (id : Text) (e : Event)
    → lookup id s ≡ some e
    → lookup id (save_events_from n es s).1 ≡ some e
unfolding save_events_from
after_keeps n [] s id e h = h
after_keeps n (x ∷ es) s id e h = elim (Option-cases (lookup x.id s)) [
  | inl new ↦
      rw (new, save_events_from)
        (after_keeps (n + 1) es (insert x.id (clone_event x) s) id e
          (lookup-insert_new x.id id (clone_event x) e s new h))
  | inr (y, old) ↦ rw (old, save_events_from) (after_keeps n es s id e h)
]

IsStored : Dict Event → Event → Type 0
IsStored s e = (x : Event) × (lookup e.id s ≡ some x)

after_stores :
    (n : ℕ) (es : List Event) (s : Dict Event) → All (IsStored (save_events_from n es s).1) es
unfolding IsStored
after_stores n [] s = tt
after_stores n (x ∷ es) s = elim (Option-cases (lookup x.id s)) [
  | inl new ↦
      let s' : Dict Event = insert x.id (clone_event x) s in
      subst (λ r. All (IsStored r.1) (x ∷ es)) (sym (step_new n x es s new))
        (
          (
            clone_event x,
            after_keeps (n + 1) es s' x.id (clone_event x)
                (lookup-insert_self x.id (clone_event x) s),
          ),
          after_stores (n + 1) es s',
        )
  | inr (y, old) ↦
      subst (λ r. All (IsStored r.1) (x ∷ es)) (sym (step_old n x es s y old))
        ((y, after_keeps n es s x.id y old), after_stores n es s)
]

again_nothing :
    (n : ℕ) (es : List Event) (s : Dict Event)
    → All (IsStored s) es
    → save_events_from n es s ≡ (n, s)
unfolding save_events_from IsStored
again_nothing n [] s h = refl
again_nothing n (x ∷ es) s ((y, e), h) = rw (e, save_events_from) (again_nothing n es s h)

after_counts :
    (n : ℕ) (es : List Event) (s : Dict Event)
    → let (k, t) = save_events_from n es s in (length t + n ≡ length s + k) × (k ≤ n + length es)
unfolding save_events_from
after_counts n [] s = omega arith
after_counts n (x ∷ es) s = elim (Option-cases (lookup x.id s)) [
  | inl new ↦
      rw (new, save_events_from)
        (omega (
          arith,
          after_counts (n + 1) es (insert x.id (clone_event x) s),
          length-insert_new x.id (clone_event x) s new,
        ))
  | inr (y, old) ↦ rw (old, save_events_from) (omega (arith, after_counts n es s))
]

-- Saving a batch a second time inserts nothing and changes nothing.
pub save_events_idem :
    (es : List Event) (m : Memory)
    → save_events es (save_events es m).1 ≡ (ok 0, (save_events es m).1)
unfolding save_events
save_events_idem es m =
    let again =
      again_nothing 0 es (save_events_from 0 es m.events).1 (after_stores 0 es m.events) in
    rw again

-- The number that `SaveEvents` reports is the number of events that the store gained, at most the
-- size of the batch; every event that was there is still there unchanged, and every event of the
-- batch is found under its identifier.
pub save_events-adds :
    (es : List Event) (m : Memory)
    → (k : ℕ) × ((save_events es m).0 ≡ ok k)
      × (length (save_events es m).1.events ≡ length m.events + k)
      × (k ≤ length es)
      × ((id : Text) (e : Event)
          → lookup id m.events ≡ some e
          → lookup id (save_events es m).1.events ≡ some e)
      × All (λ e. (x : Event) × (lookup e.id (save_events es m).1.events ≡ some x)) es
unfolding save_events IsStored
save_events-adds es m = (
  (save_events_from 0 es m.events).0,
  refl,
  omega (arith, after_counts 0 es m.events),
  omega (arith, after_counts 0 es m.events),
  λ id e h. after_keeps 0 es m.events id e h,
  after_stores 0 es m.events,
)

clone_event-same : (e : Event) → clone_event e ≡ e
clone_event-same e = rw clone_map-same refl

from_batch {ℓ} :
    (P : Event → Type ℓ) (n : ℕ) (es : List Event) (s : Dict Event)
    → All P es
    → (id : Text) (e : Event) → lookup id (save_events_from n es s).1 ≡ some e
    → (lookup id s ≡ some e) ⊎ (P e × (e.id ≡ id))
unfolding save_events_from
from_batch P n [] s h id e found = inl found
from_batch P n (x ∷ es) s h id e found = elim (Option-cases (lookup x.id s)) [
  | inr (y, old) ↦ from_batch P n es s h.1 id e (rw (← step_old n x es s y old) found)
  | inl new ↦
      elim (from_batch P (n + 1) es (insert x.id (clone_event x) s) h.1 id e
        (rw (← step_new n x es s new) found)) [
          | inr added ↦ inr added
          | inl there ↦ elim (Bool-cases (text_eq x.id id)) [
            | inr other ↦ inl (ground (arith, lookup-insert x.id id (clone_event x) s))
            | inl same ↦
                let it : x ≡ e =
                  ground (arith, lookup-insert x.id id (clone_event x) s, clone_event-same x) in
                inr
                  (subst (λ (v : Event). P v × (v.id ≡ id)) it (h.0, (text_eq_iff x.id id).0 same))
          ]
        ]
]

-- Whatever holds of each event of a batch holds of each event that the save adds.
pub save_events-only {ℓ} :
    (P : Event → Type ℓ) (es : List Event) (m : Memory)
    → All P es
    → (id : Text) (e : Event) → lookup id (save_events es m).1.events ≡ some e
    → (lookup id m.events ≡ some e) ⊎ (P e × (e.id ≡ id))
unfolding save_events
save_events-only P es m h id e found = from_batch P 0 es m.events h id e found
