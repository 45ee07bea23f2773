-- ===== src/Agent/Queue/Names.antt =====
-- The names of the queued files, and what acknowledging them leaves.

use my_safe.Prelude.{
  ◌≤◌, ◌<◌, ◌≡◌, refl, sym, ◌⊎◌, inl, inr, Bool, not, ◌&&◌, List, [], ◌∷◌, arith, length, Has,
  Bool-cases,
}
use my_safe.Prelude.Text.{Text, text_eq, text_eq_iff}
use my_safe.Prelude.Text.Sort.{Has-sort_texts, length-sort_texts}
use my_safe.Prelude.Dict.{lookup, erase, is_some, lookup-erase}
use my_safe.Agent.Queue.{
  Directory, ok, is_event_file, event_names, queue_files, len, ack, valid_name,
}

-- A file is where it was, or its name was acknowledged.
pub lookup-ack :
    (removable : Text → Bool) (names : List Text) (d : Directory) (j : Text)
    → (lookup j (ack removable names d).1 ≡ lookup j d) ⊎ Has j names
unfolding ack
lookup-ack removable [] d j = inl refl
lookup-ack removable (name ∷ names) d j = elim (Bool-cases (valid_name name)) [
  | inr bad ↦ inl (rw bad refl)
  | inl good ↦ elim (Bool-cases (is_some (lookup name d) && not (removable name))) [
    | inl stuck ↦ inl (rw (good, stuck) refl)
    | inr free ↦ elim (lookup-ack removable names (erase name d) j) [
      | inr later ↦ inr (inr later)
      | inl kept ↦ elim (Bool-cases (text_eq name j)) [
        | inl it ↦ inr (inl (sym ((text_eq_iff name j).0 it)))
        | inr other ↦ inl (rw (good, free, kept) (ground (arith, lookup-erase name j d)))
      ]
    ]
  ]
]

length-event_names-erase :
    (k : Text) (d : Directory) → length (event_names (erase k d)) ≤ length (event_names d)
unfolding event_names erase
length-event_names-erase k [] = omega arith
length-event_names-erase k ((j, f) ∷ d) = ground (arith, length-event_names-erase k d)

-- An event file that is removed makes the queue shorter.
length-event_names-erase_lt :
    (k : Text) (d : Directory)
    → Has k (event_names d)
    → length (event_names (erase k d)) < length (event_names d)
unfolding event_names erase
length-event_names-erase_lt k [] h = absurd h
length-event_names-erase_lt k ((j, f) ∷ d) h = elim (Bool-cases (is_event_file (j, f))) [
  | inr skipped ↦
      let later : Has k (event_names d) = rw skipped at h in
      let ih = length-event_names-erase_lt k d later in ground arith
  | inl event ↦
      let split : (k ≡ j) ⊎ Has k (event_names d) = rw event at h in
      elim (Bool-cases (text_eq j k)) [
        | inl it ↦ let below = length-event_names-erase k d in ground arith
        | inr other ↦ elim split [
          | inl e ↦ absurd (cc (other, (text_eq_iff j k).1 (sym e)))
          | inr later ↦ let ih = length-event_names-erase_lt k d later in ground arith
        ]
      ]
]

len-erase-le : (k : Text) (d : Directory) → len (erase k d) ≤ len d
unfolding len queue_files
len-erase-le k d = omega (
  arith,
  length-event_names-erase k d,
  length-sort_texts (event_names d),
  length-sort_texts (event_names (erase k d)),
)

pub len-ack-le :
    (removable : Text → Bool) (names : List Text) (d : Directory)
    → len (ack removable names d).1 ≤ len d
unfolding ack
len-ack-le removable [] d = omega arith
len-ack-le removable (name ∷ names) d =
    let ih = len-ack-le removable names (erase name d) in
    let one = len-erase-le name d in ground arith

-- Acknowledging a batch that begins with a queued file makes the queue shorter.
pub len-ack-lt :
    (removable : Text → Bool) (name : Text) (names : List Text) (d : Directory)
    → (ack removable (name ∷ names) d).0 ≡ ok tt
    → Has name (queue_files d)
    → len (ack removable (name ∷ names) d).1 < len d
unfolding ack len queue_files
len-ack-lt removable name names d done there =
    let rest = len-ack-le removable names (erase name d) in
    let fewer = length-event_names-erase_lt name d (Has-sort_texts name (event_names d) there) in
    let a = length-sort_texts (event_names d) in
    let b = length-sort_texts (event_names (erase name d)) in ground arith
