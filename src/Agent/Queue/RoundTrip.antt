-- ===== src/Agent/Queue/RoundTrip.antt =====
-- An event that is queued is read again.
use my_safe.Prelude.{
  ◌≤◌, ◌<◌, ◌≡◌, refl, inl, inr, true, false, Option, none, some, [], ◌∷◌, ◌++◌, arith, length,
  length-append, take, drop, ltb, leb, Bool-cases, Option-cases,
}
use my_safe.Prelude.Text.{Text, text_eq, text_eq_refl}
use my_safe.Prelude.Dict.{lookup}
use my_safe.Domain.{Event}
use my_safe.Agent.Queue.{
  Directory, Codec, EnqueueOutcome, ok, max_queue_file_size, max_queue_entries, len, create_file,
  named_file, sealed_file, encoded_file, enqueue, decoded, read_event,
}

-- What the queue asks of the AEAD: a sealed text opens, and is not empty.
pub record IsSound (codec : Codec) : Type 0 where
  pub opens :
      (nonce plaintext : Text)
      → codec.open_sealed nonce (codec.seal nonce plaintext) ≡ some plaintext
  pub there : (nonce plaintext : Text) → 0 < length (codec.seal nonce plaintext)

take-append : (a b : Text) → take (length a) (a ++ b) ≡ a
take-append [] b = refl
take-append (x ∷ a) b = rw (take-append a b)

drop-append : (a b : Text) → drop (length a) (a ++ b) ≡ b
drop-append [] b = refl
drop-append (x ∷ a) b = drop-append a b

-- The directory has one more file, under a new name.
record IsCreated (payload : Text) (d d' : Directory) : Type 0 where
  name : Text
  added : d' ≡ (name, record { is_regular = true; content = payload }) ∷ d
  new_name : lookup name d ≡ none

create_file-IsCreated :
    (o : EnqueueOutcome) (name payload : Text) (d : Directory)
    → (create_file o name payload d).0 ≡ ok tt
    → IsCreated payload d (create_file o name payload d).1
unfolding create_file
create_file-IsCreated o name payload d h = elim (Bool-cases o.created) [
  | inr failed ↦ absurd (cc (rw failed at h))
  | inl created ↦ elim (Option-cases (lookup name d)) [
    | inr (f, taken) ↦ absurd (cc (rw (created, taken) at h))
    | inl free ↦ elim (Bool-cases o.persisted) [
      | inr lost ↦ absurd (cc (rw (created, free, lost) at h))
      | inl kept ↦ rw (created, free, kept) (record { name = name; added = refl; new_name = free })
    ]
  ]
]

named_file-IsCreated :
    (o : EnqueueOutcome) (suffix : Option Text) (payload : Text) (d : Directory)
    → (named_file o suffix payload d).0 ≡ ok tt
    → IsCreated payload d (named_file o suffix payload d).1
unfolding named_file
named_file-IsCreated o none payload d h = absurd (cc h)
named_file-IsCreated o (some suffix) payload d h = create_file-IsCreated o _ payload d h

module _ (codec : Codec) (sound : IsSound codec) where
  -- The encoded event decodes, and sealed behind the nonce it is no longer than a queue file may be.
  abbrev pub Fits : Event → Text → Type 0
  Fits e nonce =
      (plaintext : Text)
      → codec.encode e ≡ some plaintext
      → (codec.decode plaintext ≡ some e)
        × (length (nonce ++ codec.seal nonce plaintext) ≤ max_queue_file_size)

  -- The file of a nonce and a sealed event is read as the event.
  read_event-sealed :
      (e : Event) (nonce plaintext : Text)
      → length nonce ≡ codec.nonce_size
      → codec.encode e ≡ some plaintext
      → Fits e nonce
      → read_event codec
          (some (record { is_regular = true; content = nonce ++ codec.seal nonce plaintext }))
        ≡ ok e
  unfolding read_event decoded
  read_event-sealed e nonce plaintext whole encoded fits =
      let size = length-append nonce (codec.seal nonce plaintext) in
      let some_text = sound.there nonce plaintext in
      let (decodes, bounded) = fits plaintext encoded in
      let long : leb (length (nonce ++ codec.seal nonce plaintext)) codec.nonce_size ≡ false =
        ground arith in
      let short : ltb max_queue_file_size (length (nonce ++ codec.seal nonce plaintext)) ≡ false =
        ground arith in
      rw
        (
          long,
          short,
          ← whole,
          take-append nonce (codec.seal nonce plaintext),
          drop-append nonce (codec.seal nonce plaintext),
          sound.opens nonce plaintext,
          decodes,
        )
        refl

  -- The event is read from a new file, and every other file is as it was.
  abbrev pub Holds : Event → Directory → Directory → Type 0
  Holds e d d' =
      (name : Text) × (lookup name d ≡ none)
      × (read_event codec (lookup name d') ≡ ok e)
      × ((j : Text) → text_eq name j ≡ false → lookup j d' ≡ lookup j d)

  Created-Holds :
      (e : Event) (payload : Text) (d d' : Directory)
      → IsCreated payload d d'
      → read_event codec (some (record { is_regular = true; content = payload })) ≡ ok e
      → Holds e d d'
  unfolding lookup
  Created-Holds e payload d d' c reads = (
    c.name,
    c.new_name,
    rw (c.added, text_eq_refl c.name) reads,
    λ j other. rw (c.added, other) refl,
  )

  sealed_file-Holds :
      (o : EnqueueOutcome) (e : Event) (plaintext : Text) (d : Directory) (n : Option Text)
      → codec.encode e ≡ some plaintext
      → ((nonce : Text) → n ≡ some nonce → (length nonce ≡ codec.nonce_size) × Fits e nonce)
      → (sealed_file codec o n plaintext d).0 ≡ ok tt
      → Holds e d (sealed_file codec o n plaintext d).1
  unfolding sealed_file
  sealed_file-Holds o e plaintext d none encoded good h = absurd (cc h)
  sealed_file-Holds o e plaintext d (some nonce) encoded good h =
      let (whole, fits) = good nonce refl in
      Created-Holds e (nonce ++ codec.seal nonce plaintext) d _
        (named_file-IsCreated o o.suffix (nonce ++ codec.seal nonce plaintext) d h)
        (read_event-sealed e nonce plaintext whole encoded fits)

  encoded_file-Holds :
      (o : EnqueueOutcome) (e : Event) (d : Directory) (t : Option Text)
      → codec.encode e ≡ t
      → ((nonce : Text) → o.nonce ≡ some nonce → (length nonce ≡ codec.nonce_size) × Fits e nonce)
      → (encoded_file codec o t d).0 ≡ ok tt
      → Holds e d (encoded_file codec o t d).1
  unfolding encoded_file
  encoded_file-Holds o e d none encoded good h = absurd (cc h)
  encoded_file-Holds o e d (some plaintext) encoded good h =
      sealed_file-Holds o e plaintext d o.nonce encoded good h

  -- After `Enqueue` has succeeded a new file holds the event, and reading it gives the event back; no
  -- other file has changed. The nonce has its length, the event survives encoding, and
  -- sealed it fits a queue file.
  pub enqueue-read_event :
      (o : EnqueueOutcome) (e : Event) (d : Directory)
      → ((nonce : Text) → o.nonce ≡ some nonce → (length nonce ≡ codec.nonce_size) × Fits e nonce)
      → (enqueue codec o e d).0 ≡ ok tt
      → Holds e d (enqueue codec o e d).1
  unfolding enqueue
  enqueue-read_event o e d good h = elim (Bool-cases (leb max_queue_entries (len d))) [
    | inl full ↦ absurd (cc (rw full at h))
    | inr room ↦ rw room (encoded_file-Holds o e d (codec.encode e) refl good (rw room at h))
  ]
