-- ===== src/Agent/Queue/Batches.antt =====
-- What `Peek` returns: the first names of the queue, each with the event that its file holds.
use mathlib.Core.Path.{subst}
use my_safe.Prelude.{◌≡◌, refl, ap, inl, inr, Option, List, [], ◌∷◌, take, Has}
use my_safe.Prelude.Int.{pos}
use my_safe.Prelude.Text.{Text}
use my_safe.Prelude.Dict.{lookup}
use my_safe.Domain.{Event}
use my_safe.Agent.Queue.{
  Directory, File, Codec, Queued, ok, err, names_of, events_of, read_event, cons_event, read_all,
  peek, queue_files,
}

module _ (codec : Codec) where
  -- The file holds an event of the list.
  abbrev pub IsHeld : Option File → List Event → Type 0
  IsHeld f sent = (e : Event) × (read_event codec f ≡ ok e) × Has e sent

  cons_event-ok :
      (name : Text) (x : Queued Event) (rest : Queued (List (Text × Event)))
      (batch : List (Text × Event))
      → cons_event codec name x rest ≡ ok batch
      → (e : Event) × (b : List (Text × Event)) × (x ≡ ok e)
        × (rest ≡ ok b)
        × (batch ≡ (name, e) ∷ b)
  unfolding cons_event
  cons_event-ok name (err x) rest batch h = absurd (cc h)
  cons_event-ok name (ok e) (err x) batch h = absurd (cc h)
  cons_event-ok name (ok e) (ok b) batch h = (e, b, refl, refl, cc)

  -- A batch has the names it was asked for, each with the event of its file.
  read_all-ok :
      (d : Directory) (names : List Text) (batch : List (Text × Event))
      → read_all codec d names ≡ ok batch
      → (names_of batch ≡ names)
        × ((j : Text) → Has j names → IsHeld (lookup j d) (events_of batch))
  unfolding read_all
  read_all-ok d [] batch h = let e : batch ≡ [] = cc in rw e (refl, λ j absent. absurd absent)
  read_all-ok d (name ∷ names) batch h =
      let (e, b, read, rest, split) =
        cons_event-ok name (read_event codec (lookup name d)) (read_all codec d names) batch h in
      let (same, each) = read_all-ok d names b rest in
      rw split (
        ap (λ ns. name ∷ ns) same,
        λ j there. elim there [
          | inl it ↦ (e, rw it read, inl refl)
          | inr later ↦ let (e', read', has) = each j later in (e', read', inr has)
        ],
      )

  pub peek-ok :
      (d : Directory) (batch : List (Text × Event))
      → peek codec (pos 100) d ≡ ok batch
      → (names_of batch ≡ take 100 (queue_files d))
        × ((j : Text) → Has j (names_of batch) → IsHeld (lookup j d) (events_of batch))
  unfolding peek
  peek-ok d batch h =
      let (same, each) = read_all-ok d (take 100 (queue_files d)) batch h in
      (same, λ j there. each j (subst (Has j) same there))
