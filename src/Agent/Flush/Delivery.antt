-- ===== src/Agent/Flush/Delivery.antt =====
-- Nothing leaves the queue without having been sent, and the loop empties it.
use mathlib.Core.Path.{subst}
use my_safe.Prelude.{
  ℕ, zero, suc, ◌+◌, ◌<◌, ◌≡◌, ◌≢◌, refl, ◌∙◌, ◌⊎◌, inl, inr, Bool, List, [], ◌∷◌, ◌++◌, arith,
  length, take, Has, Has-append_left, Has-append_right, Has-take, Bool-cases,
}
use my_safe.Prelude.Int.{pos}
use my_safe.Prelude.Text.{Text}
use my_safe.Prelude.Dict.{lookup}
use my_safe.Domain.{Event}
use my_safe.Agent.Queue.{
  Directory, Codec, QueueError, Queued, ok, err, names_of, events_of, peek, ack, queue_files, len,
}
use my_safe.Agent.Queue.Names.{lookup-ack, len-ack-lt}
use my_safe.Agent.Queue.Batches.{IsHeld, peek-ok}
use my_safe.Agent.Flush.{
  End, emptied, send_failed, out_of_fuel, queue_failed, Flushed, acknowledged, after_peek,
  flush_from, flush,
}

module _ (codec : Codec) (accepts : ℕ → Bool) (removable : Text → Bool) where
  acknowledged-cases :
      (P : Flushed → Type 0) (more : Directory → Flushed) (flushed : ℕ) (sent : List Event)
      (x : Queued (Unit {0}) × Directory)
      → ((e : QueueError)
          → P (record { end = queue_failed e; flushed = flushed; sent = sent; left = x.1 }))
      → (x.0 ≡ ok tt → P (more x.1))
      → P (acknowledged codec accepts removable more flushed sent x)
  unfolding acknowledged
  acknowledged-cases P more flushed sent (err e, d) failed done = failed e
  acknowledged-cases P more flushed sent (ok u, d) failed done = done refl

  -- One round of the loop, by what `Peek`, the call and `Ack` do.
  after_peek-cases :
      (P : Flushed → Type 0) (more : ℕ → List Event → Directory → Flushed) (call flushed : ℕ)
      (sent : List Event) (d : Directory) (q : Queued (List (Text × Event)))
      → ((end : End)
          → (end ≡ emptied → q ≡ ok [])
          → end ≢ out_of_fuel
          → P (record { end = end; flushed = flushed; sent = sent; left = d }))
      → ((name : Text) (e : Event) (batch : List (Text × Event)) (x : QueueError)
          → q ≡ ok ((name, e) ∷ batch)
          → P (record {
            end = queue_failed x;
            flushed = flushed;
            sent = sent ++ events_of ((name, e) ∷ batch);
            left = (ack removable (names_of ((name, e) ∷ batch)) d).1;
          }))
      → ((name : Text) (e : Event) (batch : List (Text × Event))
          → q ≡ ok ((name, e) ∷ batch)
          → (ack removable (names_of ((name, e) ∷ batch)) d).0 ≡ ok tt
          → P (
              more
                (flushed + length (events_of ((name, e) ∷ batch)))
                (sent ++ events_of ((name, e) ∷ batch))
                (ack removable (names_of ((name, e) ∷ batch)) d).1))
      → P (after_peek codec accepts removable more call flushed sent d q)
  unfolding after_peek
  after_peek-cases P more call flushed sent d (err x) stay failed next =
      stay (queue_failed x) (λ e. cc) (λ e. cc)
  after_peek-cases P more call flushed sent d (ok []) stay failed next =
      stay emptied (λ e. refl) (λ e. cc)
  after_peek-cases P more call flushed sent d (ok ((name, e) ∷ batch)) stay failed next =
      elim (Bool-cases (accepts call)) [
        | inr refused ↦ rw refused (stay send_failed (λ e. cc) (λ e. cc))
        | inl accepted ↦ rw accepted (
            acknowledged-cases P
              (more (flushed + length (events_of ((name, e) ∷ batch)))
                (sent ++ events_of ((name, e) ∷ batch)))
              flushed (sent ++ events_of ((name, e) ∷ batch))
              (ack removable (names_of ((name, e) ∷ batch)) d) (λ x. failed name e batch x refl)
              (λ done. next name e batch refl done))
      ]

  -- Each file of `d` is still there, or its event is among those that were sent; and what had been
  -- sent before is among them.
  record Delivers (d : Directory) (sent : List Event) (r : Flushed) : Type 0 where
    kept : (j : Text) → (lookup j r.left ≡ lookup j d) ⊎ IsHeld codec (lookup j d) r.sent
    more : (e : Event) → Has e sent → Has e r.sent

  -- After a batch was sent and acknowledged, in part or whole.
  batch-Delivers :
      (d : Directory) (sent : List Event) (batch : List (Text × Event)) (r : Flushed)
      → peek codec (pos 100) d ≡ ok batch
      → Delivers (ack removable (names_of batch) d).1 (sent ++ events_of batch) r
      → Delivers d sent r
  batch-Delivers d sent batch r peeked h =
      let (_, held) = peek-ok codec d batch peeked in
      let was = λ (j : Text) (there : Has j (names_of batch)).
        let (e, read, has) = held j there in
        let out : IsHeld codec (lookup j d) r.sent =
          (e, read, h.more e (Has-append_right e sent (events_of batch) has)) in
        out in
      record {
        kept = λ j. elim (lookup-ack removable (names_of batch) d j) [
          | inr there ↦ inr (was j there)
          | inl same ↦ elim (h.kept j) [
            | inl kept ↦ inl (kept ∙ same)
            | inr sent' ↦ inr (rw same at sent')
          ]
        ];
        more = λ e has. h.more e (Has-append_left e sent (events_of batch) has);
      }

  flush_from-Delivers :
      (fuel call flushed : ℕ) (sent : List Event) (d : Directory)
      → Delivers d sent (flush_from codec accepts removable fuel call flushed sent d)
  unfolding flush_from
  flush_from-Delivers zero call flushed sent d = record { kept = λ j. inl refl; more = λ e h. h }
  flush_from-Delivers (suc fuel) call flushed sent d =
      after_peek-cases (Delivers d sent) (flush_from codec accepts removable fuel (call + 1)) call
        flushed sent d (peek codec (pos 100) d)
        (λ end _ _. record { kept = λ j. inl refl; more = λ e h. h })
        (λ name e batch x peeked.
          batch-Delivers d sent ((name, e) ∷ batch) _ peeked
            (record { kept = λ j. inl refl; more = λ e h. h }))
        (λ name e batch peeked done.
          batch-Delivers d sent ((name, e) ∷ batch) _ peeked
            (flush_from-Delivers fuel (call + 1) _ _ _))

  -- However the calls and the removals go, each queued file is still there unchanged when the loop
  -- ends, or the event that it holds was accepted by the control plane.
  pub flush-delivers :
      (fuel : ℕ) (d : Directory) (j : Text)
      → (lookup j (flush codec accepts removable fuel d).left ≡ lookup j d)
        ⊎ IsHeld codec (lookup j d) (flush codec accepts removable fuel d).sent
  unfolding flush
  flush-delivers fuel d = (flush_from-Delivers fuel 0 0 [] d).kept

  -- The batch that follows is there, and begins with a queued name.
  peeked-head :
      (d : Directory) (name : Text) (e : Event) (batch : List (Text × Event))
      → peek codec (pos 100) d ≡ ok ((name, e) ∷ batch)
      → Has name (queue_files d)
  peeked-head d name e batch peeked =
      Has-take name 100 (queue_files d)
        (subst (Has name) (peek-ok codec d ((name, e) ∷ batch) peeked).0 (inl refl))

  take-nil : (names : List Text) → [] ≡ take 100 names → names ≡ []
  take-nil [] h = refl
  take-nil (n ∷ names) h = absurd (cc h)

  abbrev Ends : Flushed → Type 0
  Ends r = (r.end ≢ out_of_fuel) × (r.end ≡ emptied → queue_files r.left ≡ [])

  flush_from-Ends :
      (fuel call flushed : ℕ) (sent : List Event) (d : Directory)
      → len d < fuel
      → Ends (flush_from codec accepts removable fuel call flushed sent d)
  unfolding flush_from
  flush_from-Ends zero call flushed sent d h = absurd (omega arith)
  flush_from-Ends (suc fuel) call flushed sent d h =
      after_peek-cases Ends (flush_from codec accepts removable fuel (call + 1)) call flushed sent d
        (peek codec (pos 100) d)
        (λ end empty going. (going, λ e. take-nil (queue_files d) (peek-ok codec d [] (empty e)).0))
        (λ name e batch x peeked. (λ e. cc, λ e. absurd (cc e)))
        (λ name e batch peeked done. flush_from-Ends fuel (call + 1) _ _ _ (
          omega (
            arith,
            len-ack-lt removable name (names_of batch) d done (peeked-head d name e batch peeked),
          )))

  -- With more rounds than there are queued files the loop ends by itself, and when it reports success
  -- no event file is left.
  pub flush-ends :
      (fuel : ℕ) (d : Directory)
      → len d < fuel
      → ((flush codec accepts removable fuel d).end ≢ out_of_fuel)
        × ((flush codec accepts removable fuel d).end ≡ emptied
            → queue_files (flush codec accepts removable fuel d).left ≡ [])
  unfolding flush
  flush-ends fuel d h = flush_from-Ends fuel 0 0 [] d h
