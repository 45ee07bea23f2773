-- ===== src/Gateway/Outbox/Delivery.antt =====
-- The outbox of internal/gatewayevents/outbox.go loses no event.
use my_safe.Prelude.{
  ℕ, ◌+◌, ◌≡◌, refl, ◌∙◌, ◌⊎◌, inl, inr, Bool, true, false, ◌||◌, Option, none, some, List, [], ◌∷◌,
  ◌++◌, length, take, ltb, leb, ◌==◌, Has, Has-append_left, Has-append_right, Bool-cases,
  Option-cases,
}
use mathlib.Core.Path.{subst}
use my_safe.Prelude.Text.{Text, text_eq, text_eq_iff, is_empty}
use my_safe.Prelude.Dict.{lookup, erase, lookup-erase, lookup-insert_self}
use my_safe.Domain.{Time, Event}
use my_safe.Agent.Queue.{File, Directory}
use my_safe.Gateway.Feed.{max_datagram_bytes, decode_local, validate_local, checked_event}
use my_safe.Gateway.Outbox.{
  Json, OutboxError, OutboxFlushed, PersistOutcome, event_file, read_file, flush_files,
  flush_outbox, outbox_files, emit, persist_event, persist_encoded, write_event,
}

module _ (json : Json) (max_events : ℕ) (now : Time) where
  -- What the file holds is an event that was sent.
  abbrev pub IsSent : Option File → List Event → Type 0
  IsSent f sent = (e : Event) × ((read_file json max_events now f).1 ≡ some e) × Has e sent

  record Delivers (d : Directory) (sent : List Event) (r : OutboxFlushed json max_events now)
      : Type 0 where
    kept : (j : Text) → (lookup j r.left ≡ lookup j d) ⊎ IsSent (lookup j d) r.sent
    more : (e : Event) → Has e sent → Has e r.sent

  module _ (alive accepts : ℕ → Bool) (removable : Text → Bool) where
    abbrev flushed_by : ℕ → List Event → List Text → Directory → OutboxFlushed json max_events now
    flushed_by n sent names d =
        flush_files json max_events now alive accepts removable n sent names d

    -- A file is removed after its event was sent.
    removed-Delivers :
        (name : Text) (e : Event) (sent : List Event) (d : Directory)
        (r : OutboxFlushed json max_events now)
        → (read_file json max_events now (lookup name d)).1 ≡ some e
        → Delivers (erase name d) (sent ++ e ∷ []) r
        → Delivers d sent r
    removed-Delivers name e sent d r found h = record {
      kept = λ j. elim (Bool-cases (text_eq name j)) [
        | inl it ↦
            let same : name ≡ j = (text_eq_iff name j).0 it in
            inr (
              subst (λ (k : Text). IsSent (lookup k d) r.sent) same
                (e, found, h.more e (Has-append_right e sent (e ∷ []) (inl refl))))
        | inr away ↦
            let stays : lookup j (erase name d) ≡ lookup j d =
              rw (lookup-erase name j d, away) refl in
            elim (h.kept j) [
              | inl kept ↦ inl (kept ∙ stays)
              | inr out ↦ inr (subst (λ (f : Option File). IsSent f r.sent) stays out)
            ]
      ];
      more = λ x has. h.more x (Has-append_left x sent (e ∷ []) has);
    }

    flush_files-Delivers :
        (n : ℕ) (sent : List Event) (names : List Text) (d : Directory)
        → Delivers d sent (flushed_by n sent names d)
    unfolding flush_files
    flush_files-Delivers n sent [] d = record { kept = λ j. inl refl; more = λ e h. h }
    flush_files-Delivers n sent (name ∷ names) d = elim (Bool-cases (alive n)) [
      | inr over ↦ rw over (record { kept = λ j. inl refl; more = λ e h. h })
      | inl live ↦ elim (Option-cases (read_file json max_events now (lookup name d)).1) [
        | inl bad ↦ rw (live, bad, flush_files) (record { kept = λ j. inl refl; more = λ e h. h })
        | inr (e, found) ↦ elim (Bool-cases (accepts n)) [
          | inr away ↦
              rw (live, found, away, flush_files) (record { kept = λ j. inl refl; more = λ e h. h })
          | inl taken ↦ elim (Bool-cases (removable name)) [
            | inr stuck ↦
                rw (live, found, taken, stuck, flush_files)
                  (record { kept = λ j. inl refl; more = λ x h. Has-append_left x sent (e ∷ []) h })
            | inl gone ↦
                rw (live, found, taken, gone, flush_files)
                  (removed-Delivers name e sent d
                    (flushed_by (n + 1) (sent ++ e ∷ []) names (erase name d)) found
                    (flush_files-Delivers (n + 1) (sent ++ e ∷ []) names (erase name d)))
          ]
        ]
      ]
    ]

    -- However a flush ends, each file of the outbox is still there unchanged, or the event that it holds was sent.
    pub flush_outbox-IsSent :
        (limit : ℕ) (d : Directory) (j : Text)
        → let r = flush_outbox json max_events now alive accepts removable limit d in
          (lookup j r.left ≡ lookup j d) ⊎ IsSent (lookup j d) r.sent
    unfolding flush_outbox
    flush_outbox-IsSent limit d j = elim (Bool-cases (limit == 0 || ltb 1000 limit)) [
      | inl bad ↦ rw bad (inl refl)
      | inr good ↦ rw good ((flush_files-Delivers 0 [] (take limit (outbox_files d)) d).kept j)
    ]

  -- The event was sent, or waits in a file that was not there before and from which it can be read.
  abbrev pub IsKept :
      Event → PersistOutcome → Directory → Option OutboxError × Directory × List Event → Type 0
  IsKept e o d (error, d', sent) =
      Has e sent
      ⊎ ((name : Text) × (lookup name d ≡ none)
          × ((read_file json max_events now (lookup name d')).1 ≡ some e))

  -- A file that holds an encoded event is read back.
  read_file-encoded :
      (t : Text) (e : Event)
      → (is_empty t || ltb max_datagram_bytes (length t)) ≡ false
      → json.decode t ≡ some e
      → validate_local json.marshal e now ≡ none
      → (read_file json max_events now (some (record { is_regular = true; content = t }))).1
        ≡ some e
  unfolding read_file decode_local checked_event
  read_file-encoded t e fits decodes valid = rw (fits, decodes, valid) refl

  write_event-IsKept :
      (o : PersistOutcome) (random t : Text) (e : Event) (d : Directory)
      → (is_empty t || ltb max_datagram_bytes (length t)) ≡ false
      → json.decode t ≡ some e
      → validate_local json.marshal e now ≡ none
      → (write_event json max_events now o (some random) t d).0 ≡ none
      → (name : Text) × (lookup name d ≡ none)
        × ((read_file json max_events now
              (lookup name (write_event json max_events now o (some random) t d).1)).1
            ≡ some e)
  unfolding write_event
  write_event-IsKept o random t e d fits decodes valid ok =
      let name = event_file o.stamp random in
      let file : File = record { is_regular = true; content = t } in
      elim (Bool-cases o.created) [
        | inr failed ↦ absurd (cc (rw failed at ok))
        | inl created ↦ elim (Option-cases (lookup name d)) [
          | inr (old, taken) ↦ absurd (cc (rw (created, taken) at ok))
          | inl fresh ↦ elim (Bool-cases o.written) [
            | inr failed ↦ absurd (cc (rw (created, fresh, failed) at ok))
            | inl written ↦ (
              name,
              fresh,
              rw (created, fresh, written)
                  (rw (lookup-insert_self name file d) (read_file-encoded t e fits decodes valid)),
            )
          ]
        ]
      ]

  persist_event-IsKept :
      (o : PersistOutcome) (e : Event) (d : Directory)
      → ((t : Text) → json.encode e ≡ some t → json.decode t ≡ some e)
      → validate_local json.marshal e now ≡ none
      → (persist_event json max_events now o e d).0 ≡ none
      → (name : Text) × (lookup name d ≡ none)
        × ((read_file json max_events now
              (lookup name (persist_event json max_events now o e d).1)).1
            ≡ some e)
  unfolding persist_event persist_encoded write_event
  persist_event-IsKept o e d round valid ok = elim (Option-cases (json.encode e)) [
    | inl bad ↦ absurd (cc (rw (bad, persist_event) at ok))
    | inr (t, encoded) ↦ elim (Bool-cases (is_empty t || ltb max_datagram_bytes (length t))) [
      | inl large ↦ absurd (cc (rw (encoded, large, persist_event) at ok))
      | inr fits ↦ elim (Bool-cases (leb max_events (length (outbox_files d)))) [
        | inl full ↦ absurd (cc (rw (encoded, fits, full, persist_event) at ok))
        | inr room ↦ elim (Option-cases o.random) [
          | inl none_there ↦ absurd (cc (rw (encoded, fits, room, none_there, persist_event) at ok))
          | inr (random, drawn) ↦
              rw (encoded, fits, room, drawn, persist_event)
                (write_event-IsKept o random t e d fits (round t encoded) valid
                  (rw (encoded, fits, room, drawn, persist_event) at ok))
        ]
      ]
    ]
  ]

  -- What `Emit` accepts without an error is sent, or waits in a new file from which it can be read; an event survives
  -- encoding and decoding.
  pub emit-IsKept :
      (sends : Bool) (o : PersistOutcome) (e : Event) (d : Directory)
      → ((t : Text) → json.encode e ≡ some t → json.decode t ≡ some e)
      → (emit json max_events now sends o e d).0 ≡ none
      → IsKept e o d (emit json max_events now sends o e d)
  unfolding emit
  emit-IsKept sends o e d round accepted = elim (Option-cases (validate_local json.marshal e now)) [
    | inr (x, bad) ↦ absurd (cc (rw (bad, emit) at accepted))
    | inl valid ↦ elim (Bool-cases sends) [
      | inl sent ↦ rw (valid, sent, emit) (inl (inl refl))
      | inr unsent ↦
          rw (valid, unsent, emit)
            (inr (persist_event-IsKept o e d round valid (rw (valid, unsent, emit) at accepted)))
    ]
  ]
