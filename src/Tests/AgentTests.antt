-- ===== src/Tests/AgentTests.antt =====
-- The Agent's queue and its flush at a queue of two events and a foreign file.
use mathlib.Core.Path.{subst}
use my_safe.Prelude.{
  refl, ◌≤◌, length, drop, ℕ, ◌<◌, ◌≡◌, ◌≢◌, ◌⊎◌, Bool, true, some, [], ◌∷◌, arith,
}
use my_safe.Prelude.Text.{Text, codes, has_suffix, text_eq}
use my_safe.Prelude.Text.Sort.{sort_texts}
use my_safe.Prelude.Dict.{lookup}
use my_safe.Agent.Queue.{
  max_queue_file_size, EnqueueOutcome, enqueue, ok, Directory, Codec, File, len, queue_files,
}
use my_safe.Agent.Queue.Batches.{IsHeld}
use my_safe.Agent.Flush.{emptied, out_of_fuel, flush}
use my_safe.Agent.Flush.Delivery.{flush-delivers, flush-ends}
use my_safe.Agent.Queue.RoundTrip.{IsSound, Fits, Holds, enqueue-read_event}
use my_safe.Tests.Fixtures.{login}

abbrev codec : Codec
codec = record {
  nonce_size = 1;
  encode = λ e. some (codes "e");
  decode = λ t. some login;
  seal = λ nonce t. 0 ∷ t;
  open_sealed = λ nonce t. some (drop 1 t);
}

abbrev file : File
file = record { is_regular = true; content = codes "nonce" }

abbrev two_events : Directory
two_events = (codes "2.event", file) ∷ (codes "x.tmp", file) ∷ (codes "1.event", file) ∷ []

abbrev online : ℕ → Bool
online n = true

abbrev any_file : Text → Bool
any_file t = true

flush-delivers_example :
    let r = flush codec online any_file 3 two_events in
    (lookup (codes "1.event") r.left ≡ lookup (codes "1.event") two_events)
    ⊎ IsHeld codec (lookup (codes "1.event") two_events) r.sent
flush-delivers_example = flush-delivers codec online any_file 3 two_events (codes "1.event")

two_queued : len two_events < 3
unfolding len sort_texts has_suffix
two_queued = omega arith

flush-ends_example :
    let r = flush codec online any_file 3 two_events in
    (r.end ≢ out_of_fuel) × (r.end ≡ emptied → queue_files r.left ≡ [])
flush-ends_example = flush-ends codec online any_file 3 two_events two_queued

codec-IsSound : IsSound codec
codec-IsSound = record { opens = λ n t. refl; there = λ n t. omega arith }

abbrev outcome : EnqueueOutcome
outcome = record {
  nonce = some (codes "n");
  stamp = codes "3";
  suffix = some (codes "ab");
  created = true;
  persisted = true;
}

login_short :
    (plaintext : Text) → codes "e" ≡ plaintext → length (110 ∷ 0 ∷ plaintext) ≤ max_queue_file_size
login_short plaintext e =
    subst (λ (t : Text). length (110 ∷ 0 ∷ t) ≤ max_queue_file_size) e (omega arith)

login-Fits :
    (nonce : Text)
    → outcome.nonce ≡ some nonce
    → (length nonce ≡ codec.nonce_size) × Fits codec codec-IsSound login nonce
login-Fits nonce is =
    let n : codes "n" ≡ nonce = cc is in
    subst
      (λ (nonce : Text). (length nonce ≡ codec.nonce_size) × Fits codec codec-IsSound login nonce) n
      (refl, λ plaintext encoded. (refl, login_short plaintext (cc encoded)))

login_queued : (enqueue codec outcome login two_events).0 ≡ ok tt
unfolding enqueue len sort_texts has_suffix lookup text_eq
login_queued = refl

enqueue-read_event_example :
    Holds codec codec-IsSound login two_events (enqueue codec outcome login two_events).1
enqueue-read_event_example =
    enqueue-read_event codec codec-IsSound outcome login two_events login-Fits login_queued
