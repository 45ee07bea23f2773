-- ===== src/Agent/Flush.antt =====
-- The loop at the end of `runCycle`, internal/agent/runner.go: batches are sent and acknowledged until
-- the queue is empty. The n-th call of the control plane succeeds if `accepts n`.
pub mod Delivery
use my_safe.Prelude.{
  ℕ, zero, suc, ◌+◌, Bool, true, false, not, List, [], ◌∷◌, ◌++◌, map, length, if◌then◌else◌,
}
use my_safe.Prelude.Int.{pos}
use my_safe.Prelude.Text.{Text}
use my_safe.Domain.{Event}
use my_safe.Agent.Queue.{
  Directory, Codec, QueueError, Queued, ok, err, names_of, events_of, peek, ack,
}

pub data End : Type 0 where
  emptied send_failed out_of_fuel : End
  queue_failed : QueueError → End

-- `sent` holds what the control plane accepted, in order; `flushed` is the count of the source.
pub record Flushed : Type 0 where
  pub end : End
  pub flushed : ℕ
  pub sent : List Event
  pub left : Directory

module _ (codec : Codec) (accepts : ℕ → Bool) (removable : Text → Bool) where
  -- What follows an accepted call; `more` is the rest of the loop.
  acknowledged : (Directory → Flushed) → ℕ → List Event → Queued (Unit {0}) × Directory → Flushed
  acknowledged more flushed sent (err x, d) = record {
    end = queue_failed x;
    flushed = flushed;
    sent = sent;
    left = d;
  }
  acknowledged more flushed sent (ok _, d) = more d

  after_peek :
      (ℕ → List Event → Directory → Flushed)
      → ℕ
      → ℕ
      → List Event
      → Directory
      → Queued (List (Text × Event))
      → Flushed
  unfolding acknowledged
  after_peek more call flushed sent d (err x) = record {
    end = queue_failed x;
    flushed = flushed;
    sent = sent;
    left = d;
  }
  after_peek more call flushed sent d (ok []) = record {
    end = emptied;
    flushed = flushed;
    sent = sent;
    left = d;
  }
  after_peek more call flushed sent d (ok (p ∷ batch)) =
      let events = events_of (p ∷ batch) in
      let all = sent ++ events in
      if not (accepts call)
      then record { end = send_failed; flushed = flushed; sent = sent; left = d }
      else acknowledged (more (flushed + length events) all) flushed all
          (ack removable (names_of (p ∷ batch)) d)

  flush_from : ℕ → ℕ → ℕ → List Event → Directory → Flushed
  unfolding after_peek
  flush_from zero call flushed sent d = record {
    end = out_of_fuel;
    flushed = flushed;
    sent = sent;
    left = d;
  }
  flush_from (suc fuel) call flushed sent d =
      after_peek (flush_from fuel (call + 1)) call flushed sent d (peek codec (pos 100) d)

  unfoldable pub flush : ℕ → Directory → Flushed
  unfolding flush_from
  flush fuel d = flush_from fuel 0 0 [] d
