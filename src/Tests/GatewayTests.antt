-- ===== src/Tests/GatewayTests.antt =====
-- The Gateway's outbox when the Agent's socket does not answer.
use my_safe.Prelude.{ℕ, ◌≡◌, refl, ◌⊎◌, Bool, true, false, none, some, [], ◌∷◌}
use my_safe.Prelude.Text.{Text, codes, text_eq, blank}
use my_safe.Prelude.Dict.{lookup}
use my_safe.Domain.{Event, severity_high, severity_valid}
use my_safe.Agent.Queue.{Directory}
use my_safe.Gateway.Outbox.{Json, PersistOutcome, emit, flush_outbox}
use my_safe.Gateway.Outbox.Delivery.{IsSent, IsKept, emit-IsKept, flush_outbox-IsSent}

abbrev blocked_request : Event
blocked_request = record {
  id = codes "evt_1";
  agent_id = [];
  kind = codes "gateway.blocked";
  severity = severity_high;
  summary = codes "blocked";
  occurred_at = 5;
  received_at = 0;
  evidence = none;
}

abbrev json : Json
json = record {
  encode = λ e. some (codes "{}");
  decode = λ t. some blocked_request;
  marshal = λ m. some (codes "null");
}

abbrev writable : PersistOutcome
writable = record { stamp = codes "00"; random = some (codes "ab"); created = true; written = true }

emitted : (emit json 10 7 false writable blocked_request []).0 ≡ none
unfolding emit blank severity_valid lookup
emitted = refl

emit-IsKept_example :
    IsKept json 10 7 blocked_request writable [] (emit json 10 7 false writable blocked_request [])
emit-IsKept_example = emit-IsKept json 10 7 false writable blocked_request [] (λ t e. refl) emitted

abbrev waiting : Directory
waiting = (codes "00-ab.gateway-event", record { is_regular = true; content = codes "{}" }) ∷ []

abbrev yes : ℕ → Bool
yes n = true

abbrev any_name : Text → Bool
any_name t = true

flush_outbox-IsSent_example :
    let r = flush_outbox json 10 7 yes yes any_name 100 waiting in
    (lookup (codes "00-ab.gateway-event") r.left ≡ lookup (codes "00-ab.gateway-event") waiting)
    ⊎ IsSent json 10 7 (lookup (codes "00-ab.gateway-event") waiting) r.sent
flush_outbox-IsSent_example =
    flush_outbox-IsSent json 10 7 yes yes any_name 100 waiting (codes "00-ab.gateway-event")

-- The one file is sent.
all_sent : (flush_outbox json 10 7 yes yes any_name 100 waiting).flushed ≡ 1
unfolding flush_outbox text_eq blank severity_valid
all_sent = refl
