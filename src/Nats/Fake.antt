-- ===== src/Nats/Fake.antt =====
-- A JetStream broker in memory: it is what the witnesses run on, and models no code.
use openframe_adapters.Prelude.{
  ℕ, ◌+◌, refl, Bool, ◌&&◌, ◌||◌, not, ◌==◌, Option, none, some, List, [], ◌∷◌, ◌++◌, arith,
  if◌then◌else◌,
}
use openframe_adapters.Effect.{ok, raised, Action, pure, raise}
use openframe_adapters.Effect.Errors.{Failure, outside}
use openframe_adapters.Nats.Driver.{
  Driver, NatsSettings, NatsClass, asyncio_timeout, nats_error, no_servers, connection_closed,
  connection_draining, connection_reconnecting, stale_connection, outbound_buffer_limit,
  bad_request, builtin_exception,
}
use openframe_adapters.Nats.Consumer.{Consumer}
use openframe_adapters.Nats.Settling.{Observes}
use openframe_adapters.Nats.Consuming.{TearsDown}

abbrev tag : NatsClass → ℕ
tag asyncio_timeout = 0
tag nats_error = 1
tag no_servers = 2
tag connection_closed = 3
tag connection_draining = 4
tag connection_reconnecting = 5
tag stale_connection = 6
tag outbound_buffer_limit = 7
tag bad_request = 8
tag builtin_exception = 9

-- All but the first are errors of nats-py, and all are `Exception`s.
abbrev pub same_class : NatsClass → NatsClass → Bool
same_class x c = tag x == tag c || (tag c == 1 && not (tag x == 0)) || tag c == 9

-- The clients that are open, what was published and settled, and an exception that `add_stream`
-- raises, if there is one.
pub record Broker : Type 0 where
  pub opened : ℕ
  pub published : List ℕ
  pub settled : List ℕ
  pub refusal : Option NatsClass

-- The payload 13 is refused.
unfoldable pub fake : Driver ℕ ℕ ℕ ℕ ℕ Broker NatsClass
fake = record {
  isinstance = same_class;
  connect = λ args s. (ok s.opened, record s { opened = s.opened + 1 });
  jetstream = λ n. n;
  add_stream = λ j name subject s. elim s.refusal [ none ↦ (ok tt, s) | some x ↦ (raised x, s) ];
  publish = λ j subject v s.
      if v == 13
      then (raised connection_closed, s)
      else (ok tt, record s { published = s.published ++ (v ∷ []) });
  subscribe = λ j subject stream config s. (ok 0, s);
  unsubscribe = λ b s. (ok tt, s);
  close = λ n s. (ok tt, s);
  ack = λ m s. (ok tt, record s { settled = s.settled ++ (m ∷ []) });
  nak = λ m s. (ok tt, record s { settled = s.settled ++ (m ∷ []) });
  payload = λ m. m;
  attach = λ m s. (ok tt, s);
  detach = λ s. (ok tt, s);
}

-- A handler that fails on the payload 2.
abbrev pub picky : ℕ → Action (Consumer ℕ ℕ ℕ × Broker) (Failure NatsClass) (Unit {0})
picky m = if m == 2 then raise (outside builtin_exception) else pure tt

pub fake-Observes :
    (settings : NatsSettings) → Observes fake settings (λ m. ok m) picky (λ s. s.settled)
unfolding fake
fake-Observes settings = record {
  ack_logs = λ m s. refl;
  nak_logs = λ m s. refl;
  attach_keeps = λ m s. refl;
  detach_keeps = λ s. refl;
  unsubscribe_keeps = λ b s. refl;
  close_keeps = λ n s. refl;
  handler_keeps = λ t w. ground arith;
  handler_runs = λ t w. ground arith;
  all_exceptions = λ x. ground arith;
}

pub fake-TearsDown : (settings : NatsSettings) → TearsDown fake settings
unfolding fake
fake-TearsDown settings = record {
  unsubscribe_raises = λ b s x s' h. cc;
  close_raises = λ n s x s' h. cc;
}
