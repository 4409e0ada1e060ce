-- ===== src/Rabbitmq/Fake.antt =====
-- A broker in memory: it is what the witnesses run on, and models no code.
use openframe_adapters.Prelude.{
  ℕ, refl, Bool, true, false, not, ◌==◌, List, [], ◌∷◌, ◌++◌, arith, if◌then◌else◌,
}
use openframe_adapters.Effect.{Outcome, ok, raised, Action, pure, raise}
use openframe_adapters.Effect.Errors.{Failure, outside}
use openframe_adapters.Rabbitmq.Driver.{
  Driver, RabbitmqSettings, RabbitmqClass, amqp_error, builtin_exception,
}
use openframe_adapters.Rabbitmq.Consumer.{Consumer}
use openframe_adapters.Rabbitmq.Settling.{Answers}
use openframe_adapters.Rabbitmq.Consuming.{ClosesQuietly}

-- The answers sent, each a message and whether it was an `ack`, and whether a channel can be opened.
pub record Broker : Type 0 where
  pub answered : List (ℕ × Bool)
  pub refuses : Bool

-- The only exception: an `AMQPError`.
abbrev pub is_amqp_error : Unit {0} → RabbitmqClass → Bool
is_amqp_error x amqp_error = true
is_amqp_error x builtin_exception = true
is_amqp_error x _ = false

abbrev answer : ℕ → Bool → Action Broker (Unit {0}) (Unit {0})
answer m b s = (ok tt, record s { answered = s.answered ++ ((m, b) ∷ []) })

unfoldable pub fake : Driver ℕ ℕ ℕ ℕ ℕ ℕ Broker (Unit {0})
fake = record {
  isinstance = is_amqp_error;
  connect_robust = λ url interval s. (ok 1, s);
  channel = λ n s. if s.refuses then (raised tt, s) else (ok 2, s);
  is_closed = λ n s. (ok false, s);
  close_connection = λ n s. (ok tt, s);
  close_channel = λ h s. (ok tt, s);
  set_qos = λ h prefetch s. (ok tt, s);
  declare_queue = λ h name durable s. (ok 3, s);
  publish = λ h body name s. (ok tt, s);
  open_iterator = λ q s. (ok 4, s);
  close_iterator = λ i s. (ok tt, s);
  body = λ m. m;
  ack = λ m. answer m true;
  nack = λ m. answer m false;
  attach = λ m s. (ok tt, s);
  detach = λ s. (ok tt, s);
}

-- The body 13 does not deserialise, and the handler fails on 2.
abbrev pub parse : ℕ → Outcome (Unit {0}) ℕ
parse v = if v == 13 then raised tt else ok v

abbrev pub accepts : ℕ → Bool
accepts t = not (t == 2)

abbrev pub picky : ℕ → Action (Consumer ℕ ℕ ℕ ℕ × Broker) (Failure (Unit {0})) (Unit {0})
picky t = if accepts t then pure tt else raise (outside tt)

pub fake-Answers :
    (settings : RabbitmqSettings)
    → Answers fake settings parse picky (λ s. s.answered) accepts (λ t. tt)
unfolding fake
fake-Answers settings = record {
  ack_logs = λ m s. refl;
  nack_logs = λ m s. refl;
  attach_returns = λ m s. refl;
  attach_keeps = λ m s. refl;
  detach_returns = λ s. refl;
  detach_keeps = λ s. refl;
  close_channel_keeps = λ h s. refl;
  close_connection_keeps = λ n s. refl;
  handler_outcome = λ t w. ground arith;
  handler_keeps = λ t w. ground arith;
  handler_consumer = λ t w. ground arith;
  all_exceptions = λ x. refl;
}

pub fake-ClosesQuietly : (settings : RabbitmqSettings) → ClosesQuietly fake settings
unfolding fake
fake-ClosesQuietly settings = record {
  channel_raises = λ h s x s' e. refl;
  connection_raises = λ n s x s' e. refl;
}
