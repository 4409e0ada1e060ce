-- ===== src/Rabbitmq/Errors.antt =====
-- The classes of exceptions that producer.py and consumer.py of the RabbitMQ adapter catch, and
-- `_wrap_rabbitmq`, which both write alike.
use openframe_adapters.Prelude.{Bool, some, ◌||◌, Option, String, if◌then◌else◌}
use openframe_adapters.Effect.Errors.{
  ErrorClass, Failure, adapter_error, connection_error, query_error,
}
use openframe_adapters.Rabbitmq.Driver.{
  Driver, RabbitmqSettings, amqp_error, amqp_connection_error, builtin_connection_error, os_error,
  builtin_exception,
}

abbrev pub failure : {X : Type 0} → RabbitmqSettings → ErrorClass → String → Option X → Failure X
failure settings c op cause =
    adapter_error
      (record { error_class = c; adapter = settings.adapter_name; operation = op; cause = cause })

module _ {N H Q I M Y S X : Type 0} (d : Driver N H Q I M Y S X) where
  abbrev pub catches : X → Bool
  catches x = d.isinstance x builtin_exception

  -- `except (AMQPError, ConnectionError, OSError)`
  abbrev pub is_listed : X → Bool
  is_listed x =
      d.isinstance x amqp_error
      || (d.isinstance x builtin_connection_error || d.isinstance x os_error)

  -- `_CONNECTION_ERRORS`
  abbrev pub is_connection_error : X → Bool
  is_connection_error x =
      d.isinstance x amqp_connection_error
      || (d.isinstance x builtin_connection_error || d.isinstance x os_error)

  abbrev pub wrap_rabbitmq : RabbitmqSettings → X → String → Failure X
  wrap_rabbitmq settings x op =
      if is_connection_error x
      then failure settings connection_error op (some x)
      else failure settings query_error op (some x)
