-- ===== src/Rabbitmq/Plugin.antt =====
-- plugin.py of the RabbitMQ adapter: `RabbitmqPlugin`, the plugin of a queue adapter for its producer and consumer.
use openframe_adapters.Prelude.{Bool}
use openframe_adapters.Effect.{Outcome, Action}
use openframe_adapters.Effect.Errors.{Failure, PluginHealth}
use openframe_adapters.Lifecycle.{Slot}
use openframe_adapters.Lifecycle.Queue
use openframe_adapters.Lifecycle.Queue.{ProducerClass}
use openframe_adapters.Rabbitmq.Driver.{Driver, RabbitmqSettings}
use openframe_adapters.Rabbitmq.Producer
use openframe_adapters.Rabbitmq.Errors.{catches}
use openframe_adapters.Rabbitmq.Producer.{Producer, stopped_producer}
use openframe_adapters.Rabbitmq.Consumer.{Consumer, fresh_consumer}

unfoldable pub new_plugin :
    {X : Type 0} → RabbitmqSettings → Bool → Bool → Outcome (Failure X) (Slot RabbitmqSettings)
new_plugin settings = Queue.new_plugin

-- The producers that the plugin makes.
abbrev pub producers :
    {N H Q I M Y S X : Type 0}
    → Driver N H Q I M Y S X
    → ProducerClass (Producer N H) RabbitmqSettings S X
producers d = record {
  made = stopped_producer;
  start = Producer.start d;
  close = Producer.close d;
  catches = catches d;
}

module _ {N H Q I M Y S X : Type 0} (d : Driver N H Q I M Y S X) where
  abbrev pub Session : Type 0
  Session = Slot RabbitmqSettings × ((Producer N H) × S)

  unfoldable pub connect : RabbitmqSettings → Action Session (Failure X) (Unit {0})
  connect = Queue.connect (producers d)

  unfoldable pub initialize : RabbitmqSettings → Action Session (Failure X) (Unit {0})
  initialize = Queue.initialize (producers d)

  unfoldable pub shutdown : Action Session (Failure X) (Unit {0})
  shutdown = Queue.shutdown (producers d)

  unfoldable pub health : Action Session (Failure X) (PluginHealth X)
  health = Queue.health (producers d)

unfoldable pub get_producer :
    {X : Type 0} → Slot RabbitmqSettings → Outcome (Failure X) RabbitmqSettings
get_producer = Queue.get_producer

-- `make_consumer`: a consumer of its own at every call.
unfoldable pub make_consumer :
    {N H Q M : Type 0} → RabbitmqSettings → RabbitmqSettings × Consumer N H Q M
make_consumer settings = (settings, fresh_consumer)
