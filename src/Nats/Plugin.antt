-- ===== src/Nats/Plugin.antt =====
-- plugin.py of the Nats adapter: `NatsPlugin`, the plugin of a queue adapter for its producer and consumer.
use openframe_adapters.Prelude.{Bool}
use openframe_adapters.Effect.{Outcome, Action}
use openframe_adapters.Effect.Errors.{Failure, PluginHealth}
use openframe_adapters.Lifecycle.{Slot}
use openframe_adapters.Lifecycle.Queue
use openframe_adapters.Lifecycle.Queue.{ProducerClass}
use openframe_adapters.Nats.Driver.{Driver, NatsSettings}
use openframe_adapters.Nats.Errors.{catches}
use openframe_adapters.Nats.Producer
use openframe_adapters.Nats.Producer.{Producer, stopped_producer}
use openframe_adapters.Nats.Consumer.{Consumer, fresh_consumer}

unfoldable pub new_plugin :
    {X : Type 0} → NatsSettings → Bool → Bool → Outcome (Failure X) (Slot NatsSettings)
new_plugin settings = Queue.new_plugin

-- The producers that the plugin makes.
abbrev pub producers :
    {N J B M Y S X : Type 0} → Driver N J B M Y S X → ProducerClass (Producer N J) NatsSettings S X
producers d = record {
  made = stopped_producer;
  start = Producer.start d;
  close = Producer.close d;
  catches = catches d;
}

module _ {N J B M Y S X : Type 0} (d : Driver N J B M Y S X) where
  abbrev pub Session : Type 0
  Session = Slot NatsSettings × ((Producer N J) × S)

  unfoldable pub connect : NatsSettings → Action Session (Failure X) (Unit {0})
  connect = Queue.connect (producers d)

  unfoldable pub initialize : NatsSettings → Action Session (Failure X) (Unit {0})
  initialize = Queue.initialize (producers d)

  unfoldable pub shutdown : Action Session (Failure X) (Unit {0})
  shutdown = Queue.shutdown (producers d)

  unfoldable pub health : Action Session (Failure X) (PluginHealth X)
  health = Queue.health (producers d)

unfoldable pub get_producer : {X : Type 0} → Slot NatsSettings → Outcome (Failure X) NatsSettings
get_producer = Queue.get_producer

-- `make_consumer`: a consumer of its own at every call.
unfoldable pub make_consumer : {N J B : Type 0} → NatsSettings → NatsSettings × Consumer N J B
make_consumer settings = (settings, fresh_consumer)
