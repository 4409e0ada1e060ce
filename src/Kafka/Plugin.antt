-- ===== src/Kafka/Plugin.antt =====
-- plugin.py of the Kafka adapter: `KafkaPlugin`, the plugin of a queue adapter for its producer and consumer.
use openframe_adapters.Prelude.{Bool, Option, none}
use openframe_adapters.Effect.{Outcome, Action}
use openframe_adapters.Effect.Errors.{Failure, PluginHealth}
use openframe_adapters.Lifecycle.{Slot}
use openframe_adapters.Lifecycle.Queue
use openframe_adapters.Lifecycle.Queue.{ProducerClass}
use openframe_adapters.Kafka.Driver.{Driver, KafkaSettings}
use openframe_adapters.Kafka.Producer
use openframe_adapters.Kafka.Producer.{catches}
use openframe_adapters.Kafka.Consumer.{Consumer, fresh_consumer}

unfoldable pub new_plugin :
    {X : Type 0} → KafkaSettings → Bool → Bool → Outcome (Failure X) (Slot KafkaSettings)
new_plugin settings = Queue.new_plugin

-- The producers that the plugin makes.
abbrev pub producers :
    {P C M Y S X : Type 0} → Driver P C M Y S X → ProducerClass (Option P) KafkaSettings S X
producers d = record {
  made = none;
  start = Producer.start d;
  close = Producer.close d;
  catches = catches d;
}

module _ {P C M Y S X : Type 0} (d : Driver P C M Y S X) where
  abbrev pub Session : Type 0
  Session = Slot KafkaSettings × ((Option P) × S)

  unfoldable pub connect : KafkaSettings → Action Session (Failure X) (Unit {0})
  connect = Queue.connect (producers d)

  unfoldable pub initialize : KafkaSettings → Action Session (Failure X) (Unit {0})
  initialize = Queue.initialize (producers d)

  unfoldable pub shutdown : Action Session (Failure X) (Unit {0})
  shutdown = Queue.shutdown (producers d)

  unfoldable pub health : Action Session (Failure X) (PluginHealth X)
  health = Queue.health (producers d)

unfoldable pub get_producer : {X : Type 0} → Slot KafkaSettings → Outcome (Failure X) KafkaSettings
get_producer = Queue.get_producer

-- `make_consumer`: a consumer of its own at every call.
unfoldable pub make_consumer : {C : Type 0} → KafkaSettings → KafkaSettings × Consumer C
make_consumer settings = (settings, fresh_consumer)
