-- ===== src/Kafka.antt =====
-- The Kafka adapter (packages/openframe-adapters-queue-kafka/openframe/adapters/queue/kafka): settings
-- and driver, the producer, the consumer and the plugin.
pub mod Driver
pub mod Producer
pub mod Consumer
pub mod Plugin
pub mod Committing
pub mod Consuming
pub mod Publishing
pub mod Fake
mod Tests
