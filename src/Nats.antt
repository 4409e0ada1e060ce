-- ===== src/Nats.antt =====
-- The NATS JetStream adapter (packages/openframe-adapters-queue-nats/openframe/adapters/queue/nats):
-- settings and driver, the classification of errors, the producer, the consumer and the plugin.
pub mod Driver
pub mod Errors
pub mod Producer
pub mod Publishing
pub mod ProducerLife
pub mod Consumer
pub mod Consuming
pub mod Settling
pub mod Plugin
pub mod Fake
mod Tests
