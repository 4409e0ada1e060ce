-- ===== src/Rabbitmq.antt =====
-- The RabbitMQ adapter (packages/openframe-adapters-queue-rabbitmq/openframe/adapters/queue/rabbitmq):
-- settings and driver, the producer, the consumer and the plugin.
pub mod Driver
pub mod Errors
pub mod Producer
pub mod Consumer
pub mod Plugin
pub mod Settling
pub mod Consuming
pub mod Publishing
pub mod Fake
mod Tests
