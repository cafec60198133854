-- ===== src/Stream.antt =====
-- modules/metrics-stream/pubsub: the callbacks of the channels of Redis.
pub mod PubSub
mod Tests
