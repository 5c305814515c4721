-- ===== src/PubSub.antt =====
-- packages/messaging/src/pubsub: who gets a message.
pub mod TopicRouter
pub mod RequestReply
pub mod FanOut
pub mod MessageFilter
mod Tests
