-- ===== src/Amqp.antt =====
-- internal/protocols/amqpserver/server.go: the AMQP broker. Amqp/Config.antt holds the records of
-- its configuration, Amqp/Topic.antt the matching of routing keys.
pub mod Config
pub mod Topic
pub mod Publish
pub mod Connection
pub mod Routing
pub mod Wire
mod Tests
