-- ===== src/Mq.antt =====
-- internal/mq: the messages between the parts.
pub mod Messages
pub mod Stream
