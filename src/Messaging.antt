-- ===== src/Messaging.antt =====
-- The messages of the controller: firmware/src/util/string_utils.c, firmware/src/messaging and
-- firmware/src/io/message_processor.c.
pub mod Text
pub mod Parser
pub mod Handlers
pub mod Outgoing
pub mod Processor
pub mod Fixtures
mod Tests
