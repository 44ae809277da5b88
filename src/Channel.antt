-- ===== src/Channel.antt =====
-- src/common/comm_channel.c: messages as bytes on a connection.
pub mod Action
pub mod Word
pub mod Primitive
pub mod TypeInfo
pub mod Object
pub mod Argument
pub mod Send
pub mod Receive
pub mod RoundTrip
