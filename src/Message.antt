-- ===== src/Message.antt =====
-- src/common/messages/*.h: types, data and messages.
pub mod Datatype
pub mod Value
pub mod Struct
