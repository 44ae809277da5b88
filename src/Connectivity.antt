-- ===== src/Connectivity.antt =====
-- src/common/comm_connectivity.c: the buffers of a connection and its socket calls.
pub mod Buffer
pub mod Socket
pub mod Conn
