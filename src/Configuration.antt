-- ===== src/Configuration.antt =====
-- The configuration of the runtimes: src/plc_configuration.c.
pub mod Content
pub mod Runtime
pub mod Document
