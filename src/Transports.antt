-- ===== src/Transports.antt =====
-- The D-Bus transports.
pub mod Variant
pub mod Codec
pub mod Query
