-- ===== src/Lldp.antt =====
-- services/network-observation/inputs/lldp
pub mod Cache
pub mod Watch
