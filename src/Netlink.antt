-- ===== src/Netlink.antt =====
-- services/network-observation/inputs/netlink
pub mod Types
pub mod State
pub mod Parser
