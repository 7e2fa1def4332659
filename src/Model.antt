-- ===== src/Model.antt =====
-- services/network-observation/core: the observation model.
pub mod Types
pub mod Policy
pub mod HardFilter
pub mod LldpUtils
pub mod Classifier
pub mod LocalState
pub mod Candidate
pub mod Events
pub mod Engine
pub mod Upkeep
