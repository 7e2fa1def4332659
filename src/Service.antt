-- ===== src/Service.antt =====
-- services/network-observation/service: from the inputs to the observation model, and out again.
pub mod Mapper
pub mod Queue
pub mod Publication
pub mod Issues
pub mod Supervision
pub mod Callbacks
pub mod Runtime
