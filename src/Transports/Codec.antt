-- ===== src/Transports/Codec.antt =====
-- services/network-observation/transports/dbus/NetworkObservationDbusCodec.cpp, with the strings of
-- lib/interop_contract/network_observation/NetworkObservationEnumStrings.hpp and the limits of
-- lib/interop_contract/IngressLimits.hpp. The text of an error is left out.
pub mod Checks
pub mod Reads
pub mod Loops
pub mod Names
pub mod Interfaces
pub mod Candidates
pub mod Issues
pub mod Snapshots
pub mod Limits
pub mod Again
pub mod Ingress
