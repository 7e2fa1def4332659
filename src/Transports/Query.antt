-- ===== src/Transports/Query.antt =====
-- services/network-observation/transports/dbus/NetworkObservationQueryHandler.cpp. The service is the
-- table of the functions of IObservationQueryService; a binding that grants no lease is `none`. What
-- is caught is an error of the codec, since the functions of the service here do not throw.
pub mod Answers
use rmc_fabric.Base.{◌≡◌, Text, Bool, true, false, List, [], ◌∷◌, Option, none, some, codes}
use rmc_fabric.Base.Result.{Result, ok, err}
use rmc_fabric.Model.Types.{RemoteCandidate, LocalInterfaceState, LocalNetworkSnapshot}
use rmc_fabric.Transports.Variant.{Variant, VariantMap}
use rmc_fabric.Transports.Codec.Checks.{Decoded}
use rmc_fabric.Transports.Codec.Interfaces.{
  WireSnapshot, interface_to_variant_map, encode_local_snapshot,
}
use rmc_fabric.Transports.Codec.Candidates.{
  WireCandidate, candidate_to_variant_map, encode_candidate_macs,
}
use rmc_fabric.Transports.Codec.Issues.{Issues, encode_issues}

pub record QueryService : Type 0 where
  pub local_snapshot : LocalNetworkSnapshot
  pub get_interface : Text → Option LocalInterfaceState
  pub remote_candidates : List RemoteCandidate
  pub get_candidate_by_mac : Text → Option RemoteCandidate
  pub get_issues : Issues
  pub is_ready : Bool
  pub get_phase : Text

unfoldable pub to_wire_snapshot : LocalNetworkSnapshot → WireSnapshot
to_wire_snapshot snapshot = snapshot.interfaces

unfoldable pub to_wire_candidate : RemoteCandidate → WireCandidate
to_wire_candidate c = record {
  mac = c.mac;
  classification = c.classification;
  status = c.status;
  seen_in_fdb = c.seen_in_fdb;
  seen_in_neigh = c.seen_in_neigh;
  seen_in_lldp = c.seen_in_lldp;
  bridge_port = c.bridge_port;
  remote_chassis_id = c.remote_chassis_id;
  remote_port_id = c.remote_port_id;
  remote_system_name = c.remote_system_name;
  neighbor_ifaces = c.neighbor_ifaces;
  ipv4 = c.ipv4;
  ipv6 = c.ipv6;
}

abbrev pub or_fallback {ℓ} : {A : Type ℓ} → A → Decoded A → A
or_fallback fallback (ok answer) = answer
or_fallback fallback (err e) = fallback

abbrev pub invoke_query {ℓ} :
    {A : Type ℓ} → Option QueryService → A → (QueryService → Decoded A) → A
invoke_query none fallback function = fallback
invoke_query (some service) fallback function = or_fallback fallback (function service)

abbrev pub macs_of : List RemoteCandidate → List Text
macs_of [] = []
macs_of (c ∷ candidates) = c.mac ∷ macs_of candidates

module _ {V : Type 0} ⦃v : Variant V⦄ where
  unfoldable pub query_local_snapshot : Option QueryService → VariantMap V
  query_local_snapshot binding =
      invoke_query binding []
        (λ service. encode_local_snapshot (to_wire_snapshot service.local_snapshot))

  abbrev pub found_interface : Option LocalInterfaceState → Decoded (VariantMap V)
  found_interface none = ok []
  found_interface (some iface) = interface_to_variant_map iface

  unfoldable pub query_interface : Option QueryService → Text → VariantMap V
  query_interface binding ifname =
      invoke_query binding [] (λ service. found_interface (service.get_interface ifname))

  abbrev pub found_candidate : Option RemoteCandidate → Decoded (VariantMap V)
  found_candidate none = ok []
  found_candidate (some c) = candidate_to_variant_map (to_wire_candidate c)

  unfoldable pub query_candidate_by_mac : Option QueryService → Text → VariantMap V
  query_candidate_by_mac binding mac =
      invoke_query binding [] (λ service. found_candidate (service.get_candidate_by_mac mac))

  unfoldable pub query_issues : Option QueryService → List (Text × VariantMap V)
  query_issues binding = invoke_query binding [] (λ service. encode_issues service.get_issues)

unfoldable pub query_ready : Option QueryService → Bool
query_ready binding = invoke_query binding false (λ service. ok service.is_ready)

unfoldable pub query_phase : Option QueryService → Text
query_phase binding = invoke_query binding (codes "stopped") (λ service. ok service.get_phase)

unfoldable pub query_remote_candidate_macs : Option QueryService → List Text
query_remote_candidate_macs binding =
    invoke_query binding [] (λ service. encode_candidate_macs (macs_of service.remote_candidates))
