-- ===== src/Transports/Codec/Candidates.antt =====
-- Remote candidates as variant maps, and back.
pub mod RoundTrip
use rmc_fabric.Base.{ℕ, Text, codes, Bool, List, [], ◌∷◌, Option, leb}
use rmc_fabric.Base.Result.{Result, ok, ◌>>=◌, ◌>>◌, require}
use rmc_fabric.Model.Types.{CandidateClassification, CandidateStatus}
use rmc_fabric.Transports.Variant.{Variant, VariantMap}
use rmc_fabric.Transports.Codec.Checks.{
  Decoded, DecodeErrorCode, length, validate_string, validate_optional, validate_string_set,
  validate_strings, validate_map_limit, require_string, require_bool, optional_string,
  require_string_set,
}
use rmc_fabric.Transports.Codec.Names.{
  classification_to_string, status_to_string, parse_classification, parse_status,
}
use rmc_fabric.Transports.Codec.Interfaces.{put, put_optional, strings}

abbrev pub max_candidates : ℕ
max_candidates = 1024

-- `RemoteCandidate` of lib/interop_contract/network_observation/NetworkObservationTypes.hpp.
pub record WireCandidate : Type 0 where
  pub mac : Text
  pub classification : CandidateClassification
  pub status : CandidateStatus
  pub seen_in_fdb : Bool
  pub seen_in_neigh : Bool
  pub seen_in_lldp : Bool
  pub bridge_port : Option Text
  pub remote_chassis_id : Option Text
  pub remote_port_id : Option Text
  pub remote_system_name : Option Text
  pub neighbor_ifaces : List Text
  pub ipv4 : List Text
  pub ipv6 : List Text

module _ {V : Type 0} ⦃v : Variant V⦄ where
  -- The entries, last to first.
  unfoldable pub candidate_fields : WireCandidate → VariantMap V
  candidate_fields c = put (codes "ipv6") (strings c.ipv6) (
      put (codes "ipv4") (strings c.ipv4) (
        put (codes "neighborIfaces") (strings c.neighbor_ifaces) (
          put_optional (codes "remoteSystemName") c.remote_system_name (
            put_optional (codes "remotePortId") c.remote_port_id (
              put_optional (codes "remoteChassisId") c.remote_chassis_id (
                put_optional (codes "bridgePort") c.bridge_port (
                  put (codes "seenInLldp") (v.of_bool c.seen_in_lldp) (
                    put (codes "seenInNeigh") (v.of_bool c.seen_in_neigh) (
                      put (codes "seenInFdb") (v.of_bool c.seen_in_fdb) (
                        put (codes "status") (v.of_string (status_to_string c.status)) (
                          put (codes "classification")
                            (v.of_string (classification_to_string c.classification))
                            (put (codes "mac") (v.of_string c.mac) []))))))))))))

  unfoldable pub candidate_to_variant_map : WireCandidate → Decoded (VariantMap V)
  candidate_to_variant_map c = do
    validate_string c.mac
    validate_optional c.bridge_port
    validate_optional c.remote_chassis_id
    validate_optional c.remote_port_id
    validate_optional c.remote_system_name
    validate_string_set c.neighbor_ifaces
    validate_string_set c.ipv4
    validate_string_set c.ipv6
    ok (candidate_fields c)

  unfoldable pub from_variant_map_candidate : VariantMap V → Decoded WireCandidate
  from_variant_map_candidate m = do
    validate_map_limit m 13
    mac ← require_string m (codes "mac")
    classification ← require_string m (codes "classification") >>= parse_classification
    status ← require_string m (codes "status") >>= parse_status
    seen_in_fdb ← require_bool m (codes "seenInFdb")
    seen_in_neigh ← require_bool m (codes "seenInNeigh")
    seen_in_lldp ← require_bool m (codes "seenInLldp")
    bridge_port ← optional_string m (codes "bridgePort")
    remote_chassis_id ← optional_string m (codes "remoteChassisId")
    remote_port_id ← optional_string m (codes "remotePortId")
    remote_system_name ← optional_string m (codes "remoteSystemName")
    neighbor_ifaces ← require_string_set m (codes "neighborIfaces")
    ipv4 ← require_string_set m (codes "ipv4")
    ipv6 ← require_string_set m (codes "ipv6")
    ok (record {
      mac = mac;
      classification = classification;
      status = status;
      seen_in_fdb = seen_in_fdb;
      seen_in_neigh = seen_in_neigh;
      seen_in_lldp = seen_in_lldp;
      bridge_port = bridge_port;
      remote_chassis_id = remote_chassis_id;
      remote_port_id = remote_port_id;
      remote_system_name = remote_system_name;
      neighbor_ifaces = neighbor_ifaces;
      ipv4 = ipv4;
      ipv6 = ipv6;
    })

unfoldable pub encode_candidate_macs : List Text → Decoded (List Text)
encode_candidate_macs macs = do
  require (leb (length macs) max_candidates) DecodeErrorCode.limit_exceeded
  validate_strings macs
  ok macs
