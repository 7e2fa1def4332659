-- ===== src/Transports/Query/Answers.antt =====
-- What a client reads out of an answer.
use rmc_fabric.Base.{◌≡◌, Text, Option, none, some}
use rmc_fabric.Base.Result.{ok, err}
use rmc_fabric.Containers.Map
use rmc_fabric.Model.Types.{RemoteCandidate}
use rmc_fabric.Transports.Variant.{Variant, VariantMap}
use rmc_fabric.Transports.Codec.Checks.{Decoded, DecodeErrorCode}
use rmc_fabric.Transports.Codec.Candidates.{WireCandidate, candidate_to_variant_map}
use rmc_fabric.Transports.Codec.Candidates.RoundTrip.{IsCandidate}
use rmc_fabric.Transports.Query.{QueryService}

-- What a client is to see of a candidate: each of its own fields.
pub record Shows (c : RemoteCandidate) (w : WireCandidate) : Type 0 where
  pub mac : w.mac ≡ c.mac
  pub classification : w.classification ≡ c.classification
  pub status : w.status ≡ c.status
  pub seen_in_fdb : w.seen_in_fdb ≡ c.seen_in_fdb
  pub seen_in_neigh : w.seen_in_neigh ≡ c.seen_in_neigh
  pub seen_in_lldp : w.seen_in_lldp ≡ c.seen_in_lldp
  pub bridge_port : w.bridge_port ≡ c.bridge_port
  pub remote_chassis_id : w.remote_chassis_id ≡ c.remote_chassis_id
  pub remote_port_id : w.remote_port_id ≡ c.remote_port_id
  pub remote_system_name : w.remote_system_name ≡ c.remote_system_name
  pub neighbor_ifaces : w.neighbor_ifaces ≡ c.neighbor_ifaces
  pub ipv4 : w.ipv4 ≡ c.ipv4
  pub ipv6 : w.ipv6 ≡ c.ipv6

-- There is something to see exactly where there is a candidate, and its sets are in order.
abbrev pub AreShown : Option RemoteCandidate → Option WireCandidate → Type 0
AreShown none none = Unit
AreShown (some c) (some w) = Shows c w × IsCandidate w
AreShown _ _ = ⊥

-- What the service has, where there is one.
abbrev pub asked : Option QueryService → Text → Option RemoteCandidate
asked none mac = none
asked (some service) mac = service.get_candidate_by_mac mac

-- The candidate, if it was encoded without an error.
abbrev sent_or_missing :
    {V : Type 0} → WireCandidate → Decoded (VariantMap V) → Decoded WireCandidate
sent_or_missing c (ok m) = ok c
sent_or_missing c (err e) = err DecodeErrorCode.missing_required_field

module _ (V : Type 0) ⦃v : Variant V⦄ where
  -- What a client should read: what there is to see, if it is within the limits, or else that there
  -- is nothing.
  abbrev pub read_candidate : Option WireCandidate → Decoded WireCandidate
  read_candidate none = err DecodeErrorCode.missing_required_field
  read_candidate (some w) = sent_or_missing w (candidate_to_variant_map {V = V} w)
