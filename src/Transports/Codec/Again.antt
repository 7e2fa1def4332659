-- ===== src/Transports/Codec/Again.antt =====
-- What is decoded can be encoded again, and decodes to the same.
use rmc_fabric.Base.{◌≡◌, refl, codes}
use rmc_fabric.Base.Result.{ok, ◌>>=◌, Ensures, holds, Ensures-ok, Ensures->>=, anything, checked}
use rmc_fabric.Transports.Variant.{Variant, VariantMap, IsVariant}
use rmc_fabric.Transports.Codec.Checks.{
  validate_string, validate_optional, validate_map_limit, require_string, require_bool,
}
use rmc_fabric.Transports.Codec.Limits.{
  IsValidSet, require_string-valid, optional_string-valid, require_string_set-IsValidSet,
}
use rmc_fabric.Transports.Codec.Names.{parse_classification, parse_status}
use rmc_fabric.Transports.Codec.Candidates.{
  WireCandidate, candidate_fields, candidate_to_variant_map, from_variant_map_candidate,
}
use rmc_fabric.Transports.Codec.Candidates.RoundTrip.{
  IsCandidate, from_variant_map_candidate-candidate_to_variant_map,
}

-- The checks that the encoder makes, with the order of the sets.
record IsEncodable (c : WireCandidate) : Type 0 where
  mac : validate_string c.mac ≡ ok tt
  bridge_port : validate_optional c.bridge_port ≡ ok tt
  remote_chassis_id : validate_optional c.remote_chassis_id ≡ ok tt
  remote_port_id : validate_optional c.remote_port_id ≡ ok tt
  remote_system_name : validate_optional c.remote_system_name ≡ ok tt
  neighbor_ifaces : IsValidSet c.neighbor_ifaces
  ipv4 : IsValidSet c.ipv4
  ipv6 : IsValidSet c.ipv6

module _ {V : Type 0} ⦃v : Variant V⦄ where
  from_variant_map_candidate-IsEncodable :
      (m : VariantMap V) → Ensures IsEncodable (from_variant_map_candidate m)
  unfolding from_variant_map_candidate
  from_variant_map_candidate-IsEncodable m = checked (validate_map_limit m 13) _ (λ _.
      Ensures->>= (require_string-valid m (codes "mac")) (λ mac emac.
        Ensures->>= (anything (require_string m (codes "classification") >>= parse_classification))
          (λ class _.
            Ensures->>= (anything (require_string m (codes "status") >>= parse_status)) (λ status _.
              Ensures->>= (anything (require_bool m (codes "seenInFdb"))) (λ fdb _.
                Ensures->>= (anything (require_bool m (codes "seenInNeigh"))) (λ neigh _.
                  Ensures->>= (anything (require_bool m (codes "seenInLldp"))) (λ lldp _.
                    Ensures->>= (optional_string-valid m (codes "bridgePort")) (λ port eport.
                      Ensures->>= (optional_string-valid m (codes "remoteChassisId"))
                        (λ chassis echassis.
                          Ensures->>= (optional_string-valid m (codes "remotePortId"))
                            (λ remote eremote.
                              Ensures->>= (optional_string-valid m (codes "remoteSystemName"))
                                (λ name ename.
                                  Ensures->>=
                                    (require_string_set-IsValidSet m (codes "neighborIfaces"))
                                    (λ ifaces eifaces.
                                      Ensures->>= (require_string_set-IsValidSet m (codes "ipv4"))
                                        (λ ip4 e4.
                                          Ensures->>=
                                            (require_string_set-IsValidSet m (codes "ipv6"))
                                            (λ ip6 e6. holds (record {
                                              mac = emac;
                                              bridge_port = eport;
                                              remote_chassis_id = echassis;
                                              remote_port_id = eremote;
                                              remote_system_name = ename;
                                              neighbor_ifaces = eifaces;
                                              ipv4 = e4;
                                              ipv6 = e6;
                                            })))))))))))))))

candidate_to_variant_map-IsEncodable :
    (V : Type 0) ⦃v : Variant V⦄ (c : WireCandidate)
    → IsEncodable c
    → candidate_to_variant_map {V = V} c ≡ ok (candidate_fields c)
unfolding candidate_to_variant_map
candidate_to_variant_map-IsEncodable V c h =
    rw
      (
        h.mac, h.bridge_port, h.remote_chassis_id, h.remote_port_id, h.remote_system_name,
        h.neighbor_ifaces.valid, h.ipv4.valid, h.ipv6.valid,
      )
      refl

module _ {V : Type 0} ⦃v : Variant V⦄ (laws : IsVariant v) where
  -- If a map decodes to a remote candidate, then the candidate is encoded without an error, and
  -- what it is encoded to decodes to the candidate as well.
  pub from_variant_map_candidate-again :
      (m : VariantMap V) (c : WireCandidate)
      → from_variant_map_candidate m ≡ ok c
      → (candidate_to_variant_map c ≡ ok (candidate_fields {V = V} c))
        × (from_variant_map_candidate (candidate_fields {V = V} c) ≡ ok c)
  from_variant_map_candidate-again m c e =
      let h = Ensures-ok e (from_variant_map_candidate-IsEncodable m) in
      let sent = candidate_to_variant_map-IsEncodable V c h in
      let valid : IsCandidate c = record {
        neighbor_ifaces = h.neighbor_ifaces.sorted;
        ipv4 = h.ipv4.sorted;
        ipv6 = h.ipv6.sorted;
      } in
      (sent, from_variant_map_candidate-candidate_to_variant_map laws c _ valid sent)
