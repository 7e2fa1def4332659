-- ===== src/Transports/Codec/Candidates/RoundTrip.antt =====
-- A remote candidate is decoded as it was encoded.
use mathlib.Core.Option
use rmc_fabric.Base.{◌≡◌, refl, subst, ◌≤◌, [], text_discrete, codes, some, arith, leb, true}
use rmc_fabric.Base.Result.{ok, >>-eq-ok, ok_eq}
use rmc_fabric.Containers.Map
use rmc_fabric.Transports.Variant.{Variant, VariantMap, IsVariant}
use rmc_fabric.Transports.Codec.Checks.{
  length, validate_key, validate_string, validate_optional, validate_string_set, validate_map_limit,
}
use rmc_fabric.Transports.Codec.Reads.{
  IsSorted, require_string-found, require_bool-found, optional_string-found,
  require_string_set-found,
}
use rmc_fabric.Transports.Codec.Names.{
  classification_to_string, status_to_string, parse_classification-classification_to_string,
  parse_status-status_to_string, short_classification, short_status,
}
use rmc_fabric.Transports.Codec.Interfaces.{strings}
use rmc_fabric.Transports.Codec.Interfaces.RoundTrip.{
  or_else-none, lookup-put_optional, put_within, put_optional_within,
}
use rmc_fabric.Transports.Codec.Candidates.{
  WireCandidate, candidate_fields, candidate_to_variant_map, from_variant_map_candidate,
}

-- The three sets of a candidate, in order.
pub record IsCandidate (c : WireCandidate) : Type 0 where
  pub neighbor_ifaces : IsSorted c.neighbor_ifaces
  pub ipv4 : IsSorted c.ipv4
  pub ipv6 : IsSorted c.ipv6

module _ {V : Type 0} ⦃v : Variant V⦄ (c : WireCandidate) where
  lookup_mac :
      Map.lookup text_discrete (codes "mac") (candidate_fields {V = V} c) ≡ some (v.of_string c.mac)
  unfolding candidate_fields text_discrete
  lookup_mac = simp (Map.lookup-insert, lookup-put_optional) refl

  lookup_classification :
      Map.lookup text_discrete (codes "classification") (candidate_fields {V = V} c)
      ≡ some (v.of_string (classification_to_string c.classification))
  unfolding candidate_fields text_discrete
  lookup_classification = simp (Map.lookup-insert, lookup-put_optional) refl

  lookup_status :
      Map.lookup text_discrete (codes "status") (candidate_fields {V = V} c)
      ≡ some (v.of_string (status_to_string c.status))
  unfolding candidate_fields text_discrete
  lookup_status = simp (Map.lookup-insert, lookup-put_optional) refl

  lookup_seen_in_fdb :
      Map.lookup text_discrete (codes "seenInFdb") (candidate_fields {V = V} c)
      ≡ some (v.of_bool c.seen_in_fdb)
  unfolding candidate_fields text_discrete
  lookup_seen_in_fdb = simp (Map.lookup-insert, lookup-put_optional) refl

  lookup_seen_in_neigh :
      Map.lookup text_discrete (codes "seenInNeigh") (candidate_fields {V = V} c)
      ≡ some (v.of_bool c.seen_in_neigh)
  unfolding candidate_fields text_discrete
  lookup_seen_in_neigh = simp (Map.lookup-insert, lookup-put_optional) refl

  lookup_seen_in_lldp :
      Map.lookup text_discrete (codes "seenInLldp") (candidate_fields {V = V} c)
      ≡ some (v.of_bool c.seen_in_lldp)
  unfolding candidate_fields text_discrete
  lookup_seen_in_lldp = simp (Map.lookup-insert, lookup-put_optional) refl

  lookup_bridge_port :
      Map.lookup text_discrete (codes "bridgePort") (candidate_fields {V = V} c)
      ≡ Option.map v.of_string c.bridge_port
  unfolding candidate_fields text_discrete Map.lookup
  lookup_bridge_port =
      simp (Map.lookup-insert, lookup-put_optional)
        (or_else-none (Option.map v.of_string c.bridge_port))

  lookup_remote_chassis_id :
      Map.lookup text_discrete (codes "remoteChassisId") (candidate_fields {V = V} c)
      ≡ Option.map v.of_string c.remote_chassis_id
  unfolding candidate_fields text_discrete Map.lookup
  lookup_remote_chassis_id =
      simp (Map.lookup-insert, lookup-put_optional)
        (or_else-none (Option.map v.of_string c.remote_chassis_id))

  lookup_remote_port_id :
      Map.lookup text_discrete (codes "remotePortId") (candidate_fields {V = V} c)
      ≡ Option.map v.of_string c.remote_port_id
  unfolding candidate_fields text_discrete Map.lookup
  lookup_remote_port_id =
      simp (Map.lookup-insert, lookup-put_optional)
        (or_else-none (Option.map v.of_string c.remote_port_id))

  lookup_remote_system_name :
      Map.lookup text_discrete (codes "remoteSystemName") (candidate_fields {V = V} c)
      ≡ Option.map v.of_string c.remote_system_name
  unfolding candidate_fields text_discrete Map.lookup
  lookup_remote_system_name =
      simp (Map.lookup-insert, lookup-put_optional)
        (or_else-none (Option.map v.of_string c.remote_system_name))

  lookup_neighbor_ifaces :
      Map.lookup text_discrete (codes "neighborIfaces") (candidate_fields {V = V} c)
      ≡ some (strings c.neighbor_ifaces)
  unfolding candidate_fields text_discrete
  lookup_neighbor_ifaces = simp (Map.lookup-insert, lookup-put_optional) refl

  lookup_ipv4 :
      Map.lookup text_discrete (codes "ipv4") (candidate_fields {V = V} c) ≡ some (strings c.ipv4)
  unfolding candidate_fields text_discrete
  lookup_ipv4 = simp (Map.lookup-insert, lookup-put_optional) refl

  lookup_ipv6 :
      Map.lookup text_discrete (codes "ipv6") (candidate_fields {V = V} c) ≡ some (strings c.ipv6)
  unfolding candidate_fields text_discrete
  lookup_ipv6 = simp (Map.lookup-insert, lookup-put_optional) refl

length-candidate_fields :
    (V : Type 0) ⦃v : Variant V⦄ (c : WireCandidate)
    → leb (length (candidate_fields {V = V} c)) 13 ≡ true
unfolding candidate_fields
length-candidate_fields V c =
    let few : length (candidate_fields {V = V} c) ≤ 13 = put_within {V = V} _ _ _ (
      put_within {V = V} _ _ _ (
        put_within {V = V} _ _ _ (
          put_optional_within {V = V} _ _ _ (
            put_optional_within {V = V} _ _ _ (
              put_optional_within {V = V} _ _ _ (
                put_optional_within {V = V} _ _ _ (
                  put_within {V = V} _ _ _ (
                    put_within {V = V} _ _ _ (
                      put_within {V = V} _ _ _ (
                        put_within {V = V} _ _ _ (
                          put_within {V = V} _ _ _
                            (put_within {V = V} _ _ [] (omega arith))))))))))))) in
    ground (arith, few)

module _ {V : Type 0} ⦃v : Variant V⦄ (laws : IsVariant v) where
  -- If a remote candidate, its sets in order, is encoded without an error, then the map decodes to
  -- that candidate.
  pub from_variant_map_candidate-candidate_to_variant_map :
      (c : WireCandidate) (m : VariantMap V)
      → IsCandidate c
      → candidate_to_variant_map c ≡ ok m
      → from_variant_map_candidate m ≡ ok c
  unfolding candidate_to_variant_map from_variant_map_candidate validate_map_limit validate_key
  from_variant_map_candidate-candidate_to_variant_map c m valid e =
      let (emac, e) = >>-eq-ok (validate_string c.mac) _ e in
      let (e_bridge_port, e) = >>-eq-ok (validate_optional c.bridge_port) _ e in
      let (e_remote_chassis_id, e) = >>-eq-ok (validate_optional c.remote_chassis_id) _ e in
      let (e_remote_port_id, e) = >>-eq-ok (validate_optional c.remote_port_id) _ e in
      let (e_remote_system_name, e) = >>-eq-ok (validate_optional c.remote_system_name) _ e in
      let (e_neighbor_ifaces, e) = >>-eq-ok (validate_string_set c.neighbor_ifaces) _ e in
      let (e_ipv4, e) = >>-eq-ok (validate_string_set c.ipv4) _ e in
      let (e_ipv6, e) = >>-eq-ok (validate_string_set c.ipv6) _ e in
      subst (λ n. from_variant_map_candidate n ≡ ok c) (ok_eq e)
        (rw
          (
            length-candidate_fields V c,
            require_string-found laws _ (codes "mac") refl (lookup_mac c) emac,
            require_string-found laws _ (codes "classification") refl (lookup_classification c)
                (short_classification c.classification),
            parse_classification-classification_to_string c.classification,
            require_string-found laws _ (codes "status") refl (lookup_status c)
                (short_status c.status),
            parse_status-status_to_string c.status,
            require_bool-found laws _ (codes "seenInFdb") refl (lookup_seen_in_fdb c),
            require_bool-found laws _ (codes "seenInNeigh") refl (lookup_seen_in_neigh c),
            require_bool-found laws _ (codes "seenInLldp") refl (lookup_seen_in_lldp c),
            optional_string-found laws _ (codes "bridgePort") _ (lookup_bridge_port c)
                e_bridge_port,
            optional_string-found laws _ (codes "remoteChassisId") _ (lookup_remote_chassis_id c)
                e_remote_chassis_id,
            optional_string-found laws _ (codes "remotePortId") _ (lookup_remote_port_id c)
                e_remote_port_id,
            optional_string-found laws _ (codes "remoteSystemName") _ (lookup_remote_system_name c)
                e_remote_system_name,
            require_string_set-found laws _ (codes "neighborIfaces") refl (lookup_neighbor_ifaces c)
                e_neighbor_ifaces valid.neighbor_ifaces,
            require_string_set-found laws _ (codes "ipv4") refl (lookup_ipv4 c) e_ipv4 valid.ipv4,
            require_string_set-found laws _ (codes "ipv6") refl (lookup_ipv6 c) e_ipv6 valid.ipv6,
          )
          refl)
