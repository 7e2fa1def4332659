-- ===== src/Transports/Codec/Snapshots.antt =====
-- A local snapshot, and the issues, are decoded as they were encoded.
use rmc_fabric.Base.{◌≡◌, refl, Text, text_discrete, List, leb, ite}
use rmc_fabric.Base.Result.{ok, err, require, >>-eq-ok, >>=-eq-ok, ok_eq}
use rmc_fabric.Model.Types.{LocalInterfaceState}
use rmc_fabric.Transports.Variant.{Variant, VariantMap, IsVariant}
use rmc_fabric.Transports.Codec.Checks.{length, DecodeErrorCode, validate_key, validate_string}
use rmc_fabric.Transports.Codec.Reads.{string_of-of_string}
use rmc_fabric.Transports.Codec.Loops.{
  emplace_each-emplace_each, AllValues, AreDistinct, keys, all_unit,
}
use rmc_fabric.Transports.Codec.Interfaces.{
  max_interfaces, WireSnapshot, encode_interface, decode_interface, encode_local_snapshot,
  from_variant_map_local_snapshot, interface_to_variant_map,
}
use rmc_fabric.Transports.Codec.Interfaces.RoundTrip.{
  IsInterface, from_variant_map_iface-interface_to_variant_map,
}
use rmc_fabric.Transports.Codec.Issues.{
  max_issues, max_issue_fields, Issues, IssueFields, encode_issue_field, decode_issue_field,
  encode_issue, decode_issue, encode_issues, decode_issues, validate_required_issue_fields,
}

module _ {V : Type 0} ⦃v : Variant V⦄ (laws : IsVariant v) where
  decode_interface-encode_interface :
      (name : Text) (iface : LocalInterfaceState) (value : V)
      → IsInterface iface
      → encode_interface name iface ≡ ok value
      → decode_interface name value ≡ ok iface
  unfolding encode_interface decode_interface
  decode_interface-encode_interface name iface value valid e =
      let (ekey, e) = >>-eq-ok (validate_key name) _ e in
      let (ename, e) =
        >>-eq-ok (ite (text_discrete name iface.ifname) (ok tt) (err DecodeErrorCode.invalid_value))
          _ e in
      let (m, em, e) = >>=-eq-ok (interface_to_variant_map iface) _ e in
      rw
        (
          ← ok_eq e,
          ekey,
          laws.to_map-of_map m,
          from_variant_map_iface-interface_to_variant_map laws iface m valid em,
          ename,
        )
        refl

  -- If a local snapshot, its names distinct and each interface as in the round trip of one, is
  -- encoded without an error, then the map decodes to that snapshot.
  pub from_variant_map_local_snapshot-encode_local_snapshot :
      (snapshot : WireSnapshot) (m : VariantMap V)
      → AllValues IsInterface snapshot
      → AreDistinct (keys snapshot)
      → encode_local_snapshot snapshot ≡ ok m
      → from_variant_map_local_snapshot m ≡ ok snapshot
  unfolding encode_local_snapshot from_variant_map_local_snapshot
  from_variant_map_local_snapshot-encode_local_snapshot snapshot m valid distinct e =
      let (few, e) =
        >>-eq-ok (require (leb (length snapshot) max_interfaces) DecodeErrorCode.limit_exceeded) _
          e in
      let (back, same) =
        emplace_each-emplace_each encode_interface decode_interface
          decode_interface-encode_interface snapshot valid distinct e in
      rw (same, few) back

  decode_issue_field-encode_issue_field :
      (name value : Text) (field : V)
      → Unit {0}
      → encode_issue_field name value ≡ ok field
      → decode_issue_field name field ≡ ok value
  unfolding encode_issue_field decode_issue_field
  decode_issue_field-encode_issue_field name value field valid e =
      let (ekey, e) = >>-eq-ok (validate_key name) _ e in
      let (evalue, e) = >>-eq-ok (validate_string value) _ e in
      rw (← ok_eq e, ekey) (string_of-of_string laws value evalue)

  decode_issue-encode_issue :
      (code : Text) (fields : IssueFields) (m : VariantMap V)
      → AreDistinct (keys fields)
      → encode_issue code fields ≡ ok m
      → decode_issue code m ≡ ok fields
  unfolding encode_issue decode_issue
  decode_issue-encode_issue code fields m distinct e =
      let (ekey, e) = >>-eq-ok (validate_key code) _ e in
      let (eneeded, e) = >>-eq-ok (validate_required_issue_fields fields) _ e in
      let (few, e) =
        >>-eq-ok (require (leb (length fields) max_issue_fields) DecodeErrorCode.limit_exceeded) _
          e in
      let (back, same) =
        emplace_each-emplace_each encode_issue_field decode_issue_field
          decode_issue_field-encode_issue_field fields (all_unit fields) distinct e in
      rw (ekey, same, few, back, eneeded) refl

  -- If the issues, their codes distinct and the names in each distinct, are encoded without an
  -- error, then the maps decode to those issues.
  pub decode_issues-encode_issues :
      (issues : Issues) (m : List (Text × VariantMap V))
      → AllValues (λ fields. AreDistinct (keys fields)) issues
      → AreDistinct (keys issues)
      → encode_issues issues ≡ ok m
      → decode_issues m ≡ ok issues
  unfolding encode_issues decode_issues
  decode_issues-encode_issues issues m valid distinct e =
      let (few, e) =
        >>-eq-ok (require (leb (length issues) max_issues) DecodeErrorCode.limit_exceeded) _ e in
      let (back, same) =
        emplace_each-emplace_each encode_issue decode_issue decode_issue-encode_issue issues valid
          distinct e in
      rw (same, few) back
