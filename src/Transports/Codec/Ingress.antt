-- ===== src/Transports/Codec/Ingress.antt =====
-- What the service accepts from a map: the limits on the numbers of entries, the names of the
-- interfaces, and the fields of an issue.
use rmc_fabric.Base.{
  ℕ, ◌≡◌, ◌≤◌, Text, text_discrete, List, [], ◌∷◌, is_some, leb, ite, true, arith,
}
use rmc_fabric.Base.Result.{
  ok, err, require, ◌>>◌, Ensures, holds, thrown, Ensures-ok, Ensures->>=, Ensures-weaken, anything,
  checked, require-eq-ok, >>-eq-ok,
}
use rmc_fabric.Containers.Map
use rmc_fabric.Model.Types.{LocalInterfaceState}
use rmc_fabric.Transports.Variant.{Variant, VariantMap}
use rmc_fabric.Transports.Codec.Checks.{DecodeErrorCode, length, validate_key}
use rmc_fabric.Transports.Codec.Loops.{emplace_each-AreEntries, AreEntries}
use rmc_fabric.Transports.Codec.Interfaces.{
  max_interfaces, WireSnapshot, decode_interface, from_variant_map_local_snapshot,
  from_variant_map_iface, map_of,
}
use rmc_fabric.Transports.Codec.Issues.{
  Issues, IssueFields, max_issues, max_issue_fields, required_issue_fields, validate_fields,
  validate_required_issue_fields, decode_issue_field, decode_issue, decode_issues,
}

abbrev pub IsNamed : Text → LocalInterfaceState → Type 0
IsNamed name iface = name ≡ iface.ifname

-- Every one of the names is a field.
abbrev pub HasFields : List Text → IssueFields → Type 0
HasFields [] fields = Unit
HasFields (name ∷ names) fields =
    (is_some (Map.lookup text_discrete name fields) ≡ true) × HasFields names fields

abbrev pub IsIssue : Text → IssueFields → Type 0
IsIssue code fields = HasFields required_issue_fields fields × (length fields ≤ max_issue_fields)

validate_fields-HasFields :
    (names : List Text) (fields : IssueFields)
    → Ensures (λ _. HasFields names fields) (validate_fields names fields)
validate_fields-HasFields [] fields = holds tt
validate_fields-HasFields (name ∷ names) fields =
    checked
      (require (is_some (Map.lookup text_discrete name fields))
        DecodeErrorCode.missing_required_field)
      _
      (λ e.
        Ensures-weaken (validate_fields-HasFields names fields)
          (λ _ h. (require-eq-ok _ DecodeErrorCode.missing_required_field e, h)))

limited : (n limit : ℕ) → require (leb n limit) DecodeErrorCode.limit_exceeded ≡ ok tt → n ≤ limit
limited n limit e =
    let h = require-eq-ok (leb n limit) DecodeErrorCode.limit_exceeded e in ground arith

named :
    (name : Text) (iface : LocalInterfaceState) (d : Dec (name ≡ iface.ifname))
    → Ensures (IsNamed name) (ite d (ok tt) (err DecodeErrorCode.invalid_value) >> ok iface)
named name iface (yes e) = holds e
named name iface (no n) = thrown

module _ {V : Type 0} ⦃v : Variant V⦄ where
  decode_interface-IsNamed :
      (name : Text) (value : V) → Ensures (IsNamed name) (decode_interface name value)
  unfolding decode_interface
  decode_interface-IsNamed name value = checked (validate_key name) _ (λ _.
      Ensures->>= (anything (map_of (v.to_map value))) (λ fields _.
        Ensures->>= (anything (from_variant_map_iface fields))
          (λ iface _. named name iface (text_discrete name iface.ifname))))

  -- If a map decodes to a local snapshot, then the snapshot has at most 256 interfaces, each under
  -- its own name.
  pub from_variant_map_local_snapshot-AreEntries :
      (m : VariantMap V) (snapshot : WireSnapshot)
      → from_variant_map_local_snapshot m ≡ ok snapshot
      → AreEntries IsNamed 256 snapshot
  unfolding from_variant_map_local_snapshot
  from_variant_map_local_snapshot-AreEntries m snapshot e =
      let (few, e) =
        >>-eq-ok (require (leb (length m) max_interfaces) DecodeErrorCode.limit_exceeded) _ e in
      Ensures-ok e (
        emplace_each-AreEntries decode_interface decode_interface-IsNamed m [] tt
          (omega (arith, limited (length m) _ few)))

  decode_issue-IsIssue :
      (code : Text) (fields : VariantMap V) → Ensures (IsIssue code) (decode_issue code fields)
  unfolding decode_issue validate_required_issue_fields
  decode_issue-IsIssue code fields = checked (validate_key code) _ (λ _.
      checked (require (leb (length fields) max_issue_fields) DecodeErrorCode.limit_exceeded) _
        (λ few.
          Ensures->>=
            (emplace_each-AreEntries {P = λ _ _. Unit {0}} decode_issue_field
              (λ k a. anything (decode_issue_field k a)) fields [] tt
              (omega (arith, limited (length fields) max_issue_fields few)))
            (λ decoded h. checked (validate_fields required_issue_fields decoded) _ (λ e.
              holds
                (Ensures-ok e (validate_fields-HasFields required_issue_fields decoded), h.few)))))

  -- If maps decode to issues, then these are at most 128, each of them with at most 16 fields and
  -- with all the six fields that an issue must have.
  pub decode_issues-AreEntries :
      (m : List (Text × VariantMap V)) (issues : Issues)
      → decode_issues m ≡ ok issues
      → AreEntries IsIssue 128 issues
  unfolding decode_issues
  decode_issues-AreEntries m issues e =
      let (few, e) =
        >>-eq-ok (require (leb (length m) max_issues) DecodeErrorCode.limit_exceeded) _ e in
      Ensures-ok e (
        emplace_each-AreEntries decode_issue decode_issue-IsIssue m [] tt
          (omega (arith, limited (length m) _ few)))
