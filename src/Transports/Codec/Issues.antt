-- ===== src/Transports/Codec/Issues.antt =====
-- The issues of the service as maps of variant maps, and back.
use rmc_fabric.Base.{ℕ, Text, text_discrete, codes, List, [], ◌∷◌, leb}
use rmc_fabric.Base.Result.{ok, ◌>>=◌, ◌>>◌, require}
use rmc_fabric.Containers.Map
use rmc_fabric.Transports.Variant.{Variant, VariantMap}
use rmc_fabric.Transports.Codec.Checks.{
  Decoded, DecodeErrorCode, length, validate_key, validate_string, string_of,
}
use rmc_fabric.Transports.Codec.Loops.{emplace_each}
use rmc_fabric.Base.{is_some}

abbrev pub max_issues : ℕ
max_issues = 128

abbrev pub max_issue_fields : ℕ
max_issue_fields = 16

-- `ObservationIssueFields` and `ObservationIssues`.
abbrev pub IssueFields : Type 0
IssueFields = List (Text × Text)

abbrev pub Issues : Type 0
Issues = List (Text × IssueFields)

abbrev pub required_issue_fields : List Text
required_issue_fields =
    codes "severity"
    ∷ codes "message"
    ∷ codes "component"
    ∷ codes "operation"
    ∷ codes "category"
    ∷ codes "identity"
    ∷ []

-- The loop over the required names.
abbrev pub validate_fields : List Text → IssueFields → Decoded (Unit {0})
validate_fields [] fields = ok tt
validate_fields (field ∷ required) fields = do
  require (is_some (Map.lookup text_discrete field fields)) DecodeErrorCode.missing_required_field
  validate_fields required fields

unfoldable pub validate_required_issue_fields : IssueFields → Decoded (Unit {0})
validate_required_issue_fields fields = validate_fields required_issue_fields fields

module _ {V : Type 0} ⦃v : Variant V⦄ where
  unfoldable pub encode_issue_field : Text → Text → Decoded V
  encode_issue_field name value = do
    validate_key name
    validate_string value
    ok (v.of_string value)

  -- The body of the loop of `encodeIssues`.
  unfoldable pub encode_issue : Text → IssueFields → Decoded (VariantMap V)
  encode_issue code fields = do
    validate_key code
    validate_required_issue_fields fields
    require (leb (length fields) max_issue_fields) DecodeErrorCode.limit_exceeded
    emplace_each encode_issue_field fields []

  unfoldable pub encode_issues : Issues → Decoded (List (Text × VariantMap V))
  encode_issues issues = do
    require (leb (length issues) max_issues) DecodeErrorCode.limit_exceeded
    emplace_each encode_issue issues []

  unfoldable pub decode_issue_field : Text → V → Decoded Text
  decode_issue_field name value = do validate_key name; string_of value

  -- The body of the loop of `decodeIssues`.
  unfoldable pub decode_issue : Text → VariantMap V → Decoded IssueFields
  decode_issue code fields = do
    validate_key code
    require (leb (length fields) max_issue_fields) DecodeErrorCode.limit_exceeded
    decoded_fields ← emplace_each decode_issue_field fields []
    validate_required_issue_fields decoded_fields
    ok decoded_fields

  unfoldable pub decode_issues : List (Text × VariantMap V) → Decoded Issues
  decode_issues issues = do
    require (leb (length issues) max_issues) DecodeErrorCode.limit_exceeded
    emplace_each decode_issue issues []
