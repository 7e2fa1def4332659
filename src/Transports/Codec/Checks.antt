-- ===== src/Transports/Codec/Checks.antt =====
-- The checks and the field readers that the functions of the codec share.
use rmc_fabric.Base.{ℕ, suc, Text, text_discrete, Bool, List, [], ◌∷◌, Option, none, some, leb, ite}
use rmc_fabric.Base.Result.{Result, ok, err, ◌>>=◌, ◌>>◌, require}
use rmc_fabric.Containers.Map
use rmc_fabric.Containers.Set
use rmc_fabric.Model.Types.{text_ordered}
use rmc_fabric.Transports.Variant.{Variant, VariantMap, DataType, DataType-discrete}

-- The codes that the codecs throw.
pub data DecodeErrorCode : Type 0 where
  missing_required_field invalid_type invalid_value limit_exceeded : DecodeErrorCode

abbrev pub Decoded {ℓ} : Type ℓ → Type ℓ
Decoded A = Result DecodeErrorCode A

abbrev pub length {ℓ} : {A : Type ℓ} → List A → ℕ
length [] = 0
length (x ∷ xs) = suc (length xs)

abbrev pub max_key_length : ℕ
max_key_length = 255

abbrev pub max_string_length : ℕ
max_string_length = 4096

abbrev pub max_string_set_entries : ℕ
max_string_set_entries = 128

unfoldable pub validate_key : Text → Decoded (Unit {0})
validate_key key = require (leb (length key) max_key_length) DecodeErrorCode.limit_exceeded

unfoldable pub validate_string : Text → Decoded (Unit {0})
validate_string value =
    require (leb (length value) max_string_length) DecodeErrorCode.limit_exceeded

unfoldable pub validate_optional : Option Text → Decoded (Unit {0})
validate_optional none = ok tt
validate_optional (some value) = validate_string value

unfoldable pub validate_strings : List Text → Decoded (Unit {0})
validate_strings [] = ok tt
validate_strings (value ∷ values) = do validate_string value; validate_strings values

unfoldable pub validate_string_set : List Text → Decoded (Unit {0})
validate_string_set values = do
  require (leb (length values) max_string_set_entries) DecodeErrorCode.limit_exceeded
  validate_strings values

module _ {V : Type 0} ⦃v : Variant V⦄ where
  unfoldable pub validate_map_limit : VariantMap V → ℕ → Decoded (Unit {0})
  validate_map_limit m limit = require (leb (length m) limit) DecodeErrorCode.limit_exceeded

  abbrev pub found : Option V → Decoded V
  found none = err DecodeErrorCode.missing_required_field
  found (some value) = ok value

  unfoldable pub require_field : VariantMap V → Text → Decoded V
  require_field m key = found (Map.lookup text_discrete key m)

  -- `if (field.type() != type) throw ...`
  unfoldable pub has_type : DataType → V → Decoded (Unit {0})
  has_type type field =
      ite (DataType-discrete (v.data_type field) type) (ok tt) (err DecodeErrorCode.invalid_type)

  unfoldable pub string_of : V → Decoded Text
  string_of field = do
    has_type DataType.string field
    validate_string (v.to_string field)
    ok (v.to_string field)

  unfoldable pub require_string : VariantMap V → Text → Decoded Text
  require_string m key = do validate_key key; field ← require_field m key; string_of field

  abbrev pub optional_of : Option V → Decoded (Option Text)
  optional_of none = ok none
  optional_of (some field) = do value ← string_of field; ok (some value)

  unfoldable pub optional_string : VariantMap V → Text → Decoded (Option Text)
  optional_string m key = optional_of (Map.lookup text_discrete key m)

  unfoldable pub require_bool : VariantMap V → Text → Decoded Bool
  require_bool m key = do
    validate_key key
    field ← require_field m key
    has_type DataType.boolean field
    ok (v.to_bool field)

  unfoldable pub require_int32 : VariantMap V → Text → Decoded ℕ
  require_int32 m key = do
    validate_key key
    field ← require_field m key
    has_type DataType.int32 field
    ok (v.to_int32 field)

  abbrev pub vector_of : Option (List V) → Decoded (List V)
  vector_of none = err DecodeErrorCode.invalid_type
  vector_of (some values) = ok values

  -- The loop of `requireStringSet`, with the set built so far.
  unfoldable pub collect : List V → List Text → Decoded (List Text)
  collect [] out = ok out
  collect (value ∷ values) out = do item ← string_of value; collect values (Set.insert item out)

  unfoldable pub require_string_set : VariantMap V → Text → Decoded (List Text)
  require_string_set m key = do
    validate_key key
    field ← require_field m key
    values ← vector_of (v.to_vector field)
    require (leb (length values) max_string_set_entries) DecodeErrorCode.limit_exceeded
    collect values []
