-- ===== src/Transports/Variant.antt =====
-- `DBus::Variant` of dbus-cxx, which is not part of the repository: the calls that the codecs make
-- of it, and what they rely on. A 32-bit integer is its bit
-- pattern.
use rmc_fabric.Base.{ℕ, ◌<◌, ◌^◌, ℤ, pos, negsuc, ◌≡◌, Text, Bool, List, Option, some}

pub data DataType : Type 0 where
  string boolean int32 int64 uint32 uint64 other : DataType

unfoldable pub DataType-discrete : Discrete DataType
DataType-discrete = hlevel

-- `std::map<std::string, DBus::Variant>`
abbrev pub VariantMap : Type 0 → Type 0
VariantMap V = List (Text × V)

-- The conversions `to_vector` and `to_map` throw where the value is of another type.
pub record Variant (V : Type 0) : Type 0 where
  pub data_type : V → DataType
  pub of_string : Text → V
  pub to_string : V → Text
  pub of_bool : Bool → V
  pub to_bool : V → Bool
  pub of_int32 : ℕ → V
  pub to_int32 : V → ℕ
  pub of_int64 : ℤ → V
  pub to_int64 : V → ℤ
  pub to_uint32 : V → ℕ
  pub of_uint64 : ℕ → V
  pub to_uint64 : V → ℕ
  pub of_vector : List V → V
  pub to_vector : V → Option (List V)
  pub of_map : VariantMap V → V
  pub to_map : V → Option (VariantMap V)

-- The values of an `int64_t`.
unfoldable pub IsInt64 : ℤ → Type 0
IsInt64 (pos n) = n < 2 ^ 63
IsInt64 (negsuc n) = n < 2 ^ 63

-- What is put into a variant is found in it, with its type.
pub record IsVariant {V : Type 0} (v : Variant V) : Type 0 where
  pub data_type-of_string : (s : Text) → v.data_type (v.of_string s) ≡ DataType.string
  pub to_string-of_string : (s : Text) → v.to_string (v.of_string s) ≡ s
  pub data_type-of_bool : (b : Bool) → v.data_type (v.of_bool b) ≡ DataType.boolean
  pub to_bool-of_bool : (b : Bool) → v.to_bool (v.of_bool b) ≡ b
  pub data_type-of_int32 : (n : ℕ) → v.data_type (v.of_int32 n) ≡ DataType.int32
  pub to_int32_bound : (x : V) → v.to_int32 x < 2 ^ 32
  pub to_int32-of_int32 : (n : ℕ) → n < 2 ^ 32 → v.to_int32 (v.of_int32 n) ≡ n
  pub data_type-of_int64 : (n : ℤ) → v.data_type (v.of_int64 n) ≡ DataType.int64
  pub to_int64-of_int64 : (n : ℤ) → IsInt64 n → v.to_int64 (v.of_int64 n) ≡ n
  pub data_type-of_uint64 : (n : ℕ) → v.data_type (v.of_uint64 n) ≡ DataType.uint64
  pub to_uint64-of_uint64 : (n : ℕ) → n < 2 ^ 64 → v.to_uint64 (v.of_uint64 n) ≡ n
  pub to_vector-of_vector : (vs : List V) → v.to_vector (v.of_vector vs) ≡ some vs
  pub to_map-of_map : (m : VariantMap V) → v.to_map (v.of_map m) ≡ some m
