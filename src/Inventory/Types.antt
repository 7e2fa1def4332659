-- ===== src/Inventory/Types.antt =====
-- lib/interop_contract/inventory and services/rmc-inventory/core/InventoryTypes.h. Times are numbers
-- of seconds; a `std::map` is kept in the order of insertion, so the order in which a diff lists its
-- fields is not modelled.
use rmc_fabric.Base.{
  ℕ, ℕ_discrete, ℤ, Text, text_discrete, codes, Bool, true, false, ◌||◌, ◌&&◌, ite, List, [], ◌∷◌,
  Option, is_empty,
}

pub data FieldValue : Type 0 where
  bool_value : Bool → FieldValue
  int_value : ℤ → FieldValue
  uint_value : ℕ → FieldValue
  string_value : Text → FieldValue

unfoldable pub ℤ_discrete : Discrete ℤ
ℤ_discrete = hlevel ℕ_discrete

unfoldable pub FieldValue-discrete : Discrete FieldValue
FieldValue-discrete = hlevel (ℕ_discrete, ℤ_discrete, text_discrete)

abbrev pub InventoryFields : Type 0
InventoryFields = List (Text × FieldValue)

pub data SourceHealth : Type 0 where
  healthy degraded failed : SourceHealth

pub record SourceState : Type 0 where
  pub name : Text
  pub required : Bool
  pub stale : Bool
  pub health : SourceHealth
  pub last_attempt_ts : ℕ
  pub last_success_ts : ℕ
  pub last_error : Option Text
  pub origin : Option Text

abbrev pub SourceStateMap : Type 0
SourceStateMap = List (Text × SourceState)

pub record InventorySnapshot : Type 0 where
  pub version : ℕ
  pub timestamp : ℕ
  pub ready : Bool
  pub phase : Text
  pub fields : InventoryFields

pub record InventoryDiff : Type 0 where
  pub changed_fields : List Text
  pub removed_fields : List Text

abbrev pub is_empty_diff : InventoryDiff → Bool
is_empty_diff diff = is_empty diff.changed_fields && is_empty diff.removed_fields

abbrev pub same_text : Text → Text → Bool
same_text a b = ite (text_discrete a b) true false

unfoldable pub is_metadata_field : Text → Bool
is_metadata_field field =
    same_text field (codes "version")
    || same_text field (codes "timestamp")
    || same_text field (codes "ready")
    || same_text field (codes "phase")

-- `std::ranges::find(names, name) != names.end()`
unfoldable pub is_listed : Text → List Text → Bool
is_listed name [] = false
is_listed name (n ∷ names) = same_text n name || is_listed name names

-- What `collect` of a source does: it returns fields, or throws, with a message or without one.
pub data Collected : Type 0 where
  returned : InventoryFields → Collected
  thrown : Text → Collected
  thrown_unknown : Collected

-- IInventorySource, as what its virtual functions return in a cycle.
pub record InventorySource : Type 0 where
  pub name : Text
  pub required : Bool
  pub owned_fields : List Text
  pub collect : Collected
  pub state : SourceState
