-- ===== src/Inventory/Sources.antt =====
-- services/rmc-inventory/core/InventorySourceUtil.cpp and the first loop of refreshAll of
-- DefaultInventoryManager.cpp: what the sources give in a cycle.
use rmc_fabric.Base.{
  ℕ, Text, text_discrete, codes, Bool, true, false, ◌&&◌, not, if◌then◌else◌, List, [], ◌∷◌, ◌++◌,
  Option, none, some,
}
use rmc_fabric.Containers.Map
use rmc_fabric.Inventory.Types.{
  InventoryFields, healthy, failed, SourceState, is_metadata_field, is_listed, Collected, returned,
  thrown, thrown_unknown, InventorySource,
}

pub record CollectedSourceResult : Type 0 where
  pub name : Text
  pub required : Bool
  pub collected_fields : InventoryFields
  pub state : SourceState

unfoldable pub first_metadata_field : InventoryFields → Option Text
first_metadata_field [] = none
first_metadata_field ((field, _) ∷ fields) =
    let rest = first_metadata_field fields in if is_metadata_field field then some field else rest

unfoldable pub is_subset_of_owned_fields : InventoryFields → List Text → Bool
is_subset_of_owned_fields [] owned = true
is_subset_of_owned_fields ((field, _) ∷ fields) owned =
    is_listed field owned && is_subset_of_owned_fields fields owned

unfoldable pub get_undeclared_fields : InventoryFields → List Text → List Text
get_undeclared_fields [] owned = []
get_undeclared_fields ((field, _) ∷ fields) owned =
    let rest = get_undeclared_fields fields owned in
    if is_listed field owned then rest else field ∷ rest

-- `for (name: names) fields.erase(name);`
unfoldable pub erase_all : List Text → InventoryFields → InventoryFields
erase_all [] fields = fields
erase_all (name ∷ names) fields = erase_all names (Map.erase text_discrete name fields)

unfoldable pub drop_undeclared : InventoryFields → List Text → InventoryFields
drop_undeclared raw owned =
    if not (is_subset_of_owned_fields raw owned)
    then erase_all (get_undeclared_fields raw owned) raw
    else raw

abbrev pub attempted : InventorySource → ℕ → SourceState
attempted s attempt = record s.state {
  name = s.name;
  required = s.required;
  last_attempt_ts = attempt;
}

abbrev pub failure : InventorySource → ℕ → Text → CollectedSourceResult
failure s attempt message = record {
  name = s.name;
  required = s.required;
  collected_fields = [];
  state = record (attempted s attempt) { health = failed; last_error = some message };
}

abbrev pub success : InventorySource → ℕ → ℕ → InventoryFields → CollectedSourceResult
success s attempt done raw = record {
  name = s.name;
  required = s.required;
  collected_fields = drop_undeclared raw s.owned_fields;
  state = record (attempted s attempt) {
    health = healthy;
    stale = false;
    last_success_ts = done;
    last_error = none;
  };
}

abbrev pub reserved_message : Text → Text → Text
reserved_message name field =
    codes "Inventory source '"
    ++ name
    ++ codes "' returned reserved metadata field '"
    ++ field
    ++ codes "'"

abbrev pub collected_or_failed :
    InventorySource → ℕ → ℕ → InventoryFields → Option Text → CollectedSourceResult
collected_or_failed s attempt done raw none = success s attempt done raw
collected_or_failed s attempt done raw (some field) =
    failure s attempt (reserved_message s.name field)

-- The body of the first loop of `refreshAll`.
abbrev pub collect_outcome : InventorySource → ℕ → ℕ → Collected → CollectedSourceResult
collect_outcome s attempt done (returned raw) =
    collected_or_failed s attempt done raw (first_metadata_field raw)
collect_outcome s attempt done (thrown message) = failure s attempt message
collect_outcome s attempt done thrown_unknown = failure s attempt (codes "unknown exception")

unfoldable pub collect_source : ℕ → ℕ → InventorySource → CollectedSourceResult
collect_source attempt done s = collect_outcome s attempt done s.collect

unfoldable pub collect_sources : ℕ → ℕ → List InventorySource → List CollectedSourceResult
collect_sources attempt done [] = []
collect_sources attempt done (s ∷ sources) =
    collect_source attempt done s ∷ collect_sources attempt done sources
