-- ===== src/Inventory/Manager.antt =====
-- services/rmc-inventory/core/DefaultInventoryManager.cpp and .h. A
-- refresh asks the sources without the lock and merges what they gave under it: two steps, between
-- which sources may be added. The clock's readings are arguments.
pub mod Diff
pub mod Fields
pub mod Registration
use rmc_fabric.Base.{
  ℕ, ◌+◌, ◌%◌, ◌^◌, Text, text_discrete, codes, Bool, true, false, ◌&&◌, ◌||◌, not, if◌then◌else◌,
  ite, List, [], ◌∷◌, ◌++◌, Option, none, some, is_empty,
}
use rmc_fabric.Containers.Map
use rmc_fabric.Inventory.Types.{
  FieldValue, FieldValue-discrete, InventoryFields, SourceHealth, healthy, degraded, failed,
  SourceState, SourceStateMap, InventorySnapshot, InventoryDiff, is_empty_diff, same_text,
  is_metadata_field, is_listed, Collected, returned, thrown, thrown_unknown, InventorySource,
}
use rmc_fabric.Inventory.Sources.{
  CollectedSourceResult, first_metadata_field, is_subset_of_owned_fields, get_undeclared_fields,
  erase_all, drop_undeclared, attempted, failure, success, reserved_message, collected_or_failed,
  collect_outcome, collect_source, collect_sources,
}

pub record InventoryManager : Type 0 where
  pub sources : List InventorySource
  pub field_owners : List (Text × Text)
  pub snapshot : InventorySnapshot
  pub source_states : SourceStateMap

abbrev pub new_manager : InventoryManager
new_manager = record {
  sources = [];
  field_owners = [];
  snapshot = record { version = 0; timestamp = 0; ready = false; phase = []; fields = [] };
  source_states = [];
}

-- Why a source is refused.
pub data RegistrationError : Type 0 where
  empty_name empty_field : RegistrationError
  duplicate_name : Text → RegistrationError
  reserved_field : Text → RegistrationError
  collision : Text → Text → RegistrationError

unfoldable pub has_name : Text → List InventorySource → Bool
has_name name [] = false
has_name name (s ∷ sources) = same_text s.name name || has_name name sources

-- The check of one owned field, `none` if it passes.
abbrev pub field_error : Text → Option Text → Option RegistrationError
field_error field owner =
    if is_empty field
    then some empty_field
    else (if is_metadata_field field
        then some (reserved_field field)
        else elim owner [ none ↦ none | some other ↦ some (collision field other) ])

abbrev pub or_else : Option RegistrationError → Option RegistrationError → Option RegistrationError
or_else none e = e
or_else (some e) e' = some e

unfoldable pub check_fields : List (Text × Text) → List Text → Option RegistrationError
check_fields owners [] = none
check_fields owners (field ∷ fields) =
    or_else (field_error field (Map.lookup text_discrete field owners)) (check_fields owners fields)

unfoldable pub validate_source_registration :
    InventoryManager → InventorySource → Option RegistrationError
validate_source_registration m source =
    if is_empty source.name
    then some empty_name
    else (if has_name source.name m.sources
        then some (duplicate_name source.name)
        else check_fields m.field_owners source.owned_fields)

-- `for (field: ownedFields) fieldOwners_[field] = sourceName;`
unfoldable pub own_fields : Text → List Text → List (Text × Text) → List (Text × Text)
own_fields name [] owners = owners
own_fields name (field ∷ fields) owners =
    own_fields name fields (Map.insert text_discrete field name owners)

-- `addSource` of a source that is not null: the manager as it was, if the source is refused.
unfoldable pub add_source :
    InventoryManager → InventorySource → InventoryManager × Option RegistrationError
add_source m source = elim (validate_source_registration m source) [
  | some e ↦ (m, some e)
  | none ↦ (
    record m {
      sources = m.sources ++ (source ∷ []);
      field_owners = own_fields source.name source.owned_fields m.field_owners;
    },
    none,
  )
]

unfoldable pub find_owner : Text → List InventorySource → Option InventorySource
find_owner name [] = none
find_owner name (s ∷ sources) = ite (text_discrete s.name name) (some s) (find_owner name sources)

unfoldable pub put_all : InventoryFields → InventoryFields → InventoryFields
put_all [] fields = fields
put_all ((field, value) ∷ new) fields = put_all new (Map.insert text_discrete field value fields)

abbrev pub is_healthy : SourceHealth → Bool
is_healthy healthy = true
is_healthy _ = false

-- `prev != sourceStates_.end()`: the last success stays that of the state before.
abbrev pub with_last_success : Option SourceState → SourceState → SourceState
with_last_success none state = state
with_last_success (some prev) state = record state { last_success_ts = prev.last_success_ts }

-- The body of the second loop, on the new fields and the new states.
abbrev pub merge_found :
    SourceStateMap
    → CollectedSourceResult
    → Option InventorySource
    → InventoryFields × SourceStateMap
    → InventoryFields × SourceStateMap
merge_found old r none (fields, states) = (fields, states)
merge_found old r (some owner) (fields, states) =
    let prev = Map.lookup text_discrete r.name old in
    if is_healthy r.state.health
    then (
      put_all r.collected_fields (erase_all owner.owned_fields fields),
      Map.insert text_discrete r.name r.state states,
    )
    else (fields, Map.insert text_discrete r.name (with_last_success prev r.state) states)

unfoldable pub merge_results :
    List InventorySource
    → SourceStateMap
    → List CollectedSourceResult
    → InventoryFields × SourceStateMap
    → InventoryFields × SourceStateMap
merge_results sources old [] p = p
merge_results sources old (r ∷ results) p =
    merge_results sources old results (merge_found old r (find_owner r.name sources) p)

abbrev pub field_differs : Option FieldValue → FieldValue → Bool
field_differs none value = true
field_differs (some old) value = ite (FieldValue-discrete old value) false true

unfoldable pub changed_fields : InventoryFields → InventoryFields → List Text
changed_fields old [] = []
changed_fields old ((field, value) ∷ new) =
    let rest = changed_fields old new in
    if field_differs (Map.lookup text_discrete field old) value then field ∷ rest else rest

abbrev pub is_absent : Option FieldValue → Bool
is_absent none = true
is_absent (some value) = false

unfoldable pub removed_fields : InventoryFields → InventoryFields → List Text
removed_fields [] new = []
removed_fields ((field, _) ∷ old) new =
    let rest = removed_fields old new in
    if is_absent (Map.lookup text_discrete field new) then field ∷ rest else rest

unfoldable pub diff_source_owned_fields : InventoryFields → InventoryFields → InventoryDiff
diff_source_owned_fields old new = record {
  changed_fields = changed_fields old new;
  removed_fields = removed_fields old new;
}

abbrev pub is_ok : Bool → Option SourceState → Bool
is_ok required none = not required
is_ok required (some state) = not (required && not (is_healthy state.health))

unfoldable pub all_required_sources_ok : List InventorySource → SourceStateMap → Bool
all_required_sources_ok [] states = true
all_required_sources_ok (s ∷ sources) states =
    is_ok s.required (Map.lookup text_discrete s.name states)
    && all_required_sources_ok sources states

-- The second half of `refreshAll`, under the lock, with the last reading of the clock.
unfoldable pub merge :
    InventoryManager → List CollectedSourceResult → ℕ → InventoryManager × InventoryDiff
merge m results now =
    let p = merge_results m.sources m.source_states results (m.snapshot.fields, m.source_states) in
    let diff = diff_source_owned_fields m.snapshot.fields p.0 in
    let ready = m.snapshot.ready || all_required_sources_ok m.sources p.1 in
    (
      record m {
        snapshot = record {
          version =
              if is_empty_diff diff then m.snapshot.version else (m.snapshot.version + 1) % 2 ^ 64;
          timestamp = if is_empty_diff diff then m.snapshot.timestamp else now;
          ready = ready;
          phase = if ready then codes "live" else codes "initializing";
          fields = p.0;
        };
        source_states = p.1;
      },
      diff,
    )

unfoldable pub refresh_all : InventoryManager → ℕ → ℕ → ℕ → InventoryManager × InventoryDiff
refresh_all m attempt done now = merge m (collect_sources attempt done m.sources) now
