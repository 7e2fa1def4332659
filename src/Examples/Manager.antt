-- ===== src/Examples/Manager.antt =====
-- The inventory manager at concrete inputs.
use rmc_fabric.Base.{◌≡◌, refl, codes, text_discrete, true, false, [], ◌∷◌, none, some, arith}
use rmc_fabric.Containers.Map
use rmc_fabric.Inventory.Types.{
  FieldValue-discrete, string_value, uint_value, InventoryFields, failed, SourceState,
  SourceStateMap, is_listed, returned, thrown, InventorySource, is_metadata_field,
}
use rmc_fabric.Inventory.Manager
use rmc_fabric.Inventory.Sources.{first_metadata_field}
use rmc_fabric.Inventory.Manager.{
  InventoryManager, new_manager, add_source, merge, refresh_all, diff_source_owned_fields,
  find_owner,
}
use rmc_fabric.Inventory.Manager.Diff
use rmc_fabric.Inventory.Manager.Diff.{changed_at, removed_at}
use rmc_fabric.Inventory.Manager.Fields
use rmc_fabric.Inventory.Manager.Registration
use rmc_fabric.Inventory.Manager.Registration.{AllRegistered}
use rmc_fabric.Inventory.Issues.{derive_issues, issue_of, lookup-derive_issues}

abbrev fresh_state : SourceState
fresh_state = record {
  name = [];
  required = false;
  stale = false;
  health = failed;
  last_attempt_ts = 0;
  last_success_ts = 0;
  last_error = none;
  origin = none;
}

abbrev serial : InventorySource
serial = record {
  name = codes "serial";
  required = true;
  owned_fields = codes "serial" ∷ [];
  collect = thrown (codes "no file");
  state = fresh_state;
}

abbrev model : InventorySource
model = record {
  name = codes "model";
  required = false;
  owned_fields = codes "model" ∷ [];
  collect = returned ((codes "model", string_value (codes "x")) ∷ []);
  state = fresh_state;
}

abbrev old_fields : InventoryFields
old_fields = (codes "serial", uint_value 7) ∷ []

abbrev new_fields : InventoryFields
new_fields = (codes "serial", uint_value 8) ∷ (codes "model", string_value (codes "x")) ∷ []

abbrev manager : InventoryManager
manager = record {
  sources = serial ∷ model ∷ [];
  field_owners = (codes "serial", codes "serial") ∷ (codes "model", codes "model") ∷ [];
  snapshot = record {
    version = 3;
    timestamp = 10;
    ready = true;
    phase = codes "live";
    fields = old_fields;
  };
  source_states = [];
}

new_fields-IsDistinct : Map.IsDistinct text_discrete new_fields
unfolding Map.lookup text_discrete
new_fields-IsDistinct = (refl, (refl, tt))

is_listed-diff_source_owned_fields_example :
    (is_listed (codes "serial") (diff_source_owned_fields old_fields new_fields).changed_fields
      ≡ true)
    × (is_listed (codes "serial") (diff_source_owned_fields old_fields new_fields).removed_fields
        ≡ false)
unfolding Map.lookup text_discrete FieldValue-discrete
is_listed-diff_source_owned_fields_example =
    Diff.is_listed-diff_source_owned_fields old_fields new_fields (codes "serial")
      new_fields-IsDistinct

old_fields-IsDistinct : Map.IsDistinct text_discrete manager.snapshot.fields
unfolding Map.lookup
old_fields-IsDistinct = (refl, tt)

version-merge_example :
    Map.lookup text_discrete (codes "serial") (merge manager [] 20).0.snapshot.fields
    ≡ Map.lookup text_discrete (codes "serial") manager.snapshot.fields
unfolding merge Manager.merge_results diff_source_owned_fields Manager.changed_fields
    Manager.removed_fields Map.lookup text_discrete FieldValue-discrete
version-merge_example =
    Diff.version-merge manager [] 20 old_fields-IsDistinct (omega arith) refl (codes "serial")

add_source-AllRegistered_example :
    AllRegistered
      (add_source new_manager serial).0.field_owners
      (add_source new_manager serial).0.sources
add_source-AllRegistered_example = Registration.add_source-AllRegistered new_manager serial tt

lookup-refresh_all_example :
    Map.lookup text_discrete (codes "serial") (refresh_all manager 20 21 22).0.snapshot.fields
    ≡ Map.lookup text_discrete (codes "serial") manager.snapshot.fields
unfolding is_listed find_owner text_discrete first_metadata_field is_metadata_field
lookup-refresh_all_example = Fields.lookup-refresh_all manager 20 21 22 (codes "serial") refl

abbrev states : SourceStateMap
states = (codes "serial", fresh_state) ∷ []

states-IsDistinct : Map.IsDistinct text_discrete states
unfolding Map.lookup
states-IsDistinct = (refl, tt)

lookup-derive_issues_example :
    Map.lookup text_discrete (codes "serial") (derive_issues states) ≡ some (issue_of fresh_state)
unfolding Map.lookup text_discrete issue_of
lookup-derive_issues_example = lookup-derive_issues (codes "serial") states states-IsDistinct
