-- ===== src/Inventory/Manager/Fields.antt =====
-- Which fields a refresh of DefaultInventoryManager.cpp leaves alone.
use rmc_fabric.Base.{
  ℕ, ◌≡◌, refl, ◌∙◌, Text, text_discrete, Bool, true, false, ◌&&◌, ◌||◌, not, if◌then◌else◌, List,
  [], ◌∷◌, Option, none, some, is_some, arith,
}
use rmc_fabric.Containers.Map
use rmc_fabric.Inventory.Types.{
  InventoryFields, is_listed, same_text, InventorySource, SourceStateMap, Collected, returned,
  thrown, thrown_unknown,
}
use rmc_fabric.Inventory.Sources.{
  CollectedSourceResult, erase_all, is_subset_of_owned_fields, get_undeclared_fields,
  drop_undeclared, collect_source, collect_sources, collect_outcome, collected_or_failed,
  first_metadata_field,
}
use rmc_fabric.Inventory.Manager.{
  InventoryManager, put_all, merge_found, find_owner, merge_results, merge, is_healthy, refresh_all,
}

-- Whether the fields have one of the name.
abbrev pub has_field : Text → InventoryFields → Bool
has_field f [] = false
has_field f ((k, _) ∷ fields) = same_text k f || has_field f fields

lookup-erase_all :
    (f : Text) (names : List Text) (m : InventoryFields)
    → Map.lookup text_discrete f (erase_all names m)
      ≡ (if is_listed f names then none else Map.lookup text_discrete f m)
unfolding erase_all is_listed
lookup-erase_all f [] m = refl
lookup-erase_all f (n ∷ names) m = ground (
  arith,
  lookup-erase_all f names (Map.erase text_discrete n m),
  Map.lookup-erase text_discrete f n m,
)

lookup-put_all :
    (f : Text) (new m : InventoryFields)
    → has_field f new ≡ false
    → Map.lookup text_discrete f (put_all new m) ≡ Map.lookup text_discrete f m
unfolding put_all
lookup-put_all f [] m h = refl
lookup-put_all f ((k, v) ∷ new) m h = ground (
  arith,
  lookup-put_all f new (Map.insert text_discrete k v m),
  Map.lookup-insert text_discrete f k v m,
)

has_field-erase :
    (f k : Text) (m : InventoryFields)
    → has_field f (Map.erase text_discrete k m) ≡ (if same_text k f then false else has_field f m)
unfolding Map.erase
has_field-erase f k [] = ground arith
has_field-erase f k ((j, v) ∷ m) = ground (arith, has_field-erase f k m)

has_field-erase_all :
    (f : Text) (names : List Text) (m : InventoryFields)
    → has_field f (erase_all names m) ≡ (if is_listed f names then false else has_field f m)
unfolding erase_all is_listed
has_field-erase_all f [] m = refl
has_field-erase_all f (n ∷ names) m =
    ground (arith, has_field-erase_all f names (Map.erase text_discrete n m), has_field-erase f n m)

undeclared_listed :
    (f : Text) (raw : InventoryFields) (owned : List Text)
    → is_listed f owned ≡ false
    → is_listed f (get_undeclared_fields raw owned) ≡ has_field f raw
unfolding get_undeclared_fields is_listed
undeclared_listed f [] owned h = refl
undeclared_listed f ((k, v) ∷ raw) owned h = ground (arith, undeclared_listed f raw owned h)

subset_has :
    (f : Text) (raw : InventoryFields) (owned : List Text)
    → is_listed f owned ≡ false
    → is_subset_of_owned_fields raw owned ≡ true
    → has_field f raw ≡ false
unfolding is_subset_of_owned_fields
subset_has f [] owned h g = refl
subset_has f ((k, v) ∷ raw) owned h g = ground (arith, subset_has f raw owned h)

-- Of the fields that a source returns, only those that it owns are kept.
pub has_field-drop_undeclared :
    (f : Text) (raw : InventoryFields) (owned : List Text)
    → is_listed f owned ≡ false
    → has_field f (drop_undeclared raw owned) ≡ false
unfolding drop_undeclared
has_field-drop_undeclared f raw owned h = ground (
  arith,
  has_field-erase_all f (get_undeclared_fields raw owned) raw,
  undeclared_listed f raw owned h,
  subset_has f raw owned h,
)

-- Whether the source owns the field.
abbrev pub owns : Text → Option InventorySource → Bool
owns f none = false
owns f (some owner) = is_listed f owner.owned_fields

abbrev spares : Text → List InventorySource → CollectedSourceResult → Bool
spares f sources r =
    not (is_healthy r.state.health)
    || (not (has_field f r.collected_fields) && not (owns f (find_owner r.name sources)))

abbrev all_spare : Text → List InventorySource → List CollectedSourceResult → Bool
all_spare f sources [] = true
all_spare f sources (r ∷ results) = spares f sources r && all_spare f sources results

lookup-merge_found :
    (f : Text) (old : SourceStateMap) (r : CollectedSourceResult) (owner : Option InventorySource)
    (p : InventoryFields × SourceStateMap)
    → (not (is_healthy r.state.health)
        || (not (has_field f r.collected_fields) && not (owns f owner)))
      ≡ true
    → Map.lookup text_discrete f (merge_found old r owner p).0 ≡ Map.lookup text_discrete f p.0
lookup-merge_found f old r none p h = refl
lookup-merge_found f old r (some owner) p h = ground (
  arith,
  lookup-put_all f r.collected_fields (erase_all owner.owned_fields p.0),
  lookup-erase_all f owner.owned_fields p.0,
)

lookup-merge_results :
    (f : Text) (sources : List InventorySource) (old : SourceStateMap)
    (results : List CollectedSourceResult) (p : InventoryFields × SourceStateMap)
    → all_spare f sources results ≡ true
    → Map.lookup text_discrete f (merge_results sources old results p).0
      ≡ Map.lookup text_discrete f p.0
unfolding merge_results
lookup-merge_results f sources old [] p h = refl
lookup-merge_results f sources old (r ∷ results) p h =
    lookup-merge_results f sources old results (merge_found old r (find_owner r.name sources) p)
      (ground arith)
    ∙ lookup-merge_found f old r (find_owner r.name sources) p (ground arith)

-- Whether what `collect` did counts as a failure.
abbrev pub has_failed : Collected → Bool
has_failed (returned raw) = is_some (first_metadata_field raw)
has_failed (thrown message) = true
has_failed thrown_unknown = true

-- Whether none of the sources both succeeds and owns the field, itself or by its name.
abbrev pub untouched : Text → List InventorySource → List InventorySource → Bool
untouched f registered [] = true
untouched f registered (s ∷ sources) =
    (has_failed s.collect
      || (not (is_listed f s.owned_fields) && not (owns f (find_owner s.name registered))))
    && untouched f registered sources

returned_spares :
    (f : Text) (registered : List InventorySource) (attempt done : ℕ) (s : InventorySource)
    (raw : InventoryFields) (reserved : Option Text)
    → (is_some reserved
        || (not (is_listed f s.owned_fields) && not (owns f (find_owner s.name registered))))
      ≡ true
    → spares f registered (collected_or_failed s attempt done raw reserved) ≡ true
returned_spares f registered attempt done s raw none h =
    ground (arith, has_field-drop_undeclared f raw s.owned_fields)
returned_spares f registered attempt done s raw (some field) h = refl

outcome_spares :
    (f : Text) (registered : List InventorySource) (attempt done : ℕ) (s : InventorySource)
    (outcome : Collected)
    → (has_failed outcome
        || (not (is_listed f s.owned_fields) && not (owns f (find_owner s.name registered))))
      ≡ true
    → spares f registered (collect_outcome s attempt done outcome) ≡ true
outcome_spares f registered attempt done s (returned raw) h =
    returned_spares f registered attempt done s raw (first_metadata_field raw) h
outcome_spares f registered attempt done s (thrown message) h = refl
outcome_spares f registered attempt done s thrown_unknown h = refl

untouched_spares :
    (f : Text) (registered : List InventorySource) (attempt done : ℕ)
    (sources : List InventorySource)
    → untouched f registered sources ≡ true
    → all_spare f registered (collect_sources attempt done sources) ≡ true
unfolding collect_sources collect_source
untouched_spares f registered attempt done [] h = refl
untouched_spares f registered attempt done (s ∷ sources) h = ground (
  arith,
  outcome_spares f registered attempt done s s.collect,
  untouched_spares f registered attempt done sources,
)

-- A refresh leaves a field as it was if each source fails, since `collect` throws or returns a
-- reserved field, or else neither it nor the first source of its name owns the field: whatever such a
-- source returns.
pub lookup-refresh_all :
    (m : InventoryManager) (attempt done now : ℕ) (f : Text)
    → untouched f m.sources m.sources ≡ true
    → Map.lookup text_discrete f (refresh_all m attempt done now).0.snapshot.fields
      ≡ Map.lookup text_discrete f m.snapshot.fields
unfolding refresh_all merge
lookup-refresh_all m attempt done now f h =
    lookup-merge_results f m.sources m.source_states (collect_sources attempt done m.sources) _
      (untouched_spares f m.sources attempt done m.sources h)
