-- ===== src/Inventory/Manager/Diff.antt =====
-- The diff and the version of DefaultInventoryManager.cpp.
use rmc_fabric.Base.{
  ℕ, ◌+◌, ◌%◌, ◌^◌, ◌<◌, ◌≡◌, refl, sym, ◌∙◌, Text, text_discrete, Bool, true, false, if◌then◌else◌,
  List, [], ◌∷◌, Option, none, some, is_empty, Bool-cases, inl, inr, arith,
}
use rmc_fabric.Containers.Map
use rmc_fabric.Inventory.Types.{
  FieldValue, InventoryFields, is_empty_diff, is_listed, InventorySource, SourceStateMap,
}
use rmc_fabric.Inventory.Sources.{CollectedSourceResult, erase_all}
use rmc_fabric.Inventory.Manager.{
  InventoryManager, field_differs, is_absent, changed_fields, removed_fields,
  diff_source_owned_fields, put_all, merge_found, find_owner, merge_results, merge, is_healthy,
}

-- Whether a field is new or has another value than before.
abbrev pub changed_at : Option FieldValue → Option FieldValue → Bool
changed_at old none = false
changed_at old (some value) = field_differs old value

-- Whether a field is gone.
abbrev pub removed_at : Option FieldValue → Option FieldValue → Bool
removed_at none new = false
removed_at (some value) new = is_absent new

changed_lem :
    (old new : InventoryFields) (k : Text)
    → Map.IsDistinct text_discrete new
    → is_listed k (changed_fields old new)
      ≡ changed_at (Map.lookup text_discrete k old) (Map.lookup text_discrete k new)
unfolding is_listed changed_fields Map.lookup
changed_lem old [] k d = refl
changed_lem old ((j, v) ∷ new) k d = ground (arith, changed_lem old new k d.1, d.0)

removed_lem :
    (old new : InventoryFields) (k : Text)
    → is_listed k (removed_fields old new)
      ≡ removed_at (Map.lookup text_discrete k old) (Map.lookup text_discrete k new)
unfolding is_listed removed_fields Map.lookup
removed_lem [] new k = refl
removed_lem ((j, v) ∷ old) new k = ground (arith, removed_lem old new k)

-- With distinct new fields, the diff lists a field as changed exactly if it is new or has another
-- value, and as removed exactly if it was there and is not.
pub is_listed-diff_source_owned_fields :
    (old new : InventoryFields) (k : Text)
    → Map.IsDistinct text_discrete new
    → (is_listed k (diff_source_owned_fields old new).changed_fields
        ≡ changed_at (Map.lookup text_discrete k old) (Map.lookup text_discrete k new))
      × (is_listed k (diff_source_owned_fields old new).removed_fields
          ≡ removed_at (Map.lookup text_discrete k old) (Map.lookup text_discrete k new))
unfolding diff_source_owned_fields
is_listed-diff_source_owned_fields old new k d = (changed_lem old new k d, removed_lem old new k)

erase_all-IsDistinct :
    (names : List Text) (m : InventoryFields)
    → Map.IsDistinct text_discrete m
    → Map.IsDistinct text_discrete (erase_all names m)
unfolding erase_all
erase_all-IsDistinct [] m d = d
erase_all-IsDistinct (n ∷ names) m d =
    erase_all-IsDistinct names (Map.erase text_discrete n m)
      (Map.erase-IsDistinct text_discrete n m d)

put_all-IsDistinct :
    (new m : InventoryFields)
    → Map.IsDistinct text_discrete m
    → Map.IsDistinct text_discrete (put_all new m)
unfolding put_all
put_all-IsDistinct [] m d = d
put_all-IsDistinct ((f, v) ∷ new) m d =
    put_all-IsDistinct new (Map.insert text_discrete f v m)
      (Map.insert-IsDistinct text_discrete f v m d)

merge_found-IsDistinct :
    (old : SourceStateMap) (r : CollectedSourceResult) (owner : Option InventorySource)
    (p : InventoryFields × SourceStateMap)
    → Map.IsDistinct text_discrete p.0
    → Map.IsDistinct text_discrete (merge_found old r owner p).0
merge_found-IsDistinct old r none p d = d
merge_found-IsDistinct old r (some owner) p d = elim (Bool-cases (is_healthy r.state.health)) [
  | inl e ↦ rw e (
      put_all-IsDistinct r.collected_fields (erase_all owner.owned_fields p.0)
        (erase_all-IsDistinct owner.owned_fields p.0 d))
  | inr e ↦ rw e d
]

pub merge_results-IsDistinct :
    (sources : List InventorySource) (old : SourceStateMap) (results : List CollectedSourceResult)
    (p : InventoryFields × SourceStateMap)
    → Map.IsDistinct text_discrete p.0
    → Map.IsDistinct text_discrete (merge_results sources old results p).0
unfolding merge_results
merge_results-IsDistinct sources old [] p d = d
merge_results-IsDistinct sources old (r ∷ results) p d =
    merge_results-IsDistinct sources old results (merge_found old r (find_owner r.name sources) p)
      (merge_found-IsDistinct old r (find_owner r.name sources) p d)

nothing_listed : (k : Text) (names : List Text) → is_empty names ≡ true → is_listed k names ≡ false
unfolding is_listed
nothing_listed k [] h = refl
nothing_listed k (n ∷ names) h = cc

same_field :
    (old new : Option FieldValue)
    → changed_at old new ≡ false
    → removed_at old new ≡ false
    → new ≡ old
same_field none none h g = refl
same_field (some v) none h g = cc
same_field none (some w) h g = cc
same_field (some v) (some w) h g = ground arith

empty_diff :
    (old new : InventoryFields) (k : Text)
    → Map.IsDistinct text_discrete new
    → is_empty_diff (diff_source_owned_fields old new) ≡ true
    → Map.lookup text_discrete k new ≡ Map.lookup text_discrete k old
unfolding diff_source_owned_fields
empty_diff old new k d h =
    same_field (Map.lookup text_discrete k old) (Map.lookup text_discrete k new)
      (sym (changed_lem old new k d) ∙ nothing_listed k (changed_fields old new) (ground arith))
      (sym (removed_lem old new k) ∙ nothing_listed k (removed_fields old new) (ground arith))

same_version : (b : Bool) (v : ℕ) → v < 2 ^ 64 → (if b then v else (v + 1) % 2 ^ 64) ≡ v → b ≡ true
same_version true v h e = refl
same_version false v h e = absurd (ground arith)

-- With distinct fields before and a 64-bit version: if the version is the same after a merge, then
-- every field is.
pub version-merge :
    (m : InventoryManager) (results : List CollectedSourceResult) (now : ℕ)
    → Map.IsDistinct text_discrete m.snapshot.fields
    → m.snapshot.version < 2 ^ 64
    → (merge m results now).0.snapshot.version ≡ m.snapshot.version
    → (k : Text)
    → Map.lookup text_discrete k (merge m results now).0.snapshot.fields
      ≡ Map.lookup text_discrete k m.snapshot.fields
unfolding merge
version-merge m results now d h e k =
    let p = merge_results m.sources m.source_states results (m.snapshot.fields, m.source_states) in
    empty_diff m.snapshot.fields p.0 k
      (merge_results-IsDistinct m.sources m.source_states results _ d)
      (same_version _ m.snapshot.version h e)
