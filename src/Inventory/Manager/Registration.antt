-- ===== src/Inventory/Manager/Registration.antt =====
-- Who owns a field, by the registrations of DefaultInventoryManager.cpp.
use rmc_fabric.Base.{
  ◌≡◌, refl, Text, text_discrete, true, false, ◌||◌, if◌then◌else◌, List, [], ◌∷◌, ◌++◌, none, some,
  Option-cases, inl, inr, arith,
}
use rmc_fabric.Containers.Map
use rmc_fabric.Inventory.Types.{is_listed, same_text, InventorySource}
use rmc_fabric.Inventory.Manager.{
  InventoryManager, has_name, check_fields, validate_source_registration, own_fields, add_source,
}

-- The owner of every one of the fields is the name.
abbrev pub AllOwned : List (Text × Text) → Text → List Text → Type 0
AllOwned owners name [] = Unit
AllOwned owners name (f ∷ fields) =
    (Map.lookup text_discrete f owners ≡ some name) × AllOwned owners name fields

-- Every source owns its fields, and no two have a name in common.
abbrev pub AllRegistered : List (Text × Text) → List InventorySource → Type 0
AllRegistered owners [] = Unit
AllRegistered owners (s ∷ sources) =
    AllOwned owners s.name s.owned_fields
    × (has_name s.name sources ≡ false)
    × AllRegistered owners sources

lookup-own_fields :
    (f name : Text) (fields : List Text) (owners : List (Text × Text))
    → Map.lookup text_discrete f (own_fields name fields owners)
      ≡ (if is_listed f fields then some name else Map.lookup text_discrete f owners)
unfolding own_fields is_listed
lookup-own_fields f name [] owners = refl
lookup-own_fields f name (g ∷ fields) owners = ground (
  arith,
  lookup-own_fields f name fields (Map.insert text_discrete g name owners),
  Map.lookup-insert text_discrete f g name owners,
)

unowned :
    (f : Text) (fields : List Text) (owners : List (Text × Text))
    → check_fields owners fields ≡ none
    → is_listed f fields ≡ true
    → Map.lookup text_discrete f owners ≡ none
unfolding check_fields is_listed
unowned f [] owners h g = cc
unowned f (k ∷ fields) owners h g = ground (arith, unowned f fields owners)

later-AllOwned :
    (name new : Text) (fields added : List Text) (owners : List (Text × Text))
    → check_fields owners added ≡ none
    → AllOwned owners name fields
    → AllOwned (own_fields new added owners) name fields
later-AllOwned name new [] added owners h a = tt
later-AllOwned name new (f ∷ fields) added owners h a = (
  ground (arith, a.0, lookup-own_fields f new added owners, unowned f added owners h),
  later-AllOwned name new fields added owners h a.1,
)

own_fields-AllOwned :
    (name : Text) (fields : List Text) (owners : List (Text × Text))
    → AllOwned (own_fields name fields owners) name fields
unfolding own_fields is_listed
own_fields-AllOwned name [] owners = tt
own_fields-AllOwned name (f ∷ fields) owners = (
  ground (
    arith,
    lookup-own_fields f name fields (Map.insert text_discrete f name owners),
    Map.lookup-insert text_discrete f f name owners,
  ),
  own_fields-AllOwned name fields (Map.insert text_discrete f name owners),
)

has_name-append :
    (n : Text) (sources : List InventorySource) (s : InventorySource)
    → has_name n (sources ++ (s ∷ [])) ≡ (has_name n sources || same_text s.name n)
unfolding has_name
has_name-append n [] s = ground arith
has_name-append n (t ∷ sources) s = ground (arith, has_name-append n sources s)

append-AllRegistered :
    (owners : List (Text × Text)) (s : InventorySource) (sources : List InventorySource)
    → check_fields owners s.owned_fields ≡ none
    → has_name s.name sources ≡ false
    → AllRegistered owners sources
    → AllRegistered (own_fields s.name s.owned_fields owners) (sources ++ (s ∷ []))
unfolding has_name
append-AllRegistered owners s [] h n a =
    (own_fields-AllOwned s.name s.owned_fields owners, refl, tt)
append-AllRegistered owners s (t ∷ sources) h n a = (
  later-AllOwned t.name s.name t.owned_fields s.owned_fields owners h a.0,
  ground (arith, has_name-append t.name sources s, a.1),
  append-AllRegistered owners s sources h (ground arith) a.2,
)

validated :
    (m : InventoryManager) (s : InventorySource)
    → validate_source_registration m s ≡ none
    → (has_name s.name m.sources ≡ false) × (check_fields m.field_owners s.owned_fields ≡ none)
unfolding validate_source_registration
validated m s h = (ground arith, ground arith)

-- Whether a source is accepted or refused: if every registered source owns all its fields, and the
-- names are distinct, then that still holds, so that no field gets a second owner.
pub add_source-AllRegistered :
    (m : InventoryManager) (s : InventorySource)
    → AllRegistered m.field_owners m.sources
    → AllRegistered (add_source m s).0.field_owners (add_source m s).0.sources
unfolding add_source
add_source-AllRegistered m s a = elim (Option-cases (validate_source_registration m s)) [
  | inl e ↦
      let ok = validated m s e in
      rw (add_source, e) (append-AllRegistered m.field_owners s m.sources ok.1 ok.0 a)
  | inr (error, e) ↦ rw (add_source, e) a
]
