-- ===== src/Containers/Map.antt =====
-- `std::map` and `std::unordered_map` as association lists.
pub mod All
use mathlib.Core.Option
use rmc_fabric.Base.{◌≡◌, refl, ite, Bool, List, [], ◌∷◌, Option, none, some, if◌then◌else◌, arith}

module _ {V : Type 0} where
  abbrev pub if_kept : (V → Bool) → Option V → Option V
  if_kept p none = none
  if_kept p (some v) = if p v then some v else none

module _ {K V : Type 0} where
  -- The entries rebuilt in place, as `for (auto &[k, v] : m)` does.
  abbrev pub map_values : (K → V → V) → List (K × V) → List (K × V)
  map_values f [] = []
  map_values f ((k, v) ∷ m) = (k, f k v) ∷ map_values f m

  -- `std::erase_if`, with the test of what stays.
  abbrev pub keep_if : (K → V → Bool) → List (K × V) → List (K × V)
  keep_if p [] = []
  keep_if p ((k, v) ∷ m) = if p k v then (k, v) ∷ keep_if p m else keep_if p m

  abbrev pub values : List (K × V) → List V
  values [] = []
  values ((k, v) ∷ m) = v ∷ values m

module _ {K V : Type 0} (dec : Discrete K) where
  -- `m.find(k)`
  unfoldable pub lookup : K → List (K × V) → Option V
  lookup k [] = none
  lookup k ((j, v) ∷ m) = ite (dec j k) (some v) (lookup k m)

  -- `m[k] = v`: the entry keeps its place, and a new one goes to the end.
  unfoldable pub insert : K → V → List (K × V) → List (K × V)
  insert k v [] = (k, v) ∷ []
  insert k v ((j, w) ∷ m) = ite (dec j k) ((k, v) ∷ m) ((j, w) ∷ insert k v m)

  -- `m.erase(k)`
  unfoldable pub erase : K → List (K × V) → List (K × V)
  erase k [] = []
  erase k ((j, w) ∷ m) = ite (dec j k) (erase k m) ((j, w) ∷ erase k m)

  pub lookup-insert :
      (j k : K) (v : V) (m : List (K × V))
      → lookup j (insert k v m) ≡ ite (dec k j) (some v) (lookup j m)
  unfolding lookup insert
  lookup-insert j k v [] = refl
  lookup-insert j k v ((i, w) ∷ m) = ground (arith, lookup-insert j k v m)

  pub lookup-erase :
      (j k : K) (m : List (K × V)) → lookup j (erase k m) ≡ ite (dec k j) none (lookup j m)
  unfolding lookup erase
  lookup-erase j k [] = ground arith
  lookup-erase j k ((i, w) ∷ m) = ground (arith, lookup-erase j k m)

  -- Every key stands once.
  abbrev pub IsDistinct : List (K × V) → Type 0
  IsDistinct [] = Unit
  IsDistinct ((k, v) ∷ m) = (lookup k m ≡ none) × IsDistinct m

  pub lookup-insert_self : (k : K) (v : V) (m : List (K × V)) → lookup k (insert k v m) ≡ some v
  lookup-insert_self k v m = ground (arith, lookup-insert k k v m)

  pub insert-IsDistinct :
      (k : K) (v : V) (m : List (K × V)) → IsDistinct m → IsDistinct (insert k v m)
  unfolding insert lookup
  insert-IsDistinct k v [] d = (refl, tt)
  insert-IsDistinct k v ((j, w) ∷ m) d =
      ground (arith, insert-IsDistinct k v m, lookup-insert j k v m)

  pub erase-IsDistinct : (k : K) (m : List (K × V)) → IsDistinct m → IsDistinct (erase k m)
  unfolding erase
  erase-IsDistinct k [] d = tt
  erase-IsDistinct k ((j, w) ∷ m) d = ground (arith, erase-IsDistinct k m, lookup-erase j k m)

  pub lookup-map_values :
      (f : K → V → V) (k : K) (m : List (K × V))
      → lookup k (map_values f m) ≡ Option.map (f k) (lookup k m)
  unfolding lookup
  lookup-map_values f k [] = refl
  lookup-map_values f k ((j, v) ∷ m) = ground (arith, lookup-map_values f k m)

  pub map_values-IsDistinct :
      (f : K → V → V) (m : List (K × V)) → IsDistinct m → IsDistinct (map_values f m)
  unfolding lookup
  map_values-IsDistinct f [] d = tt
  map_values-IsDistinct f ((k, v) ∷ m) d =
      (rw (lookup-map_values f k m, d.0) refl, map_values-IsDistinct f m d.1)

  lookup-keep_if-none :
      (p : K → V → Bool) (k : K) (m : List (K × V))
      → lookup k m ≡ none
      → lookup k (keep_if p m) ≡ none
  unfolding lookup
  lookup-keep_if-none p k [] h = refl
  lookup-keep_if-none p k ((j, v) ∷ m) h = ground (arith, lookup-keep_if-none p k m)

  pub lookup-keep_if :
      (p : K → V → Bool) (k : K) (m : List (K × V))
      → IsDistinct m
      → lookup k (keep_if p m) ≡ if_kept (p k) (lookup k m)
  unfolding lookup
  lookup-keep_if p k [] d = refl
  lookup-keep_if p k ((j, v) ∷ m) d =
      ground (arith, lookup-keep_if p k m, lookup-keep_if-none p k m)

  pub keep_if-IsDistinct :
      (p : K → V → Bool) (m : List (K × V)) → IsDistinct m → IsDistinct (keep_if p m)
  unfolding lookup
  keep_if-IsDistinct p [] d = tt
  keep_if-IsDistinct p ((j, v) ∷ m) d =
      ground (arith, keep_if-IsDistinct p m, lookup-keep_if-none p j m)
