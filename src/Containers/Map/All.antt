-- ===== src/Containers/Map/All.antt =====
-- A property of all entries of a map.
use mathlib.Core.Path.{subst}
use rmc_fabric.Base.{◌≡◌, if_pos, if_neg, inl, inr, List, [], ◌∷◌, some, Bool, Bool-cases, arith}
use rmc_fabric.Containers.Map.{lookup, insert, erase, map_values, keep_if}

module _ {K V : Type 0} (P : K → V → Type 0) where
  abbrev pub All : List (K × V) → Type 0
  All [] = Unit
  All ((k, v) ∷ m) = P k v × All m

  pub map_values-All :
      (f : K → V → V) (m : List (K × V))
      → ((k : K) (v : V) → P k v → P k (f k v))
      → All m
      → All (map_values f m)
  map_values-All f [] h a = tt
  map_values-All f ((k, v) ∷ m) h a = (h k v a.0, map_values-All f m h a.1)

  pub keep_if-All : (p : K → V → Bool) (m : List (K × V)) → All m → All (keep_if p m)
  keep_if-All p [] a = tt
  keep_if-All p ((k, v) ∷ m) a = elim (Bool-cases (p k v)) [
    | inl e ↦ rw e (a.0, keep_if-All p m a.1)
    | inr e ↦ rw e (keep_if-All p m a.1)
  ]

module _ {K V : Type 0} (P : K → V → Type 0) (dec : Discrete K) where
  pub lookup-All : (k : K) (m : List (K × V)) {v : V} → All P m → lookup dec k m ≡ some v → P k v
  unfolding lookup
  lookup-All k [] a e = cc
  lookup-All k ((j, w) ∷ m) {v} a e = elim (dec j k) [
    | yes p ↦ subst (λ x. P x v) p (subst (P j) (ground arith) a.0)
    | no n ↦ lookup-All k m a.1 (ground arith)
  ]

  pub insert-All : (k : K) (v : V) (m : List (K × V)) → P k v → All P m → All P (insert dec k v m)
  unfolding insert
  insert-All k v [] h a = (h, tt)
  insert-All k v ((j, w) ∷ m) h a = elim (dec j k) [
    | yes p ↦ rw (if_pos _ p) (h, a.1)
    | no n ↦ rw (if_neg _ n) (a.0, insert-All k v m h a.1)
  ]

  pub erase-All : (k : K) (m : List (K × V)) → All P m → All P (erase dec k m)
  unfolding erase
  erase-All k [] a = tt
  erase-All k ((j, w) ∷ m) a = elim (dec j k) [
    | yes p ↦ rw (if_pos _ p) (erase-All k m a.1)
    | no n ↦ rw (if_neg _ n) (a.0, erase-All k m a.1)
  ]
