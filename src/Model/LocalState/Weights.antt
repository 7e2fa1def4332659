-- ===== src/Model/LocalState/Weights.antt =====
-- How often an address stands in the tracker's table of interfaces.
use rmc_fabric.Base.{
  ℕ, ◌+◌, ◌≡◌, refl, Text, text_discrete, true, false, List, [], ◌∷◌, Option, none, some, arith,
}
use rmc_fabric.Containers.Set
use rmc_fabric.Containers.Map
use rmc_fabric.Model.Types.{text_ordered}
use rmc_fabric.Model.LocalState.Refcounts.{one_if}
use rmc_fabric.Model.LocalState.{extract_ip_from_cidr}

module _ {V : Type 0} (w : V → ℕ) where
  -- The sum of a weight over the entries of a map.
  abbrev pub total : List (Text × V) → ℕ
  total [] = 0
  total ((k, v) ∷ m) = w v + total m

  abbrev pub weight_of : Option V → ℕ
  weight_of none = 0
  weight_of (some v) = w v

  pub total-insert :
      (k : Text) (v : V) (m : List (Text × V))
      → total (Map.insert text_discrete k v m) + weight_of (Map.lookup text_discrete k m)
        ≡ total m + w v
  unfolding Map.insert Map.lookup
  total-insert k v [] = omega arith
  total-insert k v ((j, u) ∷ m) = ground (arith, total-insert k v m)

  erase_absent :
      (k : Text) (m : List (Text × V))
      → Map.lookup text_discrete k m ≡ none
      → total (Map.erase text_discrete k m) ≡ total m
  unfolding Map.erase Map.lookup
  erase_absent k [] h = refl
  erase_absent k ((j, u) ∷ m) h = ground (arith, erase_absent k m)

  pub total-erase :
      (k : Text) (m : List (Text × V))
      → Map.IsDistinct text_discrete m
      → total (Map.erase text_discrete k m) + weight_of (Map.lookup text_discrete k m) ≡ total m
  unfolding Map.erase Map.lookup
  total-erase k [] d = omega arith
  total-erase k ((j, u) ∷ m) d = ground (arith, total-erase k m, erase_absent j m)

-- How many of the texts `address/length` name the address.
abbrev pub count_ip : Text → List Text → ℕ
count_ip ip [] = 0
count_ip ip (cidr ∷ cidrs) = one_if (extract_ip_from_cidr cidr) ip + count_ip ip cidrs

-- A `std::set` holds each element once.
abbrev pub IsUnique : List Text → Type 0
IsUnique [] = Unit
IsUnique (x ∷ xs) = (Set.contains x xs ≡ false) × IsUnique xs

module _ (cidr : Text) where
  pub insert-IsUnique :
      (s : List Text) → Set.contains cidr s ≡ false → IsUnique s → IsUnique (Set.insert cidr s)
  unfolding Set.insert Set.contains
  insert-IsUnique [] h u = (refl, tt)
  insert-IsUnique (x ∷ xs) h u = ground (arith, insert-IsUnique xs, Set.contains-insert x cidr xs)

  pub erase-IsUnique : (s : List Text) → IsUnique s → IsUnique (Set.erase cidr s)
  unfolding Set.erase Set.contains
  erase-IsUnique [] u = tt
  erase-IsUnique (x ∷ xs) u = ground (arith, erase-IsUnique xs, Set.contains-erase x cidr xs)

  module _ (ip : Text) where
    pub count_ip-insert :
        (s : List Text)
        → Set.contains cidr s ≡ false
        → count_ip ip (Set.insert cidr s) ≡ count_ip ip s + one_if (extract_ip_from_cidr cidr) ip
    unfolding Set.insert Set.contains
    count_ip-insert [] h = omega arith
    count_ip-insert (x ∷ xs) h = ground (arith, count_ip-insert xs)

    erase_absent_ip :
        (s : List Text)
        → Set.contains cidr s ≡ false
        → count_ip ip (Set.erase cidr s) ≡ count_ip ip s
    unfolding Set.erase Set.contains
    erase_absent_ip [] h = refl
    erase_absent_ip (x ∷ xs) h = ground (arith, erase_absent_ip xs)

    pub count_ip-erase :
        (s : List Text)
        → IsUnique s
        → Set.contains cidr s ≡ true
        → count_ip ip (Set.erase cidr s) + one_if (extract_ip_from_cidr cidr) ip ≡ count_ip ip s
    unfolding Set.erase Set.contains
    count_ip-erase [] u h = cc
    count_ip-erase (x ∷ xs) u h = ground (arith, count_ip-erase xs, erase_absent_ip xs)
