-- ===== src/Lldp/Cache/Generation.antt =====
-- What the generation of LldpNeighborCache.cpp tells a caller that delivers outside the lock.
use rmc_fabric.Base.{
  ℕ, suc, ◌+◌, ◌%◌, ◌^◌, ◌≤◌, ◌<◌, ◌≡◌, ◌⊎◌, inl, inr, refl, ◌∙◌, Text, text_discrete, Bool, true,
  false, List, [], ◌∷◌, Option, none, some, is_empty, arith, if◌then◌else◌,
}
use rmc_fabric.Containers.Map
use rmc_fabric.Model.Types.{LldpObservation}
use rmc_fabric.Model.LldpUtils.{resolve_lldp_identity}
use rmc_fabric.Lldp.Cache.{
  LldpNeighborCache, NeighborCacheMap, CachedLldpNeighbor, flush_found, bumped, apply,
  flush_interface, exchange, clear,
}

-- The operations that other threads may interleave.
pub data Change : Type 0 where
  observed : LldpObservation → Change
  flushed : Text → Change
  exchanged : NeighborCacheMap → Change
  cleared : Change

unfoldable pub change : LldpNeighborCache → Change → LldpNeighborCache
change c (observed obs) = (apply c obs).0
change c (flushed ifname) = (flush_interface c ifname).0
change c (exchanged replacement) = (exchange c replacement).0
change c cleared = clear c

unfoldable pub change_all : LldpNeighborCache → List Change → LldpNeighborCache
change_all c [] = c
change_all c (op ∷ ops) = change_all (change c op) ops

abbrev pub count : List Change → ℕ
count [] = 0
count (op ∷ ops) = suc (count ops)

-- A change does nothing, or counts the generation up.
abbrev Moved : LldpNeighborCache → LldpNeighborCache → Type 0
Moved c c' = (c' ≡ c) ⊎ (c'.generation ≡ bumped c.generation)

abbrev cache_of : LldpNeighborCache × Bool → LldpNeighborCache
cache_of r = r.0

apply-Moved :
    (c : LldpNeighborCache) (b : Bool) (r : LldpNeighborCache × Bool)
    → r.0.generation ≡ bumped c.generation
    → Moved c (cache_of (if b then (c, false) else r))
apply-Moved c true r h = inl refl
apply-Moved c false r h = inr h

flush-Moved :
    (c : LldpNeighborCache) (ifname : Text) (found : Option (List (Text × CachedLldpNeighbor)))
    → Moved c (flush_found c ifname found).0
flush-Moved c ifname none = inl refl
flush-Moved c ifname (some neighbors) = inr refl

clear-Moved :
    (c : LldpNeighborCache) (b : Bool)
    → Moved c (if b then c else record { by_interface = []; generation = bumped c.generation })
clear-Moved c true = inl refl
clear-Moved c false = inr refl

change-Moved : (c : LldpNeighborCache) (op : Change) → Moved c (change c op)
unfolding change apply flush_interface exchange clear
change-Moved c (observed obs) =
    apply-Moved c (is_empty (resolve_lldp_identity obs.remote_chassis_id obs.remote_port_id)) _ refl
change-Moved c (flushed ifname) =
    flush-Moved c ifname (Map.lookup text_discrete ifname c.by_interface)
change-Moved c (exchanged replacement) = inr refl
change-Moved c cleared = clear-Moved c (is_empty c.by_interface)

-- Several changes do nothing, or count the generation up between once and as often as they are.
abbrev MovedBy : LldpNeighborCache → LldpNeighborCache → ℕ → Type 0
MovedBy c c' n =
    (c' ≡ c)
    ⊎ ((moves : ℕ) × (0 < moves) × (moves ≤ n) × (c'.generation ≡ (c.generation + moves) % 2 ^ 64))

later-MovedBy :
    (c c' c'' : LldpNeighborCache) (n : ℕ) → Moved c c' → MovedBy c' c'' n → MovedBy c c'' (suc n)
later-MovedBy c c' c'' n (inl p) (inl q) = inl (q ∙ p)
later-MovedBy c c' c'' n (inl p) (inr (moves, a, b, q)) = inr (moves, a, omega arith, rw⁻¹ p q)
later-MovedBy c c' c'' n (inr p) (inl q) = inr (1, omega arith, omega arith, rw q p)
later-MovedBy c c' c'' n (inr p) (inr (moves, a, b, q)) =
    inr (suc moves, omega arith, omega arith, ground arith)

change_all-MovedBy :
    (ops : List Change) (c : LldpNeighborCache) → MovedBy c (change_all c ops) (count ops)
unfolding change_all
change_all-MovedBy [] c = inl refl
change_all-MovedBy (op ∷ ops) c =
    later-MovedBy c (change c op) (change_all (change c op) ops) (count ops) (change-Moved c op)
      (change_all-MovedBy ops (change c op))

same_MovedBy :
    (c c' : LldpNeighborCache) (n : ℕ)
    → MovedBy c c' n
    → c.generation < 2 ^ 64
    → n < 2 ^ 64
    → c'.generation ≡ c.generation
    → c' ≡ c
same_MovedBy c c' n (inl p) g h e = p
same_MovedBy c c' n (inr (moves, a, b, q)) g h e = absurd (ground arith)

-- If the generation is a 64-bit number, and fewer than 2^64 changes come between a snapshot and the
-- next reading of the generation, and it is what it was, then the cache is what it was.
pub change_all-generation :
    (ops : List Change) (c : LldpNeighborCache)
    → c.generation < 2 ^ 64
    → count ops < 2 ^ 64
    → (change_all c ops).generation ≡ c.generation
    → change_all c ops ≡ c
change_all-generation ops c g h e =
    same_MovedBy c (change_all c ops) (count ops) (change_all-MovedBy ops c) g h e
