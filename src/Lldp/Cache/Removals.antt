-- ===== src/Lldp/Cache/Removals.antt =====
-- The neighbours that LldpNeighborCache.cpp reports as removed.
use mathlib.Core.List.{append-nil}
use rmc_fabric.Base.{
  ◌≡◌, refl, ◌∙◌, ap, Text, text_discrete, Bool, true, ◌&&◌, ite, List, [], ◌∷◌, map, Option, none,
  some, arith,
}
use rmc_fabric.Containers.Map
use rmc_fabric.Containers.Map.{values}
use rmc_fabric.Lldp.Cache.{
  LldpNeighborCache, NeighborCacheMap, CachedLldpNeighbor, or_none, flush_found, flush_interface,
  re_seen, not_re_seen, diff_removed_neighbors,
}

none_re_seen :
    (ifname : Text) (neighbors : List (Text × CachedLldpNeighbor))
    → not_re_seen ifname none neighbors ≡ map (λ e. (ifname, e)) (values neighbors)
unfolding not_re_seen
none_re_seen ifname [] = refl
none_re_seen ifname ((key, e) ∷ neighbors) =
    ap (λ x. (ifname, e) ∷ x) (none_re_seen ifname neighbors)

-- `true` if all the identities are in the other map.
abbrev all_seen :
    Option (List (Text × CachedLldpNeighbor)) → List (Text × CachedLldpNeighbor) → Bool
all_seen fresh [] = true
all_seen fresh ((key, _) ∷ neighbors) = re_seen fresh key && all_seen fresh neighbors

all_re_seen :
    (ifname : Text) (fresh : Option (List (Text × CachedLldpNeighbor)))
    (neighbors : List (Text × CachedLldpNeighbor))
    → all_seen fresh neighbors ≡ true
    → not_re_seen ifname fresh neighbors ≡ []
unfolding not_re_seen
all_re_seen ifname fresh [] h = refl
all_re_seen ifname fresh ((key, e) ∷ neighbors) h =
    ground (arith, all_re_seen ifname fresh neighbors)

weaken_seen :
    (key : Text) (e : CachedLldpNeighbor) (others neighbors : List (Text × CachedLldpNeighbor))
    → all_seen (some others) neighbors ≡ true
    → all_seen (some ((key, e) ∷ others)) neighbors ≡ true
unfolding Map.lookup
weaken_seen key e others [] h = refl
weaken_seen key e others ((k, f) ∷ neighbors) h = ground (arith, weaken_seen key e others neighbors)

self_seen :
    (neighbors : List (Text × CachedLldpNeighbor)) → all_seen (some neighbors) neighbors ≡ true
unfolding Map.lookup
self_seen [] = refl
self_seen ((key, e) ∷ neighbors) =
    ground (arith, weaken_seen key e neighbors neighbors (self_seen neighbors))

-- Each interface of the first map is in the second, with the same neighbours.
abbrev Found : NeighborCacheMap → NeighborCacheMap → Type 0
Found [] m = Unit
Found ((ifname, neighbors) ∷ old) m =
    (Map.lookup text_discrete ifname m ≡ some neighbors) × Found old m

weaken_Found :
    (k : Text) (v : List (Text × CachedLldpNeighbor)) (old m : NeighborCacheMap)
    → Map.lookup text_discrete k m ≡ none
    → Found old m
    → Found old ((k, v) ∷ m)
unfolding Map.lookup
weaken_Found k v [] m h f = tt
weaken_Found k v ((j, w) ∷ old) m h f = (ground (arith, f.0), weaken_Found k v old m h f.1)

self_Found : (m : NeighborCacheMap) → Map.IsDistinct text_discrete m → Found m m
unfolding Map.lookup
self_Found [] d = tt
self_Found ((k, v) ∷ m) d = (ground arith, weaken_Found k v m m d.0 (self_Found m d.1))

nothing_removed : (old m : NeighborCacheMap) → Found old m → diff_removed_neighbors old m ≡ []
unfolding diff_removed_neighbors
nothing_removed [] m f = refl
nothing_removed ((j, w) ∷ old) m f =
    rw (f.0, all_re_seen j (some w) w (self_seen w), nothing_removed old m f.1) refl

-- Against itself a map has no removed neighbours.
pub diff_removed_neighbors_self :
    (m : NeighborCacheMap) → Map.IsDistinct text_discrete m → diff_removed_neighbors m m ≡ []
diff_removed_neighbors_self m d = nothing_removed m m (self_Found m d)

lookup_head :
    (k j : Text) (v : List (Text × CachedLldpNeighbor)) (m : NeighborCacheMap)
    → Map.lookup text_discrete k ((j, v) ∷ m)
      ≡ ite (text_discrete j k) (some v) (Map.lookup text_discrete k m)
unfolding Map.lookup
lookup_head k j v m = refl

lookup_nothing :
    (k : Text) → Map.lookup {V = List (Text × CachedLldpNeighbor)} text_discrete k [] ≡ none
unfolding Map.lookup
lookup_nothing k = refl

erased_removed :
    (ifname : Text) (old m : NeighborCacheMap)
    → Map.IsDistinct text_discrete old
    → Found old m
    → diff_removed_neighbors old (Map.erase text_discrete ifname m)
      ≡ map (λ e. (ifname, e)) (values (or_none (Map.lookup text_discrete ifname old)))
unfolding diff_removed_neighbors
erased_removed ifname [] m d f = rw (lookup_nothing ifname) refl
erased_removed ifname ((j, w) ∷ old) m d f =
    let rest = erased_removed ifname old m d.1 f.1 in
    elim (text_discrete j ifname) [
      | yes p ↦
          let gone : Map.lookup text_discrete j (Map.erase text_discrete ifname m) ≡ none =
            ground (arith, Map.lookup-erase text_discrete j ifname m) in
          let last : Map.lookup text_discrete ifname old ≡ none = ground (arith, d.0) in
          let here : Map.lookup text_discrete ifname ((j, w) ∷ old) ≡ some w =
            ground (arith, lookup_head ifname j w old) in
          rw (gone, none_re_seen j w, rest, last, here, p)
            (append-nil (map (λ e. (ifname, e)) (values w)))
      | no n ↦
          let kept : Map.lookup text_discrete j (Map.erase text_discrete ifname m) ≡ some w =
            ground (arith, Map.lookup-erase text_discrete j ifname m, f.0) in
          let there : Map.lookup text_discrete ifname ((j, w) ∷ old)
              ≡ Map.lookup text_discrete ifname old =
            ground (arith, lookup_head ifname j w old) in
          rw (there, kept, all_re_seen j (some w) w (self_seen w)) rest
    ]

-- With distinct interfaces: what a flush returns is, in its order, what a comparison of the cache
-- before it with the cache after it reports as removed, all of it on the flushed interface.
pub diff_removed_neighbors-flush_interface :
    (c : LldpNeighborCache) (ifname : Text)
    → Map.IsDistinct text_discrete c.by_interface
    → diff_removed_neighbors c.by_interface (flush_interface c ifname).0.by_interface
      ≡ map (λ e. (ifname, e)) (flush_interface c ifname).1
unfolding flush_interface
diff_removed_neighbors-flush_interface c ifname d =
    flushed (Map.lookup text_discrete ifname c.by_interface) refl
  where
    flushed :
        (found : Option (List (Text × CachedLldpNeighbor)))
        → Map.lookup text_discrete ifname c.by_interface ≡ found
        → diff_removed_neighbors c.by_interface (flush_found c ifname found).0.by_interface
          ≡ map (λ e. (ifname, e)) (flush_found c ifname found).1
    flushed none h = diff_removed_neighbors_self c.by_interface d
    flushed (some neighbors) h =
        erased_removed ifname c.by_interface c.by_interface d (self_Found c.by_interface d)
        ∙ ap (λ found. map (λ e. (ifname, e)) (values (or_none found))) h
