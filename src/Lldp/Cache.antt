-- ===== src/Lldp/Cache.antt =====
-- services/network-observation/inputs/lldp/lldpd/LldpNeighborCache.cpp and .h. Each operation holds
-- the mutex, so it is one step; the generation is a 64-bit counter.
pub mod Generation
pub mod Entries
pub mod Removals
use rmc_fabric.Base.{
  ℕ, ◌+◌, ◌%◌, ◌^◌, Text, text_discrete, Bool, true, false, if◌then◌else◌, List, [], ◌∷◌, ◌++◌,
  Option, none, some, is_empty, is_some,
}
use rmc_fabric.Containers.Map
use rmc_fabric.Containers.Map.{values}
use rmc_fabric.Model.Types.{LldpObservation, ObservationEvent, present}
use rmc_fabric.Model.LldpUtils.{resolve_lldp_identity}

pub record CachedLldpNeighbor : Type 0 where
  pub raw_chassis_id : Option Text
  pub raw_port_id : Option Text
  pub raw_system_name : Option Text

-- From the interface name to the identity to the entry.
abbrev pub NeighborCacheMap : Type 0
NeighborCacheMap = List (Text × List (Text × CachedLldpNeighbor))

pub record LldpNeighborCache : Type 0 where
  pub by_interface : NeighborCacheMap
  pub generation : ℕ

unfoldable pub empty_cache : LldpNeighborCache
empty_cache = record { by_interface = []; generation = 0 }

-- `generation_.fetch_add(1)` of a `std::uint64_t`
abbrev pub bumped : ℕ → ℕ
bumped n = (n + 1) % 2 ^ 64

-- `byInterface_[ifname]`
abbrev pub or_none : Option (List (Text × CachedLldpNeighbor)) → List (Text × CachedLldpNeighbor)
or_none none = []
or_none (some neighbors) = neighbors

abbrev pub neighbors_of : NeighborCacheMap → Text → List (Text × CachedLldpNeighbor)
neighbors_of m ifname = or_none (Map.lookup text_discrete ifname m)

abbrev pub entry_of : LldpObservation → CachedLldpNeighbor
entry_of obs = record {
  raw_chassis_id = obs.remote_chassis_id;
  raw_port_id = obs.remote_port_id;
  raw_system_name = obs.remote_system_name;
}

abbrev pub with_entry :
    ObservationEvent
    → Text
    → CachedLldpNeighbor
    → List (Text × CachedLldpNeighbor)
    → List (Text × CachedLldpNeighbor)
with_entry present key entry neighbors = Map.insert text_discrete key entry neighbors
with_entry ObservationEvent.removed key entry neighbors = Map.erase text_discrete key neighbors

unfoldable pub apply : LldpNeighborCache → LldpObservation → LldpNeighborCache × Bool
apply c obs =
    let key = resolve_lldp_identity obs.remote_chassis_id obs.remote_port_id in
    if is_empty key then (c, false) else (
      record {
        by_interface =
            Map.insert text_discrete obs.local_ifname
              (with_entry obs.event key (entry_of obs)
                (neighbors_of c.by_interface obs.local_ifname))
              c.by_interface;
        generation = bumped c.generation;
      },
      true,
    )

abbrev pub flush_found :
    LldpNeighborCache
    → Text
    → Option (List (Text × CachedLldpNeighbor))
    → LldpNeighborCache × List CachedLldpNeighbor
flush_found c ifname none = (c, [])
flush_found c ifname (some neighbors) = (
  record {
    by_interface = Map.erase text_discrete ifname c.by_interface;
    generation = bumped c.generation;
  },
  values neighbors,
)

unfoldable pub flush_interface :
    LldpNeighborCache → Text → LldpNeighborCache × List CachedLldpNeighbor
flush_interface c ifname = flush_found c ifname (Map.lookup text_discrete ifname c.by_interface)

unfoldable pub exchange :
    LldpNeighborCache → NeighborCacheMap → LldpNeighborCache × NeighborCacheMap
exchange c replacement =
    (record { by_interface = replacement; generation = bumped c.generation }, c.by_interface)

unfoldable pub clear : LldpNeighborCache → LldpNeighborCache
clear c =
    if is_empty c.by_interface
    then c
    else record { by_interface = []; generation = bumped c.generation }

unfoldable pub snapshot : LldpNeighborCache → NeighborCacheMap × ℕ
snapshot c = (c.by_interface, c.generation)

-- `freshIt != fresh.end() && freshIt->second.contains(key)`
abbrev pub re_seen : Option (List (Text × CachedLldpNeighbor)) → Text → Bool
re_seen none key = false
re_seen (some neighbors) key = is_some (Map.lookup text_discrete key neighbors)

-- The inner loop.
unfoldable pub not_re_seen :
    Text
    → Option (List (Text × CachedLldpNeighbor))
    → List (Text × CachedLldpNeighbor)
    → List (Text × CachedLldpNeighbor)
not_re_seen ifname fresh [] = []
not_re_seen ifname fresh ((key, entry) ∷ neighbors) =
    let rest = not_re_seen ifname fresh neighbors in
    if re_seen fresh key then rest else (ifname, entry) ∷ rest

unfoldable pub diff_removed_neighbors :
    NeighborCacheMap → NeighborCacheMap → List (Text × CachedLldpNeighbor)
diff_removed_neighbors [] fresh = []
diff_removed_neighbors ((ifname, neighbors) ∷ old_cache) fresh =
    not_re_seen ifname (Map.lookup text_discrete ifname fresh) neighbors
    ++ diff_removed_neighbors old_cache fresh
