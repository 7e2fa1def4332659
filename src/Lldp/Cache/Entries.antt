-- ===== src/Lldp/Cache/Entries.antt =====
-- The entries that LldpNeighborCache.cpp keeps, and those that it reports as removed.
use rmc_fabric.Base.{
  ◌+◌, ◌%◌, ◌^◌, ◌≡◌, Text, text_discrete, not, if◌then◌else◌, ite, List, Option, none, some,
  is_empty, arith,
}
use rmc_fabric.Containers.Map
use rmc_fabric.Containers.Map.{values}
use rmc_fabric.Model.Types.{LldpObservation, ObservationEvent, present}
use rmc_fabric.Model.LldpUtils.{resolve_lldp_identity}
use rmc_fabric.Lldp.Cache.{
  LldpNeighborCache, NeighborCacheMap, CachedLldpNeighbor, entry_of, with_entry, neighbors_of,
  apply,
}

-- The entry for an identity on an interface.
abbrev pub entry : NeighborCacheMap → Text → Text → Option CachedLldpNeighbor
entry m ifname key = Map.lookup text_discrete key (neighbors_of m ifname)

-- The observation's own entry after it: there if it is present, gone if it is removed.
abbrev pub observed_entry : LldpObservation → ObservationEvent → Option CachedLldpNeighbor
observed_entry obs present = some (entry_of obs)
observed_entry obs ObservationEvent.removed = none

with_entry-lookup :
    (event : ObservationEvent) (obs : LldpObservation) (key k : Text)
    (neighbors : List (Text × CachedLldpNeighbor))
    → Map.lookup text_discrete k (with_entry event key (entry_of obs) neighbors)
      ≡ ite (text_discrete key k) (observed_entry obs event) (Map.lookup text_discrete k neighbors)
with_entry-lookup present obs key k neighbors =
    Map.lookup-insert text_discrete k key (entry_of obs) neighbors
with_entry-lookup ObservationEvent.removed obs key k neighbors =
    Map.lookup-erase text_discrete k key neighbors

entry-apply_entry :
    (c : LldpNeighborCache) (obs : LldpObservation) (ifname key : Text)
    → entry (apply c obs).0.by_interface ifname key ≡ (
        if is_empty (resolve_lldp_identity obs.remote_chassis_id obs.remote_port_id)
        then entry c.by_interface ifname key
        else (ite
            (text_discrete obs.local_ifname ifname)
            (ite
              (text_discrete (resolve_lldp_identity obs.remote_chassis_id obs.remote_port_id) key)
              (observed_entry obs obs.event)
              (entry c.by_interface ifname key))
            (entry c.by_interface ifname key)))
unfolding apply
entry-apply_entry c obs ifname key =
    let id = resolve_lldp_identity obs.remote_chassis_id obs.remote_port_id in
    let neighbors =
      with_entry obs.event id (entry_of obs) (neighbors_of c.by_interface obs.local_ifname) in
    ground (
      arith,
      Map.lookup-insert text_discrete ifname obs.local_ifname neighbors c.by_interface,
      with_entry-lookup obs.event obs id key (neighbors_of c.by_interface obs.local_ifname),
    )

-- An observation whose identity is a MAC address sets its own entry, and no other, on its own
-- interface, and no other, counts the generation up, and says that it did; one without such an
-- identity changes no entry, leaves the generation, and says so.
pub entry-apply :
    (c : LldpNeighborCache) (obs : LldpObservation) (ifname key : Text)
    → (entry (apply c obs).0.by_interface ifname key ≡ (
        if is_empty (resolve_lldp_identity obs.remote_chassis_id obs.remote_port_id)
        then entry c.by_interface ifname key
        else (ite
            (text_discrete obs.local_ifname ifname)
            (ite
              (text_discrete (resolve_lldp_identity obs.remote_chassis_id obs.remote_port_id) key)
              (observed_entry obs obs.event)
              (entry c.by_interface ifname key))
            (entry c.by_interface ifname key))))
      × ((apply c obs).0.generation ≡ (
          if is_empty (resolve_lldp_identity obs.remote_chassis_id obs.remote_port_id)
          then c.generation
          else (c.generation + 1) % 2 ^ 64))
      × ((apply c obs).1
          ≡ not (is_empty (resolve_lldp_identity obs.remote_chassis_id obs.remote_port_id)))
unfolding apply
entry-apply c obs ifname key = (entry-apply_entry c obs ifname key, ground arith, ground arith)
