-- ===== src/Examples/Inputs.antt =====
-- The netlink state and the LLDP cache at concrete inputs.
use rmc_fabric.Base.{◌+◌, ◌%◌, ◌^◌, not}
use rmc_fabric.Base.{
  ◌≡◌, refl, codes, Text, text_discrete, true, false, if◌then◌else◌, ite, map, List, [], ◌∷◌, none,
  some, arith, is_empty,
}
use rmc_fabric.Containers.Map
use rmc_fabric.Model.Types.{LldpObservation, present, af_inet}
use rmc_fabric.Model.LldpUtils.{resolve_lldp_identity}
use rmc_fabric.Netlink.Types.{
  LinkEvent, InterfaceIpEvent, FdbEvent, NeighborEvent, InterfaceAddressKey,
  InterfaceAddressKey-discrete,
}
use rmc_fabric.Netlink.State.{NetlinkState, empty_state, update_link, update_address, update_fdb}
use rmc_fabric.Netlink.State.Devices.{device}
use rmc_fabric.Netlink.State.Merge.{MergeInv, empty_state-MergeInv}
use rmc_fabric.Netlink.State.Run
use rmc_fabric.Netlink.State.Run.{Update, apply_all, tell_all}
use rmc_fabric.Netlink.State.Links
use rmc_fabric.Netlink.State.Links.{hear_link}
use rmc_fabric.Lldp.Cache.{
  LldpNeighborCache, empty_cache, CachedLldpNeighbor, apply, flush_interface,
  diff_removed_neighbors,
}
use rmc_fabric.Lldp.Cache.Entries
use rmc_fabric.Lldp.Cache.Entries.{entry, observed_entry}
use rmc_fabric.Lldp.Cache.Removals
use rmc_fabric.Lldp.Cache.Generation
use rmc_fabric.Lldp.Cache.Generation.{Change, change_all}

abbrev port : Text
port = codes "eth1"

abbrev phone : Text
phone = codes "aa:bb:cc:00:33:44"

abbrev phone_fdb : FdbEvent
phone_fdb = record { ifname = port; mac = phone; present = true; local = false; permanent = false }

abbrev phone_neighbor : NeighborEvent
phone_neighbor = record {
  ifname = port;
  mac = phone;
  family = af_inet;
  ip = codes "10.0.0.7";
  nud_state = 2;
  present = true;
}

abbrev port_gone : LinkEvent
port_gone = record {
  ifindex = 3;
  ifname = port;
  mac = codes "02:00:00:00:00:02";
  admin_up = false;
  running = false;
  oper_state = 2;
  master_ifindex = none;
  master_ifname = none;
  present = false;
}

abbrev port_address : InterfaceIpEvent
port_address = record {
  ifname = port;
  family = af_inet;
  address = codes "10.0.0.1";
  prefix_len = 24;
  present = true;
}

abbrev updates : List Update
updates =
    Update.address port_address
    ∷ Update.neighbor phone_neighbor
    ∷ Update.fdb phone_fdb
    ∷ Update.link port_gone
    ∷ Update.fdb (record phone_fdb { present = false })
    ∷ []

tell_all-apply_all_example :
    tell_all phone (apply_all empty_state updates).1 none
    ≡ device (apply_all empty_state updates).0 phone
tell_all-apply_all_example = Run.tell_all-apply_all updates phone

apply_all-MergeInv_example : MergeInv (apply_all empty_state updates).0
apply_all-MergeInv_example = Run.apply_all-MergeInv updates empty_state empty_state-MergeInv

abbrev with_address : NetlinkState
with_address = record empty_state {
  interface_addresses =
      (
        record { ifname = port; family = af_inet; address = codes "10.0.0.1"; prefix_len = 24 },
        true,
      )
      ∷ [];
}

abbrev port_key : InterfaceAddressKey
port_key = record { ifname = port; family = af_inet; address = codes "10.0.0.1"; prefix_len = 24 }

update_link-addresses_example :
    Map.lookup InterfaceAddressKey-discrete port_key
      (update_link with_address port_gone).0.interface_addresses
    ≡ none
unfolding text_discrete
update_link-addresses_example = Links.update_link-addresses with_address port_gone port_key

hear_link-update_link_example :
    hear_link port
      (update_link with_address port_gone).1
      (Map.lookup text_discrete port with_address.link_states)
    ≡ Map.lookup text_discrete port (update_link with_address port_gone).0.link_states
hear_link-update_link_example = Links.hear_link-update_link with_address port_gone port

update_link-update_link_example :
    (update_link (update_link with_address port_gone).0 port_gone).1 ≡ none
update_link-update_link_example = Links.update_link-update_link with_address port_gone

update_address-update_address_example :
    (update_address (update_address empty_state port_address).0 port_address).1 ≡ none
update_address-update_address_example = Links.update_address-update_address empty_state port_address

update_fdb-update_fdb_example : (update_fdb (update_fdb empty_state phone_fdb).0 phone_fdb).1 ≡ none
update_fdb-update_fdb_example = Links.update_fdb-update_fdb empty_state phone_fdb

abbrev phone_lldp : LldpObservation
phone_lldp = record {
  observed_at = 5;
  local_ifname = port;
  event = present;
  remote_chassis_id = some phone;
  remote_port_id = none;
  remote_system_name = none;
  keepalive = false;
}

abbrev phone_entry : CachedLldpNeighbor
phone_entry = record { raw_chassis_id = some phone; raw_port_id = none; raw_system_name = none }

abbrev cache : LldpNeighborCache
cache = record { by_interface = (port, (phone, phone_entry) ∷ []) ∷ []; generation = 1 }

cache-IsDistinct : Map.IsDistinct text_discrete cache.by_interface
unfolding Map.lookup
cache-IsDistinct = (refl, tt)

entry-apply_example :
    (entry (apply empty_cache phone_lldp).0.by_interface port phone ≡ (
      if is_empty (resolve_lldp_identity (some phone) none)
      then entry empty_cache.by_interface port phone
      else (ite
          (text_discrete port port)
          (ite
            (text_discrete (resolve_lldp_identity (some phone) none) phone)
            (some phone_entry)
            (entry empty_cache.by_interface port phone))
          (entry empty_cache.by_interface port phone))))
    × ((apply empty_cache phone_lldp).0.generation ≡ (
        if is_empty (resolve_lldp_identity (some phone) none)
        then empty_cache.generation
        else (empty_cache.generation + 1) % 2 ^ 64))
    × ((apply empty_cache phone_lldp).1 ≡ not (is_empty (resolve_lldp_identity (some phone) none)))
entry-apply_example = Entries.entry-apply empty_cache phone_lldp port phone

diff_removed_neighbors_self_example :
    diff_removed_neighbors cache.by_interface cache.by_interface ≡ []
diff_removed_neighbors_self_example =
    Removals.diff_removed_neighbors_self cache.by_interface cache-IsDistinct

diff_removed_neighbors-flush_interface_example :
    diff_removed_neighbors cache.by_interface (flush_interface cache port).0.by_interface
    ≡ map (λ e. (port, e)) (flush_interface cache port).1
diff_removed_neighbors-flush_interface_example =
    Removals.diff_removed_neighbors-flush_interface cache port cache-IsDistinct

change_all-generation_example :
    change_all empty_cache (Change.cleared ∷ Change.flushed port ∷ []) ≡ empty_cache
unfolding change_all Generation.change empty_cache flush_interface rmc_fabric.Lldp.Cache.clear
    Map.lookup
change_all-generation_example =
    Generation.change_all-generation (Change.cleared ∷ Change.flushed port ∷ []) empty_cache
      (omega arith) (omega arith) refl
