-- ===== src/Netlink/State.antt =====
-- services/network-observation/inputs/netlink/state/NetlinkState.cpp and .h. Each operation holds the
-- mutex while it works, so it is one step; the device callback comes after it, and is the device
-- event that the step returns. The maps are kept in the order of insertion, which stands for the
-- unspecified order of the unordered ones.
pub mod Devices
pub mod Merge
pub mod Run
pub mod Links
use rmc_fabric.Base.{
  ℕ, Text, text_discrete, text_lt, Bool, true, false, ◌&&◌, ◌||◌, not, if◌then◌else◌, ite, List, [],
  ◌∷◌, Option, none, some, is_empty, is_some,
}
use rmc_fabric.Containers.Set
use rmc_fabric.Containers.Map
use rmc_fabric.Containers.Map.{keep_if, values}
use rmc_fabric.Model.Types.{text_ordered}
use rmc_fabric.Netlink.Types.{
  LinkEvent, InterfaceIpEvent, FdbEvent, NeighborEvent, DeviceEvent, InterfaceAddressKey,
  LinkEvent-discrete, FdbEvent-discrete, NeighborEvent-discrete, DeviceEvent-discrete,
  InterfaceAddressKey-discrete, is_ipv4, is_ipv6, make_neighbor_key,
}

pub record MacAggregate : Type 0 where
  pub fdb : Option FdbEvent
  pub ipv4_addrs : List Text
  pub ipv6_addrs : List Text

abbrev pub empty_aggregate : MacAggregate
empty_aggregate = record { fdb = none; ipv4_addrs = []; ipv6_addrs = [] }

pub record NetlinkState : Type 0 where
  pub link_states : List (Text × LinkEvent)
  pub interface_addresses : List (InterfaceAddressKey × Bool)
  pub fdb_states_by_mac : List (Text × FdbEvent)
  pub neighbor_states_by_key : List (Text × NeighborEvent)
  pub mac_aggregates : List (Text × MacAggregate)
  pub device_states_by_mac : List (Text × DeviceEvent)

abbrev pub empty_state : NetlinkState
empty_state = record {
  link_states = [];
  interface_addresses = [];
  fdb_states_by_mac = [];
  neighbor_states_by_key = [];
  mac_aggregates = [];
  device_states_by_mac = [];
}

-- The event, if something changed.
abbrev pub emit {ℓ} : {A : Type ℓ} → Bool → A → Option A
emit changed event = if changed then some event else none

-- `(it == end()) || (it->second != event)`
abbrev pub differs {ℓ} : {A : Type ℓ} → Discrete A → Option A → A → Bool
differs dec none event = true
differs dec (some old) event = ite (dec old event) false true

abbrev pub is_of : Text → InterfaceAddressKey → Bool
is_of ifname key = ite (text_discrete key.ifname ifname) true false

-- `removed > 0` of the addresses that `std::erase_if` takes away.
abbrev pub has_address : Text → List (InterfaceAddressKey × Bool) → Bool
has_address ifname [] = false
has_address ifname ((key, _) ∷ m) = is_of ifname key || has_address ifname m

unfoldable pub update_link : NetlinkState → LinkEvent → NetlinkState × Option LinkEvent
update_link s event =
    let had = Map.lookup text_discrete event.ifname s.link_states in
    if not event.present
    then (
      record s {
        link_states = Map.erase text_discrete event.ifname s.link_states;
        interface_addresses = keep_if (λ key _. not (is_of event.ifname key)) s.interface_addresses;
      },
      emit (is_some had || has_address event.ifname s.interface_addresses) event,
    )
    else (
      record s { link_states = Map.insert text_discrete event.ifname event s.link_states },
      emit (differs LinkEvent-discrete had event) event,
    )

abbrev pub address_key : InterfaceIpEvent → InterfaceAddressKey
address_key event = record {
  ifname = event.ifname;
  family = event.family;
  address = event.address;
  prefix_len = event.prefix_len;
}

unfoldable pub update_address :
    NetlinkState → InterfaceIpEvent → NetlinkState × Option InterfaceIpEvent
update_address s event =
    let key = address_key event in
    let known = is_some (Map.lookup InterfaceAddressKey-discrete key s.interface_addresses) in
    if not event.present
    then (if known
        then (
          record s {
            interface_addresses = Map.erase InterfaceAddressKey-discrete key s.interface_addresses;
          },
          some event,
        )
        else (s, none))
    else (if known then (s, none) else (
      record s {
        interface_addresses =
            Map.insert InterfaceAddressKey-discrete key true s.interface_addresses;
      },
      some event,
    ))

-- The removal of a device that was there.
abbrev pub removed_event : DeviceEvent → DeviceEvent
removed_event old = record {
  ifname = old.ifname;
  mac = old.mac;
  ipv4_addrs = [];
  ipv6_addrs = [];
  present = false;
}

abbrev pub fdb_ifname : Option FdbEvent → Text
fdb_ifname none = []
fdb_ifname (some event) = event.ifname

abbrev pub fdb_present : Option FdbEvent → Bool
fdb_present none = false
fdb_present (some event) = event.present

abbrev pub merged : Text → MacAggregate → DeviceEvent
merged mac agg = record {
  ifname = fdb_ifname agg.fdb;
  mac = mac;
  ipv4_addrs = agg.ipv4_addrs;
  ipv6_addrs = agg.ipv6_addrs;
  present = fdb_present agg.fdb;
}

abbrev pub has_any_info : DeviceEvent → Bool
has_any_info device =
    device.present
    || not (is_empty device.ipv4_addrs)
    || not (is_empty device.ipv6_addrs)
    || not (is_empty device.ifname)

-- The end of both branches in which there is nothing to merge.
abbrev pub drop_found : NetlinkState → Text → Option DeviceEvent → NetlinkState × Option DeviceEvent
drop_found s mac none = (s, none)
drop_found s mac (some old) = (
  record s { device_states_by_mac = Map.erase text_discrete mac s.device_states_by_mac },
  some (removed_event old),
)

abbrev pub drop_device : NetlinkState → Text → NetlinkState × Option DeviceEvent
drop_device s mac = drop_found s mac (Map.lookup text_discrete mac s.device_states_by_mac)

abbrev pub merge_device : NetlinkState → Text → MacAggregate → NetlinkState × Option DeviceEvent
merge_device s mac agg =
    let device = merged mac agg in
    let changed =
      differs DeviceEvent-discrete (Map.lookup text_discrete mac s.device_states_by_mac) device in
    if not (has_any_info device)
    then drop_device (record s { mac_aggregates = Map.erase text_discrete mac s.mac_aggregates })
        mac
    else (
      record s {
        device_states_by_mac = Map.insert text_discrete mac device s.device_states_by_mac;
      },
      emit changed device,
    )

abbrev pub refresh_found :
    NetlinkState → Text → Option MacAggregate → NetlinkState × Option DeviceEvent
refresh_found s mac none = drop_device s mac
refresh_found s mac (some agg) = merge_device s mac agg

unfoldable pub refresh_merged_device_locked :
    NetlinkState → Text → NetlinkState × Option DeviceEvent
refresh_merged_device_locked s mac =
    refresh_found s mac (Map.lookup text_discrete mac s.mac_aggregates)

-- `macAggregates_[mac]`
abbrev pub or_empty : Option MacAggregate → MacAggregate
or_empty none = empty_aggregate
or_empty (some agg) = agg

abbrev pub aggregate_of : NetlinkState → Text → MacAggregate
aggregate_of s mac = or_empty (Map.lookup text_discrete mac s.mac_aggregates)

abbrev pub put_aggregate : NetlinkState → Text → MacAggregate → NetlinkState
put_aggregate s mac agg = record s {
  mac_aggregates = Map.insert text_discrete mac agg s.mac_aggregates;
}

abbrev pub put_fdb : NetlinkState → FdbEvent → NetlinkState
put_fdb s event =
    let agg = aggregate_of s event.mac in
    if not event.present
    then put_aggregate
        (record s { fdb_states_by_mac = Map.erase text_discrete event.mac s.fdb_states_by_mac })
        event.mac (record agg { fdb = none })
    else put_aggregate
        (record s {
          fdb_states_by_mac = Map.insert text_discrete event.mac event s.fdb_states_by_mac;
        })
        event.mac (record agg { fdb = some event })

-- The event to pass on, and the device event of the callback.
unfoldable pub update_fdb :
    NetlinkState → FdbEvent → NetlinkState × Option FdbEvent × Option DeviceEvent
update_fdb s event =
    let old = Map.lookup text_discrete event.mac s.fdb_states_by_mac in
    let r = refresh_merged_device_locked (put_fdb s event) event.mac in
    (r.0, emit (differs FdbEvent-discrete old event) event, r.1)

-- The addresses of the family, with the change made to them.
abbrev pub with_ips : ℕ → (List Text → List Text) → MacAggregate → MacAggregate
with_ips family change agg =
    if is_ipv4 family
    then record agg { ipv4_addrs = change agg.ipv4_addrs }
    else (if is_ipv6 family then record agg { ipv6_addrs = change agg.ipv6_addrs } else agg)

abbrev pub neighbor_key : NeighborEvent → Text
neighbor_key event = make_neighbor_key event.ifname event.mac event.family event.ip

abbrev pub put_neighbor : NetlinkState → NeighborEvent → NetlinkState
put_neighbor s event =
    let agg = aggregate_of s event.mac in
    let key = neighbor_key event in
    if not event.present
    then put_aggregate
        (record s { neighbor_states_by_key = Map.erase text_discrete key s.neighbor_states_by_key })
        event.mac (with_ips event.family (Set.erase event.ip) agg)
    else put_aggregate
        (record s {
          neighbor_states_by_key = Map.insert text_discrete key event s.neighbor_states_by_key;
        })
        event.mac (with_ips event.family (Set.insert event.ip) agg)

abbrev pub neighbor_changed : Option NeighborEvent → NeighborEvent → Bool
neighbor_changed old event =
    if not event.present then is_some old else differs NeighborEvent-discrete old event

unfoldable pub update_neighbor :
    NetlinkState → NeighborEvent → NetlinkState × Option NeighborEvent × Option DeviceEvent
update_neighbor s event =
    let old = Map.lookup text_discrete (neighbor_key event) s.neighbor_states_by_key in
    let r = refresh_merged_device_locked (put_neighbor s event) event.mac in
    (r.0, emit (neighbor_changed old event) event, r.1)

-- `std::ranges::sort` by a key, as insertion into a sorted list; elements of equal keys do not arise,
-- since the keys of the maps are part of them.
unfoldable pub insert_by {ℓ} : {A : Type ℓ} → (A → A → Bool) → A → List A → List A
insert_by lt a [] = a ∷ []
insert_by lt a (x ∷ xs) = let rest = insert_by lt a xs in if lt a x then a ∷ x ∷ xs else x ∷ rest

unfoldable pub sort_by {ℓ} : {A : Type ℓ} → (A → A → Bool) → List A → List A
sort_by lt [] = []
sort_by lt (x ∷ xs) = insert_by lt x (sort_by lt xs)

-- `std::pair{d.ifname, d.mac}`
abbrev pub device_lt : DeviceEvent → DeviceEvent → Bool
device_lt a b =
    ite (text_discrete a.ifname b.ifname) (text_lt a.mac b.mac) (text_lt a.ifname b.ifname)

unfoldable pub get_devices_snapshot : NetlinkState → List DeviceEvent
get_devices_snapshot s = sort_by device_lt (values s.device_states_by_mac)

unfoldable pub get_links_snapshot : NetlinkState → List LinkEvent
get_links_snapshot s = sort_by (λ a b. text_lt a.ifname b.ifname) (values s.link_states)

unfoldable pub clear : NetlinkState → NetlinkState
clear s = empty_state
