-- ===== src/Model/LocalState.antt =====
-- services/network-observation/core/engine/LocalStateTracker.cpp and .h. The counts are `int` in the
-- code; no count exceeds the number of addresses that the tracker holds.
pub mod Refcounts
pub mod Weights
pub mod Owners
pub mod Links
pub mod Addresses
pub mod Invariant
use rmc_fabric.Base.{
  ℕ, Text, text_discrete, Bool, true, false, ◌||◌, not, if◌then◌else◌, ite, ◌==◌, List, [], ◌∷◌,
  Option, none, some, is_empty,
}
use rmc_fabric.Containers.Set
use rmc_fabric.Containers.Map
use rmc_fabric.Model.Types.{
  LinkObservation, AddressObservation, ObservationEvent, present, removed, af_inet,
  LocalInterfaceState, LocalNetworkSnapshot, empty_interface, text_ordered,
}
use Refcounts.{Counts, no_counts, increment, decrement}

pub record LocalStateTracker : Type 0 where
  pub interfaces : List (Text × LocalInterfaceState)
  -- `localMacRefcount_` with `snapshot_.localMacs`, and the same of the addresses.
  pub macs : Counts
  pub ips : Counts

unfoldable pub empty_tracker : LocalStateTracker
empty_tracker = record { interfaces = []; macs = no_counts; ips = no_counts }

-- The text before the first `/`.
abbrev pub before_slash : Text → Option Text
before_slash [] = none
before_slash (c ∷ s) =
    let rest = before_slash s in
    if c == b'/' then some [] else elim rest [ none ↦ none | some t ↦ some (c ∷ t) ]

unfoldable pub extract_ip_from_cidr : Text → Text
extract_ip_from_cidr cidr = elim (before_slash cidr) [ none ↦ [] | some ip ↦ ip ]

unfoldable pub increment_mac : Text → Counts → Counts
increment_mac mac counts = if is_empty mac then counts else increment mac counts

unfoldable pub decrement_mac : Text → Counts → Counts
decrement_mac mac counts = if is_empty mac then counts else decrement mac counts

-- `if (auto ip = extractIpFromCidr(cidr); !ip.empty()) decrementIp(ip);` for each text.
unfoldable pub decrement_ips : List Text → Counts → Counts
decrement_ips [] counts = counts
decrement_ips (cidr ∷ cidrs) counts =
    let ip = extract_ip_from_cidr cidr in
    decrement_ips cidrs (if is_empty ip then counts else decrement ip counts)

unfoldable pub forget_interface : LocalStateTracker → Text → LocalInterfaceState → LocalStateTracker
forget_interface t ifname iface = record {
  interfaces = Map.erase text_discrete ifname t.interfaces;
  macs = decrement_mac iface.mac t.macs;
  ips = decrement_ips iface.ipv6 (decrement_ips iface.ipv4 t.ips);
}

-- `snapshot_.interfaces[ifname]`
abbrev pub interface_or_new : LocalStateTracker → Text → LocalInterfaceState
interface_or_new t ifname = elim (Map.lookup text_discrete ifname t.interfaces) [
  | none ↦ empty_interface
  | some iface ↦ iface
]

abbrev pub mac_changed : LocalInterfaceState → LinkObservation → Bool
mac_changed iface obs = ite (text_discrete iface.mac obs.mac) false true

-- The assignments to the entry's fields.
abbrev pub updated_entry : LocalInterfaceState → LinkObservation → LocalInterfaceState
updated_entry iface obs = record iface {
  ifindex = obs.ifindex;
  ifname = obs.ifname;
  admin_up = obs.admin_up;
  running = obs.running;
  operstate = obs.operstate;
  master_ifname = obs.master_ifname;
  mac = if is_empty iface.ifname || mac_changed iface obs then obs.mac else iface.mac;
}

-- The MAC address is counted anew if the entry is new or its address changed.
unfoldable pub track_mac : LocalInterfaceState → LinkObservation → Counts → Counts
track_mac iface obs macs =
    if is_empty iface.ifname
    then increment_mac obs.mac macs
    else (if mac_changed iface obs
        then increment_mac obs.mac (decrement_mac iface.mac macs)
        else macs)

unfoldable pub update_interface : LocalStateTracker → LinkObservation → LocalStateTracker
unfolding track_mac
update_interface t obs =
    let iface = interface_or_new t obs.ifname in
    record t {
      interfaces = Map.insert text_discrete obs.ifname (updated_entry iface obs) t.interfaces;
      macs = track_mac iface obs t.macs;
    }

unfoldable pub remove_link : LocalStateTracker → Text → LocalStateTracker × Bool
remove_link t ifname = elim (Map.lookup text_discrete ifname t.interfaces) [
  | none ↦ (t, false)
  | some iface ↦ (forget_interface t ifname iface, true)
]

-- The result tells the engine whether the MAC address changed.
unfoldable pub on_link_observation : LocalStateTracker → LinkObservation → LocalStateTracker × Bool
unfolding remove_link
on_link_observation t obs = elim obs.event [
  | removed ↦ remove_link t obs.ifname
  | present ↦ (update_interface t obs, mac_changed (interface_or_new t obs.ifname) obs)
]

abbrev pub put_interface :
    LocalStateTracker → Text → LocalInterfaceState → Counts → LocalStateTracker
put_interface t ifname iface ips = record t {
  interfaces = Map.insert text_discrete ifname iface t.interfaces;
  ips = ips;
}

-- `obs.family == AF_INET`
abbrev pub is_inet : ℕ → Bool
is_inet family = family == af_inet

-- The set of the address's family, and the interface with that set replaced.
abbrev pub cidrs_of : Bool → LocalInterfaceState → List Text
cidrs_of true iface = iface.ipv4
cidrs_of false iface = iface.ipv6

abbrev pub with_cidrs : Bool → LocalInterfaceState → List Text → LocalInterfaceState
with_cidrs true iface cidrs = record iface { ipv4 = cidrs }
with_cidrs false iface cidrs = record iface { ipv6 = cidrs }

unfoldable pub add_address :
    LocalStateTracker → Text → Text → Bool → LocalInterfaceState → Text → LocalStateTracker × Bool
add_address t ifname cidr inet iface ip =
    if Set.contains cidr (cidrs_of inet iface)
    then (put_interface t ifname iface t.ips, false)
    else (
      put_interface t ifname (with_cidrs inet iface (Set.insert cidr (cidrs_of inet iface)))
          (increment ip t.ips),
      true,
    )

unfoldable pub remove_address :
    LocalStateTracker → Text → Text → Bool → LocalInterfaceState → Text → LocalStateTracker × Bool
remove_address t ifname cidr inet iface ip =
    if Set.contains cidr (cidrs_of inet iface)
    then (
      put_interface t ifname (with_cidrs inet iface (Set.erase cidr (cidrs_of inet iface)))
          (decrement ip t.ips),
      true,
    )
    else (put_interface t ifname iface t.ips, false)

-- Even an address that is dropped leaves an entry for its interface: `operator[]` makes one.
unfoldable pub on_address_observation :
    LocalStateTracker → AddressObservation → LocalStateTracker × Bool
unfolding add_address remove_address
on_address_observation t obs =
    let iface = interface_or_new t obs.ifname in
    let ip = extract_ip_from_cidr obs.cidr in
    if is_empty ip then (put_interface t obs.ifname iface t.ips, false) else elim obs.event [
      | present ↦ add_address t obs.ifname obs.cidr (is_inet obs.family) iface ip
      | removed ↦ remove_address t obs.ifname obs.cidr (is_inet obs.family) iface ip
    ]

unfoldable pub is_local_mac : LocalStateTracker → Text → Bool
is_local_mac t mac = Set.contains mac t.macs.members

unfoldable pub is_local_ip : LocalStateTracker → Text → Bool
is_local_ip t ip = Set.contains ip t.ips.members

-- `clear()`
unfoldable pub clear : LocalStateTracker → LocalStateTracker
unfolding empty_tracker
clear t = empty_tracker

unfoldable pub snapshot : LocalStateTracker → LocalNetworkSnapshot
snapshot t = record {
  interfaces = t.interfaces;
  local_macs = t.macs.members;
  local_ips = t.ips.members;
}
