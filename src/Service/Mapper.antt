-- ===== src/Service/Mapper.antt =====
-- services/network-observation/service/NetlinkObservationMapper.cpp and .h. A sink that the runtime
-- sets is a function on the state `S` that it changes; the clock's reading is an argument.
pub mod Cidr
use rmc_fabric.Base.{
  ℕ, ◌+◌, suc, [], ◌++◌, codes, Text, Bool, true, false, Option, none, some, if◌then◌else◌, ◌&&◌,
  ◌==◌,
}
use rmc_fabric.Model.Types
use rmc_fabric.Netlink.Types.{LinkEvent, InterfaceIpEvent, FdbEvent, NeighborEvent, digits}

-- The NUD states of <linux/neighbour.h>.
unfoldable pub nud_to_reachability : ℕ → Types.NeighborReachability
nud_to_reachability nud_state =
    if nud_state == 1
    then Types.NeighborReachability.incomplete
    else (if nud_state == 2
        then Types.NeighborReachability.reachable
        else (if nud_state == 4
            then Types.NeighborReachability.stale
            else (if nud_state == 8
                then Types.NeighborReachability.delay
                else (if nud_state == 16
                    then Types.NeighborReachability.probe
                    else (if nud_state == 32
                        then Types.NeighborReachability.failed
                        else (if nud_state == 64
                            then Types.NeighborReachability.no_arp
                            else (if nud_state == 128
                                then Types.NeighborReachability.permanent
                                else Types.NeighborReachability.unknown)))))))

unfoldable pub fdb_to_entry_kind : FdbEvent → Types.FdbEntryKind
fdb_to_entry_kind e =
    if e.local
    then Types.FdbEntryKind.local
    else (if e.permanent then Types.FdbEntryKind.static else Types.FdbEntryKind.dynamic)

unfoldable pub to_obs_event : Bool → Types.ObservationEvent
to_obs_event present =
    if present then Types.ObservationEvent.present else Types.ObservationEvent.removed

unfoldable pub make_cidr : InterfaceIpEvent → Text
make_cidr e = e.address ++ (codes "/" ++ digits (suc e.prefix_len) e.prefix_len [])

unfoldable pub to_link_observation : LinkEvent → ℕ → Types.LinkObservation
to_link_observation e observed_at = record {
  observed_at = observed_at;
  ifindex = e.ifindex;
  ifname = e.ifname;
  mac = e.mac;
  admin_up = e.admin_up;
  running = e.running;
  operstate = digits (suc e.oper_state) e.oper_state [];
  master_ifname = e.master_ifname;
  event = to_obs_event e.present;
}

unfoldable pub to_address_observation : InterfaceIpEvent → ℕ → Types.AddressObservation
to_address_observation e observed_at = record {
  observed_at = observed_at;
  ifname = e.ifname;
  event = to_obs_event e.present;
  family = e.family;
  cidr = make_cidr e;
}

unfoldable pub to_neighbor_observation : NeighborEvent → ℕ → Types.NeighborObservation
to_neighbor_observation e observed_at = record {
  observed_at = observed_at;
  ifname = e.ifname;
  event = to_obs_event e.present;
  family = e.family;
  mac = e.mac;
  ip = e.ip;
  reachability = nud_to_reachability e.nud_state;
}

unfoldable pub to_fdb_observation : FdbEvent → ℕ → Types.FdbObservation
to_fdb_observation e observed_at = record {
  observed_at = observed_at;
  port_ifname = e.ifname;
  event = to_obs_event e.present;
  mac = e.mac;
  entry_kind = fdb_to_entry_kind e;
}

-- A `std::function` may be empty.
pub record ObservationSinks (S : Type 0) : Type 0 where
  pub on_link : Option (Types.LinkObservation → S → S)
  pub on_address : Option (Types.AddressObservation → S → S)
  pub on_neighbor : Option (Types.NeighborObservation → S → S)
  pub on_fdb : Option (Types.FdbObservation → S → S)
  pub on_link_state_for_lldp : Option (Text → Bool → S → S)

pub record MonitorCallbacks (S : Type 0) : Type 0 where
  pub on_link_changed : LinkEvent → ℕ → S → S
  pub on_interface_ip_changed : InterfaceIpEvent → ℕ → S → S
  pub on_fdb_changed : FdbEvent → ℕ → S → S
  pub on_neighbor_changed : NeighborEvent → ℕ → S → S

module _ {S A : Type 0} where
  abbrev pub call : Option (A → S → S) → A → S → S
  call none a s = s
  call (some sink) a s = sink a s

module _ {S : Type 0} where
  abbrev pub call_link_state : Option (Text → Bool → S → S) → Text → Bool → S → S
  call_link_state none ifname up s = s
  call_link_state (some sink) ifname up s = sink ifname up s

  unfoldable pub make_callbacks : ObservationSinks S → MonitorCallbacks S
  make_callbacks sinks = record {
    on_link_changed = λ e now s.
        call_link_state sinks.on_link_state_for_lldp e.ifname (e.present && e.running)
          (call sinks.on_link (to_link_observation e now) s);
    on_interface_ip_changed = λ e now s. call sinks.on_address (to_address_observation e now) s;
    on_fdb_changed = λ e now s. call sinks.on_fdb (to_fdb_observation e now) s;
    on_neighbor_changed = λ e now s. call sinks.on_neighbor (to_neighbor_observation e now) s;
  }
