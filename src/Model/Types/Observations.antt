-- ===== src/Model/Types/Observations.antt =====
-- services/network-observation/core/public/ObservationTypes.h. A time point and a duration are
-- numbers of clock ticks, a string is its bytes.
use rmc_fabric.Base.{ℕ, Bool, Option, Text}

pub data ObservationEvent : Type 0 where
  present removed : ObservationEvent

pub data FdbEntryKind : Type 0 where
  unknown dynamic static local control_plane : FdbEntryKind

pub data NeighborReachability : Type 0 where
  unknown permanent no_arp reachable stale probe delay incomplete failed : NeighborReachability

-- AF_INET of <sys/socket.h> on Linux.
abbrev pub af_inet : ℕ
af_inet = 2

pub record LinkObservation : Type 0 where
  pub observed_at : ℕ
  pub ifindex : ℕ
  pub ifname : Text
  pub mac : Text
  pub admin_up : Bool
  pub running : Bool
  pub operstate : Text
  pub master_ifname : Option Text
  pub event : ObservationEvent

pub record AddressObservation : Type 0 where
  pub observed_at : ℕ
  pub ifname : Text
  pub event : ObservationEvent
  pub family : ℕ
  pub cidr : Text

pub record NeighborObservation : Type 0 where
  pub observed_at : ℕ
  pub ifname : Text
  pub event : ObservationEvent
  pub family : ℕ
  pub mac : Text
  pub ip : Text
  pub reachability : NeighborReachability

pub record FdbObservation : Type 0 where
  pub observed_at : ℕ
  pub port_ifname : Text
  pub event : ObservationEvent
  pub mac : Text
  pub entry_kind : FdbEntryKind

pub record LldpObservation : Type 0 where
  pub observed_at : ℕ
  pub local_ifname : Text
  pub event : ObservationEvent
  pub remote_chassis_id : Option Text
  pub remote_port_id : Option Text
  pub remote_system_name : Option Text
  pub keepalive : Bool
