-- ===== src/Model/Types/Candidates.antt =====
-- services/network-observation/core/public/CandidateTypes.h and LocalStateTypes.h, on the types of
-- lib/interop_contract/network_observation/NetworkObservationTypes.hpp.
use rmc_fabric.Base.{
  ℕ, Bool, false, List, [], Option, none, Text, text_discrete, text_lt, ltb, ite, ℕ_discrete, ℤ,
  pos,
}
use rmc_fabric.Containers.Set.{Ordered}

pub data CandidateClassification : Type 0 where
  artifact local_self weak_candidate probable_endpoint remote_endpoint : CandidateClassification
  gateway_like topology_peer unknown : CandidateClassification

pub data CandidateStatus : Type 0 where
  provisional confirmed aged expired removed : CandidateStatus

unfoldable pub CandidateClassification-discrete : Discrete CandidateClassification
CandidateClassification-discrete = hlevel

unfoldable pub CandidateStatus-discrete : Discrete CandidateStatus
CandidateStatus-discrete = hlevel

-- (ifname, family, ip)
pub record NeighborEvidenceKey : Type 0 where
  pub ifname : Text
  pub family : ℕ
  pub ip : Text

-- (ifname, mac)
pub record FdbEvidenceKey : Type 0 where
  pub ifname : Text
  pub mac : Text

unfoldable pub NeighborEvidenceKey-discrete : Discrete NeighborEvidenceKey
NeighborEvidenceKey-discrete = hlevel (ℕ_discrete, text_discrete)

unfoldable pub FdbEvidenceKey-discrete : Discrete FdbEvidenceKey
FdbEvidenceKey-discrete = hlevel text_discrete

instance abbrev pub text_ordered : Ordered Text
text_ordered = record { dec = text_discrete; lt = text_lt }

-- The two `operator<`.
unfoldable pub neighbor_key_lt : NeighborEvidenceKey → NeighborEvidenceKey → Bool
neighbor_key_lt a b =
    ite (text_discrete a.ifname b.ifname)
      (ite (ℕ_discrete a.family b.family) (text_lt a.ip b.ip) (ltb a.family b.family))
      (text_lt a.ifname b.ifname)

unfoldable pub fdb_key_lt : FdbEvidenceKey → FdbEvidenceKey → Bool
fdb_key_lt a b =
    ite (text_discrete a.ifname b.ifname) (text_lt a.mac b.mac) (text_lt a.ifname b.ifname)

instance abbrev pub neighbor_key_ordered : Ordered NeighborEvidenceKey
neighbor_key_ordered = record { dec = NeighborEvidenceKey-discrete; lt = neighbor_key_lt }

instance abbrev pub fdb_key_ordered : Ordered FdbEvidenceKey
fdb_key_ordered = record { dec = FdbEvidenceKey-discrete; lt = fdb_key_lt }

pub record CandidateScore : Type 0 where
  pub total : ℤ
  pub reasons : List Text

pub record RemoteCandidate : Type 0 where
  pub mac : Text
  pub ipv4 : List Text
  pub ipv6 : List Text
  pub bridge_port : Option Text
  pub neighbor_ifaces : List Text
  pub neighbor_evidence : List NeighborEvidenceKey
  pub fdb_evidence : List FdbEvidenceKey
  pub seen_in_neigh : Bool
  pub seen_in_fdb : Bool
  pub seen_in_lldp : Bool
  pub remote_chassis_id : Option Text
  pub remote_port_id : Option Text
  pub remote_system_name : Option Text
  pub first_seen : ℕ
  pub last_seen : ℕ
  pub score : CandidateScore
  pub classification : CandidateClassification
  pub status : CandidateStatus

-- `RemoteCandidate{}`; a time point's default is the clock's epoch.
abbrev pub empty_candidate : RemoteCandidate
empty_candidate = record {
  mac = [];
  ipv4 = [];
  ipv6 = [];
  bridge_port = none;
  neighbor_ifaces = [];
  neighbor_evidence = [];
  fdb_evidence = [];
  seen_in_neigh = false;
  seen_in_fdb = false;
  seen_in_lldp = false;
  remote_chassis_id = none;
  remote_port_id = none;
  remote_system_name = none;
  first_seen = 0;
  last_seen = 0;
  score = record { total = pos 0; reasons = [] };
  classification = CandidateClassification.unknown;
  status = CandidateStatus.provisional;
}

pub record LocalInterfaceState : Type 0 where
  pub ifindex : ℕ
  pub ifname : Text
  pub mac : Text
  pub admin_up : Bool
  pub running : Bool
  pub operstate : Text
  pub master_ifname : Option Text
  pub ipv4 : List Text
  pub ipv6 : List Text

abbrev pub empty_interface : LocalInterfaceState
empty_interface = record {
  ifindex = 0;
  ifname = [];
  mac = [];
  admin_up = false;
  running = false;
  operstate = [];
  master_ifname = none;
  ipv4 = [];
  ipv6 = [];
}

pub record LocalNetworkSnapshot : Type 0 where
  pub interfaces : List (Text × LocalInterfaceState)
  pub local_macs : List Text
  pub local_ips : List Text
