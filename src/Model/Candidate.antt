-- ===== src/Model/Candidate.antt =====
-- ObservationModelEngine.cpp: what the engine computes of one candidate.
use rmc_fabric.Base.{
  ℕ, ◌-◌, Text, text_discrete, Bool, true, false, ◌&&◌, not, if◌then◌else◌, ite, ltb, ◌==◌, List,
  [], Option, none, some, is_empty, is_some,
}
use rmc_fabric.Containers.Set
use rmc_fabric.Model.Types.{
  RemoteCandidate, empty_candidate, CandidateClassification, artifact, local_self, remote_endpoint,
  gateway_like, topology_peer, CandidateStatus, provisional, confirmed, aged, expired,
  ObservationEvent, present, NeighborObservation, FdbObservation, LldpObservation,
  NeighborEvidenceKey, FdbEvidenceKey, text_ordered, neighbor_key_ordered, fdb_key_ordered, af_inet,
  ModelConfig,
}

pub data ModelPhase : Type 0 where
  initializing live : ModelPhase

unfoldable pub is_confirmed_worthy : CandidateClassification → Bool
is_confirmed_worthy remote_endpoint = true
is_confirmed_worthy gateway_like = true
is_confirmed_worthy topology_peer = true
is_confirmed_worthy _ = false

unfoldable pub has_no_evidence : RemoteCandidate → Bool
has_no_evidence c =
    not c.seen_in_neigh
    && not c.seen_in_fdb
    && not c.seen_in_lldp
    && is_empty c.ipv4
    && is_empty c.ipv6
    && not (is_some c.bridge_port)

abbrev is_published_status : CandidateStatus → Bool
is_published_status confirmed = true
is_published_status aged = true
is_published_status _ = false

abbrev is_published_class : CandidateClassification → Bool
is_published_class artifact = false
is_published_class local_self = false
is_published_class CandidateClassification.unknown = false
is_published_class _ = true

unfoldable pub is_publishable : RemoteCandidate → Bool
is_publishable c =
    if is_published_status c.status then is_published_class c.classification else false

-- The candidate that `getOrCreateCandidate` makes.
unfoldable pub new_candidate : Text → ℕ → RemoteCandidate
new_candidate mac now = record empty_candidate { mac = mac; first_seen = now }

-- The first half of `reconcileStatusLocked`: what a present observation revives.
abbrev pub revive : ObservationEvent → CandidateStatus → CandidateStatus
revive present aged = confirmed
revive present expired = confirmed
revive present CandidateStatus.removed = provisional
revive _ status = status

-- The second half: what the phase makes of the status.
abbrev pub settle_status : ModelPhase → CandidateClassification → CandidateStatus → CandidateStatus
settle_status initializing cls CandidateStatus.removed = CandidateStatus.removed
settle_status initializing cls _ = provisional
settle_status live cls provisional = if is_confirmed_worthy cls then confirmed else provisional
settle_status live cls status = status

unfoldable pub reconcile_status_locked :
    ModelPhase → RemoteCandidate → ObservationEvent → RemoteCandidate
unfolding is_confirmed_worthy
reconcile_status_locked phase c event = record c {
  status = settle_status phase c.classification (revive event c.status);
}

-- `if (obs.family == AF_INET)` over the two sets of addresses.
abbrev pub update_ips : (List Text → List Text) → Bool → RemoteCandidate → RemoteCandidate
update_ips f true c = record c { ipv4 = f c.ipv4 }
update_ips f false c = record c { ipv6 = f c.ipv6 }

abbrev pub neighbor_key : NeighborObservation → NeighborEvidenceKey
neighbor_key obs = record { ifname = obs.ifname; family = obs.family; ip = obs.ip }

abbrev pub neighbor_event :
    ObservationEvent → Bool → NeighborObservation → RemoteCandidate → RemoteCandidate
neighbor_event present inet obs c = update_ips (Set.insert obs.ip) inet (record c {
  neighbor_evidence = Set.insert (neighbor_key obs) c.neighbor_evidence;
  neighbor_ifaces = Set.insert obs.ifname c.neighbor_ifaces;
  last_seen = obs.observed_at;
})
neighbor_event ObservationEvent.removed inet obs c = update_ips (Set.erase obs.ip) inet (record c {
  neighbor_evidence = Set.erase (neighbor_key obs) c.neighbor_evidence;
  neighbor_ifaces = Set.erase obs.ifname c.neighbor_ifaces;
})

-- The evidence that a neighbour observation leaves.
unfoldable pub add_neighbor : NeighborObservation → RemoteCandidate → RemoteCandidate
add_neighbor obs c =
    let c' = neighbor_event obs.event (obs.family == af_inet) obs c in
    record c' { seen_in_neigh = not (is_empty c'.neighbor_evidence) }

abbrev pub fdb_key : FdbObservation → FdbEvidenceKey
fdb_key obs = record { ifname = obs.port_ifname; mac = obs.mac }

-- `if (c.bridgePort == ifname) c.bridgePort.reset();`
abbrev pub reset_port : Text → Option Text → Option Text
reset_port ifname none = none
reset_port ifname (some port) = ite (text_discrete port ifname) none (some port)

abbrev pub fdb_event : ObservationEvent → FdbObservation → RemoteCandidate → RemoteCandidate
fdb_event present obs c = record c {
  fdb_evidence = Set.insert (fdb_key obs) c.fdb_evidence;
  bridge_port = some obs.port_ifname;
  last_seen = obs.observed_at;
}
fdb_event ObservationEvent.removed obs c = record c {
  fdb_evidence = Set.erase (fdb_key obs) c.fdb_evidence;
  bridge_port = reset_port obs.port_ifname c.bridge_port;
}

unfoldable pub add_fdb : FdbObservation → RemoteCandidate → RemoteCandidate
add_fdb obs c =
    let c' = fdb_event obs.event obs c in record c' { seen_in_fdb = not (is_empty c'.fdb_evidence) }

abbrev pub lldp_event : ObservationEvent → LldpObservation → RemoteCandidate → RemoteCandidate
lldp_event present obs c = record c {
  seen_in_lldp = true;
  remote_chassis_id = obs.remote_chassis_id;
  remote_port_id = obs.remote_port_id;
  remote_system_name = obs.remote_system_name;
  last_seen = obs.observed_at;
  neighbor_ifaces = Set.insert obs.local_ifname c.neighbor_ifaces;
}
lldp_event ObservationEvent.removed obs c = record c {
  seen_in_lldp = false;
  remote_chassis_id = none;
  remote_port_id = none;
  remote_system_name = none;
  neighbor_ifaces = Set.erase obs.local_ifname c.neighbor_ifaces;
}

unfoldable pub add_lldp : LldpObservation → RemoteCandidate → RemoteCandidate
add_lldp obs c = lldp_event obs.event obs c

-- What a keepalive revives.
abbrev pub revive_keepalive : CandidateStatus → CandidateStatus
revive_keepalive aged = confirmed
revive_keepalive expired = confirmed
revive_keepalive status = status

unfoldable pub keep_alive : RemoteCandidate → RemoteCandidate
keep_alive c = record c { status = revive_keepalive c.status }

abbrev pub age_status : Bool → Bool → CandidateStatus → CandidateStatus
age_status over_expire over_ageout CandidateStatus.removed = CandidateStatus.removed
age_status over_expire over_ageout provisional = provisional
age_status over_expire over_ageout status =
    if over_expire then expired else (if over_ageout then aged else status)

-- The loop body of `age`. A time before `lastSeen` counts as no time: then neither limit is passed.
unfoldable pub age_candidate : ModelConfig → ℕ → RemoteCandidate → RemoteCandidate
age_candidate config now c =
    let elapsed = now - c.last_seen in
    record c {
      status =
          age_status (ltb config.candidate_expire elapsed) (ltb config.candidate_ageout elapsed)
            c.status;
    }

-- The loop body of `prepareForRestart`.
unfoldable pub demote : RemoteCandidate → RemoteCandidate
demote c = record c {
  neighbor_evidence = [];
  fdb_evidence = [];
  seen_in_neigh = false;
  seen_in_fdb = false;
  seen_in_lldp = false;
  ipv4 = [];
  ipv6 = [];
  bridge_port = none;
  neighbor_ifaces = [];
  remote_chassis_id = none;
  remote_port_id = none;
  remote_system_name = none;
  classification = CandidateClassification.unknown;
  status = provisional;
  score = empty_candidate.score;
}

-- What `reconcileAffectedByLocalIp` and `reconcileByKey` write.
unfoldable pub hide : RemoteCandidate → RemoteCandidate
hide c = record c { classification = local_self; status = CandidateStatus.removed }
