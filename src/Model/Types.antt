-- ===== src/Model/Types.antt =====
-- services/network-observation/core/public: the observations, the candidates, and the configuration
-- and the events.
mod Observations
mod Candidates
mod Config
pub use Observations.{
  ObservationEvent, FdbEntryKind, NeighborReachability, LinkObservation, AddressObservation,
  NeighborObservation, FdbObservation, LldpObservation, present, removed, unknown, dynamic, static,
  local, control_plane, permanent, no_arp, reachable, stale, probe, delay, incomplete, failed,
}
unfoldable pub use Observations.{af_inet}
pub use Candidates.{
  CandidateClassification, CandidateStatus, NeighborEvidenceKey, FdbEvidenceKey, CandidateScore,
  RemoteCandidate, LocalInterfaceState, LocalNetworkSnapshot, artifact, local_self, weak_candidate,
  probable_endpoint, remote_endpoint, gateway_like, topology_peer, unknown, provisional, confirmed,
  aged, expired, removed,
}
unfoldable pub use Candidates.{
  CandidateClassification-discrete, CandidateStatus-discrete, NeighborEvidenceKey-discrete,
  FdbEvidenceKey-discrete, text_ordered, neighbor_key_lt, fdb_key_lt, neighbor_key_ordered,
  fdb_key_ordered, empty_candidate, empty_interface,
}
pub use Config.{
  ScoringWeights, ScoringThresholds, ClassifierKind, ClassifierConfig, InterfacePolicy, ModelConfig,
  ModelEventKind, ModelEvent, rule_based, scoring, local_interface_changed, local_interface_removed,
  local_address_changed, candidate_added, candidate_updated, candidate_confirmed, candidate_aged,
  candidate_expired, candidate_removed, classification_changed,
}
unfoldable pub use Config.{default_weights, default_thresholds, Classifier, default_config}
