-- ===== src/Model/Engine/Invariant.antt =====
-- What holds of the engine's state after every handler.
use rmc_fabric.Base.{◌≡◌, refl, Text, text_discrete, Bool, true, false, not, is_empty, ◌==◌}
use rmc_fabric.Containers.Map
use rmc_fabric.Containers.Map.{map_values, keep_if}
use rmc_fabric.Containers.Map.All.{All}
use rmc_fabric.Model.Types.{
  text_ordered, RemoteCandidate, CandidateStatus, provisional, ObservationEvent, present,
  CandidateClassification, af_inet, NeighborObservation, FdbObservation, LldpObservation,
  Classifier,
}
use rmc_fabric.Model.Candidate.{
  ModelPhase, initializing, live, neighbor_event, add_neighbor, fdb_event, add_fdb, lldp_event,
  add_lldp, reconcile_status_locked, settle_status, revive,
}
use rmc_fabric.Model.Engine.{Engine, update_classification}

-- The candidate stands under its own MAC address, and the flags say which evidence there is.
pub record IsCandidate (mac : Text) (c : RemoteCandidate) : Type 0 where
  pub key : c.mac ≡ mac
  pub neigh : c.seen_in_neigh ≡ not (is_empty c.neighbor_evidence)
  pub fdb : c.seen_in_fdb ≡ not (is_empty c.fdb_evidence)

-- In the initial phase no candidate is confirmed, nor aged.
abbrev pub is_waiting : ModelPhase → CandidateStatus → Bool
is_waiting live status = true
is_waiting initializing provisional = true
is_waiting initializing CandidateStatus.removed = true
is_waiting initializing _ = false

pub record IsKept (phase : ModelPhase) (mac : Text) (c : RemoteCandidate) : Type 0 where
  pub is_candidate : IsCandidate mac c
  pub waiting : is_waiting phase c.status ≡ true

pub record EngineInv (e : Engine) : Type 0 where
  pub distinct : Map.IsDistinct text_discrete e.candidates
  pub kept : All (IsKept e.phase) e.candidates

module _ {mac : Text} where
  neighbor_event-fields :
      (event : ObservationEvent) (inet : Bool) (obs : NeighborObservation) (c : RemoteCandidate)
      → IsCandidate mac c
      → ((neighbor_event event inet obs c).mac ≡ mac)
        × ((neighbor_event event inet obs c).seen_in_fdb
            ≡ not (is_empty (neighbor_event event inet obs c).fdb_evidence))
  neighbor_event-fields present true obs c v = (v.key, v.fdb)
  neighbor_event-fields present false obs c v = (v.key, v.fdb)
  neighbor_event-fields ObservationEvent.removed true obs c v = (v.key, v.fdb)
  neighbor_event-fields ObservationEvent.removed false obs c v = (v.key, v.fdb)

  pub add_neighbor-IsCandidate :
      (obs : NeighborObservation) {c : RemoteCandidate}
      → IsCandidate mac c
      → IsCandidate mac (add_neighbor obs c)
  unfolding add_neighbor
  add_neighbor-IsCandidate obs {c} v =
      let fields = neighbor_event-fields obs.event (obs.family == af_inet) obs c v in
      record { key = fields.0; neigh = refl; fdb = fields.1 }

  fdb_event-fields :
      (event : ObservationEvent) (obs : FdbObservation) (c : RemoteCandidate)
      → IsCandidate mac c
      → ((fdb_event event obs c).mac ≡ mac)
        × ((fdb_event event obs c).seen_in_neigh
            ≡ not (is_empty (fdb_event event obs c).neighbor_evidence))
  fdb_event-fields present obs c v = (v.key, v.neigh)
  fdb_event-fields ObservationEvent.removed obs c v = (v.key, v.neigh)

  pub add_fdb-IsCandidate :
      (obs : FdbObservation) {c : RemoteCandidate}
      → IsCandidate mac c
      → IsCandidate mac (add_fdb obs c)
  unfolding add_fdb
  add_fdb-IsCandidate obs {c} v =
      let fields = fdb_event-fields obs.event obs c v in
      record { key = fields.0; neigh = fields.1; fdb = refl }

  lldp_event-IsCandidate :
      (event : ObservationEvent) (obs : LldpObservation) {c : RemoteCandidate}
      → IsCandidate mac c
      → IsCandidate mac (lldp_event event obs c)
  lldp_event-IsCandidate present obs v = record { key = v.key; neigh = v.neigh; fdb = v.fdb }
  lldp_event-IsCandidate ObservationEvent.removed obs v = record {
    key = v.key;
    neigh = v.neigh;
    fdb = v.fdb;
  }

  pub add_lldp-IsCandidate :
      (obs : LldpObservation) {c : RemoteCandidate}
      → IsCandidate mac c
      → IsCandidate mac (add_lldp obs c)
  unfolding add_lldp
  add_lldp-IsCandidate obs v = lldp_event-IsCandidate obs.event obs v

settle_status-waiting :
    (phase : ModelPhase) (cls : CandidateClassification) (status : CandidateStatus)
    → is_waiting phase (settle_status phase cls status) ≡ true
settle_status-waiting initializing cls CandidateStatus.removed = refl
settle_status-waiting initializing cls _ = refl
settle_status-waiting live cls status = refl

pub settled-IsKept :
    (phase : ModelPhase) (mac : Text) (classify : Classifier) (c : RemoteCandidate)
    (event : ObservationEvent)
    → IsCandidate mac c
    → IsKept phase mac (reconcile_status_locked phase (update_classification classify c) event)
unfolding reconcile_status_locked
settled-IsKept phase mac classify c event v = record {
  is_candidate = record { key = v.key; neigh = v.neigh; fdb = v.fdb };
  waiting = settle_status-waiting phase (classify c) (revive event c.status);
}
