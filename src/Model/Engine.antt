-- ===== src/Model/Engine.antt =====
-- services/network-observation/core/engine/ObservationModelEngine.cpp and .h. Each handler holds the
-- mutex while it works, so it is one step: from the engine to the engine and the events that the
-- sink receives. The two readings of the clock in a handler are its arguments `created` and `now`.
pub mod Mirror
pub mod Passes
pub mod Local
pub mod Invariant
pub mod Steps
pub mod Sweeps
pub mod Run
pub mod History
pub mod Lifecycle
use rmc_fabric.Base.{
  ℕ, Text, text_discrete, Bool, true, false, ◌&&◌, ◌||◌, not, if◌then◌else◌, ite, List, [], ◌∷◌,
  ◌++◌, Option, none, some, is_empty,
}
use rmc_fabric.Containers.Set
use rmc_fabric.Containers.Map
use rmc_fabric.Containers.Map.{map_values, keep_if}
use rmc_fabric.Model.Types.{
  text_ordered, LinkObservation, AddressObservation, NeighborObservation, FdbObservation,
  LldpObservation, ObservationEvent, present, RemoteCandidate, CandidateStatus, provisional,
  confirmed, CandidateStatus-discrete, CandidateClassification-discrete, InterfacePolicy,
  Classifier, ModelConfig, ModelEvent, ModelEventKind, local_interface_changed,
  local_interface_removed, local_address_changed, LocalNetworkSnapshot,
}
use rmc_fabric.Model.Policy.{default_policy}
use rmc_fabric.Model.HardFilter.{passes_neighbor, passes_fdb}
use rmc_fabric.Model.LldpUtils.{resolve_lldp_identity}
use rmc_fabric.Model.Classifier.{create_classifier}
use rmc_fabric.Model.LocalState
use rmc_fabric.Model.LocalState.{LocalStateTracker, extract_ip_from_cidr}
use rmc_fabric.Model.Candidate.{
  ModelPhase, initializing, live, is_confirmed_worthy, has_no_evidence, is_publishable,
  new_candidate, reconcile_status_locked, add_neighbor, add_fdb, add_lldp, keep_alive,
  age_candidate, demote, hide,
}
use rmc_fabric.Model.Events.{PendingEvents, no_events, record_event, record_erased, deliver_pending}

pub record Engine : Type 0 where
  pub config : ModelConfig
  -- Whether `sink_` is set.
  pub sink : Bool
  pub phase : ModelPhase
  pub interface_policy : InterfacePolicy
  pub classifier : Classifier
  pub local_state : LocalStateTracker
  pub candidates : List (Text × RemoteCandidate)

abbrev policy_or_default : Option InterfacePolicy → InterfacePolicy
policy_or_default none = default_policy
policy_or_default (some policy) = policy

-- The constructor.
unfoldable pub new_engine : ModelConfig → Engine
new_engine config = record {
  config = config;
  sink = false;
  phase = initializing;
  interface_policy = policy_or_default config.interface_policy;
  classifier = create_classifier config.classifier_config;
  local_state = LocalState.empty_tracker;
  candidates = [];
}

unfoldable pub set_event_sink : Engine → Bool → Engine
set_event_sink e sink = record e { sink = sink }

abbrev pub find : Engine → Text → Option RemoteCandidate
find e mac = Map.lookup text_discrete mac e.candidates

abbrev pub published : Option RemoteCandidate → Bool
published none = false
published (some c) = is_publishable c

-- The candidate that `getOrCreateCandidate` returns.
abbrev pub or_new : Option RemoteCandidate → Text → ℕ → RemoteCandidate
or_new none mac created = new_candidate mac created
or_new (some c) mac created = c

abbrev pub update_classification : Classifier → RemoteCandidate → RemoteCandidate
update_classification classify c = record c { classification = classify c }

abbrev pub store : Engine → Text → RemoteCandidate → Engine
store e mac c = record e { candidates = Map.insert text_discrete mac c e.candidates }

abbrev pub drop_candidate : Engine → Text → Engine
drop_candidate e mac = record e { candidates = Map.erase text_discrete mac e.candidates }

-- The end that the three handlers of remote observations share: the candidate with its new evidence
-- goes, or is classified, given its status and kept.
unfoldable pub settle :
    Engine → Text → Bool → RemoteCandidate → ObservationEvent → Engine × PendingEvents
settle e mac was c event =
    let kept = reconcile_status_locked e.phase (update_classification e.classifier c) event in
    if has_no_evidence c
    then (drop_candidate e mac, record_erased mac was no_events)
    else (store e mac kept, record_event mac was (is_publishable kept) no_events)

-- `deliverPending` after the lock is released.
abbrev pub delivered : ℕ → Engine × PendingEvents → Engine × List ModelEvent
delivered now (e, pending) = (e, deliver_pending e.sink now pending)

unfoldable pub on_neighbor_observation :
    Engine → NeighborObservation → ℕ → ℕ → Engine × List ModelEvent
unfolding settle
on_neighbor_observation e obs created now =
    let c = or_new (find e obs.mac) obs.mac created in
    let is_local_mac = LocalState.is_local_mac e.local_state obs.mac in
    let is_local_ip = LocalState.is_local_ip e.local_state obs.ip in
    if not (e.interface_policy.allow_remote_neighbor_evidence obs.ifname)
    then (e, [])
    else (if not (passes_neighbor e.config obs is_local_mac is_local_ip)
        then (e, [])
        else delivered now (settle e obs.mac (is_publishable c) (add_neighbor obs c) obs.event))

unfoldable pub on_fdb_observation : Engine → FdbObservation → ℕ → ℕ → Engine × List ModelEvent
unfolding settle
on_fdb_observation e obs created now =
    let c = or_new (find e obs.mac) obs.mac created in
    if not (e.interface_policy.allow_remote_fdb_evidence obs.port_ifname)
    then (e, [])
    else (if not (passes_fdb e.config obs (LocalState.is_local_mac e.local_state obs.mac))
        then (e, [])
        else delivered now (settle e obs.mac (is_publishable c) (add_fdb obs c) obs.event))

-- `c.status != oldStatus || c.classification != oldClassification`
unfoldable pub state_changed : RemoteCandidate → RemoteCandidate → Bool
state_changed c old =
    ite (CandidateStatus-discrete c.status old.status) false true
    || ite (CandidateClassification-discrete c.classification old.classification) false true

-- The branch of a keepalive: an event only if the status or the classification changed.
unfoldable pub settle_keepalive : Engine → Text → Bool → RemoteCandidate → Engine × PendingEvents
settle_keepalive e mac was c =
    let kept = keep_alive (update_classification e.classifier c) in
    let pending = record_event mac was (is_publishable kept) no_events in
    if has_no_evidence c
    then (drop_candidate e mac, record_erased mac was no_events)
    else (store e mac kept, if state_changed kept c then pending else no_events)

-- A keepalive is dropped unless it is a present one of a candidate that is known and not removed.
abbrev pub keepalive_target : ObservationEvent → Option RemoteCandidate → Option RemoteCandidate
keepalive_target present none = none
keepalive_target present (some c) =
    ite (CandidateStatus-discrete c.status CandidateStatus.removed) none (some c)
keepalive_target ObservationEvent.removed found = none

unfoldable pub on_keepalive : Engine → LldpObservation → Text → ℕ → Engine × List ModelEvent
unfolding settle_keepalive
on_keepalive e obs key now = elim (keepalive_target obs.event (find e key)) [
  | none ↦ (e, [])
  | some c ↦ delivered now (settle_keepalive e key (is_publishable c) (add_lldp obs c))
]

unfoldable pub on_lldp_observation : Engine → LldpObservation → ℕ → ℕ → Engine × List ModelEvent
unfolding settle on_keepalive
on_lldp_observation e obs created now =
    let key = resolve_lldp_identity obs.remote_chassis_id obs.remote_port_id in
    let c = or_new (find e key) key created in
    if not (e.interface_policy.allow_lldp_evidence obs.local_ifname)
    then (e, [])
    else (if is_empty key
        then (e, [])
        else (if obs.keepalive
            then on_keepalive e obs key now
            else delivered now (settle e key (is_publishable c) (add_lldp obs c) obs.event)))
